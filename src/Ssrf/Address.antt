-- ===== src/Ssrf/Address.antt =====
-- What the SSRF checks use of Go's package net: addresses, ranges of addresses and IPNet.Contains.
use kubezap_operator.Base.{ℕ, ◌+◌, ◌-◌, ◌*◌, ◌/◌, ◌^◌, Bool, false, eqb}

-- An address after To4: a number of 32 bits, or of 128 bits where it is not an IPv4 address.
pub data Ip : Type 0 where
  v4 v6 : ℕ → Ip

-- An address of the range, and the number of leading bits that its addresses share.
pub record IpNet : Type 0 where
  pub base : Ip
  pub prefix : ℕ

abbrev pub same_prefix : ℕ → ℕ → ℕ → ℕ → Bool
same_prefix width prefix base ip = eqb (base / 2 ^ (width - prefix)) (ip / 2 ^ (width - prefix))

-- `cidr.Contains(ip)`: the families agree, and so do the bits under the mask.
abbrev pub holds : Ip → ℕ → Ip → Bool
holds (v4 base) prefix (v4 ip) = same_prefix 32 prefix base ip
holds (v4 base) prefix (v6 ip) = false
holds (v6 base) prefix (v4 ip) = false
holds (v6 base) prefix (v6 ip) = same_prefix 128 prefix base ip

abbrev pub contains : IpNet → Ip → Bool
contains cidr ip = holds cidr.base cidr.prefix ip

-- The IPv4 range `a.b.c.d/prefix`.
abbrev pub cidr4 : ℕ → ℕ → ℕ → ℕ → ℕ → IpNet
cidr4 a b c d prefix = record {
  base = v4 (a * 2 ^ 24 + b * 2 ^ 16 + c * 2 ^ 8 + d);
  prefix = prefix;
}

-- The IPv6 range with the first group `high` and the last `low`, the others 0.
abbrev pub cidr6 : ℕ → ℕ → ℕ → IpNet
cidr6 high low prefix = record { base = v6 (high * 2 ^ 112 + low); prefix = prefix }
