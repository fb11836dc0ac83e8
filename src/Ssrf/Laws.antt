-- ===== src/Ssrf/Laws.antt =====
-- Which addresses the default ranges block, and that the executor connects to no blocked address.
use kubezap_operator.Base.{
  ◌+◌, ◌*◌, ◌^◌, ◌≤◌, ◌<◌, String, ◌≡◌, ◌≢◌, ◌↔◌, ◌⊎◌, inl, inr, refl, sym, subst, ◌∙◌, Bool, true,
  false, Option, none, some, List, [], ◌∷◌, ◌++◌, All, arith, Bool-cases, Option-cases,
}
use mathlib.Core.List.{append-nil, append_assoc}
use kubezap_operator.Ssrf.{Network, default_blocked_cidrs, blocking, is_cluster_internal}
use kubezap_operator.Ssrf.Address.{Ip, v4, v6, IpNet, contains}
use kubezap_operator.Ssrf.Executor.{
  executor_blocked_cidrs, blocked_or_executor, Resolved, refused, validated, Dial, dial_error,
  dial_ip, dial_name, validate_addrs, resolve_and_validate, dial_context, dial_validated, literal,
  resolve_target, validate_lookup,
}

-- No range holds the address.
abbrev pub Outside : List IpNet → Ip → Type 0
Outside blocked ip = All (λ cidr. contains cidr ip ≡ false) blocked

pub blocking-Outside :
    (ip : Ip) (blocked : List IpNet) → blocking ip blocked ≡ none → Outside blocked ip
unfolding blocking
blocking-Outside ip [] h = tt
blocking-Outside ip (cidr ∷ rest) h = elim (Bool-cases (contains cidr ip)) [
  | inl e ↦ absurd (cc (rw e at h))
  | inr e ↦ (e, blocking-Outside ip rest (rw e at h))
]

pub Outside-blocking :
    (ip : Ip) (blocked : List IpNet) → Outside blocked ip → blocking ip blocked ≡ none
unfolding blocking
Outside-blocking ip [] o = refl
Outside-blocking ip (cidr ∷ rest) (e, o) = rw e (Outside-blocking ip rest o)

-- The addresses that no HTTP step may reach: private, shared, loopback, link-local and this-host
-- ones, of which 169.254.0.0/16 has the metadata services of clouds.
abbrev pub Reserved : Ip → Type 0
Reserved (v4 n) =
    (n < 2 ^ 24)
    ⊎ ((10 * 2 ^ 24 ≤ n) × (n < 11 * 2 ^ 24))
    ⊎ ((100 * 2 ^ 24 + 64 * 2 ^ 16 ≤ n) × (n < 100 * 2 ^ 24 + 128 * 2 ^ 16))
    ⊎ ((127 * 2 ^ 24 ≤ n) × (n < 128 * 2 ^ 24))
    ⊎ ((169 * 2 ^ 24 + 254 * 2 ^ 16 ≤ n) × (n < 169 * 2 ^ 24 + 255 * 2 ^ 16))
    ⊎ ((172 * 2 ^ 24 + 16 * 2 ^ 16 ≤ n) × (n < 172 * 2 ^ 24 + 32 * 2 ^ 16))
    ⊎ ((192 * 2 ^ 24 + 168 * 2 ^ 16 ≤ n) × (n < 192 * 2 ^ 24 + 169 * 2 ^ 16))
Reserved (v6 n) =
    (n ≡ 1)
    ⊎ ((0xfc00 * 2 ^ 112 ≤ n) × (n < 0xfe00 * 2 ^ 112))
    ⊎ ((0xfe80 * 2 ^ 112 ≤ n) × (n < 0xfec0 * 2 ^ 112))

controller_blocks : (ip : Ip) → (blocking ip default_blocked_cidrs ≢ none) → Reserved ip
unfolding blocking default_blocked_cidrs
controller_blocks (v4 n) h = ground arith
controller_blocks (v6 n) h = ground arith

controller_covers : (ip : Ip) → Reserved ip → blocking ip default_blocked_cidrs ≢ none
unfolding blocking default_blocked_cidrs
controller_covers (v4 n) h = ground arith
controller_covers (v6 n) h = ground arith

executor_blocks : (ip : Ip) → (blocking ip executor_blocked_cidrs ≢ none) → Reserved ip
unfolding blocking executor_blocked_cidrs
executor_blocks (v4 n) h = ground arith
executor_blocks (v6 n) h = ground arith

executor_covers : (ip : Ip) → Reserved ip → blocking ip executor_blocked_cidrs ≢ none
unfolding blocking executor_blocked_cidrs
executor_covers (v4 n) h = ground arith
executor_covers (v6 n) h = ground arith

-- The default ranges of the controller block exactly the private, shared, loopback, link-local and
-- this-host addresses, and so do those of the executor.
pub default_blocks_iff :
    (ip : Ip)
    → ((blocking ip default_blocked_cidrs ≢ none) ↔ Reserved ip)
      × ((blocking ip executor_blocked_cidrs ≢ none) ↔ Reserved ip)
default_blocks_iff ip =
    ((controller_blocks ip, controller_covers ip), (executor_blocks ip, executor_covers ip))

module _ (net : Network) (host : String) (blocked : List IpNet) where
  pub validate_addrs-Outside :
      (addrs passed : List Ip) {l : List Ip}
      → validate_addrs net host blocked passed addrs ≡ validated l
      → (l ≡ passed ++ addrs) × All (Outside blocked) addrs
  unfolding validate_addrs
  validate_addrs-Outside [] passed h = (cc (append-nil passed), tt)
  validate_addrs-Outside (ip ∷ rest) passed {l} h = elim (Option-cases (blocking ip blocked)) [
    | inl e ↦
        let (p, o) = validate_addrs-Outside rest (passed ++ (ip ∷ [])) {l = l} (rw e at h) in
        (p ∙ append_assoc passed (ip ∷ []) rest, (blocking-Outside ip blocked e, o))
    | inr (cidr, e) ↦ absurd (cc (rw e at h))
  ]

-- What dialContext may do: it connects to an address that no range holds, the one that the host
-- name is or the first that one lookup returned, or to a name of the cluster where that is allowed.
abbrev pub DialsSafely : Network → Bool → Option (List IpNet) → String → Dial → Type 0
DialsSafely net allow blocked host (dial_error e) = Unit
DialsSafely net allow blocked host (dial_ip ip) =
    Outside (blocked_or_executor blocked) ip
    × ((net.parse_ip host ≡ some ip) ⊎ ((rest : List Ip) × (net.lookup_ip host ≡ some (ip ∷ rest))))
DialsSafely net allow blocked host (dial_name name) =
    (name ≡ host) × (is_cluster_internal host ≡ true) × (allow ≡ true)

module _ (net : Network) (allow : Bool) (blocked : Option (List IpNet)) (host : String) where
  validated-Safe :
      (ip : Ip) (rest : List Ip) (r : Resolved)
      → net.lookup_ip host ≡ some (ip ∷ rest)
      → validate_addrs net host (blocked_or_executor blocked) [] (ip ∷ rest) ≡ r
      → DialsSafely net allow blocked host (dial_validated net host r)
  validated-Safe ip rest (refused e) l h = tt
  validated-Safe ip rest (validated []) l h = tt
  validated-Safe ip rest (validated (first ∷ others)) l h =
      let (p, o) =
        validate_addrs-Outside net host (blocked_or_executor blocked) (ip ∷ rest) []
          {l = first ∷ others} h in
      let same : first ≡ ip = cc p in
      (subst (Outside (blocked_or_executor blocked)) (sym same) o.0, inr (rest, rw same l))

  lookup-Safe :
      (found : Option (List Ip))
      → net.lookup_ip host ≡ found
      → DialsSafely net allow blocked host
          (dial_validated net host (validate_lookup net host (blocked_or_executor blocked) found))
  lookup-Safe none l = tt
  lookup-Safe (some []) l = tt
  lookup-Safe (some (ip ∷ rest)) l = validated-Safe ip rest _ l refl

  literal-Safe :
      (ip : Ip) (o : Option IpNet)
      → net.parse_ip host ≡ some ip
      → blocking ip (blocked_or_executor blocked) ≡ o
      → DialsSafely net allow blocked host (dial_validated net host (literal net ip o))
  literal-Safe ip none p b = (blocking-Outside ip (blocked_or_executor blocked) b, inl p)
  literal-Safe ip (some cidr) p b = tt

  target-Safe :
      (o : Option Ip)
      → net.parse_ip host ≡ o
      → DialsSafely net allow blocked host
          (dial_validated net host (resolve_target net host (blocked_or_executor blocked) o))
  target-Safe none p = lookup-Safe (net.lookup_ip host) refl
  target-Safe (some ip) p = literal-Safe ip (blocking ip (blocked_or_executor blocked)) p refl

  -- Whatever the resolver answers, the executor connects only to an address that no range holds,
  -- which is the host name itself or the first that one lookup of it returned, or, where that is
  -- allowed, to a service of the cluster.
  pub dial_context-Safe : DialsSafely net allow blocked host (dial_context net allow blocked host)
  unfolding dial_context resolve_and_validate
  dial_context-Safe = elim (Bool-cases (is_cluster_internal host)) [
    | inl c ↦ elim (Bool-cases allow) [
      | inl a ↦ rw c (rw a (refl, c, refl))
      | inr a ↦ rw c (rw a tt)
    ]
    | inr c ↦ rw c (target-Safe (net.parse_ip host) refl)
  ]
