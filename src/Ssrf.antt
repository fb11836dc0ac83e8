-- ===== src/Ssrf.antt =====
-- internal/controller/ssrf.go: the check of a URL before an HTTP step is sent to the executor.
pub mod Address
pub mod Executor
pub mod Laws
pub mod Agree
mod Tests
use kubezap_operator.Base.{
  String, Bool, true, false, ◌||◌, Option, none, some, List, [], ◌∷◌, ◌++◌, ◌==◌, if◌then◌else◌,
}
use kubezap_operator.Base.Text.{split, ends_with}
use Address.{Ip, IpNet, contains, cidr4, cidr6}

-- What the checks use of net and net/url, and the answers of the resolver.
pub record Network : Type 0 where
  -- net.ParseCIDR, of a text that is a range.
  pub parse_cidr : String → Option IpNet
  -- net.ParseIP, then To4.
  pub parse_ip : String → Option Ip
  -- The Hostname of url.Parse, of a text that is a URL.
  pub hostname : String → Option String
  -- LookupIPAddr, where it does not fail.
  pub lookup_ip : String → Option (List Ip)
  pub trim_space : String → String

pub data SsrfError : Type 0 where
  invalid_url no_hostname cluster_internal : SsrfError
  blocked_ip : Ip → IpNet → SsrfError
  lookup_failed : String → SsrfError
  resolves_to_blocked : String → Ip → IpNet → SsrfError
  no_addresses : String → SsrfError

unfoldable pub default_blocked_cidrs : List IpNet
default_blocked_cidrs =
    cidr4 10 0 0 0 8
    ∷ cidr4 172 16 0 0 12
    ∷ cidr4 192 168 0 0 16
    ∷ cidr4 127 0 0 0 8
    ∷ cidr4 169 254 0 0 16
    ∷ cidr4 0 0 0 0 8
    ∷ cidr6 0 1 128
    ∷ cidr6 0xfe80 0 10
    ∷ cidr6 0xfc00 0 7
    ∷ cidr4 100 64 0 0 10
    ∷ []

-- isBlockedIP: the first range that holds the address.
unfoldable pub blocking : Ip → List IpNet → Option IpNet
blocking ip [] = none
blocking ip (cidr ∷ rest) =
    let later = blocking ip rest in if contains cidr ip then some cidr else later

-- The ranges of a nil list.
abbrev pub blocked_or_default : Option (List IpNet) → List IpNet
blocked_or_default none = default_blocked_cidrs
blocked_or_default (some cidrs) = cidrs

unfoldable pub is_cluster_internal : String → Bool
unfolding ends_with
is_cluster_internal hostname =
    ends_with hostname ".svc.cluster.local" || ends_with hostname ".svc.cluster.local."

-- `([]*net.IPNet, error)` of ParseCIDRList: the error has the text that is no range.
pub data CidrList : Type 0 where
  invalid_cidr : String → CidrList
  cidr_list : List IpNet → CidrList

module _ (net : Network) where
  open net use {parse_cidr, parse_ip, hostname, lookup_ip, trim_space}

  abbrev pub with_cidr : String → Option IpNet → (IpNet → CidrList) → CidrList
  with_cidr text none next = invalid_cidr text
  with_cidr text (some cidr) next = next cidr

  -- The loop over the comma-separated texts.
  unfoldable pub add_cidrs : List IpNet → List String → CidrList
  add_cidrs result [] = cidr_list result
  add_cidrs result (raw ∷ rest) =
      let blank = add_cidrs result rest in
      let added =
        with_cidr (trim_space raw) (parse_cidr (trim_space raw))
          (λ cidr. add_cidrs (result ++ (cidr ∷ [])) rest) in
      if trim_space raw == "" then blank else added

  unfoldable pub parse_cidr_list : String → CidrList
  unfolding add_cidrs default_blocked_cidrs split
  parse_cidr_list extra =
      if trim_space extra == ""
      then cidr_list default_blocked_cidrs
      else add_cidrs default_blocked_cidrs (split b',' extra)

  abbrev pub literal_error : Ip → Option IpNet → Option SsrfError
  literal_error ip none = none
  literal_error ip (some cidr) = some (blocked_ip ip cidr)

  abbrev pub first_error : String → Ip → Option IpNet → Option SsrfError → Option SsrfError
  first_error host ip none later = later
  first_error host ip (some cidr) later = some (resolves_to_blocked host ip cidr)

  -- The loop over the addresses that the resolver returns.
  unfoldable pub check_addrs : String → List IpNet → List Ip → Option SsrfError
  unfolding blocking
  check_addrs host blocked [] = none
  check_addrs host blocked (ip ∷ rest) =
      first_error host ip (blocking ip blocked) (check_addrs host blocked rest)

  abbrev pub check_lookup : String → List IpNet → Option (List Ip) → Option SsrfError
  check_lookup host blocked none = some (lookup_failed host)
  check_lookup host blocked (some addrs) = check_addrs host blocked addrs

  abbrev pub check_target : String → List IpNet → Option Ip → Option SsrfError
  check_target host blocked (some ip) = literal_error ip (blocking ip blocked)
  check_target host blocked none = check_lookup host blocked (lookup_ip host)

  unfoldable pub check_host : String → List IpNet → Bool → Option SsrfError
  unfolding is_cluster_internal check_addrs blocking
  check_host host blocked allow =
      if host == ""
      then some no_hostname
      else if is_cluster_internal host
      then if allow then none else some cluster_internal
      else check_target host blocked (parse_ip host)

  abbrev pub check_parsed : Option String → List IpNet → Bool → Option SsrfError
  check_parsed none blocked allow = some invalid_url
  check_parsed (some host) blocked allow = check_host host blocked allow

  -- checkSSRF: none where the URL is safe.
  unfoldable pub check_ssrf : String → Option (List IpNet) → Bool → Option SsrfError
  unfolding check_host default_blocked_cidrs
  check_ssrf raw_url blocked allow =
      check_parsed (hostname raw_url) (blocked_or_default blocked) allow
