-- ===== src/Ssrf/Executor.antt =====
-- internal/executor/http: checkSSRFPreflight and resolveAndValidate (ssrf.go), and dialContext
-- (handler.go), through which each connection of the executor goes.
use kubezap_operator.Base.{
  String, Bool, Option, none, some, List, [], ◌∷◌, ◌++◌, ◌==◌, if◌then◌else◌,
}
use kubezap_operator.Ssrf.{
  Network, SsrfError, invalid_url, no_hostname, cluster_internal, blocked_ip, lookup_failed,
  resolves_to_blocked, no_addresses, blocking, is_cluster_internal,
}
use kubezap_operator.Ssrf.Address.{Ip, IpNet, cidr4, cidr6}

unfoldable pub ssrf_blocked_cidrs_v4 : List IpNet
ssrf_blocked_cidrs_v4 =
    cidr4 10 0 0 0 8
    ∷ cidr4 172 16 0 0 12
    ∷ cidr4 192 168 0 0 16
    ∷ cidr4 127 0 0 0 8
    ∷ cidr4 169 254 0 0 16
    ∷ cidr4 0 0 0 0 8
    ∷ cidr4 100 64 0 0 10
    ∷ []

unfoldable pub ssrf_blocked_cidrs_v6 : List IpNet
ssrf_blocked_cidrs_v6 = cidr6 0 1 128 ∷ cidr6 0xfe80 0 10 ∷ cidr6 0xfc00 0 7 ∷ []

unfoldable pub executor_blocked_cidrs : List IpNet
unfolding ssrf_blocked_cidrs_v4 ssrf_blocked_cidrs_v6
executor_blocked_cidrs = ssrf_blocked_cidrs_v4 ++ ssrf_blocked_cidrs_v6

abbrev pub blocked_or_executor : Option (List IpNet) → List IpNet
blocked_or_executor none = executor_blocked_cidrs
blocked_or_executor (some cidrs) = cidrs

-- `([]net.IP, error)` of resolveAndValidate.
pub data Resolved : Type 0 where
  refused : SsrfError → Resolved
  validated : List Ip → Resolved

-- What dialContext does: it fails, or dials an address that it checked, or the host name.
pub data Dial : Type 0 where
  dial_error : SsrfError → Dial
  dial_ip : Ip → Dial
  dial_name : String → Dial

module _ (net : Network) where
  open net use {parse_ip, hostname, lookup_ip}

  abbrev pub preflight_host : Option String → Bool → Option SsrfError
  preflight_host none allow = some invalid_url
  preflight_host (some host) allow =
      if host == ""
      then some no_hostname
      else if is_cluster_internal host
      then if allow then none else some cluster_internal
      else none

  unfoldable pub check_ssrf_preflight : String → Bool → Option SsrfError
  unfolding is_cluster_internal
  check_ssrf_preflight raw_url allow = preflight_host (hostname raw_url) allow

  abbrev pub literal : Ip → Option IpNet → Resolved
  literal ip none = validated (ip ∷ [])
  literal ip (some cidr) = refused (blocked_ip ip cidr)

  abbrev pub keep_addr : String → Ip → Option IpNet → Resolved → Resolved
  keep_addr host ip none later = later
  keep_addr host ip (some cidr) later = refused (resolves_to_blocked host ip cidr)

  -- The loop of resolveAndValidate, with the addresses that passed so far.
  unfoldable pub validate_addrs : String → List IpNet → List Ip → List Ip → Resolved
  unfolding blocking
  validate_addrs host blocked passed [] = validated passed
  validate_addrs host blocked passed (ip ∷ rest) =
      keep_addr host ip (blocking ip blocked)
        (validate_addrs host blocked (passed ++ (ip ∷ [])) rest)

  abbrev pub validate_lookup : String → List IpNet → Option (List Ip) → Resolved
  validate_lookup host blocked none = refused (lookup_failed host)
  validate_lookup host blocked (some []) = refused (no_addresses host)
  validate_lookup host blocked (some (ip ∷ rest)) = validate_addrs host blocked [] (ip ∷ rest)

  abbrev pub resolve_target : String → List IpNet → Option Ip → Resolved
  resolve_target host blocked (some ip) = literal ip (blocking ip blocked)
  resolve_target host blocked none = validate_lookup host blocked (lookup_ip host)

  unfoldable pub resolve_and_validate : String → Option (List IpNet) → Resolved
  unfolding validate_addrs executor_blocked_cidrs
  resolve_and_validate host blocked =
      resolve_target host (blocked_or_executor blocked) (parse_ip host)

  -- `validated[0]`; resolveAndValidate returns no empty list.
  abbrev pub dial_validated : String → Resolved → Dial
  dial_validated host (refused e) = dial_error e
  dial_validated host (validated []) = dial_error (no_addresses host)
  dial_validated host (validated (ip ∷ rest)) = dial_ip ip

  -- dialContext, of the host of an address that SplitHostPort takes.
  unfoldable pub dial_context : Bool → Option (List IpNet) → String → Dial
  unfolding is_cluster_internal resolve_and_validate
  dial_context allow_cluster_internal blocked host =
      if is_cluster_internal host
      then if allow_cluster_internal then dial_name host else dial_error cluster_internal
      else dial_validated host (resolve_and_validate host blocked)
