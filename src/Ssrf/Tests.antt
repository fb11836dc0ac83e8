-- ===== src/Ssrf/Tests.antt =====
-- A resolver that knows two names, one of which it answers with a private address too.
use kubezap_operator.Base.{
  ◌+◌, ◌*◌, ◌^◌, String, ◌≡◌, ◌≢◌, ◌↔◌, refl, true, false, Option, none, some, List, [], ◌∷◌, ◌==◌,
  if◌then◌else◌,
}
use kubezap_operator.Ssrf.{
  Network, invalid_cidr, blocked_ip, resolves_to_blocked, cluster_internal, parse_cidr_list,
  check_ssrf,
}
use kubezap_operator.Ssrf.Address.{Ip, v4, cidr4}
use kubezap_operator.Ssrf.Executor.{dial_ip, check_ssrf_preflight, dial_context}
use kubezap_operator.Ssrf.Laws.{DialsSafely, dial_context-Safe}
use kubezap_operator.Ssrf.Agree.{IsDialed, checks_agree}

abbrev public_ip : Ip
public_ip = v4 (93 * 2 ^ 24 + 184 * 2 ^ 16 + 34)

abbrev metadata_ip : Ip
metadata_ip = v4 (169 * 2 ^ 24 + 254 * 2 ^ 16 + 169 * 2 ^ 8 + 254)

abbrev answers : String → Option (List Ip)
answers name =
    if name == "example.com"
    then some (public_ip ∷ [])
    else if name == "rebind.example.com"
    then some (public_ip ∷ metadata_ip ∷ [])
    else none

-- A text of a URL is its host name here.
abbrev network : Network
network = record {
  parse_cidr = λ s. if s == "93.0.0.0/8" then some (cidr4 93 0 0 0 8) else none;
  parse_ip = λ s. if s == "169.254.169.254" then some metadata_ip else none;
  hostname = some;
  lookup_ip = answers;
  trim_space = λ s. s;
}

public_name_passes : check_ssrf network "example.com" none false ≡ none
unfolding check_ssrf
public_name_passes = refl

metadata_is_blocked :
    check_ssrf network "169.254.169.254" none true
    ≡ some (blocked_ip metadata_ip (cidr4 169 254 0 0 16))
unfolding check_ssrf
metadata_is_blocked = refl

one_private_answer_blocks :
    check_ssrf network "rebind.example.com" none false
    ≡ some (resolves_to_blocked "rebind.example.com" metadata_ip (cidr4 169 254 0 0 16))
unfolding check_ssrf
one_private_answer_blocks = refl

cluster_name_blocks :
    check_ssrf network "db.prod.svc.cluster.local" none false ≡ some cluster_internal
unfolding check_ssrf
cluster_name_blocks = refl

extra_range_blocks :
    dial_context network false (some (cidr4 93 0 0 0 8 ∷ [])) "example.com" ≢ dial_ip public_ip
unfolding dial_context
extra_range_blocks h = cc h

bad_range_is_named : parse_cidr_list network "93.0.0.0/8,,none" ≡ invalid_cidr "none"
unfolding parse_cidr_list
bad_range_is_named = refl

dial_context-Safe_example :
    DialsSafely network false none "example.com" (dial_context network false none "example.com")
dial_context-Safe_example = dial_context-Safe network false none "example.com"

checks_agree_example : (check_ssrf network "rebind.example.com" none false ≡ none) ↔ (
    (check_ssrf_preflight network "rebind.example.com" false ≡ none)
    × IsDialed (dial_context network false none "rebind.example.com"))
checks_agree_example =
    checks_agree network "rebind.example.com" "rebind.example.com" none false refl (λ h. cc h)
