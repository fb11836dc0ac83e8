-- ===== src/Ssrf/Agree.antt =====
-- The controller's check of a URL (checkSSRF) and the executor's, before and at the connection
-- (checkSSRFPreflight, dialContext), decide alike.
use mathlib.Core.List.{append-nil, append_assoc}
use kubezap_operator.Base.{
  String, ◌≡◌, ◌≢◌, ◌↔◌, inl, inr, refl, ap, ◌∙◌, Bool, Option, none, some, List, [], ◌∷◌, ◌++◌,
  ◌==◌, All, Bool-cases, Option-cases,
}
use kubezap_operator.Ssrf.{
  default_blocked_cidrs, Network, blocking, is_cluster_internal, check_addrs, check_lookup,
  check_target, check_host, literal_error, check_parsed, check_ssrf,
}
use kubezap_operator.Ssrf.Address.{Ip, IpNet}
use kubezap_operator.Ssrf.Executor.{
  executor_blocked_cidrs, Resolved, refused, validated, Dial, dial_error, dial_ip, dial_name,
  validate_addrs, validate_lookup, resolve_target, resolve_and_validate, dial_validated,
  dial_context, check_ssrf_preflight, literal,
}
use kubezap_operator.Ssrf.Laws.{
  default_blocks_iff, Outside, Outside-blocking, validate_addrs-Outside,
}

-- A connection is made.
abbrev pub IsDialed : Dial → Type 0
IsDialed (dial_error e) = ⊥
IsDialed (dial_ip ip) = Unit
IsDialed (dial_name name) = Unit

module _ (net : Network) (host : String) (blocked : List IpNet) where
  checked_validates :
      (addrs passed : List Ip)
      → check_addrs net host blocked addrs ≡ none
      → validate_addrs net host blocked passed addrs ≡ validated (passed ++ addrs)
  unfolding check_addrs validate_addrs
  checked_validates [] passed h = rw append-nil
  checked_validates (ip ∷ rest) passed h = elim (Option-cases (blocking ip blocked)) [
    | inl e ↦ rw e (
        checked_validates rest (passed ++ (ip ∷ [])) (rw e at h)
        ∙ ap validated (append_assoc passed (ip ∷ []) rest))
    | inr (cidr, e) ↦ absurd (cc (rw e at h))
  ]

  outside_checks :
      (addrs : List Ip) → All (Outside blocked) addrs → check_addrs net host blocked addrs ≡ none
  unfolding check_addrs
  outside_checks [] o = refl
  outside_checks (ip ∷ rest) (o, os) = rw (Outside-blocking ip blocked o) (outside_checks rest os)

  dialed_checks :
      (addrs : List Ip) (r : Resolved)
      → validate_addrs net host blocked [] addrs ≡ r
      → IsDialed (dial_validated net host r)
      → check_addrs net host blocked addrs ≡ none
  dialed_checks addrs (refused e) v d = absurd d
  dialed_checks addrs (validated l) v d =
      outside_checks addrs (validate_addrs-Outside net host blocked addrs [] {l = l} v).1

  lookup_agree :
      (found : Option (List Ip))
      → found ≢ some []
      → (check_lookup net host blocked found ≡ none)
        ↔ IsDialed (dial_validated net host (validate_lookup net host blocked found))
  lookup_agree none n = ((λ h. cc), λ d. absurd d)
  lookup_agree (some []) n = absurd (n refl)
  lookup_agree (some (ip ∷ rest)) n =
      ((λ h. rw (checked_validates (ip ∷ rest) [] h) tt), dialed_checks (ip ∷ rest) _ refl)

  literal_agree :
      (ip : Ip) (o : Option IpNet)
      → (literal_error net ip o ≡ none) ↔ IsDialed (dial_validated net host (literal net ip o))
  literal_agree ip none = ((λ h. tt), λ d. refl)
  literal_agree ip (some cidr) = ((λ h. cc), λ d. absurd d)

  target_agree :
      (o : Option Ip)
      → net.lookup_ip host ≢ some []
      → (check_target net host blocked o ≡ none)
        ↔ IsDialed (dial_validated net host (resolve_target net host blocked o))
  target_agree none n = lookup_agree (net.lookup_ip host) n
  target_agree (some ip) n = literal_agree ip (blocking ip blocked)

given_agree :
    (net : Network) (raw_url host : String) (blocked : List IpNet) (allow : Bool)
    → net.hostname raw_url ≡ some host
    → net.lookup_ip host ≢ some []
    → (check_ssrf net raw_url (some blocked) allow ≡ none) ↔ (
        (check_ssrf_preflight net raw_url allow ≡ none)
        × IsDialed (dial_context net allow (some blocked) host))
unfolding check_ssrf check_host check_ssrf_preflight dial_context resolve_and_validate
given_agree net raw_url host blocked allow e n = rw e (elim (Bool-cases (host == "")) [
  | inl b ↦ rw b ((λ h. cc), λ h. cc)
  | inr b ↦ rw b (elim (Bool-cases (is_cluster_internal host)) [
    | inl c ↦ rw c (elim (Bool-cases allow) [
      | inl a ↦ rw a ((λ h. (refl, tt)), λ h. refl)
      | inr a ↦ rw a ((λ h. cc), λ h. cc)
    ])
    | inr c ↦ rw c (
        let (to, from) = target_agree net host blocked (net.parse_ip host) n in
        ((λ h. (refl, to h)), λ (p, d). from d))
  ])
])

-- What passes under the ranges `wide` passes under `same`.
module _ (net : Network) (wide same : List IpNet)
    (passes : (ip : Ip) → blocking ip wide ≡ none → blocking ip same ≡ none) where
  addrs_pass :
      (host : String) (addrs : List Ip)
      → check_addrs net host wide addrs ≡ none
      → check_addrs net host same addrs ≡ none
  unfolding check_addrs
  addrs_pass host [] h = refl
  addrs_pass host (ip ∷ rest) h = elim (Option-cases (blocking ip wide)) [
    | inl e ↦ rw (passes ip e) (addrs_pass host rest (rw e at h))
    | inr (cidr, e) ↦ absurd (cc (rw e at h))
  ]

  lookup_pass :
      (host : String) (o : Option (List Ip))
      → check_lookup net host wide o ≡ none
      → check_lookup net host same o ≡ none
  lookup_pass host none h = absurd (cc h)
  lookup_pass host (some addrs) h = addrs_pass host addrs h

  target_pass :
      (host : String) (o : Option Ip)
      → check_target net host wide o ≡ none
      → check_target net host same o ≡ none
  target_pass host none h = lookup_pass host (net.lookup_ip host) h
  target_pass host (some ip) h = elim (Option-cases (blocking ip wide)) [
    | inl e ↦ rw (passes ip e) refl
    | inr (cidr, e) ↦ absurd (cc (rw e at h))
  ]

  host_pass :
      (host : String) (allow : Bool)
      → check_host net host wide allow ≡ none
      → check_host net host same allow ≡ none
  unfolding check_host
  host_pass host allow h = elim (Bool-cases (host == "")) [
    | inl b ↦ absurd (cc (rw b at h))
    | inr b ↦ elim (Bool-cases (is_cluster_internal host)) [
      | inl c ↦ rw (b, c) (rw (b, c) at h)
      | inr c ↦ rw (b, c) (target_pass host (net.parse_ip host) (rw (b, c) at h))
    ]
  ]

  ssrf_pass :
      (o : Option String) (allow : Bool)
      → check_parsed net o wide allow ≡ none
      → check_parsed net o same allow ≡ none
  ssrf_pass none allow h = absurd (cc h)
  ssrf_pass (some name) allow h = host_pass name allow h

-- The two defaults block the same addresses, so neither blocks one alone.
unblocked_alike :
    (ip : Ip)
    → (blocking ip default_blocked_cidrs ≡ none → blocking ip executor_blocked_cidrs ≡ none)
      × (blocking ip executor_blocked_cidrs ≡ none → blocking ip default_blocked_cidrs ≡ none)
unblocked_alike ip =
    let ((blocks, covers), (blocks', covers')) = default_blocks_iff ip in
    (
      λ h. elim (Option-cases (blocking ip executor_blocked_cidrs)) [
        | inl e ↦ e
        | inr (cidr, e) ↦ absurd (covers (blocks' (λ p. cc (p, e))) h)
      ],
      λ h. elim (Option-cases (blocking ip default_blocked_cidrs)) [
        | inl e ↦ e
        | inr (cidr, e) ↦ absurd (covers' (blocks (λ p. cc (p, e))) h)
      ],
    )

default_checks :
    (net : Network) (raw_url : String) (allow : Bool)
    → (check_ssrf net raw_url none allow ≡ none)
      ↔ (check_ssrf net raw_url (some executor_blocked_cidrs) allow ≡ none)
unfolding check_ssrf
default_checks net raw_url allow = (
  ssrf_pass net default_blocked_cidrs executor_blocked_cidrs (λ ip. (unblocked_alike ip).0)
      (net.hostname raw_url) allow,
  ssrf_pass net executor_blocked_cidrs default_blocked_cidrs (λ ip. (unblocked_alike ip).1)
      (net.hostname raw_url) allow,
)

default_dials :
    (net : Network) (allow : Bool) (host : String)
    → dial_context net allow none host ≡ dial_context net allow (some executor_blocked_cidrs) host
unfolding dial_context resolve_and_validate
default_dials net allow host = refl

default_agree :
    (net : Network) (raw_url host : String) (allow : Bool)
    → net.hostname raw_url ≡ some host
    → net.lookup_ip host ≢ some []
    → (check_ssrf net raw_url none allow ≡ none) ↔ (
        (check_ssrf_preflight net raw_url allow ≡ none)
        × IsDialed (dial_context net allow none host))
default_agree net raw_url host allow e n =
    let (to, from) = default_checks net raw_url allow in
    let (pass, back) = given_agree net raw_url host executor_blocked_cidrs allow e n in
    rw (default_dials net allow host) ((λ h. pass (to h)), λ d. from (back d))

-- Where the controller and the executor are configured alike, with the same list of ranges, or each with
-- none and so its own default, and with the same flag for cluster-internal names, and where the resolver
-- answers both alike, and not with an empty list: the controller's check of a URL passes exactly where
-- the executor's does before the request and it then makes the connection.
pub checks_agree :
    (net : Network) (raw_url host : String) (blocked : Option (List IpNet)) (allow : Bool)
    → net.hostname raw_url ≡ some host
    → net.lookup_ip host ≢ some []
    → (check_ssrf net raw_url blocked allow ≡ none) ↔ (
        (check_ssrf_preflight net raw_url allow ≡ none)
        × IsDialed (dial_context net allow blocked host))
checks_agree net raw_url host (some blocked) allow e n =
    given_agree net raw_url host blocked allow e n
checks_agree net raw_url host none allow e n = default_agree net raw_url host allow e n
