-- ===== src/Webhook/Reason.antt =====
-- Every failure of an authentication has a reason in the access log.
use kubezap_operator.Base.{
  ℕ, String, ◌≡◌, refl, sym, subst, Bool, true, false, Option, none, some, List, ◌==◌, Bool-cases,
  String-cases, inl, inr, if◌then◌else◌,
}
use kubezap_operator.Base.Int.{ℤ}
use kubezap_operator.Base.Text.{strip_prefix, cut}
use kubezap_operator.Ssrf.Address.{IpNet}
use kubezap_operator.Webhook.{Library, OidcValidator, Request, get_header}
use kubezap_operator.Webhook.Route.{RouteEntry}
use kubezap_operator.Webhook.Auth.{
  Verdict, allowed, denied, panicked, unless, check_hmac, check_bearer, check_api_key, check_oidc,
  check_basic, check_login, verify_slack_hmac, check_slack, check_token, token_verdict, validate,
  unauthorized_json,
}
use kubezap_operator.Webhook.ClientIp.{real_client_ip}
use kubezap_operator.Webhook.Authenticate.{
  authenticate_request, auth_failure_reason, hmac_reason, header_equals_reason, check_allowlist,
  check_header_equals, verdict_of, is_listed, oidc_reason,
}

-- The access log has a reason for the message.
abbrev pub HasReason : String → String → Type 0
HasReason auth_type message = (auth_failure_reason auth_type message == "unknown") ≡ false

-- A denial is a 401 or a 403, with a reason that is known.
pub data Explained (auth_type : String) : Verdict → Type 0 where
  is_allowed : Explained auth_type allowed
  is_panic : Explained auth_type panicked
  is_unauthorized :
      {message : String} → HasReason auth_type message → Explained auth_type (denied 401 message)
  is_forbidden :
      {message : String} → HasReason auth_type message → Explained auth_type (denied 403 message)

unless-Explained :
    {auth_type : String} (b : Bool) (message : String) {next : Verdict}
    → HasReason auth_type message
    → Explained auth_type next
    → Explained auth_type (unless b message next)
unfolding unless
unless-Explained true message first later = is_unauthorized first
unless-Explained false message first later = later

ruleset explained = (unless-Explained, is_allowed, refl)

oidc-Reasoned : (o : Option (String × String)) → (oidc_reason o == "unknown") ≡ false
oidc-Reasoned none = refl
oidc-Reasoned (some parts) = refl

module _ {Keyset : Type 0} (lib : Library Keyset) (r : Request) (entry : RouteEntry) where
  bearer-Explained : Explained "bearer" (check_bearer lib r entry)
  unfolding check_bearer auth_failure_reason hmac_reason header_equals_reason
  bearer-Explained = search explained

  api_key-Explained : Explained "apiKey" (check_api_key lib r entry)
  unfolding check_api_key auth_failure_reason hmac_reason header_equals_reason
  api_key-Explained = search explained

  slack-Explained :
      (signature ts : String) (body : List ℕ) (tolerance : ℤ) (sent : Option ℤ)
      → Explained "hmac" (check_slack lib r.now signature ts body entry.hmac_secret tolerance sent)
  unfolding check_slack auth_failure_reason hmac_reason header_equals_reason
  slack-Explained signature ts body tolerance none = is_unauthorized refl
  slack-Explained signature ts body tolerance (some sent) = search explained

  verify_slack-Explained :
      (body : List ℕ) (tolerance : ℤ)
      → Explained "hmac" (verify_slack_hmac lib r body entry.hmac_secret tolerance)
  unfolding verify_slack_hmac auth_failure_reason hmac_reason header_equals_reason
  verify_slack-Explained body tolerance =
      let ts = get_header lib r.headers "X-Slack-Request-Timestamp" in
      search (
        explained,
        slack-Explained (get_header lib r.headers "X-Slack-Signature") ts body tolerance
            (lib.parse_int ts),
      )

  hmac-Explained : (body : List ℕ) → Explained "hmac" (check_hmac lib r body entry)
  unfolding check_hmac auth_failure_reason hmac_reason header_equals_reason
  hmac-Explained body = elim (Bool-cases (entry.hmac_provider == "slack")) [
    | inl e ↦ rw e (verify_slack-Explained body entry.hmac_timestamp_tolerance_sec)
    | inr e ↦ rw e (search explained)
  ]

  token-Explained :
      (v : Option OidcValidator) (token : Option String)
      → Explained "oidc" (check_token lib v token)
  unfolding check_token auth_failure_reason hmac_reason header_equals_reason
  token-Explained v none =
      is_unauthorized
        (oidc-Reasoned (cut "missing Bearer token" (unauthorized_json "missing Bearer token")))
  token-Explained none (some token) = is_panic
  token-Explained (some v) (some token) = verdict-Explained (validate lib v token)
    where
      verdict-Explained : (o : Option String) → Explained "oidc" (token_verdict lib o)
      verdict-Explained none = is_allowed
      verdict-Explained (some e) =
          is_unauthorized (oidc-Reasoned (cut "missing Bearer token" (unauthorized_json e)))

  oidc-Explained : Explained "oidc" (check_oidc lib r entry)
  unfolding check_oidc
  oidc-Explained =
      token-Explained entry.oidc_validator
        (strip_prefix "Bearer " (get_header lib r.headers "Authorization"))

  login-Explained : (o : Option (String × String)) → Explained "basic" (check_login lib entry o)
  unfolding check_login auth_failure_reason hmac_reason header_equals_reason
  login-Explained none = is_unauthorized refl
  login-Explained (some (username, password)) = search explained

  basic-Explained : Explained "basic" (check_basic lib r entry)
  unfolding check_basic
  basic-Explained =
      login-Explained (lib.parse_basic_auth (get_header lib r.headers "Authorization"))

  allowlist-Explained :
      (proxies : List IpNet) → Explained "ipAllowlist" (check_allowlist lib r entry proxies)
  unfolding check_allowlist auth_failure_reason hmac_reason header_equals_reason
  allowlist-Explained proxies =
      listed-Explained
        (is_listed lib entry.ip_allowlist (lib.parse_ip (real_client_ip lib r proxies)))
    where
      listed-Explained : (b : Bool) → Explained "ipAllowlist" (verdict_of lib b)
      listed-Explained true = is_allowed
      listed-Explained false = is_forbidden refl

  header_equals-Explained : Explained "header-equals" (check_header_equals lib r entry)
  unfolding check_header_equals auth_failure_reason hmac_reason header_equals_reason
  header_equals-Explained = search explained

open-Explained : Explained "" allowed
open-Explained = is_allowed

case-Explained :
    {t name : String} {v w : Verdict}
    → Explained name v
    → ((t == name) ≡ false → Explained t w)
    → Explained t (if t == name then v else w)
case-Explained {t} {name} {v} {w} first later = elim (String-cases t name) [
  | inl (p, e) ↦ rw e (subst (λ u. Explained u v) (sym p) first)
  | inr (_, e) ↦ rw e (later e)
]

-- An authentication that is denied answers 401 or 403, and the access log has a reason for it that is
-- not "unknown".
pub authenticate_request-Explained :
    {Keyset : Type 0} (lib : Library Keyset) (r : Request) (body : List ℕ) (entry : RouteEntry)
    (proxies : List IpNet)
    → Explained entry.auth_type (authenticate_request lib r body entry proxies)
unfolding authenticate_request auth_failure_reason hmac_reason header_equals_reason
authenticate_request-Explained lib r body entry proxies =
    case-Explained (hmac-Explained lib r entry body) (λ a.
      case-Explained (bearer-Explained lib r entry) (λ b.
        case-Explained (api_key-Explained lib r entry) (λ c.
          case-Explained (oidc-Explained lib r entry) (λ d.
            case-Explained (basic-Explained lib r entry) (λ e.
              case-Explained (allowlist-Explained lib r entry proxies) (λ f.
                case-Explained (header_equals-Explained lib r entry) (λ g.
                  case-Explained open-Explained (λ k.
                    is_unauthorized (rw a (rw b (rw c (rw d (rw e (rw f (rw g refl)))))))))))))))
