-- ===== src/Webhook/Authenticate.antt =====
-- internal/gateway/webhook/handler.go: authenticateRequest, and authFailureReason.
use kubezap_operator.Base.{
  ℕ, String, Bool, true, false, ◌||◌, not, Option, none, some, List, [], ◌∷◌, ◌==◌, eqb,
  if◌then◌else◌,
}
use kubezap_operator.Base.Text.{cut}
use kubezap_operator.Ssrf.Address.{Ip, v4, v6, IpNet, contains}
use kubezap_operator.Webhook.{Library, Request, get_header}
use kubezap_operator.Webhook.Route.{RouteEntry}
use kubezap_operator.Webhook.ClientIp.{real_client_ip}
use kubezap_operator.Webhook.Auth.{
  Verdict, allowed, denied, unless, check_hmac, check_bearer, check_api_key, check_oidc,
  check_basic,
}

-- `allowedIP.Equal(ip)`.
abbrev pub equal_ip : Ip → Ip → Bool
equal_ip (v4 a) (v4 b) = eqb a b
equal_ip (v6 a) (v6 b) = eqb a b
equal_ip (v4 a) (v6 b) = false
equal_ip (v6 a) (v4 b) = false

module _ {Keyset : Type 0} (lib : Library Keyset) where
  -- An entry of the list that is no range is an address. An address that is none is in no range.
  abbrev pub matches : Option IpNet → Option Ip → Option Ip → Bool
  matches range address none = false
  matches (some cidr) address (some ip) = contains cidr ip
  matches none none (some ip) = false
  matches none (some address) (some ip) = equal_ip address ip

  unfoldable pub is_listed : List String → Option Ip → Bool
  is_listed [] ip = false
  is_listed (cidr ∷ rest) ip =
      matches (lib.parse_cidr cidr) (lib.parse_ip cidr) ip || is_listed rest ip

  abbrev pub verdict_of : Bool → Verdict
  verdict_of true = allowed
  verdict_of false = denied 403 "source IP not in allowlist"

  unfoldable pub check_allowlist : Request → RouteEntry → List IpNet → Verdict
  unfolding is_listed real_client_ip
  check_allowlist r entry proxies =
      verdict_of (is_listed entry.ip_allowlist (lib.parse_ip (real_client_ip lib r proxies)))

  unfoldable pub check_header_equals : Request → RouteEntry → Verdict
  unfolding unless get_header
  check_header_equals r entry =
      let value = get_header lib r.headers entry.header_equals_header in
      unless (entry.header_equals_header == "") "header-equals auth misconfigured: no header name" (
        unless (value == "") "missing required header"
          (unless (not (value == entry.header_equals_value)) "invalid header value" allowed))

  unfoldable pub authenticate_request : Request → List ℕ → RouteEntry → List IpNet → Verdict
  unfolding check_hmac check_bearer check_api_key check_oidc check_basic check_allowlist
      check_header_equals
  authenticate_request r body entry proxies =
      if entry.auth_type == "hmac"
      then check_hmac lib r body entry
      else if entry.auth_type == "bearer"
      then check_bearer lib r entry
      else if entry.auth_type == "apiKey"
      then check_api_key lib r entry
      else if entry.auth_type == "oidc"
      then check_oidc lib r entry
      else if entry.auth_type == "basic"
      then check_basic lib r entry
      else if entry.auth_type == "ipAllowlist"
      then check_allowlist r entry proxies
      else if entry.auth_type == "header-equals"
      then check_header_equals r entry
      else if entry.auth_type == ""
      then allowed
      else denied 401 "authentication type not implemented"

-- The code of a message that the inner switch has, else that of the text after the outer one.
abbrev fallthrough : String → String
fallthrough msg =
    if msg == "authentication type not implemented" then "not_implemented" else "unknown"

unfoldable pub hmac_reason : String → String
hmac_reason msg =
    if msg == "missing X-Hub-Signature-256 header" || msg == "missing X-Slack-Signature header"
    then "missing_signature"
    else if msg == "missing X-Slack-Request-Timestamp header"
    then "missing_timestamp"
    else if msg == "invalid X-Slack-Request-Timestamp header"
    then "invalid_timestamp"
    else if msg == "X-Slack-Request-Timestamp outside tolerance window"
    then "timestamp_out_of_tolerance"
    else if msg == "HMAC signature mismatch"
    then "invalid_signature"
    else fallthrough msg

abbrev two_reasons : String → String → String → String → String → String
two_reasons first code second other msg =
    if msg == first then code else if msg == second then other else fallthrough msg

-- `strings.Contains(msg, "missing Bearer token")`.
abbrev pub oidc_reason : Option (String × String) → String
oidc_reason none = "invalid_token"
oidc_reason (some parts) = "missing_token"

unfoldable pub header_equals_reason : String → String
header_equals_reason msg =
    if msg == "header-equals auth misconfigured: no header name"
    then "misconfigured"
    else two_reasons "missing required header" "missing_header" "invalid header value"
        "invalid_header" msg

unfoldable pub auth_failure_reason : String → String → String
unfolding hmac_reason header_equals_reason cut
auth_failure_reason auth_type msg =
    if auth_type == "hmac"
    then hmac_reason msg
    else if auth_type == "bearer"
    then two_reasons "missing Authorization header" "missing_token" "invalid bearer token"
        "invalid_token" msg
    else if auth_type == "apiKey"
    then two_reasons "missing API key header" "missing_api_key" "invalid API key" "invalid_api_key"
        msg
    else if auth_type == "oidc"
    then oidc_reason (cut "missing Bearer token" msg)
    else if auth_type == "basic"
    then two_reasons "missing or malformed Basic auth credentials" "missing_credentials"
        "invalid Basic auth credentials" "invalid_credentials" msg
    else if auth_type == "ipAllowlist"
    then "ip_not_allowed"
    else if auth_type == "header-equals"
    then header_equals_reason msg
    else fallthrough msg
