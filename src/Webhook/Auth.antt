-- ===== src/Webhook/Auth.antt =====
-- internal/gateway/webhook/handler.go and oidc.go: authenticateRequest, with the check of each type of
-- authentication, and the reason that the access log has for a failure. A comparison in constant time
-- is that of the texts.
use kubezap_operator.Base.{
  ℕ, ◌/◌, String, Bool, true, false, ◌||◌, not, Option, none, some, List, ◌++◌, ◌==◌, if◌then◌else◌,
}
use kubezap_operator.Base.Int.{ℤ, pos, ◌-ℤ◌, ltb_ℤ}
use kubezap_operator.Base.Text.{◌⧺◌, strip_prefix}
use kubezap_operator.Cron.{second}
use kubezap_operator.Webhook.{Library, OidcValidator, Request, get_header}
use kubezap_operator.Webhook.Route.{RouteEntry}

-- `(http.StatusOK, "")`, another status with its message, or a panic.
pub data Verdict : Type 0 where
  allowed : Verdict
  denied : ℕ → String → Verdict
  panicked : Verdict

-- A guard that answers 401.
unfoldable pub unless : Bool → String → Verdict → Verdict
unless true message next = denied 401 message
unless false message next = next

abbrev pub or_default : String → String → String
or_default default s = if s == "" then default else s

abbrev pub unauthorized_json : String → String
unauthorized_json reason = "{\"error\":\"unauthorized\",\"reason\":\"" ⧺ reason ⧺ "\"}"

module _ {Keyset : Type 0} (lib : Library Keyset) where
  -- The tolerance that holds: 300 seconds where it is 0 or less.
  abbrev pub tolerance_of : ℤ → ℤ
  tolerance_of tolerance = if ltb_ℤ (pos 0) tolerance then tolerance else pos 300

  -- An age that leaves 64 bits is outside any tolerance, wrapped or not.
  abbrev pub is_stale : ℤ → ℤ → Bool
  is_stale tolerance age =
      ltb_ℤ (tolerance_of tolerance) age || ltb_ℤ age (pos 0 -ℤ tolerance_of tolerance)

  abbrev pub slack_signature : String → String → List ℕ → String
  slack_signature secret ts body =
      "v0=" ⧺ lib.hmac_sha256 secret (lib.bytes_of ("v0:" ⧺ ts ⧺ ":") ++ body)

  unfoldable pub check_slack : ℕ → String → String → List ℕ → String → ℤ → Option ℤ → Verdict
  unfolding unless
  check_slack now signature ts body secret tolerance none =
      denied 401 "invalid X-Slack-Request-Timestamp header"
  check_slack now signature ts body secret tolerance (some sent) =
      unless (is_stale tolerance (pos (now / second) -ℤ sent))
        "X-Slack-Request-Timestamp outside tolerance window"
        (unless (not (signature == slack_signature secret ts body)) "HMAC signature mismatch"
          allowed)

  unfoldable pub verify_slack_hmac : Request → List ℕ → String → ℤ → Verdict
  unfolding unless get_header
  verify_slack_hmac r body secret tolerance =
      let signature = get_header lib r.headers "X-Slack-Signature" in
      let ts = get_header lib r.headers "X-Slack-Request-Timestamp" in
      unless (signature == "") "missing X-Slack-Signature header" (
        unless (ts == "") "missing X-Slack-Request-Timestamp header"
          (check_slack r.now signature ts body secret tolerance (lib.parse_int ts)))

  unfoldable pub check_hmac : Request → List ℕ → RouteEntry → Verdict
  unfolding unless verify_slack_hmac
  check_hmac r body entry =
      let signature = get_header lib r.headers "X-Hub-Signature-256" in
      if entry.hmac_provider == "slack"
      then verify_slack_hmac r body entry.hmac_secret entry.hmac_timestamp_tolerance_sec
      else unless (signature == "") "missing X-Hub-Signature-256 header" (
          unless (not (signature == ("sha256=" ⧺ lib.hmac_sha256 entry.hmac_secret body)))
            "HMAC signature mismatch" allowed)

  unfoldable pub check_bearer : Request → RouteEntry → Verdict
  unfolding unless get_header
  check_bearer r entry =
      let header = get_header lib r.headers "Authorization" in
      unless (header == "") "missing Authorization header"
        (unless (not (header == ("Bearer " ⧺ entry.bearer_token))) "invalid bearer token" allowed)

  unfoldable pub check_api_key : Request → RouteEntry → Verdict
  unfolding unless get_header
  check_api_key r entry =
      let value = get_header lib r.headers (or_default "X-Api-Key" entry.api_key_header) in
      unless (value == "") "missing API key header"
        (unless (not (value == entry.api_key)) "invalid API key" allowed)

  -- buildParseOpts: a claim that is not configured is not checked.
  abbrev pub claim : String → Option String
  claim s = if s == "" then none else some s

  unfoldable pub jwt_failure : OidcValidator → Keyset → String → Option String
  jwt_failure v keys token = lib.jwt_error keys (claim v.issuer) (claim v.audience) token

  abbrev pub failed_token : Option String → Option String
  failed_token none = none
  failed_token (some e) = some ("token validation failed: " ⧺ e)

  unfoldable pub retry : OidcValidator → String → String → Option Keyset → Option String
  unfolding jwt_failure
  retry v token e none = failed_token (some e)
  retry v token e (some fresh) = failed_token (jwt_failure v fresh token)

  abbrev pub first_try : OidcValidator → String → Option String → Option String
  first_try v token none = none
  first_try v token (some e) = retry v token e (lib.refreshed_keys v.jwks_url)

  unfoldable pub with_keys : OidcValidator → String → Option Keyset → Option String
  unfolding jwt_failure
  with_keys v token none = some ("unable to load JWKS: " ⧺ lib.keys_error v.jwks_url)
  with_keys v token (some keys) = first_try v token (jwt_failure v keys token)

  -- oidcValidator.validate: the error's text, or none.
  unfoldable pub validate : OidcValidator → String → Option String
  validate v token = with_keys v token (lib.cached_keys v.jwks_url)

  abbrev pub token_verdict : Option String → Verdict
  token_verdict none = allowed
  token_verdict (some e) = denied 401 (unauthorized_json e)

  -- A route without a validator has a nil pointer.
  unfoldable pub check_token : Option OidcValidator → Option String → Verdict
  unfolding validate
  check_token v none = denied 401 (unauthorized_json "missing Bearer token")
  check_token none (some token) = panicked
  check_token (some v) (some token) = token_verdict (validate v token)

  unfoldable pub check_oidc : Request → RouteEntry → Verdict
  unfolding get_header strip_prefix
  check_oidc r entry =
      check_token entry.oidc_validator
        (strip_prefix "Bearer " (get_header lib r.headers "Authorization"))

  unfoldable pub check_login : RouteEntry → Option (String × String) → Verdict
  unfolding unless
  check_login entry none = denied 401 "missing or malformed Basic auth credentials"
  check_login entry (some (username, password)) =
      unless (not (username == entry.basic_username) || not (password == entry.basic_password))
        "invalid Basic auth credentials" allowed

  unfoldable pub check_basic : Request → RouteEntry → Verdict
  unfolding get_header
  check_basic r entry =
      check_login entry (lib.parse_basic_auth (get_header lib r.headers "Authorization"))
