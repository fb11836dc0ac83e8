-- ===== src/Webhook/Watcher/Build.antt =====
-- internal/gateway/webhook/watcher.go: buildRouteEntry. An error, which leaves no route entry, is none.
use kubezap_operator.Base.{
  ℕ, ◌*◌, String, Bool, true, false, Option, none, some, List, [], ◌==◌, if◌then◌else◌,
}
use kubezap_operator.Base.Int.{ℤ, pos, ltb_ℤ}
use kubezap_operator.Cron.{second}
use kubezap_operator.Api.Integration.{SecretKeySelector}
use kubezap_operator.Api.Trigger.{Trigger}
use kubezap_operator.Api.WebhookTrigger.{
  HmacConfig, OidcConfig, WebhookBasicAuth, HeaderSecret, WebhookAuth, WebhookRateLimit,
  WebhookTrigger,
}
use kubezap_operator.Webhook.Auth.{or_default}
use kubezap_operator.Webhook.Route.{RouteEntry}
use kubezap_operator.Webhook.Watcher.{Answers}

abbrev max_of : Option WebhookRateLimit → ℕ
max_of none = 0
max_of (some limit) = limit.max_requests

-- A window of 0 is a minute.
abbrev window_of : Option WebhookRateLimit → ℤ
window_of none = pos 0
window_of (some limit) = if is_zero limit.window then pos (60 * second) else limit.window
  where
    is_zero : ℤ → Bool
    is_zero (pos ℕ.zero) = true
    is_zero i = false

-- The tolerance in seconds, 300 where it is 0 or less.
abbrev tolerance_or_default : ℤ → ℤ
tolerance_or_default tolerance = if ltb_ℤ (pos 0) tolerance then tolerance else pos 300

-- A secret that is read is put into the entry, or there is an error.
unfoldable pub with_secret : Option String → (String → RouteEntry) → Option RouteEntry
with_secret none set = none
with_secret (some value) set = some (set value)

module _ (answers : Answers) (namespace : String) where
  unfoldable pub read : SecretKeySelector → Option String
  read s = answers.read_secret_key namespace s.name s.key

  unfoldable pub add_hmac : RouteEntry → Option HmacConfig → Option RouteEntry
  unfolding read with_secret
  add_hmac entry none = none
  add_hmac entry (some c) = with_secret (read c.secret_ref) (λ value. record entry {
    hmac_secret = value;
    hmac_provider = or_default "github" c.provider;
    hmac_timestamp_tolerance_sec = tolerance_or_default c.timestamp_tolerance_seconds;
  })

  unfoldable pub add_bearer : RouteEntry → Option SecretKeySelector → Option RouteEntry
  unfolding read with_secret
  add_bearer entry none = none
  add_bearer entry (some s) = with_secret (read s) (λ value. record entry { bearer_token = value })

  unfoldable pub add_api_key : RouteEntry → Option HeaderSecret → Option RouteEntry
  unfolding read with_secret
  add_api_key entry none = none
  add_api_key entry (some c) =
      with_secret (read c.secret_ref) (λ value. record entry {
        api_key = value;
        api_key_header = or_default "X-Api-Key" c.header;
      })

  unfoldable pub with_login : RouteEntry → Option String → Option String → Option RouteEntry
  with_login entry none password = none
  with_login entry (some username) none = none
  with_login entry (some username) (some password) =
      some (record entry { basic_username = username; basic_password = password })

  unfoldable pub add_basic : RouteEntry → Option WebhookBasicAuth → Option RouteEntry
  unfolding with_login
  add_basic entry none = none
  add_basic entry (some c) =
      with_login entry
        (answers.read_secret_key namespace c.secret_ref (or_default "username" c.username_key))
        (answers.read_secret_key namespace c.secret_ref (or_default "password" c.password_key))

  abbrev list_or_nil : Option (List String) → List String
  list_or_nil none = []
  list_or_nil (some cidrs) = cidrs

  unfoldable pub with_jwks : RouteEntry → OidcConfig → Option String → Option RouteEntry
  with_jwks entry c none = none
  with_jwks entry c (some url) =
      if answers.register_jwks_url url
      then some (record entry {
        oidc_validator = some (record { jwks_url = url; issuer = c.issuer; audience = c.audience });
      })
      else none

  unfoldable pub add_oidc : RouteEntry → Option OidcConfig → Option RouteEntry
  unfolding with_jwks
  add_oidc entry none = none
  add_oidc entry (some c) = with_jwks entry c (answers.discover_jwks_url c.issuer)

  unfoldable pub add_header_equals : RouteEntry → Option HeaderSecret → Option RouteEntry
  unfolding read with_secret
  add_header_equals entry none = none
  add_header_equals entry (some c) =
      with_secret (read c.secret_ref)
        (λ value. record entry { header_equals_header = c.header; header_equals_value = value })

  -- The switch on the type of authentication; a type that it does not name adds nothing.
  unfoldable pub add_auth : RouteEntry → WebhookAuth → Option RouteEntry
  unfolding add_hmac add_bearer add_api_key add_basic add_oidc add_header_equals
  add_auth entry auth =
      if auth.type == "hmac"
      then add_hmac entry auth.hmac
      else if auth.type == "bearer"
      then add_bearer entry auth.bearer
      else if auth.type == "apiKey"
      then add_api_key entry auth.api_key
      else if auth.type == "basic"
      then add_basic entry auth.basic
      else if auth.type == "header-equals"
      then add_header_equals entry auth.header_equals
      else if auth.type == "oidc"
      then add_oidc entry auth.oidc
      else if auth.type == "ipAllowlist"
      then some (record entry { ip_allowlist = list_or_nil auth.ip_allowlist })
      else some entry

  unfoldable pub with_auth : RouteEntry → Option WebhookAuth → Option RouteEntry
  unfolding add_auth
  with_auth entry none = some entry
  with_auth entry (some auth) =
      if auth.type == "" then some entry else add_auth (record entry { auth_type = auth.type }) auth

-- The entry without authentication.
unfoldable pub open_entry : (String → String) → Trigger → WebhookTrigger → RouteEntry
open_entry to_upper trigger webhook = record {
  trigger_name = trigger.name;
  trigger_namespace = trigger.namespace;
  flow_ref = trigger.flow_ref;
  flow_namespace = trigger.namespace;
  allowed_method = if webhook.method == "" then "POST" else to_upper webhook.method;
  auth_type = "";
  hmac_secret = "";
  hmac_provider = "";
  hmac_timestamp_tolerance_sec = pos 0;
  bearer_token = "";
  basic_username = "";
  basic_password = "";
  api_key = "";
  api_key_header = "";
  ip_allowlist = [];
  header_equals_header = "";
  header_equals_value = "";
  oidc_validator = none;
  max_invocations = max_of webhook.rate_limit;
  cooldown_window = window_of webhook.rate_limit;
  redact_headers = webhook.redact_headers;
  redact_body = webhook.redact_body;
}

unfoldable pub build_route_entry : Answers → Trigger → WebhookTrigger → Option RouteEntry
unfolding with_auth open_entry
build_route_entry answers trigger webhook =
    with_auth answers trigger.namespace (open_entry answers.to_upper trigger webhook) webhook.auth
