-- ===== src/Webhook/Route.antt =====
-- internal/gateway/webhook/registry.go: RouteRegistry. The mutex makes each call one step.
use kubezap_operator.Base.{
  ℕ, String, Bool, true, false, Option, none, some, List, [], ◌==◌, if◌then◌else◌,
}
use kubezap_operator.Base.Int.{ℤ}
use kubezap_operator.Base.Assoc.{Assoc, lookup, insert, delete}
use kubezap_operator.Base.Text.{◌⧺◌, strip_prefix}
use kubezap_operator.Base.Text.Trim.{trim_space}
use kubezap_operator.Webhook.{OidcValidator}

-- A limit of 0 or less is `ℕ.zero`.
pub record RouteEntry : Type 0 where
  pub trigger_name : String
  pub trigger_namespace : String
  pub flow_ref : String
  pub flow_namespace : String
  pub allowed_method : String
  pub auth_type : String
  pub hmac_secret : String
  pub hmac_provider : String
  pub hmac_timestamp_tolerance_sec : ℤ
  pub bearer_token : String
  pub basic_username : String
  pub basic_password : String
  pub api_key : String
  pub api_key_header : String
  pub ip_allowlist : List String
  pub header_equals_header : String
  pub header_equals_value : String
  pub oidc_validator : Option OidcValidator
  pub max_invocations : ℕ
  pub cooldown_window : ℤ
  pub redact_headers : List String
  pub redact_body : Bool

abbrev redact : String → String
redact s = if s == "" then "" else "[REDACTED]"

unfoldable pub redacted_for_log : RouteEntry → RouteEntry
redacted_for_log e = record e {
  hmac_secret = redact e.hmac_secret;
  bearer_token = redact e.bearer_token;
  basic_password = redact e.basic_password;
  api_key = redact e.api_key;
  header_equals_value = redact e.header_equals_value;
}

pub record RouteRegistry : Type 0 where
  pub routes : Assoc RouteEntry
  pub synced : Bool

abbrev pub new_route_registry : RouteRegistry
new_route_registry = record { routes = []; synced = false }

-- `strings.TrimPrefix(s, p)`.
abbrev pub or_whole : String → Option String → String
or_whole s none = s
or_whole s (some rest) = rest

unfoldable pub prefixed : String → Option String → String
unfolding strip_prefix
prefixed path none = "/hooks/" ⧺ or_whole path (strip_prefix "/" path)
prefixed path (some rest) = path

unfoldable pub normalize_path : String → String
unfolding strip_prefix trim_space
normalize_path path = prefixed (trim_space path) (strip_prefix "/hooks/" (trim_space path))

unfoldable pub register : (String → String) → String → RouteEntry → RouteRegistry → RouteRegistry
unfolding normalize_path
register to_upper path entry r = record r {
  routes =
      insert (normalize_path path) (record entry { allowed_method = to_upper entry.allowed_method })
        r.routes;
}

unfoldable pub deregister : String → RouteRegistry → RouteRegistry
unfolding normalize_path
deregister path r = record r { routes = delete (normalize_path path) r.routes }

unfoldable pub lookup_route : String → RouteRegistry → Option RouteEntry
unfolding normalize_path
lookup_route path r = lookup (normalize_path path) r.routes

unfoldable pub mark_synced : RouteRegistry → RouteRegistry
mark_synced r = record r { synced = true }
