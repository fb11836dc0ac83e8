-- ===== src/Webhook/Watcher.antt =====
-- internal/gateway/webhook/watcher.go: TriggerWatcher, which keeps a route for each Trigger of type
-- webhook. The informers call one handler at a time here; a handler is a function from the watcher
-- to the next.
pub mod Build
pub mod Handle
pub mod Routes
pub mod Indexed
mod Tests
use kubezap_operator.Base.{
  ℕ, zero, ◌*◌, String, Bool, true, false, ◌&&◌, Option, none, some, List, [], ◌∷◌, ◌==◌,
  if◌then◌else◌,
}
use kubezap_operator.Base.Int.{ℤ, pos, ltb_ℤ}
use kubezap_operator.Base.Keys.{NamespacedName, KeyMap, at, put, drop_key}
use kubezap_operator.Base.Text.{◌⧺◌, strip_prefix}
use kubezap_operator.Base.Text.Trim.{trim_space}
use kubezap_operator.Api.Integration.{SecretKeySelector}
use kubezap_operator.Api.Trigger.{Trigger}
use kubezap_operator.Api.WebhookTrigger.{
  HmacConfig, OidcConfig, WebhookBasicAuth, HeaderSecret, WebhookAuth, WebhookRateLimit,
  WebhookTrigger,
}
use kubezap_operator.Gateway.SecretIndex.{Index, new_index, update, remove_object, objects_for}
use kubezap_operator.Gateway.Watcher.Resolve.{SecretReader}
use kubezap_operator.Webhook.{OidcValidator}
use kubezap_operator.Webhook.Auth.{or_default, tolerance_of}
use kubezap_operator.Webhook.Route.{
  RouteEntry, RouteRegistry, new_route_registry, register, deregister, mark_synced,
}

-- What the API server answers for a Secret and its key, what a provider answers for the URL of its
-- JWKS, and whether the cache takes that URL.
pub record Answers : Type 0 where
  pub read_secret_key : SecretReader
  pub discover_jwks_url : String → Option String
  pub register_jwks_url : String → Bool
  pub to_upper : String → String

pub record TriggerWatcher : Type 0 where
  pub registry : RouteRegistry
  pub secret_index : Index
  pub triggers : KeyMap Trigger

abbrev pub new_trigger_watcher : TriggerWatcher
new_trigger_watcher = record {
  registry = new_route_registry;
  secret_index = new_index;
  triggers = [];
}

abbrev pub key_of : Trigger → NamespacedName
key_of trigger = record { namespace = trigger.namespace; name = trigger.name }

-- The Secret of a configuration, if it is there.
abbrev selector_name : Option SecretKeySelector → List String
selector_name none = []
selector_name (some s) = s.name ∷ []

abbrev hmac_name : Option HmacConfig → List String
hmac_name none = []
hmac_name (some c) = c.secret_ref.name ∷ []

abbrev header_name : Option HeaderSecret → List String
header_name none = []
header_name (some c) = c.secret_ref.name ∷ []

abbrev basic_name : Option WebhookBasicAuth → List String
basic_name none = []
basic_name (some c) = c.secret_ref ∷ []

unfoldable pub auth_secrets : WebhookAuth → List String
auth_secrets auth =
    if auth.type == "hmac"
    then hmac_name auth.hmac
    else if auth.type == "bearer"
    then selector_name auth.bearer
    else if auth.type == "apiKey"
    then header_name auth.api_key
    else if auth.type == "basic"
    then basic_name auth.basic
    else if auth.type == "header-equals"
    then header_name auth.header_equals
    else []

abbrev in_namespace : String → List String → List NamespacedName
in_namespace ns [] = []
in_namespace ns (name ∷ rest) = record { namespace = ns; name = name } ∷ in_namespace ns rest

unfoldable pub refs_of_auth : String → Option WebhookAuth → List NamespacedName
unfolding auth_secrets
refs_of_auth ns none = []
refs_of_auth ns (some auth) = in_namespace ns (auth_secrets auth)

unfoldable pub refs_of_webhook : String → Option WebhookTrigger → List NamespacedName
unfolding refs_of_auth
refs_of_webhook ns none = []
refs_of_webhook ns (some webhook) = refs_of_auth ns webhook.auth

unfoldable pub secret_refs_for_trigger : Trigger → List NamespacedName
unfolding refs_of_webhook
secret_refs_for_trigger trigger =
    if trigger.type == "webhook" then refs_of_webhook trigger.namespace trigger.webhook else []

abbrev with_slash : String → Option String → String
with_slash path none = "/" ⧺ path
with_slash path (some rest) = path

unfoldable pub path_of_webhook : Option WebhookTrigger → String
unfolding strip_prefix trim_space
path_of_webhook none = ""
path_of_webhook (some webhook) =
    let path = trim_space webhook.path in
    if path == "" then "" else with_slash path (strip_prefix "/" path)

unfoldable pub entry_route_path : Trigger → String
unfolding path_of_webhook
entry_route_path trigger = path_of_webhook trigger.webhook
