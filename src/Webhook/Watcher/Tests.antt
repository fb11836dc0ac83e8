-- ===== src/Webhook/Watcher/Tests.antt =====
-- A Trigger with a bearer token, whose path is edited before it is deleted.
use kubezap_operator.Base.{
  String, ◌≡◌, ◌≢◌, refl, ap, true, false, Option, none, some, [], ◌∷◌, ◌==◌, arith, eq_iff,
  String-cases, inl, inr, if◌then◌else◌,
}
use kubezap_operator.Base.Keys.{has, same}
use kubezap_operator.Api.Trigger.{Trigger}
use kubezap_operator.Api.WebhookTrigger.{WebhookAuth, WebhookTrigger}
use kubezap_operator.Gateway.Watcher.Resolve.{SecretReader}
use kubezap_operator.Webhook.Route.{RouteEntry, lookup_route, normalize_path, prefixed}
use kubezap_operator.Webhook.Watcher.{
  Answers, new_trigger_watcher, entry_route_path, secret_refs_for_trigger,
}
use kubezap_operator.Webhook.Watcher.Build.{build_route_entry, open_entry}
use kubezap_operator.Webhook.Watcher.Handle.{wanted, handle_trigger, handle_delete}
use kubezap_operator.Webhook.Watcher.Routes.{
  slot, IsActive, lookup-handle_trigger, moved_route_stays,
}
use kubezap_operator.Webhook.Watcher.Indexed.{changed, build_route_entry-Indexed}

-- Reads one Secret; any other is missing or not.
abbrev reader : Option String → SecretReader
reader rest namespace name key = if name == "hook" then some "s3" else rest

abbrev answers : Answers
answers = record {
  read_secret_key = reader none;
  discover_jwks_url = λ issuer. none;
  register_jwks_url = λ url. true;
  to_upper = λ s. s;
}

abbrev auth : WebhookAuth
auth = record {
  type = "bearer";
  hmac = none;
  bearer = some (record { name = "hook"; key = "token" });
  oidc = none;
  basic = none;
  api_key = none;
  ip_allowlist = none;
  header_equals = none;
}

abbrev webhook_at : String → WebhookTrigger
webhook_at path = record {
  path = path;
  method = "";
  auth = some auth;
  rate_limit = none;
  redact_headers = [];
  redact_body = false;
}

abbrev trigger_at : String → Trigger
trigger_at path = record {
  namespace = "prod";
  name = "push";
  type = "webhook";
  enabled = true;
  flow_ref = "build";
  kafka = none;
  amqp = none;
  nats = none;
  webhook = some (webhook_at path);
}

abbrev entry : RouteEntry
entry = record (open_entry (λ s. s) (trigger_at "/push") (webhook_at "/push")) {
  auth_type = "bearer";
  bearer_token = "s3";
}

route_path : entry_route_path (trigger_at " push") ≡ "/push"
unfolding entry_route_path
route_path = refl

refs :
    secret_refs_for_trigger (trigger_at "/push") ≡ record { namespace = "prod"; name = "hook" } ∷ []
unfolding secret_refs_for_trigger
refs = refl

abbrev active : IsActive answers (trigger_at "/push") (webhook_at "/push")
active = record { has_type = refl; is_enabled = refl; has_webhook = refl }

lookup-handle_trigger_example :
    lookup_route "/push" (handle_trigger answers (trigger_at "/push") new_trigger_watcher).registry
    ≡ some entry
unfolding build_route_entry normalize_path prefixed entry_route_path
lookup-handle_trigger_example =
    ((lookup-handle_trigger answers (trigger_at "/push") new_trigger_watcher "/push").0 refl).2
      (webhook_at "/push") entry active refl

slots_differ : slot (trigger_at "/pull") ≢ slot (trigger_at "/push")
unfolding normalize_path prefixed entry_route_path
slots_differ p = ground (arith, ap (λ s. s == "/hooks/pull") p)

moved_route_stays_example :
    lookup_route (entry_route_path (trigger_at "/push")) (
      (handle_delete (trigger_at "/pull") (
        handle_trigger answers
          (trigger_at "/pull")
          (handle_trigger answers (trigger_at "/push") new_trigger_watcher))).registry)
    ≡ some entry
unfolding wanted
moved_route_stays_example =
    moved_route_stays answers (trigger_at "/push") (trigger_at "/pull") entry new_trigger_watcher
      refl slots_differ

agrees :
    (name key : String)
    → has
        (record { namespace = "prod"; name = name })
        (secret_refs_for_trigger (trigger_at "/push"))
      ≡ true
    → reader none "prod" name key ≡ reader (some "new") "prod" name key
unfolding secret_refs_for_trigger has same
agrees name key h = elim (String-cases name "hook") [
  | inl (_, e) ↦ rw e refl
  | inr (_, e) ↦ ground (arith, eq_iff "hook" name, eq_iff name "hook")
]

build_route_entry-Indexed_example :
    build_route_entry answers (trigger_at "/push") (webhook_at "/push")
    ≡ build_route_entry
        (changed answers (reader (some "new")) "prod")
        (trigger_at "/push")
        (webhook_at "/push")
build_route_entry-Indexed_example =
    build_route_entry-Indexed answers (reader (some "new")) (trigger_at "/push")
      (webhook_at "/push") refl refl (λ name key h. agrees name key h)
