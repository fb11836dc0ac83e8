-- ===== src/Webhook/Watcher/Handle.antt =====
-- internal/gateway/webhook/watcher.go: the handlers of the informers.
use kubezap_operator.Base.{String, ◌&&◌, Option, none, some, List, [], ◌∷◌, ◌==◌, if◌then◌else◌}
use kubezap_operator.Base.Keys.{NamespacedName, at, put, drop_key}
use kubezap_operator.Api.Trigger.{Trigger}
use kubezap_operator.Api.WebhookTrigger.{WebhookTrigger}
use kubezap_operator.Gateway.SecretIndex.{update, remove_object, objects_for}
use kubezap_operator.Webhook.Route.{RouteEntry, RouteRegistry, register, deregister}
use kubezap_operator.Webhook.Watcher.{
  Answers, TriggerWatcher, key_of, secret_refs_for_trigger, entry_route_path,
}
use kubezap_operator.Webhook.Watcher.Build.{build_route_entry}

-- The entry of an active Trigger, which may be an error; of another there is nothing to build.
pub data Wanted : Type 0 where
  no_route : Wanted
  unbuilt : Wanted
  built : RouteEntry → Wanted

abbrev pub of_build : Option RouteEntry → Wanted
of_build none = unbuilt
of_build (some entry) = built entry

module _ (answers : Answers) where
  unfoldable pub of_webhook : Trigger → Option WebhookTrigger → Wanted
  unfolding build_route_entry
  of_webhook trigger none = no_route
  of_webhook trigger (some webhook) = of_build (build_route_entry answers trigger webhook)

  unfoldable pub wanted : Trigger → Wanted
  unfolding of_webhook
  wanted trigger =
      if trigger.type == "webhook" && trigger.enabled
      then of_webhook trigger trigger.webhook
      else no_route

  unfoldable pub route : String → Wanted → RouteRegistry → RouteRegistry
  unfolding register deregister
  route path no_route registry = deregister path registry
  route path unbuilt registry = registry
  route path (built entry) registry = register answers.to_upper path entry registry

  unfoldable pub handle_trigger : Trigger → TriggerWatcher → TriggerWatcher
  unfolding update secret_refs_for_trigger wanted route entry_route_path
  handle_trigger trigger w = record {
    registry = route (entry_route_path trigger) (wanted trigger) w.registry;
    secret_index = update (key_of trigger) (secret_refs_for_trigger trigger) w.secret_index;
    triggers = put (key_of trigger) trigger w.triggers;
  }

  unfoldable pub reprocess_known : Option Trigger → TriggerWatcher → TriggerWatcher
  unfolding handle_trigger
  reprocess_known none w = w
  reprocess_known (some trigger) w = handle_trigger trigger w

  unfoldable pub reprocess_all : List NamespacedName → TriggerWatcher → TriggerWatcher
  unfolding reprocess_known at
  reprocess_all [] w = w
  reprocess_all (key ∷ rest) w = reprocess_all rest (reprocess_known (at key w.triggers) w)

  unfoldable pub handle_secret_change : NamespacedName → TriggerWatcher → TriggerWatcher
  unfolding reprocess_all objects_for
  handle_secret_change secret w = reprocess_all (objects_for secret w.secret_index) w

unfoldable pub handle_delete : Trigger → TriggerWatcher → TriggerWatcher
unfolding remove_object deregister entry_route_path
handle_delete trigger w = record {
  registry = deregister (entry_route_path trigger) w.registry;
  secret_index = remove_object (key_of trigger) w.secret_index;
  triggers = drop_key (key_of trigger) w.triggers;
}
