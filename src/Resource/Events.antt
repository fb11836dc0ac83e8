-- ===== src/Resource/Events.antt =====
-- internal/controller/resource_watcher.go: the handlers of the informer of a Trigger, and the plural of
-- a kind.
pub mod Laws
use kubezap_operator.Base.{
  String, Bool, true, false, not, ◌&&◌, Option, none, some, List, [], ◌∷◌, map, any, is_empty,
  contains_string, ◌==◌, if◌then◌else◌,
}
use kubezap_operator.Base.Assoc.{Assoc}
use kubezap_operator.Base.Text.{◌⧺◌, strip_prefix, split}
use kubezap_operator.Resource.{
  Unstructured, Obj, unstructured, deleted_final_state_unknown, other_type, Library, WatchedTrigger,
  ResourceRun, EventType, added, modified, deleted, event_text, Notification, add_func, update_func,
  delete_func, Reading,
}
use kubezap_operator.Resource.Names.{sanitize_name}
use kubezap_operator.Resource.Watchers.{CooldownTracker, pass_cooldown}

unfoldable pub to_unstructured : {Content : Type 0} → Obj Content → Option (Unstructured Content)
to_unstructured (unstructured u) = some u
to_unstructured (deleted_final_state_unknown (some u)) = some u
to_unstructured (deleted_final_state_unknown none) = none
to_unstructured other_type = none

-- `strings.TrimPrefix(field, ".")`.
abbrev pub or_whole : String → Option String → String
or_whole field none = field
or_whole field (some rest) = rest

module _ {Content Selector : Type 0} (lib : Library Content Selector) where
  open lib use {to_lower, decimal, nested_field, marshal, as_selector}

  unfoldable pub allowed_event_set : List String → List String
  allowed_event_set [] = "create" ∷ []
  allowed_event_set (e ∷ events) = map to_lower (e ∷ events)

  abbrev pub field_path : String → List String
  field_path field = split b'.' (or_whole field (strip_prefix "." field))

  abbrev pub fields_differ :
      Option (Unstructured Content) → Option (Unstructured Content) → List String → Bool
  fields_differ (some old) (some new) fields =
      any
        (λ field. not (
          nested_field old.object (field_path field) == nested_field new.object (field_path field)))
        fields
  fields_differ _ _ fields = true

  unfoldable pub fields_changed : Obj Content → Obj Content → List String → Bool
  unfolding to_unstructured split strip_prefix
  fields_changed old new fields = fields_differ (to_unstructured old) (to_unstructured new) fields

  -- A selector that cannot be read selects all.
  abbrev pub selects : Option (Assoc String → Bool) → Assoc String → Bool
  selects none labels = true
  selects (some matches) labels = matches labels

  unfoldable pub is_selected : Option Selector → Assoc String → Bool
  is_selected none labels = true
  is_selected (some selector) labels = selects (as_selector selector) labels

  module _ (trigger : WatchedTrigger Selector) where
    unfoldable pub cooldown_key : Unstructured Content → EventType → String
    cooldown_key u e =
        trigger.namespace
        ⧺ "/"
        ⧺ trigger.name
        ⧺ "/"
        ⧺ u.namespace
        ⧺ "/"
        ⧺ u.name
        ⧺ "/"
        ⧺ to_lower (event_text e)

    unfoldable pub run_of : Unstructured Content → EventType → Reading → ResourceRun
    unfolding sanitize_name
    run_of u e reading = record {
      name =
          trigger.name
          ⧺ "-"
          ⧺ sanitize_name to_lower u.name
          ⧺ "-"
          ⧺ to_lower (event_text e)
          ⧺ "-"
          ⧺ decimal reading.unix
          ⧺ "-"
          ⧺ reading.random_hex;
      namespace = trigger.namespace;
      labels =
          ("kubezap.io/trigger", trigger.name)
          ∷ ("kubezap.io/trigger-type", "resource")
          ∷ ("kubezap.io/flow", trigger.flow_ref_name)
          ∷ [];
      flow_ref = trigger.flow_ref_name;
      trigger_name = trigger.name;
      event_type = event_text e;
      resource_name = u.name;
      resource_namespace = u.namespace;
      resource_api_version = trigger.resource.api_version;
      resource_kind = trigger.resource.kind;
      body = marshal u.object;
    }

    -- An event that passes the cooldown: the FlowRun that is sent to the API server, if any.
    unfoldable pub send :
        Bool × CooldownTracker → ResourceRun → Option ResourceRun × CooldownTracker
    send (false, tracker) run = (none, tracker)
    send (true, tracker) run =
        if trigger.flow_ref_name == "" then (none, tracker) else (some run, tracker)

    unfoldable pub handle_unstructured :
        Option (Unstructured Content)
        → EventType
        → Reading
        → CooldownTracker
        → Option ResourceRun × CooldownTracker
    unfolding is_selected pass_cooldown cooldown_key run_of send
    handle_unstructured none e reading tracker = (none, tracker)
    handle_unstructured (some u) e reading tracker =
        if not (is_selected trigger.resource.label_selector u.labels)
        then (none, tracker)
        else send
            (pass_cooldown reading.checked reading.marked trigger.resource.cooldown
              (cooldown_key u e) tracker)
            (run_of u e reading)

    unfoldable pub handle_event :
        Obj Content → EventType → Reading → CooldownTracker → Option ResourceRun × CooldownTracker
    unfolding to_unstructured handle_unstructured
    handle_event obj e reading tracker = handle_unstructured (to_unstructured obj) e reading tracker

    abbrev pub allows : String → Bool
    allows event = contains_string (allowed_event_set trigger.resource.events) event

    -- The handlers that runWatcher gives the informer.
    unfoldable pub notify :
        Notification Content → Reading → CooldownTracker → Option ResourceRun × CooldownTracker
    unfolding allowed_event_set fields_changed handle_event
    notify (add_func obj) reading tracker =
        if not (allows "create") then (none, tracker) else handle_event obj added reading tracker
    notify (update_func old new) reading tracker =
        if not (allows "update")
        then (none, tracker)
        else if not (is_empty trigger.resource.watch_fields)
            && not (fields_changed old new trigger.resource.watch_fields)
        then (none, tracker)
        else handle_event new modified reading tracker
    notify (delete_func obj) reading tracker =
        if not (allows "delete") then (none, tracker) else handle_event obj deleted reading tracker

-- resolvePlural: the answer of discovery has the kinds and the names of the resources.
abbrev pub named_resource : String → String → List (String × String) → String
named_resource naive_plural kind [] = naive_plural
named_resource naive_plural kind ((k, name) ∷ rest) =
    if k == kind then name else named_resource naive_plural kind rest

unfoldable pub resolve_plural :
    (String → String) → Option (Option (List (String × String))) → String → String
resolve_plural to_lower none kind = to_lower kind ⧺ "s"
resolve_plural to_lower (some none) kind = to_lower kind ⧺ "s"
resolve_plural to_lower (some (some resources)) kind =
    named_resource (to_lower kind ⧺ "s") kind resources
