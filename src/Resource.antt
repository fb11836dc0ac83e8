-- ===== src/Resource.antt =====
-- internal/controller/resource_watcher.go: the Triggers of `type: resource`, the events of the objects
-- they watch, and what the handlers use of Go's library and of apimachinery. The caches are filled by
-- client-go.
pub mod Names
pub mod Watchers
pub mod Events
pub mod Spacing
pub mod Cleared
mod Tests
use kubezap_operator.Base.{String, Bool, Option, List}
use kubezap_operator.Base.Int.{ℤ}
use kubezap_operator.Base.Assoc.{Assoc}

-- unstructured.Unstructured: what the handlers read of it, and its content.
pub record Unstructured (Content : Type 0) : Type 0 where
  pub name : String
  pub namespace : String
  pub labels : Assoc String
  pub object : Content

-- What an informer hands over: an object, the tombstone of one, or another type.
pub data Obj (Content : Type 0) : Type 0 where
  unstructured : Unstructured Content → Obj Content
  deleted_final_state_unknown : Option (Unstructured Content) → Obj Content
  other_type : Obj Content

-- What the source uses of Go's library and of apimachinery.
pub record Library (Content Selector : Type 0) : Type 0 where
  pub to_lower : String → String
  pub decimal : ℤ → String
  -- The text that `%v` gives of the field at a path.
  pub nested_field : Content → List String → String
  -- json.Marshal; an error gives no bytes.
  pub marshal : Content → String
  -- metav1.LabelSelectorAsSelector, where it gives no error.
  pub as_selector : Selector → Option (Assoc String → Bool)

-- ResourceTrigger of api/v1alpha1/trigger_types.go.
pub record ResourceTrigger (Selector : Type 0) : Type 0 where
  pub api_version : String
  pub kind : String
  pub namespace : String
  pub label_selector : Option Selector
  pub events : List String
  pub watch_fields : List String
  pub cooldown : Option ℤ

-- The Trigger, whose spec.resource is there.
pub record WatchedTrigger (Selector : Type 0) : Type 0 where
  pub namespace : String
  pub name : String
  pub flow_ref_name : String
  pub resource : ResourceTrigger Selector

-- The FlowRun of an event.
pub record ResourceRun : Type 0 where
  pub name : String
  pub namespace : String
  pub labels : Assoc String
  pub flow_ref : String
  pub trigger_name : String
  pub event_type : String
  pub resource_name : String
  pub resource_namespace : String
  pub resource_api_version : String
  pub resource_kind : String
  pub body : String

-- watch.EventType, and its text.
pub data EventType : Type 0 where
  added modified deleted : EventType

abbrev pub event_text : EventType → String
event_text added = "ADDED"
event_text modified = "MODIFIED"
event_text deleted = "DELETED"

-- What the informer tells: an object is new, or it has changed, or it is gone.
pub data Notification (Content : Type 0) : Type 0 where
  add_func : Obj Content → Notification Content
  update_func : Obj Content → Obj Content → Notification Content
  delete_func : Obj Content → Notification Content

-- The clock as one call of handleEvent reads it, and the random digits of the name.
pub record Reading : Type 0 where
  pub checked : ℤ
  pub marked : ℤ
  pub unix : ℤ
  pub random_hex : String
