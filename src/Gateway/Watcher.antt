-- ===== src/Gateway/Watcher.antt =====
-- internal/gateway/kafka/watcher.go: Watcher, which keeps one subscription for each Trigger of the
-- gateway. Those of the AMQP and NATS gateways differ from it by what the record Broker has. The
-- informers call one handler at a time here; a handler is a function from the watcher to the next.
pub mod Resolve
pub mod Brokers
pub mod Rows
pub mod Consistent
pub mod Apart
pub mod Settled
pub mod Secrets
pub mod Histories
pub mod Unnoticed
mod Tests
use kubezap_operator.Base.{
  String, Bool, true, false, ◌&&◌, Option, none, some, List, [], ◌∷◌, ◌++◌, ◌==◌, if◌then◌else◌,
}
use kubezap_operator.Base.Keys.{NamespacedName, KeyMap, at, put, drop_key}
use kubezap_operator.Api.Trigger.{Trigger}
use kubezap_operator.Api.Integration.{Integration}
use kubezap_operator.Gateway.SecretIndex.{Index, new_index, update, remove_object, objects_for}
use Resolve.{Credentials, CredentialResult, resolved, unresolved, SecretReader}

-- What the client answers, and the SHA-256 of the values of Secrets, in hexadecimal.
pub record Cluster : Type 0 where
  pub get_integration : NamespacedName → Option Integration
  pub read_secret_key : SecretReader
  pub digest : String → String

-- What one gateway does in its own way.
pub record Broker : Type 0 where
  -- The name of the Integration and the settings to consume with, of a Trigger that is enabled and
  -- of the gateway.
  pub wanted : Trigger → Option (String × List String)
  -- The credentials of an Integration of the gateway's kind, for a namespace.
  pub resolve : SecretReader → String → Integration → Option CredentialResult
  -- startSubscription returns no error.
  pub starts : Trigger → Integration → Credentials → Bool

-- `settings` are the topic and the consumer group, or what a gateway has in their place; `flow_ref`
-- is that of the message handler.
pub record Subscription : Type 0 where
  pub integration_name : String
  pub settings : List String
  pub credential_fingerprint : String
  pub flow_ref : String

pub data CredentialEvent : Type 0 where
  resolution_failed resolution_succeeded : NamespacedName → String → CredentialEvent

pub record Watcher : Type 0 where
  pub triggers : KeyMap Trigger
  pub secret_index : Index
  pub integration_index : Index
  pub credential_failed : KeyMap Bool
  pub subscriptions : KeyMap Subscription
  -- The Events emitted, the latest first.
  pub events : List CredentialEvent

abbrev pub new_watcher : Watcher
new_watcher = record {
  triggers = [];
  secret_index = new_index;
  integration_index = new_index;
  credential_failed = [];
  subscriptions = [];
  events = [];
}

abbrev pub key_of : Trigger → NamespacedName
key_of trigger = record { namespace = trigger.namespace; name = trigger.name }

unfoldable pub stop_subscription : NamespacedName → Watcher → Watcher
stop_subscription key w = record w { subscriptions = drop_key key w.subscriptions }

unfoldable pub record_credential_failure : NamespacedName → String → Watcher → Watcher
record_credential_failure key integration w = record w {
  credential_failed = put key true w.credential_failed;
  events = resolution_failed key integration ∷ w.events;
}

-- The previous answer, where there is one.
abbrev pub was_failed : Option Bool → Bool
was_failed none = false
was_failed (some failed) = failed

unfoldable pub record_credential_success : NamespacedName → String → Watcher → Watcher
record_credential_success key integration w = record w {
  credential_failed = put key false w.credential_failed;
  events =
      if was_failed (at key w.credential_failed)
      then resolution_succeeded key integration ∷ w.events
      else w.events;
}

abbrev pub same_texts : List String → List String → Bool
same_texts [] [] = true
same_texts (s ∷ ss) (t ∷ ts) = s == t && same_texts ss ts
same_texts _ _ = false

-- The subscription that is there needs no restart.
unfoldable pub unchanged : Subscription → Subscription → Bool
unchanged sub next =
    same_texts sub.settings next.settings
    && sub.integration_name == next.integration_name
    && sub.credential_fingerprint == next.credential_fingerprint

-- The Trigger is not one of the gateway, or disabled.
unfoldable pub deactivate : NamespacedName → Watcher → Watcher
unfolding remove_object stop_subscription
deactivate key w = stop_subscription key (record w {
  secret_index = remove_object key w.secret_index;
  integration_index = remove_object key w.integration_index;
})

unfoldable pub on_trigger_delete : NamespacedName → Watcher → Watcher
unfolding deactivate
on_trigger_delete key w = deactivate key (record w {
  triggers = drop_key key w.triggers;
  credential_failed = drop_key key w.credential_failed;
})

module _ (cluster : Cluster) (broker : Broker) where
  -- startSubscription, of a Trigger without a subscription.
  unfoldable pub start_subscription :
      Trigger → Integration → Credentials → Subscription → Watcher → Watcher
  start_subscription trigger integration creds next w =
      if broker.starts trigger integration creds
      then record w { subscriptions = put (key_of trigger) next w.subscriptions }
      else w

  unfoldable pub subscribe :
      Trigger → Integration → Credentials → Subscription → Option Subscription → Watcher → Watcher
  unfolding start_subscription stop_subscription unchanged
  subscribe trigger integration creds next none w =
      start_subscription trigger integration creds next w
  subscribe trigger integration creds next (some sub) w =
      if unchanged sub next
      then w
      else start_subscription trigger integration creds next (stop_subscription (key_of trigger) w)

  abbrev pub index_secrets : Trigger → Credentials → Watcher → Watcher
  index_secrets trigger creds w = record w {
    secret_index = update (key_of trigger) creds.secret_refs w.secret_index;
  }

  unfoldable pub with_credentials :
      Trigger → Integration → String → List String → Option CredentialResult → Watcher → Watcher
  unfolding record_credential_failure record_credential_success subscribe
  with_credentials trigger integration name settings none w =
      record_credential_failure (key_of trigger) name w
  with_credentials trigger integration name settings (some (unresolved creds)) w =
      record_credential_failure (key_of trigger) name (index_secrets trigger creds w)
  with_credentials trigger integration name settings (some (resolved creds)) w =
      let next : Subscription = record {
        integration_name = name;
        settings = settings;
        credential_fingerprint = cluster.digest creds.written;
        flow_ref = trigger.flow_ref;
      } in
      subscribe trigger integration creds next (at (key_of trigger) w.subscriptions)
        (record_credential_success (key_of trigger) name (index_secrets trigger creds w))

  unfoldable pub with_integration :
      Trigger → String → List String → Option Integration → Watcher → Watcher
  unfolding with_credentials
  with_integration trigger name settings none w = record_credential_failure (key_of trigger) name w
  with_integration trigger name settings (some integration) w =
      with_credentials trigger integration name settings
        (broker.resolve cluster.read_secret_key trigger.namespace integration) w

  abbrev pub integration_key : Trigger → String → NamespacedName
  integration_key trigger name = record { namespace = trigger.namespace; name = name }

  unfoldable pub activate : Trigger → Option (String × List String) → Watcher → Watcher
  unfolding with_integration deactivate
  activate trigger none w = deactivate (key_of trigger) w
  activate trigger (some (name, settings)) w =
      with_integration trigger name settings
        (cluster.get_integration (integration_key trigger name))
        (record w {
          integration_index =
              update (key_of trigger) (integration_key trigger name ∷ []) w.integration_index;
        })

  unfoldable pub reconcile_trigger : Trigger → Watcher → Watcher
  unfolding activate
  reconcile_trigger trigger w =
      activate trigger (broker.wanted trigger)
        (record w { triggers = put (key_of trigger) trigger w.triggers })

  abbrev pub reconcile_known : Option Trigger → Watcher → Watcher
  reconcile_known none w = w
  reconcile_known (some trigger) w = reconcile_trigger trigger w

  -- The loop over the Triggers that depend on what has changed.
  unfoldable pub reprocess : List NamespacedName → Watcher → Watcher
  unfolding reconcile_trigger
  reprocess [] w = w
  reprocess (key ∷ rest) w = reprocess rest (reconcile_known (at key w.triggers) w)

  unfoldable pub handle_secret_change : NamespacedName → Watcher → Watcher
  unfolding reprocess objects_for
  handle_secret_change secret w = reprocess (objects_for secret w.secret_index) w

  unfoldable pub handle_integration_change : NamespacedName → Watcher → Watcher
  unfolding reprocess objects_for
  handle_integration_change integration w =
      reprocess (objects_for integration w.integration_index) w
