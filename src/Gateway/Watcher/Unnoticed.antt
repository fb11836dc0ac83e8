-- ===== src/Gateway/Watcher/Unnoticed.antt =====
-- Two changes that a gateway does not take up: a Secret that was missing appears, and the Flow of a
-- Trigger is another one.
use kubezap_operator.Base.{String, ◌≡◌, refl, subst, ◌∙◌, ap, true, Option, none, some, List}
use kubezap_operator.Base.Keys.{NamespacedName, at, has}
use kubezap_operator.Api.Trigger.{Trigger}
use kubezap_operator.Api.Integration.{Integration, KafkaIntegrationSpec, KafkaSaslConfig}
use kubezap_operator.Gateway.SecretIndex.{objects_for}
use kubezap_operator.Gateway.Watcher.{
  Cluster, Broker, Subscription, Watcher, key_of, integration_key, unchanged, reconcile_trigger,
  handle_secret_change,
}
use kubezap_operator.Gateway.Watcher.Resolve.{
  Credentials, CredentialResult, resolved, unresolved, no_credentials, enabled_ca, add_ca,
  add_login, resolve_kafka_credentials,
}
use kubezap_operator.Gateway.Watcher.Brokers.{Clients, kafka, kafka_wanted}
use kubezap_operator.Gateway.Watcher.Rows.{
  Outcome, idle, unavailable, unreadable, ready, outcome, wanted_outcome, integration_outcome,
  credentials_outcome, reconcile-After,
}
use kubezap_operator.Gateway.Watcher.Consistent.{IsConsistent, reconcile-IsConsistent}
use kubezap_operator.Gateway.Watcher.Settled.{SettledAs, reconcile-Settled}
use kubezap_operator.Gateway.Watcher.Secrets.{reprocess_other}

module _ (clients : Clients) (cluster : Cluster) (trigger : Trigger) where
  abbrev broker : Broker
  unfolding kafka
  broker = kafka clients

  kafka_unreadable :
      (name : String) (settings : List String) (integration : Integration)
      (spec : KafkaIntegrationSpec) (sasl : KafkaSaslConfig)
      → kafka_wanted trigger ≡ some (name, settings)
      → cluster.get_integration (integration_key cluster (kafka clients) trigger name)
        ≡ some integration
      → integration.kafka ≡ some spec
      → enabled_ca spec.tls ≡ none
      → spec.sasl ≡ some sasl
      → cluster.read_secret_key trigger.namespace sasl.username_secret_ref.name
          sasl.username_secret_ref.key
        ≡ none
      → outcome cluster (kafka clients) trigger ≡ unreadable no_credentials
  unfolding outcome kafka resolve_kafka_credentials add_ca add_login
  kafka_unreadable name settings integration spec sasl w i k t s r = rw (w, i, k, t, s, r) refl

  -- Where the Secret with the user name of a Kafka Integration is missing, and no CA certificate is
  -- configured, the subscription of the Trigger is not touched when any Secret, that one included,
  -- changes later, whatever the cluster then answers.
  pub missing_secret_unnoticed :
      (name : String) (settings : List String) (integration : Integration)
      (spec : KafkaIntegrationSpec) (sasl : KafkaSaslConfig) (later : Cluster)
      (secret : NamespacedName) (w : Watcher)
      → IsConsistent w
      → kafka_wanted trigger ≡ some (name, settings)
      → cluster.get_integration (integration_key cluster (kafka clients) trigger name)
        ≡ some integration
      → integration.kafka ≡ some spec
      → enabled_ca spec.tls ≡ none
      → spec.sasl ≡ some sasl
      → cluster.read_secret_key trigger.namespace sasl.username_secret_ref.name
          sasl.username_secret_ref.key
        ≡ none
      → at
          (key_of trigger)
          (handle_secret_change later
            (kafka clients)
            secret
            (reconcile_trigger cluster (kafka clients) trigger w)).subscriptions
        ≡ at (key_of trigger) w.subscriptions
  unfolding handle_secret_change
  missing_secret_unnoticed name settings integration spec sasl later secret w c hw hi hk ht hs hr =
      let o = kafka_unreadable name settings integration spec sasl hw hi hk ht hs hr in
      let w' : Watcher = reconcile_trigger cluster (kafka clients) trigger w in
      let (t, i, s, u) = reconcile-After cluster (kafka clients) trigger w in
      let listed =
        subst (λ p. SettledAs cluster (kafka clients) trigger p w') o
          (reconcile-Settled cluster (kafka clients) trigger w c) in
      let (t', u', i') =
        reprocess_other later (kafka clients) (key_of trigger) (objects_for secret w'.secret_index)
          w' (reconcile-IsConsistent cluster (kafka clients) trigger w c)
          (unfold has in listed secret) in
      u' ∙ (ap (at (key_of trigger)) u ∙ rw o refl)

-- The outcome for a Trigger with another Flow.
abbrev with_flow : String → Outcome → Outcome
with_flow flow idle = idle
with_flow flow unavailable = unavailable
with_flow flow (unreadable creds) = unreadable creds
with_flow flow (ready integration creds next) =
    ready integration creds (record next { flow_ref = flow })

module _ (clients : Clients) (cluster : Cluster) (trigger : Trigger) (flow : String) where
  abbrev pub edited : Trigger
  edited = record trigger { flow_ref = flow }

  credentials_flow :
      (integration : Integration) (name : String) (settings : List String)
      (r : Option CredentialResult)
      → credentials_outcome cluster (kafka clients) edited integration name settings r
        ≡ with_flow flow
            (credentials_outcome cluster (kafka clients) trigger integration name settings r)
  credentials_flow integration name settings none = refl
  credentials_flow integration name settings (some (unresolved creds)) = refl
  credentials_flow integration name settings (some (resolved creds)) = refl

  integration_flow :
      (name : String) (settings : List String) (r : Option Integration)
      → integration_outcome cluster (kafka clients) edited name settings r
        ≡ with_flow flow (integration_outcome cluster (kafka clients) trigger name settings r)
  integration_flow name settings none = refl
  integration_flow name settings (some integration) =
      credentials_flow integration name settings
        ((kafka clients).resolve cluster.read_secret_key trigger.namespace integration)

  wanted_flow :
      (wanted : Option (String × List String))
      → wanted_outcome cluster (kafka clients) edited wanted
        ≡ with_flow flow (wanted_outcome cluster (kafka clients) trigger wanted)
  wanted_flow none = refl
  wanted_flow (some (name, settings)) =
      integration_flow name settings
        (cluster.get_integration (integration_key cluster (kafka clients) trigger name))

  outcome_flow :
      outcome cluster (kafka clients) edited
      ≡ with_flow flow (outcome cluster (kafka clients) trigger)
  unfolding outcome kafka kafka_wanted kubezap_operator.Gateway.Watcher.Brokers.consumer_group
  outcome_flow = wanted_flow (kafka_wanted trigger)

  same_flow :
      (next sub : Subscription)
      → unchanged sub next ≡ true
      → unchanged sub (record next { flow_ref = flow }) ≡ true
  unfolding unchanged
  same_flow next sub e = e

  -- Where a Kafka Trigger has the subscription that is due and only its Flow is changed, the
  -- subscription stays, and with it the Flow that its messages run.
  pub flow_change_unnoticed :
      (integration : Integration) (creds : Credentials) (next sub : Subscription) (w : Watcher)
      → outcome cluster (kafka clients) trigger ≡ ready integration creds next
      → at (key_of trigger) w.subscriptions ≡ some sub
      → unchanged sub next ≡ true
      → at (key_of trigger) (reconcile_trigger cluster (kafka clients) edited w).subscriptions
        ≡ some sub
  flow_change_unnoticed integration creds next sub w o h e =
      let (t, i, s, u) = reconcile-After cluster (kafka clients) edited w in
      rw u (rw (outcome_flow, o) (rw h (rw (same_flow next sub e) h)))
