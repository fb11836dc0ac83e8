-- ===== src/Gateway/Watcher/Rows.antt =====
-- What one reconcile of a Trigger comes to, and what it makes of each part of the watcher.
use kubezap_operator.Base.{
  String, ◌≡◌, refl, Option, none, some, List, [], ◌∷◌, arith, if◌then◌else◌,
}
use kubezap_operator.Base.Keys.{NamespacedName, KeyMap, at, put, drop_key}
use kubezap_operator.Api.Trigger.{Trigger}
use kubezap_operator.Api.Integration.{Integration}
use kubezap_operator.Gateway.SecretIndex.{Index, update, remove_object}
use kubezap_operator.Gateway.Watcher.{
  Cluster, Broker, Subscription, Watcher, key_of, integration_key, index_secrets, unchanged,
  deactivate, stop_subscription, record_credential_failure, record_credential_success,
  start_subscription, subscribe, with_credentials, with_integration, activate, reconcile_trigger,
}
use kubezap_operator.Gateway.Watcher.Resolve.{Credentials, CredentialResult, resolved, unresolved}

-- What the cluster says of a Trigger: it is not one to consume for; its Integration is missing or
-- of another kind; a Secret of it cannot be read; or all is there.
pub data Outcome : Type 0 where
  idle unavailable : Outcome
  unreadable : Credentials → Outcome
  ready : Integration → Credentials → Subscription → Outcome

module _ (cluster : Cluster) (broker : Broker) (trigger : Trigger) where
  abbrev pub next_subscription : String → List String → Credentials → Subscription
  next_subscription name settings creds = record {
    integration_name = name;
    settings = settings;
    credential_fingerprint = cluster.digest creds.written;
    flow_ref = trigger.flow_ref;
  }

  abbrev pub credentials_outcome :
      Integration → String → List String → Option CredentialResult → Outcome
  credentials_outcome integration name settings none = unavailable
  credentials_outcome integration name settings (some (unresolved creds)) = unreadable creds
  credentials_outcome integration name settings (some (resolved creds)) =
      ready integration creds (next_subscription name settings creds)

  abbrev pub integration_outcome : String → List String → Option Integration → Outcome
  integration_outcome name settings none = unavailable
  integration_outcome name settings (some integration) =
      credentials_outcome integration name settings
        (broker.resolve cluster.read_secret_key trigger.namespace integration)

  abbrev pub wanted_outcome : Option (String × List String) → Outcome
  wanted_outcome none = idle
  wanted_outcome (some (name, settings)) =
      integration_outcome name settings
        (cluster.get_integration (integration_key cluster broker trigger name))

  unfoldable pub outcome : Outcome
  outcome = wanted_outcome (broker.wanted trigger)

  abbrev key : NamespacedName
  key = key_of trigger

  abbrev pub secrets_after : Outcome → Index → Index
  secrets_after idle idx = remove_object key idx
  secrets_after unavailable idx = idx
  secrets_after (unreadable creds) idx = update key creds.secret_refs idx
  secrets_after (ready integration creds next) idx = update key creds.secret_refs idx

  abbrev pub started :
      Integration → Credentials → Subscription → KeyMap Subscription → KeyMap Subscription
  started integration creds next subs =
      if broker.starts trigger integration creds then put key next subs else subs

  abbrev pub subscribed :
      Integration
      → Credentials
      → Subscription
      → Option Subscription
      → KeyMap Subscription
      → KeyMap Subscription
  subscribed integration creds next none subs = started integration creds next subs
  subscribed integration creds next (some sub) subs =
      if unchanged sub next then subs else started integration creds next (drop_key key subs)

  abbrev pub subscriptions_after : Outcome → KeyMap Subscription → KeyMap Subscription
  subscriptions_after idle subs = drop_key key subs
  subscriptions_after unavailable subs = subs
  subscriptions_after (unreadable creds) subs = subs
  subscriptions_after (ready integration creds next) subs =
      subscribed integration creds next (at key subs) subs

  abbrev pub integrations_after : Option (String × List String) → Index → Index
  integrations_after none idx = remove_object key idx
  integrations_after (some (name, settings)) idx =
      update key (integration_key cluster broker trigger name ∷ []) idx

  -- What a watcher's three parts that depend on the outcome become.
  abbrev Inner : Outcome → Watcher → Watcher → Type 0
  Inner o w w' =
      (w'.triggers ≡ w.triggers)
      × (w'.integration_index ≡ w.integration_index)
      × (w'.secret_index ≡ secrets_after o w.secret_index)
      × (w'.subscriptions ≡ subscriptions_after o w.subscriptions)

  subscribe_lem :
      (integration : Integration) (creds : Credentials) (next : Subscription)
      (o : Option Subscription) (w : Watcher)
      → ((subscribe cluster broker trigger integration creds next o w).triggers ≡ w.triggers)
        × ((subscribe cluster broker trigger integration creds next o w).secret_index
            ≡ w.secret_index)
        × ((subscribe cluster broker trigger integration creds next o w).integration_index
            ≡ w.integration_index)
        × ((subscribe cluster broker trigger integration creds next o w).subscriptions
            ≡ subscribed integration creds next o w.subscriptions)
  unfolding subscribe start_subscription stop_subscription
  subscribe_lem integration creds next none w = ground arith
  subscribe_lem integration creds next (some sub) w = ground arith

  credentials-Inner :
      (integration : Integration) (name : String) (settings : List String)
      (r : Option CredentialResult) (w : Watcher)
      → Inner
          (credentials_outcome integration name settings r)
          w
          (with_credentials cluster broker trigger integration name settings r w)
  unfolding with_credentials record_credential_failure record_credential_success
  credentials-Inner integration name settings none w = (refl, refl, refl, refl)
  credentials-Inner integration name settings (some (unresolved creds)) w = (refl, refl, refl, refl)
  credentials-Inner integration name settings (some (resolved creds)) w =
      let (t, s, i, u) =
        subscribe_lem integration creds (next_subscription name settings creds)
          (at key w.subscriptions)
          (record_credential_success key name (index_secrets cluster broker trigger creds w)) in
      (t, i, s, u)

  integration-Inner :
      (name : String) (settings : List String) (r : Option Integration) (w : Watcher)
      → Inner
          (integration_outcome name settings r)
          w
          (with_integration cluster broker trigger name settings r w)
  unfolding with_integration record_credential_failure
  integration-Inner name settings none w = (refl, refl, refl, refl)
  integration-Inner name settings (some integration) w =
      credentials-Inner integration name settings
        (broker.resolve cluster.read_secret_key trigger.namespace integration) w

  -- A watcher after a reconcile of the Trigger, part by part.
  abbrev pub After : Watcher → Watcher → Type 0
  After w w' =
      (w'.triggers ≡ put key trigger w.triggers)
      × (w'.integration_index ≡ integrations_after (broker.wanted trigger) w.integration_index)
      × (w'.secret_index ≡ secrets_after outcome w.secret_index)
      × (w'.subscriptions ≡ subscriptions_after outcome w.subscriptions)

  activated :
      (wanted : Option (String × List String)) (w : Watcher)
      → ((activate cluster broker trigger wanted w).triggers ≡ w.triggers)
        × ((activate cluster broker trigger wanted w).integration_index
            ≡ integrations_after wanted w.integration_index)
        × ((activate cluster broker trigger wanted w).secret_index
            ≡ secrets_after (wanted_outcome wanted) w.secret_index)
        × ((activate cluster broker trigger wanted w).subscriptions
            ≡ subscriptions_after (wanted_outcome wanted) w.subscriptions)
  unfolding activate deactivate stop_subscription
  activated none w = (refl, refl, refl, refl)
  activated (some (name, settings)) w =
      integration-Inner name settings
        (cluster.get_integration (integration_key cluster broker trigger name))
        (record w {
          integration_index =
              update key (integration_key cluster broker trigger name ∷ []) w.integration_index;
        })

  pub reconcile-After : (w : Watcher) → After w (reconcile_trigger cluster broker trigger w)
  unfolding reconcile_trigger outcome
  reconcile-After w =
      activated (broker.wanted trigger) (record w { triggers = put key trigger w.triggers })
