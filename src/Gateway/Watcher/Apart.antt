-- ===== src/Gateway/Watcher/Apart.antt =====
-- A reconcile leaves what the watcher has of the other Triggers.
use kubezap_operator.Base.{◌≡◌, refl, ◌∙◌, false, Option, none, some, [], arith}
use kubezap_operator.Base.Keys.{
  NamespacedName, KeyMap, at, drop_key, has, same, at-put, at-drop_key,
}
use kubezap_operator.Api.Trigger.{Trigger}
use kubezap_operator.Api.Integration.{Integration}
use kubezap_operator.Gateway.SecretIndex.{Index, remove_object, objects_for}
use kubezap_operator.Gateway.SecretIndex.Laws.{IsMirror, objects_for-update}
use kubezap_operator.Gateway.Watcher.{
  Cluster, Broker, Subscription, Watcher, key_of, reconcile_trigger,
}
use kubezap_operator.Gateway.Watcher.Resolve.{Credentials}
use kubezap_operator.Gateway.Watcher.Rows.{
  Outcome, idle, unavailable, unreadable, ready, outcome, started, subscribed, secrets_after,
  subscriptions_after, reconcile-After,
}

-- The rows of a key are those that were there.
abbrev pub SameRows : NamespacedName → Watcher → Watcher → Type 0
SameRows other w w' =
    (at other w'.triggers ≡ at other w.triggers)
    × (at other w'.subscriptions ≡ at other w.subscriptions)
    × ((s : NamespacedName)
        → has other (objects_for s w'.secret_index) ≡ has other (objects_for s w.secret_index))

module _ (cluster : Cluster) (broker : Broker) (trigger : Trigger) where
  abbrev key : NamespacedName
  key = key_of trigger

  module _ (other : NamespacedName) (apart : same key other ≡ false) where
    secrets_after_other :
        (o : Outcome) (idx : Index) (s : NamespacedName)
        → IsMirror idx
        → has other (objects_for s (secrets_after cluster broker trigger o idx))
          ≡ has other (objects_for s idx)
    unfolding remove_object
    secrets_after_other idle idx s h = objects_for-update idx key [] h other s ∙ rw apart refl
    secrets_after_other unavailable idx s h = refl
    secrets_after_other (unreadable creds) idx s h =
        objects_for-update idx key creds.secret_refs h other s ∙ rw apart refl
    secrets_after_other (ready integration creds next) idx s h =
        objects_for-update idx key creds.secret_refs h other s ∙ rw apart refl

    started_other :
        (integration : Integration) (creds : Credentials) (next : Subscription)
        (subs : KeyMap Subscription)
        → at other (started cluster broker trigger integration creds next subs) ≡ at other subs
    started_other integration creds next subs = ground (arith, at-put other key next subs)

    subscribed_other :
        (integration : Integration) (creds : Credentials) (next : Subscription)
        (o : Option Subscription) (subs : KeyMap Subscription)
        → at other (subscribed cluster broker trigger integration creds next o subs) ≡ at other subs
    subscribed_other integration creds next none subs = started_other integration creds next subs
    subscribed_other integration creds next (some sub) subs = ground (
      arith,
      started_other integration creds next (drop_key key subs),
      at-drop_key other key subs,
    )

    subscriptions_after_other :
        (o : Outcome) (subs : KeyMap Subscription)
        → at other (subscriptions_after cluster broker trigger o subs) ≡ at other subs
    subscriptions_after_other idle subs = at-drop_key other key subs ∙ rw apart refl
    subscriptions_after_other unavailable subs = refl
    subscriptions_after_other (unreadable creds) subs = refl
    subscriptions_after_other (ready integration creds next) subs =
        subscribed_other integration creds next (at key subs) subs

    pub reconcile_other :
        (w : Watcher)
        → IsMirror w.secret_index
        → SameRows other w (reconcile_trigger cluster broker trigger w)
    reconcile_other w h =
        let (t, i, s, u) = reconcile-After cluster broker trigger w in
        (
          rw t (at-put other key trigger w.triggers ∙ rw apart refl),
          rw u (subscriptions_after_other (outcome cluster broker trigger) w.subscriptions),
          λ secret.
              rw s (secrets_after_other (outcome cluster broker trigger) w.secret_index secret h),
        )
