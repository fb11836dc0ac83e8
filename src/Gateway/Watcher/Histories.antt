-- ===== src/Gateway/Watcher/Histories.antt =====
-- Histories of a gateway: the changes that its informers report, each with what the cluster answers
-- at that time.
use kubezap_operator.Base.{
  ◌≡◌, refl, ◌∙◌, true, false, none, some, List, [], ◌∷◌, Bool-cases, inl, inr,
}
use kubezap_operator.Base.Keys.{
  NamespacedName, KeyMap, at, drop_key, has, same, same_refl, at-drop_key,
}
use kubezap_operator.Api.Trigger.{Trigger}
use kubezap_operator.Gateway.SecretIndex.{remove_object, objects_for}
use kubezap_operator.Gateway.SecretIndex.Laws.{objects_for-update, update-IsMirror}
use kubezap_operator.Gateway.Watcher.{
  Cluster, Broker, Watcher, new_watcher, key_of, stop_subscription, deactivate, on_trigger_delete,
  reconcile_trigger, handle_secret_change, handle_integration_change,
}
use kubezap_operator.Gateway.Watcher.Consistent.{
  IsConsistent, KeyedBy, new_watcher-IsConsistent, reconcile-IsConsistent,
}
use kubezap_operator.Gateway.Watcher.Settled.{Settled, Left, reconcile-Settled, reconcile-Left}
use kubezap_operator.Gateway.Watcher.Secrets.{reprocess-IsConsistent, handle_secret_change-Settled}

pub data Change : Type 0 where
  trigger_seen : Trigger → Change
  trigger_deleted secret_changed integration_changed : NamespacedName → Change

-- The handlers that Start registers.
unfoldable pub handle : Cluster → Broker → Change → Watcher → Watcher
unfolding reconcile_trigger on_trigger_delete handle_secret_change handle_integration_change
handle cluster broker (trigger_seen trigger) w = reconcile_trigger cluster broker trigger w
handle cluster broker (trigger_deleted key) w = on_trigger_delete key w
handle cluster broker (secret_changed secret) w = handle_secret_change cluster broker secret w
handle cluster broker (integration_changed integration) w =
    handle_integration_change cluster broker integration w

unfoldable pub run : Broker → List (Cluster × Change) → Watcher → Watcher
unfolding handle
run broker [] w = w
run broker ((cluster, change) ∷ rest) w = run broker rest (handle cluster broker change w)

drop-KeyedBy :
    (k removed : NamespacedName) (m : KeyMap Trigger)
    → KeyedBy k (at k m)
    → KeyedBy k (at k (drop_key removed m))
drop-KeyedBy k removed m h =
    rw (at-drop_key k removed m)
      (elim (Bool-cases (same removed k)) [ inl e ↦ rw e tt | inr e ↦ rw e h ])

on_trigger_delete-IsConsistent :
    (key : NamespacedName) (w : Watcher) → IsConsistent w → IsConsistent (on_trigger_delete key w)
unfolding on_trigger_delete deactivate stop_subscription remove_object
on_trigger_delete-IsConsistent key w c = record {
  secrets = update-IsMirror w.secret_index key [] c.secrets;
  integrations = update-IsMirror w.integration_index key [] c.integrations;
  keyed = λ k. drop-KeyedBy k key w.triggers (c.keyed k);
}

-- No trace of a Trigger is left.
abbrev pub Forgotten : NamespacedName → Watcher → Type 0
Forgotten key w =
    (at key w.triggers ≡ none)
    × (at key w.subscriptions ≡ none)
    × ((s : NamespacedName)
        → (has key (objects_for s w.secret_index) ≡ false)
          × (has key (objects_for s w.integration_index) ≡ false))

delete-Forgotten :
    (key : NamespacedName) (w : Watcher) → IsConsistent w → Forgotten key (on_trigger_delete key w)
unfolding on_trigger_delete deactivate stop_subscription remove_object
delete-Forgotten key w c = (
  at-drop_key key key w.triggers ∙ rw (same_refl key) refl,
  at-drop_key key key w.subscriptions ∙ rw (same_refl key) refl,
  λ s. (
    objects_for-update w.secret_index key [] c.secrets key s
        ∙ unfold has in rw (same_refl key) refl,
    objects_for-update w.integration_index key [] c.integrations key s
        ∙ unfold has in rw (same_refl key) refl,
  ),
)

handle-IsConsistent :
    (cluster : Cluster) (broker : Broker) (change : Change) (w : Watcher)
    → IsConsistent w
    → IsConsistent (handle cluster broker change w)
unfolding handle handle_secret_change handle_integration_change
handle-IsConsistent cluster broker (trigger_seen trigger) w c =
    reconcile-IsConsistent cluster broker trigger w c
handle-IsConsistent cluster broker (trigger_deleted key) w c =
    on_trigger_delete-IsConsistent key w c
handle-IsConsistent cluster broker (secret_changed secret) w c =
    reprocess-IsConsistent cluster broker (objects_for secret w.secret_index) w c
handle-IsConsistent cluster broker (integration_changed integration) w c =
    reprocess-IsConsistent cluster broker (objects_for integration w.integration_index) w c

module _ (broker : Broker) where
  run-IsConsistent :
      (history : List (Cluster × Change)) (w : Watcher)
      → IsConsistent w
      → IsConsistent (run broker history w)
  unfolding run
  run-IsConsistent [] w c = c
  run-IsConsistent ((cluster, change) ∷ rest) w c =
      run-IsConsistent rest (handle cluster broker change w)
        (handle-IsConsistent cluster broker change w c)

  -- The watcher after a history from the start of the gateway.
  abbrev pub reached : List (Cluster × Change) → Watcher
  reached history = run broker history new_watcher

  reached-IsConsistent : (history : List (Cluster × Change)) → IsConsistent (reached history)
  reached-IsConsistent history = run-IsConsistent history new_watcher new_watcher-IsConsistent

  -- Whatever the gateway has seen before, once a Trigger is seen: if it is not to be consumed for, it has
  -- no subscription and no Secret lists it. If its Integration is missing or of another kind, the
  -- subscriptions and the index of Secrets are as before. Else exactly the Secrets list it that its
  -- credentials were read from; where one cannot be read, the subscriptions are as before, and where
  -- all are, its subscription has the settings, the Integration and the fingerprint that are due, and
  -- is there if it could start.
  pub seen-Settled :
      (history : List (Cluster × Change)) (cluster : Cluster) (trigger : Trigger)
      → Settled cluster broker trigger
          (handle cluster broker (trigger_seen trigger) (reached history))
        × Left cluster broker trigger
            (reached history)
            (handle cluster broker (trigger_seen trigger) (reached history))
  unfolding handle
  seen-Settled history cluster trigger = (
    reconcile-Settled cluster broker trigger (reached history) (reached-IsConsistent history),
    reconcile-Left cluster broker trigger (reached history),
  )

  -- Whatever the gateway has seen before: a Trigger that is deleted has no subscription, and neither
  -- index lists it.
  pub deleted-Forgotten :
      (history : List (Cluster × Change)) (cluster : Cluster) (key : NamespacedName)
      → Forgotten key (handle cluster broker (trigger_deleted key) (reached history))
  unfolding handle
  deleted-Forgotten history cluster key =
      delete-Forgotten key (reached history) (reached-IsConsistent history)

  -- Whatever the gateway has seen before: when a Secret changes for which the index lists a Trigger,
  -- that Trigger, as last seen, is settled again, with all others that depend on the Secret.
  pub secret_changed-Settled :
      (history : List (Cluster × Change)) (cluster : Cluster) (trigger : Trigger)
      (secret : NamespacedName)
      → at (key_of trigger) (reached history).triggers ≡ some trigger
      → has (key_of trigger) (objects_for secret (reached history).secret_index) ≡ true
      → Settled cluster broker trigger
          (handle cluster broker (secret_changed secret) (reached history))
  unfolding handle
  secret_changed-Settled history cluster trigger secret known listed =
      handle_secret_change-Settled cluster broker trigger secret (reached history)
        (reached-IsConsistent history) known listed
