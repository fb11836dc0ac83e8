-- ===== src/Gateway/Watcher/Secrets.antt =====
-- handleSecretChange and handleIntegrationChange: each Trigger that depends on what has changed is
-- settled, and stays so while the others are reprocessed.
use kubezap_operator.Base.{
  ◌≡◌, ◌⊎◌, refl, sym, subst, ◌∙◌, true, false, Option, none, some, List, [], ◌∷◌, arith,
  Bool-cases, inl, inr,
}
use kubezap_operator.Base.Keys.{NamespacedName, at, has, same, same_iff, same_refl, at-put}
use kubezap_operator.Api.Trigger.{Trigger}
use kubezap_operator.Gateway.SecretIndex.{objects_for}
use kubezap_operator.Gateway.Watcher.{
  Cluster, Broker, Watcher, key_of, reconcile_trigger, reconcile_known, reprocess,
  handle_secret_change, handle_integration_change,
}
use kubezap_operator.Gateway.Watcher.Rows.{
  Outcome, idle, unavailable, unreadable, ready, outcome, reconcile-After,
}
use kubezap_operator.Gateway.Watcher.Consistent.{IsConsistent, KeyedBy, reconcile-IsConsistent}
use kubezap_operator.Gateway.Watcher.Settled.{Runs, SettledAs, Settled, reconcile-Settled}
use kubezap_operator.Gateway.Watcher.Apart.{SameRows, reconcile_other}

module _ (cluster : Cluster) (broker : Broker) where
  -- A known Trigger of another key is reconciled, or none.
  known_other :
      (other k : NamespacedName) (o : Option Trigger) (w : Watcher)
      → IsConsistent w
      → KeyedBy k o
      → same k other ≡ false
      → SameRows other w (reconcile_known cluster broker o w)
  known_other other k none w c e apart = (refl, refl, λ s. refl)
  known_other other k (some u) w c e apart =
      reconcile_other cluster broker u other (rw e apart) w c.secrets

  known-IsConsistent :
      (o : Option Trigger) (w : Watcher)
      → IsConsistent w
      → IsConsistent (reconcile_known cluster broker o w)
  known-IsConsistent none w c = c
  known-IsConsistent (some u) w c = reconcile-IsConsistent cluster broker u w c

  pub reprocess-IsConsistent :
      (l : List NamespacedName) (w : Watcher)
      → IsConsistent w
      → IsConsistent (reprocess cluster broker l w)
  unfolding reprocess
  reprocess-IsConsistent [] w c = c
  reprocess-IsConsistent (k ∷ rest) w c =
      reprocess-IsConsistent rest (reconcile_known cluster broker (at k w.triggers) w)
        (known-IsConsistent (at k w.triggers) w c)

  -- The rows of a key that is not reprocessed stay.
  pub reprocess_other :
      (other : NamespacedName) (l : List NamespacedName) (w : Watcher)
      → IsConsistent w
      → has other l ≡ false
      → SameRows other w (reprocess cluster broker l w)
  unfolding reprocess has
  reprocess_other other [] w c h = (refl, refl, λ s. refl)
  reprocess_other other (k ∷ rest) w c h =
      let w' = reconcile_known cluster broker (at k w.triggers) w in
      let (t, u, i) = known_other other k (at k w.triggers) w c (c.keyed k) (ground arith) in
      let (t', u', i') =
        reprocess_other other rest w' (known-IsConsistent (at k w.triggers) w c) (ground arith) in
      (t' ∙ t, u' ∙ u, λ s. i' s ∙ i s)

  module _ (trigger : Trigger) where
    SettledAs-SameRows :
        (o : Outcome) (w w' : Watcher)
        → SameRows (key_of trigger) w w'
        → SettledAs cluster broker trigger o w
        → SettledAs cluster broker trigger o w'
    SettledAs-SameRows idle w w' (t, u, i) (h, l) = (u ∙ h, λ s. i s ∙ l s)
    SettledAs-SameRows unavailable w w' rows h = tt
    SettledAs-SameRows (unreadable creds) w w' (t, u, i) l = λ s. i s ∙ l s
    SettledAs-SameRows (ready integration creds next) w w' (t, u, i) (h, l) =
        (subst (Runs next (broker.starts trigger integration creds)) (sym u) h, λ s. i s ∙ l s)

    -- The Trigger is the one last seen under its key.
    abbrev Known : Watcher → Type 0
    Known w = at (key_of trigger) w.triggers ≡ some trigger

    reconciled : (w : Watcher) → Known (reconcile_trigger cluster broker trigger w)
    reconciled w =
        let (t, i, s, u) = reconcile-After cluster broker trigger w in
        rw t (
          at-put (key_of trigger) (key_of trigger) trigger w.triggers
          ∙ rw (same_refl (key_of trigger)) refl)

    step-Known :
        (k : NamespacedName) (w : Watcher)
        → IsConsistent w
        → Known w
        → Known (reconcile_known cluster broker (at k w.triggers) w)
    step-Known k w c h = elim (Bool-cases (same k (key_of trigger))) [
      | inl e ↦ rw ((same_iff k (key_of trigger)).0 e) (rw h (reconciled w))
      | inr e ↦ (known_other (key_of trigger) k (at k w.triggers) w c (c.keyed k) e).0 ∙ h
    ]

    step-Settled :
        (k : NamespacedName) (w : Watcher)
        → IsConsistent w
        → Known w
        → same k (key_of trigger) ≡ true ⊎ Settled cluster broker trigger w
        → Settled cluster broker trigger (reconcile_known cluster broker (at k w.triggers) w)
    step-Settled k w c h due = elim (Bool-cases (same k (key_of trigger))) [
      | inl e ↦
          rw ((same_iff k (key_of trigger)).0 e)
            (rw h (reconcile-Settled cluster broker trigger w c))
      | inr e ↦ elim due [
        | inl e' ↦ absurd (cc (e, e'))
        | inr settled ↦
            SettledAs-SameRows (outcome cluster broker trigger) w
              (reconcile_known cluster broker (at k w.triggers) w)
              (known_other (key_of trigger) k (at k w.triggers) w c (c.keyed k) e) settled
      ]
    ]

    -- A Trigger that is settled, or among those to reprocess, is settled after the loop.
    reprocess-Settled :
        (l : List NamespacedName) (w : Watcher)
        → IsConsistent w
        → Known w
        → (has (key_of trigger) l ≡ true) ⊎ Settled cluster broker trigger w
        → Settled cluster broker trigger (reprocess cluster broker l w)
    unfolding reprocess has
    reprocess-Settled [] w c h (inl e) = absurd (cc)
    reprocess-Settled [] w c h (inr settled) = settled
    reprocess-Settled (k ∷ rest) w c h due =
        reprocess-Settled rest (reconcile_known cluster broker (at k w.triggers) w)
          (known-IsConsistent (at k w.triggers) w c) (step-Known k w c h) (later due)
      where
        later :
            (has (key_of trigger) (k ∷ rest) ≡ true) ⊎ Settled cluster broker trigger w
            → (has (key_of trigger) rest ≡ true)
              ⊎ Settled cluster broker trigger (reconcile_known cluster broker (at k w.triggers) w)
        later (inr settled) = inr (step-Settled k w c h (inr settled))
        later (inl e) = elim (Bool-cases (same k (key_of trigger))) [
          | inl e' ↦ inr (step-Settled k w c h (inl e'))
          | inr e' ↦ inl (rw e' at e)
        ]

    -- After the change of a Secret for which the index lists a Trigger, the Trigger that was last seen
    -- under its key is settled, whatever else depends on the Secret.
    pub handle_secret_change-Settled :
        (secret : NamespacedName) (w : Watcher)
        → IsConsistent w
        → at (key_of trigger) w.triggers ≡ some trigger
        → has (key_of trigger) (objects_for secret w.secret_index) ≡ true
        → Settled cluster broker trigger (handle_secret_change cluster broker secret w)
    unfolding handle_secret_change
    handle_secret_change-Settled secret w c h e =
        reprocess-Settled (objects_for secret w.secret_index) w c h (inl e)

    -- The same of the change of an Integration that the index of Integrations lists the Trigger for.
    pub handle_integration_change-Settled :
        (integration : NamespacedName) (w : Watcher)
        → IsConsistent w
        → at (key_of trigger) w.triggers ≡ some trigger
        → has (key_of trigger) (objects_for integration w.integration_index) ≡ true
        → Settled cluster broker trigger (handle_integration_change cluster broker integration w)
    unfolding handle_integration_change
    handle_integration_change-Settled integration w c h e =
        reprocess-Settled (objects_for integration w.integration_index) w c h (inl e)
