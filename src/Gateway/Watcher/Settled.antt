-- ===== src/Gateway/Watcher/Settled.antt =====
-- A reconcile brings a Trigger's subscription and its entry in the index of Secrets in line with the
-- cluster.
use kubezap_operator.Base.{
  String, ◌≡◌, refl, ◌∙◌, Bool, true, false, Option, none, some, List, [], ◌∷◌, arith, eq_iff, ◌&&◌,
  ◌==◌, Bool-cases, inl, inr,
}
use kubezap_operator.Base.Keys.{
  NamespacedName, KeyMap, at, drop_key, has, same_refl, at-put, at-drop_key,
}
use kubezap_operator.Api.Trigger.{Trigger}
use kubezap_operator.Api.Integration.{Integration}
use kubezap_operator.Gateway.SecretIndex.{Index, update, remove_object, objects_for}
use kubezap_operator.Gateway.SecretIndex.Laws.{IsMirror, objects_for-update}
use kubezap_operator.Gateway.Watcher.{
  Cluster, Broker, Subscription, Watcher, key_of, same_texts, unchanged, reconcile_trigger,
}
use kubezap_operator.Gateway.Watcher.Resolve.{Credentials}
use kubezap_operator.Gateway.Watcher.Rows.{
  Outcome, idle, unavailable, unreadable, ready, outcome, started, subscribed, secrets_after,
  subscriptions_after, reconcile-After,
}
use kubezap_operator.Gateway.Watcher.Consistent.{IsConsistent}

same_texts_lem : (l k : List String) → same_texts l k ≡ true → l ≡ k
same_texts_lem [] [] h = refl
same_texts_lem [] (t ∷ ts) h = ground arith
same_texts_lem (s ∷ ss) [] h = ground arith
same_texts_lem (s ∷ ss) (t ∷ ts) h = ground (arith, eq_iff s t, same_texts_lem ss ts)

-- What the subscription was started with is due.
pub record IsDue (next sub : Subscription) : Type 0 where
  pub has_settings : sub.settings ≡ next.settings
  pub has_integration : sub.integration_name ≡ next.integration_name
  pub has_fingerprint : sub.credential_fingerprint ≡ next.credential_fingerprint

and_parts : (a b : Bool) → (a && b) ≡ true → (a ≡ true) × (b ≡ true)
and_parts true b h = (refl, h)
and_parts false b h = ground arith

unchanged-IsDue : (sub next : Subscription) → unchanged sub next ≡ true → IsDue next sub
unfolding unchanged
unchanged-IsDue sub next h =
    let (same, fingerprint) =
      and_parts
        (same_texts sub.settings next.settings && sub.integration_name == next.integration_name)
        (sub.credential_fingerprint == next.credential_fingerprint) h in
    let (settings, name) =
      and_parts (same_texts sub.settings next.settings)
        (sub.integration_name == next.integration_name) same in
    record {
      has_settings = same_texts_lem sub.settings next.settings settings;
      has_integration = (eq_iff sub.integration_name next.integration_name).0 name;
      has_fingerprint =
          (eq_iff sub.credential_fingerprint next.credential_fingerprint).0 fingerprint;
    }

-- The subscription that is there, if any, is the one that is due; there is one if it could start.
abbrev pub Runs : Subscription → Bool → Option Subscription → Type 0
Runs next true none = ⊥
Runs next false none = Unit
Runs next starts (some sub) = IsDue next sub

module _ (cluster : Cluster) (broker : Broker) (trigger : Trigger) where
  abbrev key : NamespacedName
  key = key_of trigger

  -- The index lists the Trigger for exactly these Secrets.
  abbrev pub Lists : List NamespacedName → Index → Type 0
  Lists secrets idx = (s : NamespacedName) → has key (objects_for s idx) ≡ has s secrets

  abbrev pub SettledAs : Outcome → Watcher → Type 0
  SettledAs idle w = (at key w.subscriptions ≡ none) × Lists [] w.secret_index
  SettledAs unavailable w = Unit
  SettledAs (unreadable creds) w = Lists creds.secret_refs w.secret_index
  SettledAs (ready integration creds next) w =
      Runs next (broker.starts trigger integration creds) (at key w.subscriptions)
      × Lists creds.secret_refs w.secret_index

  abbrev pub Settled : Watcher → Type 0
  Settled w = SettledAs (outcome cluster broker trigger) w

  secrets_after-Lists :
      (secrets : List NamespacedName) (idx : Index)
      → IsMirror idx
      → Lists secrets (update key secrets idx)
  secrets_after-Lists secrets idx h s =
      objects_for-update idx key secrets h key s ∙ rw (same_refl key) refl

  started-Runs :
      (integration : Integration) (creds : Credentials) (next : Subscription)
      (subs : KeyMap Subscription)
      → at key subs ≡ none
      → Runs next
          (broker.starts trigger integration creds)
          (at key (started cluster broker trigger integration creds next subs))
  started-Runs integration creds next subs h =
      elim (Bool-cases (broker.starts trigger integration creds)) [
        | inl e ↦ rw e (
            rw (at-put key key next subs) (
              rw (same_refl key)
                (record { has_settings = refl; has_integration = refl; has_fingerprint = refl })))
        | inr e ↦ rw e (rw h tt)
      ]

  kept-Runs :
      (next sub : Subscription) (starts : Bool)
      → unchanged sub next ≡ true
      → Runs next starts (some sub)
  kept-Runs next sub true h = unchanged-IsDue sub next h
  kept-Runs next sub false h = unchanged-IsDue sub next h

  subscribed-Runs :
      (integration : Integration) (creds : Credentials) (next : Subscription)
      (subs : KeyMap Subscription) (o : Option Subscription)
      → at key subs ≡ o
      → Runs next
          (broker.starts trigger integration creds)
          (at key (subscribed cluster broker trigger integration creds next o subs))
  subscribed-Runs integration creds next subs none h = started-Runs integration creds next subs h
  subscribed-Runs integration creds next subs (some sub) h =
      elim (Bool-cases (unchanged sub next)) [
        | inl e ↦ rw e (rw h (kept-Runs next sub (broker.starts trigger integration creds) e))
        | inr e ↦ rw e (
            started-Runs integration creds next (drop_key key subs)
              (at-drop_key key key subs ∙ rw (same_refl key) refl))
      ]

  -- The parts after a reconcile, of an outcome.
  settled_parts :
      (o : Outcome) (idx : Index) (subs : KeyMap Subscription) (w : Watcher)
      → IsMirror idx
      → w.secret_index ≡ secrets_after cluster broker trigger o idx
      → w.subscriptions ≡ subscriptions_after cluster broker trigger o subs
      → SettledAs o w
  unfolding remove_object
  settled_parts idle idx subs w h e u = (
    rw u (at-drop_key key key subs ∙ rw (same_refl key) refl),
    rw e (secrets_after-Lists [] idx h),
  )
  settled_parts unavailable idx subs w h e u = tt
  settled_parts (unreadable creds) idx subs w h e u =
      rw e (secrets_after-Lists creds.secret_refs idx h)
  settled_parts (ready integration creds next) idx subs w h e u = (
    rw u (subscribed-Runs integration creds next subs (at key subs) refl),
    rw e (secrets_after-Lists creds.secret_refs idx h),
  )

  -- Where the Integration cannot be used, the subscriptions and the index of Secrets are left; where a
  -- Secret cannot be read, the subscriptions.
  abbrev pub LeftAs : Outcome → Watcher → Watcher → Type 0
  LeftAs idle before after = Unit
  LeftAs unavailable before after =
      (after.subscriptions ≡ before.subscriptions) × (after.secret_index ≡ before.secret_index)
  LeftAs (unreadable creds) before after = after.subscriptions ≡ before.subscriptions
  LeftAs (ready integration creds next) before after = Unit

  abbrev pub Left : Watcher → Watcher → Type 0
  Left before after = LeftAs (outcome cluster broker trigger) before after

  left_parts :
      (o : Outcome) (before after : Watcher)
      → after.secret_index ≡ secrets_after cluster broker trigger o before.secret_index
      → after.subscriptions ≡ subscriptions_after cluster broker trigger o before.subscriptions
      → LeftAs o before after
  left_parts idle before after e u = tt
  left_parts unavailable before after e u = (u, e)
  left_parts (unreadable creds) before after e u = u
  left_parts (ready integration creds next) before after e u = tt

  pub reconcile-Left : (w : Watcher) → Left w (reconcile_trigger cluster broker trigger w)
  reconcile-Left w =
      let (t, i, s, u) = reconcile-After cluster broker trigger w in
      left_parts (outcome cluster broker trigger) w (reconcile_trigger cluster broker trigger w) s u

  -- After a reconcile of a Trigger that is not to be consumed for, there is no subscription of it and
  -- no Secret lists it; else each Secret lists it that its credentials were read from, and, where
  -- these are complete, its subscription is one with the settings, the Integration and the
  -- fingerprint that are due, which is there if it could start.
  pub reconcile-Settled :
      (w : Watcher) → IsConsistent w → Settled (reconcile_trigger cluster broker trigger w)
  reconcile-Settled w c =
      let (t, i, s, u) = reconcile-After cluster broker trigger w in
      settled_parts (outcome cluster broker trigger) w.secret_index w.subscriptions
        (reconcile_trigger cluster broker trigger w) c.secrets s u
