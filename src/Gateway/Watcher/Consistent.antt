-- ===== src/Gateway/Watcher/Consistent.antt =====
-- What each handler of a watcher keeps: the indexes are mirrors, and a Trigger is under its key.
use kubezap_operator.Base.{
  String, ◌≡◌, sym, subst, Option, none, some, List, [], ◌∷◌, Bool-cases, inl, inr,
}
use kubezap_operator.Base.Keys.{NamespacedName, KeyMap, at, put, same, same_iff, at-put}
use kubezap_operator.Api.Trigger.{Trigger}
use kubezap_operator.Gateway.SecretIndex.{Index, remove_object}
use kubezap_operator.Gateway.SecretIndex.Laws.{IsMirror, new_index-IsMirror, update-IsMirror}
use kubezap_operator.Gateway.Watcher.{
  Cluster, Broker, Watcher, new_watcher, key_of, integration_key, reconcile_trigger,
}
use kubezap_operator.Gateway.Watcher.Rows.{
  Outcome, idle, unavailable, unreadable, ready, outcome, secrets_after, integrations_after,
  reconcile-After,
}

-- A Trigger is stored under its own key.
abbrev pub KeyedBy : NamespacedName → Option Trigger → Type 0
KeyedBy key none = Unit
KeyedBy key (some trigger) = key_of trigger ≡ key

-- What each handler of a watcher keeps.
pub record IsConsistent (w : Watcher) : Type 0 where
  pub secrets : IsMirror w.secret_index
  pub integrations : IsMirror w.integration_index
  pub keyed : (key : NamespacedName) → KeyedBy key (at key w.triggers)

pub new_watcher-IsConsistent : IsConsistent new_watcher
unfolding at
new_watcher-IsConsistent = record {
  secrets = new_index-IsMirror;
  integrations = new_index-IsMirror;
  keyed = λ key. tt;
}

put-KeyedBy :
    (key : NamespacedName) (trigger : Trigger) (m : KeyMap Trigger)
    → KeyedBy key (at key m)
    → KeyedBy key (at key (put (key_of trigger) trigger m))
put-KeyedBy key trigger m h = elim (Bool-cases (same (key_of trigger) key)) [
  | inl e ↦ rw (at-put key (key_of trigger) trigger m) (rw e ((same_iff (key_of trigger) key).0 e))
  | inr e ↦ rw (at-put key (key_of trigger) trigger m) (rw e h)
]

module _ (cluster : Cluster) (broker : Broker) (trigger : Trigger) where
  abbrev key : NamespacedName
  key = key_of trigger

  secrets_after-IsMirror :
      (o : Outcome) (idx : Index)
      → IsMirror idx
      → IsMirror (secrets_after cluster broker trigger o idx)
  unfolding remove_object
  secrets_after-IsMirror idle idx h = update-IsMirror idx key [] h
  secrets_after-IsMirror unavailable idx h = h
  secrets_after-IsMirror (unreadable creds) idx h = update-IsMirror idx key creds.secret_refs h
  secrets_after-IsMirror (ready integration creds next) idx h =
      update-IsMirror idx key creds.secret_refs h

  integrations_after-IsMirror :
      (wanted : Option (String × List String)) (idx : Index)
      → IsMirror idx
      → IsMirror (integrations_after cluster broker trigger wanted idx)
  unfolding remove_object
  integrations_after-IsMirror none idx h = update-IsMirror idx key [] h
  integrations_after-IsMirror (some (name, settings)) idx h =
      update-IsMirror idx key (integration_key cluster broker trigger name ∷ []) h

  pub reconcile-IsConsistent :
      (w : Watcher) → IsConsistent w → IsConsistent (reconcile_trigger cluster broker trigger w)
  reconcile-IsConsistent w c =
      let (t, i, s, u) = reconcile-After cluster broker trigger w in
      record {
        secrets =
            subst IsMirror (sym s)
              (secrets_after-IsMirror (outcome cluster broker trigger) w.secret_index c.secrets);
        integrations = subst IsMirror (sym i) (
            integrations_after-IsMirror (broker.wanted trigger) w.integration_index c.integrations);
        keyed = λ k.
            subst (λ m. KeyedBy k (at k m)) (sym t) (put-KeyedBy k trigger w.triggers (c.keyed k));
      }
