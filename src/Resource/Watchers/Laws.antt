-- ===== src/Resource/Watchers/Laws.antt =====
-- What a deregistration clears, and that no watcher is lost.
use native.Mathlib.Decide.{ℕ_discrete}
use kubezap_operator.Base.{
  ℕ, ◌<◌, String, ◌≡◌, refl, sym, ap, ◌∙◌, subst, Bool, true, not, ◌||◌, Option, none, some, List,
  [], ◌∷◌, ◌⊎◌, inl, inr, eq_refl, arith, any, eqb, String-cases, Bool-cases, if◌then◌else◌,
}
use kubezap_operator.Base.Assoc.{lookup, lookup-insert, lookup-delete}
use kubezap_operator.Base.Text.{strip_prefix}
use kubezap_operator.Resource.Watchers.{
  settle_watcher, calls, Call, start_call, register_call, deregister_call, watcher_call, start,
  new_resource_watcher, WatchEnd, gave_up, ended, watching, CooldownTracker, is_some, clear_prefix,
  ResourceWatcher, stop_watcher, deregister, register, start_watcher,
}

pub lookup-clear_prefix :
    (prefix key : String) (t : CooldownTracker)
    → lookup key (clear_prefix prefix t)
      ≡ (if is_some (strip_prefix prefix key) then none else lookup key t)
unfolding lookup clear_prefix
lookup-clear_prefix prefix key [] = ground arith
lookup-clear_prefix prefix key ((k, v) ∷ t) = elim (String-cases k key) [
  | inl (p, e) ↦
      subst
        (λ n.
          lookup n (clear_prefix prefix ((k, v) ∷ t))
          ≡ (if is_some (strip_prefix prefix n) then none else lookup n ((k, v) ∷ t)))
        p
        (elim (Bool-cases (is_some (strip_prefix prefix k))) [
          | inl c ↦ rw c (rw c at (lookup-clear_prefix prefix k t))
          | inr c ↦ rw c (rw (eq_refl k) refl)
        ])
  | inr (_, e) ↦ elim (Bool-cases (is_some (strip_prefix prefix k))) [
    | inl c ↦ rw (c, e) (lookup-clear_prefix prefix key t)
    | inr c ↦ rw (c, e) (lookup-clear_prefix prefix key t)
  ]
]

abbrev pub contains : List ℕ → ℕ → Bool
contains l c = any (λ d. eqb d c) l

-- A context that was made is cancelled, or the one that the map has of some key.
abbrev HasContext : ResourceWatcher → ℕ → Type 0
HasContext w c = (contains w.cancelled c ≡ true) ⊎ (key : String) × (lookup key w.watchers ≡ some c)

abbrev pub IsCovered : ResourceWatcher → Type 0
IsCovered w = (c : ℕ) → c < w.next_context → HasContext w c

stop-keeps :
    (o : Option ℕ) (l : List ℕ) (c : ℕ) → contains l c ≡ true → contains (stop_watcher o l) c ≡ true
stop-keeps none l c h = h
stop-keeps (some d) l c h = ground arith

stop-stops : (o : Option ℕ) (l : List ℕ) (c : ℕ) → o ≡ some c → contains (stop_watcher o l) c ≡ true
stop-stops none l c h = ground arith
stop-stops (some d) l c h = ground arith

deregister-HasContext :
    (key : String) (w : ResourceWatcher) (c : ℕ) → HasContext w c → HasContext (deregister key w) c
unfolding deregister
deregister-HasContext key w c (inl h) = inl (stop-keeps (lookup key w.watchers) w.cancelled c h)
deregister-HasContext key w c (inr (k, h)) = elim (String-cases key k) [
  | inl (p, e) ↦ inl (
      stop-stops (lookup key w.watchers) w.cancelled c
        (subst (λ n. lookup n w.watchers ≡ some c) (sym p) h))
  | inr (_, e) ↦ inr (k, lookup-delete k key w.watchers ∙ rw e h)
]

start-HasContext :
    (key : String) (w : ResourceWatcher) (c : ℕ)
    → lookup key w.watchers ≡ none
    → HasContext w c
    → HasContext (start_watcher key w) c
start-HasContext key w c fresh (inl h) = inl h
start-HasContext key w c fresh (inr (k, h)) = elim (String-cases key k) [
  | inl (p, e) ↦ absurd (ground (arith, subst (λ n. lookup n w.watchers ≡ none) p fresh))
  | inr (_, e) ↦ inr (k, lookup-insert k key w.next_context w.watchers ∙ rw e h)
]

start-IsCovered :
    (key : String) (w : ResourceWatcher)
    → lookup key w.watchers ≡ none
    → IsCovered w
    → IsCovered (start_watcher key w)
start-IsCovered key w fresh h c lt = elim (ℕ_discrete c w.next_context) [
  | yes e ↦
      inr
        (key, lookup-insert key key w.next_context w.watchers ∙ rw (eq_refl key) (ap some (sym e)))
  | no n ↦ start-HasContext key w c fresh (h c (omega arith))
]

deregister-IsCovered :
    (key : String) (w : ResourceWatcher) → IsCovered w → IsCovered (deregister key w)
unfolding deregister
deregister-IsCovered key w h c lt = deregister-HasContext key w c (h c lt)

register-IsCovered :
    (key : String) (has_resource : Bool) (w : ResourceWatcher)
    → IsCovered w
    → IsCovered (register key has_resource w)
unfolding register
register-IsCovered key has_resource w h =
    elim (Bool-cases (not has_resource || not w.has_dynamic_client || not w.is_started)) [
      | inl e ↦ rw e (deregister-IsCovered key w h)
      | inr e ↦ rw e (
          start-IsCovered key (deregister key w)
            (lookup-delete key key w.watchers ∙ rw (eq_refl key) refl)
            (deregister-IsCovered key w h))
    ]

settle-IsCovered :
    (key : String) (end : WatchEnd) (w : ResourceWatcher)
    → IsCovered w
    → IsCovered (settle_watcher key end w)
unfolding settle_watcher
settle-IsCovered key gave_up w h = deregister-IsCovered key w h
settle-IsCovered key ended w h = h
settle-IsCovered key watching w h = h

calls-IsCovered : (l : List Call) (w : ResourceWatcher) → IsCovered w → IsCovered (calls l w)
unfolding calls
calls-IsCovered [] w h = h
calls-IsCovered (start_call ∷ rest) w h = calls-IsCovered rest (start w) h
calls-IsCovered (register_call key has_resource ∷ rest) w h =
    calls-IsCovered rest (register key has_resource w) (register-IsCovered key has_resource w h)
calls-IsCovered (deregister_call key ∷ rest) w h =
    calls-IsCovered rest (deregister key w) (deregister-IsCovered key w h)
calls-IsCovered (watcher_call key end ∷ rest) w h =
    calls-IsCovered rest (settle_watcher key end w) (settle-IsCovered key end w h)

-- After any starts, registrations and deregistrations, one after the other, with watchers that end by
-- themselves or give up between them, no watcher is lost: each context that was made is cancelled, or
-- it is the one that the map of watchers has under some key.
pub new-calls-IsCovered :
    (has_dynamic_client : Bool) (l : List Call)
    → IsCovered (calls l (new_resource_watcher has_dynamic_client))
new-calls-IsCovered has_dynamic_client l =
    calls-IsCovered l (new_resource_watcher has_dynamic_client) (λ c lt. absurd (omega arith))
