-- ===== src/Resource/Events/Laws.antt =====
-- What one event, and one sweep, does to the cooldowns.
use kubezap_operator.Base.{
  String, ◌≡◌, refl, ap, ◌∙◌, Bool, true, false, Option, none, some, [], ◌∷◌, ◌⊎◌, inl, inr, ◌==◌,
  arith, not, Bool-cases,
}
use kubezap_operator.Base.Int.{ℤ, pos, ◌-ℤ◌, ◌<ℤ◌, ltb_ℤ}
use kubezap_operator.Base.Assoc.{lookup, insert, lookup-insert}
use kubezap_operator.Resource.{
  Unstructured, unstructured, Library, WatchedTrigger, ResourceRun, EventType, Reading,
}
use kubezap_operator.Resource.Watchers.{CooldownTracker, within, pass_cooldown, hour, evict}
use kubezap_operator.Resource.Events.{cooldown_key, run_of, send, handle_event, is_selected}

pub pass-cases :
    (checked marked d : ℤ) (key : String) (tracker : CooldownTracker)
    → ltb_ℤ (pos 0) d ≡ true
    → (pass_cooldown checked marked (some d) key tracker ≡ (false, tracker))
      ⊎ (within checked d (lookup key tracker) ≡ false)
        × (pass_cooldown checked marked (some d) key tracker ≡ (true, insert key marked tracker))
unfolding pass_cooldown
pass-cases checked marked d key tracker positive =
    elim (Bool-cases (within checked d (lookup key tracker))) [
      | inl e ↦ inl (rw (positive, e) refl)
      | inr e ↦ inr (e, rw (positive, e) refl)
    ]

pub lookup-pass :
    (checked marked : ℤ) (cooldown : Option ℤ) (key other : String) (tracker : CooldownTracker)
    → (other == key) ≡ false
    → lookup key (pass_cooldown checked marked cooldown other tracker).1 ≡ lookup key tracker
unfolding pass_cooldown
lookup-pass checked marked none key other tracker e = refl
lookup-pass checked marked (some d) key other tracker e =
    ground (arith, lookup-insert key other marked tracker)

pub lookup-evict :
    (now : ℤ) (key : String) (tracker : CooldownTracker) (l : ℤ)
    → lookup key tracker ≡ some l
    → (lookup key (evict now tracker) ≡ some l) ⊎ (l <ℤ (now -ℤ hour))
unfolding lookup evict
lookup-evict now key [] l h = ground arith
lookup-evict now key ((k, t) ∷ rest) l h = elim (Bool-cases (ltb_ℤ t (now -ℤ hour))) [
  | inl old ↦ elim (Bool-cases (k == key)) [
    | inl e ↦ inr (ground arith)
    | inr e ↦ rw old (lookup-evict now key rest l (rw e at h))
  ]
  | inr young ↦ elim (Bool-cases (k == key)) [
    | inl e ↦ inl (rw young (rw e (rw e at h)))
    | inr e ↦ rw young (rw e (lookup-evict now key rest l (rw e at h)))
  ]
]

module _ {Content Selector : Type 0} (lib : Library Content Selector) where
  send-cases :
      (trigger : WatchedTrigger Selector) (run : ResourceRun) (tracker : CooldownTracker)
      → (o : Option ResourceRun) × (send lib trigger (true, tracker) run ≡ (o, tracker))
  unfolding send
  send-cases trigger run tracker = elim (Bool-cases (trigger.flow_ref_name == "")) [
    | inl e ↦ (none, rw e refl)
    | inr e ↦ (some run, rw e refl)
  ]

  send-lookup :
      (trigger : WatchedTrigger Selector) (run : ResourceRun) (passed : Bool)
      (tracker : CooldownTracker)
      → (send lib trigger (passed, tracker) run).1 ≡ tracker
  unfolding send
  send-lookup trigger run true tracker = ground arith
  send-lookup trigger run false tracker = refl

  -- An event of a Trigger with the cooldown `d`: it is dropped with the entries as they were, or the
  -- cooldown of its entry is over and is marked anew.
  pub handle-cases :
      (trigger : WatchedTrigger Selector) (u : Unstructured Content) (e : EventType)
      (reading : Reading) (tracker : CooldownTracker) (d : ℤ)
      → ltb_ℤ (pos 0) d ≡ true
      → trigger.resource.cooldown ≡ some d
      → (handle_event lib trigger (unstructured u) e reading tracker ≡ (none, tracker))
        ⊎ (o : Option ResourceRun) × (within reading.checked d
              (lookup (cooldown_key lib trigger u e) tracker)
            ≡ false)
          × (handle_event lib trigger (unstructured u) e reading tracker
              ≡ (o, insert (cooldown_key lib trigger u e) reading.marked tracker))
  unfolding handle_event
  handle-cases trigger u e reading tracker d positive has =
      elim (Bool-cases (not (is_selected lib trigger.resource.label_selector u.labels))) [
        | inl off ↦ inl (rw off refl)
        | inr on ↦
            rw (on, has)
              (elim (pass-cases reading.checked reading.marked d (cooldown_key lib trigger u e)
                tracker positive) [
                  | inl q ↦ inl (ap (λ r. send lib trigger r (run_of lib trigger u e reading)) q)
                  | inr (w, q) ↦
                      let (o, s) =
                        send-cases trigger (run_of lib trigger u e reading)
                          (insert (cooldown_key lib trigger u e) reading.marked tracker) in
                      inr
                        (o, w, ap (λ r. send lib trigger r (run_of lib trigger u e reading)) q ∙ s)
                ])
      ]

  -- An event of another key leaves the entry.
  pub handle-lookup :
      (trigger : WatchedTrigger Selector) (u : Unstructured Content) (e : EventType)
      (reading : Reading) (tracker : CooldownTracker) (key : String)
      → (cooldown_key lib trigger u e == key) ≡ false
      → lookup key (handle_event lib trigger (unstructured u) e reading tracker).1
        ≡ lookup key tracker
  unfolding handle_event
  handle-lookup trigger u e reading tracker key other =
      elim (Bool-cases (not (is_selected lib trigger.resource.label_selector u.labels))) [
        | inl off ↦ rw off refl
        | inr on ↦ rw on (
            ap (lookup key) (send-lookup trigger _ _ _)
            ∙ lookup-pass reading.checked reading.marked trigger.resource.cooldown key
                (cooldown_key lib trigger u e) tracker other)
      ]
