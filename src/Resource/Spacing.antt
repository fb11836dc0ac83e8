-- ===== src/Resource/Spacing.antt =====
-- What the cooldown of a resource Trigger promises: the FlowRuns of one object and kind of event come
-- at least the cooldown apart.
use kubezap_operator.Base.{
  String, ◌≡◌, refl, sym, ◌∙◌, subst, Bool, true, false, Option, none, some, List, [], ◌∷◌, ◌⊎◌,
  inl, inr, ◌==◌, arith, String-cases,
}
use kubezap_operator.Base.Int.{ℤ, pos, ◌+ℤ◌, ◌≤ℤ◌, ltb_ℤ, +ℤ_parts, -ℤ_parts}
use kubezap_operator.Base.Assoc.{lookup, insert, lookup-insert}
use kubezap_operator.Resource.{
  Unstructured, unstructured, Library, WatchedTrigger, ResourceRun, EventType, Reading,
}
use kubezap_operator.Resource.Watchers.{CooldownTracker, within, hour, evict}
use kubezap_operator.Resource.Events.{cooldown_key, handle_event}
use kubezap_operator.Resource.Events.Laws.{handle-cases, handle-lookup, lookup-evict}

-- Calls of handleEvent, for any Triggers, and sweeps, one after the other.
pub data Step (Content Selector : Type 0) : Type 0 where
  event :
      WatchedTrigger Selector → Unstructured Content → EventType → Reading → Step Content Selector
  sweep : ℤ → Step Content Selector

abbrev pub sent_at : Bool → ℤ → Option ResourceRun → List ℤ → List ℤ
sent_at false t o times = times
sent_at true t none times = times
sent_at true t (some run) times = t ∷ times

module _ (d : ℤ) where
  -- The last time sent, if any, is over by the cooldown, or the entry of the key is not older.
  abbrev pub IsHeld : Option ℤ → ℤ → Option ℤ → Type 0
  IsHeld none now entry = Unit
  IsHeld (some p) now entry = (p +ℤ d ≤ℤ now) ⊎ (l : ℤ) × (entry ≡ some l) × (p ≤ℤ l)

  abbrev pub SpacedFrom : Option ℤ → List ℤ → Type 0
  SpacedFrom none [] = Unit
  SpacedFrom (some p) [] = Unit
  SpacedFrom none (t ∷ rest) = SpacedFrom (some t) rest
  SpacedFrom (some p) (t ∷ rest) = (p +ℤ d ≤ℤ t) × SpacedFrom (some t) rest

  IsHeld-later :
      (prev : Option ℤ) (now later : ℤ) (entry : Option ℤ)
      → now ≤ℤ later
      → IsHeld prev now entry
      → IsHeld prev later entry
  IsHeld-later none now later entry le h = tt
  IsHeld-later (some p) now later entry le (inl h) = inl (omega arith)
  IsHeld-later (some p) now later entry le (inr h) = inr h

  -- Past the cooldown of its entry, a time is over.
  IsHeld-over :
      (p now : ℤ) (entry : Option ℤ)
      → within now d entry ≡ false
      → IsHeld (some p) now entry
      → p +ℤ d ≤ℤ now
  IsHeld-over p now entry w (inl h) = h
  IsHeld-over p now none w (inr (l, e, le)) = ground arith
  IsHeld-over p now (some t) w (inr (l, e, le)) = ground (arith, +ℤ_parts p d, -ℤ_parts now t)

-- The clock does not go back.
abbrev pub InOrder : {Content Selector : Type 0} → ℤ → List (Step Content Selector) → Type 0
InOrder now [] = Unit
InOrder now (event trigger u e reading ∷ rest) =
    (now ≤ℤ reading.checked) × (reading.checked ≤ℤ reading.marked) × InOrder reading.marked rest
InOrder now (sweep t ∷ rest) = (now ≤ℤ t) × InOrder t rest

module _ {Content Selector : Type 0} (lib : Library Content Selector) where
  -- The times at which FlowRuns are sent for events of the key, each that of the mark of its cooldown.
  unfoldable pub sent : String → List (Step Content Selector) → CooldownTracker → List ℤ
  unfolding handle_event cooldown_key evict
  sent key [] tracker = []
  sent key (event trigger u e reading ∷ rest) tracker =
      sent_at (cooldown_key lib trigger u e == key) reading.marked
        (handle_event lib trigger (unstructured u) e reading tracker).0
        (sent key rest (handle_event lib trigger (unstructured u) e reading tracker).1)
  sent key (sweep now ∷ rest) tracker = sent key rest (evict now tracker)

  module _ (key : String) (d : ℤ) where
    -- The Triggers whose events have the key have the cooldown.
    abbrev pub HasCooldown : List (Step Content Selector) → Type 0
    HasCooldown [] = Unit
    HasCooldown (event trigger u e reading ∷ rest) =
        ((cooldown_key lib trigger u e ≡ key) → (trigger.resource.cooldown ≡ some d))
        × HasCooldown rest
    HasCooldown (sweep now ∷ rest) = HasCooldown rest

  module _ (key : String) (d : ℤ) (positive : ltb_ℤ (pos 0) d ≡ true) (short : d ≤ℤ hour) where
    IsHeld-evict :
        (prev : Option ℤ) (now : ℤ) (tracker : CooldownTracker)
        → IsHeld d prev now (lookup key tracker)
        → IsHeld d prev now (lookup key (evict now tracker))
    IsHeld-evict none now tracker h = tt
    IsHeld-evict (some p) now tracker (inl h) = inl h
    IsHeld-evict (some p) now tracker (inr (l, e, le)) = elim (lookup-evict now key tracker l e) [
      | inl kept ↦ inr (l, kept, le)
      | inr old ↦ inl (omega (arith, +ℤ_parts p d, -ℤ_parts now hour))
    ]

    -- What follows an event that passes.
    sent-SpacedFrom :
        (prev : Option ℤ) (marked : ℤ) (o : Option ResourceRun) (times : List ℤ)
        → ((p : ℤ) → prev ≡ some p → p +ℤ d ≤ℤ marked)
        → ((p : Option ℤ) → IsHeld d p marked (some marked) → SpacedFrom d p times)
        → SpacedFrom d prev (sent_at true marked o times)
    sent-SpacedFrom none marked none times over rest = rest none tt
    sent-SpacedFrom none marked (some run) times over rest =
        rest (some marked) (inr (marked, refl, omega arith))
    sent-SpacedFrom (some p) marked none times over rest = rest (some p) (inl (over p refl))
    sent-SpacedFrom (some p) marked (some run) times over rest =
        (over p refl, rest (some marked) (inr (marked, refl, omega arith)))

    over-marked :
        (prev : Option ℤ) (l now : ℤ) (reading : Reading) (own : String) (tracker : CooldownTracker)
        → own ≡ key
        → now ≤ℤ reading.checked
        → reading.checked ≤ℤ reading.marked
        → within reading.checked d (lookup own tracker) ≡ false
        → prev ≡ some l
        → IsHeld d prev now (lookup key tracker)
        → l +ℤ d ≤ℤ reading.marked
    over-marked prev l now reading own tracker p le le' w k h =
        let held : IsHeld d (some l) now (lookup key tracker) =
          subst (λ z. IsHeld d z now (lookup key tracker)) k h in
        let own_held : IsHeld d (some l) now (lookup own tracker) =
          subst (λ n. IsHeld d (some l) now (lookup n tracker)) (sym p) held in
        let over : l +ℤ d ≤ℤ reading.checked =
          IsHeld-over d l reading.checked (lookup own tracker) w
            (IsHeld-later d (some l) now reading.checked (lookup own tracker) le own_held) in
        omega arith

    loop-SpacedFrom :
        (prev : Option ℤ) (now : ℤ) (steps : List (Step Content Selector))
        (tracker : CooldownTracker)
        → InOrder now steps
        → HasCooldown key d steps
        → IsHeld d prev now (lookup key tracker)
        → SpacedFrom d prev (sent key steps tracker)
    unfolding sent
    loop-SpacedFrom none now [] tracker o c h = tt
    loop-SpacedFrom (some p) now [] tracker o c h = tt
    loop-SpacedFrom prev now (sweep t ∷ rest) tracker (le, o) c h =
        loop-SpacedFrom prev t rest (evict t tracker) o c
          (IsHeld-evict prev t tracker (IsHeld-later d prev now t (lookup key tracker) le h))
    loop-SpacedFrom prev now (event trigger u e reading ∷ rest) tracker (le, le', o) (c, cs) h =
        let held = IsHeld-later d prev now reading.marked (lookup key tracker) (omega arith) h in
        elim (String-cases (cooldown_key lib trigger u e) key) [
          | inr (_, e') ↦ rw e' (
              loop-SpacedFrom prev reading.marked rest
                (handle_event lib trigger (unstructured u) e reading tracker).1 o cs
                (subst (IsHeld d prev reading.marked)
                  (sym (handle-lookup lib trigger u e reading tracker key e')) held))
          | inl (p, e') ↦
              rw e' (elim (handle-cases lib trigger u e reading tracker d positive (c p)) [
                | inl q ↦
                    subst
                      (λ r. SpacedFrom d prev (sent_at true reading.marked r.0 (sent key rest r.1)))
                      (sym q) (loop-SpacedFrom prev reading.marked rest tracker o cs held)
                | inr (run, w, q) ↦
                    subst
                      (λ r. SpacedFrom d prev (sent_at true reading.marked r.0 (sent key rest r.1)))
                      (sym q)
                      (sent-SpacedFrom prev reading.marked run _
                        (λ l k.
                          over-marked prev l now reading (cooldown_key lib trigger u e) tracker p le
                            le' w k h)
                        (λ l k.
                          loop-SpacedFrom l reading.marked rest
                            (insert (cooldown_key lib trigger u e) reading.marked tracker) o cs
                            (subst (IsHeld d l reading.marked)
                              (sym (
                                lookup-insert key (cooldown_key lib trigger u e) reading.marked
                                  tracker
                                ∙ rw e' refl))
                              k)))
              ])
        ]

    -- Of the calls of handleEvent for the objects and kinds of event of one cooldown key, between those
    -- for any others and the sweeps, and whatever was marked before: the times at which FlowRuns are
    -- sent are at least the cooldown apart, if that is above 0 and an hour at most, the Triggers of
    -- the key have it, and the clock does not go back.
    pub sent_spaced :
        (now : ℤ) (steps : List (Step Content Selector)) (tracker : CooldownTracker)
        → InOrder now steps
        → HasCooldown key d steps
        → SpacedFrom d none (sent key steps tracker)
    sent_spaced now steps tracker o c = loop-SpacedFrom none now steps tracker o c tt
