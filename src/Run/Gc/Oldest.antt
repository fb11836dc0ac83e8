-- ===== src/Run/Gc/Oldest.antt =====
-- Garbage collection deletes the oldest FlowRuns of a phase first, and leaves at most the cap.
use kubezap_operator.Base.{
  ℕ, zero, suc, ◌-◌, ◌≤◌, ◌≡◌, refl, Bool, true, false, Option, none, some, List, [], ◌∷◌, arith,
  leb, leb→le, length, take, drop, take-append-drop, length-drop, All, Bool-cases, inl, inr, ◌++◌,
  ◌≢◌, if◌then◌else◌,
}
use mathlib.Core.List.{Perm}
use mathlib.Core.List.Perm
use kubezap_operator.Base.Int.{ℤ, ◌≤ℤ◌}
use kubezap_operator.Api.FlowRun.{FlowRun, FlowRunPhase}
use kubezap_operator.Run.Gc.Laws.{insert_run-All, drop-All}
use kubezap_operator.Run.Gc.{matching, completed_before, insert_run, sort_runs, excess}

-- The order of the completion times: none is the earliest.
abbrev pub NoLater : Option ℤ → Option ℤ → Type 0
NoLater none t = Unit
NoLater (some s) none = ⊥
NoLater (some s) (some t) = s ≤ℤ t

-- `f` was completed no later than `g`.
abbrev pub NotAfter : FlowRun → FlowRun → Type 0
NotAfter f g = NoLater f.status.completion_time g.status.completion_time

NoLater-trans : (r s t : Option ℤ) → NoLater r s → NoLater s t → NoLater r t
NoLater-trans none s t h k = tt
NoLater-trans (some r) none t h k = absurd h
NoLater-trans (some r) (some s) none h k = absurd k
NoLater-trans (some r) (some s) (some t) h k = omega arith

completed_before_sound : (s t : Option ℤ) → completed_before s t ≡ true → NoLater s t
completed_before_sound none t h = tt
completed_before_sound (some s) none h = cc
completed_before_sound (some s) (some t) h = ground arith

completed_before_total : (s t : Option ℤ) → completed_before s t ≡ false → NoLater t s
completed_before_total none t h = cc
completed_before_total (some s) none h = tt
completed_before_total (some s) (some t) h = ground arith

abbrev pub Oldest : List FlowRun → Type 0
Oldest [] = Unit
Oldest (f ∷ rest) = All (NotAfter f) rest × Oldest rest

All-NotAfter_trans :
    (f g : FlowRun) (l : List FlowRun) → NotAfter f g → All (NotAfter g) l → All (NotAfter f) l
All-NotAfter_trans f g [] h k = tt
All-NotAfter_trans f g (x ∷ l) h (k, ks) = (
  NoLater-trans f.status.completion_time g.status.completion_time x.status.completion_time h k,
  All-NotAfter_trans f g l h ks,
)

insert_run-Oldest : (f : FlowRun) (l : List FlowRun) → Oldest l → Oldest (insert_run f l)
unfolding insert_run
insert_run-Oldest f [] h = (tt, tt)
insert_run-Oldest f (g ∷ rest) (h, k) = ground (
  arith,
  completed_before_sound f.status.completion_time g.status.completion_time,
  completed_before_total f.status.completion_time g.status.completion_time,
  All-NotAfter_trans f g rest,
  insert_run-All (NotAfter g) f rest,
  insert_run-Oldest f rest k,
)

sort_runs-Oldest : (l : List FlowRun) → Oldest (sort_runs l)
unfolding sort_runs
sort_runs-Oldest [] = tt
sort_runs-Oldest (f ∷ rest) = insert_run-Oldest f (sort_runs rest) (sort_runs-Oldest rest)

length-insert_run : (f : FlowRun) (l : List FlowRun) → length (insert_run f l) ≡ suc (length l)
unfolding insert_run
length-insert_run f [] = refl
length-insert_run f (g ∷ rest) = ground (arith, length-insert_run f rest)

length-sort_runs : (l : List FlowRun) → length (sort_runs l) ≡ length l
unfolding sort_runs
length-sort_runs [] = refl
length-sort_runs (f ∷ rest) =
    omega (arith, length-insert_run f (sort_runs rest), length-sort_runs rest)

-- Every element of the first `n` is no later than every one of the others.
take-drop-Oldest :
    (n : ℕ) (l : List FlowRun) → Oldest l → All (λ f. All (NotAfter f) (drop n l)) (take n l)
take-drop-Oldest zero l h = tt
take-drop-Oldest (suc n) [] h = tt
take-drop-Oldest (suc n) (f ∷ rest) (h, k) =
    (drop-All (NotAfter f) n rest h, take-drop-Oldest n rest k)

-- The FlowRuns that the cap leaves.
unfoldable pub kept : FlowRunPhase → ℕ → List FlowRun → List FlowRun
kept phase max items = drop (length (matching phase items) - max) (sort_runs (matching phase items))

insert_run-perm : (f : FlowRun) (l : List FlowRun) → Perm (insert_run f l) (f ∷ l)
unfolding insert_run
insert_run-perm f [] = Perm.refl (f ∷ [])
insert_run-perm f (g ∷ rest) =
    go (completed_before f.status.completion_time g.status.completion_time)
      (Perm.trans (Perm.cons g (insert_run-perm f rest)) (Perm.swap f g rest))
  where
    go :
        (b : Bool)
        → Perm (g ∷ insert_run f rest) (f ∷ g ∷ rest)
        → Perm (if b then f ∷ g ∷ rest else g ∷ insert_run f rest) (f ∷ g ∷ rest)
    go true p = Perm.refl (f ∷ g ∷ rest)
    go false p = p

sort_runs-perm : (l : List FlowRun) → Perm (sort_runs l) l
unfolding sort_runs
sort_runs-perm [] = Perm.refl []
sort_runs-perm (f ∷ rest) =
    Perm.trans (insert_run-perm f (sort_runs rest)) (Perm.cons f (sort_runs-perm rest))

excess-eq-take :
    (phase : FlowRunPhase) (max : ℕ) (items : List FlowRun)
    → excess phase max items
      ≡ take (length (matching phase items) - max) (sort_runs (matching phase items))
unfolding excess
excess-eq-take phase max items = elim (Bool-cases (leb (length (matching phase items)) max)) [
  | inl e ↦
      let z : length (matching phase items) - max ≡ 0 =
        omega (arith, leb→le (length (matching phase items)) max e) in
      rw (e, z)
  | inr e ↦ rw e
]

excess-eq-nil :
    (phase : FlowRunPhase) (max : ℕ) (items : List FlowRun)
    → leb (length (matching phase items)) max ≡ true
    → excess phase max items ≡ []
unfolding excess
excess-eq-nil phase max items e = rw e

-- A count cap splits the counted FlowRuns (those in the phase and not retained) in two: the deleted
-- ones, and at most `max` that stay, just `max` when some are deleted; no deleted one was completed
-- later than one that stays.
pub excess_lem :
    (phase : FlowRunPhase) (max : ℕ) (items : List FlowRun)
    → Perm (excess phase max items ++ kept phase max items) (matching phase items)
      × (length (kept phase max items) ≤ max)
      × (excess phase max items ≢ [] → length (kept phase max items) ≡ max)
      × All (λ f. All (NotAfter f) (kept phase max items)) (excess phase max items)
unfolding kept
excess_lem phase max items =
    let sorted : List FlowRun = sort_runs (matching phase items) in
    let n : ℕ = length (matching phase items) - max in
    (
      rw (excess-eq-take phase max items, take-append-drop n sorted)
          (sort_runs-perm (matching phase items)),
      omega (arith, length-drop n sorted, length-sort_runs (matching phase items)),
      λ some_deleted. elim (Bool-cases (leb (length (matching phase items)) max)) [
        | inl e ↦ absurd (some_deleted (excess-eq-nil phase max items e))
        | inr e ↦ ground (arith, length-drop n sorted, length-sort_runs (matching phase items))
      ],
      rw (excess-eq-take phase max items)
          (take-drop-Oldest n sorted (sort_runs-Oldest (matching phase items))),
    )
