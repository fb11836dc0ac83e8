-- ===== src/Run/Reconcile/Progress/Measure.antt =====
-- How many steps of a Flow are not done: the measure that each immediate requeue lowers.
use kubezap_operator.Base.{
  ℕ, suc, ◌≤◌, ◌<◌, String, ◌≡◌, Bool, true, false, List, [], ◌∷◌, arith, subst, eq_refl, length,
  Option-cases, String-cases, inl, inr, ◌⊎◌,
}
use kubezap_operator.Api.Flow.{FlowStep}
use kubezap_operator.Api.FlowRun.{StepRunStatus, step_terminal}
use kubezap_operator.Run.Steps.{find_step_status, upsert_step_status}
use kubezap_operator.Run.Steps.Laws.{find-upsert}
use kubezap_operator.Run.Wave.{is_done}
use kubezap_operator.Run.Reconcile.Kept.{Preserves, Undone}

abbrev count_if : Bool → ℕ → ℕ
count_if true n = n
count_if false n = suc n

-- The steps that are not done.
unfoldable pub undone : List FlowStep → List StepRunStatus → ℕ
undone [] l = 0
undone (step ∷ rest) l = count_if (is_done (find_step_status l step.name)) (undone rest l)

abbrev pub In : {A : Type 0} → A → List A → Type 0
In a [] = ⊥
In a (b ∷ rest) = (a ≡ b) ⊎ In a rest

-- What is done in `l` is done in `m`.
abbrev pub Extends : List StepRunStatus → List StepRunStatus → Type 0
Extends l m =
    (n : String) → is_done (find_step_status l n) ≡ true → is_done (find_step_status m n) ≡ true

pub Preserves-Extends : (l m : List StepRunStatus) → Preserves l m → Extends l m
Preserves-Extends l m h n d = elim (Option-cases (find_step_status l n)) [
  | inl e ↦ ground (arith, rw e at d)
  | inr (s, e) ↦ rw (h n s e (rw e at d)) (rw e at d)
]

pub undone_le :
    (steps : List FlowStep) (l m : List StepRunStatus)
    → Extends l m
    → undone steps m ≤ undone steps l
unfolding undone
undone_le [] l m h = omega arith
undone_le (step ∷ rest) l m h = ground (arith, undone_le rest l m h, h step.name)

pub undone_less :
    (steps : List FlowStep) (l m : List StepRunStatus) (step : FlowStep)
    → In step steps
    → Extends l m
    → Undone l step.name
    → is_done (find_step_status m step.name) ≡ true
    → undone steps m < undone steps l
unfolding undone
undone_less [] l m step i h u d = absurd i
undone_less (s ∷ rest) l m step (inl e) h u d =
    let u' = subst (λ x. Undone l x.name) e u in
    let d' = subst (λ x. is_done (find_step_status m x.name) ≡ true) e d in
    ground (arith, undone_le rest l m h)
undone_less (s ∷ rest) l m step (inr i) h u d =
    ground (arith, undone_less rest l m step i h u d, h s.name)

-- An upsert of a done status leaves what is done done, and makes its name so.
pub upsert-Extends :
    (l : List StepRunStatus) (s : StepRunStatus)
    → step_terminal s.phase ≡ true
    → Extends l (upsert_step_status l s)
      × (is_done (find_step_status (upsert_step_status l s) s.name) ≡ true)
upsert-Extends l s t = (
  λ n d. elim (String-cases s.name n) [
    | inl (e, b) ↦ rw (find-upsert l s n, b) t
    | inr (e, b) ↦ rw (find-upsert l s n, b) d
  ],
  rw (find-upsert l s s.name, eq_refl s.name) t,
)

pub undone-le-length :
    (steps : List FlowStep) (l : List StepRunStatus) → undone steps l ≤ length steps
unfolding undone
undone-le-length [] l = omega arith
undone-le-length (step ∷ rest) l = ground (arith, undone-le-length rest l)
