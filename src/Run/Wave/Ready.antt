-- ===== src/Run/Wave/Ready.antt =====
-- What the wave of a reconcile holds: the ready steps of the Flow, all of them and no others.
use kubezap_operator.Base.{
  subst, ◌≡◌, true, false, some, List, [], ◌∷◌, arith, All, is_empty, Bool-cases, inl, inr,
}
use kubezap_operator.Api.Flow.{FlowStep, FlowSpec, is_wait}
use kubezap_operator.Api.FlowRun.{StepRunStatus}
use kubezap_operator.Run.Wave.{is_ready, ready_among, wave_steps, first_wait}

abbrev pub Ready : FlowSpec → List StepRunStatus → FlowStep → Type 0
Ready flow l step = is_ready flow l step ≡ true

ready_among-Ready :
    (flow : FlowSpec) (l : List StepRunStatus) (steps : List FlowStep)
    → All (Ready flow l) (ready_among flow l steps)
unfolding ready_among
ready_among-Ready flow l [] = tt
ready_among-Ready flow l (step ∷ rest) = ground (arith, ready_among-Ready flow l rest)

-- Every step of the wave is ready.
pub wave_steps-Ready :
    (flow : FlowSpec) (l : List StepRunStatus) → All (Ready flow l) (wave_steps flow l)
unfolding wave_steps
wave_steps-Ready flow l = ready_among-Ready flow l flow.steps

ready_among_empty :
    (flow : FlowSpec) (l : List StepRunStatus) (steps : List FlowStep)
    → is_empty (ready_among flow l steps) ≡ true
    → All (λ step. is_ready flow l step ≡ false) steps
unfolding ready_among
ready_among_empty flow l [] h = tt
ready_among_empty flow l (step ∷ rest) h = ground (arith, ready_among_empty flow l rest)

-- Where the wave is empty, no step of the Flow is ready.
pub wave_steps_empty :
    (flow : FlowSpec) (l : List StepRunStatus)
    → is_empty (wave_steps flow l) ≡ true
    → All (λ step. is_ready flow l step ≡ false) flow.steps
unfolding wave_steps
wave_steps_empty flow l h = ready_among_empty flow l flow.steps h

-- The wait step that is run is one of the wave, and is a wait step.
pub first_wait-All :
    (P : FlowStep → Type 0) (wave : List FlowStep) {step : FlowStep}
    → All P wave
    → first_wait wave ≡ some step
    → P step × (is_wait step.action.type ≡ true)
unfolding first_wait
first_wait-All P [] h e = cc
first_wait-All P (s ∷ rest) {step} (p, h) e = elim (Bool-cases (is_wait s.action.type)) [
  | inl w ↦
      let same : s ≡ step = cc (rw w at e) in
      subst (λ x. P x × (is_wait x.action.type ≡ true)) same (p, w)
  | inr w ↦ first_wait-All P rest h (rw w at e)
]

pub All-map {ℓ} :
    {A : Type ℓ} (P Q : A → Type 0) (l : List A) → ((a : A) → P a → Q a) → All P l → All Q l
All-map P Q [] f h = tt
All-map P Q (a ∷ rest) f (p, h) = (f a p, All-map P Q rest f h)
