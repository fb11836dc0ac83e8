-- ===== src/Run/Reconcile/Progress/Steps.antt =====
-- What makes a step done, and when a plan makes progress.
use kubezap_operator.Base.{
  ◌<◌, ◌≤◌, String, ◌≡◌, refl, subst, Bool, true, false, Option, none, some, List, [], ◌∷◌, arith,
  All, Bool-cases, inl, inr, if◌then◌else◌,
}
use kubezap_operator.Base.Int.{ℤ}
use kubezap_operator.Api.Flow.{FlowStep, FlowSpec}
use kubezap_operator.Api.FlowRun.{FlowRun, StepRunStatus, Message, step_terminal}
use kubezap_operator.Run.Steps.{find_step_status}
use kubezap_operator.Run.Plan.{requeue, status_update, Plan, return, write}
use kubezap_operator.Run.Finish.{fail_flow_run}
use kubezap_operator.Run.Runtime.{
  Runtime, StepResults, Params, ExecResult, transport_error, exec_error, executed, WhenResult,
  when_fails, holds,
}
use kubezap_operator.Run.Wait.{put}
use kubezap_operator.Run.Wave.{is_done, is_ready, ready_among}
use kubezap_operator.Run.Wave.Inline.{
  Decision, leave, skip, fail_on, fail_stop, when_decision, decide,
}
use kubezap_operator.Run.Wave.Batch.{step_result, timed}
use kubezap_operator.Run.Wave.Batch.Laws.{is_transport}
use kubezap_operator.Run.Wave.Ready.{All-map}
use kubezap_operator.Run.Reconcile.{blocking_failure, complete, conclude}
use kubezap_operator.Run.Reconcile.Kept.{Undone}
use kubezap_operator.Run.Reconcile.Progress.Measure.{undone, In, undone_less, upsert-Extends}

-- executeStep returns a transport error, or a done status of the step's name.
abbrev pub Finishes : String → ExecResult → Type 0
Finishes name transport_error = Unit
Finishes name (exec_error m) = ⊥
Finishes name (executed ss) = (ss.name ≡ name) × (step_terminal ss.phase ≡ true)

-- Where the plan asks for an immediate requeue, its last status update, or the FlowRun that was
-- read, has fewer steps that are not done than `l`; `m` are the statuses written last.
abbrev pub Advances : List FlowStep → List StepRunStatus → List StepRunStatus → Plan → Type 0
Advances steps l m (return requeue) = undone steps m < undone steps l
Advances steps l m (return o) = Unit
Advances steps l m (write (status_update g) rest) = Advances steps l g.status.steps rest
Advances steps l m (write w rest) = Advances steps l m rest

module _ (steps : List FlowStep) (l : List StepRunStatus) where
  pub if-Advances :
      (b : Bool) (m : List StepRunStatus) (p q : Plan)
      → (b ≡ true → Advances steps l m p)
      → (b ≡ false → Advances steps l m q)
      → Advances steps l m (if b then p else q)
  if-Advances true m p q h k = h refl
  if-Advances false m p q h k = k refl

  pub fail-Advances :
      (rt : Runtime) (m : List StepRunStatus) (f : FlowRun) (msg : Message)
      → Advances steps l m (fail_flow_run rt.set_condition rt.now f msg)
  unfolding fail_flow_run
  fail-Advances rt m f msg = tt

  pub complete-Advances :
      (rt : Runtime) (flow : FlowSpec) (m : List StepRunStatus) (f : FlowRun)
      → Advances steps l m (complete rt flow f)
  unfolding complete
  complete-Advances rt flow m f = go (blocking_failure flow f.status.steps)
    where
      go : (o : Option Message) → Advances steps l m (conclude rt f o)
      go none = tt
      go (some msg) = fail-Advances rt m f msg

  -- What is written lowers the measure: a step that was not done is put in as done.
  pub put-lower :
      (f : FlowRun) (s : StepRunStatus) (step : FlowStep)
      → In step steps
      → s.name ≡ step.name
      → step_terminal s.phase ≡ true
      → Undone f.status.steps step.name
      → undone steps f.status.steps ≤ undone steps l
      → undone steps (put f s).status.steps < undone steps l
  put-lower f s step i n t u h =
      let (ext, now_done) = upsert-Extends f.status.steps s t in
      ground (
        arith,
        undone_less steps f.status.steps (put f s).status.steps step i ext u
            (subst (λ x. is_done (find_step_status (put f s).status.steps x) ≡ true) n now_done),
      )

-- A decision that closes the step does it with a done status of the step's name.
abbrev pub Closes : String → Decision → Type 0
Closes n leave = Unit
Closes n (skip s) = (s.name ≡ n) × (step_terminal s.phase ≡ true)
Closes n (fail_on s) = (s.name ≡ n) × (step_terminal s.phase ≡ true)
Closes n (fail_stop s m) = (s.name ≡ n) × (step_terminal s.phase ≡ true)

when-Closes :
    (rt : Runtime) (flow : FlowSpec) (results : StepResults) (params : Params) (step : FlowStep)
    (w : WhenResult)
    → Closes step.name (when_decision rt flow results params step w)
unfolding when_decision
when-Closes rt flow results params step (when_fails m) = ground arith
when-Closes rt flow results params step (holds true) = tt
when-Closes rt flow results params step (holds false) = (refl, refl)

pub decide-Closes :
    (rt : Runtime) (flow : FlowSpec) (results : StepResults) (params : Params) (f : FlowRun)
    (step : FlowStep)
    → Closes step.name (decide rt flow results params f step)
unfolding decide
decide-Closes rt flow results params f step = ground (
  arith,
  when-Closes rt flow results params step
      (rt.evaluate_when step.when results f.status.steps f.spec.trigger_data params),
)

-- The steps that the loop has still to see are the Flow's.
abbrev pub AllIn : List FlowStep → List FlowStep → Type 0
AllIn steps rest = All (λ step. In step steps) rest

-- A result that is no transport error is that of a done step.
abbrev pub DoneAs : String → StepRunStatus → Type 0
DoneAs n s = (s.name ≡ n) × (step_terminal s.phase ≡ true)

pub timed-DoneAs :
    (flow : FlowSpec) (step : FlowStep) (r : ExecResult) (d : ℤ)
    → Finishes step.name r
    → is_transport r ≡ false
    → DoneAs step.name (timed (step_result flow step r d))
unfolding step_result
timed-DoneAs flow step transport_error d h k = ground arith
timed-DoneAs flow step (exec_error m) d h k = absurd h
timed-DoneAs flow step (executed ss) d (n, t) k = ground arith

pub all_in : (steps : List FlowStep) → AllIn steps steps
all_in [] = tt
all_in (s ∷ rest) =
    (inl refl, All-map (λ a. In a rest) (λ a. In a (s ∷ rest)) rest (λ a i. inr i) (all_in rest))

pub ready-AllIn :
    (flow : FlowSpec) (l : List StepRunStatus) (all steps : List FlowStep)
    → AllIn all steps
    → AllIn all (ready_among flow l steps)
unfolding ready_among
ready-AllIn flow l all [] h = tt
ready-AllIn flow l all (step ∷ rest) (i, is) = elim (Bool-cases (is_ready flow l step)) [
  | inl t ↦ rw t (i, ready-AllIn flow l all rest is)
  | inr t ↦ rw t (ready-AllIn flow l all rest is)
]
