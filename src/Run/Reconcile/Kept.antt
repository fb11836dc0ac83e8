-- ===== src/Run/Reconcile/Kept.antt =====
-- A step that is done stays done: no reconcile changes the status of a step that is Succeeded,
-- Failed or Skipped.
use kubezap_operator.Base.{
  String, ◌≡◌, refl, true, false, Option, none, some, List, [], ◌∷◌, arith, Bool-cases, inl, inr,
  All, Option-cases, String-cases,
}
use kubezap_operator.Base.Int.{ℤ, pos, ltb_ℤ}
use kubezap_operator.Api.Flow.{FlowStep, FlowSpec}
use kubezap_operator.Api.FlowRun.{FlowRun, StepRunStatus, Message, step_failed, step_terminal}
use kubezap_operator.Run.Steps.{find_step_status, upsert_step_status}
use kubezap_operator.Run.Steps.Laws.{find-upsert}
use kubezap_operator.Run.Plan.{Write, status_update}
use kubezap_operator.Run.Plan.Laws.{AllWrites, if-Writes}
use kubezap_operator.Run.Finish.{fail_flow_run}
use kubezap_operator.Run.Runtime.{
  Runtime, StepResults, Params, ExecResult, transport_error, exec_error, executed,
}
use kubezap_operator.Run.Wait.{
  WaitResult, wait_error, remaining, execute_wait_step, waited, finish_wait, run_wait, failed_wait,
  continues, put,
}
use kubezap_operator.Run.Wave.{is_done}
use kubezap_operator.Run.Wave.Batch.{
  step_result, timed, apply_results, run_all, run_wave, transport_requeue, after_wave, fatal_msg,
}

-- The statuses `m` have those of `l` that are done.
abbrev pub Preserves : List StepRunStatus → List StepRunStatus → Type 0
Preserves l m =
    (n : String) (s : StepRunStatus)
    → find_step_status l n ≡ some s
    → step_terminal s.phase ≡ true
    → find_step_status m n ≡ some s

-- The status of that name, if there is one, is not done.
abbrev pub Undone : List StepRunStatus → String → Type 0
Undone l n = is_done (find_step_status l n) ≡ false

pub upsert-Preserves :
    (l m : List StepRunStatus) (s : StepRunStatus)
    → Undone l s.name
    → Preserves l m
    → Preserves l (upsert_step_status m s)
upsert-Preserves l m s undone h n t found done =
    rw (find-upsert m s n) (elim (String-cases s.name n) [
      | inl (e, _) ↦ cc (rw (e, found, is_done, done) at undone)
      | inr (_, e) ↦ rw e (h n t found done)
    ])

-- What is not done now was not done before.
pub Undone-back : (l m : List StepRunStatus) (n : String) → Preserves l m → Undone m n → Undone l n
Undone-back l m n h undone = elim (Option-cases (find_step_status l n)) [
  | inl e ↦ rw e
  | inr (s, e) ↦ elim (Bool-cases (step_terminal s.phase)) [
    | inl t ↦ cc (rw (h n s e t, is_done, t) at undone)
    | inr t ↦ rw e t
  ]
]

-- The status update keeps the done statuses of `l`.
abbrev pub Keeps : List StepRunStatus → Write → Type 0
Keeps l (status_update g) = Preserves l g.status.steps
Keeps l _ = Unit

pub fail-Keeps :
    (rt : Runtime) (l : List StepRunStatus) (f : FlowRun) (m : Message)
    → Preserves l f.status.steps
    → AllWrites (Keeps l) (fail_flow_run rt.set_condition rt.now f m)
unfolding fail_flow_run
fail-Keeps rt l f m h = (h, (tt, tt))

-- The status that a wait step leaves is its own.
abbrev pub WaitNamed : String → WaitResult → Type 0
WaitNamed n (wait_error m) = Unit
WaitNamed n (remaining d ss) = ss.name ≡ n

pub waited-WaitNamed :
    (rt : Runtime) (flow : FlowSpec) (f : FlowRun) (step : FlowStep)
    → WaitNamed step.name (waited rt flow f step)
unfolding execute_wait_step
waited-WaitNamed rt flow f step = ground arith

module _ (rt : Runtime) (flow : FlowSpec) (l : List StepRunStatus) where
  finish_wait-Keeps :
      (f : FlowRun) (step : FlowStep) (r : WaitResult)
      → WaitNamed step.name r
      → Undone l step.name
      → Preserves l f.status.steps
      → AllWrites (Keeps l) (finish_wait rt flow f step r)
  unfolding finish_wait
  finish_wait-Keeps f step (wait_error m) n u h =
      let kept = upsert-Preserves l f.status.steps (failed_wait rt flow f step m) u h in
      (
        kept,
        if-Writes (Keeps l) (continues step flow) _ _ tt
            (fail-Keeps rt l (put f (failed_wait rt flow f step m)) (step_failed step.name m) kept),
      )
  finish_wait-Keeps f step (remaining d ss) n u h =
      let u' : Undone l ss.name = rw n u in
      if-Writes (Keeps l) (ltb_ℤ (pos 0) d) _ _ (upsert-Preserves l f.status.steps ss u' h, tt)
        (upsert-Preserves l f.status.steps _ u' h, tt)

  pub run_wait-Keeps :
      (f : FlowRun) (step : FlowStep)
      → Undone l step.name
      → Preserves l f.status.steps
      → AllWrites (Keeps l) (run_wait rt flow f step)
  unfolding run_wait
  run_wait-Keeps f step u h =
      finish_wait-Keeps f step (waited rt flow f step) (waited-WaitNamed rt flow f step) u h

-- The contract of executeStep that this rests on: the status that it returns is the step's.
abbrev pub Named : String → ExecResult → Type 0
Named n (executed ss) = ss.name ≡ n
Named n _ = Unit

abbrev pub NamesSteps : Runtime → Type 0
NamesSteps rt =
    (step : FlowStep) (f : FlowRun) (results : StepResults) (params : Params)
    → Named step.name (rt.execute_step step f results params).result

step_result-name :
    (flow : FlowSpec) (step : FlowStep) (r : ExecResult) (d : ℤ)
    → Named step.name r
    → (timed (step_result flow step r d)).name ≡ step.name
unfolding step_result
step_result-name flow step transport_error d n = refl
step_result-name flow step (exec_error m) d n = refl
step_result-name flow step (executed ss) d n = ground arith

module _ (rt : Runtime) (named : NamesSteps rt) (flow : FlowSpec) (l : List StepRunStatus) where
  apply_results-Preserves :
      (results : StepResults) (params : Params) (f : FlowRun) (wave : List FlowStep)
      (m : List StepRunStatus)
      → All (λ step. Undone l step.name) wave
      → Preserves l m
      → Preserves l (apply_results m (run_all rt flow results params f wave))
  unfolding apply_results run_all
  apply_results-Preserves results params f [] m u h = h
  apply_results-Preserves results params f (step ∷ rest) m (u, us) h =
      let e = rt.execute_step step f results params in
      apply_results-Preserves results params f rest _ us (
        upsert-Preserves l m (timed (step_result flow step e.result e.duration))
          (rw (step_result-name flow step e.result e.duration (named step f results params)) u) h)

  after_wave-Keeps :
      (results : StepResults) (params : Params) (f : FlowRun) (m : Option Message)
      → Preserves l f.status.steps
      → AllWrites (Keeps l) (after_wave rt flow results params f m)
  unfolding after_wave
  after_wave-Keeps results params f none h = tt
  after_wave-Keeps results params f (some m) h = fail-Keeps rt l f m h

  pub run_wave-Keeps :
      (results : StepResults) (params : Params) (f : FlowRun) (wave : List FlowStep)
      → All (λ step. Undone l step.name) wave
      → Preserves l f.status.steps
      → AllWrites (Keeps l) (run_wave rt flow results params f wave)
  unfolding run_wave
  run_wave-Keeps results params f wave u h =
      let kept = apply_results-Preserves results params f wave f.status.steps u h in
      if-Writes (Keeps l)
        (ltb_ℤ (pos 0) (transport_requeue (pos 0) (run_all rt flow results params f wave))) _ _ tt
        (
          kept,
          after_wave-Keeps results params _ (fatal_msg (run_all rt flow results params f wave))
              kept,
        )
