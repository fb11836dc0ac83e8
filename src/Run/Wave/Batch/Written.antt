-- ===== src/Run/Wave/Batch/Written.antt =====
-- What one wave writes of its steps.
use kubezap_operator.Base.{
  String, ◌≡◌, ◌≢◌, refl, ◌∙◌, true, false, some, List, [], ◌∷◌, any, All, arith, eq_refl,
  String-cases, inl, inr,
}
use kubezap_operator.Base.Int.{ℤ}
use kubezap_operator.Api.Flow.{FlowStep, FlowSpec}
use kubezap_operator.Api.FlowRun.{
  FlowRun, StepRunStatus, failed, Message, blank_status, step_terminal,
}
use kubezap_operator.Run.Steps.{find_step_status, upsert_step_status}
use kubezap_operator.Run.Steps.Laws.{find-upsert}
use kubezap_operator.Run.Plan.{return, write, status_update, requeue, requeue_after}
use kubezap_operator.Run.Finish.{fail_flow_run, milliseconds}
use kubezap_operator.Run.Runtime.{
  Runtime, StepResults, Params, ExecResult, transport_error, exec_error, executed,
}
use kubezap_operator.Run.Wait.{with_steps}
use kubezap_operator.Run.Wave.Batch.{
  transport_backoff, step_result, timed, apply_results, run_one, run_all, run_wave,
}
use kubezap_operator.Run.Wave.Batch.Laws.{is_transport, unreached, Tolerated, run_wave_parts}

-- No two steps share a name.
abbrev pub DistinctNames : List FlowStep → Type 0
DistinctNames [] = Unit
DistinctNames (step ∷ rest) = All (λ other. other.name ≢ step.name) rest × DistinctNames rest

-- The status that is written of a step, from what executeStep returned after that time: Failed with the
-- error, or the status that was returned; with the duration, if it is a final one.
abbrev pub Recorded : FlowStep → ExecResult → ℤ → StepRunStatus → Type 0
Recorded step transport_error d s = ⊥
Recorded step (exec_error m) d s = s ≡ record (blank_status step.name failed) {
  message = m;
  duration_millis = some (milliseconds d);
}
Recorded step (executed ss) d s =
    (step_terminal ss.phase ≡ true → s ≡ record ss { duration_millis = some (milliseconds d) })
    × (step_terminal ss.phase ≡ false → s ≡ ss)

-- A status that is returned has the name of its step.
abbrev pub HasName : FlowStep → ExecResult → Type 0
HasName step transport_error = Unit
HasName step (exec_error m) = Unit
HasName step (executed ss) = ss.name ≡ step.name

timed-name :
    (flow : FlowSpec) (step : FlowStep) (r : ExecResult) (d : ℤ)
    → HasName step r
    → (timed (step_result flow step r d)).name ≡ step.name
unfolding step_result
timed-name flow step transport_error d h = refl
timed-name flow step (exec_error m) d h = refl
timed-name flow step (executed ss) d h = ground arith

timed-Recorded :
    (flow : FlowSpec) (step : FlowStep) (r : ExecResult) (d : ℤ)
    → is_transport r ≡ false
    → Recorded step r d (timed (step_result flow step r d))
unfolding step_result
timed-Recorded flow step transport_error d h = ground arith
timed-Recorded flow step (exec_error m) d h = refl
timed-Recorded flow step (executed ss) d h = ((λ t. rw t refl), (λ t. rw t refl))

module _ (rt : Runtime) (flow : FlowSpec) (results : StepResults) (params : Params)
    (f : FlowRun) where
  -- The statuses of all steps of the wave are in the list.
  abbrev pub HasResults : List FlowStep → List StepRunStatus → Type 0
  HasResults wave statuses =
      All
        (λ step.
          (s : StepRunStatus) × (find_step_status statuses step.name ≡ some s)
          × Recorded step (rt.execute_step step f results params).result
              (rt.execute_step step f results params).duration s)
        wave

  abbrev pub NamesSteps : Type 0
  NamesSteps = (step : FlowStep) → HasName step (rt.execute_step step f results params).result

  module _ (names : NamesSteps) where
    one_name : (step : FlowStep) → (timed (run_one rt flow results params f step)).name ≡ step.name
    one_name step =
        timed-name flow step (rt.execute_step step f results params).result
          (rt.execute_step step f results params).duration (names step)

    find-upsert_other :
        (step : FlowStep) (m : List StepRunStatus) (n : String)
        → step.name ≢ n
        → find_step_status (upsert_step_status m (timed (run_one rt flow results params f step))) n
          ≡ find_step_status m n
    find-upsert_other step m n h =
        find-upsert m (timed (run_one rt flow results params f step)) n
        ∙ rw (one_name step)
            (elim (String-cases step.name n) [ inl (p, _) ↦ absurd (h p) | inr (_, e) ↦ rw e refl ])

    find-upsert_own :
        (step : FlowStep) (m : List StepRunStatus)
        → find_step_status
            (upsert_step_status m (timed (run_one rt flow results params f step)))
            step.name
          ≡ some (timed (run_one rt flow results params f step))
    find-upsert_own step m =
        find-upsert m (timed (run_one rt flow results params f step)) step.name
        ∙ rw (one_name step) (rw (eq_refl step.name) refl)

    find-apply_other :
        (wave : List FlowStep) (m : List StepRunStatus) (n : String)
        → All (λ step. step.name ≢ n) wave
        → find_step_status (apply_results m (run_all rt flow results params f wave)) n
          ≡ find_step_status m n
    unfolding apply_results run_all
    find-apply_other [] m n h = refl
    find-apply_other (step ∷ rest) m n (h, hs) =
        find-apply_other rest (upsert_step_status m (timed (run_one rt flow results params f step)))
          n hs
        ∙ find-upsert_other step m n h

    apply-HasResults :
        (wave : List FlowStep) (m : List StepRunStatus)
        → DistinctNames wave
        → any (unreached rt flow results params f) wave ≡ false
        → HasResults wave (apply_results m (run_all rt flow results params f wave))
    unfolding apply_results run_all
    apply-HasResults [] m d h = tt
    apply-HasResults (step ∷ rest) m (new, d) h =
        let e = rt.execute_step step f results params in
        let next = upsert_step_status m (timed (run_one rt flow results params f step)) in
        (
          (
            timed (run_one rt flow results params f step),
            find-apply_other rest next step.name new ∙ find-upsert_own step m,
            timed-Recorded flow step e.result e.duration (ground arith),
          ),
          apply-HasResults rest next d (ground arith),
        )

  -- The statuses of the wave are written, and those of any other name are as they were.
  abbrev pub IsWritten : List FlowStep → List StepRunStatus → Type 0
  IsWritten wave statuses =
      HasResults wave statuses
      × ((n : String)
          → All (λ step. step.name ≢ n) wave
          → find_step_status statuses n ≡ find_step_status f.status.steps n)

  written :
      (wave : List FlowStep)
      → NamesSteps
      → DistinctNames wave
      → any (unreached rt flow results params f) wave ≡ false
      → IsWritten wave (apply_results f.status.steps (run_all rt flow results params f wave))
  written wave names d h = (
    apply-HasResults names wave f.status.steps d h,
    λ n other. find-apply_other names wave f.status.steps n other,
  )

  -- Of a wave of steps that share no names, where what executeStep returns has the name of its step: if
  -- the executor was unreachable for some step, nothing of the wave is written, and the reconcile is
  -- repeated in five seconds. Else one status update has of each step what executeStep returned, and of
  -- any other name what was there; then the FlowRun goes on at once if each failure is continued after,
  -- and fails if not.
  pub run_wave_outcome :
      (wave : List FlowStep)
      → NamesSteps
      → DistinctNames wave
      → (any (unreached rt flow results params f) wave ≡ true
          → run_wave rt flow results params f wave ≡ return (requeue_after transport_backoff))
        × (any (unreached rt flow results params f) wave ≡ false
            → All (Tolerated rt flow results params f) wave
            → (statuses : List StepRunStatus) × (run_wave rt flow results params f wave
                ≡ write (status_update (with_steps f statuses)) (return requeue))
              × IsWritten wave statuses)
        × (any (unreached rt flow results params f) wave ≡ false
            → ¬ All (Tolerated rt flow results params f) wave
            → (statuses : List StepRunStatus) × (m : Message) × (run_wave rt flow results params f
                  wave
                ≡ write
                    (status_update (with_steps f statuses))
                    (fail_flow_run rt.set_condition rt.now (with_steps f statuses) m))
              × IsWritten wave statuses)
  run_wave_outcome wave names d =
      let (away, on, off) = run_wave_parts rt flow results params f wave in
      (
        away,
        λ t h. (_, on t h, written wave names d t),
        λ t h. let (m, e) = off t h in (_, m, e, written wave names d t),
      )
