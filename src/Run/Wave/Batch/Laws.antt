-- ===== src/Run/Wave/Batch/Laws.antt =====
-- What a wave of parallel steps comes to.
use kubezap_operator.Base.{
  ◌≡◌, refl, ◌∙◌, ◌↔◌, Bool, true, false, ◌&&◌, not, none, List, [], ◌∷◌, any, All, arith,
  Bool-cases, Option-cases, inl, inr, if◌then◌else◌,
}
use kubezap_operator.Base.Int.{ℤ, pos}
use kubezap_operator.Api.Flow.{FlowStep, FlowSpec}
use kubezap_operator.Api.FlowRun.{FlowRun, StepRunStatus, StepPhase, failed, Message}
use kubezap_operator.Run.Plan.{return, write, status_update, requeue, requeue_after}
use kubezap_operator.Run.Runtime.{
  Runtime, StepResults, Params, ExecResult, transport_error, exec_error, executed,
}
use kubezap_operator.Run.Finish.{fail_flow_run}
use kubezap_operator.Run.Wait.{continues, with_steps}
use kubezap_operator.Run.Wave.Batch.{
  is_failed, transport_backoff, step_result, transport_requeue, apply_results, fatal_msg, run_one,
  run_all, after_wave, run_wave,
}

abbrev pub is_transport : ExecResult → Bool
is_transport transport_error = true
is_transport _ = false

blocked : (p : StepPhase) (c : Bool) → (is_failed p && not c) ≡ false → p ≡ failed → c ≡ true
blocked p true h e = refl
blocked p false h e = ground (arith, rw e at h)

allowed : (p : StepPhase) (c : Bool) → (p ≡ failed → c ≡ true) → (is_failed p && not c) ≡ false
allowed failed c h = rw (h refl)
allowed StepPhase.unset c h = refl
allowed StepPhase.pending c h = refl
allowed StepPhase.running c h = refl
allowed StepPhase.succeeded c h = refl
allowed StepPhase.skipped c h = refl
allowed StepPhase.waiting c h = refl

module _ (rt : Runtime) (flow : FlowSpec) (results : StepResults) (params : Params)
    (f : FlowRun) where
  -- The executor could not be reached for the step.
  abbrev pub unreached : FlowStep → Bool
  unreached step = is_transport (rt.execute_step step f results params).result

  result_delay :
      (step : FlowStep) (r : ExecResult) (d : ℤ)
      → (step_result flow step r d).requeue_after
        ≡ (if is_transport r then transport_backoff else pos 0)
  unfolding step_result
  result_delay step transport_error d = refl
  result_delay step (exec_error m) d = refl
  result_delay step (executed ss) d = refl

  stays_longest :
      (wave : List FlowStep)
      → transport_requeue transport_backoff (run_all rt flow results params f wave)
        ≡ transport_backoff
  unfolding transport_requeue run_all
  stays_longest [] = refl
  stays_longest (step ∷ rest) =
      let e = rt.execute_step step f results params in
      elim (Bool-cases (unreached step)) [
        | inl t ↦ rw (result_delay step e.result e.duration, t) (stays_longest rest)
        | inr t ↦ rw (result_delay step e.result e.duration, t) (stays_longest rest)
      ]

  longest_delay :
      (wave : List FlowStep)
      → transport_requeue (pos 0) (run_all rt flow results params f wave)
        ≡ (if any unreached wave then transport_backoff else pos 0)
  unfolding transport_requeue run_all
  longest_delay [] = refl
  longest_delay (step ∷ rest) =
      let e = rt.execute_step step f results params in
      elim (Bool-cases (unreached step)) [
        | inl t ↦ rw (result_delay step e.result e.duration, t) (stays_longest rest)
        | inr t ↦ rw (result_delay step e.result e.duration, t) (longest_delay rest)
      ]

  pub run_wave_lem :
      (wave : List FlowStep)
      → run_wave rt flow results params f wave ≡ (
          if any unreached wave
          then return (requeue_after transport_backoff)
          else write
              (status_update (
                with_steps f
                  (apply_results f.status.steps (run_all rt flow results params f wave))))
              (after_wave rt flow results params
                (with_steps f
                  (apply_results f.status.steps (run_all rt flow results params f wave)))
                (fatal_msg (run_all rt flow results params f wave))))
  unfolding run_wave
  run_wave_lem wave = elim (Bool-cases (any unreached wave)) [
    | inl t ↦ rw (longest_delay wave, t)
    | inr t ↦ rw (longest_delay wave, t)
  ]

  -- The step did not fail, or its failure is continued after.
  abbrev pub Tolerated : FlowStep → Type 0
  Tolerated step =
      (ss : StepRunStatus)
      → (rt.execute_step step f results params).result ≡ executed ss
      → ss.phase ≡ failed
      → continues step flow ≡ true

  fatal-Tolerated :
      (step : FlowStep) (r : ExecResult) (d : ℤ)
      → ((step_result flow step r d).fail_fatal ≡ false)
        ↔ ((ss : StepRunStatus) → r ≡ executed ss → ss.phase ≡ failed → continues step flow ≡ true)
  unfolding step_result
  fatal-Tolerated step transport_error d = (λ h ss e. cc e, λ h. refl)
  fatal-Tolerated step (exec_error m) d = (λ h ss e. cc e, λ h. refl)
  fatal-Tolerated step (executed ss) d = (
    λ h ss' e p. blocked ss.phase (continues step flow) h (cc (e, p)),
    λ h. allowed ss.phase (continues step flow) (h ss refl),
  )

  -- No step fails the FlowRun exactly when each is tolerated.
  fatal_msg_iff :
      (wave : List FlowStep)
      → (fatal_msg (run_all rt flow results params f wave) ≡ none) ↔ All Tolerated wave
  unfolding fatal_msg run_all
  fatal_msg_iff [] = (λ h. tt, λ h. refl)
  fatal_msg_iff (step ∷ rest) =
      let e = rt.execute_step step f results params in
      let (to, from) = fatal-Tolerated step e.result e.duration in
      let (to_rest, from_rest) = fatal_msg_iff rest in
      elim (Bool-cases (run_one rt flow results params f step).fail_fatal) [
        | inl t ↦ rw t ((λ h. cc h), λ (h, hs). cc (t, from h))
        | inr t ↦ rw t ((λ h. (to t, to_rest h)), λ (h, hs). from_rest hs)
      ]

  -- The FlowRun with the results of the wave in its statuses.
  abbrev pub after_results : List FlowStep → FlowRun
  after_results wave =
      with_steps f (apply_results f.status.steps (run_all rt flow results params f wave))

  -- The two ways of a wave, in the terms of the code.
  pub run_wave_parts :
      (wave : List FlowStep)
      → (any unreached wave ≡ true
          → run_wave rt flow results params f wave ≡ return (requeue_after transport_backoff))
        × (any unreached wave ≡ false
            → All Tolerated wave
            → run_wave rt flow results params f wave
              ≡ write (status_update (after_results wave)) (return requeue))
        × (any unreached wave ≡ false
            → ¬ All Tolerated wave
            → (m : Message) × (run_wave rt flow results params f wave
                ≡ write
                    (status_update (after_results wave))
                    (fail_flow_run rt.set_condition rt.now (after_results wave) m)))
  unfolding after_wave
  run_wave_parts wave = (
    λ t. run_wave_lem wave ∙ rw t,
    λ t h. run_wave_lem wave ∙ rw (t, (fatal_msg_iff wave).1 h),
    λ t h. elim (Option-cases (fatal_msg (run_all rt flow results params f wave))) [
      | inl e ↦ absurd (h ((fatal_msg_iff wave).0 e))
      | inr (m, e) ↦ (m, run_wave_lem wave ∙ rw (t, e))
    ],
  )
