-- ===== src/Run/Reconcile/Progress.antt =====
-- A reconcile that asks to be repeated at once has made a step done: the immediate requeues of a
-- FlowRun end.
pub mod Measure
pub mod Steps
pub mod Waves
use kubezap_operator.Base.{
  ℕ, ◌<◌, ◌≤◌, String, ◌≡◌, refl, sym, subst, Bool, true, false, ◌&&◌, not, Option, none, some,
  List, [], ◌∷◌, ◌++◌, arith, All, any, Bool-cases, Option-cases, inl, inr, ◌⊎◌, if◌then◌else◌,
  is_empty, contains_string,
}
use kubezap_operator.Base.Int.{ℤ, pos, ltb_ℤ}
use kubezap_operator.Base.Assoc.{lookup}
use kubezap_operator.Api.Flow.{FlowStep, FlowSpec}
use kubezap_operator.Api.FlowRun.{
  FlowRun, FlowRunPhase, StepRunStatus, StepPhase, Message, step_terminal, run_terminal,
  timeout_exceeded, step_failed,
}
use kubezap_operator.Run.Steps.{find_step_status, upsert_step_status}
use kubezap_operator.Run.Plan.{
  Get, found, not_found, unavailable, Outcome, done, requeue, requeue_after, error, Write,
  status_update, metadata_update, delete, Plan, return, write,
}
use kubezap_operator.Run.Finish.{
  executing_finalizer, fail_flow_run, finish_flow_run, cancel_flow_run,
}
use kubezap_operator.Run.Runtime.{
  Runtime, StepResults, Params, ParamResult, unresolved, resolved, ExecResult, transport_error,
  exec_error, executed, WhenResult, when_fails, holds,
}
use kubezap_operator.Run.Wait.{
  put, with_steps, continues, WaitResult, wait_error, remaining, waited, finish_wait, run_wait,
  failed_wait,
}
use kubezap_operator.Run.Wave.{
  is_done, is_ready, ready_among, wave_steps, first_wait, step_results, all_terminal, any_running,
}
use kubezap_operator.Run.Wave.Inline.{
  Decision, leave, skip, fail_on, fail_stop, closed_status, when_decision, decide, round,
  inline_loop,
}
use kubezap_operator.Run.Wave.Batch.{
  step_result, timed, apply_results, run_all, after_wave, fatal_msg, run_wave, transport_requeue,
}
use kubezap_operator.Run.Wave.Batch.Laws.{unreached, is_transport, run_wave_lem}
use kubezap_operator.Run.Wave.Ready.{Ready, wave_steps-Ready, first_wait-All, All-map}
use kubezap_operator.Run.Reconcile.{
  blocking_failure, complete, conclude, run_ready, after_refetch, after_inline, advance, proceed,
  begin, with_flow, started, timed_out, not_begun,
}
use kubezap_operator.Run.Reconcile.Kept.{Preserves, Undone, waited-WaitNamed, WaitNamed}
use kubezap_operator.Run.Reconcile.Stable.{Opens, decide-Opens, is_ready-Undone}
use kubezap_operator.Run.Reconcile.Progress.Waves.{
  Adv, Won, inline_loop-Adv, finish_wait-Adv, run_wave-Adv,
}
use kubezap_operator.Run.Reconcile.Progress.Steps.{
  Finishes, Advances, if-Advances, fail-Advances, complete-Advances, AllIn, all_in, ready-AllIn,
}
use kubezap_operator.Run.Gc.{flagged, reconcile_gc}
use kubezap_operator.Run.Gc.Quiet.{Quiet, reconcile_gc-Quiet}
use kubezap_operator.Run.Plan.Laws.{AllWrites, returns}
use kubezap_operator.Run.Reconcile.{reconcile, is_some, is_running}
use kubezap_operator.Run.Reconcile.Progress.Measure.{
  undone, In, Extends, undone_le, undone_less, upsert-Extends,
}

module _ (rt : Runtime) (flow : FlowSpec) (l : List StepRunStatus)
    (finishes : (step : FlowStep) (f : FlowRun) (results : StepResults) (params : Params)
      → Finishes step.name (rt.execute_step step f results params).result) where
  wave-Undone-All :
      (f : FlowRun) → All (λ step. Undone f.status.steps step.name) (wave_steps flow f.status.steps)
  wave-Undone-All f =
      All-map (Ready flow f.status.steps) (λ step. Undone f.status.steps step.name)
        (wave_steps flow f.status.steps) (λ step r. is_ready-Undone flow f.status.steps step r)
        (wave_steps-Ready flow f.status.steps)

  wave-AllIn : (f : FlowRun) → AllIn flow.steps (wave_steps flow f.status.steps)
  unfolding wave_steps
  wave-AllIn f = ready-AllIn flow f.status.steps flow.steps flow.steps (all_in flow.steps)

  run_wait-Adv :
      (f : FlowRun) (step : FlowStep) (m : List StepRunStatus)
      → In step flow.steps
      → Undone f.status.steps step.name
      → undone flow.steps f.status.steps ≤ undone flow.steps l
      → Adv rt flow l finishes m (run_wait rt flow f step)
  unfolding run_wait
  run_wait-Adv f step m i u le =
      finish_wait-Adv rt flow l finishes f step (waited rt flow f step) m
        (waited-WaitNamed rt flow f step) i u le

  run_ready-Adv :
      (params : Params) (f : FlowRun) (w : Option FlowStep) (m : List StepRunStatus)
      → first_wait (wave_steps flow f.status.steps) ≡ w
      → is_empty (wave_steps flow f.status.steps) ≡ false
      → undone flow.steps f.status.steps ≤ undone flow.steps l
      → Adv rt flow l finishes m (run_ready rt flow params f (wave_steps flow f.status.steps) w)
  unfolding run_ready
  run_ready-Adv params f (some step) m e ne le =
      run_wait-Adv f step m
        (first_wait-All (λ s. In s flow.steps) (wave_steps flow f.status.steps) (wave-AllIn f) e).0
        (first_wait-All (λ s. Undone f.status.steps s.name) (wave_steps flow f.status.steps)
          (wave-Undone-All f) e).0
        le
  run_ready-Adv params f none m e ne le =
      run_wave-Adv rt flow l finishes f (step_results f.status.steps) params
        (wave_steps flow f.status.steps) m ne (wave-AllIn f) (wave-Undone-All f) le

  after_inline-Adv :
      (params : Params) (busy : Bool) (f : FlowRun) (b : Bool) (m : List StepRunStatus)
      → Won rt flow l finishes f b
      → Adv rt flow l finishes m (after_inline rt flow params busy f b)
  unfolding after_inline
  after_inline-Adv params busy f b m (le, won) =
      if-Advances flow.steps l b m _ _ (λ c. refetched rt.refetch (won c))
        (λ c.
          if-Advances flow.steps l (not (is_empty (wave_steps flow f.status.steps))) m _ _
            (λ c'.
              run_ready-Adv params f (first_wait (wave_steps flow f.status.steps)) m refl
                (ground arith) le)
            (λ c'.
              if-Advances flow.steps l busy m _ _ (λ c''. tt)
                (λ c''. complete-Advances flow.steps l rt flow m f)))
    where
      refetched :
          (g : Get FlowRun)
          → undone flow.steps f.status.steps < undone flow.steps l
          → Adv rt flow l finishes f.status.steps (after_refetch rt g)
      refetched (found g) less = less
      refetched not_found less = tt
      refetched unavailable less = tt

  advance-Adv :
      (f : FlowRun) (r : ParamResult) (m : List StepRunStatus)
      → undone flow.steps f.status.steps ≤ undone flow.steps l
      → Adv rt flow l finishes m (advance rt flow f r)
  unfolding advance
  advance-Adv f (unresolved msg) m le = fail-Advances flow.steps l rt m f msg
  advance-Adv f (resolved params) m le =
      if-Advances flow.steps l (all_terminal flow f.status.steps) m _ _
        (λ c. complete-Advances flow.steps l rt flow m f)
        (λ c.
          inline_loop-Adv rt flow l finishes (step_results f.status.steps) params f flow.steps false
            m _ (all_in flow.steps) (le, λ e. ground arith)
            (λ g b m' w. after_inline-Adv params (any_running flow f.status.steps) g b m' w))

  proceed-Adv :
      (f : FlowRun) (m : List StepRunStatus)
      → undone flow.steps f.status.steps ≤ undone flow.steps l
      → Adv rt flow l finishes m (proceed rt flow f)
  unfolding proceed
  proceed-Adv f m le =
      if-Advances flow.steps l (timed_out rt f.status.start_time) m _ _
        (λ c. fail-Advances flow.steps l rt m f timeout_exceeded) (λ c. advance-Adv f _ m le)

  begin-Adv :
      (f : FlowRun) (m : List StepRunStatus)
      → undone flow.steps f.status.steps ≤ undone flow.steps l
      → Adv rt flow l finishes m (begin rt flow f)
  unfolding begin
  begin-Adv f m le =
      if-Advances flow.steps l (contains_string f.finalizers executing_finalizer) m _ _
        (λ c. proceed-Adv (started rt f) _ le) (λ c. proceed-Adv _ _ le)

Quiet-Advances :
    (steps : List FlowStep) (l m : List StepRunStatus) (plan : Plan)
    → Quiet plan
    → Advances steps l m plan
Quiet-Advances steps l m (return requeue) h = absurd h
Quiet-Advances steps l m (return done) h = tt
Quiet-Advances steps l m (return error) h = tt
Quiet-Advances steps l m (return (requeue_after d)) h = tt
Quiet-Advances steps l m (write (status_update g) rest) h =
    Quiet-Advances steps l g.status.steps rest h
Quiet-Advances steps l m (write (metadata_update g) rest) h = Quiet-Advances steps l m rest h
Quiet-Advances steps l m (write (delete g) rest) h = Quiet-Advances steps l m rest h

module _ (rt : Runtime) (flow : FlowSpec)
    (finishes : (step : FlowStep) (f : FlowRun) (results : StepResults) (params : Params)
      → Finishes step.name (rt.execute_step step f results params).result) where
  with_flow-Advances :
      (f : FlowRun)
      → Advances flow.steps f.status.steps f.status.steps (with_flow rt f (found flow))
  unfolding with_flow
  with_flow-Advances f =
      if-Advances flow.steps f.status.steps (not_begun f.status.phase) f.status.steps _ _
        (λ c. begin-Adv rt flow f.status.steps finishes f f.status.steps (omega arith))
        (λ c. proceed-Adv rt flow f.status.steps finishes f f.status.steps (omega arith))

  cancel-Advances :
      (f : FlowRun) (msg : Message) (l m : List StepRunStatus)
      → Advances flow.steps l m (cancel_flow_run rt.set_condition rt.now f msg)
  unfolding cancel_flow_run
  cancel-Advances f msg l m = tt

  -- Where the Flow is found, a reconcile that asks to be repeated at once has written a status in
  -- which fewer steps of the Flow are not done than when the FlowRun was read.
  pub reconcile-Advances :
      (f : FlowRun)
      → rt.flow ≡ found flow
      → Advances flow.steps f.status.steps f.status.steps (reconcile rt f)
  unfolding reconcile
  reconcile-Advances f e =
      if-Advances flow.steps f.status.steps
        (is_some rt f.deletion_timestamp && is_running f.status.phase) f.status.steps _ _
        (λ c. cancel-Advances f _ _ _)
        (λ c.
          if-Advances flow.steps f.status.steps
            (is_running f.status.phase && flagged (lookup "kubezap.io/cancel" f.annotations))
            f.status.steps _ _ (λ c'. cancel-Advances f _ _ _)
            (λ c'.
              if-Advances flow.steps f.status.steps (run_terminal f.status.phase) f.status.steps _ _
                (λ t. Quiet-Advances flow.steps _ _ (reconcile_gc rt f) (reconcile_gc-Quiet rt f))
                (λ t.
                  subst (λ r. Advances flow.steps f.status.steps f.status.steps (with_flow rt f r))
                    (sym e) (with_flow-Advances f))))
