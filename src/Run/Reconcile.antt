-- ===== src/Run/Reconcile.antt =====
-- internal/controller/flowrun_controller.go: FlowRunReconciler.Reconcile, cut at its early returns.
pub mod Transitions
pub mod Phases
pub mod Kept
pub mod Stuck
pub mod Success
pub mod Stable
pub mod Progress
use kubezap_operator.Base.{
  ℕ, String, Bool, true, false, ◌&&◌, ◌||◌, not, Option, none, some, List, [], ◌∷◌, ◌++◌, ◌==◌,
  is_empty, contains_string, if◌then◌else◌,
}
use kubezap_operator.Base.Int.{ℤ, pos, ◌-ℤ◌, ltb_ℤ}
use kubezap_operator.Base.Assoc.{insert, lookup}
use kubezap_operator.Api.Flow.{FlowStep, FlowSpec}
use kubezap_operator.Api.FlowRun.{
  FlowRun, FlowRunPhase, StepRunStatus, StepPhase, Message, flow_not_found, timeout_exceeded,
  deleted_while_running, cancelled_by_annotation, flow_run_running, completed, step_failed,
  run_terminal,
}
use kubezap_operator.Run.Plan.{
  Get, found, not_found, unavailable, Plan, return, write, status_update, metadata_update, done,
  requeue, requeue_after, error,
}
use kubezap_operator.Run.Finish.{
  executing_finalizer, phase_label, ran_for, set_flow_run_condition, without_finalizer,
  fail_flow_run, cancel_flow_run,
}
use kubezap_operator.Run.Runtime.{Runtime, Params, ParamResult, unresolved, resolved}
use kubezap_operator.Run.Wait.{continues, run_wait}
use kubezap_operator.Run.Wave.{step_results, all_terminal, any_running, wave_steps, first_wait}
use kubezap_operator.Run.Wave.Inline.{inline_loop}
use kubezap_operator.Run.Wave.Batch.{run_wave}
use kubezap_operator.Run.Gc.{flagged, reconcile_gc}

abbrev pub is_running : FlowRunPhase → Bool
is_running FlowRunPhase.running = true
is_running _ = false

-- `Phase == "" || Phase == Pending`
abbrev pub not_begun : FlowRunPhase → Bool
not_begun FlowRunPhase.unset = true
not_begun FlowRunPhase.pending = true
not_begun _ = false

abbrev step_has_failed : StepPhase → Bool
step_has_failed StepPhase.failed = true
step_has_failed _ = false

-- The first step of the status's name whose failure is not continued after.
unfoldable pub blocks : FlowSpec → StepRunStatus → List FlowStep → Bool
blocks flow s [] = false
blocks flow s (step ∷ rest) =
    (step.name == s.name && not (continues step flow)) || blocks flow s rest

-- The message of the first failed status that fails the FlowRun.
unfoldable pub blocking_failure : FlowSpec → List StepRunStatus → Option Message
unfolding blocks
blocking_failure flow [] = none
blocking_failure flow (s ∷ rest) =
    let later = blocking_failure flow rest in
    if step_has_failed s.phase && blocks flow s flow.steps
    then some (step_failed s.name s.message)
    else later

module _ (rt : Runtime) where
  open rt use {now, execution_timeout, set_condition, resolve_params, refetch}

  -- The FlowRun that the final status update sends, and the metadata update after it.
  unfoldable pub succeeded_run : FlowRun → FlowRun
  unfolding set_flow_run_condition
  succeeded_run f =
      let g =
        set_flow_run_condition set_condition now
          (record f {
            status = record f.status { phase = FlowRunPhase.succeeded; completion_time = some now };
          })
          (record {
            type = "Succeeded";
            status = true;
            reason = "FlowRunSucceeded";
            message = completed;
            last_transition_time = some now;
          }) in
      record g {
        status = record g.status {
          duration_millis = ran_for now g.status.start_time g.status.duration_millis;
        };
      }

  succeed : FlowRun → Plan
  unfolding succeeded_run without_finalizer
  succeed f =
      let g = succeeded_run f in
      write (status_update g) (
        write
          (metadata_update
            (without_finalizer (record g { labels = insert phase_label "Succeeded" g.labels })))
          (return done))

  conclude : FlowRun → Option Message → Plan
  unfolding succeed
  conclude f none = succeed f
  conclude f (some m) = fail_flow_run set_condition now f m

  -- "All steps done."
  unfoldable pub complete : FlowSpec → FlowRun → Plan
  unfolding conclude blocking_failure
  complete flow f = conclude f (blocking_failure flow f.status.steps)

  after_refetch : Get FlowRun → Plan
  after_refetch (found f) = return requeue
  after_refetch not_found = return done
  after_refetch unavailable = return error

  run_ready : FlowSpec → Params → FlowRun → List FlowStep → Option FlowStep → Plan
  run_ready flow params f wave (some step) = run_wait rt flow f step
  run_ready flow params f wave none = run_wave rt flow (step_results f.status.steps) params f wave

  -- After the inline transitions: persist and requeue, or run the wave, or wait, or conclude.
  unfoldable pub after_inline : FlowSpec → Params → Bool → FlowRun → Bool → Plan
  unfolding after_refetch run_ready
  after_inline flow params busy f skipped_any =
      let wave = wave_steps flow f.status.steps in
      if skipped_any
      then write (status_update f) (after_refetch refetch)
      else if not (is_empty wave)
      then run_ready flow params f wave (first_wait wave)
      else if busy
      then return (requeue_after (pos 5000000000))
      else complete flow f

  unfoldable pub advance : FlowSpec → FlowRun → ParamResult → Plan
  advance flow f (unresolved m) = fail_flow_run set_condition now f m
  advance flow f (resolved params) =
      if all_terminal flow f.status.steps
      then complete flow f
      else inline_loop rt flow (step_results f.status.steps) params f flow.steps false
          (after_inline flow params (any_running flow f.status.steps))

  -- `ExecutionTimeout > 0 && StartTime != nil && time.Since(StartTime) > ExecutionTimeout`
  abbrev pub timed_out : Option ℤ → Bool
  timed_out none = false
  timed_out (some start) = ltb_ℤ (pos 0) execution_timeout && ltb_ℤ execution_timeout (now -ℤ start)

  unfoldable pub proceed : FlowSpec → FlowRun → Plan
  proceed flow f =
      if timed_out f.status.start_time
      then fail_flow_run set_condition now f timeout_exceeded
      else advance flow f (
          resolve_params flow.params f.spec.params (step_results f.status.steps)
            f.spec.trigger_data)

  abbrev pub started : FlowRun → FlowRun
  started f =
      set_flow_run_condition set_condition now
        (record f {
          status = record f.status { phase = FlowRunPhase.running; start_time = some now };
        })
        (record {
          type = "Running";
          status = true;
          reason = "FlowRunRunning";
          message = flow_run_running;
          last_transition_time = some now;
        })

  -- "Transition Pending → Running."
  unfoldable pub begin : FlowSpec → FlowRun → Plan
  unfolding set_flow_run_condition
  begin flow f =
      if contains_string f.finalizers executing_finalizer
      then write (status_update (started f)) (proceed flow (started f))
      else let g = record f { finalizers = f.finalizers ++ (executing_finalizer ∷ []) } in
        write (metadata_update g) (write (status_update (started g)) (proceed flow (started g)))

  unfoldable pub with_flow : FlowRun → Get FlowSpec → Plan
  with_flow f (found flow) = if not_begun f.status.phase then begin flow f else proceed flow f
  with_flow f not_found = fail_flow_run set_condition now f (flow_not_found f.spec.flow_ref)
  with_flow f unavailable = return error

  abbrev pub is_some : Option ℤ → Bool
  is_some none = false
  is_some (some t) = true

  unfoldable pub reconcile : FlowRun → Plan
  reconcile f =
      if is_some f.deletion_timestamp && is_running f.status.phase
      then cancel_flow_run set_condition now f deleted_while_running
      else if is_running f.status.phase && flagged (lookup "kubezap.io/cancel" f.annotations)
      then cancel_flow_run set_condition now f cancelled_by_annotation
      else if run_terminal f.status.phase
      then reconcile_gc rt f
      else with_flow f rt.flow

  -- The FlowRun is read first; one that is gone is no error.
  unfoldable pub reconcile_request : Get FlowRun → Plan
  unfolding reconcile
  reconcile_request (found f) = reconcile f
  reconcile_request not_found = return done
  reconcile_request unavailable = return error
