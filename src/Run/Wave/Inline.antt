-- ===== src/Run/Wave/Inline.antt =====
-- internal/controller/flowrun_controller.go, Reconcile: the loop of transitions that need no IO.
use kubezap_operator.Base.{Bool, true, false, not, some, List, [], ◌∷◌, is_empty, if◌then◌else◌}
use kubezap_operator.Api.Flow.{FlowStep, FlowSpec, policy_continues}
use kubezap_operator.Api.FlowRun.{
  FlowRun, StepRunStatus, StepPhase, Message, skipped, failed, deps_skipped, when_false, when_error,
  step_when_error, blank_status,
}
use kubezap_operator.Run.Steps.{find_step_status, dependencies_met, all_deps_skipped}
use kubezap_operator.Run.Plan.{Plan, write, status_update}
use kubezap_operator.Run.Finish.{fail_flow_run}
use kubezap_operator.Run.Runtime.{Runtime, StepResults, Params, WhenResult, when_fails, holds}
use kubezap_operator.Run.Wait.{continues, put}
use kubezap_operator.Run.Wave.{is_fresh}

-- What one round of the loop decides about its step.
pub data Decision : Type 0 where
  leave : Decision
  skip : StepRunStatus → Decision
  fail_on : StepRunStatus → Decision
  fail_stop : StepRunStatus → Message → Decision

module _ (rt : Runtime) (flow : FlowSpec) (results : StepResults) (params : Params) where
  open rt use {now, set_condition, evaluate_when}

  abbrev pub closed_status : FlowStep → StepPhase → Message → StepRunStatus
  closed_status step phase msg = record (blank_status step.name phase) {
    message = msg;
    completion_time = some now;
  }

  unfoldable pub when_decision : FlowStep → WhenResult → Decision
  when_decision step (when_fails m) =
      if continues step flow
      then fail_on (closed_status step failed (when_error m))
      else fail_stop (closed_status step failed (when_error m)) (step_when_error step.name m)
  when_decision step (holds true) = leave
  when_decision step (holds false) = skip (closed_status step skipped when_false)

  unfoldable pub decide : FlowRun → FlowStep → Decision
  unfolding when_decision
  decide f step =
      if not
        (dependencies_met step f.status.steps flow.steps (policy_continues flow.failure_policy))
      then leave
      else if not (is_fresh (find_step_status f.status.steps step.name))
      then leave
      else if all_deps_skipped step f.status.steps
      then skip (closed_status step skipped deps_skipped)
      else if is_empty step.when
      then leave
      else when_decision step
          (evaluate_when step.when results f.status.steps f.spec.trigger_data params)

  -- What the round does, and the rest of the loop, `again f skipped_any`.
  unfoldable pub round : FlowRun → Decision → Bool → (FlowRun → Bool → Plan) → Plan
  round f leave skipped_any again = again f skipped_any
  round f (skip s) skipped_any again = again (put f s) true
  round f (fail_on s) skipped_any again = write (status_update (put f s)) (again (put f s) true)
  round f (fail_stop s m) skipped_any again =
      write (status_update (put f s)) (fail_flow_run set_condition now (put f s) m)

  -- The loop, and what follows it: `next f skipped_any`.
  unfoldable pub inline_loop : FlowRun → List FlowStep → Bool → (FlowRun → Bool → Plan) → Plan
  unfolding round
  inline_loop f [] skipped_any next = next f skipped_any
  inline_loop f (step ∷ rest) skipped_any next =
      round f (decide f step) skipped_any (λ g c. inline_loop g rest c next)
