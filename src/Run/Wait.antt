-- ===== src/Run/Wait.antt =====
-- internal/controller/flowrun_controller.go: executeWaitStep, and the branch of Reconcile that runs
-- a wait step as a barrier.
pub mod Laws
use kubezap_operator.Base.{String, Bool, Option, none, some, List, if◌then◌else◌, ◌||◌}
use kubezap_operator.Base.Int.{ℤ, pos, ◌+ℤ◌, ◌-ℤ◌, ltb_ℤ}
use kubezap_operator.Api.Flow.{FlowStep, FlowSpec, WaitAction, policy_continues, action_continues}
use kubezap_operator.Api.FlowRun.{
  FlowRun, StepRunStatus, Message, waiting, succeeded, failed, unset, no_wait_config,
  invalid_duration, step_failed, blank_status,
}
use kubezap_operator.Run.Steps.{find_step_status, upsert_step_status}
use kubezap_operator.Run.Plan.{Plan, return, write, status_update, requeue, requeue_after}
use kubezap_operator.Run.Finish.{fail_flow_run}
use kubezap_operator.Run.Runtime.{Runtime}

-- `(time.Duration, error)`, with the status that the call leaves behind its pointer.
pub data WaitResult : Type 0 where
  wait_error : Message → WaitResult
  remaining : ℤ → StepRunStatus → WaitResult

abbrev pub resume_of : Option StepRunStatus → Option ℤ
resume_of none = none
resume_of (some s) = s.resume_after

abbrev pub start_of : Option StepRunStatus → Option ℤ
start_of none = none
start_of (some s) = s.start_time

-- ResumeAfter set by an earlier reconcile, or the first time that the step is reached.
wait_until : ℤ → ℤ → Option ℤ → StepRunStatus → WaitResult
wait_until now duration (some resume) ss =
    if ltb_ℤ now resume
    then remaining (resume -ℤ now) (record ss { resume_after = some resume; phase = waiting })
    else remaining (pos 0) ss
wait_until now duration none ss =
    remaining duration (record ss { resume_after = some (now +ℤ duration); phase = waiting })

parsed_wait : ℤ → String → String → Option ℤ → Option ℤ → StepRunStatus → WaitResult
unfolding wait_until
parsed_wait now name text none resume ss = wait_error (invalid_duration name text)
parsed_wait now name text (some duration) resume ss = wait_until now duration resume ss

wait_action :
    ℤ → (String → Option ℤ) → String → Option WaitAction → Option ℤ → StepRunStatus → WaitResult
unfolding parsed_wait
wait_action now parse name none resume ss = wait_error (no_wait_config name)
wait_action now parse name (some w) resume ss =
    parsed_wait now name w.duration (parse w.duration) resume ss

unfoldable pub execute_wait_step :
    ℤ → (String → Option ℤ) → List StepRunStatus → FlowStep → StepRunStatus → WaitResult
unfolding wait_action
execute_wait_step now parse statuses step ss =
    wait_action now parse step.name step.action.wait
      (resume_of (find_step_status statuses step.name)) ss

-- `step.OnFailure == Continue || flow.Spec.FailurePolicy == Continue`
abbrev pub continues : FlowStep → FlowSpec → Bool
continues step flow = action_continues step.on_failure || policy_continues flow.failure_policy

abbrev pub with_steps : FlowRun → List StepRunStatus → FlowRun
with_steps f steps = record f { status = record f.status { steps = steps } }

abbrev pub put : FlowRun → StepRunStatus → FlowRun
put f s = with_steps f (upsert_step_status f.status.steps s)

-- `startTime`: now, or the start that the step's status has.
abbrev start_or : ℤ → Option ℤ → ℤ
start_or now none = now
start_or now (some t) = t

abbrev pub wait_status : ℤ → List StepRunStatus → FlowStep → StepRunStatus
wait_status now statuses step = record (blank_status step.name unset) {
  start_time = some (start_or now (start_of (find_step_status statuses step.name)));
  attempts = 1;
}

module _ (rt : Runtime) (flow : FlowSpec) where
  open rt use {now, set_condition, parse_duration}

  abbrev pub failed_wait : FlowRun → FlowStep → Message → StepRunStatus
  failed_wait f step m = record (wait_status now f.status.steps step) {
    phase = failed;
    message = m;
    completion_time = some now;
  }

  unfoldable pub finish_wait : FlowRun → FlowStep → WaitResult → Plan
  finish_wait f step (wait_error m) =
      let g = put f (failed_wait f step m) in
      write (status_update g) (
        if continues step flow
        then return requeue
        else fail_flow_run set_condition now g (step_failed step.name m))
  finish_wait f step (remaining d ss) =
      if ltb_ℤ (pos 0) d
      then write (status_update (put f ss)) (return (requeue_after d))
      else write
          (status_update (put f (record ss { phase = succeeded; completion_time = some now })))
          (return requeue)

  abbrev pub waited : FlowRun → FlowStep → WaitResult
  waited f step =
      execute_wait_step now parse_duration f.status.steps step (wait_status now f.status.steps step)

  unfoldable pub run_wait : FlowRun → FlowStep → Plan
  unfolding finish_wait
  run_wait f step = finish_wait f step (waited f step)
