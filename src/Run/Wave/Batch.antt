-- ===== src/Run/Wave/Batch.antt =====
-- internal/controller/flowrun_controller.go, Reconcile: the steps of a wave run in parallel, and
-- their results are written in one status update. The order in which the goroutines finish does not
-- matter, since each writes its own element of `results`.
pub mod Laws
pub mod Written
use kubezap_operator.Base.{
  Bool, true, false, ◌&&◌, not, Option, none, some, List, [], ◌∷◌, map, if◌then◌else◌,
}
use kubezap_operator.Base.Int.{ℤ, pos, ltb_ℤ}
use kubezap_operator.Api.Flow.{FlowStep, FlowSpec}
use kubezap_operator.Api.FlowRun.{
  FlowRun, StepRunStatus, StepPhase, Message, running, failed, empty, step_failed, blank_status,
  step_terminal,
}
use kubezap_operator.Run.Steps.{upsert_step_status}
use kubezap_operator.Run.Plan.{Plan, return, write, status_update, requeue, requeue_after}
use kubezap_operator.Run.Finish.{fail_flow_run, milliseconds}
use kubezap_operator.Run.Runtime.{
  Runtime, StepResults, Params, ExecResult, transport_error, exec_error, executed,
}
use kubezap_operator.Run.Wait.{continues, with_steps}

pub record StepResult : Type 0 where
  pub status : StepRunStatus
  pub fail_fatal : Bool
  pub fail_msg : Message
  pub duration : ℤ
  pub requeue_after : ℤ

-- `executorTransportBackoff`: five seconds.
abbrev pub transport_backoff : ℤ
transport_backoff = pos 5000000000

abbrev pub is_failed : StepPhase → Bool
is_failed failed = true
is_failed _ = false

-- The body of one goroutine.
unfoldable pub step_result : FlowSpec → FlowStep → ExecResult → ℤ → StepResult
step_result flow step transport_error duration = record {
  status = blank_status step.name running;
  fail_fatal = false;
  fail_msg = empty;
  duration = duration;
  requeue_after = transport_backoff;
}
step_result flow step (exec_error m) duration = record {
  status = record (blank_status step.name failed) { message = m };
  fail_fatal = false;
  fail_msg = empty;
  duration = duration;
  requeue_after = pos 0;
}
step_result flow step (executed ss) duration =
    let fatal = is_failed ss.phase && not (continues step flow) in
    record {
      status = ss;
      fail_fatal = fatal;
      fail_msg = if fatal then step_failed step.name ss.message else empty;
      duration = duration;
      requeue_after = pos 0;
    }

-- The largest requeue delay of the results.
unfoldable pub transport_requeue : ℤ → List StepResult → ℤ
transport_requeue longest [] = longest
transport_requeue longest (r ∷ rest) =
    transport_requeue (if ltb_ℤ longest r.requeue_after then r.requeue_after else longest) rest

abbrev pub timed : StepResult → StepRunStatus
timed r =
    if step_terminal r.status.phase
    then record r.status { duration_millis = some (milliseconds r.duration) }
    else r.status

unfoldable pub apply_results : List StepRunStatus → List StepResult → List StepRunStatus
apply_results statuses [] = statuses
apply_results statuses (r ∷ rest) = apply_results (upsert_step_status statuses (timed r)) rest

-- The message of the first fatal failure.
unfoldable pub fatal_msg : List StepResult → Option Message
fatal_msg [] = none
fatal_msg (r ∷ rest) = let later = fatal_msg rest in if r.fail_fatal then some r.fail_msg else later

module _ (rt : Runtime) (flow : FlowSpec) (results : StepResults) (params : Params) where
  open rt use {now, set_condition, execute_step}

  abbrev pub run_one : FlowRun → FlowStep → StepResult
  run_one f step =
      let e = execute_step step f results params in step_result flow step e.result e.duration

  unfoldable pub run_all : FlowRun → List FlowStep → List StepResult
  run_all f wave = map (run_one f) wave

  unfoldable pub after_wave : FlowRun → Option Message → Plan
  after_wave f none = return requeue
  after_wave f (some m) = fail_flow_run set_condition now f m

  unfoldable pub run_wave : FlowRun → List FlowStep → Plan
  unfolding run_all after_wave
  run_wave f wave =
      let rs = run_all f wave in
      let delay = transport_requeue (pos 0) rs in
      let g = with_steps f (apply_results f.status.steps rs) in
      if ltb_ℤ (pos 0) delay
      then return (requeue_after delay)
      else write (status_update g) (after_wave g (fatal_msg rs))
