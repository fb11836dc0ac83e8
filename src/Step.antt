-- ===== src/Step.antt =====
-- internal/controller/flowrun_controller.go: executeStep, which runs one step that is not a wait.
pub mod Retry
pub mod Http
pub mod Laws
pub mod Tests
use kubezap_operator.Base.{ℕ, String, Option, none, some, List, [], ◌∷◌}
use kubezap_operator.Base.Int.{ℤ}
use kubezap_operator.Base.Assoc.{Assoc, insert}
use kubezap_operator.Api.Flow.{
  FlowStep, ActionType, http, transform, publish, wait, other, TransformAction,
}
use kubezap_operator.Api.FlowRun.{
  FlowRun, StepRunStatus, ResultValue, TriggerData, Message, running, succeeded, failed,
  no_transform, unknown_action, blank_status,
}
use kubezap_operator.Run.Runtime.{StepResults, Params, ExecResult, transport_error, executed}
use kubezap_operator.Template.Library.{Library}
use kubezap_operator.Template.Interpolate.{substitute_vars}
use kubezap_operator.Step.Http.{
  HttpRuntime, HttpResult, http_ok, http_failed, http_unreachable, execute_http_step,
}

-- `(map[string]string, int, error)` of executePublishStep.
pub data PublishResult : Type 0 where
  published : Assoc String → ℕ → PublishResult
  publish_failed : Message → ℕ → PublishResult

pub record StepRuntime : Type 0 where
  pub now : ℤ
  pub lib : Library
  pub http : HttpRuntime
  pub publish_step : FlowRun → FlowStep → StepResults → Params → PublishResult

unfoldable pub maps_to_results : Assoc String → List ResultValue
maps_to_results [] = []
maps_to_results ((name, value) ∷ rest) =
    record { name = name; value = value } ∷ maps_to_results rest

-- The attempts made, where there were any, else the 1 of the new status.
attempts_or : ℕ → ℕ
attempts_or ℕ.zero = 1
attempts_or (ℕ.suc n) = ℕ.suc n

action_name : ActionType → String
action_name http = "http"
action_name transform = "transform"
action_name publish = "publish"
action_name wait = "wait"
action_name (other name) = name

module _ (rt : StepRuntime) where
  open rt use {now, lib, publish_step}

  -- The status that every step starts with.
  abbrev pub begun : FlowStep → StepRunStatus
  begun step = record (blank_status step.name running) { start_time = some now; attempts = 1 }

  abbrev ended : FlowStep → ℕ → StepRunStatus
  ended step attempts = record (begun step) { completion_time = some now; attempts = attempts }

  http_status : FlowStep → HttpResult → ExecResult
  unfolding attempts_or maps_to_results
  http_status step (http_unreachable m attempts) = transport_error
  http_status step (http_failed m attempts) =
      executed (record (ended step (attempts_or attempts)) { phase = failed; message = m })
  http_status step (http_ok results m attempts) =
      executed (record (ended step (attempts_or attempts)) {
        phase = succeeded;
        message = m;
        results = some (maps_to_results results);
      })

  unfoldable pub substituted :
      StepResults → Option TriggerData → Params → Assoc String → Assoc String → Assoc String
  substituted results event params acc [] = acc
  substituted results event params acc ((key, text) ∷ rest) =
      substituted results event params
        (insert key (substitute_vars lib text results event params) acc) rest

  transform_status :
      FlowStep → StepResults → Option TriggerData → Params → Option TransformAction → ExecResult
  unfolding substituted maps_to_results
  transform_status step results event params none =
      executed (record (ended step 1) { phase = failed; message = no_transform step.name })
  transform_status step results event params (some t) = executed (record (ended step 1) {
    phase = succeeded;
    results = some (maps_to_results (substituted results event params [] t.mappings));
  })

  publish_status : FlowStep → PublishResult → ExecResult
  unfolding attempts_or maps_to_results
  publish_status step (publish_failed m attempts) =
      executed (record (ended step (attempts_or attempts)) { phase = failed; message = m })
  publish_status step (published results attempts) =
      executed (record (ended step (attempts_or attempts)) {
        phase = succeeded;
        results = some (maps_to_results results);
      })

  run_action : ActionType → FlowStep → FlowRun → StepResults → Params → ExecResult
  unfolding http_status transform_status publish_status action_name
  run_action http step run results params =
      http_status step (execute_http_step lib rt.http step results run.spec.trigger_data params)
  run_action transform step run results params =
      transform_status step results run.spec.trigger_data params step.action.transform
  run_action publish step run results params =
      publish_status step (publish_step run step results params)
  run_action type step run results params =
      executed
        (record (ended step 1) { phase = failed; message = unknown_action (action_name type) })

  unfoldable pub execute_step : FlowStep → FlowRun → StepResults → Params → ExecResult
  unfolding run_action
  execute_step step run results params = run_action step.action.type step run results params
