-- ===== src/Step/Laws.antt =====
-- What executeStep returns: a transport error, or a status of the step's own name that is done.
use kubezap_operator.Base.{String, ◌≡◌, refl, true, Option, none, some}
use kubezap_operator.Api.Flow.{
  FlowStep, ActionType, http, transform, publish, wait, other, TransformAction,
}
use kubezap_operator.Api.FlowRun.{FlowRun, TriggerData, step_terminal}
use kubezap_operator.Run.Runtime.{
  StepResults, Params, ExecResult, transport_error, exec_error, executed,
}
use kubezap_operator.Step.Http.{HttpResult, http_ok, http_failed, http_unreachable}
use kubezap_operator.Step.{
  StepRuntime, PublishResult, published, publish_failed, http_status, transform_status,
  publish_status, run_action, execute_step,
}

-- No other error than that of the transport; else a status of that name, which is done.
abbrev pub Returns : String → ExecResult → Type 0
Returns name transport_error = Unit
Returns name (exec_error m) = ⊥
Returns name (executed ss) = (ss.name ≡ name) × (step_terminal ss.phase ≡ true)

module _ (rt : StepRuntime) where
  http-Returns : (step : FlowStep) (r : HttpResult) → Returns step.name (http_status rt step r)
  unfolding http_status
  http-Returns step (http_ok results m n) = (refl, refl)
  http-Returns step (http_failed m n) = (refl, refl)
  http-Returns step (http_unreachable m n) = tt

  transform-Returns :
      (step : FlowStep) (results : StepResults) (event : Option TriggerData) (params : Params)
      (t : Option TransformAction)
      → Returns step.name (transform_status rt step results event params t)
  unfolding transform_status
  transform-Returns step results event params none = (refl, refl)
  transform-Returns step results event params (some t) = (refl, refl)

  publish-Returns :
      (step : FlowStep) (r : PublishResult) → Returns step.name (publish_status rt step r)
  unfolding publish_status
  publish-Returns step (published results n) = (refl, refl)
  publish-Returns step (publish_failed m n) = (refl, refl)

  action-Returns :
      (type : ActionType) (step : FlowStep) (run : FlowRun) (results : StepResults)
      (params : Params)
      → Returns step.name (run_action rt type step run results params)
  unfolding run_action
  action-Returns http step run results params = http-Returns step _
  action-Returns transform step run results params = transform-Returns step results _ params _
  action-Returns publish step run results params = publish-Returns step _
  action-Returns wait step run results params = (refl, refl)
  action-Returns (other name) step run results params = (refl, refl)

  -- executeStep returns an error only where the executor cannot be reached; else it returns a status
  -- of the step's own name that is Succeeded, Failed or Skipped.
  pub execute_step-Returns :
      (step : FlowStep) (run : FlowRun) (results : StepResults) (params : Params)
      → Returns step.name (execute_step rt step run results params)
  unfolding execute_step
  execute_step-Returns step run results params =
      action-Returns step.action.type step run results params
