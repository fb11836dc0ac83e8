-- ===== src/Run/Runtime.antt =====
-- What one call of FlowRunReconciler.Reconcile takes from outside: the clock, the operator's
-- settings, what the API server answers to its reads, and the parts of the controller that it calls
-- and that other modules model (evaluateWhen, resolveFlowParams, executeStep). The instants that one
-- call reads are taken to be one, `now`.
use kubezap_operator.Base.{ℕ, String, Bool, Option, List}
use kubezap_operator.Base.Int.{ℤ}
use kubezap_operator.Base.Assoc.{Assoc}
use kubezap_operator.Api.Flow.{FlowStep, FlowSpec, ParamDeclaration, ParamValue}
use kubezap_operator.Api.Trigger.{FlowRunGcPolicy}
use kubezap_operator.Api.FlowRun.{FlowRun, FlowRunPhase, Message, StepRunStatus, TriggerData}
use kubezap_operator.Run.Plan.{Get}
use kubezap_operator.Run.Finish.{SetCondition}

-- stepName → resultName → value
abbrev pub StepResults : Type 0
StepResults = Assoc (Assoc String)

abbrev pub Params : Type 0
Params = Assoc String

-- `(bool, error)` of evaluateWhen.
pub data WhenResult : Type 0 where
  when_fails : Message → WhenResult
  holds : Bool → WhenResult

-- `(map[string]string, error)` of resolveFlowParams.
pub data ParamResult : Type 0 where
  unresolved : Message → ParamResult
  resolved : Params → ParamResult

-- `(*StepRunStatus, error)` of executeStep: an executorTransportError, another error, or a status.
pub data ExecResult : Type 0 where
  transport_error : ExecResult
  exec_error : Message → ExecResult
  executed : StepRunStatus → ExecResult

pub record Executed : Type 0 where
  pub result : ExecResult
  pub duration : ℤ

pub record Runtime : Type 0 where
  pub now : ℤ
  pub execution_timeout : ℤ
  pub ttl_succeeded : ℤ
  pub ttl_failed : ℤ
  pub set_condition : SetCondition
  pub parse_duration : String → Option ℤ
  pub evaluate_when :
      List String → StepResults → List StepRunStatus → Option TriggerData → Params → WhenResult
  pub resolve_params :
      List ParamDeclaration → List ParamValue → StepResults → Option TriggerData → ParamResult
  pub execute_step : FlowStep → FlowRun → StepResults → Params → Executed
  pub flow : Get FlowSpec
  pub refetch : Get FlowRun
  -- `Spec.FlowRunGC` of the Trigger of that name, at the i-th read.
  pub get_trigger : ℕ → String → Get (Option FlowRunGcPolicy)
  -- The FlowRuns of the namespace with that trigger label and phase label.
  pub list_runs : String → FlowRunPhase → Get (List FlowRun)
