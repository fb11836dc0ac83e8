-- ===== src/Operator.antt =====
-- FlowRunReconciler with its own evaluateWhen, resolveFlowParams and executeStep: the settings, the
-- clock and the answers of the outside are all that is left open.
pub mod Laws
pub mod Rest
mod Tests
use kubezap_operator.Base.{ℕ, String, Option, List, Bool}
use kubezap_operator.Base.Int.{ℤ}
use kubezap_operator.Base.Assoc.{Assoc}
use kubezap_operator.Api.Flow.{FlowStep, FlowSpec}
use kubezap_operator.Api.Trigger.{FlowRunGcPolicy}
use kubezap_operator.Api.FlowRun.{FlowRun, FlowRunPhase}
use kubezap_operator.Run.Plan.{Get}
use kubezap_operator.Run.Finish.{SetCondition}
use kubezap_operator.Run.Runtime.{Runtime}
use kubezap_operator.Template.Params.{resolve_flow_params}
use kubezap_operator.When.{Activation, Compiled, Evaluated, evaluate_when}
use kubezap_operator.Step.{StepRuntime, execute_step}

pub record Outside {ℓ} (Program : Type ℓ) : Type ℓ where
  pub execution_timeout : ℤ
  pub ttl_succeeded : ℤ
  pub ttl_failed : ℤ
  pub set_condition : SetCondition
  pub parse_duration : String → Option ℤ
  pub cel_env_ready : Bool
  pub disable_cel_cache : Bool
  pub compile : String → Compiled Program
  pub eval : Program → Activation → Evaluated
  -- The programs that earlier calls have cached.
  pub cel_cache : Assoc Program
  pub step_runtime : StepRuntime
  pub step_duration : FlowStep → ℤ
  pub flow : Get FlowSpec
  pub refetch : Get FlowRun
  pub get_trigger : ℕ → String → Get (Option FlowRunGcPolicy)
  pub list_runs : String → FlowRunPhase → Get (List FlowRun)

unfoldable pub operator {ℓ} : {Program : Type ℓ} → Outside Program → Runtime
operator out = record {
  now = out.step_runtime.now;
  execution_timeout = out.execution_timeout;
  ttl_succeeded = out.ttl_succeeded;
  ttl_failed = out.ttl_failed;
  set_condition = out.set_condition;
  parse_duration = out.parse_duration;
  evaluate_when = λ exprs results statuses event params.
      (evaluate_when out.compile out.eval out.disable_cel_cache out.step_runtime.lib
        out.cel_env_ready exprs results statuses event params out.cel_cache).0;
  resolve_params = λ decls values results event.
      resolve_flow_params out.step_runtime.lib results event decls values;
  execute_step = λ step run results params. record {
    result = execute_step out.step_runtime step run results params;
    duration = out.step_duration step;
  };
  flow = out.flow;
  refetch = out.refetch;
  get_trigger = out.get_trigger;
  list_runs = out.list_runs;
}
