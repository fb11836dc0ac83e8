-- ===== src/Operator/Laws.antt =====
-- What Run.antt proves under a condition on executeStep, for the executeStep of the source.
use kubezap_operator.Api.FlowRun.{FlowRun}
use kubezap_operator.Api.Flow.{FlowStep, FlowSpec}
use kubezap_operator.Run.Plan.{found}
use kubezap_operator.Run.Reconcile.Progress.{reconcile-Advances}
use kubezap_operator.Run.Reconcile.Progress.Steps.{Finishes, Advances}
use kubezap_operator.Base.{ℕ, String, ◌≡◌, All}
use kubezap_operator.Run.Plan.{Reply, landed}
use kubezap_operator.Run.Runtime.{
  StepResults, Params, ExecResult, transport_error, exec_error, executed,
}
use kubezap_operator.Run.Reconcile.{reconcile}
use kubezap_operator.Run.Reconcile.Kept.{Named, NamesSteps, Keeps}
use kubezap_operator.Run.Reconcile.Stable.{reconcile-Keeps}
use kubezap_operator.Step.Laws.{Returns, execute_step-Returns}
use kubezap_operator.Operator.{Outside, operator}

Returns-Named : (name : String) (r : ExecResult) → Returns name r → Named name r
Returns-Named name transport_error h = tt
Returns-Named name (exec_error m) h = absurd h
Returns-Named name (executed ss) (named, done) = named

Returns-Finishes : (name : String) (r : ExecResult) → Returns name r → Finishes name r
Returns-Finishes name transport_error h = tt
Returns-Finishes name (exec_error m) h = absurd h
Returns-Finishes name (executed ss) h = h

module _ {ℓ} {Program : Type ℓ} (out : Outside Program) where
  operator-NamesSteps : NamesSteps (operator out)
  unfolding operator
  operator-NamesSteps step run results params =
      Returns-Named step.name _ (execute_step-Returns out.step_runtime step run results params)

  -- Whatever the cluster answers, every status update of one reconcile that reaches the API server
  -- has, for each step that was Succeeded, Failed or Skipped when the FlowRun was read, the very
  -- status that was read.
  pub operator-Keeps :
      (f : FlowRun) (reply : ℕ → Reply)
      → All (Keeps f.status.steps) (landed reply 0 (reconcile (operator out) f))
  operator-Keeps f reply = reconcile-Keeps (operator out) operator-NamesSteps f reply

  operator-Finishes :
      (step : FlowStep) (f : FlowRun) (results : StepResults) (params : Params)
      → Finishes step.name ((operator out).execute_step step f results params).result
  unfolding operator
  operator-Finishes step run results params =
      Returns-Finishes step.name _ (execute_step-Returns out.step_runtime step run results params)

  -- Where the Flow is found, a reconcile that asks to be repeated at once has, as its last status
  -- update, statuses with fewer undone steps of the Flow than when the FlowRun was read.
  pub operator-Advances :
      (flow : FlowSpec) (f : FlowRun)
      → (operator out).flow ≡ found flow
      → Advances flow.steps f.status.steps f.status.steps (reconcile (operator out) f)
  operator-Advances flow f e = reconcile-Advances (operator out) flow operator-Finishes f e
