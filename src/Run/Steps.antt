-- ===== src/Run/Steps.antt =====
-- internal/controller/flowrun_controller.go: the list of step statuses (findStepStatus,
-- upsertStepStatus, findFlowStep) and the tests that decide what may run (dependenciesMet,
-- allDepsSkipped). `nil` is `none`.
pub mod Laws
pub mod Deps
use kubezap_operator.Base.{
  String, Bool, true, false, ◌&&◌, ◌||◌, Option, none, some, List, [], ◌∷◌, is_empty, ◌==◌,
  if◌then◌else◌,
}
use kubezap_operator.Api.Flow.{FlowStep, OnFailureAction, action_continues}
use kubezap_operator.Api.FlowRun.{
  StepPhase, StepRunStatus, unset, pending, running, succeeded, failed, skipped, waiting,
}

unfoldable pub find_step_status : List StepRunStatus → String → Option StepRunStatus
find_step_status [] name = none
find_step_status (s ∷ rest) name = if s.name == name then some s else find_step_status rest name

unfoldable pub upsert_step_status : List StepRunStatus → StepRunStatus → List StepRunStatus
upsert_step_status [] s = s ∷ []
upsert_step_status (t ∷ rest) s =
    if t.name == s.name then s ∷ rest else t ∷ upsert_step_status rest s

unfoldable pub find_flow_step : List FlowStep → String → Option FlowStep
find_flow_step [] name = none
find_flow_step (s ∷ rest) name = if s.name == name then some s else find_flow_step rest name

-- `depStep != nil && depStep.OnFailure == Continue`
abbrev pub found_continues : Option FlowStep → Bool
found_continues none = false
found_continues (some step) = action_continues step.on_failure

-- One round of the loop of `dependenciesMet`: the dependency allows the step to proceed.
abbrev pub dep_allows : Option StepRunStatus → Option FlowStep → Bool → Bool
dep_allows none step policy = false
dep_allows (some s) step policy = elim s.phase [
  | succeeded ↦ true
  | skipped ↦ true
  | failed ↦ policy || found_continues step
  | _ ↦ false
]

unfoldable pub deps_met : List String → List StepRunStatus → List FlowStep → Bool → Bool
deps_met [] statuses all_steps policy = true
deps_met (dep ∷ deps) statuses all_steps policy =
    dep_allows (find_step_status statuses dep) (find_flow_step all_steps dep) policy
    && deps_met deps statuses all_steps policy

unfoldable pub dependencies_met : FlowStep → List StepRunStatus → List FlowStep → Bool → Bool
unfolding deps_met
dependencies_met step statuses all_steps policy = deps_met step.run_after statuses all_steps policy

abbrev pub dep_skipped : Option StepRunStatus → Bool
dep_skipped none = false
dep_skipped (some s) = elim s.phase [ skipped ↦ true | _ ↦ false ]

unfoldable pub every_skipped : List String → List StepRunStatus → Bool
every_skipped [] statuses = true
every_skipped (dep ∷ deps) statuses =
    dep_skipped (find_step_status statuses dep) && every_skipped deps statuses

unfoldable pub all_deps_skipped : FlowStep → List StepRunStatus → Bool
unfolding every_skipped
all_deps_skipped step statuses =
    if is_empty step.run_after then false else every_skipped step.run_after statuses
