-- ===== src/Run/Wave.antt =====
-- internal/controller/flowrun_controller.go, Reconcile: which steps are ready, the transitions that
-- need no IO (cascade skips, `when` conditions), and one wave of steps.
pub mod Inline
pub mod Ready
pub mod Batch
use kubezap_operator.Base.{
  String, Bool, true, false, ◌&&◌, ◌||◌, Option, none, some, List, [], ◌∷◌, all, any, if◌then◌else◌,
}
use kubezap_operator.Base.Assoc.{Assoc, insert}
use kubezap_operator.Api.Flow.{FlowStep, FlowSpec, is_wait, policy_continues}
use kubezap_operator.Api.FlowRun.{
  StepPhase, StepRunStatus, ResultValue, succeeded, skipped, running, waiting, step_terminal,
  step_unstarted,
}
use kubezap_operator.Run.Steps.{find_step_status, dependencies_met}
use kubezap_operator.Run.Runtime.{StepResults}

-- `m[r.Name] = r.Value` over the results.
results_from : Assoc String → List ResultValue → Assoc String
results_from m [] = m
results_from m (r ∷ rest) = results_from (insert r.name r.value m) rest

unfoldable pub results_to_map : List ResultValue → Assoc String
unfolding results_from
results_to_map results = results_from [] results

-- `ss.Phase == Succeeded || ss.Phase == Skipped`
abbrev has_output : StepPhase → Bool
has_output succeeded = true
has_output skipped = true
has_output _ = false

add_results : StepResults → String → Bool → Option (List ResultValue) → StepResults
add_results m name true (some results) = insert name (results_to_map results) m
add_results m name _ _ = m

results_of : StepResults → List StepRunStatus → StepResults
unfolding add_results
results_of m [] = m
results_of m (s ∷ rest) = results_of (add_results m s.name (has_output s.phase) s.results) rest

-- The outputs of the steps done so far, rebuilt from the statuses.
unfoldable pub step_results : List StepRunStatus → StepResults
unfolding results_of
step_results statuses = results_of [] statuses

abbrev pub is_done : Option StepRunStatus → Bool
is_done none = false
is_done (some s) = step_terminal s.phase

abbrev pub is_busy : Option StepRunStatus → Bool
is_busy none = false
is_busy (some s) = elim s.phase [ running ↦ true | waiting ↦ true | _ ↦ false ]

-- `existing == nil || existing.Phase == "" || existing.Phase == Pending`
abbrev pub is_fresh : Option StepRunStatus → Bool
is_fresh none = true
is_fresh (some s) = step_unstarted s.phase

abbrev is_waiting : Option StepRunStatus → Bool
is_waiting none = false
is_waiting (some s) = elim s.phase [ waiting ↦ true | _ ↦ false ]

unfoldable pub all_terminal : FlowSpec → List StepRunStatus → Bool
all_terminal flow statuses = all (λ step. is_done (find_step_status statuses step.name)) flow.steps

unfoldable pub any_running : FlowSpec → List StepRunStatus → Bool
any_running flow statuses = any (λ step. is_busy (find_step_status statuses step.name)) flow.steps

-- The step may be taken into the wave: it has not started, or it is a wait step that may have
-- elapsed.
unfoldable pub is_ready : FlowSpec → List StepRunStatus → FlowStep → Bool
is_ready flow statuses step =
    dependencies_met step statuses flow.steps (policy_continues flow.failure_policy)
    && (is_fresh (find_step_status statuses step.name)
        || (is_waiting (find_step_status statuses step.name) && is_wait step.action.type))

unfoldable pub ready_among : FlowSpec → List StepRunStatus → List FlowStep → List FlowStep
ready_among flow statuses [] = []
ready_among flow statuses (step ∷ rest) =
    let later = ready_among flow statuses rest in
    let taken = step ∷ later in if is_ready flow statuses step then taken else later

unfoldable pub wave_steps : FlowSpec → List StepRunStatus → List FlowStep
unfolding ready_among
wave_steps flow statuses = ready_among flow statuses flow.steps

-- The first wait step of the wave, which is the one that is run.
unfoldable pub first_wait : List FlowStep → Option FlowStep
first_wait [] = none
first_wait (step ∷ rest) =
    let later = first_wait rest in if is_wait step.action.type then some step else later
