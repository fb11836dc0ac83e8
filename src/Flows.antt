-- ===== src/Flows.antt =====
-- internal/controller/flow_controller.go: validateFlowSpec. `parses` says which durations
-- time.ParseDuration takes.
pub mod Laws
mod Tests
use kubezap_operator.Base.{
  String, Bool, true, false, not, ◌&&◌, ◌||◌, Option, none, some, List, [], ◌∷◌, ◌==◌, is_empty,
  contains_string, if◌then◌else◌,
}
use kubezap_operator.Api.Flow.{
  FlowStep, FlowSpec, StepAction, ActionType, http, transform, publish, wait, other, HttpAction,
  PublishAction, WaitAction,
}

pub data FlowError : Type 0 where
  no_steps : FlowError
  duplicate_name : String → FlowError
  unknown_dependency : String → String → FlowError
  http_not_set http_url_empty : String → FlowError
  publish_not_set publish_integration_empty publish_topic_empty : String → FlowError
  wait_not_set wait_duration_empty : String → FlowError
  wait_duration_invalid : String → String → FlowError
  unknown_type : String → String → FlowError

-- The first of two checks that finds an error.
abbrev pub first_error : Option FlowError → Option FlowError → Option FlowError
first_error (some e) later = some e
first_error none later = later

abbrev pub error_if : Bool → FlowError → Option FlowError
error_if b e = if b then some e else none

-- The names seen so far, and the first that is seen again.
unfoldable pub duplicate_step : List String → List FlowStep → Option FlowError
duplicate_step seen [] = none
duplicate_step seen (step ∷ rest) =
    first_error (error_if (contains_string seen step.name) (duplicate_name step.name))
      (duplicate_step (step.name ∷ seen) rest)

unfoldable pub step_names : List FlowStep → List String
step_names [] = []
step_names (step ∷ rest) = step.name ∷ step_names rest

unfoldable pub unknown_deps : String → List String → List String → Option FlowError
unknown_deps name names [] = none
unknown_deps name names (dep ∷ rest) =
    first_error (error_if (not (contains_string names dep)) (unknown_dependency name dep))
      (unknown_deps name names rest)

abbrev has_ref : Option String → Bool
has_ref none = false
has_ref (some ref) = true

module _ (parses : String → Bool) where
  check_http : String → Option HttpAction → Option FlowError
  check_http name none = some (http_not_set name)
  check_http name (some h) =
      error_if (h.url == "" && not (has_ref h.integration_ref)) (http_url_empty name)

  check_publish : String → Option PublishAction → Option FlowError
  check_publish name none = some (publish_not_set name)
  check_publish name (some p) =
      first_error (error_if (p.integration_ref == "") (publish_integration_empty name))
        (error_if (p.topic == "") (publish_topic_empty name))

  check_wait : String → Option WaitAction → Option FlowError
  check_wait name none = some (wait_not_set name)
  check_wait name (some w) =
      first_error (error_if (w.duration == "") (wait_duration_empty name))
        (error_if (not (parses w.duration)) (wait_duration_invalid name w.duration))

  check_type : ActionType → FlowStep → Option FlowError
  unfolding check_http check_publish check_wait
  check_type http step = check_http step.name step.action.http
  check_type transform step = none
  check_type publish step = check_publish step.name step.action.publish
  check_type wait step = check_wait step.name step.action.wait
  check_type (other type) step = some (unknown_type step.name type)

  unfoldable pub check_action : FlowStep → Option FlowError
  unfolding check_type
  check_action step = check_type step.action.type step

  unfoldable pub check_steps : List String → List FlowStep → Option FlowError
  unfolding check_action
  check_steps names [] = none
  check_steps names (step ∷ rest) =
      first_error (unknown_deps step.name names step.run_after)
        (first_error (check_action step) (check_steps names rest))

  unfoldable pub validate_flow_spec : FlowSpec → Option FlowError
  unfolding check_steps
  validate_flow_spec spec =
      if is_empty spec.steps
      then some no_steps
      else first_error (duplicate_step [] spec.steps)
          (check_steps (step_names spec.steps) spec.steps)
