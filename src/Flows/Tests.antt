-- ===== src/Flows/Tests.antt =====
-- A Flow that validateFlowSpec takes, though no step of it can ever run, and one that it refuses.
use kubezap_operator.Base.{String, ◌≡◌, refl, ◌≢◌, ◌↔◌, Bool, true, none, some, [], ◌∷◌, All}
use kubezap_operator.Run.Namespace.{step, flow_of, fetch_then_store, cyclic}
use kubezap_operator.Flows.{unknown_dependency, step_names, validate_flow_spec}
use kubezap_operator.Flows.Laws.{Fresh, Sound, validate_flow_spec_iff}

abbrev any_duration : String → Bool
any_duration s = true

cycle_is_valid : validate_flow_spec any_duration cyclic ≡ none
unfolding validate_flow_spec kubezap_operator.Flows.duplicate_step
    kubezap_operator.Flows.unknown_deps step_names
cycle_is_valid = refl

unknown_is_refused :
    validate_flow_spec any_duration (flow_of (step "store" ("fetch" ∷ []) ∷ []))
    ≡ some (unknown_dependency "store" "fetch")
unfolding validate_flow_spec kubezap_operator.Flows.duplicate_step
    kubezap_operator.Flows.unknown_deps step_names
unknown_is_refused = refl

validate_flow_spec_iff_example : (validate_flow_spec any_duration fetch_then_store ≡ none) ↔ (
    (fetch_then_store.steps ≢ [])
    × Fresh [] fetch_then_store.steps
    × All (Sound any_duration (step_names fetch_then_store.steps)) fetch_then_store.steps)
validate_flow_spec_iff_example = validate_flow_spec_iff any_duration fetch_then_store
