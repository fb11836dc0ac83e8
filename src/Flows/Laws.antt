-- ===== src/Flows/Laws.antt =====
-- The Flows that validateFlowSpec takes.
use kubezap_operator.Base.{
  String, ◌≡◌, refl, ◌≢◌, ◌↔◌, Bool, true, false, Option, none, some, List, [], ◌∷◌,
  contains_string, All, arith, eq_iff,
}
use kubezap_operator.Api.Flow.{
  FlowStep, FlowSpec, ActionType, http, transform, publish, wait, other, HttpAction, PublishAction,
  WaitAction,
}
use kubezap_operator.Flows.{
  FlowError, first_error, duplicate_step, step_names, unknown_deps, check_http, check_publish,
  check_wait, check_type, check_action, check_steps, validate_flow_spec, has_ref,
}

abbrev pub Fresh : List String → List FlowStep → Type 0
Fresh seen [] = Unit
Fresh seen (step ∷ rest) = (contains_string seen step.name ≡ false) × Fresh (step.name ∷ seen) rest

module _ (parses : String → Bool) where
  abbrev HttpSet : Option HttpAction → Type 0
  HttpSet none = ⊥
  HttpSet (some h) = h.url ≡ "" → has_ref h.integration_ref ≡ true

  abbrev PublishSet : Option PublishAction → Type 0
  PublishSet none = ⊥
  PublishSet (some p) = (p.integration_ref ≢ "") × (p.topic ≢ "")

  abbrev WaitSet : Option WaitAction → Type 0
  WaitSet none = ⊥
  WaitSet (some w) = (w.duration ≢ "") × (parses w.duration ≡ true)

  -- The type is a known one, and the action of an http, publish or wait step is there with what it needs;
  -- of a transform step nothing is asked.
  abbrev TypeSet : ActionType → FlowStep → Type 0
  TypeSet http step = HttpSet step.action.http
  TypeSet transform step = Unit
  TypeSet publish step = PublishSet step.action.publish
  TypeSet wait step = WaitSet step.action.wait
  TypeSet (other type) step = ⊥

  abbrev pub Sound : List String → FlowStep → Type 0
  Sound names step =
      All (λ dep. contains_string names dep ≡ true) step.run_after × TypeSet step.action.type step

  duplicate_step_iff :
      (seen : List String) (steps : List FlowStep)
      → (duplicate_step seen steps ≡ none) ↔ Fresh seen steps
  unfolding duplicate_step
  duplicate_step_iff seen [] = (λ h. tt, λ h. refl)
  duplicate_step_iff seen (step ∷ rest) = ground (arith, duplicate_step_iff (step.name ∷ seen) rest)

  known_iff :
      (name : String) (names deps : List String)
      → (unknown_deps name names deps ≡ none) ↔ All (λ dep. contains_string names dep ≡ true) deps
  unfolding unknown_deps
  known_iff name names [] = (λ h. tt, λ h. refl)
  known_iff name names (dep ∷ rest) = ground (arith, known_iff name names rest)

  http_iff : (name : String) (o : Option HttpAction) → (check_http parses name o ≡ none) ↔ HttpSet o
  unfolding check_http
  http_iff name none = (λ h. cc h, λ h. absurd h)
  http_iff name (some h) = ground (arith, eq_iff h.url "")

  publish_iff :
      (name : String) (o : Option PublishAction)
      → (check_publish parses name o ≡ none) ↔ PublishSet o
  unfolding check_publish
  publish_iff name none = (λ h. cc h, λ h. absurd h)
  publish_iff name (some p) = ground (arith, eq_iff p.integration_ref "", eq_iff p.topic "")

  wait_iff : (name : String) (o : Option WaitAction) → (check_wait parses name o ≡ none) ↔ WaitSet o
  unfolding check_wait
  wait_iff name none = (λ h. cc h, λ h. absurd h)
  wait_iff name (some w) = ground (arith, eq_iff w.duration "")

  type_iff : (t : ActionType) (step : FlowStep) → (check_type parses t step ≡ none) ↔ TypeSet t step
  unfolding check_type
  type_iff http step = http_iff step.name step.action.http
  type_iff transform step = (λ h. tt, λ h. refl)
  type_iff publish step = publish_iff step.name step.action.publish
  type_iff wait step = wait_iff step.name step.action.wait
  type_iff (other name) step = (λ h. cc h, λ h. absurd h)

  both_iff : (a b : Option FlowError) → (first_error a b ≡ none) ↔ ((a ≡ none) × (b ≡ none))
  both_iff none b = (λ h. (refl, h), λ (h, k). k)
  both_iff (some e) b = (λ h. cc h, λ (h, k). cc h)

  steps_iff :
      (names : List String) (steps : List FlowStep)
      → (check_steps parses names steps ≡ none) ↔ All (Sound names) steps
  unfolding check_steps check_action
  steps_iff names [] = (λ h. tt, λ h. refl)
  steps_iff names (step ∷ rest) =
      let (to_known, from_known) = known_iff step.name names step.run_after in
      let (to_type, from_type) = type_iff step.action.type step in
      let (to_rest, from_rest) = steps_iff names rest in
      (
        λ h.
            let (h1, h23) = (both_iff _ _).0 h in
            let (h2, h3) = (both_iff _ _).0 h23 in ((to_known h1, to_type h2), to_rest h3),
        λ ((k, t), r). (both_iff _ _).1 (from_known k, (both_iff _ _).1 (from_type t, from_rest r)),
      )

  -- validateFlowSpec takes a Flow exactly when it has a step, no two steps share a name, each runAfter
  -- names a step of the Flow, each step has a known type, an http step has its action with a URL or an
  -- Integration, a publish step its action with an Integration and a topic, and a wait step its action
  -- with a duration that can be parsed. Nothing is asked of the action of a transform step, nor of the
  -- order that the runAfter make.
  pub validate_flow_spec_iff :
      (spec : FlowSpec)
      → (validate_flow_spec parses spec ≡ none)
        ↔ ((spec.steps ≢ []) × Fresh [] spec.steps × All (Sound (step_names spec.steps)) spec.steps)
  unfolding validate_flow_spec
  validate_flow_spec_iff spec =
      ground (arith, duplicate_step_iff [] spec.steps, steps_iff (step_names spec.steps) spec.steps)
