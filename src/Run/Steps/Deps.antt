-- ===== src/Run/Steps/Deps.antt =====
-- The dependency tests against what they mean.
use kubezap_operator.Base.{
  String, ◌≡◌, refl, ◌↔◌, ◌⊎◌, Bool, true, false, Option, some, List, [], ◌∷◌, arith, All, inl, inr,
  Option-cases, is_empty, ◌≢◌, if◌then◌else◌,
}
use mathlib.Core.Bool.{and-eq-true_iff}
use kubezap_operator.Api.Flow.{FlowStep, OnFailureAction}
use kubezap_operator.Api.FlowRun.{StepRunStatus, succeeded, failed, skipped}
use kubezap_operator.Run.Steps.{
  find_step_status, find_flow_step, dep_allows, deps_met, dependencies_met, every_skipped,
  all_deps_skipped, dep_skipped,
}

-- A dependency lets its dependents run: it succeeded or was skipped, or it failed and the Flow or
-- the dependency itself continues after failures.
pub record Satisfied (statuses : List StepRunStatus) (steps : List FlowStep) (policy : Bool)
    (dep : String) : Type 0 where
  pub status : StepRunStatus
  pub found : find_step_status statuses dep ≡ some status
  pub allows :
      (status.phase ≡ succeeded)
      ⊎ (status.phase ≡ skipped)
      ⊎ ((status.phase ≡ failed)
          × ((policy ≡ true)
              ⊎ ((step : FlowStep) × (find_flow_step steps dep ≡ some step)
                  × (step.on_failure ≡ OnFailureAction.continue))))

module _ (statuses : List StepRunStatus) (steps : List FlowStep) (policy : Bool) where
  allows_sound :
      (dep : String)
      → dep_allows (find_step_status statuses dep) (find_flow_step steps dep) policy ≡ true
      → Satisfied statuses steps policy dep
  allows_sound dep h = elim (Option-cases (find_step_status statuses dep)) [
    | inl e ↦ cc (rw e at h)
    | inr (s, e) ↦ record {
      status = s;
      found = e;
      allows = go s (find_flow_step steps dep) refl (rw e at h);
    }
  ]
    where
      go :
          (s : StepRunStatus) (o : Option FlowStep)
          → find_flow_step steps dep ≡ o
          → dep_allows (some s) o policy ≡ true
          → (s.phase ≡ succeeded)
            ⊎ (s.phase ≡ skipped)
            ⊎ ((s.phase ≡ failed)
                × ((policy ≡ true)
                    ⊎ ((step : FlowStep) × (find_flow_step steps dep ≡ some step)
                        × (step.on_failure ≡ OnFailureAction.continue))))
      go s o e h = ground arith

  allows_complete :
      (dep : String)
      → Satisfied statuses steps policy dep
      → dep_allows (find_step_status statuses dep) (find_flow_step steps dep) policy ≡ true
  allows_complete dep h = rw h.found (go h.allows)
    where
      go :
          (h.status.phase ≡ succeeded)
            ⊎ (h.status.phase ≡ skipped)
            ⊎ ((h.status.phase ≡ failed)
                × ((policy ≡ true)
                    ⊎ ((step : FlowStep) × (find_flow_step steps dep ≡ some step)
                        × (step.on_failure ≡ OnFailureAction.continue))))
          → dep_allows (some h.status) (find_flow_step steps dep) policy ≡ true
      go a = ground arith

  deps_met_iff :
      (deps : List String)
      → (deps_met deps statuses steps policy ≡ true) ↔ All (Satisfied statuses steps policy) deps
  unfolding deps_met
  deps_met_iff [] = (λ _. tt, λ _. refl)
  deps_met_iff (dep ∷ deps) = (
    λ h.
        let (here, later) = (and-eq-true_iff _ _).0 h in
        (allows_sound dep here, (deps_met_iff deps).0 later),
    λ h. (and-eq-true_iff _ _).1 (allows_complete dep h.0, (deps_met_iff deps).1 h.1),
  )

  -- A step's dependencies are met exactly when each of them has a status that is Succeeded, Skipped,
  -- or Failed with continuation allowed by the Flow's policy or by the dependency's own step.
  pub dependencies_met_iff :
      (step : FlowStep)
      → (dependencies_met step statuses steps policy ≡ true)
        ↔ All (Satisfied statuses steps policy) step.run_after
  unfolding dependencies_met
  dependencies_met_iff step = deps_met_iff step.run_after

-- The status of a name exists and is Skipped.
abbrev pub WasSkipped : List StepRunStatus → String → Type 0
WasSkipped statuses dep =
    (s : StepRunStatus) × (find_step_status statuses dep ≡ some s) × (s.phase ≡ skipped)

every_skipped_iff :
    (statuses : List StepRunStatus) (deps : List String)
    → (every_skipped deps statuses ≡ true) ↔ All (WasSkipped statuses) deps
unfolding every_skipped
every_skipped_iff statuses [] = (λ _. tt, λ _. refl)
every_skipped_iff statuses (dep ∷ deps) = (
  λ h.
      let (here, later) = (and-eq-true_iff _ _).0 h in
      (sound here, (every_skipped_iff statuses deps).0 later),
  λ h. (and-eq-true_iff _ _).1 (complete h.0, (every_skipped_iff statuses deps).1 h.1),
)
  where
    sound : dep_skipped (find_step_status statuses dep) ≡ true → WasSkipped statuses dep
    sound h = ground arith

    complete : WasSkipped statuses dep → dep_skipped (find_step_status statuses dep) ≡ true
    complete h = ground arith

-- A cascade skip is decided exactly when the step has dependencies and all of them were skipped.
pub all_deps_skipped_iff :
    (step : FlowStep) (statuses : List StepRunStatus)
    → (all_deps_skipped step statuses ≡ true)
      ↔ ((step.run_after ≢ []) × All (WasSkipped statuses) step.run_after)
unfolding all_deps_skipped
all_deps_skipped_iff step statuses = go step.run_after
  where
    go :
        (deps : List String)
        → ((if is_empty deps then false else every_skipped deps statuses) ≡ true)
          ↔ ((deps ≢ []) × All (WasSkipped statuses) deps)
    go [] = (λ h. cc, λ h. absurd (h.0 refl))
    go (d ∷ ds) = (
      λ h. ((λ e. cc), (every_skipped_iff statuses (d ∷ ds)).0 h),
      λ h. (every_skipped_iff statuses (d ∷ ds)).1 h.1,
    )
