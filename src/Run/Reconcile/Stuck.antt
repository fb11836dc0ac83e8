-- ===== src/Run/Reconcile/Stuck.antt =====
-- A Flow in which every step waits for another one is marked Succeeded at once. Neither
-- validateFlowSpec (flow_controller.go) nor Reconcile looks for cycles of runAfter.
use kubezap_operator.Base.{
  String, ◌≡◌, refl, Bool, false, none, List, [], ◌∷◌, arith, All, any, ◌≢◌, ◌∙◌,
}
use kubezap_operator.Base.Assoc.{lookup}
use kubezap_operator.Api.Flow.{FlowStep, FlowSpec, policy_continues}
use kubezap_operator.Api.FlowRun.{FlowRun, FlowRunPhase}
use kubezap_operator.Run.Steps.{find_step_status, deps_met, dependencies_met}
use kubezap_operator.Run.Plan.{found, Plan, write, status_update}
use kubezap_operator.Run.Runtime.{Runtime, Params, StepResults, resolved}
use kubezap_operator.Run.Wave.{
  is_ready, is_busy, ready_among, wave_steps, step_results, all_terminal, any_running,
}
use kubezap_operator.Run.Wave.Inline.{leave, decide, inline_loop}
use kubezap_operator.Run.Gc.{flagged}
use kubezap_operator.Run.Reconcile.{
  blocking_failure, succeed, succeeded_run, complete, after_inline, advance, proceed, timed_out,
  with_flow, reconcile,
}

-- Every step of the Flow runs after some step, as in a cycle.
abbrev pub AllWait : List FlowStep → Type 0
AllWait steps = All (λ step. step.run_after ≢ []) steps

unmet :
    (flow : FlowSpec) (step : FlowStep)
    → step.run_after ≢ []
    → dependencies_met step [] flow.steps (policy_continues flow.failure_policy) ≡ false
unfolding dependencies_met find_step_status
unmet flow step h = go step.run_after h
  where
    go :
        (deps : List String)
        → deps ≢ []
        → deps_met deps [] flow.steps (policy_continues flow.failure_policy) ≡ false
    go [] h = absurd (h refl)
    go (d ∷ ds) h = refl

module _ (rt : Runtime) (flow : FlowSpec) where
  stuck_loop :
      (results : StepResults) (params : Params) (f : FlowRun) (steps : List FlowStep)
      (next : FlowRun → Bool → Plan)
      → f.status.steps ≡ []
      → AllWait steps
      → inline_loop rt flow results params f steps false next ≡ next f false
  unfolding inline_loop
  stuck_loop results params f [] next e h = refl
  stuck_loop results params f (step ∷ rest) next e (h, hs) =
      rw left (stuck_loop results params f rest next e hs)
    where
      not_met :
          dependencies_met step f.status.steps flow.steps (policy_continues flow.failure_policy)
          ≡ false
      not_met = rw e (unmet flow step h)

      left : decide rt flow results params f step ≡ leave
      left = unfold decide in rw not_met

  stuck_wave : (steps : List FlowStep) → AllWait steps → ready_among flow [] steps ≡ []
  unfolding ready_among is_ready
  stuck_wave [] h = refl
  stuck_wave (step ∷ rest) (h, hs) = rw (unmet flow step h) (stuck_wave rest hs)

  stuck_idle :
      (steps : List FlowStep) → any (λ step. is_busy (find_step_status [] step.name)) steps ≡ false
  unfolding find_step_status
  stuck_idle [] = refl
  stuck_idle (step ∷ rest) = stuck_idle rest

  stuck_advance :
      (params : Params) (f : FlowRun)
      → f.status.steps ≡ []
      → flow.steps ≢ []
      → AllWait flow.steps
      → advance rt flow f (resolved params) ≡ complete rt flow f
  unfolding advance
  stuck_advance params f e some_step h =
      rw
        (
          open_steps,
          stuck_loop (step_results f.status.steps) params f flow.steps
              (after_inline rt flow params (any_running flow f.status.steps)) e h,
        )
        after
    where
      open_steps : all_terminal flow f.status.steps ≡ false
      open_steps = unfold all_terminal find_step_status in rw e (ground arith)

      no_wave : wave_steps flow f.status.steps ≡ []
      no_wave = unfold wave_steps in rw e (stuck_wave flow.steps h)

      idle : any_running flow f.status.steps ≡ false
      idle = unfold any_running in rw e (stuck_idle flow.steps)

      after :
          after_inline rt flow params (any_running flow f.status.steps) f false ≡ complete rt flow f
      after = unfold after_inline in rw (no_wave, idle)

  stuck_complete : (f : FlowRun) → f.status.steps ≡ [] → complete rt flow f ≡ succeed rt f
  unfolding complete
  stuck_complete f e =
      let no_failure : blocking_failure flow f.status.steps ≡ none = rw e in rw no_failure

  -- A running FlowRun that has no step status yet, of a Flow each of whose steps has a runAfter, is
  -- marked Succeeded with no step run: the first write of its reconcile says so.
  pub stuck_succeeds :
      (f : FlowRun) (params : Params)
      → rt.flow ≡ found flow
      → f.status.phase ≡ FlowRunPhase.running
      → f.deletion_timestamp ≡ none
      → flagged (lookup "kubezap.io/cancel" f.annotations) ≡ false
      → timed_out rt f.status.start_time ≡ false
      → rt.resolve_params flow.params f.spec.params
          (step_results f.status.steps)
          f.spec.trigger_data
        ≡ resolved params
      → f.status.steps ≡ []
      → flow.steps ≢ []
      → AllWait flow.steps
      → (g : FlowRun) × (rest : Plan) × (reconcile rt f ≡ write (status_update g) rest)
        × (g.status.phase ≡ FlowRunPhase.succeeded)
        × (g.status.steps ≡ [])
  unfolding reconcile with_flow proceed succeed
  stuck_succeeds f params found_flow running kept asked timely params_ok fresh some_step h = (
    succeeded_run rt f,
    _,
    reaches ∙ (stuck_advance params f fresh some_step h ∙ stuck_complete f fresh),
    refl,
    fresh,
  )
    where
      reaches : reconcile rt f ≡ advance rt flow f (resolved params)
      reaches = ground arith
