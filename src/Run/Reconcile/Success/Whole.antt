-- ===== src/Run/Reconcile/Success/Whole.antt =====
-- When a FlowRun is marked Succeeded: the whole of Reconcile.
use kubezap_operator.Base.{
  ℕ, ◌≡◌, refl, Bool, true, false, ◌&&◌, List, [], ◌∷◌, arith, Bool-cases, inl, inr, All, is_empty,
  sym, subst, ◌∙◌, contains_string,
}
use kubezap_operator.Api.Flow.{FlowStep, FlowSpec}
use kubezap_operator.Api.FlowRun.{
  FlowRun, FlowRunPhase, StepRunStatus, Message, run_terminal, deleted_while_running,
  cancelled_by_annotation,
}
use kubezap_operator.Run.Wait.{put}
use kubezap_operator.Run.Wave.{wave_steps, all_terminal, any_running, step_results, first_wait}
use kubezap_operator.Run.Wave.Ready.{wave_steps_empty}
use kubezap_operator.Run.Plan.{
  Get, found, not_found, unavailable, status_update, metadata_update, delete, Plan, return, write,
  Reply, landed,
}
use kubezap_operator.Run.Plan.Laws.{AllWrites, landed-All, if-Writes}
use kubezap_operator.Run.Finish.{executing_finalizer, cancel_flow_run}
use kubezap_operator.Run.Runtime.{Runtime, StepResults, Params, ParamResult, unresolved, resolved}
use kubezap_operator.Run.Wave.Inline.{
  Decision, leave, skip, fail_on, fail_stop, decide, round, inline_loop,
}
use kubezap_operator.Base.Assoc.{lookup}
use kubezap_operator.Run.Gc.{flagged, reconcile_gc}
use kubezap_operator.Run.Gc.Laws.{Collects, reconcile_gc-Collects}
use kubezap_operator.Run.Reconcile.{
  complete, after_inline, after_refetch, advance, proceed, timed_out, begin, started, with_flow,
  reconcile, not_begun, is_some, is_running,
}
use kubezap_operator.Run.Reconcile.Success.{
  Earned, Settled, all_terminal-Settled, idle-Settled, fail-Earned, complete-Earned,
  run_ready-Earned,
}

module _ (rt : Runtime) (flow : FlowSpec) where
  idle :
      (f : FlowRun) (busy : Bool)
      → busy ≡ any_running flow f.status.steps
      → busy ≡ false
      → is_empty (wave_steps flow f.status.steps) ≡ true
      → AllWrites (Earned flow) (complete rt flow f)
  unfolding any_running
  idle f busy same none_busy empty = complete-Earned rt flow f (
      idle-Settled flow f.status.steps flow.steps (sym same ∙ none_busy)
        (wave_steps_empty flow f.status.steps empty))

  after_inline-Earned :
      (params : Params) (busy : Bool) (f : FlowRun) (b : Bool)
      → (b ≡ false → busy ≡ any_running flow f.status.steps)
      → f.status.phase ≡ FlowRunPhase.running
      → AllWrites (Earned flow) (after_inline rt flow params busy f b)
  unfolding after_inline
  after_inline-Earned params busy f true same e = ((λ s. cc), refetched rt.refetch)
    where
      refetched : (g : Get FlowRun) → AllWrites (Earned flow) (after_refetch rt g)
      refetched (found g) = tt
      refetched not_found = tt
      refetched unavailable = tt
  after_inline-Earned params busy f false same e =
      elim (Bool-cases (is_empty (wave_steps flow f.status.steps))) [
        | inr ready ↦ rw ready (
            run_ready-Earned rt flow params f (wave_steps flow f.status.steps)
              (first_wait (wave_steps flow f.status.steps)) e)
        | inl empty ↦ elim (Bool-cases busy) [
          | inl b ↦ rw (empty, b) tt
          | inr b ↦ rw (empty, b) (idle f busy (same refl) b empty)
        ]
      ]

  -- Until the loop has changed a status, the FlowRun is the one that it began with.
  abbrev Untouched : FlowRun → FlowRun → Bool → Type 0
  Untouched f g c = c ≡ false → any_running flow f.status.steps ≡ any_running flow g.status.steps

  inline_loop-Earned :
      (results : StepResults) (params : Params) (f₀ f : FlowRun) (steps : List FlowStep) (b : Bool)
      (next : FlowRun → Bool → Plan)
      → f.status.phase ≡ FlowRunPhase.running
      → Untouched f₀ f b
      → ((g : FlowRun) (c : Bool)
          → g.status.phase ≡ FlowRunPhase.running
          → Untouched f₀ g c
          → AllWrites (Earned flow) (next g c))
      → AllWrites (Earned flow) (inline_loop rt flow results params f steps b next)
  unfolding inline_loop
  inline_loop-Earned results params f₀ f [] b next e u k = k f b e u
  inline_loop-Earned results params f₀ f (step ∷ rest) b next e u k =
      go (decide rt flow results params f step)
        (inline_loop-Earned results params f₀ f rest b next e u k)
        (λ s. inline_loop-Earned results params f₀ (put f s) rest true next e (λ t. cc) k)
    where
      again : FlowRun → Bool → Plan
      again g c = inline_loop rt flow results params g rest c next

      go :
          (d : Decision)
          → AllWrites (Earned flow) (again f b)
          → ((s : StepRunStatus) → AllWrites (Earned flow) (again (put f s) true))
          → AllWrites (Earned flow) (round rt flow results params f d b again)
      go leave h i = h
      go (skip s) h i = i s
      go (fail_on s) h i = ((λ t. cc), i s)
      go (fail_stop s m) h i = ((λ t. cc), fail-Earned rt flow (put f s) m)

  advance-Earned :
      (f : FlowRun) (r : ParamResult)
      → f.status.phase ≡ FlowRunPhase.running
      → AllWrites (Earned flow) (advance rt flow f r)
  unfolding advance
  advance-Earned f (unresolved m) e = fail-Earned rt flow f m
  advance-Earned f (resolved params) e = elim (Bool-cases (all_terminal flow f.status.steps)) [
    | inl t ↦ rw t (complete-Earned rt flow f (terminal t))
    | inr t ↦ rw t (
        inline_loop-Earned (step_results f.status.steps) params f f flow.steps false _ e (λ c. refl)
          (λ g c k u. after_inline-Earned params (any_running flow f.status.steps) g c u k))
  ]
    where
      terminal :
          all_terminal flow f.status.steps ≡ true → All (Settled flow f.status.steps) flow.steps
      terminal t = all_terminal-Settled flow f.status.steps flow.steps (unfold all_terminal in t)

  proceed-Earned :
      (f : FlowRun)
      → f.status.phase ≡ FlowRunPhase.running
      → AllWrites (Earned flow) (proceed rt flow f)
  unfolding proceed
  proceed-Earned f e =
      if-Writes (Earned flow) (timed_out rt f.status.start_time) _ _ (fail-Earned rt flow f _)
        (advance-Earned f _ e)

  begin-Earned : (f : FlowRun) → AllWrites (Earned flow) (begin rt flow f)
  unfolding begin
  begin-Earned f =
      if-Writes (Earned flow) (contains_string f.finalizers executing_finalizer) _ _
        ((λ s. cc), proceed-Earned (started rt f) refl) (tt, ((λ s. cc), proceed-Earned _ refl))

  cancel-Earned :
      (f : FlowRun) (m : Message)
      → AllWrites (Earned flow) (cancel_flow_run rt.set_condition rt.now f m)
  unfolding cancel_flow_run
  cancel-Earned f m = ((λ e. cc), (tt, tt))

  Collects-Earned : (plan : Plan) → AllWrites Collects plan → AllWrites (Earned flow) plan
  Collects-Earned (return o) h = tt
  Collects-Earned (write (delete g) rest) (c, h) = (tt, Collects-Earned rest h)
  Collects-Earned (write (status_update g) rest) (c, h) = absurd c
  Collects-Earned (write (metadata_update g) rest) (c, h) = absurd c

  with_flow-Earned :
      (f : FlowRun)
      → run_terminal f.status.phase ≡ false
      → AllWrites (Earned flow) (with_flow rt f (found flow))
  unfolding with_flow
  with_flow-Earned f t = elim (Bool-cases (not_begun f.status.phase)) [
    | inl b ↦ rw b (begin-Earned f)
    | inr b ↦ rw b (proceed-Earned f (ground arith))
  ]

  reconcile-Earned_plan :
      (f : FlowRun) → rt.flow ≡ found flow → AllWrites (Earned flow) (reconcile rt f)
  unfolding reconcile
  reconcile-Earned_plan f e =
      if-Writes (Earned flow) (is_some rt f.deletion_timestamp && is_running f.status.phase) _ _
        (cancel-Earned f deleted_while_running)
        (if-Writes (Earned flow)
          (is_running f.status.phase && flagged (lookup "kubezap.io/cancel" f.annotations)) _ _
          (cancel-Earned f cancelled_by_annotation)
          (elim (Bool-cases (run_terminal f.status.phase)) [
            | inl t ↦ rw t (Collects-Earned (reconcile_gc rt f) (reconcile_gc-Collects rt f t))
            | inr t ↦ rw t (
                subst (λ r. AllWrites (Earned flow) (with_flow rt f r)) (sym e)
                  (with_flow-Earned f t))
          ]))

  -- When a reconcile marks a FlowRun Succeeded, no step has failed but those whose step or Flow
  -- continues after failures, and each step of the Flow is done, or has a dependency that does not
  -- let it run and is not under way itself.
  pub reconcile-Earned :
      (f : FlowRun) (reply : ℕ → Reply)
      → rt.flow ≡ found flow
      → All (Earned flow) (landed reply 0 (reconcile rt f))
  reconcile-Earned f reply e =
      landed-All (Earned flow) reply 0 (reconcile rt f) (reconcile-Earned_plan f e)
