-- ===== src/Run/Reconcile/Phases.antt =====
-- The phases through which a reconcile takes a FlowRun, against the state model of
-- docs/architecture/flowrun-state-model.md.
use kubezap_operator.Base.{
  ℕ, String, ◌≡◌, refl, inl, inr, Bool, true, false, Option, none, some, List, [], ◌∷◌, ◌++◌, subst,
  sym, arith, Bool-cases, All,
}
use kubezap_operator.Base.Int.{ℤ}
use kubezap_operator.Api.Flow.{FlowStep, FlowSpec}
use kubezap_operator.Api.FlowRun.{
  FlowRun, FlowRunPhase, Message, run_terminal, deleted_while_running, cancelled_by_annotation,
}
use kubezap_operator.Run.Plan.{
  Get, found, not_found, unavailable, status_update, metadata_update, delete, Plan, return, write,
  Reply, landed,
}
use kubezap_operator.Run.Finish.{
  executing_finalizer, SetCondition, finish_flow_run, fail_flow_run, cancel_flow_run,
}
use kubezap_operator.Run.Runtime.{Runtime, Params, StepResults, ParamResult, unresolved, resolved}
use kubezap_operator.Run.Wait.{
  run_wait, finish_wait, waited, put, WaitResult, wait_error, remaining,
}
use kubezap_operator.Run.Wave.Batch.{run_wave}
use kubezap_operator.Run.Wave.{step_results, wave_steps, first_wait, all_terminal, any_running}
use kubezap_operator.Run.Wave.Inline.{
  Decision, leave, skip, fail_on, fail_stop, decide, round, inline_loop,
}
use kubezap_operator.Run.Gc.{reconcile_gc}
use kubezap_operator.Run.Gc.Laws.{Collects, reconcile_gc-Collects}
use kubezap_operator.Run.Plan.Laws.{AllWrites, landed-All}
use kubezap_operator.Run.Reconcile.{
  complete, run_ready, after_inline, advance, proceed, begin, with_flow, reconcile, not_begun,
  is_running, started,
}
use kubezap_operator.Run.Reconcile.Transitions.{can_become, Follows, FollowsAll, landed-Follows}

finish-Follows :
    (set_condition : SetCondition) (now : ℤ) (p : FlowRunPhase) (f : FlowRun) (phase : FlowRunPhase)
    (reason : String) (m : Message)
    → can_become p phase ≡ true
    → Follows p (finish_flow_run set_condition now f phase reason m)
unfolding finish_flow_run
finish-Follows set_condition now p f phase reason m h = (h, tt)

module _ (rt : Runtime) (flow : FlowSpec) where
  finish_wait-Follows :
      (f : FlowRun) (step : FlowStep) (r : WaitResult)
      → f.status.phase ≡ FlowRunPhase.running
      → Follows FlowRunPhase.running (finish_wait rt flow f step r)
  unfolding finish_wait fail_flow_run
  finish_wait-Follows f step (wait_error m) e = ground arith
  finish_wait-Follows f step (remaining d ss) e = ground arith

  run_wait-Follows :
      (f : FlowRun) (step : FlowStep)
      → f.status.phase ≡ FlowRunPhase.running
      → Follows FlowRunPhase.running (run_wait rt flow f step)
  unfolding run_wait
  run_wait-Follows f step e = finish_wait-Follows f step (waited rt flow f step) e

  run_wave-Follows :
      (results : StepResults) (params : Params) (f : FlowRun) (wave : List FlowStep)
      → f.status.phase ≡ FlowRunPhase.running
      → Follows FlowRunPhase.running (run_wave rt flow results params f wave)
  unfolding run_wave fail_flow_run
  run_wave-Follows results params f wave e = ground arith

  complete-Follows :
      (f : FlowRun)
      → f.status.phase ≡ FlowRunPhase.running
      → Follows FlowRunPhase.running (complete rt flow f)
  unfolding complete fail_flow_run
  complete-Follows f e = ground arith

  round-Follows :
      (results : StepResults) (params : Params) (f : FlowRun) (d : Decision) (b : Bool)
      (again : FlowRun → Bool → Plan)
      → f.status.phase ≡ FlowRunPhase.running
      → ((g : FlowRun) (c : Bool)
          → g.status.phase ≡ FlowRunPhase.running
          → Follows FlowRunPhase.running (again g c))
      → Follows FlowRunPhase.running (round rt flow results params f d b again)
  unfolding round fail_flow_run
  round-Follows results params f leave b again e h = h f b e
  round-Follows results params f (skip s) b again e h = h (put f s) true e
  round-Follows results params f (fail_on s) b again e h = ground (arith, h (put f s) true e)
  round-Follows results params f (fail_stop s m) b again e h = ground arith

  inline_loop-Follows :
      (results : StepResults) (params : Params) (f : FlowRun) (steps : List FlowStep) (b : Bool)
      (next : FlowRun → Bool → Plan)
      → f.status.phase ≡ FlowRunPhase.running
      → ((g : FlowRun) (c : Bool)
          → g.status.phase ≡ FlowRunPhase.running
          → Follows FlowRunPhase.running (next g c))
      → Follows FlowRunPhase.running (inline_loop rt flow results params f steps b next)
  unfolding inline_loop
  inline_loop-Follows results params f [] b next e h = h f b e
  inline_loop-Follows results params f (step ∷ rest) b next e h =
      round-Follows results params f (decide rt flow results params f step) b
        (λ g c. inline_loop rt flow results params g rest c next) e
        (λ g c k. inline_loop-Follows results params g rest c next k h)

  run_ready-Follows :
      (params : Params) (f : FlowRun) (wave : List FlowStep) (w : Option FlowStep)
      → f.status.phase ≡ FlowRunPhase.running
      → Follows FlowRunPhase.running (run_ready rt flow params f wave w)
  unfolding run_ready
  run_ready-Follows params f wave (some step) e = run_wait-Follows f step e
  run_ready-Follows params f wave none e =
      run_wave-Follows (step_results f.status.steps) params f wave e

  after_inline-Follows :
      (params : Params) (busy : Bool) (f : FlowRun) (b : Bool)
      → f.status.phase ≡ FlowRunPhase.running
      → Follows FlowRunPhase.running (after_inline rt flow params busy f b)
  unfolding after_inline
  after_inline-Follows params busy f b e = ground (
    arith,
    run_ready-Follows params f (wave_steps flow f.status.steps)
        (first_wait (wave_steps flow f.status.steps)) e,
    complete-Follows f e,
  )

  advance-Follows :
      (f : FlowRun) (r : ParamResult)
      → f.status.phase ≡ FlowRunPhase.running
      → Follows FlowRunPhase.running (advance rt flow f r)
  unfolding advance fail_flow_run
  advance-Follows f (unresolved m) e = ground arith
  advance-Follows f (resolved params) e = elim (Bool-cases (all_terminal flow f.status.steps)) [
    | inl t ↦ rw t (complete-Follows f e)
    | inr t ↦ rw t (
        inline_loop-Follows (step_results f.status.steps) params f flow.steps false _ e
          (after_inline-Follows params (any_running flow f.status.steps)))
  ]

  proceed-Follows :
      (f : FlowRun)
      → f.status.phase ≡ FlowRunPhase.running
      → Follows FlowRunPhase.running (proceed rt flow f)
  unfolding proceed fail_flow_run
  proceed-Follows f e = ground (
    arith,
    advance-Follows f
        (rt.resolve_params flow.params f.spec.params (step_results f.status.steps)
          f.spec.trigger_data)
        e,
  )

  begin-Follows :
      (f : FlowRun) → not_begun f.status.phase ≡ true → Follows f.status.phase (begin rt flow f)
  unfolding begin
  begin-Follows f e =
      let moves : can_become f.status.phase FlowRunPhase.running ≡ true = ground arith in
      ground (
        arith,
        proceed-Follows (started rt f) refl,
        proceed-Follows
            (started rt (record f { finalizers = f.finalizers ++ (executing_finalizer ∷ []) }))
            refl,
      )

Collects-Follows : (p : FlowRunPhase) (plan : Plan) → AllWrites Collects plan → Follows p plan
Collects-Follows p (return o) h = tt
Collects-Follows p (write (delete g) rest) (c, h) = Collects-Follows p rest h
Collects-Follows p (write (status_update g) rest) (c, h) = absurd c
Collects-Follows p (write (metadata_update g) rest) (c, h) = absurd c

with_flow-Follows :
    (rt : Runtime) (f : FlowRun) (flow : Get FlowSpec)
    → run_terminal f.status.phase ≡ false
    → Follows f.status.phase (with_flow rt f flow)
unfolding with_flow fail_flow_run
with_flow-Follows rt f (found flow) t = elim (Bool-cases (not_begun f.status.phase)) [
  | inl b ↦ rw b (begin-Follows rt flow f b)
  | inr b ↦
      let e : f.status.phase ≡ FlowRunPhase.running = ground arith in
      rw b (subst (λ p. Follows p (proceed rt flow f)) (sym e) (proceed-Follows rt flow f e))
]
with_flow-Follows rt f not_found t = ground arith
with_flow-Follows rt f unavailable t = tt

cancel-Follows :
    (rt : Runtime) (f : FlowRun) (m : Message)
    → is_running f.status.phase ≡ true
    → Follows f.status.phase (cancel_flow_run rt.set_condition rt.now f m)
unfolding cancel_flow_run
cancel-Follows rt f m e = ground arith

reconcile-Follows_plan : (rt : Runtime) (f : FlowRun) → Follows f.status.phase (reconcile rt f)
unfolding reconcile
reconcile-Follows_plan rt f = ground (
  arith,
  cancel-Follows rt f deleted_while_running,
  cancel-Follows rt f cancelled_by_annotation,
  Collects-Follows f.status.phase (reconcile_gc rt f),
  reconcile_gc-Collects rt f,
  with_flow-Follows rt f rt.flow,
)

-- Whatever the cluster answers, the status updates of one reconcile that reach the API server take
-- the FlowRun from the phase that was read along the transitions of the state model: a finished one
-- is never moved, and one that has not begun becomes Running, or Failed when its Flow is missing.
pub reconcile-Follows :
    (rt : Runtime) (f : FlowRun) (reply : ℕ → Reply)
    → FollowsAll f.status.phase (landed reply 0 (reconcile rt f))
reconcile-Follows rt f reply =
    landed-Follows reply 0 f.status.phase (reconcile rt f) (reconcile-Follows_plan rt f)

reconcile_terminal_plan :
    (rt : Runtime) (f : FlowRun)
    → run_terminal f.status.phase ≡ true
    → AllWrites Collects (reconcile rt f)
unfolding reconcile
reconcile_terminal_plan rt f t = ground (arith, reconcile_gc-Collects rt f t)

-- Of a finished FlowRun a reconcile writes nothing but deletions, each of a finished FlowRun without
-- the retain annotation.
pub reconcile_terminal :
    (rt : Runtime) (f : FlowRun) (reply : ℕ → Reply)
    → run_terminal f.status.phase ≡ true
    → All Collects (landed reply 0 (reconcile rt f))
reconcile_terminal rt f reply t =
    landed-All Collects reply 0 (reconcile rt f) (reconcile_terminal_plan rt f t)
