-- ===== src/Run/Reconcile/Success.antt =====
-- When a FlowRun is marked Succeeded: what the marking says, and the parts of Reconcile that can
-- write it. Whole.antt has the rest.
pub mod Whole
use kubezap_operator.Base.{
  ℕ, ◌+◌, ◌++◌, String, ◌≡◌, refl, ◌⊎◌, Bool, true, false, ◌&&◌, ◌||◌, not, Option, none, some,
  List, [], ◌∷◌, arith, eq_iff, Bool-cases, inl, inr, if◌then◌else◌, All, ◌==◌, Option-cases,
  is_empty, all, any, sym, subst, ◌∙◌, contains_string,
}
use kubezap_operator.Api.Flow.{FlowStep, FlowSpec, is_wait, policy_continues, action_continues}
use kubezap_operator.Api.FlowRun.{
  FlowRun, FlowRunPhase, StepRunStatus, StepPhase, Message, step_terminal, run_terminal,
  deleted_while_running, cancelled_by_annotation,
}
use kubezap_operator.Run.Steps.{find_step_status, dependencies_met}
use kubezap_operator.Run.Wait.{
  continues, put, with_steps, run_wait, finish_wait, waited, WaitResult, wait_error, remaining,
}
use kubezap_operator.Run.Wave.{
  is_done, is_busy, is_ready, is_fresh, wave_steps, all_terminal, any_running, step_results,
  first_wait,
}
use kubezap_operator.Run.Wave.Ready.{wave_steps_empty, All-map}
use kubezap_operator.Base.Int.{ℤ, pos, ltb_ℤ}
use kubezap_operator.Run.Plan.{
  Get, found, not_found, unavailable, Write, status_update, metadata_update, delete, Plan, return,
  write, Reply, landed,
}
use kubezap_operator.Run.Plan.Laws.{AllWrites, landed-All, if-Writes}
use kubezap_operator.Run.Finish.{fail_flow_run, executing_finalizer, cancel_flow_run}
use kubezap_operator.Run.Runtime.{Runtime, StepResults, Params, ParamResult, unresolved, resolved}
use kubezap_operator.Run.Wave.Batch.{
  StepResult, run_all, run_wave, apply_results, transport_requeue, fatal_msg, after_wave,
}
use kubezap_operator.Run.Wave.Inline.{
  Decision, leave, skip, fail_on, fail_stop, decide, round, inline_loop,
}
use kubezap_operator.Base.Assoc.{lookup}
use kubezap_operator.Run.Gc.{flagged, reconcile_gc}
use kubezap_operator.Run.Gc.Laws.{Collects, reconcile_gc-Collects}
use kubezap_operator.Run.Reconcile.{
  blocks, blocking_failure, complete, conclude, run_ready, after_inline, after_refetch, advance,
  proceed, timed_out, begin, started, with_flow, reconcile, not_begun, is_some, is_running,
}

-- No status is Failed whose step the Flow has under a policy that stops at failures.
abbrev pub NoBlocker : FlowSpec → StepRunStatus → Type 0
NoBlocker flow s =
    s.phase ≡ StepPhase.failed
    → All (λ step. step.name ≡ s.name → continues step flow ≡ true) flow.steps

-- The step is done, or it waits for a dependency that does not let it run; it is not under way.
abbrev pub Settled : FlowSpec → List StepRunStatus → FlowStep → Type 0
Settled flow l step =
    (is_done (find_step_status l step.name) ≡ true)
    ⊎ ((dependencies_met step l flow.steps (policy_continues flow.failure_policy) ≡ false)
        × (is_busy (find_step_status l step.name) ≡ false))

blocks_sound :
    (flow : FlowSpec) (s : StepRunStatus) (steps : List FlowStep)
    → blocks flow s steps ≡ false
    → All (λ step. step.name ≡ s.name → continues step flow ≡ true) steps
unfolding blocks
blocks_sound flow s [] h = tt
blocks_sound flow s (step ∷ rest) h =
    (λ e. ground (arith, eq_iff step.name s.name), blocks_sound flow s rest (ground arith))

blocking_failure_sound :
    (flow : FlowSpec) (l : List StepRunStatus)
    → blocking_failure flow l ≡ none
    → All (NoBlocker flow) l
unfolding blocking_failure
blocking_failure_sound flow [] h = tt
blocking_failure_sound flow (s ∷ rest) h = (
  λ e. blocks_sound flow s flow.steps (ground arith),
  blocking_failure_sound flow rest (ground arith),
)

all_terminal-Settled :
    (flow : FlowSpec) (l : List StepRunStatus) (steps : List FlowStep)
    → all (λ step. is_done (find_step_status l step.name)) steps ≡ true
    → All (Settled flow l) steps
all_terminal-Settled flow l [] h = tt
all_terminal-Settled flow l (step ∷ rest) h =
    (inl (ground arith), all_terminal-Settled flow l rest (ground arith))

-- A status is done, under way or not begun.
status_cases :
    (o : Option StepRunStatus) → (is_done o ≡ true) ⊎ (is_busy o ≡ true) ⊎ (is_fresh o ≡ true)
status_cases none = inr (inr refl)
status_cases (some s) = ground arith

idle-Settled :
    (flow : FlowSpec) (l : List StepRunStatus) (steps : List FlowStep)
    → any (λ step. is_busy (find_step_status l step.name)) steps ≡ false
    → All (λ step. is_ready flow l step ≡ false) steps
    → All (Settled flow l) steps
unfolding is_ready
idle-Settled flow l [] h k = tt
idle-Settled flow l (step ∷ rest) h (r, k) = (
  ground (arith, status_cases (find_step_status l step.name)),
  idle-Settled flow l rest (ground arith) k,
)

-- A status update that says Succeeded is earned: no failure stops the Flow, and every step of the
-- Flow is settled.
abbrev pub Earned : FlowSpec → Write → Type 0
Earned flow (status_update g) =
    g.status.phase ≡ FlowRunPhase.succeeded
    → All (NoBlocker flow) g.status.steps × All (Settled flow g.status.steps) flow.steps
Earned flow _ = Unit

module _ (rt : Runtime) (flow : FlowSpec) where
  fail-Earned :
      (f : FlowRun) (m : Message)
      → AllWrites (Earned flow) (fail_flow_run rt.set_condition rt.now f m)
  unfolding fail_flow_run
  fail-Earned f m = ((λ e. cc), (tt, tt))

  complete-Earned :
      (f : FlowRun)
      → All (Settled flow f.status.steps) flow.steps
      → AllWrites (Earned flow) (complete rt flow f)
  unfolding complete
  complete-Earned f s = go (blocking_failure flow f.status.steps) refl
    where
      go :
          (o : Option Message)
          → blocking_failure flow f.status.steps ≡ o
          → AllWrites (Earned flow) (conclude rt f o)
      go none e = ((λ _. (blocking_failure_sound flow f.status.steps e, s)), (tt, tt))
      go (some m) e = fail-Earned f m

  finish_wait-Earned :
      (f : FlowRun) (step : FlowStep) (r : WaitResult)
      → f.status.phase ≡ FlowRunPhase.running
      → AllWrites (Earned flow) (finish_wait rt flow f step r)
  unfolding finish_wait
  finish_wait-Earned f step (wait_error m) e =
      ((λ s. cc), if-Writes (Earned flow) (continues step flow) _ _ tt (fail-Earned _ _))
  finish_wait-Earned f step (remaining d ss) e =
      if-Writes (Earned flow) (ltb_ℤ (pos 0) d) _ _ ((λ s. cc), tt) ((λ s. cc), tt)

  run_ready-Earned :
      (params : Params) (f : FlowRun) (wave : List FlowStep) (w : Option FlowStep)
      → f.status.phase ≡ FlowRunPhase.running
      → AllWrites (Earned flow) (run_ready rt flow params f wave w)
  unfolding run_ready run_wait run_wave
  run_ready-Earned params f wave (some step) e = finish_wait-Earned f step (waited rt flow f step) e
  run_ready-Earned params f wave none e =
      if-Writes (Earned flow) (ltb_ℤ (pos 0) (transport_requeue (pos 0) results)) _ _ tt
        ((λ s. cc), go (fatal_msg results))
    where
      results : List StepResult
      results = run_all rt flow (step_results f.status.steps) params f wave

      g : FlowRun
      g = with_steps f (apply_results f.status.steps results)

      go :
          (o : Option Message)
          → AllWrites (Earned flow) (after_wave rt flow (step_results f.status.steps) params g o)
      go none = tt
      go (some m) = fail-Earned g m
