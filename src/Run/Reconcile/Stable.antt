-- ===== src/Run/Reconcile/Stable.antt =====
-- No reconcile changes the status of a step that is done: the rest of Kept.antt, from the inline
-- transitions to the whole of Reconcile.
use kubezap_operator.Base.{
  ℕ, ◌≡◌, refl, Bool, true, false, ◌&&◌, not, Option, none, some, List, [], ◌∷◌, arith, Bool-cases,
  inl, inr, All, is_empty, contains_string,
}
use kubezap_operator.Api.Flow.{FlowStep, FlowSpec}
use kubezap_operator.Api.FlowRun.{
  FlowRun, StepRunStatus, Message, run_terminal, timeout_exceeded, deleted_while_running,
  cancelled_by_annotation,
}
use kubezap_operator.Run.Steps.{find_step_status}
use kubezap_operator.Run.Plan.{
  Get, found, not_found, unavailable, Write, status_update, metadata_update, delete, Plan, return,
  write, Reply, landed,
}
use kubezap_operator.Run.Plan.Laws.{AllWrites, landed-All, if-Writes}
use kubezap_operator.Run.Finish.{executing_finalizer, cancel_flow_run}
use kubezap_operator.Run.Runtime.{Runtime, StepResults, Params, ParamResult, unresolved, resolved}
use kubezap_operator.Run.Wait.{put}
use kubezap_operator.Run.Wave.{
  is_done, is_fresh, is_ready, wave_steps, first_wait, step_results, all_terminal, any_running,
}
use kubezap_operator.Run.Wave.Ready.{Ready, wave_steps-Ready, first_wait-All, All-map}
use kubezap_operator.Run.Wave.Inline.{
  Decision, leave, skip, fail_on, fail_stop, decide, round, inline_loop,
}
use kubezap_operator.Base.Assoc.{lookup}
use kubezap_operator.Run.Gc.{flagged, reconcile_gc}
use kubezap_operator.Run.Gc.Laws.{Collects, reconcile_gc-Collects}
use kubezap_operator.Run.Reconcile.{
  complete, run_ready, after_inline, advance, proceed, begin, with_flow, reconcile, started,
  blocking_failure, conclude, after_refetch, timed_out, not_begun, is_some, is_running,
}
use kubezap_operator.Run.Reconcile.Kept.{
  Preserves, Undone, Undone-back, upsert-Preserves, Keeps, fail-Keeps, run_wait-Keeps,
  run_wave-Keeps, NamesSteps,
}

-- The decision concerns a step that is not done.
abbrev pub Opens : List StepRunStatus → Decision → Type 0
Opens l leave = Unit
Opens l (skip s) = Undone l s.name
Opens l (fail_on s) = Undone l s.name
Opens l (fail_stop s m) = Undone l s.name

is_fresh-Undone : (o : Option StepRunStatus) → is_fresh o ≡ true → is_done o ≡ false
is_fresh-Undone none h = refl
is_fresh-Undone (some s) h = ground arith

pub decide-Opens :
    (rt : Runtime) (flow : FlowSpec) (results : StepResults) (params : Params) (f : FlowRun)
    (step : FlowStep)
    → Opens f.status.steps (decide rt flow results params f step)
unfolding decide
decide-Opens rt flow results params f step =
    ground (arith, is_fresh-Undone (find_step_status f.status.steps step.name))

pub is_ready-Undone :
    (flow : FlowSpec) (l : List StepRunStatus) (step : FlowStep)
    → is_ready flow l step ≡ true
    → Undone l step.name
unfolding is_ready
is_ready-Undone flow l step h = ground (arith, is_fresh-Undone (find_step_status l step.name))

module _ (rt : Runtime) (named : NamesSteps rt) (flow : FlowSpec) (l : List StepRunStatus) where
  put-Preserves :
      (f : FlowRun) (s : StepRunStatus)
      → Undone f.status.steps s.name
      → Preserves l f.status.steps
      → Preserves l (put f s).status.steps
  put-Preserves f s u h =
      upsert-Preserves l f.status.steps s (Undone-back l f.status.steps s.name h u) h

  round-Keeps :
      (results : StepResults) (params : Params) (f : FlowRun) (d : Decision) (b : Bool)
      (again : FlowRun → Bool → Plan)
      → Opens f.status.steps d
      → Preserves l f.status.steps
      → ((g : FlowRun) (c : Bool) → Preserves l g.status.steps → AllWrites (Keeps l) (again g c))
      → AllWrites (Keeps l) (round rt flow results params f d b again)
  unfolding round
  round-Keeps results params f leave b again u h k = k f b h
  round-Keeps results params f (skip s) b again u h k = k (put f s) true (put-Preserves f s u h)
  round-Keeps results params f (fail_on s) b again u h k =
      (put-Preserves f s u h, k (put f s) true (put-Preserves f s u h))
  round-Keeps results params f (fail_stop s m) b again u h k =
      (put-Preserves f s u h, fail-Keeps rt l (put f s) m (put-Preserves f s u h))

  inline_loop-Keeps :
      (results : StepResults) (params : Params) (f : FlowRun) (steps : List FlowStep) (b : Bool)
      (next : FlowRun → Bool → Plan)
      → Preserves l f.status.steps
      → ((g : FlowRun) (c : Bool) → Preserves l g.status.steps → AllWrites (Keeps l) (next g c))
      → AllWrites (Keeps l) (inline_loop rt flow results params f steps b next)
  unfolding inline_loop
  inline_loop-Keeps results params f [] b next h k = k f b h
  inline_loop-Keeps results params f (step ∷ rest) b next h k =
      round-Keeps results params f (decide rt flow results params f step) b
        (λ g c. inline_loop rt flow results params g rest c next)
        (decide-Opens rt flow results params f step) h
        (λ g c p. inline_loop-Keeps results params g rest c next p k)

  complete-Keeps :
      (f : FlowRun) → Preserves l f.status.steps → AllWrites (Keeps l) (complete rt flow f)
  unfolding complete
  complete-Keeps f h = go (blocking_failure flow f.status.steps)
    where
      go : (o : Option Message) → AllWrites (Keeps l) (conclude rt f o)
      go none = (h, (tt, tt))
      go (some m) = fail-Keeps rt l f m h

  wave-Undone :
      (f : FlowRun)
      → Preserves l f.status.steps
      → All (λ step. Undone l step.name) (wave_steps flow f.status.steps)
  wave-Undone f h =
      All-map (Ready flow f.status.steps) (λ step. Undone l step.name)
        (wave_steps flow f.status.steps)
        (λ step r.
          Undone-back l f.status.steps step.name h (is_ready-Undone flow f.status.steps step r))
        (wave_steps-Ready flow f.status.steps)

  run_ready-Keeps :
      (params : Params) (f : FlowRun) (w : Option FlowStep)
      → first_wait (wave_steps flow f.status.steps) ≡ w
      → Preserves l f.status.steps
      → AllWrites (Keeps l) (run_ready rt flow params f (wave_steps flow f.status.steps) w)
  unfolding run_ready
  run_ready-Keeps params f (some step) e h =
      run_wait-Keeps rt flow l f step
        (first_wait-All (λ s. Undone l s.name) (wave_steps flow f.status.steps) (wave-Undone f h)
          e).0
        h
  run_ready-Keeps params f none e h =
      run_wave-Keeps rt named flow l (step_results f.status.steps) params f
        (wave_steps flow f.status.steps) (wave-Undone f h) h

  after_inline-Keeps :
      (params : Params) (busy : Bool) (f : FlowRun) (b : Bool)
      → Preserves l f.status.steps
      → AllWrites (Keeps l) (after_inline rt flow params busy f b)
  unfolding after_inline
  after_inline-Keeps params busy f b h =
      if-Writes (Keeps l) b _ _ (h, refetched rt.refetch)
        (if-Writes (Keeps l) (not (is_empty (wave_steps flow f.status.steps))) _ _
          (run_ready-Keeps params f (first_wait (wave_steps flow f.status.steps)) refl h)
          (if-Writes (Keeps l) busy _ _ tt (complete-Keeps f h)))
    where
      refetched : (g : Get FlowRun) → AllWrites (Keeps l) (after_refetch rt g)
      refetched (found g) = tt
      refetched not_found = tt
      refetched unavailable = tt

  advance-Keeps :
      (f : FlowRun) (r : ParamResult)
      → Preserves l f.status.steps
      → AllWrites (Keeps l) (advance rt flow f r)
  unfolding advance
  advance-Keeps f (unresolved m) h = fail-Keeps rt l f m h
  advance-Keeps f (resolved params) h =
      if-Writes (Keeps l) (all_terminal flow f.status.steps) _ _ (complete-Keeps f h) (
        inline_loop-Keeps (step_results f.status.steps) params f flow.steps false _ h
          (after_inline-Keeps params (any_running flow f.status.steps)))

  proceed-Keeps :
      (f : FlowRun) → Preserves l f.status.steps → AllWrites (Keeps l) (proceed rt flow f)
  unfolding proceed
  proceed-Keeps f h =
      if-Writes (Keeps l) (timed_out rt f.status.start_time) _ _
        (fail-Keeps rt l f timeout_exceeded h) (advance-Keeps f _ h)

  begin-Keeps : (f : FlowRun) → Preserves l f.status.steps → AllWrites (Keeps l) (begin rt flow f)
  unfolding begin
  begin-Keeps f h =
      if-Writes (Keeps l) (contains_string f.finalizers executing_finalizer) _ _
        (h, proceed-Keeps (started rt f) h) (tt, (h, proceed-Keeps _ h))

module _ (rt : Runtime) (named : NamesSteps rt) where
  with_flow-Keeps :
      (f : FlowRun) (flow : Get FlowSpec) → AllWrites (Keeps f.status.steps) (with_flow rt f flow)
  unfolding with_flow
  with_flow-Keeps f (found flow) =
      if-Writes (Keeps f.status.steps) (not_begun f.status.phase) _ _
        (begin-Keeps rt named flow f.status.steps f (λ n s e t. e))
        (proceed-Keeps rt named flow f.status.steps f (λ n s e t. e))
  with_flow-Keeps f not_found = fail-Keeps rt f.status.steps f _ (λ n s e t. e)
  with_flow-Keeps f unavailable = tt

  cancel-Keeps :
      (f : FlowRun) (m : Message)
      → AllWrites (Keeps f.status.steps) (cancel_flow_run rt.set_condition rt.now f m)
  unfolding cancel_flow_run
  cancel-Keeps f m = ((λ n s e t. e), (tt, tt))

  Collects-Keeps :
      (l : List StepRunStatus) (plan : Plan) → AllWrites Collects plan → AllWrites (Keeps l) plan
  Collects-Keeps l (return o) h = tt
  Collects-Keeps l (write (delete g) rest) (c, h) = (tt, Collects-Keeps l rest h)
  Collects-Keeps l (write (status_update g) rest) (c, h) = absurd c
  Collects-Keeps l (write (metadata_update g) rest) (c, h) = absurd c

  reconcile-Keeps_plan : (f : FlowRun) → AllWrites (Keeps f.status.steps) (reconcile rt f)
  unfolding reconcile
  reconcile-Keeps_plan f =
      if-Writes K (is_some rt f.deletion_timestamp && is_running f.status.phase) _ _
        (cancel-Keeps f deleted_while_running)
        (if-Writes K
          (is_running f.status.phase && flagged (lookup "kubezap.io/cancel" f.annotations)) _ _
          (cancel-Keeps f cancelled_by_annotation)
          (elim (Bool-cases (run_terminal f.status.phase)) [
            | inl t ↦
                rw t
                  (Collects-Keeps f.status.steps (reconcile_gc rt f) (reconcile_gc-Collects rt f t))
            | inr t ↦ rw t (with_flow-Keeps f rt.flow)
          ]))
    where
      K : Write → Type 0
      K = Keeps f.status.steps

  -- Whatever the cluster answers, every status update of one reconcile that reaches the API server
  -- has, for each step that was Succeeded, Failed or Skipped when the FlowRun was read, the very
  -- status that was read, provided that executeStep returns the status of the step that it is given.
  pub reconcile-Keeps :
      (f : FlowRun) (reply : ℕ → Reply)
      → All (Keeps f.status.steps) (landed reply 0 (reconcile rt f))
  reconcile-Keeps f reply =
      landed-All (Keeps f.status.steps) reply 0 (reconcile rt f) (reconcile-Keeps_plan f)
