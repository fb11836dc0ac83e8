-- ===== src/Run/Tests.antt =====
-- FlowRunReconciler.Reconcile and its parts, on the namespace of Run/Namespace.antt.
use kubezap_operator.Base.{
  ℕ, ◌≡◌, refl, ◌≢◌, inl, inr, ◌↔◌, String, Bool, true, false, Option, none, some, List, [], ◌∷◌,
  ◌++◌, length, any, All, arith, ◌≤◌, if◌then◌else◌, ◌==◌,
}
use mathlib.Core.List.{Perm}
use kubezap_operator.Base.Int.{pos}
use kubezap_operator.Base.Assoc.{Assoc}
use kubezap_operator.Api.Flow.{FlowStep, wait}
use kubezap_operator.Api.FlowRun.{FlowRun, FlowRunPhase, StepPhase, StepRunStatus}
use kubezap_operator.Run.Plan.{found, Plan, landed, return, write, status_update, requeue}
use kubezap_operator.Run.Steps.{find_step_status, dependencies_met}
use kubezap_operator.Run.Steps.Deps.{Satisfied, dependencies_met_iff}
use kubezap_operator.Run.Runtime.{Runtime}
use kubezap_operator.Run.Wait.{with_steps, put, resume_of, run_wait}
use kubezap_operator.Run.Wait.Laws.{WaitStep, run_wait-WaitStep}
use kubezap_operator.Run.Wave.Batch.{run_wave}
use kubezap_operator.Run.Wave.Batch.Laws.{Tolerated}
use kubezap_operator.Run.Wave.Batch.Written.{IsWritten, run_wave_outcome}
use kubezap_operator.Run.Gc.{matching, excess}
use kubezap_operator.Run.Gc.Laws.{Collects}
use kubezap_operator.Run.Gc.Oldest.{NotAfter, kept, excess_lem}
use kubezap_operator.Run.Reconcile.{reconcile}
use kubezap_operator.Run.Reconcile.Phases.{reconcile-Follows, reconcile_terminal}
use kubezap_operator.Run.Reconcile.Transitions.{FollowsAll}
use kubezap_operator.Run.Reconcile.Kept.{Keeps, NamesSteps}
use kubezap_operator.Run.Reconcile.Stable.{reconcile-Keeps}
use kubezap_operator.Run.Reconcile.Success.{Earned}
use kubezap_operator.Run.Reconcile.Success.Whole.{reconcile-Earned}
use kubezap_operator.Run.Reconcile.Stuck.{stuck_succeeds}
use kubezap_operator.Run.Namespace.{
  step, fetch_then_store, cyclic, status_of, run_of, runtime_of, accept_all, half_done, all_done,
  finished_run, run_two_steps,
}

finishes_with_two_writes : length (landed accept_all 0 (reconcile run_two_steps all_done)) ≡ 2
unfolding landed reconcile kubezap_operator.Base.Assoc.lookup
    kubezap_operator.Run.Reconcile.with_flow kubezap_operator.Run.Reconcile.proceed
    kubezap_operator.Run.Reconcile.advance kubezap_operator.Run.Wave.all_terminal find_step_status
    kubezap_operator.Run.Reconcile.complete
finishes_with_two_writes = refl

reconcile-Follows_example :
    FollowsAll FlowRunPhase.running (landed accept_all 0 (reconcile run_two_steps all_done))
reconcile-Follows_example = reconcile-Follows run_two_steps all_done accept_all

reconcile_terminal_example :
    All Collects (landed accept_all 0 (reconcile run_two_steps finished_run))
reconcile_terminal_example = reconcile_terminal run_two_steps finished_run accept_all refl

names_steps : NamesSteps run_two_steps
names_steps s f results params = refl

reconcile-Keeps_example :
    All (Keeps half_done.status.steps) (landed accept_all 0 (reconcile run_two_steps half_done))
reconcile-Keeps_example = reconcile-Keeps run_two_steps names_steps half_done accept_all

reconcile-Earned_example :
    All (Earned fetch_then_store) (landed accept_all 0 (reconcile run_two_steps all_done))
reconcile-Earned_example = reconcile-Earned run_two_steps fetch_then_store all_done accept_all refl

stuck_succeeds_example :
    (g : FlowRun) × (rest : Plan) × (reconcile
        (runtime_of (found cyclic))
        (run_of FlowRunPhase.running [] none)
      ≡ write (status_update g) rest)
    × (g.status.phase ≡ FlowRunPhase.succeeded)
    × (g.status.steps ≡ [])
unfolding kubezap_operator.Base.Assoc.lookup
stuck_succeeds_example =
    stuck_succeeds (runtime_of (found cyclic)) cyclic (run_of FlowRunPhase.running [] none) [] refl
      refl refl refl refl refl refl (λ e. ground arith)
      ((λ e. ground arith), ((λ e. ground arith), tt))

abbrev three_runs : List FlowRun
three_runs =
    run_of FlowRunPhase.succeeded [] (some (pos 40))
    ∷ run_of FlowRunPhase.failed [] (some (pos 35))
    ∷ run_of FlowRunPhase.succeeded [] (some (pos 30))
    ∷ []

oldest_is_excess :
    excess FlowRunPhase.succeeded 1 three_runs
    ≡ run_of FlowRunPhase.succeeded [] (some (pos 30)) ∷ []
unfolding excess matching kubezap_operator.Base.Assoc.lookup
oldest_is_excess = refl

excess_lem_example :
    Perm
      (excess FlowRunPhase.succeeded 1 three_runs ++ kept FlowRunPhase.succeeded 1 three_runs)
      (matching FlowRunPhase.succeeded three_runs)
    × (length (kept FlowRunPhase.succeeded 1 three_runs) ≤ 1)
    × (excess FlowRunPhase.succeeded 1 three_runs ≢ []
        → length (kept FlowRunPhase.succeeded 1 three_runs) ≡ 1)
    × All
        (λ f. All (NotAfter f) (kept FlowRunPhase.succeeded 1 three_runs))
        (excess FlowRunPhase.succeeded 1 three_runs)
excess_lem_example = excess_lem FlowRunPhase.succeeded 1 three_runs

abbrev pub store : FlowStep
store = step "store" ("fetch" ∷ [])

abbrev two_steps : List FlowStep
two_steps = step "fetch" [] ∷ store ∷ []

abbrev fetched : List StepRunStatus
fetched = status_of "fetch" StepPhase.succeeded ∷ []

dependencies_met_iff_example :
    (dependencies_met store fetched two_steps false ≡ true)
    ↔ All (Satisfied fetched two_steps false) store.run_after
dependencies_met_iff_example = dependencies_met_iff fetched two_steps false store

succeeds : All (Tolerated run_two_steps fetch_then_store [] [] half_done) (store ∷ [])
succeeds = ((λ ss e p. ground arith), tt)

run_wave_outcome_example :
    (statuses : List StepRunStatus) × (run_wave run_two_steps fetch_then_store [] [] half_done
        (store ∷ [])
      ≡ write (status_update (with_steps half_done statuses)) (return requeue))
    × IsWritten run_two_steps fetch_then_store [] [] half_done (store ∷ []) statuses
run_wave_outcome_example =
    (run_wave_outcome run_two_steps fetch_then_store [] [] half_done (store ∷ []) (λ step. refl)
        (tt, tt)).1
      refl succeeds

-- Every duration is fifty nanoseconds.
abbrev sleepy : Runtime
sleepy = record run_two_steps { parse_duration = λ text. some (pos 50) }

abbrev pause : FlowStep
pause = record store {
  action = record {
    type = wait;
    http = none;
    transform = none;
    publish = none;
    wait = some (record { duration = "50ns" });
  };
}

-- `store` waits until 90, and it is 100 now.
abbrev waiting_run : FlowRun
waiting_run =
    run_of FlowRunPhase.running
      (record (status_of "store" StepPhase.waiting) { resume_after = some (pos 90) } ∷ []) none

run_wait-WaitStep_example :
    (new : StepRunStatus) × (rest : Plan) × (run_wait sleepy fetch_then_store waiting_run pause
      ≡ write (status_update (put waiting_run new)) rest)
    × (new.name ≡ "store")
    × WaitStep
        (pos 100)
        (λ text. some (pos 50))
        pause
        (resume_of (find_step_status waiting_run.status.steps "store"))
        new
run_wait-WaitStep_example = run_wait-WaitStep sleepy fetch_then_store waiting_run pause
