-- ===== src/Run/Gc/Laws.antt =====
-- Garbage collection deletes finished, unretained FlowRuns only.
use kubezap_operator.Base.{
  ℕ, zero, suc, ◌-◌, String, ◌≡◌, refl, true, false, Option, none, some, List, [], ◌∷◌, arith,
  length, take, drop, All, Bool-cases, inl, inr,
}
use kubezap_operator.Api.Trigger.{FlowRunGcPolicy}
use kubezap_operator.Api.FlowRun.{FlowRun, FlowRunPhase, succeeded, failed, run_terminal}
use kubezap_operator.Run.Plan.{Get, found, not_found, unavailable, Write, delete, Plan}
use kubezap_operator.Run.Plan.Laws.{AllWrites}
use kubezap_operator.Run.Runtime.{Runtime}
use kubezap_operator.Run.Gc.{
  retained, same_phase, matching, insert_run, sort_runs, excess, delete_all, enforce_listed,
  enforce_for, check_ttl, enforce_max_flow_runs_by_phase, enforce_flow_run_gc_policy, reconcile_gc,
}

-- The write deletes a FlowRun that is finished and not retained.
abbrev pub Collects : Write → Type 0
Collects (delete g) = (retained g ≡ false) × (run_terminal g.status.phase ≡ true)
Collects _ = ⊥

abbrev InPhase : FlowRunPhase → FlowRun → Type 0
InPhase phase g = (retained g ≡ false) × (same_phase g.status.phase phase ≡ true)

matching-InPhase :
    (phase : FlowRunPhase) (l : List FlowRun) → All (InPhase phase) (matching phase l)
unfolding matching
matching-InPhase phase [] = tt
matching-InPhase phase (f ∷ rest) = ground (arith, matching-InPhase phase rest)

module _ (P : FlowRun → Type 0) where
  pub insert_run-All : (f : FlowRun) (l : List FlowRun) → P f → All P l → All P (insert_run f l)
  unfolding insert_run
  insert_run-All f [] p h = (p, tt)
  insert_run-All f (g ∷ rest) p (q, h) = ground (arith, insert_run-All f rest p h)

  sort_runs-All : (l : List FlowRun) → All P l → All P (sort_runs l)
  unfolding sort_runs
  sort_runs-All [] h = tt
  sort_runs-All (f ∷ rest) (p, h) = insert_run-All f (sort_runs rest) p (sort_runs-All rest h)

  pub drop-All : (n : ℕ) (l : List FlowRun) → All P l → All P (drop n l)
  drop-All zero l h = h
  drop-All (suc n) [] h = tt
  drop-All (suc n) (f ∷ rest) (p, h) = drop-All n rest h

  take-All : (n : ℕ) (l : List FlowRun) → All P l → All P (take n l)
  take-All zero l h = tt
  take-All (suc n) [] h = tt
  take-All (suc n) (f ∷ rest) (p, h) = (p, take-All n rest h)

excess-InPhase :
    (phase : FlowRunPhase) (max : ℕ) (items : List FlowRun)
    → All (InPhase phase) (excess phase max items)
unfolding excess
excess-InPhase phase max items = ground (
  arith,
  take-All (InPhase phase) (length (matching phase items) - max) (sort_runs (matching phase items))
      (sort_runs-All (InPhase phase) (matching phase items) (matching-InPhase phase items)),
)

delete_all-Collects :
    (phase : FlowRunPhase) (l : List FlowRun) (next : Plan)
    → run_terminal phase ≡ true
    → All (InPhase phase) l
    → AllWrites Collects next
    → AllWrites Collects (delete_all l next)
unfolding delete_all
delete_all-Collects phase [] next t h k = k
delete_all-Collects phase (f ∷ rest) next t (p, h) k =
    ground (arith, delete_all-Collects phase rest next t h k)

module _ (rt : Runtime) where
  enforce-Collects :
      (trigger : String) (phase : FlowRunPhase) (max : Option ℕ) (next : Plan)
      → run_terminal phase ≡ true
      → AllWrites Collects next
      → AllWrites Collects (enforce_max_flow_runs_by_phase rt trigger phase max next)
  unfolding enforce_max_flow_runs_by_phase
  enforce-Collects trigger phase none next t k = k
  enforce-Collects trigger phase (some max) next t k = go (rt.list_runs trigger phase)
    where
      go : (items : Get (List FlowRun)) → AllWrites Collects (enforce_listed phase max items next)
      go (found items) =
          delete_all-Collects phase (excess phase max items) next t (excess-InPhase phase max items)
            k
      go not_found = tt
      go unavailable = tt

  policy-Collects :
      (trigger : String) (policy : FlowRunGcPolicy) (next : Plan)
      → AllWrites Collects next
      → AllWrites Collects (enforce_flow_run_gc_policy rt trigger policy next)
  unfolding enforce_flow_run_gc_policy
  policy-Collects trigger policy next k =
      enforce-Collects trigger succeeded policy.max_succeeded _ refl
        (enforce-Collects trigger failed policy.max_failed next refl k)

  enforce_for-Collects :
      (trigger : Option String) (policy : Option FlowRunGcPolicy) (next : Plan)
      → AllWrites Collects next
      → AllWrites Collects (enforce_for rt trigger policy next)
  unfolding enforce_for
  enforce_for-Collects (some trigger) (some policy) next k = policy-Collects trigger policy next k
  enforce_for-Collects (some trigger) none next k = k
  enforce_for-Collects none policy next k = k

  check_ttl-Collects :
      (f : FlowRun)
      → retained f ≡ false
      → run_terminal f.status.phase ≡ true
      → AllWrites Collects (check_ttl rt f)
  unfolding check_ttl
  check_ttl-Collects f r t = ground arith

  -- Whatever the Trigger and its FlowRuns, garbage collection of a finished FlowRun deletes only
  -- FlowRuns that are finished and carry no retain annotation, and writes nothing else.
  pub reconcile_gc-Collects :
      (f : FlowRun) → run_terminal f.status.phase ≡ true → AllWrites Collects (reconcile_gc rt f)
  unfolding reconcile_gc
  reconcile_gc-Collects f t = elim (Bool-cases (retained f)) [
    | inl r ↦ rw r tt
    | inr r ↦ rw r (enforce_for-Collects _ _ _ (check_ttl-Collects f r t))
  ]
