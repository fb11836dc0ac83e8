-- ===== src/Run/Gc/Quiet.antt =====
-- Garbage collection never asks for an immediate requeue.
use kubezap_operator.Base.{
  ℕ, String, Option, none, some, List, [], ◌∷◌, Bool-cases, inl, inr, arith,
}
use kubezap_operator.Base.Int.{ℤ}
use kubezap_operator.Base.Assoc.{lookup}
use kubezap_operator.Api.FlowRun.{FlowRun, FlowRunPhase}
use kubezap_operator.Api.Trigger.{FlowRunGcPolicy}
use kubezap_operator.Run.Plan.{Get, found, not_found, unavailable, requeue, Plan, return, write}
use kubezap_operator.Run.Runtime.{Runtime}
use kubezap_operator.Run.Gc.{
  label_trigger, trigger_of, policy_at, retained, excess, ttl_of, delete_all, enforce_listed,
  enforce_max_flow_runs_by_phase, enforce_flow_run_gc_policy, expire, check_ttl, enforce_for,
  reconcile_gc,
}

-- The plan does not return an immediate requeue.
abbrev pub Quiet : Plan → Type 0
Quiet (return requeue) = ⊥
Quiet (return o) = Unit
Quiet (write w rest) = Quiet rest

delete_all-Quiet : (l : List FlowRun) (next : Plan) → Quiet next → Quiet (delete_all l next)
unfolding delete_all
delete_all-Quiet [] next h = h
delete_all-Quiet (f ∷ rest) next h = delete_all-Quiet rest next h

listed-Quiet :
    (phase : FlowRunPhase) (max : ℕ) (g : Get (List FlowRun)) (next : Plan)
    → Quiet next
    → Quiet (enforce_listed phase max g next)
unfolding enforce_listed
listed-Quiet phase max (found items) next h = delete_all-Quiet (excess phase max items) next h
listed-Quiet phase max not_found next h = tt
listed-Quiet phase max unavailable next h = tt

module _ (rt : Runtime) where
  max-Quiet :
      (trigger : String) (phase : FlowRunPhase) (o : Option ℕ) (next : Plan)
      → Quiet next
      → Quiet (enforce_max_flow_runs_by_phase rt trigger phase o next)
  unfolding enforce_max_flow_runs_by_phase
  max-Quiet trigger phase none next h = h
  max-Quiet trigger phase (some max) next h =
      listed-Quiet phase max (rt.list_runs trigger phase) next h

  enforce-Quiet :
      (o : Option String) (p : Option FlowRunGcPolicy) (next : Plan)
      → Quiet next
      → Quiet (enforce_for rt o p next)
  unfolding enforce_for enforce_flow_run_gc_policy
  enforce-Quiet (some trigger) (some policy) next h =
      max-Quiet trigger _ policy.max_succeeded _ (max-Quiet trigger _ policy.max_failed next h)
  enforce-Quiet (some trigger) none next h = h
  enforce-Quiet none p next h = h

  expire-Quiet : (f : FlowRun) (ttl : ℤ) (o : Option ℤ) → Quiet (expire rt f ttl o)
  unfolding expire
  expire-Quiet f ttl none = tt
  expire-Quiet f ttl (some completion) = ground arith

  ttl-Quiet : (f : FlowRun) → Quiet (check_ttl rt f)
  unfolding check_ttl
  ttl-Quiet f = ground (arith, expire-Quiet f (ttl_of rt f) f.status.completion_time)

  pub reconcile_gc-Quiet : (f : FlowRun) → Quiet (reconcile_gc rt f)
  unfolding reconcile_gc
  reconcile_gc-Quiet f = elim (Bool-cases (retained f)) [
    | inl r ↦ rw r tt
    | inr r ↦ rw r (
        enforce-Quiet (trigger_of rt (lookup label_trigger f.labels))
          (policy_at rt 0 (trigger_of rt (lookup label_trigger f.labels))) (check_ttl rt f)
          (ttl-Quiet f))
  ]
