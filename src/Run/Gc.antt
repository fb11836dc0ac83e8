-- ===== src/Run/Gc.antt =====
-- internal/controller/flowrun_controller.go: garbage collection of finished FlowRuns (reconcileGC,
-- enforceFlowRunGCPolicy, enforceMaxFlowRunsByPhase). `sort.Slice` is an insertion sort by the
-- source's comparison.
pub mod Laws
pub mod Oldest
pub mod Quiet
use kubezap_operator.Base.{
  ℕ, ◌-◌, String, Bool, true, false, ◌&&◌, not, Option, none, some, List, [], ◌∷◌, ◌==◌, leb, eqb,
  length, take, if◌then◌else◌,
}
use kubezap_operator.Base.Int.{ℤ, pos, ◌+ℤ◌, ◌-ℤ◌, ltb_ℤ}
use kubezap_operator.Base.Assoc.{Assoc, lookup}
use kubezap_operator.Api.Trigger.{FlowRunGcPolicy}
use kubezap_operator.Api.FlowRun.{
  FlowRun, FlowRunPhase, unset, pending, running, succeeded, failed, cancelled,
}
use kubezap_operator.Run.Plan.{
  Get, found, not_found, unavailable, Plan, return, write, delete, done, error, requeue_after,
}
use kubezap_operator.Run.Runtime.{Runtime}

abbrev pub label_trigger : String
label_trigger = "kubezap.io/trigger"

-- `annotations[key] == "true"`
abbrev pub flagged : Option String → Bool
flagged none = false
flagged (some v) = v == "true"

abbrev pub retained : FlowRun → Bool
retained f = flagged (lookup "kubezap.io/retain" f.annotations)

abbrev pub same_phase : FlowRunPhase → FlowRunPhase → Bool
same_phase unset unset = true
same_phase pending pending = true
same_phase running running = true
same_phase succeeded succeeded = true
same_phase failed failed = true
same_phase cancelled cancelled = true
same_phase _ _ = false

-- The FlowRuns that count: those in the phase that are not retained.
unfoldable pub matching : FlowRunPhase → List FlowRun → List FlowRun
matching phase [] = []
matching phase (f ∷ rest) =
    let later = matching phase rest in
    let taken = f ∷ later in
    if same_phase f.status.phase phase && not (retained f) then taken else later

-- The comparison of `sort.Slice`: no completion time comes first.
abbrev pub completed_before : Option ℤ → Option ℤ → Bool
completed_before none t = true
completed_before (some s) none = false
completed_before (some s) (some t) = ltb_ℤ s t

unfoldable pub insert_run : FlowRun → List FlowRun → List FlowRun
insert_run f [] = f ∷ []
insert_run f (g ∷ rest) =
    if completed_before f.status.completion_time g.status.completion_time
    then f ∷ g ∷ rest
    else g ∷ insert_run f rest

unfoldable pub sort_runs : List FlowRun → List FlowRun
unfolding insert_run
sort_runs [] = []
sort_runs (f ∷ rest) = insert_run f (sort_runs rest)

-- The FlowRuns that are deleted, oldest first, so that at most `max` are left.
unfoldable pub excess : FlowRunPhase → ℕ → List FlowRun → List FlowRun
unfolding matching sort_runs
excess phase max items =
    let counted = matching phase items in
    if leb (length counted) max then [] else take (length counted - max) (sort_runs counted)

-- Deletes in order, then goes on.
unfoldable pub delete_all : List FlowRun → Plan → Plan
delete_all [] next = next
delete_all (f ∷ rest) next = write (delete f) (delete_all rest next)

unfoldable pub enforce_listed : FlowRunPhase → ℕ → Get (List FlowRun) → Plan → Plan
unfolding excess delete_all
enforce_listed phase max (found items) next = delete_all (excess phase max items) next
enforce_listed phase max _ next = return error

module _ (rt : Runtime) where
  open rt use {now, ttl_succeeded, ttl_failed, get_trigger, list_runs}

  unfoldable pub enforce_max_flow_runs_by_phase : String → FlowRunPhase → Option ℕ → Plan → Plan
  unfolding enforce_listed
  enforce_max_flow_runs_by_phase trigger phase none next = next
  enforce_max_flow_runs_by_phase trigger phase (some max) next =
      enforce_listed phase max (list_runs trigger phase) next

  unfoldable pub enforce_flow_run_gc_policy : String → FlowRunGcPolicy → Plan → Plan
  unfolding enforce_max_flow_runs_by_phase
  enforce_flow_run_gc_policy trigger policy next =
      enforce_max_flow_runs_by_phase trigger succeeded policy.max_succeeded
        (enforce_max_flow_runs_by_phase trigger failed policy.max_failed next)

  -- `labels[labelTrigger]`, when present and not empty.
  abbrev pub trigger_of : Option String → Option String
  trigger_of none = none
  trigger_of (some name) = if name == "" then none else some name

  abbrev pub policy_found : Get (Option FlowRunGcPolicy) → Option FlowRunGcPolicy
  policy_found (found p) = p
  policy_found _ = none

  -- The policy that the i-th read of the FlowRun's Trigger gives; errors are ignored.
  abbrev pub policy_at : ℕ → Option String → Option FlowRunGcPolicy
  policy_at i none = none
  policy_at i (some name) = policy_found (get_trigger i name)

  abbrev or_ttl : Option ℤ → ℤ → ℤ
  or_ttl none ttl = ttl
  or_ttl (some t) ttl = t

  abbrev policy_ttl : FlowRunPhase → Option FlowRunGcPolicy → ℤ → ℤ
  policy_ttl succeeded (some p) ttl = or_ttl p.ttl_after_succeeded ttl
  policy_ttl failed (some p) ttl = or_ttl p.ttl_after_failed ttl
  policy_ttl _ _ ttl = ttl

  abbrev flag_ttl : FlowRunPhase → ℤ
  flag_ttl failed = ttl_failed
  flag_ttl _ = ttl_succeeded

  unfoldable pub ttl_of : FlowRun → ℤ
  ttl_of f = or_ttl f.spec.ttl_after_finished (
      policy_ttl f.status.phase (policy_at 1 (trigger_of (lookup label_trigger f.labels)))
        (flag_ttl f.status.phase))

  abbrev is_zero : ℤ → Bool
  is_zero (pos n) = eqb n 0
  is_zero _ = false

  expire : FlowRun → ℤ → Option ℤ → Plan
  expire f ttl none = return done
  expire f ttl (some completion) =
      if ltb_ℤ now (completion +ℤ ttl)
      then return (requeue_after (completion +ℤ ttl -ℤ now))
      else write (delete f) (return done)

  check_ttl : FlowRun → Plan
  unfolding ttl_of expire
  check_ttl f =
      if is_zero (ttl_of f) then return done else expire f (ttl_of f) f.status.completion_time

  enforce_for : Option String → Option FlowRunGcPolicy → Plan → Plan
  unfolding enforce_flow_run_gc_policy
  enforce_for (some trigger) (some policy) next = enforce_flow_run_gc_policy trigger policy next
  enforce_for _ _ next = next

  -- The caller turns a positive duration into a requeue after it.
  unfoldable pub reconcile_gc : FlowRun → Plan
  unfolding check_ttl enforce_for
  reconcile_gc f =
      if retained f
      then return done
      else enforce_for (trigger_of (lookup label_trigger f.labels))
          (policy_at 0 (trigger_of (lookup label_trigger f.labels))) (check_ttl f)
