-- ===== src/Run/Reconcile/Transitions.antt =====
-- The transitions of a FlowRun in docs/architecture/flowrun-state-model.md, of a plan and of the writes
-- of it that land.
use kubezap_operator.Base.{ℕ, ◌+◌, ◌≡◌, Bool, true, false, List, [], ◌∷◌}
use kubezap_operator.Api.FlowRun.{FlowRunPhase}
use kubezap_operator.Run.Plan.{
  Write, status_update, metadata_update, delete, Plan, return, write, Reply, accepted, missing,
  landed_after, landed,
}

-- The transitions of the state model, and one that it leaves out: a FlowRun that has not begun
-- fails at once when its Flow is not found.
abbrev pub can_become : FlowRunPhase → FlowRunPhase → Bool
can_become FlowRunPhase.unset FlowRunPhase.running = true
can_become FlowRunPhase.unset FlowRunPhase.failed = true
can_become FlowRunPhase.pending FlowRunPhase.running = true
can_become FlowRunPhase.pending FlowRunPhase.failed = true
can_become FlowRunPhase.running FlowRunPhase.running = true
can_become FlowRunPhase.running FlowRunPhase.succeeded = true
can_become FlowRunPhase.running FlowRunPhase.failed = true
can_become FlowRunPhase.running FlowRunPhase.cancelled = true
can_become _ _ = false

-- Each status update of the plan moves the phase along a transition.
abbrev pub Follows : FlowRunPhase → Plan → Type 0
Follows p (return o) = Unit
Follows p (write (status_update g) rest) =
    (can_become p g.status.phase ≡ true) × Follows g.status.phase rest
Follows p (write (metadata_update g) rest) = Follows p rest
Follows p (write (delete g) rest) = Follows p rest

-- The same of the writes that reached the server.
abbrev pub FollowsAll : FlowRunPhase → List Write → Type 0
FollowsAll p [] = Unit
FollowsAll p (status_update g ∷ rest) =
    (can_become p g.status.phase ≡ true) × FollowsAll g.status.phase rest
FollowsAll p (metadata_update g ∷ rest) = FollowsAll p rest
FollowsAll p (delete g ∷ rest) = FollowsAll p rest

-- The writes that land from a phase on: the first one's own transition, and what follows it.
abbrev moves : FlowRunPhase → Write → FlowRunPhase
moves p (status_update g) = g.status.phase
moves p _ = p

landed_after-Follows :
    (p : FlowRunPhase) (w : Write) (r : Reply) (ws : List Write)
    → FollowsAll p (w ∷ [])
    → FollowsAll (moves p w) ws
    → FollowsAll p (landed_after w r ws)
landed_after-Follows p (delete g) missing ws t h = h
landed_after-Follows p (delete g) accepted ws t h = h
landed_after-Follows p (metadata_update g) accepted ws t h = h
landed_after-Follows p (status_update g) accepted ws t h = (t.0, h)
landed_after-Follows p w _ ws t h = tt

pub landed-Follows :
    (reply : ℕ → Reply) (i : ℕ) (p : FlowRunPhase) (plan : Plan)
    → Follows p plan
    → FollowsAll p (landed reply i plan)
unfolding landed
landed-Follows reply i p (return o) h = tt
landed-Follows reply i p (write (status_update g) rest) (t, h) =
    landed_after-Follows p (status_update g) (reply i) _ (t, tt)
      (landed-Follows reply (i + 1) g.status.phase rest h)
landed-Follows reply i p (write (metadata_update g) rest) h =
    landed_after-Follows p (metadata_update g) (reply i) _ tt
      (landed-Follows reply (i + 1) p rest h)
landed-Follows reply i p (write (delete g) rest) h =
    landed_after-Follows p (delete g) (reply i) _ tt (landed-Follows reply (i + 1) p rest h)
