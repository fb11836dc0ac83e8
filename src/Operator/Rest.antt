-- ===== src/Operator/Rest.antt =====
-- Reconcile after reconcile: the FlowRun that the API server has after each, and that the repeats come
-- to an end.
use kubezap_operator.Base.{ℕ, zero, suc, ◌+◌, ◌<◌, ◌≡◌, ◌≢◌, refl, length, List, [], ◌∷◌, arith}
use kubezap_operator.Api.Flow.{FlowStep, FlowSpec}
use kubezap_operator.Api.FlowRun.{FlowRun, StepRunStatus}
use kubezap_operator.Run.Plan.{
  found, Outcome, done, requeue, requeue_after, error, Write, status_update, metadata_update,
  delete, Plan, return, write, Reply, accepted, missing, refused, landed, landed_after, outcome,
  outcome_after,
}
use kubezap_operator.Run.Reconcile.{reconcile}
use kubezap_operator.Run.Reconcile.Progress.Measure.{undone, undone-le-length}
use kubezap_operator.Run.Reconcile.Progress.Steps.{Advances}
use kubezap_operator.Operator.{Outside, operator}
use kubezap_operator.Operator.Laws.{operator-Advances}

-- What an update leaves on the server: the status is a subresource, which the other update keeps. The
-- deletions are of other FlowRuns or the last of this one.
abbrev pub updated : Write → FlowRun → FlowRun
updated (status_update g) f = record f { status = g.status }
updated (metadata_update g) f = record g { status = f.status }
updated (delete g) f = f

abbrev pub updated_all : List Write → FlowRun → FlowRun
updated_all [] f = f
updated_all (w ∷ rest) f = updated_all rest (updated w f)

-- What one answer leaves, given what it leaves when the write lands.
answered-less :
    (steps : List FlowStep) (l : List StepRunStatus) (w : Write) (a : Reply) (o : Outcome)
    (ws : List Write) (f : FlowRun)
    → outcome_after w a o ≡ requeue
    → (o ≡ requeue → undone steps (updated_all (w ∷ ws) f).status.steps < undone steps l)
    → undone steps (updated_all (landed_after w a ws) f).status.steps < undone steps l
answered-less steps l (delete g) missing o ws f e less = less e
answered-less steps l w accepted o ws f e less = less e
answered-less steps l (status_update g) missing o ws f e less = ground arith
answered-less steps l (metadata_update g) missing o ws f e less = ground arith
answered-less steps l w refused o ws f e less = ground arith

-- A reconcile that asks to be repeated at once has each update land, so the server has the
-- statuses written last.
landed-Advances :
    (steps : List FlowStep) (l : List StepRunStatus) (reply : ℕ → Reply) (i : ℕ) (plan : Plan)
    (f : FlowRun)
    → Advances steps l f.status.steps plan
    → outcome reply i plan ≡ requeue
    → undone steps (updated_all (landed reply i plan) f).status.steps < undone steps l
unfolding landed outcome
landed-Advances steps l reply i (return requeue) f h e = h
landed-Advances steps l reply i (return done) f h e = ground arith
landed-Advances steps l reply i (return error) f h e = ground arith
landed-Advances steps l reply i (return (requeue_after d)) f h e = ground arith
landed-Advances steps l reply i (write (status_update g) rest) f h e =
    answered-less steps l (status_update g) (reply i) _ _ f e
      (landed-Advances steps l reply (i + 1) rest (record f { status = g.status }) h)
landed-Advances steps l reply i (write (metadata_update g) rest) f h e =
    answered-less steps l (metadata_update g) (reply i) _ _ f e
      (landed-Advances steps l reply (i + 1) rest (record g { status = f.status }) h)
landed-Advances steps l reply i (write (delete g) rest) f h e =
    answered-less steps l (delete g) (reply i) _ _ f e
      (landed-Advances steps l reply (i + 1) rest f h)

module _ {ℓ} {Program : Type ℓ} (outs : ℕ → Outside Program) (replies : ℕ → ℕ → Reply) where
  -- The n-th reconcile, of the FlowRun `f`: its outcome, and what the server has after it.
  unfoldable pub outcome_of : ℕ → FlowRun → Outcome
  unfolding outcome
  outcome_of n f = outcome (replies n) 0 (reconcile (operator (outs n)) f)

  abbrev pub next_of : ℕ → FlowRun → FlowRun
  next_of n f = updated_all (landed (replies n) 0 (reconcile (operator (outs n)) f)) f

  -- The workqueue calls again at once, `fuel` times at most, from the n-th reconcile on.
  unfoldable pub last_outcome : ℕ → ℕ → FlowRun → Outcome
  last_outcome zero n f = requeue
  last_outcome (suc fuel) n f = elim (outcome_of n f) [
    | requeue ↦ last_outcome fuel (suc n) (next_of n f)
    | done ↦ done
    | error ↦ error
    | requeue_after d ↦ requeue_after d
  ]

  module _ (flow : FlowSpec) (has_flow : (n : ℕ) → (outs n).flow ≡ found flow) where
    next-less :
        (n : ℕ) (f : FlowRun)
        → outcome_of n f ≡ requeue
        → undone flow.steps (next_of n f).status.steps < undone flow.steps f.status.steps
    unfolding outcome_of operator
    next-less n f e =
        landed-Advances flow.steps f.status.steps (replies n) 0 (reconcile (operator (outs n)) f) f
          (operator-Advances (outs n) flow f (has_flow n)) e

    -- One more round, given what the rounds after it come to.
    again-Rests :
        (fuel n : ℕ) (f : FlowRun) (o : Outcome)
        → (o ≡ requeue → last_outcome fuel (suc n) (next_of n f) ≢ requeue)
        → (elim o [
          | requeue ↦ last_outcome fuel (suc n) (next_of n f)
          | done ↦ done
          | error ↦ error
          | requeue_after d ↦ requeue_after d
        ])
          ≢ requeue
    again-Rests fuel n f requeue later = later refl
    again-Rests fuel n f done later = λ h. ground arith
    again-Rests fuel n f error later = λ h. ground arith
    again-Rests fuel n f (requeue_after d) later = λ h. ground arith

    last_outcome-Rests :
        (fuel n : ℕ) (f : FlowRun)
        → undone flow.steps f.status.steps < fuel
        → last_outcome fuel n f ≢ requeue
    unfolding last_outcome
    last_outcome-Rests zero n f less = absurd (omega arith)
    last_outcome-Rests (suc fuel) n f less =
        again-Rests fuel n f (outcome_of n f)
          λ e. last_outcome-Rests fuel (suc n) (next_of n f) (omega (arith, next-less n f e))

-- However many steps the Flow has, the reconciles that ask to be repeated at once come to an end: of
-- any FlowRun whose Flow is found each time, more reconciles one after the other than the Flow has
-- steps never all ask for the next at once. What else the outside says, and what the API server
-- answers to each write, may differ from reconcile to reconcile.
pub operator_rests {ℓ} :
    {Program : Type ℓ} (outs : ℕ → Outside Program) (replies : ℕ → ℕ → Reply) (flow : FlowSpec)
    (fuel : ℕ) (f : FlowRun)
    → ((n : ℕ) → (outs n).flow ≡ found flow)
    → length flow.steps < fuel
    → last_outcome outs replies fuel 0 f ≢ requeue
operator_rests outs replies flow fuel f has_flow enough =
    last_outcome-Rests outs replies flow has_flow fuel 0 f
      (omega (arith, undone-le-length flow.steps f.status.steps))
