-- ===== src/Run/Plan.antt =====
-- What a reconcile does to the cluster: the writes it sends, in order, and the result it returns. A
-- write that fails ends the reconcile with that error, as every
-- `if err := …; err != nil { return …, err }` of flowrun_controller.go does; `Status().Update` and
-- `Update` fail on any error, and `Delete` on any error but NotFound. A successful write leaves the
-- object in hand as it was sent (only its resourceVersion is new).
pub mod Laws
use kubezap_operator.Base.{ℕ, suc, ◌+◌, Bool, true, false, List, [], ◌∷◌}
use kubezap_operator.Base.Int.{ℤ}
use kubezap_operator.Api.FlowRun.{FlowRun}

-- What a read of the API server gives.
pub data Get {ℓ} (A : Type ℓ) : Type ℓ where
  found : A → Get A
  not_found : Get A
  unavailable : Get A

-- `(ctrl.Result, error)`.
pub data Outcome : Type 0 where
  done requeue error : Outcome
  requeue_after : ℤ → Outcome

pub data Write : Type 0 where
  status_update metadata_update delete : FlowRun → Write

pub data Plan : Type 0 where
  return : Outcome → Plan
  write : Write → Plan → Plan

-- What the API server answers to one write.
pub data Reply : Type 0 where
  accepted missing refused : Reply

-- What the server has of a write and of the later ones, `ws`, given its answer: an accepted write,
-- then the later ones; only the later ones where there is nothing left to delete; nothing where the
-- error ends the reconcile.
abbrev pub landed_after : Write → Reply → List Write → List Write
landed_after w accepted ws = w ∷ ws
landed_after (delete f) missing ws = ws
landed_after w _ ws = []

-- The writes that reach the server, in order, where `reply i` answers the i-th one.
unfoldable pub landed : (ℕ → Reply) → ℕ → Plan → List Write
landed reply i (return o) = []
landed reply i (write w rest) = landed_after w (reply i) (landed reply (i + 1) rest)

abbrev pub outcome_after : Write → Reply → Outcome → Outcome
outcome_after w accepted o = o
outcome_after (delete f) missing o = o
outcome_after w _ o = error

unfoldable pub outcome : (ℕ → Reply) → ℕ → Plan → Outcome
outcome reply i (return o) = o
outcome reply i (write w rest) = outcome_after w (reply i) (outcome reply (i + 1) rest)
