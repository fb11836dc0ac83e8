-- ===== src/Run/Plan/Laws.antt =====
-- What holds of every write of a plan holds of the writes that reach the server.
use kubezap_operator.Base.{ℕ, ◌+◌, Bool, true, false, List, All, if◌then◌else◌}
use kubezap_operator.Run.Plan.{
  Outcome, Write, delete, Plan, return, write, Reply, accepted, missing, landed_after, landed,
}

module _ {κ} (P : Write → Type κ) where
  abbrev pub AllWrites : Plan → Type κ
  AllWrites (return o) = Unit
  AllWrites (write w rest) = P w × AllWrites rest

  pub if-Writes :
      (b : Bool) (p q : Plan) → AllWrites p → AllWrites q → AllWrites (if b then p else q)
  if-Writes true p q h k = h
  if-Writes false p q h k = k

  landed_after-All :
      (w : Write) (r : Reply) (ws : List Write) → P w → All P ws → All P (landed_after w r ws)
  landed_after-All (delete f) missing ws p h = h
  landed_after-All w accepted ws p h = (p, h)
  landed_after-All w _ ws p h = tt

  pub landed-All :
      (reply : ℕ → Reply) (i : ℕ) (plan : Plan) → AllWrites plan → All P (landed reply i plan)
  unfolding landed
  landed-All reply i (return o) h = tt
  landed-All reply i (write w rest) (p, h) =
      landed_after-All w (reply i) (landed reply (i + 1) rest) p (landed-All reply (i + 1) rest h)

-- The results that a plan may return, were every write to succeed.
abbrev pub returns : Plan → Outcome
returns (return o) = o
returns (write w rest) = returns rest
