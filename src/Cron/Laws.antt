-- ===== src/Cron/Laws.antt =====
-- How many FlowRuns the fires of a cron Trigger with a cooldown create.
use Prim.Native.Nat.{min}
use kubezap_operator.Base.{
  ℕ, suc, ◌+◌, ◌-◌, ◌≤◌, ◌<◌, ◌≡◌, refl, true, Option, none, some, List, [], ◌∷◌, length, arith,
}
use kubezap_operator.Cron.{
  CooldownPolicy, TriggerStatus, stamp, patched, created, Answers, window_or_default, fire, fires,
  one_if,
}

module _ (m : ℕ) (window : Option ℕ) (start : ℕ) where
  abbrev policy : CooldownPolicy
  policy = record { max_invocations = suc m; window = window }

  -- The fires come before the window that began at `start` ends.
  abbrev pub Within : List (ℕ × Answers) → Type 0
  Within [] = Unit
  Within ((now, answers) ∷ rest) = (now < start + window_or_default window) × Within rest

  -- One fire in the window: its begin stays, and each FlowRun is counted.
  fire-Within :
      (now : ℕ) (answers : Answers) (status : TriggerStatus)
      → now < start + window_or_default window
      → status.last_triggered_time ≡ some start
      → ((fire answers now (some policy) status).status.last_triggered_time ≡ some start)
        × (one_if (fire answers now (some policy) status).has_created
              + status.current_invocation_count
            ≤ (fire answers now (some policy) status).status.current_invocation_count)
        × ((fire answers now (some policy) status).status.current_invocation_count
            ≤ status.current_invocation_count + (suc m - status.current_invocation_count))
  unfolding fire
  fire-Within now answers status lt last = ground arith

  -- Whatever the API server answers, the fires before the end of the window that is open create at
  -- most as many FlowRuns as its count leaves of the limit.
  pub fires-Within :
      (l : List (ℕ × Answers)) (status : TriggerStatus)
      → Within l
      → status.last_triggered_time ≡ some start
      → fires (some policy) l status ≤ suc m - status.current_invocation_count
  unfolding fires
  fires-Within [] status w last = omega arith
  fires-Within ((now, answers) ∷ rest) status (lt, w) last =
      let (last', counted, bounded) = fire-Within now answers status lt last in
      omega (arith, fires-Within rest (fire answers now (some policy) status).status w last')

-- Every call is answered, and no FlowRun of the name is there.
abbrev pub calm : Answers
calm = record { found = true; cooldown_patch = patched; create = created; result_patch = patched }

abbrev pub calmly : List ℕ → List (ℕ × Answers)
calmly [] = []
calmly (now ∷ rest) = (now, calm) ∷ calmly rest

module _ (m : ℕ) (window : Option ℕ) where
  calm-Within :
      (start now : ℕ) (status : TriggerStatus)
      → now < start + window_or_default window
      → status.last_triggered_time ≡ some start
      → (one_if (fire calm now (some (policy m window start)) status).has_created
          ≡ min 1 (suc m - status.current_invocation_count))
        × ((fire calm now (some (policy m window start)) status).status.last_triggered_time
            ≡ some start)
        × ((fire calm now (some (policy m window start)) status).status.current_invocation_count
            ≡ status.current_invocation_count
              + one_if (fire calm now (some (policy m window start)) status).has_created)
  unfolding fire
  calm-Within start now status lt last = ground arith

  calm_fires :
      (start : ℕ) (times : List ℕ) (status : TriggerStatus)
      → Within m window start (calmly times)
      → status.last_triggered_time ≡ some start
      → fires (some (policy m window start)) (calmly times) status
        ≡ min (length times) (suc m - status.current_invocation_count)
  unfolding fires
  calm_fires start [] status w last = omega arith
  calm_fires start (now ∷ rest) status (lt, w) last =
      let (one, last', count) = calm-Within start now status lt last in
      omega (
        arith,
        calm_fires start rest (fire calm now (some (policy m window start)) status).status w last',
      )

  -- No window is open, or the one that is has ended; it began at a whole second.
  abbrev pub Ended : ℕ → Option ℕ → Type 0
  Ended now none = Unit
  Ended now (some start) = (start + window_or_default window ≤ now) × (stamp start ≡ start)

  first_calm :
      (now : ℕ) (status : TriggerStatus) (o : Option ℕ)
      → status.last_triggered_time ≡ o
      → Ended now o
      → ((fire calm now (some (policy m window 0)) status).has_created ≡ true)
        × ((fire calm now (some (policy m window 0)) status).status.last_triggered_time
            ≡ some (stamp now))
        × ((fire calm now (some (policy m window 0)) status).status.current_invocation_count ≡ 1)
  unfolding fire
  first_calm now status none e h = ground arith
  first_calm now status (some start) e h = ground arith

  -- When no window is open, or the last one has ended, fires that are all answered, up to the end of
  -- the window that the first of them opens, create a FlowRun each, up to the limit: what was created
  -- before, however shortly, does not count.
  pub new_window_fires :
      (now : ℕ) (later : List ℕ) (status : TriggerStatus)
      → Ended now status.last_triggered_time
      → Within m window (stamp now) (calmly later)
      → fires (some (policy m window 0)) (calmly (now ∷ later)) status
        ≡ min (suc (length later)) (suc m)
  unfolding fires
  new_window_fires now later status h w =
      let (made, last', count) = first_calm now status status.last_triggered_time refl h in
      let after = (fire calm now (some (policy m window 0)) status).status in
      let rest = calm_fires (stamp now) later after w last' in rw made (omega (arith, rest))
