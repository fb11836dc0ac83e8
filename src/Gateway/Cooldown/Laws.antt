-- ===== src/Gateway/Cooldown/Laws.antt =====
-- In no window are more calls of a path admitted than its limit.
use kubezap_operator.Base.{
  ℕ, suc, ◌+◌, ◌≤◌, String, ◌≡◌, refl, sym, ◌∙◌, subst, true, false, none, List, [], ◌∷◌, ◌++◌,
  length, leb, arith, Bool-cases, inl, inr, if◌then◌else◌, eq_refl,
}
use kubezap_operator.Base.Int.{ℤ, ◌≤ℤ◌, -ℤ_parts}
use kubezap_operator.Base.Assoc.{lookup, insert, lookup-insert}
use kubezap_operator.Gateway.Cooldown.{Tracker, stamps_or, after_cutoff, pruned, admissions}

-- How many of the times lie in the window before `now`.
unfoldable pub in_window : ℤ → ℤ → List ℤ → ℕ
in_window now window [] = 0
in_window now window (t ∷ rest) =
    let later = in_window now window rest in if after_cutoff now window t then suc later else later

-- The times do not go back.
abbrev pub Ordered : ℤ → List ℤ → Type 0
Ordered last [] = Unit
Ordered last (t ∷ rest) = (last ≤ℤ t) × Ordered t rest

module _ (max : ℕ) (window : ℤ) where
  later_cutoff :
      (now later t : ℤ)
      → now ≤ℤ later
      → after_cutoff later window t ≡ true
      → after_cutoff now window t ≡ true
  later_cutoff now later t le h = ground (arith, -ℤ_parts now window, -ℤ_parts later window)

  length-pruned : (now : ℤ) (l : List ℤ) → length (pruned now window l) ≡ in_window now window l
  unfolding pruned in_window
  length-pruned now [] = refl
  length-pruned now (t ∷ rest) = ground (arith, length-pruned now rest)

  -- Pruning at `now` loses nothing that a later window sees.
  in_window-pruned :
      (now later : ℤ) (l : List ℤ)
      → now ≤ℤ later
      → in_window later window (pruned now window l) ≡ in_window later window l
  unfolding pruned in_window
  in_window-pruned now later [] le = refl
  in_window-pruned now later (t ∷ rest) le =
      ground (arith, in_window-pruned now later rest le, later_cutoff now later t le)

  in_window-append :
      (now t : ℤ) (l : List ℤ)
      → in_window now window (l ++ (t ∷ []))
        ≡ in_window now window l + in_window now window (t ∷ [])
  unfolding in_window
  in_window-append now t [] = ground arith
  in_window-append now t (s ∷ rest) = ground (arith, in_window-append now t rest)

  one_in_window : (now t : ℤ) → in_window now window (t ∷ []) ≤ 1
  unfolding in_window
  one_in_window now t = ground arith

  -- The times `acc`, admitted before, and those that follow: at each, those in the window before it
  -- are `max` at most.
  abbrev pub Bounded : List ℤ → List ℤ → Type 0
  Bounded acc [] = Unit
  Bounded acc (t ∷ rest) =
      (in_window t window (acc ++ (t ∷ [])) ≤ max) × Bounded (acc ++ (t ∷ [])) rest

  -- The stamps count what the admitted times do, from `last` on.
  Counts : ℤ → List ℤ → List ℤ → Type 0
  Counts last stamps acc =
      (later : ℤ) → last ≤ℤ later → in_window later window stamps ≡ in_window later window acc

  pruned-Counts :
      (last now : ℤ) (stamps acc : List ℤ)
      → last ≤ℤ now
      → Counts last stamps acc
      → Counts now (pruned now window stamps) acc
  unfolding Counts
  pruned-Counts last now stamps acc le c later le' =
      in_window-pruned now later stamps le' ∙ c later (omega arith)

  append-Counts :
      (now : ℤ) (stamps acc : List ℤ)
      → Counts now stamps acc
      → Counts now (stamps ++ (now ∷ [])) (acc ++ (now ∷ []))
  unfolding Counts
  append-Counts now stamps acc c later le =
      omega (arith, in_window-append later now stamps, in_window-append later now acc, c later le)

  admitted_le :
      (last now : ℤ) (stamps acc : List ℤ)
      → last ≤ℤ now
      → Counts last stamps acc
      → leb max (length (pruned now window stamps)) ≡ false
      → in_window now window (acc ++ (now ∷ [])) ≤ max
  unfolding Counts
  admitted_le last now stamps acc le c h = ground (
    arith,
    in_window-append now now acc,
    one_in_window now now,
    length-pruned now stamps,
    c now le,
  )

module _ (n : ℕ) (window : ℤ) (path : String) where
  stamps_at : Tracker → List ℤ
  stamps_at tracker = stamps_or (lookup path tracker)

  insert_stamps :
      (stamps : List ℤ) (tracker : Tracker) → stamps_at (insert path stamps tracker) ≡ stamps
  unfolding stamps_at
  insert_stamps stamps tracker = rw (lookup-insert path path stamps tracker, eq_refl path)

  loop-Bounded :
      (last : ℤ) (times : List ℤ) (tracker : Tracker) (acc : List ℤ)
      → Ordered last times
      → Counts (suc n) window last (stamps_at tracker) acc
      → Bounded (suc n) window acc (admissions (suc n) window tracker path times)
  unfolding admissions stamps_at
  loop-Bounded last [] tracker acc o c = tt
  loop-Bounded last (now ∷ rest) tracker acc (le, o) c =
      let stamps : List ℤ = stamps_at tracker in
      let recent : List ℤ = pruned now window stamps in
      let c' = pruned-Counts (suc n) window last now stamps acc le c in
      elim (Bool-cases (leb (suc n) (length recent))) [
        | inl b ↦ rw b (
            loop-Bounded now rest (insert path recent tracker) acc o (
              subst (λ s. Counts (suc n) window now s acc) (sym (insert_stamps recent tracker)) c'))
        | inr b ↦ rw b (
          admitted_le (suc n) window last now stamps acc le c b,
          loop-Bounded now rest (insert path (recent ++ (now ∷ [])) tracker) (acc ++ (now ∷ [])) o (
              subst (λ s. Counts (suc n) window now s (acc ++ (now ∷ [])))
                (sym (insert_stamps (recent ++ (now ∷ [])) tracker))
                (append-Counts (suc n) window now recent acc c')),
        )
      ]

  -- Of the calls for a path that had none before, at times that do not go back, those that are
  -- admitted within a window up to any one of them, itself included, are at most the limit.
  pub admissions-Bounded :
      (start : ℤ) (times : List ℤ) (tracker : Tracker)
      → Ordered start times
      → lookup path tracker ≡ none
      → Bounded (suc n) window [] (admissions (suc n) window tracker path times)
  unfolding Counts stamps_at
  admissions-Bounded start times tracker o fresh =
      loop-Bounded start times tracker [] o (λ later le. rw fresh refl)
