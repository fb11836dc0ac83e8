-- ===== src/Gateway/Cooldown.antt =====
-- internal/gateway/webhook/handler.go: cooldownTracker. The mutex makes each call of `allow` one
-- step on the map of timestamps; the clock's answer is the argument `now`.
pub mod Laws
use kubezap_operator.Base.{
  ℕ, String, Bool, true, false, Option, none, some, List, [], ◌∷◌, ◌++◌, length, leb, if◌then◌else◌,
}
use kubezap_operator.Base.Int.{ℤ, pos, ◌-ℤ◌, ltb_ℤ}
use kubezap_operator.Base.Assoc.{Assoc, lookup, insert}

-- `ct.invocations`: the timestamps of each path.
abbrev pub Tracker : Type 0
Tracker = Assoc (List ℤ)

abbrev pub stamps_or : Option (List ℤ) → List ℤ
stamps_or none = []
stamps_or (some stamps) = stamps

-- `ts.After(cutoff)`, where the cutoff is `now.Add(-window)`.
abbrev pub after_cutoff : ℤ → ℤ → ℤ → Bool
after_cutoff now window ts = ltb_ℤ (now -ℤ window) ts

unfoldable pub pruned : ℤ → ℤ → List ℤ → List ℤ
pruned now window [] = []
pruned now window (ts ∷ rest) =
    let later = pruned now window rest in
    let kept = ts ∷ later in if after_cutoff now window ts then kept else later

-- One call within the limit: the answer, and the timestamps after it.
unfoldable pub admit : ℕ → ℤ → ℤ → List ℤ → Bool × List ℤ
unfolding pruned
admit max window now stamps =
    let recent = pruned now window stamps in
    if leb max (length recent) then (false, recent) else (true, recent ++ (now ∷ []))

-- `allow`, at the time `now`. A limit of 0 or less, here 0, is none.
unfoldable pub allow : ℤ → String → ℕ → ℤ → Tracker → Bool × Tracker
unfolding admit
allow now path ℕ.zero window tracker = (true, tracker)
allow now path (ℕ.suc n) window tracker =
    let (admitted, stamps) = admit (ℕ.suc n) window now (stamps_or (lookup path tracker)) in
    (admitted, insert path stamps tracker)

-- The calls for one path at the times `times`, in order: the times of those that are admitted.
abbrev pub remember : ℤ → Bool → List ℤ → List ℤ
remember now true times = now ∷ times
remember now false times = times

unfoldable pub admissions : ℕ → ℤ → Tracker → String → List ℤ → List ℤ
unfolding allow
admissions max window tracker path [] = []
admissions max window tracker path (now ∷ rest) =
    let (admitted, next) = allow now path max window tracker in
    remember now admitted (admissions max window next path rest)
