-- ===== src/Run/Steps/Laws.antt =====
-- Lookup and update of step statuses by name, and the uniqueness of the names.
use kubezap_operator.Base.{
  String, ◌≡◌, refl, none, some, List, [], ◌∷◌, arith, ◌==◌, eq_iff, if◌then◌else◌,
}
use kubezap_operator.Api.FlowRun.{StepRunStatus}
use kubezap_operator.Run.Steps.{find_step_status, upsert_step_status}

-- Reading a name after an upsert gives the new status at its own name, the old one elsewhere.
pub find-upsert :
    (l : List StepRunStatus) (s : StepRunStatus) (n : String)
    → find_step_status (upsert_step_status l s) n
      ≡ (if s.name == n then some s else find_step_status l n)
unfolding find_step_status upsert_step_status
find-upsert [] s n = refl
find-upsert (t ∷ rest) s n =
    ground (arith, eq_iff t.name s.name, eq_iff t.name n, eq_iff s.name n, find-upsert rest s n)

-- The status found under a name carries that name.
pub find-name :
    (l : List StepRunStatus) (n : String) {s : StepRunStatus}
    → find_step_status l n ≡ some s
    → s.name ≡ n
unfolding find_step_status
find-name [] n h = ground arith
find-name (t ∷ rest) n {s} h = ground (arith, eq_iff t.name n, find-name rest n {s = s})

-- No two statuses of the list share a name.
abbrev pub Unique : List StepRunStatus → Type 0
Unique [] = Unit
Unique (t ∷ rest) = (find_step_status rest t.name ≡ none) × Unique rest

-- An upsert keeps the names of the list unique.
pub upsert-Unique :
    (l : List StepRunStatus) (s : StepRunStatus) → Unique l → Unique (upsert_step_status l s)
unfolding upsert_step_status find_step_status
upsert-Unique [] s h = (refl, tt)
upsert-Unique (t ∷ rest) s (fresh, h) = ground (
  arith,
  eq_iff t.name s.name,
  eq_iff s.name t.name,
  find-upsert rest s t.name,
  upsert-Unique rest s h,
)
