-- ===== src/Base/Text/Trim.antt =====
-- `strings.TrimSpace`.
use Prim.Native.Char.{code}
use Prim.Native.String.{[], ◌∷◌}
use text.Mathlib.TextLemmas.{cons-append}
use kubezap_operator.Base.{
  ℕ, String, ◌≡◌, refl, Bool, true, false, ◌&&◌, ◌||◌, arith, eqb, leb, if◌then◌else◌, Bool-cases,
  inl, inr,
}
use kubezap_operator.Base.Text.{◌⧺◌}

-- `unicode.IsSpace`, of a code point.
unfoldable pub is_space : ℕ → Bool
is_space c =
    (leb 9 c && leb c 13)
    || eqb c 32
    || eqb c 0x85
    || eqb c 0xa0
    || eqb c 0x1680
    || (leb 0x2000 c && leb c 0x200a)
    || eqb c 0x2028
    || eqb c 0x2029
    || eqb c 0x202f
    || eqb c 0x205f
    || eqb c 0x3000

unfoldable pub trim_left : String → String
unfolding is_space
trim_left [] = []
trim_left (c ∷ s) =
    let rest = trim_left s in let whole = c ∷ s in if is_space (code c) then rest else whole

abbrev pub is_blank : String → Bool
is_blank [] = true
is_blank (c ∷ s) = false

unfoldable pub trim_right : String → String
unfolding is_space
trim_right [] = []
trim_right (c ∷ s) =
    let rest = trim_right s in if is_space (code c) && is_blank rest then [] else c ∷ rest

unfoldable pub trim_space : String → String
unfolding trim_left trim_right
trim_space s = trim_right (trim_left s)

trim_right-pad : (s : String) → trim_right (s ⧺ " ") ≡ trim_right s
unfolding trim_right
trim_right-pad [] = refl
trim_right-pad (c ∷ s) = rw (cons-append c s " ") (ground (arith, trim_right-pad s))

trim_left-pad : (s : String) → trim_right (trim_left (s ⧺ " ")) ≡ trim_right (trim_left s)
unfolding trim_left
trim_left-pad [] = refl
trim_left-pad (c ∷ s) = rw (cons-append c s " ") (elim (Bool-cases (is_space (code c))) [
  | inl e ↦ rw e (trim_left-pad s)
  | inr e ↦ rw e (rw (← (cons-append c s " ")) (trim_right-pad (c ∷ s)))
])

-- A space at the end is dropped.
pub trim_space-pad : (s : String) → trim_space (s ⧺ " ") ≡ trim_space s
unfolding trim_space
trim_space-pad s = trim_left-pad s
