-- ===== src/Base/Text.antt =====
-- What the source uses of Go's `strings`: Index with the two parts around the match, HasPrefix with
-- TrimPrefix, HasSuffix, ReplaceAll of one character, Split at a character.
pub mod Parts
pub mod Trim
pub mod Split
pub mod Prefix
use Prim.Native.Char.{Char, code}
use Prim.Native.String
use Prim.Native.String.{[], ◌∷◌}
use kubezap_operator.Base.{
  ℕ, suc, ◌+◌, String, ◌≡◌, refl, Bool, ◌||◌, ◌==◌, Option, none, some, List, arith, subst, eqb,
  if◌then◌else◌,
}

infixr 65 ◌⧺◌
abbrev pub ◌⧺◌ : String → String → String
s ⧺ t = String.◌++◌ s t

abbrev pub size : String → ℕ
size [] = 0
size (c ∷ s) = suc (size s)

-- `strings.TrimPrefix(s, p)`, where `strings.HasPrefix(s, p)`.
unfoldable pub strip_prefix : String → String → Option String
strip_prefix [] s = some s
strip_prefix (c ∷ p) [] = none
strip_prefix (c ∷ p) (d ∷ s) = if eqb (code c) (code d) then strip_prefix p s else none

abbrev pub push_cut : Char → Option (String × String) → Option (String × String)
push_cut c none = none
push_cut c (some (before, after)) = some (c ∷ before, after)

pub cut_here : Option String → Option (String × String) → Option (String × String)
cut_here (some after) later = some ([], after)
cut_here none later = later

-- The text before the first occurrence of `p` (`strings.Index`), and the text after it.
unfoldable pub cut : String → String → Option (String × String)
unfolding cut_here
cut p [] = cut_here (strip_prefix p []) none
cut p (c ∷ s) = cut_here (strip_prefix p (c ∷ s)) (push_cut c (cut p s))

-- `strings.ReplaceAll(s, "-", "_")`.
unfoldable pub underscore : String → String
underscore [] = []
underscore (c ∷ s) =
    let rest = underscore s in
    let swapped = "_" ⧺ rest in let kept = c ∷ rest in if eqb (code c) b'-' then swapped else kept

abbrev pub push_first : Char → List String → List String
push_first c List.[] = List.◌∷◌ (c ∷ []) List.[]
push_first c (List.◌∷◌ first rest) = List.◌∷◌ (c ∷ first) rest

-- `strings.Split(s, sep)`, where `sep` is the code of one character.
unfoldable pub split : ℕ → String → List String
split sep [] = List.◌∷◌ [] List.[]
split sep (c ∷ s) =
    let rest = split sep s in
    let ended = List.◌∷◌ [] rest in
    let grown = push_first c rest in if eqb (code c) sep then ended else grown

size-strip_prefix :
    (p s : String) {t : String} → strip_prefix p s ≡ some t → size t + size p ≡ size s
unfolding strip_prefix
size-strip_prefix [] s h = ground arith
size-strip_prefix (c ∷ p) [] h = ground arith
size-strip_prefix (c ∷ p) (d ∷ s) {t} h = ground (arith, size-strip_prefix p s {t = t})

-- The lengths of the two parts, of a match or of none.
Spans : ℕ → ℕ → Option (String × String) → Type 0
Spans n m none = Unit
Spans n m (some (b, a)) = size b + n + size a ≡ m

here-Spans :
    (p s : String) (o : Option String) (later : Option (String × String))
    → strip_prefix p s ≡ o
    → Spans (size p) (size s) later
    → Spans (size p) (size s) (cut_here o later)
unfolding cut_here Spans
here-Spans p s (some a) later h l = ground (arith, size-strip_prefix p s {t = a})
here-Spans p s none later h l = l

push-Spans :
    (c : Char) (n m : ℕ) (o : Option (String × String))
    → Spans n m o
    → Spans n (suc m) (push_cut c o)
unfolding Spans
push-Spans c n m none h = tt
push-Spans c n m (some (b, a)) h = omega arith

cut-Spans : (p s : String) → Spans (size p) (size s) (cut p s)
unfolding cut Spans
cut-Spans p [] = here-Spans p [] (strip_prefix p []) none refl tt
cut-Spans p (c ∷ s) =
    here-Spans p (c ∷ s) (strip_prefix p (c ∷ s)) (push_cut c (cut p s)) refl
      (push-Spans c (size p) (size s) (cut p s) (cut-Spans p s))

-- The parts around a match and the pattern make up the text's length.
pub size-cut :
    (p s : String) {b a : String} → cut p s ≡ some (b, a) → size b + size p + size a ≡ size s
unfolding Spans
size-cut p s {b} {a} h = subst (λ o. Spans (size p) (size s) o) h (cut-Spans p s)

-- `strings.HasSuffix(s, p)`.
unfoldable pub ends_with : String → String → Bool
ends_with [] p = [] == p
ends_with (c ∷ s) p = (c ∷ s) == p || ends_with s p
