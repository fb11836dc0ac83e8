-- ===== src/Base/Text/Split.antt =====
-- `strings.Split` of a text that is put together at the separator.
use Prim.Native.Char.{Char, code}
use Prim.Native.String.{[], ◌∷◌}
use text.Mathlib.TextLemmas.{nil-append, cons-append}
use kubezap_operator.Base.{
  ℕ, String, ◌≡◌, refl, ap, ◌∙◌, false, List, ◌++◌, arith, eqb, is_empty, Bool-cases, inl, inr,
}
use kubezap_operator.Base.Text.{◌⧺◌, split, push_first}

push_first-append :
    (c : Char) (xs ys : List String)
    → is_empty xs ≡ false
    → push_first c (xs ++ ys) ≡ push_first c xs ++ ys
push_first-append c List.[] ys h = ground arith
push_first-append c (List.◌∷◌ x xs) ys h = refl

is_empty-push_first : (c : Char) (xs : List String) → is_empty (push_first c xs) ≡ false
is_empty-push_first c List.[] = refl
is_empty-push_first c (List.◌∷◌ x xs) = refl

is_empty-split : (sep : ℕ) (s : String) → is_empty (split sep s) ≡ false
unfolding split
is_empty-split sep [] = refl
is_empty-split sep (c ∷ s) = ground (arith, is_empty-push_first c (split sep s))

pub split-comma : (s t : String) → split b',' (s ⧺ "," ⧺ t) ≡ split b',' s ++ split b',' t
unfolding split
split-comma [] t =
    ap (split b',') (nil-append ("," ⧺ t) ∙ cons-append "," [] t ∙ ap (λ u. "," ∷ u) (nil-append t))
split-comma (c ∷ s) t = rw (cons-append c s ("," ⧺ t)) (elim (Bool-cases (eqb (code c) b',')) [
  | inl e ↦ rw e (ap (λ l. List.◌∷◌ [] l) (split-comma s t))
  | inr e ↦ rw e (
      ap (push_first c) (split-comma s t)
      ∙ push_first-append c (split b',' s) (split b',' t) (is_empty-split b',' s))
])
