-- ===== src/Base/Text/Parts.antt =====
-- The parts that a match leaves make up the text again.
use Prim.Native.Char.{Char}
use Prim.Native.String.{[], ◌∷◌}
use text.Mathlib.TextEquality.{Char-path}
use text.Mathlib.TextLemmas.{nil-append, cons-append}
use kubezap_operator.Base.{String, ◌≡◌, refl, subst, ap, ◌∙◌, Option, none, some, arith}
use kubezap_operator.Base.Text.{◌⧺◌, strip_prefix, cut, cut_here, push_cut}

append-strip_prefix : (p s : String) {t : String} → strip_prefix p s ≡ some t → p ⧺ t ≡ s
unfolding strip_prefix
append-strip_prefix [] s {t} h = cc (h, nil-append t)
append-strip_prefix (c ∷ p) [] h = ground arith
append-strip_prefix (c ∷ p) (d ∷ s) {t} h =
    ground (arith, cons-append c p t, Char-path c d, append-strip_prefix p s {t = t})

Parts : String → String → Option (String × String) → Type 0
Parts p s none = Unit
Parts p s (some (before, after)) = before ⧺ (p ⧺ after) ≡ s

here-Parts :
    (p s : String) (o : Option String) (later : Option (String × String))
    → strip_prefix p s ≡ o
    → Parts p s later
    → Parts p s (cut_here o later)
unfolding cut_here Parts
here-Parts p s (some a) later h l = nil-append (p ⧺ a) ∙ append-strip_prefix p s {t = a} h
here-Parts p s none later h l = l

push-Parts :
    (c : Char) (p s : String) (o : Option (String × String))
    → Parts p s o
    → Parts p (c ∷ s) (push_cut c o)
unfolding Parts
push-Parts c p s none h = tt
push-Parts c p s (some (before, after)) h = cons-append c before (p ⧺ after) ∙ ap (λ t. c ∷ t) h

cut-Parts : (p s : String) → Parts p s (cut p s)
unfolding cut Parts
cut-Parts p [] = here-Parts p [] (strip_prefix p []) none refl tt
cut-Parts p (c ∷ s) =
    here-Parts p (c ∷ s) (strip_prefix p (c ∷ s)) (push_cut c (cut p s)) refl
      (push-Parts c p s (cut p s) (cut-Parts p s))

-- The part before a match, the pattern and the part after it make up the text.
pub append-cut :
    (p s : String) {before after : String}
    → cut p s ≡ some (before, after)
    → before ⧺ (p ⧺ after) ≡ s
unfolding Parts
append-cut p s h = subst (λ o. Parts p s o) h (cut-Parts p s)
