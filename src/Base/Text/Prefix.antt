-- ===== src/Base/Text/Prefix.antt =====
-- Prefixes of texts that are put together with a separator.
use Prim.Native.Char.{code}
use Prim.Native.String.{[], ◌∷◌}
use text.Mathlib.TextEquality.{Char-path}
use text.Mathlib.TextLemmas.{nil-append, cons-append}
use kubezap_operator.Base.{
  String, ◌≡◌, ◌≢◌, refl, ap, ◌∙◌, none, arith, ◌==◌, eq_iff, String-cases, inl, inr, if◌then◌else◌,
}
use kubezap_operator.Base.Text.{◌⧺◌, size, strip_prefix}

-- No character of the text is a slash.
abbrev pub HasNoSlash : String → Type 0
HasNoSlash [] = Unit
HasNoSlash (c ∷ s) = (code c ≢ b'/') × HasNoSlash s

pub slash-append : (s : String) → "/" ⧺ s ≡ "/" ∷ s
slash-append s = cons-append "/" [] s ∙ ap (λ t. "/" ∷ t) (nil-append s)

-- A first part that ends with a slash is the whole first part.
pub strip_prefix-slash :
    (a b p s : String)
    → HasNoSlash a
    → HasNoSlash b
    → strip_prefix (a ⧺ "/" ⧺ p) (b ⧺ "/" ⧺ s) ≡ (if a == b then strip_prefix p s else none)
unfolding strip_prefix
strip_prefix-slash [] [] p s h k =
    rw (nil-append ("/" ⧺ p), nil-append ("/" ⧺ s), slash-append p, slash-append s) refl
strip_prefix-slash [] (d ∷ b) p s h (n, k) =
    rw (nil-append ("/" ⧺ p), cons-append d b ("/" ⧺ s), slash-append p)
      (elim (String-cases "" (d ∷ b)) [
        | inl (e, _) ↦ absurd (omega (arith, ap size e))
        | inr (_, e) ↦ rw e (ground arith)
      ])
strip_prefix-slash (c ∷ a) [] p s (n, h) k =
    rw (nil-append ("/" ⧺ s), cons-append c a ("/" ⧺ p), slash-append s)
      (elim (String-cases (c ∷ a) "") [
        | inl (e, _) ↦ absurd (omega (arith, ap size e))
        | inr (_, e) ↦ rw e (ground arith)
      ])
strip_prefix-slash (c ∷ a) (d ∷ b) p s (n, h) (m, k) =
    rw (cons-append d b ("/" ⧺ s), cons-append c a ("/" ⧺ p))
      (ground
        (arith, Char-path c d, eq_iff a b, eq_iff (c ∷ a) (d ∷ b), strip_prefix-slash a b p s h k))
