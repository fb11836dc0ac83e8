-- ===== src/Resource/Names.antt =====
-- internal/controller/resource_watcher.go: parseAPIVersion and sanitizeName.
use Prim.Native.Char.{Char, code}
use Prim.Native.String.{[], ◌∷◌}
use text.Mathlib.TextLemmas.{nil-append, cons-append}
use kubezap_operator.Base.{
  ℕ, zero, suc, ◌≤◌, String, ◌≡◌, ◌≢◌, refl, sym, ap, ◌∙◌, subst, Bool, true, ◌&&◌, Option, none,
  some, arith, eqb, ◌==◌, String-cases, Bool-cases, inl, inr, if◌then◌else◌,
}
use kubezap_operator.Base.Text.{◌⧺◌, size, cut, strip_prefix}
use kubezap_operator.Base.Text.Prefix.{HasNoSlash, slash-append}
use kubezap_operator.Base.Text.Trim.{is_blank}
use kubezap_operator.Gateway.Messages.{is_name_char, dashed, first_chars}

-- `strings.SplitN(apiVersion, "/", 2)`, where there is a "/" or none.
abbrev pub group_of : String → Option (String × String) → String × String
group_of api_version none = ("", api_version)
group_of api_version (some (group, version)) = (group, version)

unfoldable pub parse_api_version : String → String × String
unfolding cut
parse_api_version api_version = group_of api_version (cut "/" api_version)

-- An apiVersion as Kubernetes writes it: the core group has no name, and no slash.
abbrev pub api_version_of : String × String → String
api_version_of (group, version) = if group == "" then version else group ⧺ "/" ⧺ version

cut-none : (s : String) → HasNoSlash s → cut "/" s ≡ none
unfolding cut strip_prefix
cut-none [] h = ground arith
cut-none (c ∷ s) (n, h) = ground (arith, cut-none s h)

cut-slash : (s t : String) → HasNoSlash s → cut "/" (s ⧺ "/" ⧺ t) ≡ some (s, t)
unfolding cut strip_prefix
cut-slash [] t h = rw (nil-append ("/" ⧺ t), slash-append t) refl
cut-slash (c ∷ s) t (n, h) = rw (cons-append c s ("/" ⧺ t)) (ground (arith, cut-slash s t h))

-- Where neither has a slash, a group and a version are read back from the apiVersion that they make up.
pub parse-api_version_of :
    (group version : String)
    → HasNoSlash group
    → HasNoSlash version
    → parse_api_version (api_version_of (group, version)) ≡ (group, version)
unfolding parse_api_version
parse-api_version_of group version h k = elim (String-cases group "") [
  | inl (p, e) ↦ rw e (ap (group_of version) (cut-none version k) ∙ ap (λ g. (g, version)) (sym p))
  | inr (_, e) ↦ rw e (ap (group_of (group ⧺ "/" ⧺ version)) (cut-slash group version h))
]

-- `strings.Trim(s, "-")`.
abbrev is_dash : Char → Bool
is_dash c = eqb (code c) b'-'

unfoldable pub trim_left_dash : String → String
trim_left_dash [] = []
trim_left_dash (c ∷ s) =
    let rest = trim_left_dash s in let whole = c ∷ s in if is_dash c then rest else whole

unfoldable pub trim_right_dash : String → String
trim_right_dash [] = []
trim_right_dash (c ∷ s) =
    let rest = trim_right_dash s in if is_dash c && is_blank rest then [] else c ∷ rest

unfoldable pub sanitize_name : (String → String) → String → String
unfolding dashed trim_left_dash trim_right_dash
sanitize_name to_lower s = trim_right_dash (trim_left_dash (first_chars 32 (dashed (to_lower s))))

-- Lower-case letters, digits and dashes.
abbrev pub IsPlain : String → Type 0
IsPlain [] = Unit
IsPlain (c ∷ s) = (is_name_char (code c) ≡ true) × IsPlain s

-- The first and the last character, where there are any, are no dashes.
abbrev pub BeginsPlain : String → Type 0
BeginsPlain [] = Unit
BeginsPlain (c ∷ s) = code c ≢ b'-'

abbrev last_char : Char → String → Char
last_char c [] = c
last_char c (d ∷ s) = last_char d s

abbrev pub EndsPlain : String → Type 0
EndsPlain [] = Unit
EndsPlain (c ∷ s) = code (last_char c s) ≢ b'-'

dashed-IsPlain : (s : String) → IsPlain (dashed s)
unfolding dashed
dashed-IsPlain [] = tt
dashed-IsPlain (c ∷ s) = elim (Bool-cases (is_name_char (code c))) [
  | inl e ↦ rw e (e, dashed-IsPlain s)
  | inr e ↦ rw e (
      subst IsPlain
        (sym (cons-append "-" [] (dashed s) ∙ ap (λ t. "-" ∷ t) (nil-append (dashed s))))
        (refl, dashed-IsPlain s))
]

first_chars-IsPlain : (n : ℕ) (s : String) → IsPlain s → IsPlain (first_chars n s)
first_chars-IsPlain zero s h = tt
first_chars-IsPlain (suc n) [] h = tt
first_chars-IsPlain (suc n) (c ∷ s) (p, h) = (p, first_chars-IsPlain n s h)

size-first_chars : (n : ℕ) (s : String) → size (first_chars n s) ≤ n
size-first_chars zero s = omega arith
size-first_chars (suc n) [] = omega arith
size-first_chars (suc n) (c ∷ s) = omega (arith, size-first_chars n s)

trim_left-IsPlain : (s : String) → IsPlain s → IsPlain (trim_left_dash s)
unfolding trim_left_dash
trim_left-IsPlain [] h = tt
trim_left-IsPlain (c ∷ s) (p, h) = ground (arith, trim_left-IsPlain s h)

trim_right-IsPlain : (s : String) → IsPlain s → IsPlain (trim_right_dash s)
unfolding trim_right_dash
trim_right-IsPlain [] h = tt
trim_right-IsPlain (c ∷ s) (p, h) = ground (arith, trim_right-IsPlain s h)

size-trim_left : (s : String) → size (trim_left_dash s) ≤ size s
unfolding trim_left_dash
size-trim_left [] = omega arith
size-trim_left (c ∷ s) = ground (arith, size-trim_left s)

size-trim_right : (s : String) → size (trim_right_dash s) ≤ size s
unfolding trim_right_dash
size-trim_right [] = omega arith
size-trim_right (c ∷ s) = ground (arith, size-trim_right s)

trim_left-BeginsPlain : (s : String) → BeginsPlain (trim_left_dash s)
unfolding trim_left_dash
trim_left-BeginsPlain [] = tt
trim_left-BeginsPlain (c ∷ s) = ground (arith, trim_left-BeginsPlain s)

trim_right-BeginsPlain : (s : String) → BeginsPlain s → BeginsPlain (trim_right_dash s)
unfolding trim_right_dash
trim_right-BeginsPlain [] h = tt
trim_right-BeginsPlain (c ∷ s) h = ground arith

-- A character before a text whose trailing dashes are gone.
closed_EndsPlain :
    (c : Char) (rest : String)
    → EndsPlain rest
    → EndsPlain (if is_dash c && is_blank rest then [] else c ∷ rest)
closed_EndsPlain c [] h = elim (Bool-cases (is_dash c)) [
  | inl e ↦ rw e tt
  | inr e ↦ rw e (λ p. ground arith)
]
closed_EndsPlain c (d ∷ rest) h = elim (Bool-cases (is_dash c)) [ inl e ↦ rw e h | inr e ↦ rw e h ]

trim_right-EndsPlain : (s : String) → EndsPlain (trim_right_dash s)
unfolding trim_right_dash
trim_right-EndsPlain [] = tt
trim_right-EndsPlain (c ∷ s) = closed_EndsPlain c (trim_right_dash s) (trim_right-EndsPlain s)

-- The part of a FlowRun's name that sanitizeName makes of the name of any resource has 32 characters
-- at most, lower-case letters, digits and dashes all of them, and neither begins nor ends with a dash.
pub sanitize_name-IsPlain :
    (to_lower : String → String) (s : String)
    → (size (sanitize_name to_lower s) ≤ 32)
      × IsPlain (sanitize_name to_lower s)
      × BeginsPlain (sanitize_name to_lower s)
      × EndsPlain (sanitize_name to_lower s)
unfolding sanitize_name
sanitize_name-IsPlain to_lower s =
    let cut_off : String = first_chars 32 (dashed (to_lower s)) in
    let left : String = trim_left_dash cut_off in
    (
      omega (
        arith,
        size-trim_right left,
        size-trim_left cut_off,
        size-first_chars 32 (dashed (to_lower s)),
      ),
      trim_right-IsPlain left
          (trim_left-IsPlain cut_off (first_chars-IsPlain 32 _ (dashed-IsPlain (to_lower s)))),
      trim_right-BeginsPlain left (trim_left-BeginsPlain cut_off),
      trim_right-EndsPlain left,
    )
