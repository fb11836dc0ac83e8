-- ===== src/Webhook/Redact.antt =====
-- internal/gateway/redact/redact.go: the headers and the body that a FlowRun keeps.
use kubezap_operator.Base.{
  String, Bool, true, false, ◌||◌, ◌≡◌, refl, ap, ◌∙◌, subst, List, [], ◌∷◌, ◌++◌, ◌==◌, eq_refl,
  if◌then◌else◌, map, contains_string, String-cases, ◌⊎◌, inl, inr,
}
use kubezap_operator.Base.Assoc.{Assoc}
use kubezap_operator.Base.Text.{◌⧺◌}

abbrev pub placeholder : String
placeholder = "[REDACTED]"

unfoldable pub built_in_headers : List String
built_in_headers =
    "Authorization" ∷ "X-Api-Key" ∷ "Cookie" ∷ "Set-Cookie" ∷ "X-Auth-Token" ∷ "Proxy-Authorization"
    ∷ "X-Webhook-Secret" ∷ "X-Hub-Signature" ∷ "X-Hub-Signature-256" ∷ "X-Amz-Security-Token" ∷ []

-- `strings.Join(vals, ",")`.
abbrev join_more : List String → String
join_more [] = ""
join_more (value ∷ rest) = "," ⧺ value ⧺ join_more rest

abbrev join : List String → String
join [] = ""
join (value ∷ rest) = value ⧺ join_more rest

unfoldable pub body : String → Bool → String
body text true = placeholder
body text false = text

or_right : (a : Bool) {b : Bool} → b ≡ true → (a || b) ≡ true
or_right true h = refl
or_right false h = h

module _ (to_lower : String → String) (redact_extra : List String) where
  -- The keys of `toRedact`, and whether it has a name.
  unfoldable pub to_redact : String → Bool
  unfolding built_in_headers
  to_redact name = contains_string (map to_lower (built_in_headers ++ redact_extra)) (to_lower name)

  -- The names of the headers differ, so each is written once.
  unfoldable pub headers : Assoc (List String) → Assoc String
  unfolding to_redact
  headers [] = []
  headers ((k, vals) ∷ rest) = (k, if to_redact k then placeholder else join vals) ∷ headers rest

  unfoldable pub string_map : Assoc String → Assoc String
  unfolding to_redact
  string_map [] = []
  string_map ((k, value) ∷ rest) = (k, if to_redact k then placeholder else value) ∷ string_map rest

  -- A name that is listed, in any case of its letters.
  pub record IsSensitive (name : String) : Type 0 where
    pub listed : String
    pub is_listed : contains_string (built_in_headers ++ redact_extra) listed ≡ true
    pub same_letters : to_lower listed ≡ to_lower name

  contains_lowered :
      (l : List String) (listed name : String)
      → contains_string l listed ≡ true
      → to_lower listed ≡ to_lower name
      → contains_string (map to_lower l) (to_lower name) ≡ true
  contains_lowered [] listed name h same = h
  contains_lowered (item ∷ rest) listed name h same = elim (String-cases item listed) [
    | inl (p, e) ↦ rw (ap to_lower p ∙ same) (rw (eq_refl (to_lower name)) refl)
    | inr (_, e) ↦ or_right (to_lower item == to_lower name) (
        contains_lowered rest listed name
          (subst (λ b. (b || contains_string rest listed) ≡ true) e h) same)
  ]

  sensitive_redacted : (name : String) → IsSensitive name → to_redact name ≡ true
  unfolding to_redact
  sensitive_redacted name s =
      contains_lowered (built_in_headers ++ redact_extra) s.listed name s.is_listed s.same_letters

  -- The same names in the same order, and the same values but under sensitive names.
  pub data AlikeInClear : Assoc (List String) → Assoc (List String) → Type 0 where
    both_empty : AlikeInClear [] []
    alike :
        (k : String) (vals others : List String) {rest below : Assoc (List String)}
        → IsSensitive k ⊎ vals ≡ others
        → AlikeInClear rest below
        → AlikeInClear ((k, vals) ∷ rest) ((k, others) ∷ below)

  pub headers-AlikeInClear :
      {hs others : Assoc (List String)} → AlikeInClear hs others → headers hs ≡ headers others
  unfolding headers
  headers-AlikeInClear both_empty = refl
  headers-AlikeInClear (alike k vals others (inl s) more) =
      rw (sensitive_redacted k s) (ap (λ l. (k, placeholder) ∷ l) (headers-AlikeInClear more))
  headers-AlikeInClear (alike k vals others (inr same) more) = rw same (
      ap (λ l. (k, if to_redact k then placeholder else join others) ∷ l)
        (headers-AlikeInClear more))
