-- ===== src/Template/Interpolate/Secrets.antt =====
-- The display text of a template does not depend on the values of secrets.
use kubezap_operator.Base.{
  ℕ, zero, suc, String, ◌≡◌, refl, sym, ap, Bool, true, false, Option, none, some, if◌then◌else◌,
  ◌==◌,
}
use kubezap_operator.Base.Text.{◌⧺◌, size, cut, strip_prefix}
use kubezap_operator.Api.FlowRun.{TriggerData}
use kubezap_operator.Run.Runtime.{StepResults, Params}
use kubezap_operator.Template.Library.{Library, Json}
use kubezap_operator.Template.Token.{
  Resolved, token_error, unmatched, plain, secret, prefixed, resolved_secret, secret_token,
  resolve_interpolation_token, resolve_trigger_scalar_token, is_scalar, with_event, SecretResult,
  secret_error, secret_value,
}
use kubezap_operator.Template.Interpolate.{
  Interpolated, aborted, texts, prepend, emit, closed, opened, interpolate_loop,
  interpolate_template, substitute_vars_with_secrets,
}

-- The same but for the values of secrets, and for the fetches that fail.
Alike : Resolved → Resolved → Type 0
Alike (token_error m) s = Unit
Alike r (token_error m) = Unit
Alike (plain v) (plain w) = v ≡ w
Alike unmatched unmatched = Unit
Alike (secret v) (secret w) = Unit
Alike _ _ = ⊥

Alike-refl : (r : Resolved) → Alike r r
unfolding Alike
Alike-refl (token_error m) = tt
Alike-refl unmatched = tt
Alike-refl (plain v) = refl
Alike-refl (secret v) = tt

prefixed-Alike :
    (o : Option String) (f g : String → Resolved) (r s : Resolved)
    → ((rest : String) → Alike (f rest) (g rest))
    → Alike r s
    → Alike (prefixed o f r) (prefixed o g s)
prefixed-Alike none f g r s h k = k
prefixed-Alike (some rest) f g r s h k = h rest

if-Alike :
    (b : Bool) (t r s : Resolved) → Alike r s → Alike (if b then t else r) (if b then t else s)
if-Alike true t r s h = Alike-refl t
if-Alike false t r s h = h

resolved_secret-Alike :
    (token : String) (r s : SecretResult)
    → Alike (resolved_secret token r) (resolved_secret token s)
unfolding Alike
resolved_secret-Alike token (secret_error m) s = tt
resolved_secret-Alike token (secret_value v) (secret_error m) = tt
resolved_secret-Alike token (secret_value v) (secret_value w) = tt

module _ (f g : String → String → SecretResult) where
  secret_token-Alike :
      (token : String) (o : Option (String × String))
      → Alike (secret_token (some f) token o) (secret_token (some g) token o)
  unfolding secret_token Alike
  secret_token-Alike token none = tt
  secret_token-Alike token (some (name, key)) =
      resolved_secret-Alike token (f name key) (g name key)

  resolve-Alike :
      (lib : Library) (results : StepResults) (event : Option TriggerData) (params : Params)
      (root : Json) (token : String)
      → Alike
          (resolve_interpolation_token lib results event params root (some f) token)
          (resolve_interpolation_token lib results event params root (some g) token)
  unfolding resolve_interpolation_token
  resolve-Alike lib results event params root token =
      prefixed-Alike (strip_prefix "steps." token) _ _ _ _ (λ rest. Alike-refl _)
        (prefixed-Alike (strip_prefix "params." token) _ _ _ _ (λ rest. Alike-refl _)
          (if-Alike (token == "trigger.body") _ _ _ (
            prefixed-Alike (strip_prefix "trigger.body." token) _ _ _ _ (λ rest. Alike-refl _)
              (prefixed-Alike (strip_prefix "trigger.headers." token) _ _ _ _ (λ rest. Alike-refl _)
                (if-Alike (is_scalar token)
                  (with_event event (resolve_trigger_scalar_token lib token)) _ _
                  (prefixed-Alike (strip_prefix "secrets." token) _ _ _ _
                    (λ inner. secret_token-Alike token (cut "." inner)) (Alike-refl unmatched)))))))

-- Two fills with the same display text, unless one of them was aborted.
Shown : Interpolated → Interpolated → Type 0
Shown (aborted m) r = Unit
Shown r (aborted m) = Unit
Shown (texts a d) (texts b e) = d ≡ e

prepend-Shown :
    (a b d : String) (r s : Interpolated) → Shown r s → Shown (prepend a d r) (prepend b d s)
unfolding Shown prepend
prepend-Shown a b d (aborted m) s h = tt
prepend-Shown a b d (texts x y) (aborted m) h = tt
prepend-Shown a b d (texts x y) (texts z w) h = ap (λ t. d ⧺ t) h

aborted-Shown : (r : Interpolated) (m : _) → Shown r (aborted m)
unfolding Shown
aborted-Shown (aborted n) m = tt
aborted-Shown (texts a d) m = tt

emit-Shown :
    (token : String) (r s : Resolved) (x y : Interpolated)
    → Alike r s
    → Shown x y
    → Shown (emit token r x) (emit token s y)
unfolding emit Alike Shown
emit-Shown token (token_error m) s x y h k = tt
emit-Shown token (plain v) (token_error m) x y h k = aborted-Shown _ m
emit-Shown token unmatched (token_error m) x y h k = aborted-Shown _ m
emit-Shown token (secret v) (token_error m) x y h k = aborted-Shown _ m
emit-Shown token (plain v) (plain w) x y h k = rw (sym h) (prepend-Shown v v v x y k)
emit-Shown token unmatched unmatched x y h k = prepend-Shown _ _ _ x y k
emit-Shown token (secret v) (secret w) x y h k = prepend-Shown v w "[REDACTED]" x y k
emit-Shown token (plain v) unmatched x y h k = absurd h
emit-Shown token (plain v) (secret w) x y h k = absurd h
emit-Shown token unmatched (plain w) x y h k = absurd h
emit-Shown token unmatched (secret w) x y h k = absurd h
emit-Shown token (secret v) (plain w) x y h k = absurd h
emit-Shown token (secret v) unmatched x y h k = absurd h

module _ (p q : String → Resolved) (alike : (token : String) → Alike (p token) (q token)) where
  closed-Shown :
      (before inner : String) (f g : String → Interpolated) (o : Option (String × String))
      → ((rest : String) → Shown (f rest) (g rest))
      → Shown (closed before inner p f o) (closed before inner q g o)
  unfolding closed Shown
  closed-Shown before inner f g none h = refl
  closed-Shown before inner f g (some (token, rest)) h =
      prepend-Shown before before before _ _
        (emit-Shown token (p token) (q token) (f rest) (g rest) (alike token) (h rest))

  opened-Shown :
      (s : String) (f g : String → Interpolated) (o : Option (String × String))
      → ((rest : String) → Shown (f rest) (g rest))
      → Shown (opened s p f o) (opened s q g o)
  unfolding opened Shown
  opened-Shown s f g none h = refl
  opened-Shown s f g (some (before, inner)) h = closed-Shown before inner f g (cut ")" inner) h

  loop-Shown : (n : ℕ) (s : String) → Shown (interpolate_loop p n s) (interpolate_loop q n s)
  unfolding interpolate_loop Shown
  loop-Shown zero s = refl
  loop-Shown (suc n) s = opened-Shown s _ _ (cut "$(" s) (loop-Shown n)

texts-Shown :
    (r s : Interpolated) {a d b e : String} → Shown r s → r ≡ texts a d → s ≡ texts b e → d ≡ e
unfolding Shown
texts-Shown (aborted m) s h k l = cc k
texts-Shown (texts x y) (aborted m) h k l = cc l
texts-Shown (texts x y) (texts z w) h k l = cc (h, k, l)

-- Two ways to fetch secrets, neither of which fails on the template, give the same display text.
pub display_hides_secrets :
    (lib : Library) (f g : String → String → SecretResult) (s : String) (results : StepResults)
    (event : Option TriggerData) (params : Params) {actual display actual' display' : String}
    → substitute_vars_with_secrets lib f s results event params ≡ texts actual display
    → substitute_vars_with_secrets lib g s results event params ≡ texts actual' display'
    → display ≡ display'
unfolding substitute_vars_with_secrets interpolate_template
display_hides_secrets lib f g s results event params h k =
    texts-Shown _ _ (loop-Shown _ _ (resolve-Alike f g lib results event params _) (size s) s) h k
