-- ===== src/Template/Interpolate/Laws.antt =====
-- interpolateTemplate reads its template once, from left to right, and its display text does not
-- depend on the values of secrets.
use kubezap_operator.Base.{
  ℕ, zero, suc, ◌+◌, ◌≤◌, String, ◌≡◌, refl, sym, ap, ◌∙◌, Option, none, some, arith, Option-cases,
  inl, inr,
}
use kubezap_operator.Base.Text.{size, cut, size-cut}
use kubezap_operator.Api.FlowRun.{TriggerData}
use kubezap_operator.Run.Runtime.{StepResults, Params}
use kubezap_operator.Template.Library.{Library}
use kubezap_operator.Template.Body.{parse_trigger_body}
use kubezap_operator.Template.Token.{Resolver, Resolved, resolve_interpolation_token}
use kubezap_operator.Template.Interpolate.{
  Interpolated, texts, prepend, emit, closed, opened, interpolate_loop, interpolate_template,
}

module _ (resolve : String → Resolved) where
  closed_again :
      (before inner : String) (f g : String → Interpolated) (o : Option (String × String))
      → ((token rest : String) → o ≡ some (token, rest) → f rest ≡ g rest)
      → closed before inner resolve f o ≡ closed before inner resolve g o
  unfolding closed
  closed_again before inner f g none h = refl
  closed_again before inner f g (some (token, rest)) h =
      ap (λ r. prepend before before (emit token (resolve token) r)) (h token rest refl)

  opened_again :
      (s : String) (f g : String → Interpolated) (o : Option (String × String))
      → ((before inner token rest : String)
          → o ≡ some (before, inner)
          → cut ")" inner ≡ some (token, rest)
          → f rest ≡ g rest)
      → opened s resolve f o ≡ opened s resolve g o
  unfolding opened
  opened_again s f g none h = refl
  opened_again s f g (some (before, inner)) h =
      closed_again before inner f g (cut ")" inner)
        (λ token rest e. h before inner token rest refl e)

  -- What follows a placeholder is shorter than the text, by three characters at least.
  rest_shorter :
      (s before inner token rest : String)
      → cut "$(" s ≡ some (before, inner)
      → cut ")" inner ≡ some (token, rest)
      → size rest + 3 ≤ size s
  rest_shorter s before inner token rest h k =
      omega (arith, size-cut "$(" s h, size-cut ")" inner k)

  -- Where there is no room for `$(`, the text is as it is.
  no_room :
      (s : String) (again : String → Interpolated)
      → size s ≤ 0
      → opened s resolve again (cut "$(" s) ≡ texts s s
  unfolding opened
  no_room s again h = elim (Option-cases (cut "$(" s)) [
    | inl e ↦ rw e
    | inr ((before, inner), e) ↦ ground (arith, size-cut "$(" s e)
  ]

  loop_fuel :
      (n m : ℕ) (s : String)
      → size s ≤ n
      → size s ≤ m
      → interpolate_loop resolve n s ≡ interpolate_loop resolve m s
  unfolding interpolate_loop
  loop_fuel zero zero s h k = refl
  loop_fuel zero (suc m) s h k = sym (no_room s (interpolate_loop resolve m) h)
  loop_fuel (suc n) zero s h k = no_room s (interpolate_loop resolve n) k
  loop_fuel (suc n) (suc m) s h k = opened_again s _ _ (cut "$(" s) (λ before inner token rest e e'.
      loop_fuel n m rest (omega (arith, rest_shorter s before inner token rest e e'))
        (omega (arith, rest_shorter s before inner token rest e e')))

  -- The fuel that interpolateTemplate starts with is enough: more gives the same.
  loop_round :
      (s : String)
      → interpolate_loop resolve (size s) s
        ≡ opened s resolve (λ rest. interpolate_loop resolve (size rest) rest) (cut "$(" s)
  unfolding interpolate_loop
  loop_round s =
      loop_fuel (size s) (suc (size s)) s (omega arith) (omega arith)
      ∙ opened_again s _ _ (cut "$(" s) (λ before inner token rest e e'.
        loop_fuel (size s) (size rest) rest
          (omega (arith, rest_shorter s before inner token rest e e')) (omega arith))

module _ (lib : Library) (results : StepResults) (event : Option TriggerData) (params : Params)
    (fetch : Resolver) where
  abbrev pub resolve_token : String → Resolved
  resolve_token token =
      resolve_interpolation_token lib results event params (parse_trigger_body lib event) fetch
        token

  abbrev pub filled : String → Interpolated
  filled s = interpolate_template lib s results event params fetch

  -- A template is filled in by a single pass: what the first placeholder resolves to is written as
  -- it is, whatever it holds, and the rest of the template is filled in on its own.
  pub interpolate_single_pass :
      (s before inner token rest : String)
      → cut "$(" s ≡ some (before, inner)
      → cut ")" inner ≡ some (token, rest)
      → filled s ≡ prepend before before (emit token (resolve_token token) (filled rest))
  unfolding interpolate_template opened closed
  interpolate_single_pass s before inner token rest e e' = loop_round resolve_token s ∙ rw (e, e')
