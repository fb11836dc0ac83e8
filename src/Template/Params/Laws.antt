-- ===== src/Template/Params/Laws.antt =====
-- resolveFlowParams gives each declared parameter its value, or names a required one without.
use kubezap_operator.Base.{
  String, true, false, ◌≡◌, refl, sym, ap, ◌∙◌, ◌==◌, if◌then◌else◌, Bool-cases, Option, none, some,
  List, [], ◌∷◌, arith, eq_iff, eq_refl, All, Option-cases, inl, inr, ◌≢◌, ◌⊎◌,
}
use kubezap_operator.Base.Assoc.{Assoc, lookup, insert, lookup-insert}
use kubezap_operator.Api.Flow.{ParamDeclaration, ParamValue}
use kubezap_operator.Api.FlowRun.{TriggerData, required_param}
use kubezap_operator.Run.Runtime.{StepResults, Params, ParamResult, unresolved, resolved}
use kubezap_operator.Template.Library.{Json, object, field_at, Library}
use kubezap_operator.Template.Body.{parse_trigger_body, resolve_body_path}
use kubezap_operator.Template.Interpolate.{substitute_vars}
use kubezap_operator.Template.Params.{
  supplied_params, body_field, default_value, from_body, from_run, param_value, put_param,
  resolve_params_loop, resolve_flow_params,
}

-- No two declarations share a name.
abbrev pub Distinct : List ParamDeclaration → Type 0
Distinct [] = Unit
Distinct (d ∷ rest) = All (λ e. e.name ≢ d.name) rest × Distinct rest

abbrev pub Declared : ParamDeclaration → List ParamDeclaration → Type 0
Declared d [] = ⊥
Declared d (e ∷ rest) = (d ≡ e) ⊎ Declared d rest

-- Of several values for a name, the last.
abbrev pub last_of : String → List ParamValue → Option String → Option String
last_of name [] o = o
last_of name (pv ∷ rest) o = last_of name rest (if pv.name == name then some pv.value else o)

-- The field of a body that is an object.
abbrev pub field_of : String → Json → Option Json
field_of name (object fields) = field_at name fields
field_of name _ = none

body_field-eq : (name : String) (j : Json) → body_field name j ≡ field_of name j
unfolding body_field
body_field-eq name (object fields) = refl
body_field-eq name _ = refl

lookup-supplied :
    (name : String) (values : List ParamValue) (acc : Assoc String)
    → lookup name (supplied_params acc values) ≡ last_of name values (lookup name acc)
unfolding supplied_params
lookup-supplied name [] acc = refl
lookup-supplied name (pv ∷ rest) acc =
    lookup-supplied name rest (insert pv.name pv.value acc)
    ∙ ap (last_of name rest) (lookup-insert name pv.name pv.value acc)

module _ (lib : Library) (results : StepResults) (event : Option TriggerData) where
  -- The value of a parameter, given the FlowRun's own value and the field of the body, if there are any.
  abbrev pub ValueFor : ParamDeclaration → Option String → Option Json → String → Type 0
  ValueFor d (some raw) field v = v ≡ substitute_vars lib raw results event []
  ValueFor d none (some j) v = v ≡ resolve_body_path lib [] j
  ValueFor d none none v =
      (d.default ≢ "") × (v ≡ d.default) ⊎ (d.default ≡ "") × (d.required ≡ false) × (v ≡ "")

  default-ValueFor :
      (d : ParamDeclaration) (v : String)
      → default_value lib results event d ≡ some v
      → ValueFor d none none v
  unfolding default_value
  default-ValueFor d v h = elim (Bool-cases (d.default == "")) [
    | inl e ↦ elim (Bool-cases d.required) [
      | inl r ↦ absurd (ground arith)
      | inr r ↦ inr ((eq_iff d.default "").0 e, r, ground arith)
    ]
    | inr e ↦ inl ((λ p. ground (arith, eq_iff d.default "")), ground arith)
  ]

  value-ValueFor :
      (d : ParamDeclaration) (given : Option String) (field : Option Json) (v : String)
      → from_run lib results event d given ≡ some v
      → body_field d.name (parse_trigger_body lib event) ≡ field
      → ValueFor d given field v
  unfolding from_run from_body
  value-ValueFor d (some raw) field v h e = ground arith
  value-ValueFor d none (some j) v h e = ground (arith, rw e at h)
  value-ValueFor d none none v h e = default-ValueFor d v (rw e at h)

module _ (lib : Library) (results : StepResults) (event : Option TriggerData)
    (values : List ParamValue) where
  abbrev supplied : Assoc String
  supplied = supplied_params [] values

  -- A required parameter that neither the FlowRun, the body nor a default gives a value.
  pub record Missing (d : ParamDeclaration) : Type 0 where
    pub required : d.required ≡ true
    pub no_default : d.default ≡ ""
    pub not_supplied : last_of d.name values none ≡ none
    pub not_in_body : field_of d.name (parse_trigger_body lib event) ≡ none

  -- The parameter has its value in the map.
  abbrev pub HasValue : Params → ParamDeclaration → Type 0
  HasValue m d =
      (v : String) × ValueFor lib results event d (last_of d.name values none)
        (field_of d.name (parse_trigger_body lib event)) v
      × (lookup d.name m ≡ some v)

  abbrev pub Explained : List ParamDeclaration → ParamResult → Type 0
  Explained decls (unresolved msg) =
      (d : ParamDeclaration) × Declared d decls × Missing d × (msg ≡ required_param d.name)
  Explained decls (resolved m) = All (HasValue m) decls

  given_eq : (n : String) → lookup n supplied ≡ last_of n values none
  unfolding lookup
  given_eq n = lookup-supplied n values []

  param-ValueFor :
      (d : ParamDeclaration) (v : String)
      → param_value lib results event supplied d ≡ some v
      → ValueFor lib results event d
          (last_of d.name values none)
          (field_of d.name (parse_trigger_body lib event))
          v
  unfolding param_value
  param-ValueFor d v h =
      value-ValueFor lib results event d (last_of d.name values none) _ v
        (ap (from_run lib results event d) (sym (given_eq d.name)) ∙ h)
        (body_field-eq d.name (parse_trigger_body lib event))

  default_missing :
      (d : ParamDeclaration)
      → default_value lib results event d ≡ none
      → (d.required ≡ true) × (d.default ≡ "")
  unfolding default_value
  default_missing d h = ground (arith, eq_iff d.default "")

  body_missing :
      (d : ParamDeclaration) (o : Option Json)
      → from_body lib results event d o ≡ none
      → (o ≡ none) × (default_value lib results event d ≡ none)
  unfolding from_body
  body_missing d (some v) h = cc h
  body_missing d none h = (refl, h)

  run_missing :
      (d : ParamDeclaration) (o : Option String)
      → from_run lib results event d o ≡ none
      → (o ≡ none)
        × (from_body lib results event d (body_field d.name (parse_trigger_body lib event)) ≡ none)
  unfolding from_run
  run_missing d (some raw) h = cc h
  run_missing d none h = (refl, h)

  value-Missing :
      (d : ParamDeclaration) → param_value lib results event supplied d ≡ none → Missing d
  unfolding param_value
  value-Missing d h =
      let (not_supplied, h1) = run_missing d (lookup d.name supplied) h in
      let (not_in_body, h2) =
        body_missing d (body_field d.name (parse_trigger_body lib event)) h1 in
      let (required, no_default) = default_missing d h2 in
      record {
        required = required;
        no_default = no_default;
        not_supplied = sym (given_eq d.name) ∙ not_supplied;
        not_in_body = sym (body_field-eq d.name (parse_trigger_body lib event)) ∙ not_in_body;
      }

  -- What was put in before the loop stays, unless a declaration has its name.
  loop_keeps :
      (n v : String) (acc : Params) (decls : List ParamDeclaration) {m : Params}
      → All (λ e. e.name ≢ n) decls
      → lookup n acc ≡ some v
      → resolve_params_loop lib results event supplied acc decls ≡ resolved m
      → lookup n m ≡ some v
  unfolding resolve_params_loop put_param
  loop_keeps n v acc [] h k e = cc (k, e)
  loop_keeps n v acc (d ∷ rest) {m} (new, h) k e =
      elim (Option-cases (param_value lib results event supplied d)) [
        | inl e' ↦ cc (rw e' at e)
        | inr (w, e') ↦
            loop_keeps n v (insert d.name w acc) rest {m = m} h
              (lookup-insert n d.name w acc ∙ ground (arith, eq_iff d.name n)) (rw e' at e)
      ]

  one_more :
      (acc : Params) (d : ParamDeclaration) (rest : List ParamDeclaration) (w : String)
      (r : ParamResult)
      → All (λ e. e.name ≢ d.name) rest
      → param_value lib results event supplied d ≡ some w
      → resolve_params_loop lib results event supplied (insert d.name w acc) rest ≡ r
      → Explained rest r
      → Explained (d ∷ rest) r
  one_more acc d rest w (unresolved msg) new e e' (x, declared, missing, named) =
      (x, inr declared, missing, named)
  one_more acc d rest w (resolved m) new e e' h = (
    (
      w,
      param-ValueFor d w e,
      loop_keeps d.name w (insert d.name w acc) rest {m = m} new
          (lookup-insert d.name d.name w acc ∙ rw (eq_refl d.name)) e',
    ),
    h,
  )

  loop-Explained :
      (acc : Params) (decls : List ParamDeclaration)
      → Distinct decls
      → Explained decls (resolve_params_loop lib results event supplied acc decls)
  unfolding resolve_params_loop put_param
  loop-Explained acc [] h = tt
  loop-Explained acc (d ∷ rest) (new, h) =
      elim (Option-cases (param_value lib results event supplied d)) [
        | inl e ↦ rw e (d, inl refl, value-Missing d e, refl)
        | inr (w, e) ↦
            rw e (one_more acc d rest w _ new e refl (loop-Explained (insert d.name w acc) rest h))
      ]

-- Where no two declarations share a name, resolveFlowParams either gives every declared parameter its
-- value, or names one that is required, has no default and is in neither the FlowRun's parameters nor
-- the fields of the trigger's body. The value is, with its placeholders filled in, the last that the
-- FlowRun has for the name, else the field of the body, else the default, and without a default empty,
-- which only a parameter that is not required can be.
pub resolve_flow_params-Explained :
    (lib : Library) (results : StepResults) (event : Option TriggerData)
    (decls : List ParamDeclaration) (values : List ParamValue)
    → Distinct decls
    → Explained lib results event values decls (resolve_flow_params lib results event decls values)
unfolding resolve_flow_params
resolve_flow_params-Explained lib results event decls values h =
    loop-Explained lib results event values [] decls h
