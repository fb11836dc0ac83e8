-- ===== src/Template/Params.antt =====
-- internal/controller/flowrun_controller.go: resolveFlowParams.
pub mod Laws
use kubezap_operator.Base.{
  String, Bool, true, false, ◌≡◌, refl, Option, none, some, List, [], ◌∷◌, ◌==◌, arith, eq_iff,
  eq_refl, if◌then◌else◌, All, Bool-cases, Option-cases, inl, inr, ◌≢◌, is_empty,
}
use kubezap_operator.Base.Assoc.{Assoc, lookup, insert, lookup-insert}
use kubezap_operator.Api.Flow.{ParamDeclaration, ParamValue}
use kubezap_operator.Api.FlowRun.{TriggerData, Message, required_param}
use kubezap_operator.Run.Runtime.{StepResults, Params, ParamResult, unresolved, resolved}
use kubezap_operator.Template.Library.{Json, object, field_at, Library}
use kubezap_operator.Template.Body.{parse_trigger_body, resolve_body_path}
use kubezap_operator.Template.Interpolate.{substitute_vars}

-- The FlowRun's own values; of two for one name, the last.
unfoldable pub supplied_params : Assoc String → List ParamValue → Assoc String
supplied_params acc [] = acc
supplied_params acc (pv ∷ rest) = supplied_params (insert pv.name pv.value acc) rest

-- `bodyFields[decl.Name]`, where the body is an object.
unfoldable pub body_field : String → Json → Option Json
body_field name (object fields) = field_at name fields
body_field name _ = none

module _ (lib : Library) (results : StepResults) (event : Option TriggerData) where
  default_value : ParamDeclaration → Option String
  default_value decl =
      if not_blank decl.default then some decl.default else if decl.required then none else some ""
    where
      not_blank : String → Bool
      not_blank s = if s == "" then false else true

  from_body : ParamDeclaration → Option Json → Option String
  unfolding default_value
  from_body decl (some v) = some (resolve_body_path lib [] v)
  from_body decl none = default_value decl

  from_run : ParamDeclaration → Option String → Option String
  unfolding from_body
  from_run decl (some raw) = some (substitute_vars lib raw results event [])
  from_run decl none = from_body decl (body_field decl.name (parse_trigger_body lib event))

  -- The value of one declared parameter; none where a required one has no value.
  unfoldable pub param_value : Assoc String → ParamDeclaration → Option String
  unfolding from_run
  param_value supplied decl = from_run decl (lookup decl.name supplied)

  put_param : ParamDeclaration → Option String → Params → (Params → ParamResult) → ParamResult
  put_param decl none acc next = unresolved (required_param decl.name)
  put_param decl (some v) acc next = next (insert decl.name v acc)

  unfoldable pub resolve_params_loop : Assoc String → Params → List ParamDeclaration → ParamResult
  unfolding put_param
  resolve_params_loop supplied acc [] = resolved acc
  resolve_params_loop supplied acc (decl ∷ rest) =
      put_param decl (param_value supplied decl) acc (λ m. resolve_params_loop supplied m rest)

  -- Without declarations the result is Go's nil map.
  unfoldable pub resolve_flow_params : List ParamDeclaration → List ParamValue → ParamResult
  unfolding resolve_params_loop supplied_params
  resolve_flow_params decls values = resolve_params_loop (supplied_params [] values) [] decls
