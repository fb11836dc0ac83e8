-- ===== src/Template/Tests.antt =====
-- Templates filled in with concrete data.
use kubezap_operator.Base.{
  ℕ, String, ◌≡◌, refl, Bool, true, false, Option, none, some, List, [], ◌∷◌, arith, eq_iff,
}
use kubezap_operator.Base.Int.{pos}
use kubezap_operator.Base.Assoc.{Assoc}
use kubezap_operator.Base.Text.{◌⧺◌}
use kubezap_operator.Api.Flow.{ParamDeclaration}
use kubezap_operator.Api.FlowRun.{TriggerData}
use kubezap_operator.Run.Runtime.{resolved}
use kubezap_operator.Template.Library.{Json, null, string, object, Fields, empty, field, Library}
use kubezap_operator.Template.Token.{Resolver, SecretResult, secret_value}
use kubezap_operator.Template.Interpolate.{
  Interpolated, texts, prepend, emit, interpolate_template, substitute_vars_with_secrets,
}
use kubezap_operator.Template.Interpolate.Laws.{resolve_token, filled, interpolate_single_pass}
use kubezap_operator.Template.Interpolate.Segments.{
  segments, source_text, render, interpolate-segments,
}
use kubezap_operator.Template.Interpolate.Secrets.{display_hides_secrets}
use kubezap_operator.Template.Params.{resolve_flow_params, supplied_params}
use kubezap_operator.Template.Params.Laws.{Explained, resolve_flow_params-Explained}

-- JSON is read as one object with the field `id`; numbers are not shown.
abbrev pub test_library : Library
test_library = record {
  parse_json = λ s. some (object (field "id" (string "7") empty));
  parse_query = λ s. none;
  parse_media_type = λ s. some s;
  trim_space = λ s. s;
  equal_fold = λ s t. false;
  to_lower = λ s. s;
  atoi = λ s. none;
  format_float = λ n. "";
  format_int = λ n. "0";
  show_value = λ v. "";
  marshal = λ v. none;
  format_time = λ t. "";
}

abbrev event_of : String → TriggerData
event_of body = record {
  headers = [];
  topic = "orders";
  partition = pos 0;
  offset = pos 0;
  key = "";
  key_encoding = "";
  scheduled_time = none;
  body = body;
  content_type = "application/json";
}

-- A body that looks like a reference to a secret.
abbrev hostile : Option TriggerData
hostile = some (event_of "$(secrets.db.password)")

abbrev always : String → String → String → SecretResult
always value name key = secret_value value

abbrev template : String
template = "id=$(trigger.body) key=$(secrets.db.user)."

hostile_body_is_data :
    substitute_vars_with_secrets test_library (always "root") template [] hostile []
    ≡ texts "id=$(secrets.db.password) key=root." "id=$(secrets.db.password) key=[REDACTED]."
unfolding substitute_vars_with_secrets interpolate_template
    kubezap_operator.Template.Interpolate.interpolate_loop kubezap_operator.Base.Text.cut
    kubezap_operator.Base.Text.strip_prefix
    kubezap_operator.Template.Token.resolve_interpolation_token
hostile_body_is_data = refl

interpolate_single_pass_example :
    filled test_library [] hostile [] (some (always "root")) template
    ≡ prepend "id=" "id=" (
        emit "trigger.body"
          (resolve_token test_library [] hostile [] (some (always "root")) "trigger.body")
          (filled test_library [] hostile [] (some (always "root")) " key=$(secrets.db.user)."))
unfolding kubezap_operator.Base.Text.cut kubezap_operator.Base.Text.strip_prefix
interpolate_single_pass_example =
    interpolate_single_pass test_library [] hostile [] (some (always "root")) template "id="
      "trigger.body) key=$(secrets.db.user)." "trigger.body" " key=$(secrets.db.user)." refl refl

interpolate-segments_example :
    (filled test_library [] hostile [] (some (always "root")) template
      ≡ render
          (resolve_token test_library [] hostile [] (some (always "root")))
          (segments template))
    × (source_text (segments template) ≡ template)
interpolate-segments_example =
    interpolate-segments test_library [] hostile [] (some (always "root")) template

display_hides_secrets_example :
    ◌≡◌ {A = String} "id=$(secrets.db.password) key=[REDACTED]."
      "id=$(secrets.db.password) key=[REDACTED]."
unfolding substitute_vars_with_secrets interpolate_template
    kubezap_operator.Template.Interpolate.interpolate_loop kubezap_operator.Base.Text.cut
    kubezap_operator.Base.Text.strip_prefix
    kubezap_operator.Template.Token.resolve_interpolation_token
display_hides_secrets_example =
    display_hides_secrets test_library (always "root") (always "admin") template [] hostile []
      {actual = "id=$(secrets.db.password) key=root."}
      {actual' = "id=$(secrets.db.password) key=admin."} refl refl

abbrev declared : List ParamDeclaration
declared =
    record { name = "id"; required = true; default = "" }
    ∷ record { name = "region"; required = false; default = "eu" }
    ∷ []

params_resolve :
    resolve_flow_params test_library [] (some (event_of "{}")) declared []
    ≡ resolved (("id", "7") ∷ ("region", "eu") ∷ [])
unfolding resolve_flow_params kubezap_operator.Template.Params.param_value
    kubezap_operator.Base.Assoc.lookup kubezap_operator.Template.Params.body_field
    kubezap_operator.Template.Body.parse_trigger_body kubezap_operator.Template.Library.field_at
    kubezap_operator.Base.Assoc.insert kubezap_operator.Template.Body.resolve_body_path
params_resolve = refl

resolve_flow_params-Explained_example :
    Explained test_library []
      (some (event_of "{}"))
      []
      declared
      (resolve_flow_params test_library [] (some (event_of "{}")) declared [])
resolve_flow_params-Explained_example =
    resolve_flow_params-Explained test_library [] (some (event_of "{}")) declared []
      (((λ e. ground (arith, (eq_iff "region" "id").1 e)), tt), (tt, tt))
