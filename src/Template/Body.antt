-- ===== src/Template/Body.antt =====
-- internal/controller/flowrun_controller.go: parseTriggerBody, isFormURLEncodedContentType,
-- parseFormURLEncodedBody, resolveBodyPath, renderBodyLeaf and extractSimpleJSONPath.
use kubezap_operator.Base.{String, Bool, Option, none, some, List, [], ◌∷◌, ◌==◌, if◌then◌else◌}
use kubezap_operator.Base.Int.{ℤ, pos}
use kubezap_operator.Base.Assoc.{Assoc}
use kubezap_operator.Base.Text.{cut, strip_prefix}
use kubezap_operator.Api.FlowRun.{TriggerData}
use kubezap_operator.Template.Library.{
  Json, null, boolean, number, string, array, object, Items, Fields, empty, field, field_at,
  item_at, Library,
}

-- `strings.SplitN(s, sep, 2)[0]`
abbrev before_cut : String → Option (String × String) → String
before_cut s none = s
before_cut s (some (before, after)) = before

abbrev or_null : Option Json → Json
or_null none = null
or_null (some v) = v

module _ (lib : Library) where
  open lib use {
    parse_json, parse_query, parse_media_type, trim_space, equal_fold, atoi, format_float,
    show_value, marshal,
  }

  media_type : String → Option String → String
  media_type content_type (some t) = t
  media_type content_type none = trim_space (before_cut content_type (cut ";" content_type))

  unfoldable pub is_form_url_encoded_content_type : String → Bool
  unfolding media_type
  is_form_url_encoded_content_type content_type =
      equal_fold (media_type content_type (parse_media_type content_type))
        "application/x-www-form-urlencoded"

  form_field : String → List String → Fields → Fields
  form_field key [] rest = rest
  form_field key (v ∷ vs) rest = field key (string v) rest

  form_fields : Assoc (List String) → Fields
  unfolding form_field
  form_fields [] = empty
  form_fields ((key, vs) ∷ rest) = form_field key vs (form_fields rest)

  form_body : Option (Assoc (List String)) → Json
  unfolding form_fields
  form_body none = null
  form_body (some values) = object (form_fields values)

  -- The first value of each key; null when the text is no query string.
  unfoldable pub parse_form_url_encoded_body : String → Json
  unfolding form_body
  parse_form_url_encoded_body body = form_body (parse_query body)

  -- The parsed body; null stands for Go's nil interface.
  unfoldable pub parse_trigger_body : Option TriggerData → Json
  unfolding parse_form_url_encoded_body is_form_url_encoded_content_type
  parse_trigger_body none = null
  parse_trigger_body (some event) =
      if event.body == ""
      then null
      else if is_form_url_encoded_content_type event.content_type
      then parse_form_url_encoded_body event.body
      else or_null (parse_json event.body)

  marshalled : Json → Option String → String
  marshalled v (some text) = text
  marshalled v none = show_value v

  unfoldable pub render_body_leaf : Json → String
  unfolding marshalled
  render_body_leaf null = ""
  render_body_leaf (string s) = s
  render_body_leaf (number n) = format_float n
  render_body_leaf (object fields) = marshalled (object fields) (marshal (object fields))
  render_body_leaf (array items) = marshalled (array items) (marshal (array items))
  render_body_leaf (boolean b) = show_value (boolean b)

  child_item : Items → Option ℤ → Option Json
  child_item items (some (pos i)) = item_at i items
  child_item items _ = none

  -- The value one segment down.
  unfoldable pub child : String → Json → Option Json
  unfolding child_item
  child key (object fields) = field_at key fields
  child key (array items) = child_item items (atoi key)
  child key _ = none

  unfoldable pub resolve_body_path : List String → Json → String
  unfolding child render_body_leaf
  resolve_body_path [] v = render_body_leaf v
  resolve_body_path (key ∷ rest) v = elim (child key v) [
    | some next ↦ resolve_body_path rest next
    | none ↦ ""
  ]

  text_or_value : Option Json → String
  text_or_value none = ""
  text_or_value (some (string s)) = s
  text_or_value (some v) = show_value v

  abbrev without_prefix : String → Option String → String
  without_prefix s none = s
  without_prefix s (some rest) = rest

  -- The text of one field of an object, named `$.field`.
  unfoldable pub extract_simple_json_path : String → Fields → String
  unfolding text_or_value
  extract_simple_json_path path fields =
      text_or_value (field_at (without_prefix path (strip_prefix "$." path)) fields)
