-- ===== src/Template/Token.antt =====
-- internal/controller/flowrun_controller.go: resolveInterpolationToken and
-- resolveTriggerScalarToken, on the text between `$(` and `)`. A Go map that is ranged over is read
-- in the list's order; `lowerHeaders` is built from the headers in theirs.
use kubezap_operator.Base.{String, Bool, ◌||◌, Option, none, some, [], ◌∷◌, ◌==◌, if◌then◌else◌}
use kubezap_operator.Base.Int.{ℤ}
use kubezap_operator.Base.Assoc.{Assoc, lookup, insert}
use kubezap_operator.Base.Text.{cut, strip_prefix, split, underscore}
use kubezap_operator.Api.FlowRun.{TriggerData, Message, secret_unresolved}
use kubezap_operator.Run.Runtime.{StepResults, Params}
use kubezap_operator.Template.Library.{Json, null, Library}
use kubezap_operator.Template.Body.{resolve_body_path}

-- `(string, error)` of fetchSecretValue.
pub data SecretResult : Type 0 where
  secret_error : Message → SecretResult
  secret_value : String → SecretResult

-- `resolveSecret func(name, key string) (string, error)`, which may be nil.
abbrev pub Resolver : Type 0
Resolver = Option (String → String → SecretResult)

-- `(value string, matched, isSecret bool, err error)`
pub data Resolved : Type 0 where
  token_error : Message → Resolved
  unmatched : Resolved
  plain : String → Resolved
  secret : String → Resolved

abbrev plain_or_unmatched : Option String → Resolved
plain_or_unmatched none = unmatched
plain_or_unmatched (some v) = plain v

abbrev or_blank : Option String → String
or_blank none = ""
or_blank (some v) = v

-- A case `strings.HasPrefix(token, prefix)`, on what follows the prefix.
abbrev pub prefixed : Option String → (String → Resolved) → Resolved → Resolved
prefixed none taken other = other
prefixed (some rest) taken other = taken rest

-- A case that needs TriggerData.
abbrev pub with_event : Option TriggerData → (TriggerData → Resolved) → Resolved
with_event none taken = unmatched
with_event (some event) taken = taken event

-- The results of the first step of that name, its hyphens read as underscores.
unfoldable pub results_named : String → StepResults → Option (Assoc String)
results_named name [] = none
results_named name ((step, results) ∷ rest) =
    if underscore step == name then some results else results_named name rest

output_in : String → Option (Assoc String) → Resolved
output_in key none = unmatched
output_in key (some results) = plain_or_unmatched (lookup key results)

step_token : StepResults → Option (String × String) → Resolved
unfolding output_in
step_token results none = unmatched
step_token results (some (name, key)) = output_in key (results_named name results)

abbrev pub resolved_secret : String → SecretResult → Resolved
resolved_secret token (secret_error m) = token_error (secret_unresolved token m)
resolved_secret token (secret_value v) = secret v

unfoldable pub secret_token : Resolver → String → Option (String × String) → Resolved
secret_token none token parts = unmatched
secret_token (some fetch) token none = unmatched
secret_token (some fetch) token (some (name, key)) = resolved_secret token (fetch name key)

abbrev pub is_scalar : String → Bool
is_scalar token =
    token == "trigger.topic"
    || token == "trigger.partition"
    || token == "trigger.offset"
    || token == "trigger.key"
    || token == "trigger.scheduledTime"

module _ (lib : Library) where
  open lib use {to_lower, format_int, format_time}

  unfoldable pub lower_headers : Assoc String → Assoc String → Assoc String
  lower_headers acc [] = acc
  lower_headers acc ((name, value) ∷ rest) = lower_headers (insert (to_lower name) value acc) rest

  body_token : Json → TriggerData → String → Resolved
  body_token null event path = unmatched
  body_token root event path =
      if event.body == "" then unmatched else plain (resolve_body_path lib (split b'.' path) root)

  header_token : TriggerData → String → Resolved
  unfolding lower_headers
  header_token event name =
      plain (or_blank (lookup (to_lower name) (lower_headers [] event.headers)))

  time_text : Option ℤ → String
  time_text none = ""
  time_text (some t) = format_time t

  unfoldable pub resolve_trigger_scalar_token : String → TriggerData → Resolved
  unfolding time_text
  resolve_trigger_scalar_token token event =
      if token == "trigger.topic"
      then plain event.topic
      else if token == "trigger.partition"
      then plain (format_int event.partition)
      else if token == "trigger.offset"
      then plain (format_int event.offset)
      else if token == "trigger.key"
      then plain event.key
      else if token == "trigger.scheduledTime"
      then plain (time_text event.scheduled_time)
      else unmatched

  -- The body is parsed for every token; the source parses it once, when a token needs it.
  unfoldable pub resolve_interpolation_token :
      StepResults → Option TriggerData → Params → Json → Resolver → String → Resolved
  unfolding step_token body_token header_token resolve_trigger_scalar_token secret_token
  resolve_interpolation_token results event params root fetch token =
      prefixed (strip_prefix "steps." token) (λ rest. step_token results (cut ".results." rest))
        (prefixed (strip_prefix "params." token) (λ name. plain_or_unmatched (lookup name params))
          (if token == "trigger.body"
            then with_event event (λ e. plain e.body)
            else prefixed (strip_prefix "trigger.body." token)
                (λ path. with_event event (λ e. body_token root e path))
                (prefixed (strip_prefix "trigger.headers." token)
                  (λ name. with_event event (λ e. header_token e name))
                  (if is_scalar token
                    then with_event event (resolve_trigger_scalar_token token)
                    else prefixed (strip_prefix "secrets." token)
                        (λ inner. secret_token fetch token (cut "." inner)) unmatched))))
