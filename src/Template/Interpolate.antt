-- ===== src/Template/Interpolate.antt =====
-- internal/controller/flowrun_controller.go: interpolateTemplate, substituteVars and
-- substituteVarsWithSecrets. The index `i` into the template is the text from there on; the loop
-- runs on fuel, the length of the template.
pub mod Laws
pub mod Segments
pub mod Secrets
use kubezap_operator.Base.{ℕ, zero, suc, String, Bool, Option, none, some}
use kubezap_operator.Base.Text.{◌⧺◌, size, cut}
use kubezap_operator.Api.FlowRun.{TriggerData, Message}
use kubezap_operator.Run.Runtime.{StepResults, Params}
use kubezap_operator.Template.Library.{Library}
use kubezap_operator.Template.Body.{parse_trigger_body}
use kubezap_operator.Template.Token.{
  Resolver, SecretResult, Resolved, token_error, unmatched, plain, secret,
  resolve_interpolation_token,
}

-- `(actual, display string, err error)`
pub data Interpolated : Type 0 where
  aborted : Message → Interpolated
  texts : String → String → Interpolated

-- What the two buffers have already, before what is still to come.
unfoldable pub prepend : String → String → Interpolated → Interpolated
prepend actual display (aborted m) = aborted m
prepend actual display (texts a d) = texts (actual ⧺ a) (display ⧺ d)

-- What one placeholder adds, before the rest.
unfoldable pub emit : String → Resolved → Interpolated → Interpolated
unfolding prepend
emit token (token_error m) rest = aborted m
emit token unmatched rest = let full = "$(" ⧺ token ⧺ ")" in prepend full full rest
emit token (plain v) rest = prepend v v rest
emit token (secret v) rest = prepend v "[REDACTED]" rest

-- After `before` and an opened placeholder: the text `opened`, cut at its end.
unfoldable pub closed :
    String
    → String
    → (String → Resolved)
    → (String → Interpolated)
    → Option (String × String)
    → Interpolated
unfolding emit
closed before opened resolve again none = texts (before ⧺ "$(" ⧺ opened) (before ⧺ "$(" ⧺ opened)
closed before opened resolve again (some (token, rest)) =
    prepend before before (emit token (resolve token) (again rest))

-- One round of the loop, on the text from `i` on, cut at the next placeholder.
unfoldable pub opened :
    String → (String → Resolved) → (String → Interpolated) → Option (String × String) → Interpolated
unfolding closed
opened s resolve again none = texts s s
opened s resolve again (some (before, inner)) = closed before inner resolve again (cut ")" inner)

unfoldable pub interpolate_loop : (String → Resolved) → ℕ → String → Interpolated
unfolding opened
interpolate_loop resolve zero s = texts s s
interpolate_loop resolve (suc fuel) s =
    opened s resolve (interpolate_loop resolve fuel) (cut "$(" s)

module _ (lib : Library) where
  unfoldable pub interpolate_template :
      String → StepResults → Option TriggerData → Params → Resolver → Interpolated
  unfolding interpolate_loop
  interpolate_template s results event params fetch =
      interpolate_loop
        (resolve_interpolation_token lib results event params (parse_trigger_body lib event) fetch)
        (size s) s

  abbrev actual_of : Interpolated → String
  actual_of (aborted m) = ""
  actual_of (texts a d) = a

  unfoldable pub substitute_vars : String → StepResults → Option TriggerData → Params → String
  unfolding interpolate_template
  substitute_vars s results event params =
      actual_of (interpolate_template s results event params none)

  -- `fetch name key` is fetchSecretValue in the FlowRun's namespace.
  unfoldable pub substitute_vars_with_secrets :
      (String → String → SecretResult)
      → String
      → StepResults
      → Option TriggerData
      → Params
      → Interpolated
  unfolding interpolate_template
  substitute_vars_with_secrets fetch s results event params =
      interpolate_template s results event params (some fetch)
