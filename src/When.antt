-- ===== src/When.antt =====
-- internal/controller/flowrun_controller.go: evaluateWhen. CEL itself (cel-go) is a parameter: what
-- an expression compiles to, and what a program gives on an activation. The cache of programs is the
-- state that a call is given and returns.
pub mod Cached
pub mod Tests
use kubezap_operator.Base.{
  ℕ, String, Bool, true, false, not, Option, none, some, List, [], ◌∷◌, ◌==◌, if◌then◌else◌,
  is_empty,
}
use kubezap_operator.Base.Int.{ℤ}
use kubezap_operator.Base.Assoc.{Assoc, lookup, insert}
use kubezap_operator.Base.Text.{underscore}
use kubezap_operator.Api.FlowRun.{
  TriggerData, StepRunStatus, StepPhase, Message, cel_env_missing, cel_compile_error,
  cel_program_error, cel_eval_error, cel_not_bool,
}
use kubezap_operator.Run.Runtime.{StepResults, Params, WhenResult, when_fails, holds}
use kubezap_operator.Template.Library.{Json, null, string, object, Fields, empty, field, Library}
use kubezap_operator.Template.Body.{parse_trigger_body}

pub record StepView : Type 0 where
  pub results : Assoc String
  pub status : StepPhase

-- The variables `trigger`, `steps` and `params` of an expression.
pub record Activation : Type 0 where
  pub trigger : Assoc Json
  pub steps : Assoc StepView
  pub params : Params

pub data Compiled {ℓ} (Program : Type ℓ) : Type ℓ where
  compile_error : String → Compiled Program
  program_error : String → Compiled Program
  program : Program → Compiled Program

pub data Evaluated : Type 0 where
  eval_error : String → Evaluated
  not_bool : String → Evaluated
  bool : Bool → Evaluated

-- A map of strings as an object.
unfoldable pub as_object : Assoc String → Fields
as_object [] = empty
as_object ((name, value) ∷ rest) = field name (string value) (as_object rest)

empty_object : Json
empty_object = object empty

body_fields : Json → Json
unfolding empty_object
body_fields null = empty_object
body_fields root = root

module _ (lib : Library) where
  open lib use {format_int, format_time}

  scheduled : Option ℤ → String
  scheduled none = ""
  scheduled (some t) = format_time t

  unfoldable pub trigger_map : Option TriggerData → Assoc Json
  unfolding scheduled empty_object body_fields as_object
  trigger_map none =
      ("body", string "")
      ∷ ("bodyFields", empty_object)
      ∷ ("topic", string "")
      ∷ ("partition", string "0")
      ∷ ("offset", string "0")
      ∷ ("key", string "")
      ∷ ("keyEncoding", string "")
      ∷ ("scheduledTime", string "")
      ∷ ("headers", empty_object)
      ∷ []
  trigger_map (some event) =
      ("body", string event.body)
      ∷ ("bodyFields", body_fields (parse_trigger_body lib (some event)))
      ∷ ("topic", string event.topic)
      ∷ ("partition", string (format_int event.partition))
      ∷ ("offset", string (format_int event.offset))
      ∷ ("key", string event.key)
      ∷ ("keyEncoding", string event.key_encoding)
      ∷ ("scheduledTime", string (scheduled event.scheduled_time))
      ∷ ("headers", object (as_object event.headers))
      ∷ []

unfoldable pub result_views : Assoc StepView → StepResults → Assoc StepView
result_views views [] = views
result_views views ((name, results) ∷ rest) =
    result_views
      (insert (underscore name) (record { results = results; status = StepPhase.unset }) views) rest

abbrev pub with_status : StepPhase → Option StepView → StepView
with_status phase none = record { results = []; status = phase }
with_status phase (some view) = record view { status = phase }

unfoldable pub status_views : Assoc StepView → List StepRunStatus → Assoc StepView
status_views views [] = views
status_views views (s ∷ rest) =
    let name = underscore s.name in
    status_views (insert name (with_status s.phase (lookup name views)) views) rest

unfoldable pub activation :
    Library → StepResults → List StepRunStatus → Option TriggerData → Params → Activation
unfolding trigger_map result_views status_views
activation lib results statuses event params = record {
  trigger = trigger_map lib event;
  steps = status_views (result_views [] results) statuses;
  params = params;
}

module _ {ℓ} {Program : Type ℓ} where
  -- One expression: what it ends the loop with, if it does.
  unfoldable pub verdict :
      (Program → Activation → Evaluated) → Activation → Compiled Program → Option WhenResult
  verdict eval act (compile_error e) = some (when_fails (cel_compile_error e))
  verdict eval act (program_error e) = some (when_fails (cel_program_error e))
  verdict eval act (program p) = elim (eval p act) [
    | eval_error e ↦ some (when_fails (cel_eval_error e))
    | not_bool v ↦ some (when_fails (cel_not_bool v))
    | bool true ↦ none
    | bool false ↦ some (holds false)
  ]

  -- The result of the loop: this expression's, or the later ones'.
  abbrev pub decided :
      Option WhenResult → Assoc Program → WhenResult × Assoc Program → WhenResult × Assoc Program
  decided (some r) cache later = (r, cache)
  decided none cache later = later

module _ {ℓ} {Program : Type ℓ} (compile : String → Compiled Program)
    (eval : Program → Activation → Evaluated) (disable_cache : Bool) where
  -- The program of an expression, and the cache after it.
  abbrev pub stored : String → Compiled Program → Assoc Program → Assoc Program
  stored expr (program p) cache = if disable_cache then cache else insert expr p cache
  stored expr _ cache = cache

  abbrev cached : String → Assoc Program → Option Program
  cached expr cache = if disable_cache then none else lookup expr cache

  -- `prog`, and whether it was in the cache.
  unfoldable pub load : String → Assoc Program → Compiled Program
  load expr cache = elim (cached expr cache) [ some p ↦ program p | none ↦ compile expr ]

  unfoldable pub store : String → Assoc Program → Assoc Program
  store expr cache = elim (cached expr cache) [
    | some p ↦ cache
    | none ↦ stored expr (compile expr) cache
  ]

  unfoldable pub evaluate_all :
      Activation → List String → Assoc Program → WhenResult × Assoc Program
  unfolding load store
  evaluate_all act [] cache = (holds true, cache)
  evaluate_all act (expr ∷ rest) cache =
      decided (verdict eval act (load expr cache)) (store expr cache)
        (evaluate_all act rest (store expr cache))

  unfoldable pub evaluate_when :
      Library
      → Bool
      → List String
      → StepResults
      → List StepRunStatus
      → Option TriggerData
      → Params
      → Assoc Program
      → WhenResult × Assoc Program
  unfolding evaluate_all activation
  evaluate_when lib env_ready exprs results statuses event params cache =
      if is_empty exprs
      then (holds true, cache)
      else if not env_ready
      then (when_fails cel_env_missing, cache)
      else evaluate_all (activation lib results statuses event params) exprs cache
