-- ===== src/Step/Http.antt =====
-- internal/controller/flowrun_controller.go: executeHTTPStep. What lies behind calls is a parameter:
-- the secrets, the HTTP Integration (applyHTTPIntegration), the SSRF check (checkSSRF), the executor
-- (callExecutor), and whether the step's context ends while the loop waits.
pub mod Attempts
use kubezap_operator.Base.{
  ℕ, zero, suc, ◌+◌, String, Bool, true, false, ◌&&◌, not, Option, none, some, List, [], ◌∷◌, ◌==◌,
  ltb, leb, is_empty, if◌then◌else◌,
}
use kubezap_operator.Base.Int.{ℤ, pos, ltb_ℤ}
use kubezap_operator.Base.Assoc.{Assoc, insert}
use kubezap_operator.Api.Flow.{FlowStep, HttpAction, RetryPolicy}
use kubezap_operator.Api.FlowRun.{
  TriggerData, Message, text, no_http, url_secrets, body_secrets, header_secrets, ssrf_blocked,
  executor_rpc, http_failure, context_done,
}
use kubezap_operator.Run.Runtime.{StepResults, Params}
use kubezap_operator.Template.Library.{Json, null, object, Fields, empty, Library}
use kubezap_operator.Template.Body.{extract_simple_json_path}
use kubezap_operator.Template.Token.{SecretResult}
use kubezap_operator.Template.Interpolate.{
  Interpolated, aborted, texts, substitute_vars_with_secrets,
}
use kubezap_operator.Step.Retry.{retry_delay}

pub record TlsMaterial : Type 0 where
  pub ca_bundle : String
  pub client_cert : String
  pub client_key : String

pub record ExecuteRequest : Type 0 where
  pub method : String
  pub url : String
  pub headers : Assoc String
  pub body : String
  pub timeout_seconds : ℤ
  pub tls : TlsMaterial

pub record ExecuteResponse : Type 0 where
  pub status_code : ℤ
  pub body : String
  pub error : String

-- `(*ExecuteResponse, error)` of callExecutor.
pub data CallResult : Type 0 where
  unreachable : Message → CallResult
  rpc_error : Message → CallResult
  response : ExecuteResponse → CallResult

-- `(string, httpTLSMaterial, error)` of applyHTTPIntegration, with the headers it leaves.
pub data IntegrationResult : Type 0 where
  integration_error : Message → IntegrationResult
  integrated : String → Assoc String → TlsMaterial → IntegrationResult

pub record HttpRuntime : Type 0 where
  pub fetch_secret : String → String → SecretResult
  pub apply_integration :
      String → String → Assoc String → StepResults → Option TriggerData → Params → IntegrationResult
  pub check_ssrf : String → Option Message
  -- The answer to the request at an attempt.
  pub call_executor : ℕ → ExecuteRequest → CallResult
  -- The step's context ends during the delay before an attempt.
  pub ends_during : ℕ → ℤ → Bool
  -- strings.ReplaceAll, and `truncate(s, 256)`.
  pub replace_all : String → String → String → String
  pub truncate : String → String

-- `(map[string]string, string, int, error)`
pub data HttpResult : Type 0 where
  http_ok : Assoc String → Message → ℕ → HttpResult
  http_failed : Message → ℕ → HttpResult
  http_unreachable : Message → ℕ → HttpResult

-- What one response means: results, or an error after which the loop tries again.
pub data Answer : Type 0 where
  answered : Assoc String → Message → Answer
  try_again : Message → Answer
  give_up : Message → Answer

module _ (lib : Library) where
  put_result : String → String → Assoc String → Assoc String
  put_result key value m = if value == "" then m else insert key value m

  unfoldable pub mapped_results : Fields → Assoc String → Assoc String → Assoc String
  unfolding put_result
  mapped_results fields m [] = m
  mapped_results fields m ((key, path) ∷ rest) =
      mapped_results fields (put_result key (extract_simple_json_path lib path fields) m) rest

  -- json.Unmarshal into a map, which takes an object or null.
  json_results : Option Json → Assoc String → Assoc String → Assoc String
  unfolding mapped_results
  json_results (some (object fields)) mappings m = mapped_results fields m mappings
  json_results (some null) mappings m = mapped_results empty m mappings
  json_results _ mappings m = m

  unfoldable pub response_results : HttpAction → ExecuteResponse → Assoc String
  unfolding json_results
  response_results h resp =
      let m = ("body", resp.body) ∷ ("status", lib.format_int resp.status_code) ∷ [] in
      if is_empty h.result_mappings
      then m
      else json_results (lib.parse_json resp.body) h.result_mappings m

  module _ (rt : HttpRuntime) (step : FlowStep) (h : HttpAction) where
    open rt use {call_executor, ends_during, replace_all, truncate}

    abbrev is_success : ℤ → Bool
    is_success code = not (ltb_ℤ code (pos 200)) && ltb_ℤ code (pos 300)

    unfoldable pub answer : String → String → CallResult → Answer
    unfolding response_results
    answer resolved display (unreachable m) = give_up m
    answer resolved display (rpc_error m) = try_again (executor_rpc step.name display m)
    answer resolved display (response resp) =
        if not (resp.error == "")
        then try_again (
            text
              (if resolved == display then resp.error else replace_all resp.error resolved display))
        else if is_success resp.status_code
        then answered (response_results h resp) (Message.http_ok resp.status_code)
        else try_again (http_failure resp.status_code (truncate resp.body))

    -- The loop's outcome after an answer: `again` with its error.
    abbrev pub after_answer : ℕ → Answer → (Message → HttpResult) → HttpResult
    after_answer attempt (answered results m) again = http_ok results m (attempt + 1)
    after_answer attempt (give_up m) again = http_unreachable m (attempt + 1)
    after_answer attempt (try_again m) again = again m

    -- `attempt` from 0, with the attempts that are left; `last` is lastErr.
    unfoldable pub attempt_loop : ExecuteRequest → String → ℕ → ℕ → Message → HttpResult
    unfolding answer
    attempt_loop req display zero attempt last = http_failed last attempt
    attempt_loop req display (suc left) attempt last =
        if ltb 0 attempt && ends_during attempt (retry_delay step.retry_policy attempt)
        then http_failed context_done (attempt + 1)
        else after_answer attempt (answer req.url display (call_executor attempt req))
            (attempt_loop req display left (attempt + 1))

    abbrev max_attempts : Option RetryPolicy → ℕ
    max_attempts none = 1
    max_attempts (some p) = p.max_retries + 1

    abbrev method_or : String → String
    method_or m = if m == "" then "POST" else m

    abbrev timeout_or : ℤ → ℤ
    timeout_or t = if ltb_ℤ (pos 0) t then t else pos 30

    -- From the checked request on.
    unfoldable pub send : String → String → String → Assoc String → TlsMaterial → HttpResult
    unfolding attempt_loop
    send display body url headers tls = elim (rt.check_ssrf url) [
      | some m ↦ http_failed (ssrf_blocked step.name m) 0
      | none ↦
          attempt_loop
            (record {
              method = method_or h.method;
              url = url;
              headers = headers;
              body = body;
              timeout_seconds = timeout_or h.timeout_seconds;
              tls = tls;
            })
            display (max_attempts step.retry_policy) 0 Message.empty
    ]

    after_integration : String → String → IntegrationResult → HttpResult
    unfolding send
    after_integration display body (integration_error m) = http_failed m 0
    after_integration display body (integrated url headers tls) = send display body url headers tls

    abbrev no_tls : TlsMaterial
    no_tls = record { ca_bundle = ""; client_cert = ""; client_key = "" }

    abbrev integration_name : Option String → Option String
    integration_name none = none
    integration_name (some name) = if name == "" then none else some name

    module _ (results : StepResults) (event : Option TriggerData) (params : Params) where
      with_integration : String → String → String → Assoc String → Option String → HttpResult
      unfolding after_integration send
      with_integration display body url headers none = send display body url headers no_tls
      with_integration display body url headers (some name) =
          after_integration display body
            (rt.apply_integration name url headers results event params)

      abbrev filled_text : String → Interpolated
      filled_text s = substitute_vars_with_secrets lib rt.fetch_secret s results event params

      put_header : String → Interpolated → Assoc String → (Assoc String → HttpResult) → HttpResult
      put_header key (aborted m) acc next = http_failed (header_secrets key step.name m) 0
      put_header key (texts actual display) acc next = next (insert key actual acc)

      unfoldable pub with_headers :
          Assoc String → Assoc String → (Assoc String → HttpResult) → HttpResult
      unfolding put_header
      with_headers acc [] next = next acc
      with_headers acc ((key, value) ∷ rest) next =
          put_header key (filled_text value) acc (λ m. with_headers m rest next)

      with_body : String → String → Interpolated → HttpResult
      unfolding with_headers with_integration
      with_body display url (aborted m) = http_failed (body_secrets step.name m) 0
      with_body display url (texts body shown) = with_headers [] h.headers (λ headers.
          with_integration display body url headers (integration_name h.integration_ref))

      with_url : Interpolated → HttpResult
      unfolding with_body
      with_url (aborted m) = http_failed (url_secrets step.name m) 0
      with_url (texts url display) = with_body display url (filled_text h.body)

  http_action :
      HttpRuntime
      → FlowStep
      → StepResults
      → Option TriggerData
      → Params
      → Option HttpAction
      → HttpResult
  unfolding with_url
  http_action rt step results event params none = http_failed (no_http step.name) 0
  http_action rt step results event params (some h) =
      with_url rt step h results event params (filled_text rt step h results event params h.url)

  unfoldable pub execute_http_step :
      HttpRuntime → FlowStep → StepResults → Option TriggerData → Params → HttpResult
  unfolding http_action
  execute_http_step rt step results event params =
      http_action rt step results event params step.action.http
