-- ===== src/Step/Tests.antt =====
-- An HTTP step that is tried again, and a step of an unknown type.
use kubezap_operator.Base.{◌*◌, ◌^◌, arith, some, refl, ◌≡◌}
use kubezap_operator.Base.Int.{negsuc}
use kubezap_operator.Step.Retry.{policy_delay, doubled}
use kubezap_operator.Step.Retry.Laws.{IsCapped, policy_delay_lem}
use kubezap_operator.Api.Flow.{exponential}
use kubezap_operator.Base.{ℕ, zero, suc, ◌≡◌, refl, false, none, [], ◌∷◌}
use kubezap_operator.Base.Int.{pos}
use kubezap_operator.Api.Flow.{FlowStep, HttpAction}
use kubezap_operator.Api.FlowRun.{Message, empty, text}
use kubezap_operator.Template.Tests.{test_library}
use kubezap_operator.Template.Token.{secret_value}
use kubezap_operator.Run.Namespace.{step}
use kubezap_operator.Step.Http.{
  HttpRuntime, ExecuteRequest, CallResult, rpc_error, response, http_ok, integrated, attempt_loop,
}
use kubezap_operator.Step.Http.Attempts.{Ends, attempt_loop-Ends}
use kubezap_operator.Step.{StepRuntime, published}

-- The first call fails, the later ones answer 200.
abbrev flaky : ℕ → CallResult
flaky zero = rpc_error (text "busy")
flaky (suc n) = response (record { status_code = pos 200; body = "ok"; error = "" })

abbrev pub http_runtime : HttpRuntime
http_runtime = record {
  fetch_secret = λ name key. secret_value "root";
  apply_integration = λ name url headers results event params.
      integrated url headers (record { ca_bundle = ""; client_cert = ""; client_key = "" });
  check_ssrf = λ url. none;
  call_executor = λ attempt req. flaky attempt;
  ends_during = λ attempt delay. false;
  replace_all = λ s old new. s;
  truncate = λ s. s;
}

abbrev get : HttpAction
get = record {
  url = "http://example.com";
  method = "GET";
  headers = [];
  body = "";
  timeout_seconds = pos 0;
  result_mappings = [];
  integration_ref = none;
}

abbrev request : ExecuteRequest
request = record {
  method = "GET";
  url = "http://example.com";
  headers = [];
  body = "";
  timeout_seconds = pos 30;
  tls = record { ca_bundle = ""; client_cert = ""; client_key = "" };
}

abbrev call_step : FlowStep
call_step = step "call" []

second_attempt_succeeds :
    attempt_loop test_library http_runtime call_step get request "http://example.com" 3 0 empty
    ≡ http_ok (("body", "ok") ∷ ("status", "0") ∷ []) (Message.http_ok (pos 200)) 2
unfolding attempt_loop
second_attempt_succeeds = refl

attempt_loop-Ends_example :
    Ends test_library http_runtime call_step get request "http://example.com" 3
      (attempt_loop test_library http_runtime call_step get request "http://example.com" 3 0 empty)
attempt_loop-Ends_example =
    attempt_loop-Ends test_library http_runtime call_step get request "http://example.com" 3

abbrev pub step_runtime : StepRuntime
step_runtime = record {
  now = pos 100;
  lib = test_library;
  http = http_runtime;
  publish_step = λ run s results params. published [] 1;
}

-- The second retry after a second, and a third one that MaxDelay cuts to three seconds.
policy_delay_lem_example :
    IsCapped exponential
      (some (pos 3000000000))
      (pos (1000000000 * 2 ^ 2))
      (policy_delay exponential (pos 1000000000) (some (pos 3000000000)) 3)
policy_delay_lem_example =
    policy_delay_lem exponential 1000000000 (some (pos 3000000000)) 3 (omega arith)

-- The retry after 34 doublings of a second has a negative delay: the product has wrapped around.
delay_overflows :
    policy_delay exponential (pos 1000000000) (some (pos 3000000000)) 35
    ≡ negsuc 1266874889709551615
unfolding policy_delay doubled kubezap_operator.Base.Int.◌*ℤ◌
delay_overflows = refl
