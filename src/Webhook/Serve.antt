-- ===== src/Webhook/Serve.antt =====
-- internal/gateway/webhook/handler.go: ServeHTTP. Metrics, traces and logs are left out, as is the
-- body of an error's answer but for its text.
pub mod Laws
pub mod Redacted
pub mod Padded
pub mod Rate
use kubezap_operator.Base.{
  ℕ, suc, ◌+◌, ◌*◌, ◌/◌, String, Bool, true, false, ◌&&◌, ◌||◌, not, Option, none, some, List, [],
  ◌∷◌, ◌++◌, ◌==◌, ltb, length, take, if◌then◌else◌,
}
use kubezap_operator.Base.Int.{ℤ, pos, ltb_ℤ}
use kubezap_operator.Base.Assoc.{Assoc}
use kubezap_operator.Base.Text.{◌⧺◌}
use kubezap_operator.Cron.{CreateAnswer, created, exists, failed, second}
use kubezap_operator.Gateway.Cooldown.{Tracker, allow}
use kubezap_operator.Ssrf.Address.{IpNet}
use kubezap_operator.Webhook.{Library, Request, TraceContext, get_header, read_all}
use kubezap_operator.Webhook.Route.{RouteEntry, RouteRegistry, lookup_route}
use kubezap_operator.Webhook.Redact
use kubezap_operator.Webhook.Auth.{Verdict, allowed, denied, panicked}
use kubezap_operator.Webhook.Authenticate.{authenticate_request}

abbrev pub max_body : ℕ
max_body = 4 * 1048576

abbrev pub default_max_stored_body_bytes : ℕ
default_max_stored_body_bytes = 65536

-- NewWebhookHandler: a cap of 0 or less, here 0, is the default.
abbrev pub stored_cap : ℕ → ℕ
stored_cap ℕ.zero = default_max_stored_body_bytes
stored_cap (suc n) = suc n

pub record WebhookHandler : Type 0 where
  pub registry : RouteRegistry
  pub cooldown : Tracker
  pub trusted_proxies : List IpNet
  pub max_stored_body_bytes : ℕ

pub record StoredData : Type 0 where
  pub source : String
  pub method : String
  pub path : String
  pub headers : Assoc String
  pub body : String
  pub body_truncated : Bool
  pub body_encoding : String
  pub content_type : String

-- The FlowRun that is sent to the API server.
pub record NewFlowRun : Type 0 where
  pub name : String
  pub namespace : String
  pub annotations : Assoc String
  pub labels : Assoc String
  pub flow_ref : String
  pub trigger_name : String
  pub trigger_type : String
  pub trigger_data : StoredData

-- `sent` is the FlowRun of the call of Create, if there is one. The message is an error's, or the
-- FlowRun's name.
pub record Served : Type 0 where
  pub status : ℕ
  pub message : String
  pub sent : Option NewFlowRun
  pub cooldown : Tracker

abbrev pub error_answer : ℕ → String → Tracker → Served
error_answer status message tracker = record {
  status = status;
  message = message;
  sent = none;
  cooldown = tracker;
}

abbrev annotation : String → String → Assoc String
annotation key value = if value == "" then [] else (key, value) ∷ []

unfoldable pub trace_annotations : TraceContext → Assoc String
trace_annotations t =
    annotation "kubezap.io/traceparent" t.traceparent
    ++ annotation "kubezap.io/tracestate" t.tracestate

module _ {Keyset : Type 0} (lib : Library Keyset) where
  -- The text of the bytes that are kept, and its encoding.
  abbrev pub encode : List ℕ → String × String
  encode stored =
      if lib.is_utf8 stored then (lib.text_of stored, "utf8") else (lib.base64 stored, "base64")

  unfoldable pub stored_data : ℕ → Request → RouteEntry → List ℕ → StoredData
  unfolding Redact.headers Redact.body get_header
  stored_data cap r entry body =
      let stored = if ltb cap (length body) then take cap body else body in
      let (text, encoding) = encode stored in
      record {
        source = "webhook";
        method = r.method;
        path = r.path;
        headers = Redact.headers lib.to_lower entry.redact_headers r.headers;
        body = Redact.body text entry.redact_body;
        body_truncated = ltb cap (length body);
        body_encoding = if entry.redact_body then "utf8" else encoding;
        content_type = get_header lib r.headers "Content-Type";
      }

  -- The span of the request, whose parent its headers name.
  abbrev pub span_of : Request → TraceContext
  span_of r =
      r.propagated (get_header lib r.headers "traceparent") (get_header lib r.headers "tracestate")

  unfoldable pub new_flow_run : ℕ → Request → RouteEntry → List ℕ → NewFlowRun
  unfolding stored_data
  new_flow_run cap r entry body = record {
    name = entry.trigger_name ⧺ "-" ⧺ lib.decimal (pos (r.now / second)) ⧺ "-" ⧺ r.random_hex;
    namespace = entry.trigger_namespace;
    annotations = trace_annotations (span_of r);
    labels =
        ("kubezap.io/trigger", entry.trigger_name)
        ∷ ("kubezap.io/trigger-type", "webhook")
        ∷ ("kubezap.io/flow", entry.flow_ref)
        ∷ [];
    flow_ref = entry.flow_ref;
    trigger_name = entry.trigger_name;
    trigger_type = "webhook";
    trigger_data = stored_data cap r entry body;
  }

  abbrev pub after_create : CreateAnswer → NewFlowRun → Tracker → Served
  after_create created run tracker = record {
    status = 202;
    message = run.name;
    sent = some run;
    cooldown = tracker;
  }
  after_create exists run tracker = record {
    status = 202;
    message = run.name;
    sent = some run;
    cooldown = tracker;
  }
  after_create failed run tracker = record {
    status = 500;
    message = "unable to create FlowRun";
    sent = some run;
    cooldown = tracker;
  }

  unfoldable pub after_cooldown :
      WebhookHandler → CreateAnswer → Request → RouteEntry → List ℕ → Bool × Tracker → Served
  unfolding new_flow_run
  after_cooldown h answer r entry body (false, tracker) =
      error_answer 429 "cooldown window exceeded" tracker
  after_cooldown h answer r entry body (true, tracker) =
      after_create answer (new_flow_run (stored_cap h.max_stored_body_bytes) r entry body) tracker

  unfoldable pub after_auth :
      WebhookHandler → CreateAnswer → Request → RouteEntry → List ℕ → Verdict → Served
  unfolding allow
  after_auth h answer r entry body (denied status message) = error_answer status message h.cooldown
  after_auth h answer r entry body panicked = error_answer 500 "internal server error" h.cooldown
  after_auth h answer r entry body allowed =
      after_cooldown h answer r entry body
        (allow (pos r.now) r.path entry.max_invocations entry.cooldown_window h.cooldown)

  unfoldable pub after_read :
      WebhookHandler → CreateAnswer → Request → RouteEntry → Option (List ℕ) → Served
  unfolding authenticate_request
  after_read h answer r entry none = error_answer 500 "unable to read request body" h.cooldown
  after_read h answer r entry (some bytes) =
      let done =
        after_auth h answer r entry bytes
          (authenticate_request lib r bytes entry h.trusted_proxies) in
      if ltb max_body (length bytes) || ltb_ℤ (pos max_body) r.content_length
      then error_answer 413 "request body exceeds maximum allowed size" h.cooldown
      else done

  unfoldable pub after_lookup : WebhookHandler → CreateAnswer → Request → Option RouteEntry → Served
  unfolding read_all
  after_lookup h answer r none = error_answer 404 "no trigger registered for this path" h.cooldown
  after_lookup h answer r (some entry) =
      if lib.to_upper r.method == entry.allowed_method
      then after_read h answer r entry (read_all (suc max_body) r.body)
      else error_answer 405 "method not allowed" h.cooldown

  -- `answer` is that of the API server to the call of Create, if there is one.
  unfoldable pub serve_http : WebhookHandler → CreateAnswer → Request → Served
  unfolding lookup_route
  serve_http h answer r = after_lookup h answer r (lookup_route r.path h.registry)
