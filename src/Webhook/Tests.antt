-- ===== src/Webhook/Tests.antt =====
-- A route with a bearer token and a limit of one request a minute, behind one trusted proxy.
use kubezap_operator.Base.{
  ℕ, suc, ◌+◌, ◌*◌, ◌^◌, String, ◌≡◌, ◌↔◌, refl, ◌||◌, true, false, Option, none, some, List, [],
  ◌∷◌, ◌==◌, if◌then◌else◌, inl, inr, length, ltb, arith,
}
use kubezap_operator.Base.Int.{ℤ, pos, ltb_ℤ}
use kubezap_operator.Base.Assoc.{Assoc, lookup}
use kubezap_operator.Base.Text.{◌⧺◌}
use kubezap_operator.Gateway.Cooldown.Laws.{Bounded}
use kubezap_operator.Webhook.Serve.Rate.{sent_times, serve_http-Bounded}
use kubezap_operator.Cron.{CreateAnswer, created}
use kubezap_operator.Ssrf.Address.{Ip, v4, cidr4}
use kubezap_operator.Webhook.{Library, Request, Body, get_header, read_all}
use kubezap_operator.Webhook.Route.{
  RouteEntry, RouteRegistry, new_route_registry, register, deregister, lookup_route, normalize_path,
  redacted_for_log, mark_synced,
}
use kubezap_operator.Webhook.Redact.{both_empty, alike, to_redact, built_in_headers, headers}
use kubezap_operator.Ssrf.{cidr_list, invalid_cidr}
use kubezap_operator.Webhook.ClientIp.{parse_trusted_proxy_cidrs, client_ip, walk_forwarded}
use kubezap_operator.Webhook.ClientIp.Laws.{client_ip-prepend}
use kubezap_operator.Webhook.Authenticate.{authenticate_request}
use kubezap_operator.Webhook.Reason.{Explained, authenticate_request-Explained}
use kubezap_operator.Webhook.Serve.{
  WebhookHandler, NewFlowRun, StoredData, serve_http, new_flow_run, max_body,
}
use kubezap_operator.Webhook.Serve.Laws.{Permitted, run_of, serve_http-sends_iff}
use kubezap_operator.Webhook.Serve.Redacted.{new_flow_run-AlikeInClear}
use kubezap_operator.Webhook.Serve.Padded.{padded, padded_path_served}

abbrev client : Ip
client = v4 (203 * 2 ^ 24 + 7)

abbrev proxy : Ip
proxy = v4 (10 * 2 ^ 24 + 1)

abbrev lib : Library String
lib = record {
  to_upper = λ s. s;
  to_lower = λ s. if s == "Authorization" then "authorization" else s;
  canonical = λ s. s;
  bytes_of = λ s. [];
  text_of = λ b. "text";
  is_utf8 = λ b. true;
  base64 = λ b. "base64";
  hmac_sha256 = λ secret b. secret;
  parse_int = λ s. if s == "100" then some (pos 100) else none;
  decimal = λ i. "100";
  parse_basic_auth = λ s. none;
  split_host = λ s. if s == "10.0.0.1:80" then some "10.0.0.1" else none;
  parse_ip = λ s. if s == "10.0.0.1" then some proxy else some client;
  parse_cidr = λ s. none;
  cached_keys = λ url. none;
  refreshed_keys = λ url. none;
  keys_error = λ url. "no keys";
  jwt_error = λ keys issuer audience token. none;
}

abbrev entry : RouteEntry
entry = record {
  trigger_name = "push";
  trigger_namespace = "prod";
  flow_ref = "build";
  flow_namespace = "prod";
  allowed_method = "POST";
  auth_type = "bearer";
  hmac_secret = "";
  hmac_provider = "";
  hmac_timestamp_tolerance_sec = pos 0;
  bearer_token = "s3";
  basic_username = "";
  basic_password = "";
  api_key = "";
  api_key_header = "";
  ip_allowlist = [];
  header_equals_header = "";
  header_equals_value = "";
  oidc_validator = none;
  max_invocations = 1;
  cooldown_window = pos 60000000000;
  redact_headers = [];
  redact_body = true;
}

abbrev with_token : String → Assoc (List String)
with_token token = ("Authorization", token ∷ []) ∷ ("X-Id", "a" ∷ "b" ∷ []) ∷ []

abbrev request : String → String → Request
request path token = record {
  method = "POST";
  path = path;
  headers = with_token token;
  remote_addr = "10.0.0.1:80";
  content_length = pos 2;
  body = record { bytes = 1 ∷ 2 ∷ []; has_error = false };
  now = 100000000000;
  random_hex = "00000000";
  propagated = λ parent state. record { traceparent = parent; tracestate = state };
}

abbrev handler : WebhookHandler
handler = record {
  registry = register (λ s. s) "/push" entry new_route_registry;
  cooldown = ("/hooks/push", pos 99000000000 ∷ []) ∷ [];
  trusted_proxies = cidr4 10 0 0 0 8 ∷ [];
  max_stored_body_bytes = 0;
}

normalizes : normalize_path " push" ≡ "/hooks/push"
unfolding normalize_path kubezap_operator.Webhook.Route.prefixed
normalizes = refl

second_request_is_limited :
    (serve_http lib handler created (request "/hooks/push" "Bearer s3")).status ≡ 429
unfolding serve_http kubezap_operator.Webhook.Serve.after_lookup lookup register
    kubezap_operator.Base.Assoc.insert kubezap_operator.Webhook.Route.prefixed
    kubezap_operator.Webhook.Serve.after_read kubezap_operator.Webhook.Serve.after_auth
    kubezap_operator.Webhook.Serve.after_cooldown kubezap_operator.Base.Int.◌-ℤ◌
second_request_is_limited = refl

wrong_token : (serve_http lib handler created (request "/hooks/push" "Bearer s4")).status ≡ 401
unfolding serve_http kubezap_operator.Webhook.Serve.after_lookup lookup register
    kubezap_operator.Base.Assoc.insert kubezap_operator.Webhook.Route.prefixed
    kubezap_operator.Webhook.Serve.after_read kubezap_operator.Webhook.Serve.after_auth
wrong_token = refl

no_route : (serve_http lib handler created (request "/hooks/pull" "Bearer s3")).status ≡ 404
unfolding serve_http kubezap_operator.Webhook.Serve.after_lookup lookup register
    kubezap_operator.Base.Assoc.insert kubezap_operator.Webhook.Route.prefixed
no_route = refl

stored_headers :
    headers lib.to_lower [] (with_token "Bearer s3")
    ≡ ("Authorization", "[REDACTED]") ∷ ("X-Id", "a,b") ∷ []
unfolding headers
stored_headers = refl

gone : lookup_route "/push" (deregister "push" handler.registry) ≡ none
unfolding lookup_route lookup deregister kubezap_operator.Base.Assoc.delete register
    kubezap_operator.Base.Assoc.insert kubezap_operator.Webhook.Route.prefixed
gone = refl

forwarded : client_ip lib handler.trusted_proxies "10.0.0.1" "1.1.1.1,203.0.0.7" "" ≡ "203.0.0.7"
unfolding client_ip
forwarded = refl

no_proxies : parse_trusted_proxy_cidrs lib " " ≡ cidr_list []
unfolding parse_trusted_proxy_cidrs
no_proxies = refl

bad_range : parse_trusted_proxy_cidrs lib "10.0.0.0/8, ," ≡ invalid_cidr "10.0.0.0/8"
unfolding parse_trusted_proxy_cidrs
bad_range = refl

client_ip-prepend_example :
    client_ip lib handler.trusted_proxies "10.0.0.1" ("1.1.1.1" ⧺ "," ⧺ "203.0.0.7") "2.2.2.2"
    ≡ client_ip lib handler.trusted_proxies "10.0.0.1" "203.0.0.7" ""
unfolding walk_forwarded
client_ip-prepend_example =
    client_ip-prepend lib handler.trusted_proxies "10.0.0.1" "1.1.1.1" "203.0.0.7" "" "2.2.2.2"
      "203.0.0.7" (inr refl)

authenticate_request-Explained_example :
    Explained "bearer" (
      authenticate_request lib (request "/hooks/push" "Bearer s4") [] entry handler.trusted_proxies)
authenticate_request-Explained_example =
    authenticate_request-Explained lib (request "/hooks/push" "Bearer s4") [] entry
      handler.trusted_proxies

serve_http-sends_iff_example :
    ((serve_http lib handler created (request "/push" "Bearer s3")).sent
      ≡ some (run_of lib handler created (request "/push" "Bearer s3") entry (1 ∷ 2 ∷ [])))
    ↔ ((e : RouteEntry) × (body : List ℕ) × Permitted lib handler created
          (request "/push" "Bearer s3")
          e
          body
        × (run_of lib handler created (request "/push" "Bearer s3") entry (1 ∷ 2 ∷ [])
            ≡ run_of lib handler created (request "/push" "Bearer s3") e body))
serve_http-sends_iff_example =
    serve_http-sends_iff lib handler created (request "/push" "Bearer s3")
      (run_of lib handler created (request "/push" "Bearer s3") entry (1 ∷ 2 ∷ []))

new_flow_run-AlikeInClear_example :
    new_flow_run lib 10 (request "/push" "Bearer s3") entry (1 ∷ 2 ∷ [])
    ≡ new_flow_run lib 10 (request "/push" "Bearer s4") entry (3 ∷ 4 ∷ [])
unfolding get_header lookup to_redact built_in_headers
new_flow_run-AlikeInClear_example =
    new_flow_run-AlikeInClear lib 10 (request "/push" "Bearer s3") entry (with_token "Bearer s4")
      (1 ∷ 2 ∷ []) (3 ∷ 4 ∷ [])
      (alike "Authorization" ("Bearer s3" ∷ []) ("Bearer s4" ∷ [])
        (inl (record { listed = "Authorization"; is_listed = refl; same_letters = refl }))
        (alike "X-Id" ("a" ∷ "b" ∷ []) ("a" ∷ "b" ∷ []) (inr refl) both_empty))
      refl refl refl refl (λ e. ground arith)

padded_path_served_example :
    (serve_http lib handler created (padded (request "/hooks/push" "Bearer s3"))).sent
    ≡ some
        (run_of lib handler created (padded (request "/hooks/push" "Bearer s3")) entry (1 ∷ 2 ∷ []))
unfolding lookup_route lookup register kubezap_operator.Base.Assoc.insert read_all
    authenticate_request kubezap_operator.Webhook.Route.prefixed
padded_path_served_example =
    padded_path_served lib handler created (request "/hooks/push" "Bearer s3") entry (1 ∷ 2 ∷ [])
      refl refl refl refl refl refl

abbrev two_requests : List (CreateAnswer × Request)
two_requests = (created, request "/push" "Bearer s3") ∷ (created, request "/push" "Bearer s3") ∷ []

serve_http-Bounded_example :
    Bounded 1 (pos 60000000000) [] (sent_times lib handler two_requests handler.cooldown)
unfolding lookup_route lookup register kubezap_operator.Base.Assoc.insert
    kubezap_operator.Webhook.Route.prefixed
serve_http-Bounded_example =
    serve_http-Bounded lib handler entry "/push" 0 (pos 0) two_requests refl refl refl
      (omega arith, (omega arith, tt)) (refl, (refl, tt))
