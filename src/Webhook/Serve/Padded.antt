-- ===== src/Webhook/Serve/Padded.antt =====
-- The cooldown counts a request by its path as written, the route is found by the normalised one.
use kubezap_operator.Base.{
  ℕ, zero, suc, String, ◌≡◌, refl, ◌∙◌, true, false, none, some, List, arith, length, ltb, ◌||◌,
  leb,
}
use kubezap_operator.Base.Int.{ℤ, pos, ltb_ℤ}
use kubezap_operator.Base.Assoc.{lookup}
use kubezap_operator.Base.Text.{◌⧺◌}
use kubezap_operator.Base.Text.Trim.{trim_space-pad}
use kubezap_operator.Ssrf.Address.{IpNet}
use kubezap_operator.Cron.{CreateAnswer}
use kubezap_operator.Gateway.Cooldown.{Tracker, allow, admit, pruned}
use kubezap_operator.Webhook.{Library, Request, read_all}
use kubezap_operator.Webhook.Route.{RouteEntry, RouteRegistry, lookup_route, normalize_path}
use kubezap_operator.Webhook.Auth.{allowed}
use kubezap_operator.Webhook.Authenticate.{authenticate_request}
use kubezap_operator.Webhook.Serve.{WebhookHandler, serve_http, max_body}
use kubezap_operator.Webhook.Serve.Laws.{run_of, serve_http-sends_iff}

abbrev pub padded : Request → Request
padded r = record r { path = r.path ⧺ " " }

lookup_route-pad :
    (path : String) (registry : RouteRegistry)
    → lookup_route (path ⧺ " ") registry ≡ lookup_route path registry
unfolding lookup_route normalize_path
lookup_route-pad path registry = rw (trim_space-pad path) refl

above_zero : (n : ℕ) → leb (suc n) 0 ≡ false
above_zero n = ground arith

allow-fresh :
    (now : ℤ) (path : String) (max : ℕ) (window : ℤ) (tracker : Tracker)
    → lookup path tracker ≡ none
    → (allow now path max window tracker).0 ≡ true
unfolding allow admit pruned
allow-fresh now path zero window tracker h = refl
allow-fresh now path (suc n) window tracker h = rw h (rw (above_zero n) refl)

authenticate_request-pad :
    {Keyset : Type 0} (lib : Library Keyset) (r : Request) (body : List ℕ) (entry : RouteEntry)
    (proxies : List IpNet)
    → authenticate_request lib (padded r) body entry proxies
      ≡ authenticate_request lib r body entry proxies
unfolding authenticate_request
authenticate_request-pad lib r body entry proxies = refl

-- A request that would be served but for the cooldown is served with a space behind its path, however
-- many were before it, if none came yet with that path as written: the same route is found, and its
-- FlowRun is sent.
pub padded_path_served :
    {Keyset : Type 0} (lib : Library Keyset) (h : WebhookHandler) (answer : CreateAnswer)
    (r : Request) (entry : RouteEntry) (body : List ℕ)
    → lookup_route r.path h.registry ≡ some entry
    → lib.to_upper r.method ≡ entry.allowed_method
    → read_all (suc max_body) r.body ≡ some body
    → (ltb max_body (length body) || ltb_ℤ (pos max_body) r.content_length) ≡ false
    → authenticate_request lib r body entry h.trusted_proxies ≡ allowed
    → lookup (r.path ⧺ " ") h.cooldown ≡ none
    → (serve_http lib h answer (padded r)).sent ≡ some (run_of lib h answer (padded r) entry body)
padded_path_served lib h answer r entry body route method read small authentic fresh =
    (serve_http-sends_iff lib h answer (padded r) (run_of lib h answer (padded r) entry body)).1 (
      entry,
      body,
      record {
        has_route = lookup_route-pad r.path h.registry ∙ route;
        has_method = method;
        has_body = read;
        is_admitted = record {
          is_small = small;
          is_authentic = authenticate_request-pad lib r body entry h.trusted_proxies ∙ authentic;
          is_in_budget =
              allow-fresh (pos r.now) (r.path ⧺ " ") entry.max_invocations entry.cooldown_window
                h.cooldown fresh;
        };
      },
      refl,
    )
