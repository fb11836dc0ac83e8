-- ===== src/Webhook/Serve/Laws.antt =====
-- Which requests a FlowRun is created for, and which it is.
use kubezap_operator.Base.{
  ℕ, suc, ◌≡◌, ◌↔◌, refl, Bool, true, false, Option, none, some, List, arith, ◌==◌, eq_iff, eq_refl,
  ◌||◌, if◌then◌else◌, ltb, length,
}
use kubezap_operator.Base.Int.{pos, ltb_ℤ}
use kubezap_operator.Cron.{CreateAnswer, created, exists, failed}
use kubezap_operator.Gateway.Cooldown.{Tracker, allow}
use kubezap_operator.Webhook.{Library, Request, read_all}
use kubezap_operator.Webhook.Route.{RouteEntry, lookup_route}
use kubezap_operator.Webhook.Auth.{Verdict, allowed, denied, panicked}
use kubezap_operator.Webhook.Authenticate.{authenticate_request}
use kubezap_operator.Webhook.Serve.{
  Served, error_answer, WebhookHandler, NewFlowRun, serve_http, new_flow_run, stored_cap, max_body,
  after_create, after_cooldown, after_auth, after_read, after_lookup,
}

-- Where only one branch of a test can send a FlowRun.
else_sent :
    (b : Bool) (other goal : Served) {run : NewFlowRun}
    → other.sent ≡ none
    → (if b then other else goal).sent ≡ some run
    → (b ≡ false) × (goal.sent ≡ some run)
else_sent true other goal e s = ground arith
else_sent false other goal e s = (refl, s)

then_sent :
    (b : Bool) (goal other : Served) {run : NewFlowRun}
    → other.sent ≡ none
    → (if b then goal else other).sent ≡ some run
    → (b ≡ true) × (goal.sent ≡ some run)
then_sent true goal other e s = (refl, s)
then_sent false goal other e s = ground arith

module _ {Keyset : Type 0} (lib : Library Keyset) (h : WebhookHandler) (answer : CreateAnswer)
    (r : Request) where
  -- The last guard of the request, and the FlowRun that it then sends.
  pub record Admitted (entry : RouteEntry) (body : List ℕ) : Type 0 where
    pub is_small : (ltb max_body (length body) || ltb_ℤ (pos max_body) r.content_length) ≡ false
    pub is_authentic : authenticate_request lib r body entry h.trusted_proxies ≡ allowed
    pub is_in_budget :
        (allow (pos r.now) r.path entry.max_invocations entry.cooldown_window h.cooldown).0 ≡ true

  pub record Permitted (entry : RouteEntry) (body : List ℕ) : Type 0 where
    pub has_route : lookup_route r.path h.registry ≡ some entry
    pub has_method : lib.to_upper r.method ≡ entry.allowed_method
    pub has_body : read_all (suc max_body) r.body ≡ some body
    pub is_admitted : Admitted entry body

  abbrev pub run_of : RouteEntry → List ℕ → NewFlowRun
  run_of entry body = new_flow_run lib (stored_cap h.max_stored_body_bytes) r entry body

  create_sends :
      (a : CreateAnswer) (run : NewFlowRun) (tracker : Tracker)
      → (after_create lib a run tracker).sent ≡ some run
  create_sends created run tracker = refl
  create_sends exists run tracker = refl
  create_sends failed run tracker = refl

  module _ (entry : RouteEntry) (body : List ℕ) where
    cooldown_sends :
        (p : Bool × Tracker)
        → p.0 ≡ true
        → (after_cooldown lib h answer r entry body p).sent ≡ some (run_of entry body)
    unfolding after_cooldown
    cooldown_sends (true, tracker) e = create_sends answer (run_of entry body) tracker
    cooldown_sends (false, tracker) e = ground arith

    cooldown_sent :
        (p : Bool × Tracker) {run : NewFlowRun}
        → (after_cooldown lib h answer r entry body p).sent ≡ some run
        → (p.0 ≡ true) × (run ≡ run_of entry body)
    unfolding after_cooldown
    cooldown_sent (true, tracker) s =
        (refl, ground (arith, create_sends answer (run_of entry body) tracker))
    cooldown_sent (false, tracker) s = ground arith

    auth_sends :
        authenticate_request lib r body entry h.trusted_proxies ≡ allowed
        → (allow (pos r.now) r.path entry.max_invocations entry.cooldown_window h.cooldown).0 ≡ true
        → (after_auth lib h answer r entry body
            (authenticate_request lib r body entry h.trusted_proxies)).sent
          ≡ some (run_of entry body)
    unfolding after_auth
    auth_sends e b = rw e (
        cooldown_sends
          (allow (pos r.now) r.path entry.max_invocations entry.cooldown_window h.cooldown) b)

    auth_sent :
        (v : Verdict) {run : NewFlowRun}
        → (after_auth lib h answer r entry body v).sent ≡ some run
        → (v ≡ allowed)
          × ((allow (pos r.now) r.path entry.max_invocations entry.cooldown_window h.cooldown).0
              ≡ true)
          × (run ≡ run_of entry body)
    unfolding after_auth
    auth_sent allowed s =
        let (budget, same_run) =
          cooldown_sent
            (allow (pos r.now) r.path entry.max_invocations entry.cooldown_window h.cooldown) s in
        (refl, budget, same_run)
    auth_sent (denied status message) s = ground arith
    auth_sent panicked s = ground arith

    read_sends :
        Admitted entry body
        → (after_read lib h answer r entry (some body)).sent ≡ some (run_of entry body)
    unfolding after_read
    read_sends a = rw a.is_small (auth_sends a.is_authentic a.is_in_budget)

    read_sent :
        {run : NewFlowRun}
        → (after_read lib h answer r entry (some body)).sent ≡ some run
        → Admitted entry body × (run ≡ run_of entry body)
    unfolding after_read
    read_sent s =
        let (small, later) =
          else_sent (ltb max_body (length body) || ltb_ℤ (pos max_body) r.content_length)
            (error_answer 413 "request body exceeds maximum allowed size" h.cooldown)
            (after_auth lib h answer r entry body
              (authenticate_request lib r body entry h.trusted_proxies))
            refl s in
        let (authentic, budget, same_run) =
          auth_sent (authenticate_request lib r body entry h.trusted_proxies) later in
        (record { is_small = small; is_authentic = authentic; is_in_budget = budget }, same_run)

  module _ (entry : RouteEntry) where
    lookup_sends :
        (body : List ℕ)
        → Permitted entry body
        → (after_lookup lib h answer r (some entry)).sent ≡ some (run_of entry body)
    unfolding after_lookup
    lookup_sends body p =
        rw p.has_method
          (rw (eq_refl entry.allowed_method) (rw p.has_body (read_sends entry body p.is_admitted)))

    body_sent :
        (o : Option (List ℕ)) {run : NewFlowRun}
        → (after_read lib h answer r entry o).sent ≡ some run
        → (body : List ℕ) × (o ≡ some body) × Admitted entry body × (run ≡ run_of entry body)
    unfolding after_read
    body_sent none s = ground arith
    body_sent (some body) s =
        let (admitted, same_run) = read_sent entry body s in (body, refl, admitted, same_run)

  route_sent :
      (o : Option RouteEntry) {run : NewFlowRun}
      → (after_lookup lib h answer r o).sent ≡ some run
      → lookup_route r.path h.registry ≡ o
      → (entry : RouteEntry) × (body : List ℕ) × Permitted entry body × (run ≡ run_of entry body)
  unfolding after_lookup
  route_sent none s e = ground arith
  route_sent (some entry) s e =
      let (method, later) =
        then_sent (lib.to_upper r.method == entry.allowed_method)
          (after_read lib h answer r entry (read_all (suc max_body) r.body))
          (error_answer 405 "method not allowed" h.cooldown) refl s in
      let (body, read, admitted, same_run) =
        body_sent entry (read_all (suc max_body) r.body) later in
      (
        entry,
        body,
        record {
          has_route = e;
          has_method = (eq_iff (lib.to_upper r.method) entry.allowed_method).0 method;
          has_body = read;
          is_admitted = admitted;
        },
        same_run,
      )

-- A FlowRun is sent to the API server exactly for a request whose path has a route, with the
-- method, a body within the limit, an authentication that passes, and a place in the cooldown window
-- of its path; and it is the one FlowRun of that route, request and body.
pub serve_http-sends_iff :
    {Keyset : Type 0} (lib : Library Keyset) (h : WebhookHandler) (answer : CreateAnswer)
    (r : Request) (run : NewFlowRun)
    → ((serve_http lib h answer r).sent ≡ some run) ↔ (
        (entry : RouteEntry) × (body : List ℕ) × Permitted lib h answer r entry body
        × (run ≡ run_of lib h answer r entry body))
unfolding serve_http
serve_http-sends_iff lib h answer r run = (
  (λ s. route_sent lib h answer r (lookup_route r.path h.registry) s refl),
  (λ (entry, body, p, same_run).
      rw p.has_route (rw same_run (lookup_sends lib h answer r entry body p))),
)
