-- ===== src/Webhook/Serve/Rate.antt =====
-- No more FlowRuns are sent for a path within a window than its route allows.
use kubezap_operator.Base.{
  subst, sym, ℕ, suc, String, ◌≡◌, refl, ap, ◌∙◌, Bool, true, false, ◌==◌, Option, none, some, List,
  [], ◌∷◌, arith, ◌||◌, ltb, length, Bool-cases, ◌⊎◌, inl, inr, All,
}
use kubezap_operator.Base.Int.{ℤ, pos, ltb_ℤ, ◌≤ℤ◌}
use kubezap_operator.Base.Assoc.{lookup}
use kubezap_operator.Cron.{CreateAnswer, created, exists, failed}
use kubezap_operator.Gateway.Cooldown.{Tracker, allow, remember, admissions}
use kubezap_operator.Gateway.Cooldown.Laws.{Ordered, Bounded, admissions-Bounded}
use kubezap_operator.Webhook.{Library, Request, read_all}
use kubezap_operator.Webhook.Route.{RouteEntry, lookup_route}
use kubezap_operator.Webhook.Auth.{Verdict, allowed, denied, panicked}
use kubezap_operator.Webhook.Authenticate.{authenticate_request}
use kubezap_operator.Webhook.Serve.{
  WebhookHandler, NewFlowRun, Served, serve_http, max_body, new_flow_run, stored_cap, after_create,
  after_cooldown, after_auth, after_read, after_lookup,
}

abbrev pub is_sent : Option NewFlowRun → Bool
is_sent none = false
is_sent (some run) = true

module _ {Keyset : Type 0} (lib : Library Keyset) (h : WebhookHandler) where
  abbrev pub with_tracker : Tracker → WebhookHandler
  with_tracker tracker = record h { cooldown = tracker }

  -- The times of the requests that a FlowRun is sent for, one request after the other.
  unfoldable pub sent_times : List (CreateAnswer × Request) → Tracker → List ℤ
  unfolding serve_http
  sent_times [] tracker = []
  sent_times ((answer, r) ∷ rest) tracker =
      let served = serve_http lib (with_tracker tracker) answer r in
      remember (pos r.now) (is_sent served.sent) (sent_times rest served.cooldown)

  module _ (entry : RouteEntry) (answer : CreateAnswer) (r : Request) (tracker : Tracker) where
    charge : Bool × Tracker
    charge = allow (pos r.now) r.path entry.max_invocations entry.cooldown_window tracker

    -- A request that ends before the cooldown leaves it as it was; else it asks once for its path.
    Charged : Served → Type 0
    Charged s =
        ((is_sent s.sent ≡ false) × (s.cooldown ≡ tracker))
        ⊎ ((is_sent s.sent ≡ charge.0) × (s.cooldown ≡ charge.1))

    create-Sent :
        (a : CreateAnswer) (run : NewFlowRun) (t : Tracker)
        → (is_sent (after_create lib a run t).sent ≡ true)
          × ((after_create lib a run t).cooldown ≡ t)
    create-Sent created run t = (refl, refl)
    create-Sent exists run t = (refl, refl)
    create-Sent failed run t = (refl, refl)

    cooldown-Charged :
        (body : List ℕ) (p : Bool × Tracker)
        → (is_sent (after_cooldown lib (with_tracker tracker) answer r entry body p).sent ≡ p.0)
          × ((after_cooldown lib (with_tracker tracker) answer r entry body p).cooldown ≡ p.1)
    unfolding after_cooldown
    cooldown-Charged body (true, t) =
        create-Sent answer (new_flow_run lib (stored_cap h.max_stored_body_bytes) r entry body) t
    cooldown-Charged body (false, t) = (refl, refl)

    auth-Charged :
        (body : List ℕ) (v : Verdict)
        → Charged (after_auth lib (with_tracker tracker) answer r entry body v)
    unfolding after_auth Charged charge
    auth-Charged body allowed = inr (
        cooldown-Charged body
          (allow (pos r.now) r.path entry.max_invocations entry.cooldown_window tracker))
    auth-Charged body (denied status message) = inl (refl, refl)
    auth-Charged body panicked = inl (refl, refl)

    read-Charged :
        (o : Option (List ℕ)) → Charged (after_read lib (with_tracker tracker) answer r entry o)
    unfolding after_read Charged charge
    read-Charged none = inl (refl, refl)
    read-Charged (some body) =
        elim (Bool-cases (ltb max_body (length body) || ltb_ℤ (pos max_body) r.content_length)) [
          | inl e ↦ rw e (inl (refl, refl))
          | inr e ↦
              rw e (auth-Charged body (authenticate_request lib r body entry h.trusted_proxies))
        ]

    lookup-Charged : Charged (after_lookup lib (with_tracker tracker) answer r (some entry))
    unfolding after_lookup Charged charge
    lookup-Charged = elim (Bool-cases (lib.to_upper r.method == entry.allowed_method)) [
      | inl e ↦ rw e (read-Charged (read_all (suc max_body) r.body))
      | inr e ↦ rw e (inl (refl, refl))
    ]

    serve-Charged :
        lookup_route r.path h.registry ≡ some entry
        → Charged (serve_http lib (with_tracker tracker) answer r)
    unfolding serve_http
    serve-Charged e = rw e lookup-Charged

  abbrev pub times : List (CreateAnswer × Request) → List ℤ
  times [] = []
  times ((answer, r) ∷ rest) = pos r.now ∷ times rest

  Ordered-earlier : (a b : ℤ) (ts : List ℤ) → a ≤ℤ b → Ordered b ts → Ordered a ts
  Ordered-earlier a b [] le o = tt
  Ordered-earlier a b (t ∷ rest) le (first, o) = (omega arith, o)

  module _ (entry : RouteEntry) (path : String) where
    -- What is sent is what the cooldown admits, of the requests that come as far.
    Admitted : ℤ → List (CreateAnswer × Request) → Tracker → Type 0
    Admitted start requests tracker =
        (ts : List ℤ) × Ordered start ts
        × (sent_times requests tracker
            ≡ admissions entry.max_invocations entry.cooldown_window tracker path ts)

    step-Admitted :
        (start : ℤ) (answer : CreateAnswer) (r : Request) (rest : List (CreateAnswer × Request))
        (tracker : Tracker)
        → start ≤ℤ pos r.now
        → r.path ≡ path
        → Charged entry answer r tracker (serve_http lib (with_tracker tracker) answer r)
        → ((t : Tracker) → Admitted (pos r.now) rest t)
        → Admitted start ((answer, r) ∷ rest) tracker
    unfolding sent_times admissions Charged charge Admitted
    step-Admitted start answer r rest tracker le p (inl (unsent, same)) later =
        let (ts, o, e) = later tracker in
        (ts, Ordered-earlier start (pos r.now) ts le o, rw unsent (rw same e))
    step-Admitted start answer r rest tracker le p (inr (sent, next)) later =
        let (ts, o, e) =
          later (allow (pos r.now) path entry.max_invocations entry.cooldown_window tracker).1 in
        (
          pos r.now ∷ ts,
          (le, o),
          rw sent (
              rw next (
                rw p (
                  ap
                    (remember (pos r.now)
                      (allow (pos r.now) path entry.max_invocations entry.cooldown_window
                        tracker).0)
                    e))),
        )

    sent-Admitted :
        (start : ℤ) (requests : List (CreateAnswer × Request)) (tracker : Tracker)
        → lookup_route path h.registry ≡ some entry
        → Ordered start (times requests)
        → All (λ q. q.1.path ≡ path) requests
        → Admitted start requests tracker
    unfolding Admitted admissions sent_times
    sent-Admitted start [] tracker e o a = ([], tt, refl)
    sent-Admitted start ((answer, r) ∷ rest) tracker e (le, o) (p, a) =
        step-Admitted start answer r rest tracker le p
          (serve-Charged entry answer r tracker (ap (λ s. lookup_route s h.registry) p ∙ e))
          (λ t. sent-Admitted (pos r.now) rest t e o a)

-- Of requests for one path, at times that do not go back and with no request for it before: at each
-- request that a FlowRun is sent for, those in the window before it, itself included, are at most the
-- limit of the route, if it has one.
pub serve_http-Bounded :
    {Keyset : Type 0} (lib : Library Keyset) (h : WebhookHandler) (entry : RouteEntry)
    (path : String) (n : ℕ) (start : ℤ) (requests : List (CreateAnswer × Request))
    → lookup_route path h.registry ≡ some entry
    → entry.max_invocations ≡ suc n
    → lookup path h.cooldown ≡ none
    → Ordered start (times lib h requests)
    → All (λ q. q.1.path ≡ path) requests
    → Bounded entry.max_invocations entry.cooldown_window [] (sent_times lib h requests h.cooldown)
unfolding Admitted
serve_http-Bounded lib h entry path n start requests route limit fresh o a =
    let (ts, ordered, e) = sent-Admitted lib h entry path start requests h.cooldown route o a in
    rw e (
      subst
        (λ m.
          Bounded m entry.cooldown_window []
            (admissions m entry.cooldown_window h.cooldown path ts))
        (sym limit)
        (admissions-Bounded n entry.cooldown_window path start ts h.cooldown ordered fresh))
