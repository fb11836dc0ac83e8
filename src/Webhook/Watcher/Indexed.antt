-- ===== src/Webhook/Watcher/Indexed.antt =====
-- The route of a Trigger depends on no Secret but those that the index lists it for.
use kubezap_operator.Base.{
  String, ◌≡◌, refl, true, Option, none, some, List, [], ◌∷◌, ◌==◌, eq_refl, subst, String-cases,
  Bool-cases, inl, inr, ◌||◌, contains_string,
}
use kubezap_operator.Base.Keys.{NamespacedName, has, same}
use kubezap_operator.Api.Trigger.{Trigger}
use kubezap_operator.Api.Integration.{SecretKeySelector}
use kubezap_operator.Api.WebhookTrigger.{
  HmacConfig, WebhookBasicAuth, HeaderSecret, WebhookAuth, WebhookTrigger,
}
use kubezap_operator.Gateway.Watcher.Resolve.{SecretReader}
use kubezap_operator.Webhook.Auth.{or_default}
use kubezap_operator.Webhook.Route.{RouteEntry}
use kubezap_operator.Webhook.Watcher.{
  Answers, auth_secrets, secret_refs_for_trigger, in_namespace, hmac_name, selector_name,
  header_name, basic_name, refs_of_webhook, refs_of_auth,
}
use kubezap_operator.Webhook.Watcher.Build.{
  build_route_entry, open_entry, with_auth, add_auth, add_hmac, add_bearer, add_api_key, add_basic,
  add_header_equals, add_oidc, read,
}

module _ (answers : Answers) (other : SecretReader) (ns : String) where
  abbrev pub changed : Answers
  changed = record answers { read_secret_key = other }

  -- The Secrets of these names in the namespace read alike.
  abbrev AgreeOn : List String → Type 0
  AgreeOn names =
      (name key : String)
      → contains_string names name ≡ true
      → answers.read_secret_key ns name key ≡ other ns name key

  at_first :
      (name key : String)
      → AgreeOn (name ∷ [])
      → answers.read_secret_key ns name key ≡ other ns name key
  at_first name key h = h name key (rw (eq_refl name) refl)

  add_hmac-alike :
      (entry : RouteEntry) (o : Option HmacConfig)
      → AgreeOn (hmac_name o)
      → add_hmac answers ns entry o ≡ add_hmac changed ns entry o
  unfolding add_hmac read
  add_hmac-alike entry none h = refl
  add_hmac-alike entry (some c) h = rw (at_first c.secret_ref.name c.secret_ref.key h) refl

  add_bearer-alike :
      (entry : RouteEntry) (o : Option SecretKeySelector)
      → AgreeOn (selector_name o)
      → add_bearer answers ns entry o ≡ add_bearer changed ns entry o
  unfolding add_bearer read
  add_bearer-alike entry none h = refl
  add_bearer-alike entry (some s) h = rw (at_first s.name s.key h) refl

  add_api_key-alike :
      (entry : RouteEntry) (o : Option HeaderSecret)
      → AgreeOn (header_name o)
      → add_api_key answers ns entry o ≡ add_api_key changed ns entry o
  unfolding add_api_key read
  add_api_key-alike entry none h = refl
  add_api_key-alike entry (some c) h = rw (at_first c.secret_ref.name c.secret_ref.key h) refl

  add_header_equals-alike :
      (entry : RouteEntry) (o : Option HeaderSecret)
      → AgreeOn (header_name o)
      → add_header_equals answers ns entry o ≡ add_header_equals changed ns entry o
  unfolding add_header_equals read
  add_header_equals-alike entry none h = refl
  add_header_equals-alike entry (some c) h = rw (at_first c.secret_ref.name c.secret_ref.key h) refl

  add_basic-alike :
      (entry : RouteEntry) (o : Option WebhookBasicAuth)
      → AgreeOn (basic_name o)
      → add_basic answers ns entry o ≡ add_basic changed ns entry o
  unfolding add_basic
  add_basic-alike entry none h = refl
  add_basic-alike entry (some c) h =
      rw (at_first c.secret_ref (or_default "username" c.username_key) h)
        (rw (at_first c.secret_ref (or_default "password" c.password_key) h) refl)

  hmac_secrets : (auth : WebhookAuth) → auth.type ≡ "hmac" → auth_secrets auth ≡ hmac_name auth.hmac
  unfolding auth_secrets
  hmac_secrets auth p = rw p refl

  bearer_secrets :
      (auth : WebhookAuth) → auth.type ≡ "bearer" → auth_secrets auth ≡ selector_name auth.bearer
  unfolding auth_secrets
  bearer_secrets auth p = rw p refl

  api_key_secrets :
      (auth : WebhookAuth) → auth.type ≡ "apiKey" → auth_secrets auth ≡ header_name auth.api_key
  unfolding auth_secrets
  api_key_secrets auth p = rw p refl

  basic_secrets :
      (auth : WebhookAuth) → auth.type ≡ "basic" → auth_secrets auth ≡ basic_name auth.basic
  unfolding auth_secrets
  basic_secrets auth p = rw p refl

  header_equals_secrets :
      (auth : WebhookAuth)
      → auth.type ≡ "header-equals"
      → auth_secrets auth ≡ header_name auth.header_equals
  unfolding auth_secrets
  header_equals_secrets auth p = rw p refl

  add_auth-alike :
      (entry : RouteEntry) (auth : WebhookAuth)
      → AgreeOn (auth_secrets auth)
      → add_auth answers ns entry auth ≡ add_auth changed ns entry auth
  unfolding add_auth add_oidc
  add_auth-alike entry auth h = elim (String-cases auth.type "hmac") [
    | inl (p, _) ↦ rw p (add_hmac-alike entry auth.hmac (subst AgreeOn (hmac_secrets auth p) h))
    | inr (_, a) ↦ rw a (elim (String-cases auth.type "bearer") [
      | inl (p, _) ↦
          rw p (add_bearer-alike entry auth.bearer (subst AgreeOn (bearer_secrets auth p) h))
      | inr (_, b) ↦ rw b (elim (String-cases auth.type "apiKey") [
        | inl (p, _) ↦
            rw p (add_api_key-alike entry auth.api_key (subst AgreeOn (api_key_secrets auth p) h))
        | inr (_, c) ↦ rw c (elim (String-cases auth.type "basic") [
          | inl (p, _) ↦
              rw p (add_basic-alike entry auth.basic (subst AgreeOn (basic_secrets auth p) h))
          | inr (_, d) ↦ rw d (elim (String-cases auth.type "header-equals") [
            | inl (p, _) ↦ rw p (
                add_header_equals-alike entry auth.header_equals
                  (subst AgreeOn (header_equals_secrets auth p) h))
            | inr (_, e) ↦ rw e refl
          ])
        ])
      ])
    ])
  ]

  contains-has :
      (names : List String) (name : String)
      → contains_string names name ≡ true
      → has (record { namespace = ns; name = name }) (in_namespace ns names) ≡ true
  unfolding has same
  contains-has [] name h = h
  contains-has (n ∷ rest) name h = elim (String-cases n name) [
    | inl (_, e) ↦ rw e (rw (eq_refl ns) refl)
    | inr (_, e) ↦
        rw e (contains-has rest name (subst (λ b. (b || contains_string rest name) ≡ true) e h))
  ]

  -- The Secrets of the list read alike.
  abbrev pub AgreeOnRefs : List NamespacedName → Type 0
  AgreeOnRefs refs =
      (name key : String)
      → has (record { namespace = ns; name = name }) refs ≡ true
      → answers.read_secret_key ns name key ≡ other ns name key

  with_auth-alike :
      (entry : RouteEntry) (o : Option WebhookAuth)
      → AgreeOnRefs (refs_of_auth ns o)
      → with_auth answers ns entry o ≡ with_auth changed ns entry o
  unfolding with_auth refs_of_auth
  with_auth-alike entry none h = refl
  with_auth-alike entry (some auth) h = elim (Bool-cases (auth.type == "")) [
    | inl e ↦ rw e refl
    | inr e ↦ rw e (
        add_auth-alike (record entry { auth_type = auth.type }) auth
          (λ name key c. h name key (contains-has (auth_secrets auth) name c)))
  ]

-- The route of a Trigger of type webhook, or the error instead, is the same whenever the Secrets read
-- alike that the index lists the Trigger for, whatever the other Secrets are.
pub build_route_entry-Indexed :
    (answers : Answers) (other : SecretReader) (trigger : Trigger) (webhook : WebhookTrigger)
    → trigger.type ≡ "webhook"
    → trigger.webhook ≡ some webhook
    → AgreeOnRefs answers other trigger.namespace (secret_refs_for_trigger trigger)
    → build_route_entry answers trigger webhook
      ≡ build_route_entry (changed answers other trigger.namespace) trigger webhook
unfolding build_route_entry secret_refs_for_trigger refs_of_webhook
build_route_entry-Indexed answers other trigger webhook type has_webhook h =
    with_auth-alike answers other trigger.namespace (open_entry answers.to_upper trigger webhook)
      webhook.auth (subst (AgreeOnRefs answers other trigger.namespace) refs h)
  where
    refs : secret_refs_for_trigger trigger ≡ refs_of_auth trigger.namespace webhook.auth
    refs = rw type (rw has_webhook refl)
