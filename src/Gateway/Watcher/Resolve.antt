-- ===== src/Gateway/Watcher/Resolve.antt =====
-- resolveKafkaCredentials, resolveAmqpCredentials and resolveNatsCredentials of
-- internal/gateway/{kafka,amqp,nats}/watcher.go.
use kubezap_operator.Base.{String, Option, none, some, List, [], ◌∷◌, ◌++◌, if◌then◌else◌}
use kubezap_operator.Base.Text.{◌⧺◌}
use kubezap_operator.Base.Keys.{NamespacedName}
use kubezap_operator.Api.Integration.{
  SecretKeySelector, KafkaTlsConfig, KafkaSaslConfig, KafkaIntegrationSpec, AmqpTlsConfig,
  AmqpIntegrationSpec, NatsTlsConfig, NatsIntegrationSpec,
}

-- readSecretKey, of a namespace, a Secret and a key; none where the Secret or the key is missing.
abbrev pub SecretReader : Type 0
SecretReader = String → String → String → Option String

-- kafkaCredentials, amqpCredentials and natsCredentials. The fingerprint is the digest of `written`.
pub record Credentials : Type 0 where
  pub ca_pem : String
  pub username : String
  pub password : String
  pub creds_content : String
  pub secret_refs : List NamespacedName
  pub written : String

abbrev pub no_credentials : Credentials
no_credentials = record {
  ca_pem = "";
  username = "";
  password = "";
  creds_content = "";
  secret_refs = [];
  written = "";
}

-- The credentials with or without an error: what is read before it is returned too.
pub data CredentialResult : Type 0 where
  resolved unresolved : Credentials → CredentialResult

infixl 5 ◌>>=◌
abbrev pub ◌>>=◌ : CredentialResult → (Credentials → CredentialResult) → CredentialResult
resolved creds >>= f = f creds
unresolved creds >>= f = unresolved creds

abbrev pub enabled_ca : Option KafkaTlsConfig → Option SecretKeySelector
enabled_ca none = none
enabled_ca (some tls) = if tls.enabled then tls.ca_secret_ref else none

abbrev pub amqp_ca : Option AmqpTlsConfig → Option SecretKeySelector
amqp_ca none = none
amqp_ca (some tls) = tls.ca_secret_ref

abbrev pub nats_ca : Option NatsTlsConfig → Option SecretKeySelector
nats_ca none = none
nats_ca (some tls) = tls.ca_secret_ref

module _ (read : SecretReader) (namespace : String) where
  abbrev pub secret_key : String → NamespacedName
  secret_key name = record { namespace = namespace; name = name }

  abbrev pub read_selector : SecretKeySelector → Option String
  read_selector ref = read namespace ref.name ref.key

  abbrev pub keep_ca : SecretKeySelector → Credentials → Option String → CredentialResult
  keep_ca ref creds none = unresolved creds
  keep_ca ref creds (some pem) = resolved (record creds {
    ca_pem = pem;
    secret_refs = creds.secret_refs ++ (secret_key ref.name ∷ []);
    written = creds.written ⧺ pem;
  })

  unfoldable pub add_ca : Option SecretKeySelector → Credentials → CredentialResult
  add_ca none creds = resolved creds
  add_ca (some ref) creds = keep_ca ref creds (read_selector ref)

  abbrev pub keep_login :
      SecretKeySelector
      → SecretKeySelector
      → Credentials
      → Option String
      → Option String
      → CredentialResult
  keep_login user_ref pass_ref creds none pass = unresolved creds
  keep_login user_ref pass_ref creds (some user) none = unresolved creds
  keep_login user_ref pass_ref creds (some user) (some pass) = resolved (record creds {
    username = user;
    password = pass;
    secret_refs = creds.secret_refs ++ (secret_key user_ref.name ∷ secret_key pass_ref.name ∷ []);
    written = (creds.written ⧺ user) ⧺ pass;
  })

  -- The user name and the password are both read before either is kept.
  unfoldable pub add_login : SecretKeySelector → SecretKeySelector → Credentials → CredentialResult
  add_login user_ref pass_ref creds =
      keep_login user_ref pass_ref creds (read_selector user_ref) (read_selector pass_ref)

  abbrev pub add_sasl : Option KafkaSaslConfig → Credentials → CredentialResult
  add_sasl none creds = resolved creds
  add_sasl (some sasl) creds = add_login sasl.username_secret_ref sasl.password_secret_ref creds

  unfoldable pub resolve_kafka_credentials : KafkaIntegrationSpec → CredentialResult
  unfolding add_ca add_login
  resolve_kafka_credentials spec = do
    creds ← add_ca (enabled_ca spec.tls) no_credentials
    add_sasl spec.sasl creds

  abbrev pub keep_value : SecretKeySelector → Credentials → Option String → CredentialResult
  keep_value ref creds none = unresolved creds
  keep_value ref creds (some value) = resolved (record creds {
    secret_refs = creds.secret_refs ++ (secret_key ref.name ∷ []);
    written = creds.written ⧺ value;
  })

  -- A value that AMQP only takes into the fingerprint; it is read again at each connection.
  unfoldable pub add_value : Option SecretKeySelector → Credentials → CredentialResult
  add_value none creds = resolved creds
  add_value (some ref) creds = keep_value ref creds (read_selector ref)

  unfoldable pub resolve_amqp_credentials : AmqpIntegrationSpec → CredentialResult
  unfolding add_value
  resolve_amqp_credentials spec = do
    creds ← add_value spec.username_secret_ref no_credentials
    creds ← add_value spec.password_secret_ref creds
    add_value (amqp_ca spec.tls) creds

  abbrev pub keep_content : String → Credentials → Option String → CredentialResult
  keep_content name creds none = unresolved creds
  keep_content name creds (some content) = resolved (record creds {
    creds_content = content;
    secret_refs = creds.secret_refs ++ (secret_key name ∷ []);
    written = creds.written ⧺ content;
  })

  -- A user name without a password is an error, once it is read.
  abbrev pub add_user :
      Option SecretKeySelector → Option SecretKeySelector → Credentials → CredentialResult
  add_user none pass_ref creds = resolved creds
  add_user (some user_ref) none creds = unresolved creds
  add_user (some user_ref) (some pass_ref) creds = add_login user_ref pass_ref creds

  unfoldable pub add_nats_login :
      NatsIntegrationSpec → Option String → Credentials → CredentialResult
  unfolding add_login
  add_nats_login spec (some name) creds = keep_content name creds (read namespace name "nats.creds")
  add_nats_login spec none creds = add_user spec.username_secret_ref spec.password_secret_ref creds

  unfoldable pub resolve_nats_credentials : NatsIntegrationSpec → CredentialResult
  unfolding add_ca add_nats_login
  resolve_nats_credentials spec = do
    creds ← add_ca (nats_ca spec.tls) no_credentials
    add_nats_login spec spec.credentials_secret_ref creds
