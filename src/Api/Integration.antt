-- ===== src/Api/Integration.antt =====
-- api/v1alpha1/integration_types.go: the connections of Kafka, AMQP and NATS. An optional pointer is
-- an `Option`.
use kubezap_operator.Base.{String, Bool, Option, List}

-- corev1.SecretKeySelector.
pub record SecretKeySelector : Type 0 where
  pub name : String
  pub key : String

pub record KafkaTlsConfig : Type 0 where
  pub enabled : Bool
  pub insecure_skip_verify : Bool
  pub ca_secret_ref : Option SecretKeySelector

pub record KafkaSaslConfig : Type 0 where
  pub mechanism : String
  pub username_secret_ref : SecretKeySelector
  pub password_secret_ref : SecretKeySelector

pub record KafkaIntegrationSpec : Type 0 where
  pub bootstrap_servers : List String
  pub tls : Option KafkaTlsConfig
  pub sasl : Option KafkaSaslConfig

pub record AmqpTlsConfig : Type 0 where
  pub ca_secret_ref : Option SecretKeySelector

pub record AmqpIntegrationSpec : Type 0 where
  pub url : String
  pub version : String
  pub tls : Option AmqpTlsConfig
  pub username_secret_ref : Option SecretKeySelector
  pub password_secret_ref : Option SecretKeySelector

pub record NatsTlsConfig : Type 0 where
  pub insecure_skip_verify : Bool
  pub ca_secret_ref : Option SecretKeySelector

pub record NatsIntegrationSpec : Type 0 where
  pub servers : List String
  pub tls : Option NatsTlsConfig
  -- The name of a Secret.
  pub credentials_secret_ref : Option String
  pub username_secret_ref : Option SecretKeySelector
  pub password_secret_ref : Option SecretKeySelector

pub record Integration : Type 0 where
  pub kafka : Option KafkaIntegrationSpec
  pub amqp : Option AmqpIntegrationSpec
  pub nats : Option NatsIntegrationSpec
