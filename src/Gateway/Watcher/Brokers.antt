-- ===== src/Gateway/Watcher/Brokers.antt =====
-- The Kafka, AMQP and NATS gateways as brokers of a watcher: what reconcileTrigger and
-- startSubscription of internal/gateway/{kafka,amqp,nats}/watcher.go do in their own way.
use kubezap_operator.Base.{
  String, Bool, true, false, ◌&&◌, ◌||◌, not, Option, none, some, List, [], ◌∷◌, ◌==◌,
  if◌then◌else◌,
}
use kubezap_operator.Base.Text.{◌⧺◌}
use kubezap_operator.Api.Trigger.{Trigger, KafkaTrigger, AmqpTrigger, NatsTrigger}
use kubezap_operator.Api.Integration.{
  SecretKeySelector, KafkaSaslConfig, KafkaIntegrationSpec, AmqpIntegrationSpec,
  NatsIntegrationSpec, Integration,
}
use kubezap_operator.Gateway.Watcher.{Broker}
use kubezap_operator.Gateway.Watcher.Resolve.{
  Credentials, CredentialResult, enabled_ca, nats_ca, resolve_kafka_credentials,
  resolve_amqp_credentials, resolve_nats_credentials,
}

-- What the client libraries answer: whether a PEM text has certificates, whether a consumer group
-- is created, and whether a connection is made.
pub record Clients : Type 0 where
  pub parses_pem : String → Bool
  pub new_consumer_group : List String → String → Credentials → Bool
  pub connects : Trigger → NatsIntegrationSpec → Credentials → Bool

unfoldable pub consumer_group : Trigger → KafkaTrigger → String
consumer_group trigger kafka =
    if kafka.consumer_group == "" then "kubezap-" ⧺ trigger.name else kafka.consumer_group

abbrev pub kafka_settings : Trigger → Option KafkaTrigger → Option (String × List String)
kafka_settings trigger none = none
kafka_settings trigger (some kafka) =
    some (kafka.integration_ref, kafka.topic ∷ consumer_group trigger kafka ∷ [])

unfoldable pub kafka_wanted : Trigger → Option (String × List String)
unfolding consumer_group
kafka_wanted trigger =
    if trigger.type == "kafka" && trigger.enabled
    then kafka_settings trigger trigger.kafka
    else none

abbrev pub amqp_settings : Option AmqpTrigger → Option (String × List String)
amqp_settings none = none
amqp_settings (some amqp) = some (amqp.integration_ref, amqp.topic ∷ amqp.routing_key ∷ [])

unfoldable pub amqp_wanted : Trigger → Option (String × List String)
amqp_wanted trigger =
    if trigger.type == "amqp" && trigger.enabled then amqp_settings trigger.amqp else none

abbrev pub nats_settings : Option NatsTrigger → Option (String × List String)
nats_settings none = none
nats_settings (some nats) = some (nats.integration_ref, nats.subject ∷ [])

unfoldable pub nats_wanted : Trigger → Option (String × List String)
nats_wanted trigger =
    if trigger.type == "nats" && trigger.enabled then nats_settings trigger.nats else none

module _ (clients : Clients) where
  open clients use {parses_pem, new_consumer_group, connects}

  -- A CA certificate that is configured has to parse.
  abbrev pub ca_parses : Option SecretKeySelector → Credentials → Bool
  ca_parses none creds = true
  ca_parses (some ref) creds = parses_pem creds.ca_pem

  abbrev pub mechanism_known : Option KafkaSaslConfig → Bool
  mechanism_known none = true
  mechanism_known (some sasl) =
      sasl.mechanism == "PLAIN"
      || sasl.mechanism == "SCRAM-SHA-256"
      || sasl.mechanism == "SCRAM-SHA-512"

  abbrev pub kafka_group : Trigger → Option KafkaTrigger → String
  kafka_group trigger none = ""
  kafka_group trigger (some kafka) = consumer_group trigger kafka

  abbrev pub kafka_starts_spec : Trigger → Option KafkaIntegrationSpec → Credentials → Bool
  kafka_starts_spec trigger none creds = false
  kafka_starts_spec trigger (some spec) creds =
      ca_parses (enabled_ca spec.tls) creds
      && mechanism_known spec.sasl
      && new_consumer_group spec.bootstrap_servers (kafka_group trigger trigger.kafka) creds

  unfoldable pub kafka_starts : Trigger → Integration → Credentials → Bool
  unfolding consumer_group
  kafka_starts trigger integration creds = kafka_starts_spec trigger integration.kafka creds

  -- An exchange goes with version 0-9-1 alone, which is the default.
  abbrev pub version_starts : Bool → String → Bool
  version_starts has_exchange version =
      let v091 = version == "" || version == "0-9-1" in
      not (has_exchange && not v091) && (v091 || version == "1.0")

  abbrev pub amqp_starts_spec : Option AmqpTrigger → Option AmqpIntegrationSpec → Bool
  amqp_starts_spec none spec = false
  amqp_starts_spec (some amqp) none = false
  amqp_starts_spec (some amqp) (some spec) = version_starts amqp.has_exchange spec.version

  unfoldable pub amqp_starts : Trigger → Integration → Credentials → Bool
  amqp_starts trigger integration creds = amqp_starts_spec trigger.amqp integration.amqp

  abbrev pub nats_starts_spec : Trigger → Option NatsIntegrationSpec → Credentials → Bool
  nats_starts_spec trigger none creds = false
  nats_starts_spec trigger (some spec) creds =
      ca_parses (nats_ca spec.tls) creds && connects trigger spec creds

  unfoldable pub nats_starts : Trigger → Integration → Credentials → Bool
  nats_starts trigger integration creds = nats_starts_spec trigger integration.nats creds

-- A resolver of the gateway's specification, of an Integration that may have none.
abbrev pub of_spec {ℓ} : {S : Type ℓ} → (S → CredentialResult) → Option S → Option CredentialResult
of_spec resolve none = none
of_spec resolve (some spec) = some (resolve spec)

unfoldable pub kafka : Clients → Broker
unfolding kafka_wanted resolve_kafka_credentials kafka_starts
kafka clients = record {
  wanted = kafka_wanted;
  resolve = λ read namespace integration.
      of_spec (resolve_kafka_credentials read namespace) integration.kafka;
  starts = kafka_starts clients;
}

unfoldable pub amqp : Clients → Broker
unfolding amqp_wanted resolve_amqp_credentials amqp_starts
amqp clients = record {
  wanted = amqp_wanted;
  resolve = λ read namespace integration.
      of_spec (resolve_amqp_credentials read namespace) integration.amqp;
  starts = amqp_starts clients;
}

unfoldable pub nats : Clients → Broker
unfolding nats_wanted resolve_nats_credentials nats_starts
nats clients = record {
  wanted = nats_wanted;
  resolve = λ read namespace integration.
      of_spec (resolve_nats_credentials read namespace) integration.nats;
  starts = nats_starts clients;
}
