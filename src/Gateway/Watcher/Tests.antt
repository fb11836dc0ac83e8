-- ===== src/Gateway/Watcher/Tests.antt =====
-- A Kafka gateway that sees one Trigger, whose Secrets are there, missing, or rotated.
use kubezap_operator.Base.{
  String, ◌≡◌, refl, Bool, true, false, Option, none, some, List, [], ◌∷◌, ◌==◌, ◌&&◌,
  if◌then◌else◌,
}
use kubezap_operator.Base.Text.{◌⧺◌}
use kubezap_operator.Base.Keys.{NamespacedName, at, has}
use kubezap_operator.Api.Trigger.{Trigger}
use kubezap_operator.Api.Integration.{
  Integration, KafkaIntegrationSpec, KafkaSaslConfig, SecretKeySelector,
}
use kubezap_operator.Gateway.SecretIndex.{objects_for}
use kubezap_operator.Gateway.Watcher.{
  Cluster, Broker, Subscription, Watcher, new_watcher, key_of, reconcile_trigger,
  handle_secret_change,
}
use kubezap_operator.Gateway.Watcher.Resolve.{SecretReader}
use kubezap_operator.Gateway.Watcher.Brokers.{Clients, kafka}
use kubezap_operator.Gateway.Watcher.Consistent.{new_watcher-IsConsistent}
use kubezap_operator.Gateway.Watcher.Settled.{Left, Settled}
use kubezap_operator.Gateway.Watcher.Histories.{
  Change, trigger_seen, trigger_deleted, secret_changed, handle, run, reached, Forgotten,
  seen-Settled, deleted-Forgotten, secret_changed-Settled,
}
use kubezap_operator.Gateway.Watcher.Unnoticed.{missing_secret_unnoticed}

abbrev clients : Clients
clients = record {
  parses_pem = λ s. true;
  new_consumer_group = λ servers group creds. true;
  connects = λ trigger spec creds. true;
}

abbrev selector : String → SecretKeySelector
selector key = record { name = "broker"; key = key }

abbrev sasl : KafkaSaslConfig
sasl = record {
  mechanism = "PLAIN";
  username_secret_ref = selector "user";
  password_secret_ref = selector "pass";
}

abbrev spec : KafkaIntegrationSpec
spec = record { bootstrap_servers = "kafka:9092" ∷ []; tls = none; sasl = some sasl }

abbrev integration : Integration
integration = record { kafka = some spec; amqp = none; nats = none }

abbrev with_secret : SecretReader → Cluster
with_secret read = record {
  get_integration = λ key. if key.name == "events" then some integration else none;
  read_secret_key = read;
  digest = λ s. s;
}

abbrev before : Cluster
before = with_secret (λ namespace name key. some ("old-" ⧺ key))

abbrev after : Cluster
after = with_secret (λ namespace name key. some ("new-" ⧺ key))

abbrev missing : Cluster
missing = with_secret (λ namespace name key. none)

abbrev orders : Trigger
orders = record {
  namespace = "shop";
  name = "orders";
  type = "kafka";
  enabled = true;
  flow_ref = "ship";
  kafka = some (record { integration_ref = "events"; topic = "orders"; consumer_group = "" });
  amqp = none;
  nats = none;
  webhook = none;
}

abbrev secret : NamespacedName
secret = record { namespace = "shop"; name = "broker" }

abbrev subscribed_with : String → Subscription
subscribed_with fingerprint = record {
  integration_name = "events";
  settings = "orders" ∷ "kubezap-orders" ∷ [];
  credential_fingerprint = fingerprint;
  flow_ref = "ship";
}

abbrev first_seen : List (Cluster × Change)
first_seen = (before, trigger_seen orders) ∷ []

rotation_restarts :
    at
      (key_of orders)
      (run
        (kafka clients)
        ((before, trigger_seen orders) ∷ (after, secret_changed secret) ∷ [])
        new_watcher).subscriptions
    ≡ some (subscribed_with "new-usernew-pass")
unfolding run at kafka kubezap_operator.Base.Keys.put kubezap_operator.Base.Keys.same
    kubezap_operator.Base.Keys.add kubezap_operator.Base.Keys.drop_key
rotation_restarts = refl

unread_secret_no_entry :
    objects_for secret
      (run (kafka clients) ((missing, trigger_seen orders) ∷ []) new_watcher).secret_index
    ≡ []
unfolding run at kafka
unread_secret_no_entry = refl

seen-Settled_example :
    Settled before
      (kafka clients)
      orders
      (handle before (kafka clients) (trigger_seen orders) (reached (kafka clients) first_seen))
    × Left before
        (kafka clients)
        orders
        (reached (kafka clients) first_seen)
        (handle before (kafka clients) (trigger_seen orders) (reached (kafka clients) first_seen))
seen-Settled_example = seen-Settled (kafka clients) first_seen before orders

deleted-Forgotten_example : Forgotten (key_of orders) (
    handle before
      (kafka clients)
      (trigger_deleted (key_of orders))
      (reached (kafka clients) first_seen))
deleted-Forgotten_example = deleted-Forgotten (kafka clients) first_seen before (key_of orders)

secret_changed-Settled_example :
    Settled after
      (kafka clients)
      orders
      (handle after (kafka clients) (secret_changed secret) (reached (kafka clients) first_seen))
unfolding at run kafka kubezap_operator.Base.Keys.put kubezap_operator.Base.Keys.same has
    kubezap_operator.Base.Keys.add
secret_changed-Settled_example =
    secret_changed-Settled (kafka clients) first_seen after orders secret refl refl

missing_secret_unnoticed_example :
    at
      (key_of orders)
      (handle_secret_change after
        (kafka clients)
        secret
        (reconcile_trigger missing (kafka clients) orders new_watcher)).subscriptions
    ≡ none
unfolding kubezap_operator.Gateway.Watcher.Brokers.kafka_wanted at
missing_secret_unnoticed_example =
    missing_secret_unnoticed clients missing orders "events" ("orders" ∷ "kubezap-orders" ∷ [])
      integration spec sasl after secret new_watcher new_watcher-IsConsistent refl refl refl refl
      refl refl
