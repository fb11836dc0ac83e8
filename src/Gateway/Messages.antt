-- ===== src/Gateway/Messages.antt =====
-- internal/gateway/{kafka,amqp,nats}/handler.go: the FlowRun of a message, and how the message is
-- settled. Traces and metrics are left out.
pub mod Laws
mod Tests
use Prim.Native.Char.{Char, code}
use Prim.Native.String
use Prim.Native.String.{[], ◌∷◌}
use kubezap_operator.Base.{
  ℕ, zero, suc, String, Bool, true, false, ◌&&◌, ◌||◌, Option, none, some, List, ◌==◌, leb, eqb,
  if◌then◌else◌,
}
use kubezap_operator.Base.Int.{ℤ, pos}
use kubezap_operator.Base.Assoc.{Assoc, lookup, insert}
use kubezap_operator.Base.Text.{◌⧺◌}
use kubezap_operator.Cron.{CreateAnswer, created, exists, failed}
use kubezap_operator.Webhook.{Library}
use kubezap_operator.Webhook.Redact

abbrev pub is_name_char : ℕ → Bool
is_name_char c = (leb b'a' c && leb c b'z') || (leb b'0' c && leb c b'9') || eqb c b'-'

-- `nonAlphaNumDash.ReplaceAllString(name, "-")`.
unfoldable pub dashed : String → String
dashed [] = []
dashed (c ∷ s) =
    let rest = dashed s in
    let kept = c ∷ rest in
    let swapped = "-" ⧺ rest in if is_name_char (code c) then kept else swapped

-- `name[:n]`, of a name with one byte for a character.
abbrev pub first_chars : ℕ → String → String
first_chars zero s = []
first_chars (suc n) [] = []
first_chars (suc n) (c ∷ s) = c ∷ first_chars n s

unfoldable pub sanitize_flow_run_name : (String → String) → String → String
unfolding dashed
sanitize_flow_run_name to_lower name = first_chars 253 (dashed (to_lower name))

-- The fields that each of the handlers has.
pub record MessageHandler : Type 0 where
  pub trigger_name : String
  pub trigger_namespace : String
  pub flow_ref_name : String

pub record MessageData : Type 0 where
  pub body : String
  pub body_encoding : String
  pub headers : Assoc String
  pub topic : String
  pub partition : ℤ
  pub offset : ℤ
  pub key : String
  pub key_encoding : String

pub record MessageRun : Type 0 where
  pub name : String
  pub namespace : String
  pub labels : Assoc String
  pub flow_ref : String
  pub trigger_name : String
  pub trigger_type : String
  pub trigger_data : MessageData

abbrev run_of : MessageHandler → String → String → MessageData → MessageRun
run_of h kind name stored = record {
  name = name;
  namespace = h.trigger_namespace;
  labels =
      List.◌∷◌ ("kubezap.io/trigger", h.trigger_name)
        (List.◌∷◌ ("kubezap.io/trigger-type", kind)
          (List.◌∷◌ ("kubezap.io/flow", h.flow_ref_name) List.[]));
  flow_ref = h.flow_ref_name;
  trigger_name = h.trigger_name;
  trigger_type = kind;
  trigger_data = stored;
}

abbrev plain : String → String → Assoc String → MessageData
plain body topic headers = record {
  body = body;
  body_encoding = "";
  headers = headers;
  topic = topic;
  partition = pos 0;
  offset = pos 0;
  key = "";
  key_encoding = "";
}

-- A Kafka record; its headers have been put into a map.
pub record KafkaMessage : Type 0 where
  pub topic : String
  pub partition : ℤ
  pub offset : ℤ
  pub key : Option (List ℕ)
  pub payload : List ℕ
  pub headers : Assoc String

-- A delivery of AMQP 0-9-1, its headers as `%v` prints them.
pub record Delivery : Type 0 where
  pub delivery_tag : ℤ
  pub routing_key : String
  pub body : List ℕ
  pub headers : Assoc String

-- A message of AMQP 1.0, with the time at which it is handled, in nanoseconds; the ID, if there is
-- one, and the properties are as `%v` prints them.
pub record AmqpMessage : Type 0 where
  pub message_id : Option String
  pub payload : List ℕ
  pub properties : Assoc String
  pub now : ℤ

-- A message of NATS, with the time and the random digits of its name where it is not JetStream's.
-- `sequence` is that of the consumer, where the metadata can be read.
pub record NatsMessage : Type 0 where
  pub subject : String
  pub payload : List ℕ
  pub headers : Assoc (List String)
  pub sequence : Option ℤ
  pub now : ℤ
  pub random_hex : String

module _ {Keyset : Type 0} (lib : Library Keyset) (h : MessageHandler) where
  unfoldable pub named : String → String
  unfolding sanitize_flow_run_name
  named rest = sanitize_flow_run_name lib.to_lower (h.trigger_name ⧺ rest)

  -- The text of bytes, and its encoding.
  abbrev encode : List ℕ → String × String
  encode bytes =
      if lib.is_utf8 bytes then (lib.text_of bytes, "utf8") else (lib.base64 bytes, "base64")

  abbrev encode_key : Option (List ℕ) → String × String
  encode_key none = ("", "")
  encode_key (some bytes) = encode bytes

  unfoldable pub kafka_run : KafkaMessage → MessageRun
  unfolding named Redact.string_map
  kafka_run m =
      let (body, body_encoding) = encode m.payload in
      let (key, key_encoding) = encode_key m.key in
      run_of h "kafka" (named ("-p" ⧺ lib.decimal m.partition ⧺ "-offset-" ⧺ lib.decimal m.offset))
        (record {
          body = body;
          body_encoding = body_encoding;
          headers = Redact.string_map lib.to_lower List.[] m.headers;
          topic = m.topic;
          partition = m.partition;
          offset = m.offset;
          key = key;
          key_encoding = key_encoding;
        })

  unfoldable pub delivery_run : Delivery → MessageRun
  unfolding named Redact.string_map
  delivery_run d =
      run_of h "amqp" (named ("-dt" ⧺ lib.decimal d.delivery_tag)) (
        plain (lib.text_of d.body) d.routing_key (Redact.string_map lib.to_lower List.[] d.headers))

  abbrev amqp_suffix : ℤ → Option String → String
  amqp_suffix now none = "-" ⧺ lib.decimal now
  amqp_suffix now (some id) = "-" ⧺ id

  unfoldable pub amqp_run : AmqpMessage → MessageRun
  unfolding named Redact.string_map
  amqp_run m =
      run_of h "amqp" (named (amqp_suffix m.now m.message_id))
        (plain (lib.text_of m.payload) "" (Redact.string_map lib.to_lower List.[] m.properties))

  unfoldable pub nats_data : NatsMessage → MessageData
  unfolding Redact.headers
  nats_data m =
      plain (lib.text_of m.payload) m.subject (Redact.headers lib.to_lower List.[] m.headers)

  -- Without the metadata there is no name, and an error.
  unfoldable pub jet_stream_run : NatsMessage → Option ℤ → Option MessageRun
  unfolding named nats_data
  jet_stream_run m none = none
  jet_stream_run m (some sequence) =
      some (run_of h "nats" (named ("-seq-" ⧺ lib.decimal sequence)) (nats_data m))

  unfoldable pub nats_run : Bool → NatsMessage → Option MessageRun
  unfolding named jet_stream_run
  nats_run true m = jet_stream_run m m.sequence
  nats_run false m =
      some (run_of h "nats" (named ("-" ⧺ lib.decimal m.now ⧺ "-" ⧺ m.random_hex)) (nats_data m))

-- How a message ends for the broker.
pub data Settlement : Type 0 where
  acknowledged redelivered unanswered : Settlement

-- AMQP, and JetStream: a FlowRun that exists counts as its own; other errors have the message
-- delivered again.
unfoldable pub settle : CreateAnswer → Settlement
settle created = acknowledged
settle exists = acknowledged
settle failed = redelivered

-- Kafka: the offset of each message is marked, whatever became of it.
unfoldable pub settle_kafka : CreateAnswer → Settlement
settle_kafka answer = acknowledged

-- NATS: only JetStream is answered.
unfoldable pub settle_nats : Bool → CreateAnswer → Settlement
unfolding settle
settle_nats true answer = settle answer
settle_nats false answer = unanswered

unfoldable pub put_new :
    MessageRun → Assoc MessageRun → Option MessageRun → CreateAnswer × Assoc MessageRun
unfolding insert
put_new run store none = (created, insert run.name run store)
put_new run store (some old) = (exists, store)

-- The FlowRuns of the namespace, by name. The API server refuses a second one of a name, and any
-- where it is not available.
unfoldable pub create : Bool → MessageRun → Assoc MessageRun → CreateAnswer × Assoc MessageRun
unfolding put_new lookup
create available run store =
    if available then put_new run store (lookup run.name store) else (failed, store)

-- Messages of any broker, whose FlowRuns are given with the state of the API server, in the order in
-- which they are handled: each handler calls Create once for one.
unfoldable pub deliver : List (Bool × MessageRun) → Assoc MessageRun → Assoc MessageRun
unfolding create
deliver List.[] store = store
deliver (List.◌∷◌ (available, run) rest) store = deliver rest (create available run store).1
