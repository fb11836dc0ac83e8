-- ===== src/Gateway/Messages/Tests.antt =====
-- Two AMQP deliveries with one tag, as after a new connection.
use kubezap_operator.Base.{false, ℕ, String, ◌≡◌, ◌↔◌, refl, true, none, List, [], ◌∷◌}
use kubezap_operator.Base.Int.{pos}
use kubezap_operator.Base.Assoc.{Assoc, lookup}
use kubezap_operator.Cron.{CreateAnswer}
use kubezap_operator.Webhook.{Library}
use kubezap_operator.Gateway.Messages.{
  MessageHandler, Delivery, acknowledged, unanswered, settle, settle_kafka, settle_nats, MessageRun,
  create, deliver, delivery_run, sanitize_flow_run_name,
}
use kubezap_operator.Gateway.Messages.Laws.{first_of, deliver_first}

abbrev lib : Library String
lib = record {
  to_upper = λ s. s;
  to_lower = λ s. s;
  canonical = λ s. s;
  bytes_of = λ s. [];
  text_of = λ b. if_empty b;
  is_utf8 = λ b. true;
  base64 = λ b. "base64";
  hmac_sha256 = λ secret b. secret;
  parse_int = λ s. none;
  decimal = λ i. "1";
  parse_basic_auth = λ s. none;
  split_host = λ s. none;
  parse_ip = λ s. none;
  parse_cidr = λ s. none;
  cached_keys = λ url. none;
  refreshed_keys = λ url. none;
  keys_error = λ url. "no keys";
  jwt_error = λ keys issuer audience token. none;
}
  where
    if_empty : List ℕ → String
    if_empty [] = "first"
    if_empty (b ∷ rest) = "second"

abbrev handler : MessageHandler
handler = record { trigger_name = "orders"; trigger_namespace = "prod"; flow_ref_name = "ship" }

abbrev delivery : List ℕ → Delivery
delivery body = record { delivery_tag = pos 1; routing_key = "new"; body = body; headers = [] }

sanitizes : sanitize_flow_run_name (λ s. s) "orders_1.x" ≡ "orders-1-x"
unfolding sanitize_flow_run_name
sanitizes = refl

second_delivery_lost :
    deliver
      ((true, delivery_run lib handler (delivery []))
        ∷ (true, delivery_run lib handler (delivery (1 ∷ [])))
        ∷ [])
      []
    ≡ ("orders-dt1", delivery_run lib handler (delivery [])) ∷ []
unfolding deliver delivery_run
second_delivery_lost = refl

abbrev after_one : Assoc MessageRun
after_one = deliver ((true, delivery_run lib handler (delivery [])) ∷ []) []

abbrev second : CreateAnswer × Assoc MessageRun
second = create false (delivery_run lib handler (delivery (1 ∷ []))) after_one

deliver_first_example :
    (lookup "orders-dt1" after_one
      ≡ first_of "orders-dt1"
          ((true, delivery_run lib handler (delivery [])) ∷ [])
          (lookup "orders-dt1" []))
    × ((settle second.0 ≡ acknowledged) ↔ (false ≡ true))
    × ((settle_nats true second.0 ≡ acknowledged) ↔ (false ≡ true))
    × (false ≡ false
        → (second.1 ≡ after_one)
          × (settle_kafka second.0 ≡ acknowledged)
          × (settle_nats false second.0 ≡ unanswered))
deliver_first_example =
    deliver_first "orders-dt1" ((true, delivery_run lib handler (delivery [])) ∷ []) [] false
      (delivery_run lib handler (delivery (1 ∷ [])))
