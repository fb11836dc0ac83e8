-- ===== src/Api/Trigger.antt =====
-- api/v1alpha1/trigger_types.go: Triggers, and their garbage-collection policy. An optional pointer is
-- an `Option`; the counts have Minimum=0.
use kubezap_operator.Base.{ℕ, String, Bool, Option}
use kubezap_operator.Base.Int.{ℤ}
use kubezap_operator.Api.WebhookTrigger.{WebhookTrigger}

pub record FlowRunGcPolicy : Type 0 where
  pub max_succeeded : Option ℕ
  pub max_failed : Option ℕ
  pub ttl_after_succeeded : Option ℤ
  pub ttl_after_failed : Option ℤ

pub record KafkaTrigger : Type 0 where
  pub integration_ref : String
  pub topic : String
  pub consumer_group : String

-- An exchange is read by the client library alone.
pub record AmqpTrigger : Type 0 where
  pub integration_ref : String
  pub topic : String
  pub routing_key : String
  pub has_exchange : Bool

pub record NatsTrigger : Type 0 where
  pub integration_ref : String
  pub subject : String

-- Trigger with its TriggerSpec, as the gateways read it.
pub record Trigger : Type 0 where
  pub namespace : String
  pub name : String
  pub type : String
  pub enabled : Bool
  pub flow_ref : String
  pub kafka : Option KafkaTrigger
  pub amqp : Option AmqpTrigger
  pub nats : Option NatsTrigger
  pub webhook : Option WebhookTrigger
