-- ===== src/Api/Flow.antt =====
-- api/v1alpha1/flow_types.go. An optional pointer is an `Option`, a map an association list, an
-- enumerated string a data type whose `unset` is the empty string. Descriptions and the unused
-- `Multiplier` are left out. Durations are in nanoseconds.
use kubezap_operator.Base.{ℕ, String, Bool, true, false, Option, List}
use kubezap_operator.Base.Int.{ℤ}
use kubezap_operator.Base.Assoc.{Assoc}

pub data FailurePolicy : Type 0 where
  unset fail continue : FailurePolicy

pub data OnFailureAction : Type 0 where
  unset fail continue skip : OnFailureAction

-- `StepAction.Type`; `other` is any string but the four known ones.
pub data ActionType : Type 0 where
  http transform publish wait : ActionType
  other : String → ActionType

pub record HttpAction : Type 0 where
  pub url : String
  pub method : String
  pub headers : Assoc String
  pub body : String
  pub timeout_seconds : ℤ
  pub result_mappings : Assoc String
  pub integration_ref : Option String

pub record TransformAction : Type 0 where
  pub mappings : Assoc String

pub record PublishAction : Type 0 where
  pub integration_ref : String
  pub topic : String
  pub body : String
  pub headers : Assoc String

pub record WaitAction : Type 0 where
  pub duration : String

pub record StepAction : Type 0 where
  pub type : ActionType
  pub http : Option HttpAction
  pub transform : Option TransformAction
  pub publish : Option PublishAction
  pub wait : Option WaitAction

-- `BackoffType`; `fixed` is "Fixed", the empty string and any other value.
pub data BackoffType : Type 0 where
  fixed linear exponential : BackoffType

pub record RetryPolicy : Type 0 where
  pub max_retries : ℕ
  pub backoff_type : BackoffType
  pub initial_delay : Option ℤ
  pub max_delay : Option ℤ

pub record FlowStep : Type 0 where
  pub name : String
  pub run_after : List String
  pub when : List String
  pub action : StepAction
  pub retry_policy : Option RetryPolicy
  pub timeout : Option ℤ
  pub on_failure : OnFailureAction

pub record ParamDeclaration : Type 0 where
  pub name : String
  pub required : Bool
  pub default : String

pub record ParamValue : Type 0 where
  pub name : String
  pub value : String

pub record FlowSpec : Type 0 where
  pub timeout : Option ℤ
  pub failure_policy : FailurePolicy
  pub params : List ParamDeclaration
  pub steps : List FlowStep

abbrev pub is_wait : ActionType → Bool
is_wait wait = true
is_wait _ = false

abbrev pub policy_continues : FailurePolicy → Bool
policy_continues continue = true
policy_continues _ = false

abbrev pub action_continues : OnFailureAction → Bool
action_continues continue = true
action_continues _ = false
