-- ===== src/Api/FlowRun.antt =====
-- api/v1alpha1/flowrun_types.go. Instants are nanoseconds since the epoch. A message is the format
-- string that builds it, with its arguments.
use kubezap_operator.Base.{ℕ, String, Bool, true, false, Option, List}
use kubezap_operator.Base.Int.{ℤ}
use kubezap_operator.Base.Assoc.{Assoc}
use kubezap_operator.Api.Flow.{ParamValue}

pub record TriggerData : Type 0 where
  pub headers : Assoc String
  pub topic : String
  pub partition : ℤ
  pub offset : ℤ
  pub key : String
  pub key_encoding : String
  pub scheduled_time : Option ℤ
  pub body : String
  pub content_type : String

pub record ResultValue : Type 0 where
  pub name : String
  pub value : String

pub data StepPhase : Type 0 where
  unset pending running succeeded failed skipped waiting : StepPhase

pub data FlowRunPhase : Type 0 where
  unset pending running succeeded failed cancelled : FlowRunPhase

pub data Message : Type 0 where
  empty : Message
  text : String → Message
  deps_skipped : Message
  when_false : Message
  when_error : Message → Message
  step_when_error : String → Message → Message
  step_failed : String → Message → Message
  flow_not_found : String → Message
  required_param : String → Message
  timeout_exceeded : Message
  deleted_while_running : Message
  cancelled_by_annotation : Message
  orphaned_at_startup : Message
  flow_run_running : Message
  completed : Message
  no_wait_config : String → Message
  invalid_duration : String → String → Message
  no_transform : String → Message
  unknown_action : String → Message
  secret_unresolved : String → Message → Message
  no_http : String → Message
  url_secrets body_secrets : String → Message → Message
  header_secrets : String → String → Message → Message
  ssrf_blocked : String → Message → Message
  executor_rpc : String → String → Message → Message
  http_failure : ℤ → String → Message
  http_ok : ℤ → Message
  context_done : Message
  cel_env_missing : Message
  cel_compile_error cel_program_error cel_eval_error cel_not_bool : String → Message

pub record StepRunStatus : Type 0 where
  pub name : String
  pub phase : StepPhase
  pub start_time : Option ℤ
  pub completion_time : Option ℤ
  pub attempts : ℕ
  pub message : Message
  pub results : Option (List ResultValue)
  pub duration_millis : Option ℤ
  pub resume_after : Option ℤ

pub record Condition : Type 0 where
  pub type : String
  pub status : Bool
  pub reason : String
  pub message : Message
  pub last_transition_time : Option ℤ

pub record FlowRunStatus : Type 0 where
  pub observed_generation : ℕ
  pub phase : FlowRunPhase
  pub conditions : List Condition
  pub start_time : Option ℤ
  pub completion_time : Option ℤ
  pub steps : List StepRunStatus
  pub message : Message
  pub duration_millis : Option ℤ

pub record FlowRunSpec : Type 0 where
  pub flow_ref : String
  pub params : List ParamValue
  pub trigger_data : Option TriggerData
  pub ttl_after_finished : Option ℤ

pub record FlowRun : Type 0 where
  pub name : String
  pub namespace : String
  pub generation : ℕ
  pub labels : Assoc String
  pub annotations : Assoc String
  pub finalizers : List String
  pub deletion_timestamp : Option ℤ
  pub spec : FlowRunSpec
  pub status : FlowRunStatus

-- The phases in which a step, or a FlowRun, is done.
abbrev pub step_terminal : StepPhase → Bool
step_terminal succeeded = true
step_terminal failed = true
step_terminal skipped = true
step_terminal _ = false

abbrev pub run_terminal : FlowRunPhase → Bool
run_terminal succeeded = true
run_terminal failed = true
run_terminal cancelled = true
run_terminal _ = false

-- `Phase == "" || Phase == Pending`: not started yet.
abbrev pub step_unstarted : StepPhase → Bool
step_unstarted unset = true
step_unstarted pending = true
step_unstarted _ = false

-- The zero `StepRunStatus` with a name and a phase.
abbrev pub blank_status : String → StepPhase → StepRunStatus
blank_status name phase = record {
  name = name;
  phase = phase;
  start_time = Option.none;
  completion_time = Option.none;
  attempts = 0;
  message = empty;
  results = Option.none;
  duration_millis = Option.none;
  resume_after = Option.none;
}
