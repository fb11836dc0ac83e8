-- ===== src/Run/Finish.antt =====
-- internal/controller/flowrun_controller.go: setFlowRunCondition, finishFlowRun, failFlowRun and
-- cancelFlowRun. `set_condition` stands for apimeta.SetStatusCondition.
use kubezap_operator.Base.{
  ◌/◌, suc, String, true, Option, none, some, List, contains_string, remove_string, if◌then◌else◌,
}
use kubezap_operator.Base.Int.{ℤ, pos, negsuc, ◌-ℤ◌}
use kubezap_operator.Base.Assoc.{insert}
use kubezap_operator.Api.FlowRun.{
  FlowRun, FlowRunPhase, Condition, Message, unset, pending, running, succeeded, failed, cancelled,
}
use kubezap_operator.Run.Plan.{Plan, return, write, status_update, metadata_update, done}

abbrev pub SetCondition : Type 0
SetCondition = List Condition → Condition → List Condition

abbrev pub executing_finalizer : String
executing_finalizer = "kubezap.io/executing"

abbrev pub phase_label : String
phase_label = "kubezap.io/phase"

abbrev pub phase_text : FlowRunPhase → String
phase_text unset = ""
phase_text pending = "Pending"
phase_text running = "Running"
phase_text succeeded = "Succeeded"
phase_text failed = "Failed"
phase_text cancelled = "Cancelled"

-- `condition.LastTransitionTime.IsZero()`
abbrev or_now : ℤ → Option ℤ → Option ℤ
or_now now none = some now
or_now now (some t) = some t

-- time.Duration.Milliseconds: the quotient rounded towards zero.
milliseconds_of : ℤ → ℤ
milliseconds_of (pos n) = pos (n / 1000000)
milliseconds_of (negsuc n) = pos 0 -ℤ pos (suc n / 1000000)

unfoldable pub milliseconds : ℤ → ℤ
unfolding milliseconds_of ◌-ℤ◌
milliseconds d = milliseconds_of d

-- `time.Since(start).Milliseconds()`, where there is a start; else the field keeps its value.
abbrev pub ran_for : ℤ → Option ℤ → Option ℤ → Option ℤ
ran_for now none old = old
ran_for now (some start) old = some (milliseconds (now -ℤ start))

unfoldable pub without_finalizer : FlowRun → FlowRun
without_finalizer f =
    if contains_string f.finalizers executing_finalizer
    then record f { finalizers = remove_string f.finalizers executing_finalizer }
    else f

module _ (set_condition : SetCondition) (now : ℤ) where
  unfoldable pub set_flow_run_condition : FlowRun → Condition → FlowRun
  set_flow_run_condition f c =
      let c' = record c { last_transition_time = or_now now c.last_transition_time } in
      record f {
        status = record f.status {
          conditions = set_condition f.status.conditions c';
          observed_generation = f.generation;
        };
      }

  -- The object that the two writes of `finishFlowRun` send.
  unfoldable pub finished : FlowRun → FlowRunPhase → String → Message → FlowRun
  unfolding set_flow_run_condition
  finished f phase reason msg =
      let g =
        set_flow_run_condition
          (record f {
            labels = insert phase_label (phase_text phase) f.labels;
            status = record f.status { phase = phase; completion_time = some now; message = msg };
          })
          (record {
            type = phase_text phase;
            status = true;
            reason = reason;
            message = msg;
            last_transition_time = some now;
          }) in
      record g {
        status = record g.status {
          duration_millis = ran_for now g.status.start_time g.status.duration_millis;
        };
      }

  unfoldable pub finish_flow_run : FlowRun → FlowRunPhase → String → Message → Plan
  unfolding finished without_finalizer
  finish_flow_run f phase reason msg =
      let g = finished f phase reason msg in
      write (status_update g) (write (metadata_update (without_finalizer g)) (return done))

  unfoldable pub fail_flow_run : FlowRun → Message → Plan
  unfolding finish_flow_run
  fail_flow_run f msg = finish_flow_run f failed "FlowRunFailed" msg

  unfoldable pub cancel_flow_run : FlowRun → Message → Plan
  unfolding finish_flow_run
  cancel_flow_run f msg = finish_flow_run f cancelled "FlowRunCancelled" msg
