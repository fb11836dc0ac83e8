-- ===== src/Run/Namespace.antt =====
-- A small namespace to run FlowRunReconciler.Reconcile on: the steps `fetch` and, after it, `store`,
-- whose action always succeeds, and FlowRuns in several states.
use kubezap_operator.Base.{ℕ, String, true, Option, none, some, List, [], ◌∷◌}
use kubezap_operator.Base.Int.{ℤ, pos}
use kubezap_operator.Api.Flow.{FlowStep, FlowSpec, FailurePolicy, OnFailureAction, transform}
use kubezap_operator.Api.FlowRun.{
  FlowRun, FlowRunPhase, StepPhase, StepRunStatus, Message, blank_status,
}
use kubezap_operator.Run.Plan.{Get, found, not_found, Reply, accepted}
use kubezap_operator.Run.Runtime.{Runtime, executed, holds, resolved}

abbrev pub step : String → List String → FlowStep
step name after = record {
  name = name;
  run_after = after;
  when = [];
  action = record {
    type = transform;
    http = none;
    transform = some (record { mappings = [] });
    publish = none;
    wait = none;
  };
  retry_policy = none;
  timeout = none;
  on_failure = OnFailureAction.unset;
}

abbrev pub flow_of : List FlowStep → FlowSpec
flow_of steps = record {
  timeout = none;
  failure_policy = FailurePolicy.fail;
  params = [];
  steps = steps;
}

abbrev pub fetch_then_store : FlowSpec
fetch_then_store = flow_of (step "fetch" [] ∷ step "store" ("fetch" ∷ []) ∷ [])

-- `fetch` and `store` wait for each other.
abbrev pub cyclic : FlowSpec
cyclic = flow_of (step "fetch" ("store" ∷ []) ∷ step "store" ("fetch" ∷ []) ∷ [])

abbrev pub status_of : String → StepPhase → StepRunStatus
status_of name phase = blank_status name phase

abbrev pub run_of : FlowRunPhase → List StepRunStatus → Option ℤ → FlowRun
run_of phase steps completed = record {
  name = "run";
  namespace = "default";
  generation = 1;
  labels = ("kubezap.io/trigger", "orders") ∷ [];
  annotations = [];
  finalizers = "kubezap.io/executing" ∷ [];
  deletion_timestamp = none;
  spec = record { flow_ref = "flow"; params = []; trigger_data = none; ttl_after_finished = none };
  status = record {
    observed_generation = 1;
    phase = phase;
    conditions = [];
    start_time = some (pos 10);
    completion_time = completed;
    steps = steps;
    message = Message.empty;
    duration_millis = none;
  };
}

abbrev pub runtime_of : Get FlowSpec → Runtime
runtime_of flow = record {
  now = pos 100;
  execution_timeout = pos 0;
  ttl_succeeded = pos 0;
  ttl_failed = pos 0;
  set_condition = λ cs c. c ∷ cs;
  parse_duration = λ text. none;
  evaluate_when = λ w results statuses event params. holds true;
  resolve_params = λ decls values results event. resolved [];
  execute_step = λ s f results params. record {
    result = executed (status_of s.name StepPhase.succeeded);
    duration = pos 5000000;
  };
  flow = flow;
  refetch = not_found;
  get_trigger = λ i name. found (
      some (record {
        max_succeeded = some 1;
        max_failed = none;
        ttl_after_succeeded = none;
        ttl_after_failed = none;
      }));
  list_runs = λ trigger phase. found (finished_runs);
}
  where
    finished_runs : List FlowRun
    finished_runs =
        run_of FlowRunPhase.succeeded [] (some (pos 40))
        ∷ run_of FlowRunPhase.succeeded [] (some (pos 30))
        ∷ []

abbrev pub accept_all : ℕ → Reply
accept_all i = accepted

abbrev pub half_done : FlowRun
half_done = run_of FlowRunPhase.running (status_of "fetch" StepPhase.succeeded ∷ []) none

abbrev pub all_done : FlowRun
all_done =
    run_of FlowRunPhase.running
      (status_of "fetch" StepPhase.succeeded ∷ status_of "store" StepPhase.succeeded ∷ []) none

abbrev pub finished_run : FlowRun
finished_run = run_of FlowRunPhase.succeeded [] (some (pos 40))

abbrev pub run_two_steps : Runtime
run_two_steps = runtime_of (found fetch_then_store)
