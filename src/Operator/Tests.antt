-- ===== src/Operator/Tests.antt =====
-- The reconciler put together, on the namespace of Run/Namespace.antt.
use kubezap_operator.Base.{refl, ◌≢◌, arith, String, true, false, none, [], ◌∷◌, All}
use kubezap_operator.Base.Int.{pos}
use kubezap_operator.Run.Plan.{found, not_found, landed, requeue}
use kubezap_operator.Run.Reconcile.{reconcile}
use kubezap_operator.Run.Reconcile.Kept.{Keeps}
use kubezap_operator.Run.Namespace.{fetch_then_store, half_done, accept_all}
use kubezap_operator.Step.Tests.{step_runtime}
use kubezap_operator.When.Tests.{compile_text, eval_text}
use kubezap_operator.Operator.{Outside, operator}
use kubezap_operator.Operator.Laws.{operator-Keeps}
use kubezap_operator.Operator.Rest.{last_outcome, operator_rests}

abbrev outside : Outside String
outside = record {
  execution_timeout = pos 0;
  ttl_succeeded = pos 0;
  ttl_failed = pos 0;
  set_condition = λ cs c. c ∷ cs;
  parse_duration = λ s. none;
  cel_env_ready = true;
  disable_cel_cache = false;
  compile = compile_text;
  eval = eval_text;
  cel_cache = [];
  step_runtime = step_runtime;
  step_duration = λ s. pos 0;
  flow = found fetch_then_store;
  refetch = not_found;
  get_trigger = λ i name. not_found;
  list_runs = λ trigger phase. found [];
}

operator-Keeps_example :
    All
      (Keeps half_done.status.steps)
      (landed accept_all 0 (reconcile (operator outside) half_done))
operator-Keeps_example = operator-Keeps outside half_done accept_all

operator_rests_example : last_outcome (λ n. outside) (λ n. accept_all) 5 0 half_done ≢ requeue
operator_rests_example =
    operator_rests (λ n. outside) (λ n. accept_all) fetch_then_store 5 half_done (λ n. refl)
      (omega arith)
