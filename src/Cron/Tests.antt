-- ===== src/Cron/Tests.antt =====
-- A limit of two in a minute, and fires around the end of the window.
use kubezap_operator.Base.{◌*◌, ◌≤◌, ◌≡◌, refl, none, some, [], ◌∷◌, arith}
use kubezap_operator.Cron.{CooldownPolicy, TriggerStatus, second, fires}
use kubezap_operator.Cron.Laws.{calm, calmly, fires-Within}

abbrev policy : CooldownPolicy
policy = record { max_invocations = 2; window = none }

abbrev idle : TriggerStatus
idle = record { last_triggered_time = none; last_result = ""; current_invocation_count = 0 }

abbrev full : TriggerStatus
full = record {
  last_triggered_time = some 0;
  last_result = "Success";
  current_invocation_count = 2;
}

third_is_limited : fires (some policy) (calmly (0 ∷ second ∷ (2 * second) ∷ [])) idle ≡ 2
unfolding fires
third_is_limited = refl

-- Three FlowRuns within three seconds.
window_does_not_roll :
    fires (some policy) (calmly (0 ∷ (59 * second) ∷ (60 * second) ∷ (61 * second) ∷ [])) idle ≡ 4
unfolding fires
window_does_not_roll = refl

fires-Within_example : fires (some policy) ((second, calm) ∷ (59 * second, calm) ∷ []) full ≤ 0
fires-Within_example =
    fires-Within 1 none 0 ((second, calm) ∷ (59 * second, calm) ∷ []) full
      (omega arith, (omega arith, tt)) refl
