-- ===== src/Cron.antt =====
-- internal/controller/cron_scheduler.go: CronScheduler, one fire of a cron Trigger with its cooldown,
-- and the entries. Times are nanoseconds since 1970; no other writer of the status comes between.
pub mod Laws
mod Tests
use kubezap_operator.Base.{
  ℕ, zero, suc, ◌+◌, ◌*◌, ◌/◌, String, Bool, true, false, Option, none, some, List, [], ◌∷◌, ◌==◌,
  ltb, leb, eqb, if◌then◌else◌,
}

pub record CooldownPolicy : Type 0 where
  pub max_invocations : ℕ
  pub window : Option ℕ

pub record TriggerStatus : Type 0 where
  pub last_triggered_time : Option ℕ
  pub last_result : String
  pub current_invocation_count : ℕ

abbrev pub second : ℕ
second = 1000000000

-- A metav1.Time is written with whole seconds.
unfoldable pub stamp : ℕ → ℕ
stamp t = t / second * second

abbrev pub stamped : Option ℕ → Option ℕ
unfolding stamp
stamped none = none
stamped (some t) = some (stamp t)

-- The same text of two times.
abbrev pub same_time : Option ℕ → Option ℕ → Bool
unfolding stamp
same_time none none = true
same_time (some s) (some t) = eqb (stamp s) (stamp t)
same_time _ _ = false

-- A merge patch from `base` to `modified` (client.MergeFrom): a field that reads alike in both keeps
-- its value on the server.
unfoldable pub merge : TriggerStatus → TriggerStatus → TriggerStatus → TriggerStatus
unfolding stamp
merge base modified server = record {
  last_triggered_time =
      if same_time base.last_triggered_time modified.last_triggered_time
      then server.last_triggered_time
      else stamped modified.last_triggered_time;
  last_result =
      if base.last_result == modified.last_result then server.last_result else modified.last_result;
  current_invocation_count =
      if eqb base.current_invocation_count modified.current_invocation_count
      then server.current_invocation_count
      else modified.current_invocation_count;
}

-- A patch is answered, or an error is returned, with or without an effect.
pub data PatchAnswer : Type 0 where
  patched lost refused : PatchAnswer

pub data CreateAnswer : Type 0 where
  created exists failed : CreateAnswer

-- What the API server does in one fire.
pub record Answers : Type 0 where
  pub found : Bool
  pub cooldown_patch : PatchAnswer
  pub create : CreateAnswer
  pub result_patch : PatchAnswer

abbrev pub landed : PatchAnswer → TriggerStatus → TriggerStatus → TriggerStatus
landed refused old new = old
landed patched old new = new
landed lost old new = new

-- After the cooldown check: the fire ends, or goes on with the local copy of the status. Each has the
-- status on the server.
pub data Gate : Type 0 where
  stopped : TriggerStatus → Gate
  passed : TriggerStatus → TriggerStatus → Gate

-- A patch whose error ends the fire; the answer refreshes the local copy, whose time is then set.
abbrev pub after_patch : PatchAnswer → ℕ → TriggerStatus → TriggerStatus → Gate
after_patch patched now old new = passed (record new { last_triggered_time = some now }) new
after_patch lost now old new = stopped new
after_patch refused now old new = stopped old

-- The window that a policy without one has.
abbrev pub window_or_default : Option ℕ → ℕ
window_or_default none = 60 * second
window_or_default (some window) = window

unfoldable pub limit_reached : PatchAnswer → TriggerStatus → Gate
unfolding merge
limit_reached answer status =
    stopped
      (landed answer status (merge status (record status { last_result = "RateLimited" }) status))

unfoldable pub count_one : PatchAnswer → ℕ → TriggerStatus → Gate
unfolding merge
count_one answer now status = after_patch answer now status (
    merge status (record status { current_invocation_count = suc status.current_invocation_count })
      status)

-- The status with a window that begins now.
unfoldable pub opened : ℕ → TriggerStatus → TriggerStatus
unfolding merge
opened now status =
    merge status (record status { current_invocation_count = 1; last_triggered_time = some now })
      status

-- The local copy is the answer of the server where no window was open before.
abbrev pub after_open : PatchAnswer → TriggerStatus → TriggerStatus → Gate
after_open patched old new = passed new new
after_open lost old new = stopped new
after_open refused old new = stopped old

abbrev pub in_window : PatchAnswer → ℕ → ℕ → ℕ → TriggerStatus → Option ℕ → Gate
in_window answer now max window status none = after_open answer status (opened now status)
in_window answer now max window status (some start) =
    if ltb now (start + window)
    then if leb max status.current_invocation_count
      then limit_reached answer status
      else count_one answer now status
    else after_patch answer now status (opened now status)

-- Step 2. A policy of 0 invocations is none.
unfoldable pub check_cooldown : PatchAnswer → ℕ → Option CooldownPolicy → TriggerStatus → Gate
unfolding limit_reached count_one opened
check_cooldown answer now none status = passed status status
check_cooldown answer now (some policy) status =
    if leb policy.max_invocations 0
    then passed status status
    else in_window answer now policy.max_invocations (window_or_default policy.window) status
        status.last_triggered_time

-- Whether a FlowRun was created, and the status on the server.
pub record Fired : Type 0 where
  pub has_created : Bool
  pub status : TriggerStatus

abbrev pub ended : TriggerStatus → Fired
ended status = record { has_created = false; status = status }

-- Steps 3 and 4.
abbrev pub create_flow_run : Answers → ℕ → CreateAnswer → TriggerStatus → TriggerStatus → Fired
unfolding merge
create_flow_run answers now created local server = record {
  has_created = true;
  status = landed answers.result_patch server (
      merge local (record local { last_triggered_time = some now; last_result = "Success" })
        server);
}
create_flow_run answers now exists local server = ended server
create_flow_run answers now failed local server = ended server

abbrev pub through_gate : Answers → ℕ → Gate → Fired
through_gate answers now (stopped status) = ended status
through_gate answers now (passed local server) =
    create_flow_run answers now answers.create local server

-- The function that Register adds to the schedule, at the time `now`.
unfoldable pub fire : Answers → ℕ → Option CooldownPolicy → TriggerStatus → Fired
unfolding check_cooldown
fire answers now cooldown status =
    if answers.found
    then through_gate answers now (check_cooldown answers.cooldown_patch now cooldown status)
    else ended status

-- How many FlowRuns the fires at the given times create.
abbrev pub one_if : Bool → ℕ
one_if true = 1
one_if false = 0

unfoldable pub fires : Option CooldownPolicy → List (ℕ × Answers) → TriggerStatus → ℕ
unfolding fire
fires cooldown [] status = 0
fires cooldown ((now, answers) ∷ rest) status =
    let fired = fire answers now cooldown status in
    one_if fired.has_created + fires cooldown rest fired.status
