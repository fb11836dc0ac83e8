-- ===== src/Resource/Watchers.antt =====
-- internal/controller/resource_watcher.go: the watchers and the cooldowns. Each section that holds the
-- mutex is one step on the state.
pub mod Laws
use kubezap_operator.Base.{
  ℕ, zero, suc, ◌+◌, ◌*◌, String, ◌≡◌, refl, Bool, true, false, not, ◌&&◌, ◌||◌, Option, none, some,
  List, [], ◌∷◌, map, any, is_empty, contains_string, ◌==◌, if◌then◌else◌, arith,
}
use kubezap_operator.Base.Int.{ℤ, pos, ◌-ℤ◌, ltb_ℤ}
use kubezap_operator.Base.Assoc.{Assoc, lookup, insert, delete}
use kubezap_operator.Base.Text.{◌⧺◌, strip_prefix, split}

abbrev pub hour : ℤ
hour = pos (60 * 60 * 1000000000)

abbrev pub CooldownTracker : Type 0
CooldownTracker = Assoc ℤ

-- `time.Since(last) < cooldown`.
abbrev pub within : ℤ → ℤ → Option ℤ → Bool
within now cooldown none = false
within now cooldown (some last) = ltb_ℤ (now -ℤ last) cooldown

-- One event under a key: whether it passes, and the entries after it. The mutex is held from the first
-- reading of the clock, `checked`, to the second, `marked`.
unfoldable pub pass_cooldown : ℤ → ℤ → Option ℤ → String → CooldownTracker → Bool × CooldownTracker
unfolding lookup insert
pass_cooldown checked marked none key tracker = (true, tracker)
pass_cooldown checked marked (some cooldown) key tracker =
    if not (ltb_ℤ (pos 0) cooldown)
    then (true, tracker)
    else if within checked cooldown (lookup key tracker)
    then (false, tracker)
    else (true, insert key marked tracker)

-- One sweep of runCooldownEviction: `t.Before(cutoff)` is dropped.
unfoldable pub evict : ℤ → CooldownTracker → CooldownTracker
evict now [] = []
evict now ((key, t) ∷ rest) =
    let later = evict now rest in
    let kept = (key, t) ∷ later in if ltb_ℤ t (now -ℤ hour) then later else kept

abbrev pub is_some {ℓ} : {A : Type ℓ} → Option A → Bool
is_some none = false
is_some (some a) = true

-- The entries whose key begins with the prefix go.
unfoldable pub clear_prefix : String → CooldownTracker → CooldownTracker
unfolding strip_prefix
clear_prefix prefix [] = []
clear_prefix prefix ((key, t) ∷ rest) =
    let later = clear_prefix prefix rest in
    let kept = (key, t) ∷ later in if is_some (strip_prefix prefix key) then later else kept

-- ResourceWatcher. A context is a number, that of the next one `next_context`; `cancelled` has those
-- that are cancelled. The contexts end with the manager's, too.
pub record ResourceWatcher : Type 0 where
  pub has_dynamic_client : Bool
  pub is_started : Bool
  pub watchers : Assoc ℕ
  pub cooldown_tracker : CooldownTracker
  pub cancelled : List ℕ
  pub next_context : ℕ

-- NewResourceWatcher, with a dynamic client or none.
abbrev pub new_resource_watcher : Bool → ResourceWatcher
new_resource_watcher has_dynamic_client = record {
  has_dynamic_client = has_dynamic_client;
  is_started = false;
  watchers = [];
  cooldown_tracker = [];
  cancelled = [];
  next_context = 0;
}

-- Start keeps the manager's context.
abbrev pub start : ResourceWatcher → ResourceWatcher
start w = record w { is_started = true }

abbrev pub stop_watcher : Option ℕ → List ℕ → List ℕ
stop_watcher none cancelled = cancelled
stop_watcher (some context) cancelled = context ∷ cancelled

unfoldable pub deregister : String → ResourceWatcher → ResourceWatcher
unfolding clear_prefix lookup delete
deregister key w = record w {
  watchers = delete key w.watchers;
  cancelled = stop_watcher (lookup key w.watchers) w.cancelled;
  cooldown_tracker = clear_prefix (key ⧺ "/") w.cooldown_tracker;
}

abbrev pub start_watcher : String → ResourceWatcher → ResourceWatcher
start_watcher key w = record w {
  watchers = insert key w.next_context w.watchers;
  next_context = w.next_context + 1;
}

-- Register, of a Trigger of this key, with a spec.resource or none. The Trigger controller makes one
-- such call at a time for a key.
unfoldable pub register : String → Bool → ResourceWatcher → ResourceWatcher
unfolding deregister insert
register key has_resource w =
    let rest = deregister key w in
    if not has_resource || not w.has_dynamic_client || not w.is_started
    then rest
    else start_watcher key rest

-- How an attempt of runWatcher to fill its cache ends: with no handler, or cancelled, or filled, or not
-- filled, and then cancelled in the wait for the next attempt or not.
pub data SyncResult : Type 0 where
  no_handler stopped synced unsynced interrupted : SyncResult

pub data WatchEnd : Type 0 where
  ended watching gave_up : WatchEnd

-- The last attempt is not waited after.
abbrev pub after_sync : SyncResult → Bool → WatchEnd → WatchEnd
after_sync no_handler last later = ended
after_sync stopped last later = ended
after_sync synced last later = watching
after_sync unsynced last later = later
after_sync interrupted true later = later
after_sync interrupted false later = ended

abbrev is_last : ℕ → Bool
is_last zero = true
is_last (suc n) = false

-- The attempts that are left, with their results; `maxAttempts` is 5.
unfoldable pub run_watcher : ℕ → (ℕ → SyncResult) → WatchEnd
run_watcher zero results = gave_up
run_watcher (suc left) results = after_sync (results left) (is_last left) (run_watcher left results)

abbrev pub max_attempts : ℕ
max_attempts = 5

-- A watcher that gives up deregisters its key.
unfoldable pub settle_watcher : String → WatchEnd → ResourceWatcher → ResourceWatcher
unfolding deregister
settle_watcher key gave_up w = deregister key w
settle_watcher key _ w = w

-- The calls of a ResourceWatcher that have to do with its watchers.
pub data Call : Type 0 where
  start_call : Call
  register_call : String → Bool → Call
  deregister_call : String → Call
  watcher_call : String → WatchEnd → Call

unfoldable pub calls : List Call → ResourceWatcher → ResourceWatcher
unfolding register deregister settle_watcher
calls [] w = w
calls (start_call ∷ rest) w = calls rest (start w)
calls (register_call key has_resource ∷ rest) w = calls rest (register key has_resource w)
calls (deregister_call key ∷ rest) w = calls rest (deregister key w)
calls (watcher_call key end ∷ rest) w = calls rest (settle_watcher key end w)
