-- ===== src/Resource/Tests.antt =====
-- A Trigger on ConfigMaps with a cooldown of a minute.
use kubezap_operator.Base.{
  String, ◌≡◌, ◌≤◌, refl, Bool, true, ◌&&◌, ◌==◌, none, some, List, [], ◌∷◌, arith, if◌then◌else◌,
}
use kubezap_operator.Base.Int.{ℤ, pos, ◌-ℤ◌}
use kubezap_operator.Base.Assoc.{lookup}
use kubezap_operator.Base.Text.{◌⧺◌, size, strip_prefix}
use kubezap_operator.Resource.{
  Unstructured, unstructured, Library, WatchedTrigger, added, Reading, update_func,
}
use kubezap_operator.Resource.Names.{
  parse-api_version_of, api_version_of, sanitize_name, sanitize_name-IsPlain, IsPlain, BeginsPlain,
  EndsPlain, parse_api_version,
}
use kubezap_operator.Resource.Watchers.{
  start, new_resource_watcher, calls, start_call, register_call, ResourceWatcher, register,
  deregister, run_watcher, max_attempts, gave_up, unsynced,
}
use kubezap_operator.Resource.Watchers.Laws.{IsCovered, new-calls-IsCovered}
use kubezap_operator.Resource.Events.{cooldown_key, notify, resolve_plural}
use kubezap_operator.Resource.Cleared.{cooldowns_cleared}
use kubezap_operator.Resource.Spacing.{Step, event, sweep, sent, SpacedFrom, sent_spaced}

abbrev library : Library String Bool
library = record {
  to_lower = λ s. s;
  decimal = λ n. "7";
  nested_field = λ content path. content;
  marshal = λ content. content;
  as_selector = λ b. some (λ labels. b);
}

abbrev trigger : WatchedTrigger Bool
trigger = record {
  namespace = "apps";
  name = "watch";
  flow_ref_name = "sync";
  resource = record {
    api_version = "v1";
    kind = "ConfigMap";
    namespace = "";
    label_selector = none;
    events = "create" ∷ "update" ∷ [];
    watch_fields = ".data" ∷ [];
    cooldown = some (pos 60000000000);
  };
}

abbrev config : String → Unstructured String
config content = record { name = "config"; namespace = "apps"; labels = []; object = content }

abbrev at_second : ℤ → Reading
at_second t = record { checked = t; marked = t; unix = t; random_hex = "0a1b" }

abbrev own_key : String
own_key = "apps/watch/apps/config/ADDED"

abbrev steps : List (Step String Bool)
steps =
    event trigger (config "a") added (at_second (pos 0))
    ∷ event trigger (config "b") added (at_second (pos 30000000000))
    ∷ sweep (pos 40000000000)
    ∷ event trigger (config "c") added (at_second (pos 70000000000))
    ∷ []

test_sent : sent library own_key steps [] ≡ pos 0 ∷ pos 70000000000 ∷ []
unfolding sent ◌-ℤ◌
test_sent = refl

sent_spaced_example : SpacedFrom (pos 60000000000) none (sent library own_key steps [])
sent_spaced_example =
    sent_spaced library own_key (pos 60000000000) refl (omega arith) (pos 0) steps [] (omega arith)
      ((λ p. refl), ((λ p. refl), ((λ p. refl), tt)))

-- The watched fields are as they were.
test_unchanged :
    (notify library trigger
      (update_func (unstructured (config "a")) (unstructured (config "a")))
      (at_second (pos 0))
      []).0
    ≡ none
unfolding notify
test_unchanged = refl

test_name : sanitize_name (λ s. s) "my.config_map-" ≡ "my-config-map"
unfolding sanitize_name
test_name = refl

test_api_version : parse_api_version "apps/v1" ≡ ("apps", "v1")
unfolding parse_api_version strip_prefix
test_api_version = refl

test_core : parse_api_version "v1" ≡ ("", "v1")
unfolding parse_api_version strip_prefix
test_core = refl

sanitize_name-IsPlain_example :
    (size (sanitize_name (λ s. s) "my.config_map-") ≤ 32)
    × IsPlain (sanitize_name (λ s. s) "my.config_map-")
    × BeginsPlain (sanitize_name (λ s. s) "my.config_map-")
    × EndsPlain (sanitize_name (λ s. s) "my.config_map-")
sanitize_name-IsPlain_example = sanitize_name-IsPlain (λ s. s) "my.config_map-"

test_gives_up : run_watcher max_attempts (λ left. unsynced) ≡ gave_up
unfolding run_watcher
test_gives_up = refl

test_plural :
    resolve_plural (λ s. s) (some (some (("policy", "policies") ∷ []))) "policy" ≡ "policies"
unfolding resolve_plural
test_plural = refl

abbrev fresh : ResourceWatcher
fresh = start (new_resource_watcher true)

new-calls-IsCovered_example : IsCovered (
    calls
      (start_call ∷ register_call "apps/watch" true ∷ register_call "apps/watch" true ∷ [])
      (new_resource_watcher true))
new-calls-IsCovered_example =
    new-calls-IsCovered true
      (start_call ∷ register_call "apps/watch" true ∷ register_call "apps/watch" true ∷ [])

parse-api_version_of_example : parse_api_version (api_version_of ("apps", "v1")) ≡ ("apps", "v1")
parse-api_version_of_example = parse-api_version_of "apps" "v1" (omega arith) (omega arith)

cooldowns_cleared_example :
    (lookup
        (cooldown_key library trigger (config "a") added)
        (deregister ("apps" ⧺ "/" ⧺ "watch") fresh).cooldown_tracker
      ≡ (if "apps" == "apps" && "watch" == "watch"
          then none
          else lookup (cooldown_key library trigger (config "a") added) []))
    × (lookup
          (cooldown_key library trigger (config "a") added)
          (register ("apps" ⧺ "/" ⧺ "watch") true fresh).cooldown_tracker
        ≡ (if "apps" == "apps" && "watch" == "watch"
            then none
            else lookup (cooldown_key library trigger (config "a") added) []))
cooldowns_cleared_example =
    cooldowns_cleared library trigger trigger (config "a") added (omega arith) (omega arith)
      (omega arith) (omega arith) true fresh
