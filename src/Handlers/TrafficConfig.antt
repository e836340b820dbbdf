-- ===== src/Handlers/TrafficConfig.antt =====
-- internal/handler/trafficconfig/traffic_config_handler.go.
use naavik.Common.{String, Bool, not, ◌||◌, List, [], ◌∷◌, ◌++◌, Option, none, some, if◌then◌else◌}
use naavik.Common.Table
use naavik.Common.Types.{EventType, feature_virtual_service, feature_throttle_filter}
use naavik.Options.{is_feature_enabled, is_cache_warmed_up}
use naavik.Resources
use naavik.Resources.{Object}
use naavik.TrafficUtil.{is_disabled, is_ignored}
use naavik.Controller.Status.{new_event_process_status, create_child_event}
use naavik.Cache.TrafficConfigs.{
  TrafficConfigEntry, add_traffic_config_to_cache, delete_traffic_config_from_cache,
  get_traffic_config_entry,
}
use naavik.Cache.Dependencies.{get_dependents_for_identity}
use naavik.Handlers.{
  Caches, Setting, StatusChan, Call, Trail, Outcome, finish, start, on_cast, handle_rate_limiter,
  handle_virtual_service, traffic_config_on_status,
}

-- The type assertion.
abbrev pub as_traffic_config : Object → Option Resources.TrafficConfig
as_traffic_config (Object.traffic_config tc) = some tc
as_traffic_config _ = none

-- What the three operations do last, after the cache is brought up to date.
unfoldable pub calls_for : Setting → Resources.TrafficConfig → EventType → List Call
unfolding is_cache_warmed_up is_feature_enabled
calls_for setting tc event =
    if setting.is_read_only
    then []
    else if not (is_cache_warmed_up setting.params setting.elapsed)
    then []
    else (if is_feature_enabled setting.params feature_throttle_filter
        then handle_rate_limiter tc event ∷ []
        else [])
      ++ (if is_feature_enabled setting.params feature_virtual_service
          then handle_virtual_service tc ∷ []
          else [])

abbrev pub is_skipped : Setting → Resources.TrafficConfig → Bool
is_skipped setting tc = is_disabled tc || is_ignored setting.params tc

-- The operations on a TrafficConfig.
unfoldable pub config_added :
    Setting → Caches → Resources.TrafficConfig → StatusChan → Option Outcome
config_added setting caches tc ch =
    if is_skipped setting tc
    then finish caches (start ch)
    else finish
        (record caches {
          traffic_configs = add_traffic_config_to_cache setting.params caches.traffic_configs tc;
        })
        (record (start ch) { calls = calls_for setting tc EventType.add })

unfoldable pub config_updated :
    Setting → Caches → Resources.TrafficConfig → StatusChan → Option Outcome
config_updated setting caches tc ch =
    if is_skipped setting tc
    then finish caches (start ch)
    else finish caches (record (start ch) { calls = calls_for setting tc EventType.update })

unfoldable pub config_deleted :
    Setting → Caches → Resources.TrafficConfig → StatusChan → Option Outcome
config_deleted setting caches tc ch =
    finish
      (record caches {
        traffic_configs = delete_traffic_config_from_cache setting.params caches.traffic_configs tc;
      })
      (record (start ch) { calls = calls_for setting tc EventType.delete })

unfoldable pub added : Setting → Caches → Object → StatusChan → Option Outcome
unfolding config_added
added setting caches obj ch =
    on_cast (as_traffic_config obj) (finish caches (start ch))
      (λ tc. config_added setting caches tc ch)

unfoldable pub updated : Setting → Caches → Object → Object → StatusChan → Option Outcome
unfolding config_updated
updated setting caches new_obj old_obj ch =
    on_cast (as_traffic_config new_obj) (finish caches (start ch))
      (λ tc. config_updated setting caches tc ch)

unfoldable pub deleted : Setting → Caches → Object → StatusChan → Option Outcome
unfolding config_deleted
deleted setting caches obj ch =
    on_cast (as_traffic_config obj) (finish caches (start ch))
      (λ tc. config_deleted setting caches tc ch)

-- The trail after a child's run.
abbrev pub with_child : Trail → StatusChan → Option Outcome → Option Trail
with_child trail parent none = none
with_child trail parent (some outcome) = some (record {
  calls = trail.calls ++ outcome.trail.calls;
  status_chan = parent;
  children = trail.children ++ outcome.trail.status_chan ∷ [];
})

abbrev pub run_child :
    Setting
    → Caches
    → Resources.TrafficConfig
    → Trail
    → Option (StatusChan × StatusChan)
    → Option Trail
run_child setting caches tc trail none = none
run_child setting caches tc trail (some (none, parent)) = none
run_child setting caches tc trail (some (some child, parent)) =
    with_child trail parent (config_updated setting caches tc (some child))

-- One turn of either loop: a child event, on which `Updated` runs. On a nil status channel the
-- child's context is zero, and its use panics.
unfoldable pub trigger_config : Setting → Caches → Resources.TrafficConfig → Trail → Option Trail
unfolding config_updated create_child_event new_event_process_status
trigger_config setting caches tc trail =
    run_child setting caches tc trail (
      create_child_event new_event_process_status (some traffic_config_on_status) trail.status_chan)

abbrev pub and_then : Option Trail → (Trail → Option Trail) → Option Trail
and_then none f = none
and_then (some trail) f = f trail

unfoldable pub trigger_configs :
    Setting → Caches → List Resources.TrafficConfig → Trail → Option Trail
unfolding trigger_config
trigger_configs setting caches [] trail = some trail
trigger_configs setting caches (tc ∷ configs) trail =
    and_then (trigger_config setting caches tc trail)
      (λ next. trigger_configs setting caches configs next)

abbrev configs_in : Option TrafficConfigEntry → List Resources.TrafficConfig
configs_in none = []
configs_in (some entry) = Table.values entry.env_traffic_config

-- The configurations of an identity, in the order of the loop over them.
unfoldable pub configs_of : Caches → String → List Resources.TrafficConfig
configs_of caches identity = configs_in (get_traffic_config_entry caches.traffic_configs identity)

unfoldable pub configs_of_all : Caches → List String → List Resources.TrafficConfig
unfolding configs_of
configs_of_all caches [] = []
configs_of_all caches (dependent ∷ dependents) =
    configs_of caches dependent ++ configs_of_all caches dependents

-- `TriggerTrafficConfigHandlerForIdentity`, with the calls recorded; Writes makes them, and has their
-- panics. The identity's own configurations, and then those of its
-- dependents. The source identity that the code puts into a child's context is not read: `Updated`
-- makes contexts of its own.
unfoldable pub trigger_traffic_config_handler_for_identity :
    Setting → Caches → String → Trail → Option Trail
unfolding configs_of configs_of_all trigger_configs
trigger_traffic_config_handler_for_identity setting caches identity trail =
    and_then (trigger_configs setting caches (configs_of caches identity) trail) (λ next.
      trigger_configs setting caches
        (configs_of_all caches (get_dependents_for_identity caches.dependencies identity)) next)

-- The end of a handler that triggered.
abbrev pub finish_after : Caches → Option Trail → Option Outcome
finish_after caches none = none
finish_after caches (some trail) = finish caches trail
