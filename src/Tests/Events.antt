-- ===== src/Tests/Events.antt =====
-- Runs of the program under the events of its informers.
use naavik.Common.{
  ◌∷◌, true, List, [], some, none, ◌≡◌, refl, is_empty, is_some, ◌==◌, Bool-cases, inl, inr, String,
}
use naavik.Common.Table
use naavik.Common.Text.{to_lower}
use naavik.Common.Types.{EventType}
use naavik.Resources.{Object}
use naavik.Cache.TrafficConfigs
use naavik.Handlers.{Caches, Setting, Outcome, Trail, handle_rate_limiter, handle_virtual_service}
use naavik.Handlers.TrafficConfig
use naavik.Handlers.TrafficConfig.{configs_of}
use naavik.Handlers.Kept.{open_with}
use naavik.Writes.{Write, writes_of_all}
use naavik.Writes.Returns.{IsAnswering}
use naavik.Events.Whole.{IsComplete}
use naavik.Events.Rounds.{run_event, run_event-reports, run_event-queue, trigger-writes}
use naavik.Tests.RateLimits.{limited, world, compiles}
use naavik.Tests.Data.{params}
use naavik.Handlers.ReadOnly.{is_quiet}
use naavik.Handlers.Reports.{is_reported}
use naavik.Events.{Delegate, Queued, Keys, add_func, process_event}
use naavik.Events.Consistent.{IsConsistent}
use naavik.Events.Invariant.{Reach-IsConsistent}
use naavik.Events.Silence.{process_event-runs, Reach-silent}
use naavik.Events.Steps.{
  State, Reach, at_start, then_step, object_added, item_processed, initial, enqueue,
  process_next_item,
}
use naavik.Tests.Data.{tc, web_calls_pay, live, read_only, no_caches}

abbrev keys : Keys
keys = record {
  meta_namespace_key = λ (obj : Object). some "payments-qa/pay";
  deletion_key = λ (obj : Object). some "payments-qa/pay";
}

abbrev relation_item : Queued
relation_item = record {
  key = "payments-qa/pay";
  event_type = EventType.add;
  obj = Object.dependency web_calls_pay;
  old_obj = none;
  retry_count = 0;
  on_status_override = none;
}

abbrev config_item : Queued
config_item = record relation_item {
  event_type = EventType.update;
  obj = Object.traffic_config tc;
  old_obj = some (Object.traffic_config tc);
}

-- The lease is held by another replica.
abbrev Standby : Setting → Type 0
Standby setting = setting ≡ read_only

abbrev received : State
received = enqueue initial Delegate.dependencies relation_item

abbrev ran :
    (outcome : Outcome) × (process_event Delegate.dependencies read_only received.caches
        relation_item
      ≡ some outcome)
ran = process_event-runs Delegate.dependencies read_only received.caches relation_item

relation_received : Reach keys Standby received
unfolding add_func enqueue
relation_received =
    then_step at_start
      (object_added Delegate.dependencies (Object.dependency web_calls_pay) relation_item refl)

abbrev processed : State
processed = process_next_item received [] Delegate.dependencies relation_item ran.0

relation_processed : Reach keys Standby processed
unfolding enqueue
relation_processed =
    then_step relation_received
      (item_processed [] [] Delegate.dependencies relation_item read_only ran.0 refl refl ran.1)

Reach-IsConsistent_example : IsConsistent processed.caches
Reach-IsConsistent_example = Reach-IsConsistent keys Standby relation_processed

Standby-is_quiet : (setting : Setting) → Standby setting → is_quiet setting ≡ true
Standby-is_quiet setting e = rw e refl

Reach-silent_example : is_empty processed.calls ≡ true
Reach-silent_example = Reach-silent keys Standby Standby-is_quiet relation_processed

answering : IsAnswering world live.params
answering = record { compiles = compiles; lists = λ name selector. refl }

-- A configuration with limits is cached.
abbrev complete_caches : Caches
complete_caches = record no_caches {
  traffic_configs = TrafficConfigs.add_traffic_config_to_cache params [] limited;
}

is_complete : IsComplete complete_caches
unfolding configs_of TrafficConfigs.get_traffic_config_entry Table.get
    TrafficConfigs.add_traffic_config_to_cache to_lower naavik.TrafficUtil.get_env Table.set
    naavik.TrafficUtil.get_identity Table.values
is_complete = record {
  whole = λ (identity : String). elim (Bool-cases ("payments" == to_lower identity)) [
    | inl same ↦ rw same refl
    | inr other ↦ rw other refl
  ];
}

abbrev limited_item : Queued
limited_item = record config_item { obj = Object.traffic_config limited }

run_event-reports_example :
    (outcome : Outcome) × (writes : List Write) × (run_event world Delegate.traffic_configs live
        complete_caches limited_item
      ≡ some (outcome, writes))
    × (is_reported (some outcome) ≡ true)
run_event-reports_example =
    run_event-reports world Delegate.traffic_configs live answering complete_caches limited_item
      is_complete refl

abbrev waiting : State
waiting = record initial { caches = complete_caches }

run_event-queue_example :
    (outcome : Outcome) × (writes : List Write) × (run_event world Delegate.traffic_configs live
        complete_caches limited_item
      ≡ some (outcome, writes))
    × ((process_next_item waiting
          ((Delegate.dependencies, relation_item) ∷ [])
          Delegate.traffic_configs
          limited_item
          outcome).queue
        ≡ (Delegate.dependencies, relation_item) ∷ [])
run_event-queue_example =
    run_event-queue world Delegate.traffic_configs live answering waiting
      ((Delegate.dependencies, relation_item) ∷ []) limited_item is_complete refl

trigger-writes_example :
    (trail : Trail) × (TrafficConfig.trigger_traffic_config_handler_for_identity live
        complete_caches "PAYMENTS"
        (record { calls = []; status_chan = open_with []; children = [] })
      ≡ some trail)
    × (trail.calls
        ≡ handle_rate_limiter limited EventType.update ∷ handle_virtual_service limited ∷ [])
    × (is_some (writes_of_all world live complete_caches trail.calls) ≡ true)
unfolding TrafficConfig.configs_of TrafficConfigs.get_traffic_config_entry Table.get
    TrafficConfigs.add_traffic_config_to_cache to_lower naavik.TrafficUtil.get_env Table.set
    naavik.TrafficUtil.get_identity Table.values naavik.TrafficUtil.is_disabled
    naavik.TrafficUtil.is_ignored TrafficConfig.calls_for TrafficConfig.configs_of_all
    naavik.Cache.Dependencies.get_dependents_for_identity
trigger-writes_example =
    trigger-writes world live complete_caches "PAYMENTS" [] [] answering is_complete
