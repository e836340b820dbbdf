-- ===== src/Events/Rounds.antt =====
-- The round of an item with its calls made: `processItem` (internal/controller/controller.go) with
-- `HandleRateLimiter` and `HandleVirtualServiceForTrafficConfig`, on the answers of the Istio APIs.
use mathlib.Core.Path.{subst}
use naavik.Common.{
  String, true, List, [], Option, none, some, ◌≡◌, refl, ◌++◌, ap, is_some, some_of,
}
use naavik.Cache.Dependencies.{get_dependents_for_identity}
use naavik.Controller.Status.{EventProcessStatus}
use naavik.Handlers.{Call, Callback, Caches, Setting, StatusChan, Trail, Outcome}
use naavik.Handlers.Kept.{open_with}
use naavik.Handlers.Reports.{is_reported}
use naavik.Handlers.TrafficConfig.{
  as_traffic_config, configs_of, configs_of_all, trigger_traffic_config_handler_for_identity,
}
use naavik.Handlers.Triggers.{calls_in, calls_on_update, trigger-calls}
use naavik.Writes.{World, Write, writes_of_all}
use naavik.Writes.Returns.{IsAnswering, all_whole, calls-return}
use naavik.Events.{Delegate, Queued, object_or_nil, process_event}
use naavik.Events.Keeps.{process_event-all}
use naavik.Events.Queues.{process_next_item-queue}
use naavik.Events.Silence.{process_event-reports, process_event-runs}
use naavik.Events.Steps.{State, process_next_item}
use naavik.Events.Whole.{IsComplete, trail_whole, outcome_whole, trigger-whole}
use naavik.Events.Complete.{IsWhole, delegate-whole}

abbrev written : Outcome → Option (List Write) → Option (Outcome × List Write)
written outcome none = none
written outcome (some writes) = some (outcome, writes)

abbrev with_writes :
    {Clients : Type 0} → World Clients → Setting → Option Outcome → Option (Outcome × List Write)
with_writes world setting none = none
with_writes world setting (some outcome) =
    written outcome (writes_of_all world setting outcome.caches outcome.trail.calls)

-- `processItem` with its calls made; `none` is a panic of the handler or of one of the calls. A
-- handler changes no cache after its first call.
unfoldable pub run_event :
    {Clients : Type 0}
    → World Clients
    → Delegate
    → Setting
    → Caches
    → Queued
    → Option (Outcome × List Write)
unfolding process_event writes_of_all
run_event world delegate setting caches item =
    with_writes world setting (process_event delegate setting caches item)

abbrev calls_or : List Call → Option (List Call) → List Call
calls_or other none = other
calls_or other (some calls) = calls

process_event-whole :
    (delegate : Delegate) (setting : Setting) (caches : Caches) (item : Queued)
    → IsComplete caches
    → IsWhole (as_traffic_config item.obj)
    → outcome_whole (process_event delegate setting caches item) ≡ true
process_event-whole delegate setting caches item complete h =
    process_event-all (λ o. outcome_whole o ≡ true) delegate setting caches item
      (delegate-whole setting caches complete delegate item.obj (object_or_nil item.old_obj) h)

module _ {Clients : Type 0} (world : World Clients) (delegate : Delegate) (setting : Setting)
    (answers : IsAnswering world setting.params) where
  event_writes :
      (caches : Caches) (item : Queued) (outcome : Outcome)
      → IsComplete caches
      → IsWhole (as_traffic_config item.obj)
      → process_event delegate setting caches item ≡ some outcome
      → (writes : List Write) × (run_event world delegate setting caches item
          ≡ some (outcome, writes))
  unfolding run_event
  event_writes caches item outcome complete h e =
      let whole : all_whole outcome.trail.calls ≡ true =
        subst (λ o. outcome_whole o ≡ true) e
          (process_event-whole delegate setting caches item complete h) in
      let (writes, made) =
        some_of (writes_of_all world setting outcome.caches outcome.trail.calls)
          (calls-return world setting outcome.caches answers outcome.trail.calls whole) in
      (writes, rw (e, made) refl)

  -- The round of an item of any controller, with the calls that it makes, ends without a panic, where
  -- every scope compiles, no listing of filters is nil, and each TrafficConfig, cached or in the item,
  -- has an edge service and a quota group. It ends with the status of a skip, and its status channel
  -- and those of its children are closed after a skip.
  pub run_event-reports :
      (caches : Caches) (item : Queued)
      → IsComplete caches
      → IsWhole (as_traffic_config item.obj)
      → (outcome : Outcome) × (writes : List Write) × (run_event world delegate setting caches item
          ≡ some (outcome, writes))
        × (is_reported (some outcome) ≡ true)
  run_event-reports caches item complete h =
      let (outcome, e) = process_event-runs delegate setting caches item in
      let (writes, made) = event_writes caches item outcome complete h e in
      (
        outcome,
        writes,
        made,
        subst (λ o. is_reported o ≡ true) e (process_event-reports delegate setting caches item),
      )

  -- The round of an item of any controller, in any state, with the calls that it makes, leaves in the
  -- queue exactly the items that waited beside it, where every scope compiles, no listing of filters
  -- is nil, and each TrafficConfig, cached or in the item, has an edge service and a quota group: it
  -- does not panic, and the item does not come back.
  pub run_event-queue :
      (r : State) (others : List (Delegate × Queued)) (item : Queued)
      → IsComplete r.caches
      → IsWhole (as_traffic_config item.obj)
      → (outcome : Outcome) × (writes : List Write) × (run_event world delegate setting r.caches
            item
          ≡ some (outcome, writes))
        × ((process_next_item r others delegate item outcome).queue ≡ others)
  run_event-queue r others item complete h =
      let (outcome, e, left) = process_next_item-queue r others delegate item setting in
      let (writes, made) = event_writes r.caches item outcome complete h e in
      (outcome, writes, made, left)

trail_of :
    (o : Option Trail) (calls : List Call)
    → calls_in o ≡ some calls
    → (trail : Trail) × (o ≡ some trail) × (trail.calls ≡ calls)
trail_of none calls e = cc
trail_of (some trail) calls e = (trail, refl, ap (calls_or []) e)

-- `TriggerTrafficConfigHandlerForIdentity` on an open status channel makes exactly the calls of an
-- update of each configuration of the identity and then of each one of its dependents, in that
-- order, less those that are disabled or ignored. None of the calls panics, where every scope
-- compiles, no listing of filters is nil, and each cached TrafficConfig has an edge service and a
-- quota group.
pub trigger-writes :
    {Clients : Type 0} (world : World Clients) (setting : Setting) (caches : Caches)
    (identity : String) (sent : List (EventProcessStatus Callback)) (children : List StatusChan)
    → IsAnswering world setting.params
    → IsComplete caches
    → (trail : Trail) × (trigger_traffic_config_handler_for_identity setting caches identity
          (record { calls = []; status_chan = open_with sent; children = children })
        ≡ some trail)
      × (trail.calls
          ≡ calls_on_update setting (
              configs_of caches identity
              ++ configs_of_all caches (get_dependents_for_identity caches.dependencies identity)))
      × (is_some (writes_of_all world setting caches trail.calls) ≡ true)
trigger-writes world setting caches identity sent children answers complete =
    let begun : Trail = record { calls = []; status_chan = open_with sent; children = children } in
    let (trail, e, calls) =
      trail_of (trigger_traffic_config_handler_for_identity setting caches identity begun) _
        (trigger-calls setting caches identity [] sent children) in
    let whole : all_whole trail.calls ≡ true =
      subst (λ o. trail_whole o ≡ true) e
        (trigger-whole setting caches complete identity begun refl) in
    (trail, e, calls, calls-return world setting caches answers trail.calls whole)
