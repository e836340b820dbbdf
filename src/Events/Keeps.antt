-- ===== src/Events/Keeps.antt =====
-- What holds of every operation of every handler holds of an item's round.
use naavik.Common.{Bool, true, Option, ◌≡◌}
use naavik.Common.Types.{EventType}
use naavik.Resources
use naavik.Resources.{Object}
use naavik.Controller.Loop.{process_item, for_type}
use naavik.Handlers.{Caches, Setting, Trail, Outcome, finish, start}
use naavik.Handlers.TrafficConfig.{calls_for, trigger_config}
use naavik.Handlers.Kept.{
  holds, workloads-hold, services-hold, dependency_handler-holds, traffic_config_handler-holds,
}
use naavik.Handlers.Workloads.{Kind}
use naavik.Handlers.Workloads
use naavik.Events.{
  Delegate, Queued, event_status, object_or_nil, delegate_added, delegate_updated, delegate_deleted,
  process_event,
}

for_type-all :
    (P : Option Outcome → Type 0) (event : EventType) (added updated deleted : Option Outcome)
    → P added
    → P updated
    → P deleted
    → P (for_type event added updated deleted)
for_type-all P EventType.add added updated deleted a u d = a
for_type-all P EventType.update added updated deleted a u d = u
for_type-all P EventType.delete added updated deleted a u d = d

-- A round, from the three operations of its delegate.
pub process_event-all :
    (P : Option Outcome → Type 0) (delegate : Delegate) (setting : Setting) (caches : Caches)
    (item : Queued)
    → P (delegate_added delegate setting caches item.obj event_status)
      × P (
          delegate_updated delegate setting caches item.obj
            (object_or_nil item.old_obj)
            event_status)
      × P (delegate_deleted delegate setting caches item.obj event_status)
    → P (process_event delegate setting caches item)
unfolding process_event process_item
process_event-all P delegate setting caches item h =
    let (a, u, d) = h in for_type-all P item.event_type _ _ _ a u d

module _ (setting : Setting) (P : Trail → Bool)
    (turn : (caches : Caches) (tc : Resources.TrafficConfig) (trail : Trail)
      → P trail ≡ true
      → holds P (trigger_config setting caches tc trail) ≡ true)
    (Q : Option Outcome → Bool)
    (end : (caches : Caches) (trail : Trail) → P trail ≡ true → Q (finish caches trail) ≡ true)
    (begin : P (start event_status) ≡ true)
    (called : (tc : Resources.TrafficConfig) (event : EventType)
      → P (record (start event_status) { calls = calls_for setting tc event }) ≡ true) where
  delegate-holds :
      (delegate : Delegate) (caches : Caches) (obj old : Object)
      → (Q (delegate_added delegate setting caches obj event_status) ≡ true)
        × (Q (delegate_updated delegate setting caches obj old event_status) ≡ true)
        × (Q (delegate_deleted delegate setting caches obj event_status) ≡ true)
  unfolding delegate_added delegate_updated delegate_deleted Workloads.deployment_added
      Workloads.deployment_updated Workloads.deployment_deleted Workloads.rollout_added
      Workloads.rollout_updated Workloads.rollout_deleted
  delegate-holds (Delegate.deployments cluster_id) caches obj old =
      workloads-hold setting P turn Q end event_status begin Kind.deployment_kind cluster_id caches
        obj old
  delegate-holds (Delegate.services cluster_id) caches obj old =
      services-hold setting P turn Q end event_status begin cluster_id caches obj old
  delegate-holds (Delegate.rollouts cluster_id) caches obj old =
      workloads-hold setting P turn Q end event_status begin Kind.rollout_kind cluster_id caches obj
        old
  delegate-holds Delegate.dependencies caches obj old =
      dependency_handler-holds setting P turn Q end event_status begin caches obj old
  delegate-holds Delegate.traffic_configs caches obj old =
      traffic_config_handler-holds setting P turn Q end event_status begin caches obj old called

  pub process_event-holds :
      (delegate : Delegate) (caches : Caches) (item : Queued)
      → Q (process_event delegate setting caches item) ≡ true
  process_event-holds delegate caches item =
      process_event-all (λ o. Q o ≡ true) delegate setting caches item
        (delegate-holds delegate caches item.obj (object_or_nil item.old_obj))
