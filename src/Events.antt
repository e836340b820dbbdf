-- ===== src/Events.antt =====
-- internal/controller/controller.go with the controllers of internal/controller/k8s and admiral: from
-- an informer's event to the handler that it reaches. The keys of objects are client-go's. Steps has
-- the program as a whole.
pub mod Steps
pub mod Keeps
pub mod Consistent
pub mod Invariant
pub mod Silence
pub mod Whole
pub mod Complete
pub mod Rounds
pub mod Queues
use naavik.Common.{String, [], Option, none, some, false}
use naavik.Common.Types.{EventType}
use naavik.Resources.{Object}
use naavik.Controller.Loop.{Item, process_item}
use naavik.Handlers.{Callback, Caches, Setting, StatusChan, Outcome}
use naavik.Handlers.TrafficConfig
use naavik.Handlers.Dependency
use naavik.Handlers.Workloads

-- The controllers that share the caches: three in each remote cluster, and two of the registry.
pub data Delegate : Type 0 where
  deployments services rollouts : String → Delegate
  dependencies traffic_configs : Delegate

abbrev pub Queued : Type 0
Queued = Item Callback Object

-- `MetaNamespaceKeyFunc` and `DeletionHandlingMetaNamespaceKeyFunc`; an error is `none`.
pub record Keys : Type 0 where
  pub meta_namespace_key : Object → Option String
  pub deletion_key : Object → Option String

-- What goes to the queue, if anything.
abbrev new_item : EventType → Object → Option Object → Option String → Option Queued
new_item event obj old_obj none = none
new_item event obj old_obj (some key) = some (record {
  key = key;
  event_type = event;
  obj = obj;
  old_obj = old_obj;
  retry_count = 0;
  on_status_override = none;
})

unfoldable pub add_func : Keys → Object → Option Queued
add_func keys obj = new_item EventType.add obj none (keys.meta_namespace_key obj)

unfoldable pub update_func : Keys → Object → Object → Option Queued
update_func keys old_obj new_obj =
    new_item EventType.update new_obj (some old_obj) (keys.meta_namespace_key new_obj)

unfoldable pub delete_func : Keys → Object → Option Queued
delete_func keys obj = new_item EventType.delete obj none (keys.deletion_key obj)

-- The channel that an item comes with
abbrev pub event_status : StatusChan
event_status = some (record { sent = []; is_closed = false })

-- A nil object is of no type that a handler asserts.
abbrev pub object_or_nil : Option Object → Object
object_or_nil none = Object.other
object_or_nil (some obj) = obj

-- The controllers' methods, which call those of their handlers.
unfoldable pub delegate_added : Delegate → Setting → Caches → Object → StatusChan → Option Outcome
unfolding Workloads.deployment_added Workloads.service_added Workloads.rollout_added
    Dependency.added TrafficConfig.added
delegate_added (deployments cluster_id) setting caches obj ch =
    Workloads.deployment_added setting cluster_id caches obj ch
delegate_added (services cluster_id) setting caches obj ch =
    Workloads.service_added setting cluster_id caches obj ch
delegate_added (rollouts cluster_id) setting caches obj ch =
    Workloads.rollout_added setting cluster_id caches obj ch
delegate_added dependencies setting caches obj ch = Dependency.added caches obj ch
delegate_added traffic_configs setting caches obj ch = TrafficConfig.added setting caches obj ch

unfoldable pub delegate_updated :
    Delegate → Setting → Caches → Object → Object → StatusChan → Option Outcome
unfolding Workloads.deployment_updated Workloads.service_updated Workloads.rollout_updated
    Dependency.updated TrafficConfig.updated
delegate_updated (deployments cluster_id) setting caches new_obj old_obj ch =
    Workloads.deployment_updated setting cluster_id caches new_obj old_obj ch
delegate_updated (services cluster_id) setting caches new_obj old_obj ch =
    Workloads.service_updated setting cluster_id caches new_obj old_obj ch
delegate_updated (rollouts cluster_id) setting caches new_obj old_obj ch =
    Workloads.rollout_updated setting cluster_id caches new_obj old_obj ch
delegate_updated dependencies setting caches new_obj old_obj ch =
    Dependency.updated setting caches new_obj old_obj ch
delegate_updated traffic_configs setting caches new_obj old_obj ch =
    TrafficConfig.updated setting caches new_obj old_obj ch

unfoldable pub delegate_deleted : Delegate → Setting → Caches → Object → StatusChan → Option Outcome
unfolding Workloads.deployment_deleted Workloads.service_deleted Workloads.rollout_deleted
    Dependency.deleted TrafficConfig.deleted
delegate_deleted (deployments cluster_id) setting caches obj ch =
    Workloads.deployment_deleted setting cluster_id caches obj ch
delegate_deleted (services cluster_id) setting caches obj ch =
    Workloads.service_deleted setting cluster_id caches obj ch
delegate_deleted (rollouts cluster_id) setting caches obj ch =
    Workloads.rollout_deleted setting cluster_id caches obj ch
delegate_deleted dependencies setting caches obj ch = Dependency.deleted caches obj ch
delegate_deleted traffic_configs setting caches obj ch = TrafficConfig.deleted setting caches obj ch

-- `processItem` of a controller. The calls of `HandleRateLimiter` and of
-- `HandleVirtualServiceForTrafficConfig` are recorded; `run_event` (Rounds) also makes them, and
-- ends the program where one of them panics.
unfoldable pub process_event : Delegate → Setting → Caches → Queued → Option Outcome
unfolding process_item delegate_added delegate_updated delegate_deleted
process_event delegate setting caches item =
    process_item (λ (i : Queued). delegate_added delegate setting caches i.obj event_status)
      (λ (i : Queued).
        delegate_updated delegate setting caches i.obj (object_or_nil i.old_obj) event_status)
      (λ (i : Queued). delegate_deleted delegate setting caches i.obj event_status) item
