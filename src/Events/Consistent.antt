-- ===== src/Events/Consistent.antt =====
-- Consistent caches, and the updates of the handlers that keep them so.
use naavik.Common.{String, Bool, true, false, Option, none, some, refl, if◌then◌else◌}
use naavik.Resources
use naavik.Resources.{Workload}
use naavik.Controller.Status.{EventStatus, skip_close, new_event_process_status}
use naavik.Options.{NaavikArgs}
use naavik.Cache.Nested
use naavik.Cache.Nested.Valid.{store_item-IsValid, remove_item-IsValid}
use naavik.Cache.Services
use naavik.Cache.TrafficConfigs
use naavik.Cache.TrafficConfigs.Valid.{
  add_traffic_config_to_cache-IsValid, delete_traffic_config_from_cache-IsValid,
}
use naavik.Cache.Deployments.Laws.{add-IsValid, delete-IsValid}
use naavik.Handlers.{Caches, Setting, StatusChan, Trail, Outcome, finish, on_cast, closed_with}
use naavik.Handlers.TrafficConfig.{finish_after}
use naavik.Handlers.Dependency.{with_destinations}
use naavik.Handlers.Workloads.{
  Kind, deployment_kind, rollout_kind, put_workload, remove_workload, moved,
}
use naavik.Handlers.Converse.{IsConverse, add_destinations-IsConverse}

-- The four caches of nested maps are valid, and the two maps of dependencies are converse.
pub record IsConsistent (c : Caches) : Type 0 where
  pub deployments : Nested.Valid.IsValid c.deployments
  pub rollouts : Nested.Valid.IsValid c.rollouts
  pub services : Nested.Valid.IsValid c.services
  pub dependencies : IsConverse c.dependencies
  pub traffic_configs : TrafficConfigs.Valid.IsValid c.traffic_configs

-- The caches that a run leaves, if it does not panic.
abbrev pub Ends : Option Outcome → Type 0
Ends none = Unit
Ends (some outcome) = IsConsistent outcome.caches

closed_with-Ends :
    (caches : Caches) (trail : Trail) (o : Option (EventStatus × StatusChan))
    → IsConsistent caches
    → Ends (closed_with caches trail o)
closed_with-Ends caches trail none v = tt
closed_with-Ends caches trail (some (status, ch)) v = v

pub finish-Ends :
    (caches : Caches) (trail : Trail) → IsConsistent caches → Ends (finish caches trail)
unfolding finish
finish-Ends caches trail v =
    closed_with-Ends caches trail (skip_close new_event_process_status trail.status_chan) v

pub finish_after-Ends :
    (caches : Caches) (trail : Option Trail)
    → IsConsistent caches
    → Ends (finish_after caches trail)
finish_after-Ends caches none v = tt
finish_after-Ends caches (some trail) v = finish-Ends caches trail v

pub on_cast-Ends :
    {A : Type 0} (o : Option A) (skipped : Option Outcome) (f : A → Option Outcome)
    → Ends skipped
    → ((a : A) → Ends (f a))
    → Ends (on_cast o skipped f)
on_cast-Ends none skipped f h k = h
on_cast-Ends (some a) skipped f h k = k a

pub if-Ends : (b : Bool) (x y : Option Outcome) → Ends x → Ends y → Ends (if b then x else y)
if-Ends true x y h k = h
if-Ends false x y h k = k

-- The updates
pub put_workload-IsConsistent :
    (kind : Kind) (setting : Setting) (caches : Caches) (cluster_id : String) (w : Workload)
    → IsConsistent caches
    → IsConsistent (put_workload kind setting caches cluster_id w)
unfolding put_workload
put_workload-IsConsistent deployment_kind setting caches cluster_id w v = record {
  deployments = add-IsValid setting.params caches.deployments cluster_id w v.deployments;
  rollouts = v.rollouts;
  services = v.services;
  dependencies = v.dependencies;
  traffic_configs = v.traffic_configs;
}
put_workload-IsConsistent rollout_kind setting caches cluster_id w v = record {
  deployments = v.deployments;
  rollouts = add-IsValid setting.params caches.rollouts cluster_id w v.rollouts;
  services = v.services;
  dependencies = v.dependencies;
  traffic_configs = v.traffic_configs;
}

pub remove_workload-IsConsistent :
    (kind : Kind) (setting : Setting) (caches : Caches) (cluster_id : String) (w : Workload)
    → IsConsistent caches
    → IsConsistent (remove_workload kind setting caches cluster_id w)
unfolding remove_workload
remove_workload-IsConsistent deployment_kind setting caches cluster_id w v = record {
  deployments = delete-IsValid setting.params caches.deployments cluster_id w v.deployments;
  rollouts = v.rollouts;
  services = v.services;
  dependencies = v.dependencies;
  traffic_configs = v.traffic_configs;
}
remove_workload-IsConsistent rollout_kind setting caches cluster_id w v = record {
  deployments = v.deployments;
  rollouts = delete-IsValid setting.params caches.rollouts cluster_id w v.rollouts;
  services = v.services;
  dependencies = v.dependencies;
  traffic_configs = v.traffic_configs;
}

if-IsConsistent :
    (b : Bool) (c d : Caches) → IsConsistent c → IsConsistent d → IsConsistent (if b then c else d)
if-IsConsistent true c d v w = v
if-IsConsistent false c d v w = w

pub moved-IsConsistent :
    (kind : Kind) (setting : Setting) (caches : Caches) (cluster_id : String) (w old : Workload)
    → IsConsistent caches
    → IsConsistent (moved kind setting caches cluster_id w old)
moved-IsConsistent kind setting caches cluster_id w old v =
    if-IsConsistent _ _ _ (remove_workload-IsConsistent kind setting caches cluster_id old v) v

pub service_added-IsConsistent :
    (caches : Caches) (cluster_id : String) (s : Resources.Service)
    → IsConsistent caches
    → IsConsistent (record caches { services = Services.add caches.services cluster_id s })
unfolding Services.add
service_added-IsConsistent caches cluster_id s v = record {
  deployments = v.deployments;
  rollouts = v.rollouts;
  services = store_item-IsValid caches.services _ _ _ _ refl v.services;
  dependencies = v.dependencies;
  traffic_configs = v.traffic_configs;
}

pub service_deleted-IsConsistent :
    (caches : Caches) (cluster_id : String) (s : Resources.Service)
    → IsConsistent caches
    → IsConsistent (record caches { services = Services.delete caches.services cluster_id s })
unfolding Services.delete
service_deleted-IsConsistent caches cluster_id s v = record {
  deployments = v.deployments;
  rollouts = v.rollouts;
  services = remove_item-IsValid caches.services _ _ _ v.services;
  dependencies = v.dependencies;
  traffic_configs = v.traffic_configs;
}

pub with_destinations-IsConsistent :
    (caches : Caches) (d : Resources.Dependency)
    → IsConsistent caches
    → IsConsistent (with_destinations caches d)
with_destinations-IsConsistent caches d v = record {
  deployments = v.deployments;
  rollouts = v.rollouts;
  services = v.services;
  dependencies =
      add_destinations-IsConverse caches.dependencies d.source d.destinations v.dependencies;
  traffic_configs = v.traffic_configs;
}

pub config_stored-IsConsistent :
    (params : NaavikArgs) (caches : Caches) (tc : Resources.TrafficConfig)
    → IsConsistent caches
    → IsConsistent (record caches {
      traffic_configs = TrafficConfigs.add_traffic_config_to_cache params caches.traffic_configs tc;
    })
config_stored-IsConsistent params caches tc v = record {
  deployments = v.deployments;
  rollouts = v.rollouts;
  services = v.services;
  dependencies = v.dependencies;
  traffic_configs =
      add_traffic_config_to_cache-IsValid params caches.traffic_configs tc v.traffic_configs;
}

pub config_removed-IsConsistent :
    (params : NaavikArgs) (caches : Caches) (tc : Resources.TrafficConfig)
    → IsConsistent caches
    → IsConsistent (record caches {
      traffic_configs =
          TrafficConfigs.delete_traffic_config_from_cache params caches.traffic_configs tc;
    })
config_removed-IsConsistent params caches tc v = record {
  deployments = v.deployments;
  rollouts = v.rollouts;
  services = v.services;
  dependencies = v.dependencies;
  traffic_configs =
      delete_traffic_config_from_cache-IsValid params caches.traffic_configs tc v.traffic_configs;
}
