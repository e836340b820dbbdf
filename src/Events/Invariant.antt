-- ===== src/Events/Invariant.antt =====
-- The caches in every state that the program reaches.
use naavik.Common.{String, not, ◌==◌, Option, some, ◌≡◌, refl}
use naavik.Resources.{Object}
use naavik.Options.{is_cache_warmed_up}
use naavik.Handlers.{Caches, Setting, Outcome, finish, start}
use naavik.Handlers.TrafficConfig
use naavik.Handlers.TrafficConfig.{
  config_added, config_updated, config_deleted, as_traffic_config, is_skipped,
}
use naavik.Handlers.Dependency
use naavik.Handlers.Dependency.{as_dependency, dependency_updated}
use naavik.Handlers.Workloads
use naavik.Handlers.Workloads.{
  Kind, deployment_kind, rollout_kind, as_service, as_workload, workload_added, workload_updated,
  workload_deleted, is_handled,
}
use naavik.Events.{
  Delegate, Keys, process_event, event_status, object_or_nil, delegate_added, delegate_updated,
  delegate_deleted,
}
use naavik.Events.Keeps.{process_event-all}
use naavik.Events.Steps.{
  State, Step, Reach, at_start, then_step, object_added, object_updated, object_deleted,
  item_processed, enqueue, process_next_item,
}
use naavik.Events.Consistent.{
  IsConsistent, Ends, finish-Ends, finish_after-Ends, on_cast-Ends, if-Ends,
  put_workload-IsConsistent, remove_workload-IsConsistent, moved-IsConsistent,
  service_added-IsConsistent, service_deleted-IsConsistent, with_destinations-IsConsistent,
  config_stored-IsConsistent, config_removed-IsConsistent,
}

-- The three operations of a delegate, on the caches of a state
abbrev AllEnd : Delegate → Setting → Caches → Type 0
AllEnd delegate setting caches =
    (obj old : Object)
    → Ends (delegate_added delegate setting caches obj event_status)
      × Ends (delegate_updated delegate setting caches obj old event_status)
      × Ends (delegate_deleted delegate setting caches obj event_status)

module _ (setting : Setting) (caches : Caches) (v : IsConsistent caches) where
  unchanged : Ends (finish caches (start event_status))
  unchanged = finish-Ends caches (start event_status) v

  workloads-end :
      (kind : Kind) (cluster_id : String) (obj old : Object)
      → Ends (Workloads.added kind setting cluster_id caches obj event_status)
        × Ends (Workloads.updated kind setting cluster_id caches obj old event_status)
        × Ends (Workloads.deleted kind setting cluster_id caches obj event_status)
  unfolding Workloads.added Workloads.updated Workloads.deleted workload_added workload_updated
      workload_deleted
  workloads-end kind cluster_id obj old = (
    on_cast-Ends (as_workload kind obj) _ _ unchanged (λ w.
        let put = put_workload-IsConsistent kind setting caches cluster_id w v in
        if-Ends (not (is_handled setting w)) _ _ unchanged (
          if-Ends (not (is_cache_warmed_up setting.params setting.elapsed)) _ _
            (finish-Ends _ _ put) (finish_after-Ends _ _ put))),
    on_cast-Ends (as_workload kind obj) _ _ unchanged (λ w.
        on_cast-Ends (as_workload kind old) _ _ unchanged (λ before.
          if-Ends (not (is_handled setting w)) _ _ unchanged (
            finish-Ends _ _ (
              put_workload-IsConsistent kind setting _ cluster_id w
                (moved-IsConsistent kind setting caches cluster_id w before v))))),
    on_cast-Ends (as_workload kind obj) _ _ unchanged (λ w.
        if-Ends (not (is_handled setting w)) _ _ unchanged
          (finish-Ends _ _ (remove_workload-IsConsistent kind setting caches cluster_id w v))),
  )

  delegate-ends : (delegate : Delegate) → AllEnd delegate setting caches
  unfolding delegate_added delegate_updated delegate_deleted Workloads.deployment_added
      Workloads.deployment_updated Workloads.deployment_deleted Workloads.rollout_added
      Workloads.rollout_updated Workloads.rollout_deleted Workloads.service_added
      Workloads.service_updated Workloads.service_deleted Dependency.added Dependency.updated
      Dependency.deleted dependency_updated TrafficConfig.added TrafficConfig.updated
      TrafficConfig.deleted config_added config_updated config_deleted
  delegate-ends (Delegate.deployments cluster_id) obj old =
      workloads-end deployment_kind cluster_id obj old
  delegate-ends (Delegate.rollouts cluster_id) obj old =
      workloads-end rollout_kind cluster_id obj old
  delegate-ends (Delegate.services cluster_id) obj old = (
    on_cast-Ends (as_service obj) _ _ unchanged
        (λ s. finish-Ends _ _ (service_added-IsConsistent caches cluster_id s v)),
    on_cast-Ends (as_service obj) _ _ unchanged
        (λ s. finish-Ends _ _ (service_added-IsConsistent caches cluster_id s v)),
    on_cast-Ends (as_service obj) _ _ unchanged
        (λ s. finish-Ends _ _ (service_deleted-IsConsistent caches cluster_id s v)),
  )
  delegate-ends Delegate.dependencies obj old = (
    on_cast-Ends (as_dependency obj) _ _ unchanged (λ d.
        if-Ends (d.source == "") _ _ unchanged
          (finish-Ends _ _ (with_destinations-IsConsistent caches d v))),
    on_cast-Ends (as_dependency obj) _ _ unchanged (λ d.
        let next = with_destinations-IsConsistent caches d v in
        if-Ends (d.source == "") _ _ unchanged (
          if-Ends (not (is_cache_warmed_up setting.params setting.elapsed)) _ _
            (finish-Ends _ _ next) (finish_after-Ends _ _ next))),
    unchanged,
  )
  delegate-ends Delegate.traffic_configs obj old = (
    on_cast-Ends (as_traffic_config obj) _ _ unchanged (λ tc.
        if-Ends (is_skipped setting tc) _ _ unchanged
          (finish-Ends _ _ (config_stored-IsConsistent setting.params caches tc v))),
    on_cast-Ends (as_traffic_config obj) _ _ unchanged
        (λ tc. if-Ends (is_skipped setting tc) _ _ unchanged (finish-Ends _ _ v)),
    on_cast-Ends (as_traffic_config obj) _ _ unchanged
        (λ tc. finish-Ends _ _ (config_removed-IsConsistent setting.params caches tc v)),
  )

ended :
    (o : Option Outcome) (outcome : Outcome)
    → Ends o
    → o ≡ some outcome
    → IsConsistent outcome.caches
ended o outcome h e = rw e at h

module _ (keys : Keys) (settings : Setting → Type 0) where
  Step-IsConsistent :
      {r s : State} → Step keys settings r s → IsConsistent r.caches → IsConsistent s.caches
  unfolding enqueue process_next_item
  Step-IsConsistent {r} (object_added delegate obj item e) v = v
  Step-IsConsistent {r} (object_updated delegate old_obj new_obj item e) v = v
  Step-IsConsistent {r} (object_deleted delegate obj item e) v = v
  Step-IsConsistent {r} (item_processed before later delegate item setting outcome allowed split e)
        v =
      ended (process_event delegate setting r.caches item) outcome
        (process_event-all Ends delegate setting r.caches item
          (delegate-ends setting r.caches v delegate item.obj (object_or_nil item.old_obj)))
        e

  -- In every state that the program reaches from empty caches, by any events of its informers and
  -- any order in which queued items are processed, on any settings: the deployment, rollout and
  -- service caches have distinct keys, entries named by their keys, and no empty entry or cluster;
  -- the TrafficConfig cache has distinct identities and routes for exactly the environments that have
  -- a configuration; and an identity is listed as a dependent of exactly its dependencies.
  pub Reach-IsConsistent : {r : State} → Reach keys settings r → IsConsistent r.caches
  unfolding naavik.Cache.Dependencies.get_dependents_for_identity
      naavik.Cache.Dependencies.is_dependent_for_identity naavik.Set.has naavik.Common.Table.get
      naavik.Common.Text.to_lower
  Reach-IsConsistent at_start = record {
    deployments = record { distinct = tt; clusters = tt };
    rollouts = record { distinct = tt; clusters = tt };
    services = record { distinct = tt; clusters = tt };
    dependencies = record { converse = λ a b. refl };
    traffic_configs = record { distinct = tt; entries = tt };
  }
  Reach-IsConsistent (then_step before step) = Step-IsConsistent step (Reach-IsConsistent before)
