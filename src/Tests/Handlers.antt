-- ===== src/Tests/Handlers.antt =====
-- The handlers and the controller at concrete objects.
use naavik.Common.{ℕ, ◌+◌, suc, ◌≤◌, true, false, List, [], ◌∷◌, none, some, ◌≡◌, refl, arith, All}
use naavik.Common.Text.{to_lower}
use naavik.Common.Table
use naavik.Resources.{Object}
use naavik.Controller.Status.{EventProcessStatus, with_retry, with_max_retry}
use naavik.Controller.Loop.{Item, handle_status, process, callbacks}
use naavik.Controller.Retries.{
  AtMost, again, handle_status-bound, callbacks-handle_status, process-terminates,
  process_always_retrying,
}
use naavik.Cache.Deployments
use naavik.Cache.Identities
use naavik.Cache.TrafficConfigs
use naavik.Handlers.{Caches}
use naavik.Handlers.TrafficConfig
use naavik.Handlers.Dependency
use naavik.Handlers.Workloads
use naavik.Handlers.Workloads.{Kind}
use naavik.Handlers.ReadOnly.{is_silent, handlers-silent}
use naavik.Handlers.Effects.{caches_after, workload_added-reads, workload_deleted-reads}
use naavik.Handlers.Converse.{IsConverse, dependency_handler-IsConverse}
use naavik.Tests.Data.{params, pay, tc, web_calls_pay, live, read_only, no_caches, fresh_chan, item}

abbrev Status : Type 0
Status = EventProcessStatus (Unit {0})

abbrev twice : List Status
twice = again 5 ∷ again 5 ∷ []

twice-AtMost : All (AtMost 5) twice
unfolding with_retry with_max_retry
twice-AtMost = (omega arith, (omega arith, tt))

handle_status-bound_example : (handle_status item twice).0.retry_count ≤ 5
handle_status-bound_example = handle_status-bound 5 item twice twice-AtMost (omega arith)

callbacks-handle_status_example : callbacks (handle_status item twice).1 ≡ 2
unfolding with_retry
callbacks-handle_status_example = callbacks-handle_status item twice

abbrev always : Item (Unit {0}) (Unit {0}) → List Status
always i = again 5 ∷ []

always-AtMost : (i : Item (Unit {0}) (Unit {0})) → All (AtMost 5) (always i)
unfolding with_retry with_max_retry
always-AtMost i = (omega arith, tt)

process-terminates_example :
    (rounds : ℕ) × (process 4 always item ≡ some rounds) × (rounds + item.retry_count ≤ suc 5)
process-terminates_example =
    process-terminates 5 4 always item always-AtMost (omega arith) (omega arith)

process_always_retrying_example :
    (rounds : ℕ) × (process 4 always item ≡ some rounds) × (rounds + item.retry_count ≡ suc 5)
process_always_retrying_example = process_always_retrying 5 4 item (omega arith) (omega arith)

abbrev seen : Object
seen = Object.traffic_config tc

abbrev relation : Object
relation = Object.dependency web_calls_pay

-- The client's configurations and dependencies are known.
abbrev known : Caches
known = record no_caches {
  traffic_configs = TrafficConfigs.add_traffic_config_to_cache params [] tc;
}

abbrev deployed : Object
deployed = Object.deployment pay

handlers-silent_example :
    ((is_silent (TrafficConfig.added read_only known deployed fresh_chan) ≡ true)
      × (is_silent (TrafficConfig.updated read_only known deployed deployed fresh_chan) ≡ true)
      × (is_silent (TrafficConfig.deleted read_only known deployed fresh_chan) ≡ true))
    × ((is_silent (Dependency.added known deployed fresh_chan) ≡ true)
        × (is_silent (Dependency.updated read_only known deployed deployed fresh_chan) ≡ true)
        × (is_silent (Dependency.deleted known deployed fresh_chan) ≡ true))
    × ((is_silent
            (Workloads.added Kind.deployment_kind read_only "Cluster1" known deployed fresh_chan)
          ≡ true)
        × (is_silent (
              Workloads.updated Kind.deployment_kind read_only "Cluster1" known deployed deployed
                fresh_chan)
            ≡ true)
        × (is_silent (
              Workloads.deleted Kind.deployment_kind read_only "Cluster1" known deployed fresh_chan)
            ≡ true))
handlers-silent_example =
    handlers-silent Kind.deployment_kind read_only "Cluster1" known deployed deployed fresh_chan
      refl refl

workload_added-reads_example :
    let after : Caches =
      caches_after known
        (Workloads.workload_added Kind.deployment_kind live "Cluster1" known pay fresh_chan) in
    (Deployments.get_by_cluster_identity_env
        (Workloads.workloads Kind.deployment_kind after)
        "CLUSTER1"
        "payments"
        "qa"
      ≡ some pay)
    × (Identities.is_cluster_present_in_identity after.identities "payments" "CLUSTER1" ≡ true)
unfolding naavik.Meta.is_resource_ignored to_lower Table.get naavik.Meta.is_resource_mesh_enabled
    naavik.Meta.get_workload_identifier naavik.Meta.get_env
workload_added-reads_example =
    workload_added-reads Kind.deployment_kind live "Cluster1" known pay fresh_chan "CLUSTER1"
      "payments" "qa" refl refl

workload_deleted-reads_example :
    let after : Caches =
      caches_after known
        (Workloads.workload_deleted Kind.rollout_kind live "Cluster1" known pay fresh_chan) in
    (Deployments.get_by_cluster_identity_env
        (Workloads.workloads Kind.rollout_kind after)
        "CLUSTER1"
        "payments"
        "qa"
      ≡ none)
    × (Identities.is_cluster_present_in_identity after.identities "payments" "CLUSTER1" ≡ false)
unfolding naavik.Meta.is_resource_ignored to_lower Table.get naavik.Meta.is_resource_mesh_enabled
    naavik.Meta.get_workload_identifier naavik.Meta.get_env
workload_deleted-reads_example =
    workload_deleted-reads Kind.rollout_kind live "Cluster1" known pay fresh_chan "CLUSTER1"
      "payments" "qa" refl refl

no_relations-IsConverse : IsConverse known.dependencies
unfolding naavik.Cache.Dependencies.get_dependents_for_identity
    naavik.Cache.Dependencies.is_dependent_for_identity naavik.Set.has Table.get to_lower
no_relations-IsConverse = record { converse = λ a b. refl }

dependency_handler-IsConverse_example :
    IsConverse (caches_after known (Dependency.added known relation fresh_chan)).dependencies
    × IsConverse
        (caches_after known
          (Dependency.updated live known relation Object.other fresh_chan)).dependencies
    × IsConverse (caches_after known (Dependency.deleted known relation fresh_chan)).dependencies
dependency_handler-IsConverse_example =
    dependency_handler-IsConverse live known web_calls_pay Object.other fresh_chan refl
      no_relations-IsConverse
