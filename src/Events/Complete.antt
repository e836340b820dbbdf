-- ===== src/Events/Complete.antt =====
-- The calls of each operation of a delegate, on caches whose configurations are complete.
use mathlib.Core.Path.{subst}
use naavik.Common.{String, true, not, Option, none, some, ◌≡◌, refl, ◌==◌}
use naavik.Common.Types.{EventType}
use naavik.Options.{is_cache_warmed_up}
use naavik.Resources
use naavik.Resources.{Object, TrafficConfig, Workload}
use naavik.Handlers.{Caches, Setting, finish, start}
use naavik.Handlers.TrafficConfig
use naavik.Handlers.TrafficConfig.{
  as_traffic_config, config_added, config_updated, config_deleted, is_skipped, configs_of,
}
use naavik.Handlers.Dependency
use naavik.Handlers.Dependency.{
  as_dependency, dependency_updated, with_destinations, new_destinations,
}
use naavik.Handlers.Workloads
use naavik.Handlers.Workloads.{
  Kind, deployment_kind, rollout_kind, as_service, as_workload, workload_added, workload_updated,
  workload_deleted, is_handled, put_workload, identifier,
}
use naavik.Writes.Returns.{is_whole}
use naavik.Events.{Delegate, event_status, delegate_added, delegate_updated, delegate_deleted}
use naavik.Events.Whole.{
  IsComplete, outcome_whole, finish-whole, finish_after-whole, if-whole, on_cast-whole,
  calls_for-whole, trigger-whole, trigger_all-whole,
}

-- A TrafficConfig has an edge service and a quota group; other objects do not matter.
abbrev pub IsWhole : Option TrafficConfig → Type 0
IsWhole none = Unit
IsWhole (some tc) = is_whole tc ≡ true

put_workload-IsComplete :
    (kind : Kind) (setting : Setting) (caches : Caches) (cluster_id : String) (w : Workload)
    → IsComplete caches
    → IsComplete (put_workload kind setting caches cluster_id w)
unfolding put_workload configs_of
put_workload-IsComplete deployment_kind setting caches cluster_id w c = record { whole = c.whole }
put_workload-IsComplete rollout_kind setting caches cluster_id w c = record { whole = c.whole }

with_destinations-IsComplete :
    (caches : Caches) (d : Resources.Dependency)
    → IsComplete caches
    → IsComplete (with_destinations caches d)
unfolding configs_of
with_destinations-IsComplete caches d c = record { whole = c.whole }

module _ (setting : Setting) (caches : Caches) (complete : IsComplete caches) where
  nothing_made : outcome_whole (finish caches (start event_status)) ≡ true
  nothing_made = finish-whole caches (start event_status) refl

  workloads-whole :
      (kind : Kind) (cluster_id : String) (obj old : Object)
      → (outcome_whole (Workloads.added kind setting cluster_id caches obj event_status) ≡ true)
        × (outcome_whole (Workloads.updated kind setting cluster_id caches obj old event_status)
            ≡ true)
        × (outcome_whole (Workloads.deleted kind setting cluster_id caches obj event_status) ≡ true)
  unfolding Workloads.added Workloads.updated Workloads.deleted workload_added workload_updated
      workload_deleted
  workloads-whole kind cluster_id obj old = (
    on_cast-whole (as_workload kind obj) _ _ nothing_made (λ w e.
        let next = put_workload-IsComplete kind setting caches cluster_id w complete in
        if-whole (not (is_handled setting w)) _ _ nothing_made (
          if-whole (not (is_cache_warmed_up setting.params setting.elapsed)) _ _
            (finish-whole _ (start event_status) refl)
            (finish_after-whole _ _
              (trigger-whole setting _ next (identifier setting w) (start event_status) refl)))),
    on_cast-whole (as_workload kind obj) _ _ nothing_made (λ w e.
        on_cast-whole (as_workload kind old) _ _ nothing_made (λ before k.
          if-whole (not (is_handled setting w)) _ _ nothing_made
            (finish-whole _ (start event_status) refl))),
    on_cast-whole (as_workload kind obj) _ _ nothing_made (λ w e.
        if-whole (not (is_handled setting w)) _ _ nothing_made
          (finish-whole _ (start event_status) refl)),
  )

  pub delegate-whole :
      (delegate : Delegate) (obj old : Object)
      → IsWhole (as_traffic_config obj)
      → (outcome_whole (delegate_added delegate setting caches obj event_status) ≡ true)
        × (outcome_whole (delegate_updated delegate setting caches obj old event_status) ≡ true)
        × (outcome_whole (delegate_deleted delegate setting caches obj event_status) ≡ true)
  unfolding delegate_added delegate_updated delegate_deleted Workloads.deployment_added
      Workloads.deployment_updated Workloads.deployment_deleted Workloads.rollout_added
      Workloads.rollout_updated Workloads.rollout_deleted Workloads.service_added
      Workloads.service_updated Workloads.service_deleted Dependency.added Dependency.updated
      Dependency.deleted dependency_updated TrafficConfig.added TrafficConfig.updated
      TrafficConfig.deleted config_added config_updated config_deleted
  delegate-whole (Delegate.deployments cluster_id) obj old h =
      workloads-whole deployment_kind cluster_id obj old
  delegate-whole (Delegate.rollouts cluster_id) obj old h =
      workloads-whole rollout_kind cluster_id obj old
  delegate-whole (Delegate.services cluster_id) obj old h = (
    on_cast-whole (as_service obj) _ _ nothing_made
        (λ s e. finish-whole _ (start event_status) refl),
    on_cast-whole (as_service obj) _ _ nothing_made
        (λ s e. finish-whole _ (start event_status) refl),
    on_cast-whole (as_service obj) _ _ nothing_made
        (λ s e. finish-whole _ (start event_status) refl),
  )
  delegate-whole Delegate.dependencies obj old h = (
    on_cast-whole (as_dependency obj) _ _ nothing_made (λ d e.
        if-whole (d.source == "") _ _ nothing_made (finish-whole _ (start event_status) refl)),
    on_cast-whole (as_dependency obj) _ _ nothing_made (λ d e.
        let next = with_destinations-IsComplete caches d complete in
        if-whole (d.source == "") _ _ nothing_made (
          if-whole (not (is_cache_warmed_up setting.params setting.elapsed)) _ _
            (finish-whole _ (start event_status) refl)
            (finish_after-whole _ _ (
              trigger_all-whole setting _ next (new_destinations d (as_dependency old))
                (some (start event_status)) refl)))),
    nothing_made,
  )
  delegate-whole Delegate.traffic_configs obj old h = (
    on_cast-whole (as_traffic_config obj) _ _ nothing_made (λ tc e.
        if-whole (is_skipped setting tc) _ _ nothing_made
          (finish-whole _ _ (calls_for-whole setting tc EventType.add (subst IsWhole e h)))),
    on_cast-whole (as_traffic_config obj) _ _ nothing_made (λ tc e.
        if-whole (is_skipped setting tc) _ _ nothing_made
          (finish-whole _ _ (calls_for-whole setting tc EventType.update (subst IsWhole e h)))),
    on_cast-whole (as_traffic_config obj) _ _ nothing_made (λ tc e.
        finish-whole _ _ (calls_for-whole setting tc EventType.delete (subst IsWhole e h))),
  )
