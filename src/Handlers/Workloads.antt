-- ===== src/Handlers/Workloads.antt =====
-- internal/handler/k8shandler: the handlers of deployments (deployment_handler.go), rollouts
-- (rollouts_handler.go) and services (service_handler.go). The first two are the same code on two
-- kinds of workloads.
use naavik.Common.{String, Bool, not, ◌||◌, ◌&&◌, Option, none, some, ◌==◌, if◌then◌else◌}
use naavik.Meta.{get_workload_identifier, is_resource_ignored, is_resource_mesh_enabled}
use naavik.Options.{is_cache_warmed_up}
use naavik.Resources
use naavik.Resources.{Object, Workload}
use naavik.Cache.Deployments
use naavik.Cache.Services
use naavik.Cache.Identities.{add_cluster_to_identity, delete_cluster_from_identity}
use naavik.Handlers.{Caches, Setting, StatusChan, Outcome, finish, start, on_cast}
use naavik.Handlers.TrafficConfig.{trigger_traffic_config_handler_for_identity, finish_after}

pub data Kind : Type 0 where
  deployment_kind rollout_kind : Kind

abbrev pub as_workload : Kind → Object → Option Workload
as_workload deployment_kind (Object.deployment w) = some w
as_workload rollout_kind (Object.rollout w) = some w
as_workload _ _ = none

-- `cache.Deployments` or `cache.Rollouts`
abbrev pub workloads : Kind → Caches → Deployments.Cache
workloads deployment_kind caches = caches.deployments
workloads rollout_kind caches = caches.rollouts

abbrev pub with_workloads : Kind → Caches → Deployments.Cache → Caches
with_workloads deployment_kind caches c = record caches { deployments = c }
with_workloads rollout_kind caches c = record caches { rollouts = c }

abbrev pub identifier : Setting → Workload → String
identifier setting w = get_workload_identifier setting.params w.template

-- The guards that the three operations share.
abbrev pub is_handled : Setting → Workload → Bool
is_handled setting w =
    not (
      is_resource_ignored setting.params w.template
      || not (is_resource_mesh_enabled setting.params w.template))
    && not (identifier setting w == "")

-- The two additions, and the two removals.
unfoldable pub put_workload : Kind → Setting → Caches → String → Workload → Caches
put_workload kind setting caches cluster_id w =
    with_workloads kind
      (record caches {
        identities = add_cluster_to_identity caches.identities (identifier setting w) cluster_id;
      })
      (Deployments.add setting.params (workloads kind caches) cluster_id w)

unfoldable pub remove_workload : Kind → Setting → Caches → String → Workload → Caches
remove_workload kind setting caches cluster_id w =
    with_workloads kind
      (record caches {
        identities =
            delete_cluster_from_identity caches.identities (identifier setting w) cluster_id;
      })
      (Deployments.delete setting.params (workloads kind caches) cluster_id w)

unfoldable pub workload_added :
    Kind → Setting → String → Caches → Workload → StatusChan → Option Outcome
unfolding put_workload
workload_added kind setting cluster_id caches w ch =
    if not (is_handled setting w)
    then finish caches (start ch)
    else if not (is_cache_warmed_up setting.params setting.elapsed)
    then finish (put_workload kind setting caches cluster_id w) (start ch)
    else finish_after (put_workload kind setting caches cluster_id w) (
        trigger_traffic_config_handler_for_identity setting
          (put_workload kind setting caches cluster_id w) (identifier setting w) (start ch))

-- The old workload goes first where its identifier is another one.
abbrev pub moved : Kind → Setting → Caches → String → Workload → Workload → Caches
moved kind setting caches cluster_id w old =
    if not (identifier setting old == "") && not (identifier setting w == identifier setting old)
    then remove_workload kind setting caches cluster_id old
    else caches

unfoldable pub workload_updated :
    Kind → Setting → String → Caches → Workload → Workload → StatusChan → Option Outcome
unfolding put_workload remove_workload
workload_updated kind setting cluster_id caches w old ch =
    if not (is_handled setting w)
    then finish caches (start ch)
    else finish
        (put_workload kind setting (moved kind setting caches cluster_id w old) cluster_id w)
        (start ch)

unfoldable pub workload_deleted :
    Kind → Setting → String → Caches → Workload → StatusChan → Option Outcome
unfolding remove_workload
workload_deleted kind setting cluster_id caches w ch =
    if not (is_handled setting w)
    then finish caches (start ch)
    else finish (remove_workload kind setting caches cluster_id w) (start ch)

unfoldable pub added : Kind → Setting → String → Caches → Object → StatusChan → Option Outcome
unfolding workload_added
added kind setting cluster_id caches obj ch =
    on_cast (as_workload kind obj) (finish caches (start ch))
      (λ w. workload_added kind setting cluster_id caches w ch)

unfoldable pub updated :
    Kind → Setting → String → Caches → Object → Object → StatusChan → Option Outcome
unfolding workload_updated
updated kind setting cluster_id caches new_obj old_obj ch =
    on_cast (as_workload kind new_obj) (finish caches (start ch)) (λ w.
      on_cast (as_workload kind old_obj) (finish caches (start ch))
        (λ old. workload_updated kind setting cluster_id caches w old ch))

unfoldable pub deleted : Kind → Setting → String → Caches → Object → StatusChan → Option Outcome
unfolding workload_deleted
deleted kind setting cluster_id caches obj ch =
    on_cast (as_workload kind obj) (finish caches (start ch))
      (λ w. workload_deleted kind setting cluster_id caches w ch)

-- The methods of the deployment and of the rollout handler.
unfoldable pub deployment_added : Setting → String → Caches → Object → StatusChan → Option Outcome
unfolding added
deployment_added = added deployment_kind

unfoldable pub deployment_updated :
    Setting → String → Caches → Object → Object → StatusChan → Option Outcome
unfolding updated
deployment_updated = updated deployment_kind

unfoldable pub deployment_deleted : Setting → String → Caches → Object → StatusChan → Option Outcome
unfolding deleted
deployment_deleted = deleted deployment_kind

unfoldable pub rollout_added : Setting → String → Caches → Object → StatusChan → Option Outcome
unfolding added
rollout_added = added rollout_kind

unfoldable pub rollout_updated :
    Setting → String → Caches → Object → Object → StatusChan → Option Outcome
unfolding updated
rollout_updated = updated rollout_kind

unfoldable pub rollout_deleted : Setting → String → Caches → Object → StatusChan → Option Outcome
unfolding deleted
rollout_deleted = deleted rollout_kind

abbrev pub as_service : Object → Option Resources.Service
as_service (Object.service s) = some s
as_service _ = none

unfoldable pub service_added : Setting → String → Caches → Object → StatusChan → Option Outcome
service_added setting cluster_id caches obj ch =
    on_cast (as_service obj) (finish caches (start ch)) (λ s.
      finish (record caches { services = Services.add caches.services cluster_id s }) (start ch))

unfoldable pub service_updated :
    Setting → String → Caches → Object → Object → StatusChan → Option Outcome
service_updated setting cluster_id caches new_obj old_obj ch =
    on_cast (as_service new_obj) (finish caches (start ch)) (λ s.
      finish (record caches { services = Services.add caches.services cluster_id s }) (start ch))

unfoldable pub service_deleted : Setting → String → Caches → Object → StatusChan → Option Outcome
service_deleted setting cluster_id caches obj ch =
    on_cast (as_service obj) (finish caches (start ch)) (λ s.
      finish (record caches { services = Services.delete caches.services cluster_id s }) (start ch))
