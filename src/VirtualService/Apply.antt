-- ===== src/VirtualService/Apply.antt =====
-- Where virtual_service.go writes a virtual service: the clusters of the dependents. The answers of
-- the Istio API are a parameter: the resource version of the virtual service of a name in a cluster,
-- if there is one and the call succeeds. The other calls are recorded, in order; their results
-- are only logged.
use naavik.Common.{
  is_some, String, Bool, true, false, List, [], ◌∷◌, Option, none, some, ◌==◌, is_empty,
  if◌then◌else◌,
}
use naavik.Common.Table
use naavik.Common.Table.{Table}
use naavik.Options.{NaavikArgs, Compile, is_asset_ignored, is_cluster_in_allowed_scope}
use naavik.Resources.{TrafficConfig}
use naavik.TrafficUtil.{get_identity, get_env, is_disabled}
use naavik.Cache.Clusters
use naavik.Cache.Identities
use naavik.Cache.Identities.{get_clusters_for_identity}
use naavik.Cache.Dependencies
use naavik.Cache.Dependencies.{get_dependents_for_identity}
use naavik.VirtualService.Build.{VirtualService, build_virtual_service_for_mesh_dependents}

-- The resource version of what is there, by cluster and name.
abbrev pub Existing : Type 0
Existing = String → String → Option String

pub data ApiCall : Type 0 where
  delete_virtual_service : String → String → ApiCall
  update_virtual_service create_virtual_service : String → VirtualService → ApiCall

abbrev pub cluster_of : ApiCall → String
cluster_of (delete_virtual_service cluster name) = cluster
cluster_of (update_virtual_service cluster vs) = cluster
cluster_of (create_virtual_service cluster vs) = cluster

-- The call, and the object after it: the resource version that an update sets stays in the object,
-- which is the same one for every cluster.
unfoldable pub create_update_delete_virtual_services :
    Existing → String → VirtualService → TrafficConfig → ApiCall × VirtualService
create_update_delete_virtual_services existing cluster vs tc =
    if is_disabled tc
    then (delete_virtual_service cluster vs.name, vs)
    else elim (existing cluster vs.name) [
      | none ↦ (create_virtual_service cluster vs, vs)
      | some version ↦ (
        update_virtual_service cluster (record vs { resource_version = version }),
        record vs { resource_version = version },
      )
    ]

put_clusters : Table String → List String → Table String
put_clusters m [] = m
put_clusters m (cluster ∷ clusters) = put_clusters (Table.set m cluster cluster) clusters

-- The clusters of the dependents that are not ignored; with a source identity, only of that one.
dependent_clusters :
    NaavikArgs → Identities.Cache → String → Table String → List String → Table String
unfolding put_clusters
dependent_clusters params identities source m [] = m
dependent_clusters params identities source m (dependent ∷ dependents) =
    if is_asset_ignored params dependent
    then dependent_clusters params identities source m dependents
    else if source == ""
    then dependent_clusters params identities source
        (put_clusters m (get_clusters_for_identity identities dependent)) dependents
    else if source == dependent
    then dependent_clusters params identities source
        (put_clusters m (get_clusters_for_identity identities dependent)) dependents
    else dependent_clusters params identities source m dependents

-- pkg/clients/clientset/istio/virtual_service.go: a creation and an update write a time stamp into
-- the annotations, which panics on a nil map. The time stamp itself is left out.
unfoldable pub can_write : ApiCall → Bool
can_write (delete_virtual_service cluster name) = true
can_write (update_virtual_service cluster vs) = is_some vs.annotations
can_write (create_virtual_service cluster vs) = is_some vs.annotations

module _ {Clients : Type 0} where
  -- One turn: by the scope, whether the cluster is registered, and the calls of the other turns.
  abbrev next_calls :
      Option Bool
      → Option (Clusters.RemoteCluster Clients)
      → ApiCall
      → Option (List ApiCall)
      → Option (List ApiCall)
      → Option (List ApiCall)
  next_calls none rc call skipping later = none
  next_calls (some false) rc call skipping later = skipping
  next_calls (some true) none call skipping later = skipping
  next_calls (some true) (some rc) call skipping none = none
  next_calls (some true) (some rc) call skipping (some calls) =
      if can_write call then some (call ∷ calls) else none

  -- The loop over the clusters. `none` is a panic, on a scope that does not compile or in a call.
  unfoldable pub apply_all :
      Compile
      → NaavikArgs
      → Clusters.Cache Clients
      → Existing
      → TrafficConfig
      → VirtualService
      → List String
      → Option (List ApiCall)
  unfolding create_update_delete_virtual_services can_write
  apply_all compile params registered existing tc vs [] = some []
  apply_all compile params registered existing tc vs (cluster ∷ clusters) =
      let (call, next) = create_update_delete_virtual_services existing cluster vs tc in
      let skipping = apply_all compile params registered existing tc vs clusters in
      let later = apply_all compile params registered existing tc next clusters in
      next_calls (is_cluster_in_allowed_scope compile params cluster)
        (Clusters.get_cluster registered cluster) call skipping later

  unfoldable pub handle_virtual_service_for_mesh_dependents :
      Compile
      → NaavikArgs
      → Identities.Cache
      → Clusters.Cache Clients
      → Existing
      → String
      → List String
      → TrafficConfig
      → Option (List ApiCall)
  unfolding dependent_clusters
  handle_virtual_service_for_mesh_dependents compile params identities registered existing source
        dependents tc =
      let clusters = Table.keys (dependent_clusters params identities source [] dependents) in
      if is_empty clusters
      then some []
      else elim (build_virtual_service_for_mesh_dependents params tc) [
        | none ↦ some []
        | some vs ↦ apply_all compile params registered existing tc vs clusters
      ]

  -- `HandleVirtualServiceForTrafficConfig`, whose contexts carry no source identity
  unfoldable pub handle_virtual_service_for_traffic_config :
      Compile
      → NaavikArgs
      → Identities.Cache
      → Dependencies.Cache
      → Clusters.Cache Clients
      → Existing
      → TrafficConfig
      → Option (List ApiCall)
  unfolding handle_virtual_service_for_mesh_dependents
  handle_virtual_service_for_traffic_config compile params identities dependencies registered
        existing tc =
      let dependents = get_dependents_for_identity dependencies (get_identity params tc) in
      if get_env tc == ""
      then some []
      else if is_empty dependents
      then some []
      else handle_virtual_service_for_mesh_dependents compile params identities registered existing
          "" dependents tc
