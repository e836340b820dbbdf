-- ===== src/Server/Exact.antt =====
-- What the gathered resources hold, and which requests get the same answer.
use naavik.Common.{
  String, Bool, false, ◌&&◌, ◌||◌, List, [], ◌∷◌, Option, none, some, ◌≡◌, refl, arith, ◌==◌,
  eq_iff, if◌then◌else◌, Option-cases, inl, inr,
}
use naavik.Common.Table
use naavik.Common.Table.{Table, get-set}
use naavik.Common.Types.{namespace_istio_system}
use naavik.Options.{NaavikArgs}
use naavik.Cache.Clusters
use naavik.Cache.Clusters.{RemoteCluster, get_cluster_id}
use naavik.Cache.Identities
use naavik.Cache.Dependencies
use naavik.Handlers.{Caches}
use naavik.Server.{Resource, Istio, filter_list, service_list, listed, resources, status_ok}
use naavik.Server.Gathered.{
  Resources, or_new, put, update_all, update_throttle_envoy_filters, update_virtual_services,
  clusters_of_all, throttle_filters_of, virtual_services_of, resource_selector,
  get_resources_related_to_identity,
}
use naavik.Server.Routes.{respond, answered}

module _ {FilterList ServiceList : Type 0} where
  -- The resource of a name in a cluster
  abbrev pub held :
      Resources FilterList ServiceList → String → String → Option (Resource FilterList ServiceList)
  held m cluster_id key = Table.get (or_new (Table.get m cluster_id)) key

  put-held :
      {A : Type 0} (found : A → Resource FilterList ServiceList)
      (m : Resources FilterList ServiceList) (cluster_id key : String) (l : A)
      → (next : Resources FilterList ServiceList) × (put found m cluster_id key (listed l)
          ≡ some next)
        × ((id name : String)
            → held next id name
              ≡ (if cluster_id == id && key == name then some (found l) else held m id name))
  unfolding put
  put-held found m cluster_id key l = (
    _,
    refl,
    λ id name. ground (
      arith,
      get-set m cluster_id id (Table.set (or_new (Table.get m cluster_id)) key (found l)),
      get-set (or_new (Table.get m cluster_id)) key name (found l),
      eq_iff cluster_id id,
    ),
  )

module _ {Clients FilterList ServiceList : Type 0} (istio : Istio FilterList ServiceList)
    (params : NaavikArgs) (caches : Caches) (registered : Clusters.Cache Clients) where
  -- Whether one of some names is that of a cached cluster with an id.
  abbrev pub reaches_in : Option (RemoteCluster Clients) → String → Bool
  reaches_in none id = false
  reaches_in (some rc) id = get_cluster_id rc == id

  abbrev pub reaches : List String → String → Bool
  reaches [] id = false
  reaches (cluster ∷ clusters) id =
      reaches_in (Clusters.get_cluster registered cluster) id || reaches clusters id

  update_all-held :
      (update : Resources FilterList ServiceList
        → RemoteCluster Clients
        → Option (Resources FilterList ServiceList))
      (value : String → Resource FilterList ServiceList) (key : String) (clusters : List String)
      (m : Resources FilterList ServiceList)
      → ((n : Resources FilterList ServiceList) (rc : RemoteCluster Clients)
          → (next : Resources FilterList ServiceList) × (update n rc ≡ some next)
            × ((id name : String)
                → held next id name ≡ (
                    if get_cluster_id rc == id && key == name
                    then some (value (get_cluster_id rc))
                    else held n id name)))
      → (next : Resources FilterList ServiceList) × (update_all istio params caches registered
            update clusters
            (some m)
          ≡ some next)
        × ((id name : String)
            → held next id name
              ≡ (if reaches clusters id && key == name then some (value id) else held m id name))
  unfolding update_all
  update_all-held update value key [] m each = (m, refl, λ id name. refl)
  update_all-held update value key (cluster ∷ clusters) m each =
      elim (Option-cases (Clusters.get_cluster registered cluster)) [
        | inl absent ↦ rw absent (update_all-held update value key clusters m each)
        | inr (rc, cached) ↦
            let (next, updated, holds) = each m rc in
            let (end, rest, holds_rest) = update_all-held update value key clusters next each in
            (
              end,
              rw (cached, updated) rest,
              λ id name. rw cached (
                  ground (arith, holds_rest id name, holds id name, eq_iff (get_cluster_id rc) id)),
            )
      ]

  -- Where every listing answers, the resources of an identity are found without a panic. They are,
  -- exactly: in each cached cluster of a dependent the virtual services that are listed there for the
  -- identity, and in each cached cluster of the identity the throttle filters that are listed there.
  pub get_resources_related_to_identity-exact :
      (identity : String) (filters : String → FilterList) (services : String → ServiceList)
      → ((cluster : String)
          → istio.list_envoy_filters cluster namespace_istio_system (resource_selector identity "")
            ≡ listed (filters cluster))
      → ((cluster : String)
          → istio.list_virtual_services cluster params.sync_namespace
              (resource_selector identity "")
            ≡ listed (services cluster))
      → (m : Resources FilterList ServiceList) × (get_resources_related_to_identity istio params
            caches registered identity
          ≡ some (record { status = status_ok; body = resources m }))
        × ((id name : String)
            → let others =
                clusters_of_all istio params caches registered
                  (Dependencies.get_dependents_for_identity caches.dependencies identity) in
              let own = Identities.get_clusters_for_identity caches.identities identity in
              held m id name ≡ (
                if reaches others id && virtual_services_of identity == name
                then some (service_list (services id))
                else if reaches own id && throttle_filters_of identity == name
                then some (filter_list (filters id))
                else none))
  unfolding get_resources_related_to_identity update_throttle_envoy_filters update_virtual_services
      Table.get
  get_resources_related_to_identity-exact identity filters services filters_of services_of =
      let (half, made, holds) =
        update_all-held
          (λ m rc. update_throttle_envoy_filters istio params caches registered m rc identity "")
          (λ id. filter_list (filters id)) (throttle_filters_of identity)
          (Identities.get_clusters_for_identity caches.identities identity) []
          (λ n rc. rw (filters_of (get_cluster_id rc)) (
            put-held filter_list n (get_cluster_id rc) (throttle_filters_of identity)
              (filters (get_cluster_id rc)))) in
      let (all, gathered_all, holds_all) =
        update_all-held
          (λ m rc. update_virtual_services istio params caches registered m rc identity "")
          (λ id. service_list (services id)) (virtual_services_of identity)
          (clusters_of_all istio params caches registered
            (Dependencies.get_dependents_for_identity caches.dependencies identity))
          half
          (λ n rc. rw (services_of (get_cluster_id rc)) (
            put-held service_list n (get_cluster_id rc) (virtual_services_of identity)
              (services (get_cluster_id rc)))) in
      (
        all,
        rw (made, gathered_all) refl,
        λ id name. ground (arith, holds_all id name, holds id name),
      )

  -- The route for the resources of an identity and one dependent answers the same for every dependent:
  -- it is the answer for the identity and all of them.
  pub respond-dependent :
      (identity dependent : String)
      → let p : Table String = ("identity", identity) ∷ ("dependent", dependent) ∷ [] in
        respond istio params caches registered
          "/api/v1/trafficonfig/resources/identities/:identity/dependents/:dependent" p
        ≡ get_resources_related_to_identity istio params caches registered identity
  unfolding respond answered Table.get
  respond-dependent identity dependent = refl
