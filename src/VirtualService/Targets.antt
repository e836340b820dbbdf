-- ===== src/VirtualService/Targets.antt =====
-- Where virtual services go, and in what form.
use naavik.Common.{
  String, Bool, true, false, not, ◌&&◌, List, [], ◌∷◌, Option, none, some, ◌≡◌, refl, arith,
  if◌then◌else◌, is_some, some_of, Bool-cases, Option-cases, inl, inr,
}
use naavik.Options.{NaavikArgs, Compile, is_cluster_in_allowed_scope}
use naavik.Resources.{TrafficConfig}
use naavik.TrafficUtil.{is_disabled}
use naavik.Cache.Clusters
use naavik.VirtualService.Build.{VirtualService}
use naavik.VirtualService.Apply.{
  Existing, ApiCall, cluster_of, delete_virtual_service, update_virtual_service, can_write,
  create_virtual_service, create_update_delete_virtual_services, apply_all,
}

abbrev pub clusters_of : List ApiCall → List String
clusters_of [] = []
clusters_of (call ∷ calls) = cluster_of call ∷ clusters_of calls

abbrev is_deletion : ApiCall → Bool
is_deletion (delete_virtual_service cluster name) = true
is_deletion (update_virtual_service cluster vs) = false
is_deletion (create_virtual_service cluster vs) = false

-- Every call is a deletion, or none is.
abbrev pub all_deletions : Bool → List ApiCall → Bool
all_deletions b [] = true
all_deletions true (call ∷ calls) = is_deletion call && all_deletions true calls
all_deletions false (call ∷ calls) = not (is_deletion call) && all_deletions false calls

all_deletions-cons :
    (b : Bool) (call : ApiCall) (calls : List ApiCall)
    → is_deletion call ≡ b
    → all_deletions b calls ≡ true
    → all_deletions b (call ∷ calls) ≡ true
all_deletions-cons true call calls h k = ground arith
all_deletions-cons false call calls h k = ground arith

create_update_delete-cluster :
    (existing : Existing) (cluster : String) (vs : VirtualService) (tc : TrafficConfig)
    → cluster_of (create_update_delete_virtual_services existing cluster vs tc).0 ≡ cluster
unfolding create_update_delete_virtual_services
create_update_delete-cluster existing cluster vs tc = ground arith

create_update_delete-annotations :
    (existing : Existing) (cluster : String) (vs : VirtualService) (tc : TrafficConfig)
    → is_some vs.annotations ≡ true
    → is_some (create_update_delete_virtual_services existing cluster vs tc).1.annotations ≡ true
unfolding create_update_delete_virtual_services
create_update_delete-annotations existing cluster vs tc h = ground arith

create_update_delete-can_write :
    (existing : Existing) (cluster : String) (vs : VirtualService) (tc : TrafficConfig)
    → is_some vs.annotations ≡ true
    → can_write (create_update_delete_virtual_services existing cluster vs tc).0 ≡ true
unfolding create_update_delete_virtual_services can_write
create_update_delete-can_write existing cluster vs tc h = ground arith

create_update_delete-deletion :
    (existing : Existing) (cluster : String) (vs : VirtualService) (tc : TrafficConfig)
    → is_deletion (create_update_delete_virtual_services existing cluster vs tc).0 ≡ is_disabled tc
unfolding create_update_delete_virtual_services
create_update_delete-deletion existing cluster vs tc = ground arith

module _ {Clients : Type 0} (compile : Compile) (params : NaavikArgs)
    (registered : Clusters.Cache Clients) where
  -- The clusters, of those given, that are in scope and registered.
  abbrev allowed : Option Bool → Bool
  allowed none = false
  allowed (some b) = b

  abbrev pub targets : List String → List String
  targets [] = []
  targets (cluster ∷ clusters) =
      if allowed (is_cluster_in_allowed_scope compile params cluster)
        && is_some (Clusters.get_cluster registered cluster)
      then cluster ∷ targets clusters
      else targets clusters

  -- For an object with annotations, and where every scope compiles, the loop over the clusters ends without a panic after exactly one
  -- call for each cluster that is in scope and registered, in order: a deletion each if the
  -- configuration is disabled, and else no deletion.
  pub apply_all-targets :
      (existing : Existing) (tc : TrafficConfig) (vs : VirtualService) (clusters : List String)
      → ((cluster : String) → is_some (is_cluster_in_allowed_scope compile params cluster) ≡ true)
      → is_some vs.annotations ≡ true
      → (calls : List ApiCall) × (apply_all compile params registered existing tc vs clusters
          ≡ some calls)
        × (clusters_of calls ≡ targets clusters)
        × (all_deletions (is_disabled tc) calls ≡ true)
  unfolding apply_all
  apply_all-targets existing tc vs [] compiles written = ([], refl, refl, refl)
  apply_all-targets existing tc vs (cluster ∷ clusters) compiles written =
      let call = (create_update_delete_virtual_services existing cluster vs tc).0 in
      let next = (create_update_delete_virtual_services existing cluster vs tc).1 in
      let (skipped, same, sent, kind) =
        apply_all-targets existing tc vs clusters compiles written in
      let (later, same_later, sent_later, kind_later) =
        apply_all-targets existing tc next clusters compiles
          (create_update_delete-annotations existing cluster vs tc written) in
      elim (Option-cases (is_cluster_in_allowed_scope compile params cluster)) [
        | inl e ↦ absurd (ground (arith, compiles cluster))
        | inr (b, e) ↦ elim (Bool-cases b) [
          | inr out ↦ (skipped, rw (e, out) same, rw (e, out) sent, kind)
          | inl inside ↦ elim (Option-cases (Clusters.get_cluster registered cluster)) [
            | inl z ↦ (skipped, rw (e, inside, z) same, rw (e, inside, z) sent, kind)
            | inr (rc, z) ↦ (
              call ∷ later,
              rw
                  (
                    e,
                    inside,
                    z,
                    same_later,
                    create_update_delete-can_write existing cluster vs tc written,
                  )
                  refl,
              rw (e, inside, z, create_update_delete-cluster existing cluster vs tc, sent_later)
                  refl,
              all_deletions-cons (is_disabled tc) call later
                  (create_update_delete-deletion existing cluster vs tc) kind_later,
            )
          ]
        ]
      ]

updating :
    (existing : Existing) (cluster version : String) (vs : VirtualService) (tc : TrafficConfig)
    → is_disabled tc ≡ false
    → existing cluster vs.name ≡ some version
    → let object : VirtualService = record vs { resource_version = version } in
      create_update_delete_virtual_services existing cluster vs tc
      ≡ (update_virtual_service cluster object, object)
unfolding create_update_delete_virtual_services
updating existing cluster version vs tc enabled there = rw (enabled, there) refl

creating :
    (existing : Existing) (cluster : String) (vs : VirtualService) (tc : TrafficConfig)
    → is_disabled tc ≡ false
    → existing cluster vs.name ≡ none
    → create_update_delete_virtual_services existing cluster vs tc
      ≡ (create_virtual_service cluster vs, vs)
unfolding create_update_delete_virtual_services
creating existing cluster vs tc enabled absent = rw (enabled, absent) refl

-- One turn of the loop, in a cluster that is in scope and registered.
apply_all-turn :
    {Clients : Type 0} (compile : Compile) (params : NaavikArgs)
    (registered : Clusters.Cache Clients) (existing : Existing) (tc : TrafficConfig)
    (vs next : VirtualService) (cluster : String) (clusters : List String) (call : ApiCall)
    (calls : List ApiCall)
    → is_cluster_in_allowed_scope compile params cluster ≡ some true
    → is_some (Clusters.get_cluster registered cluster) ≡ true
    → create_update_delete_virtual_services existing cluster vs tc ≡ (call, next)
    → can_write call ≡ true
    → apply_all compile params registered existing tc next clusters ≡ some calls
    → apply_all compile params registered existing tc vs (cluster ∷ clusters) ≡ some (call ∷ calls)
unfolding apply_all
apply_all-turn compile params registered existing tc vs next cluster clusters call calls inside
      there made written later =
    let (rc, e) = some_of (Clusters.get_cluster registered cluster) there in
    rw (inside, e, made, later, written) refl

-- When the loop goes over two clusters that are in scope and registered, of which the first one has
-- the virtual service of an enabled configuration and the second one has none, for an object with
-- annotations, it makes an update and then a creation, and the creation in the second cluster carries
-- the resource version of the first one.
pub apply_all-creation :
    {Clients : Type 0} (compile : Compile) (params : NaavikArgs)
    (registered : Clusters.Cache Clients) (existing : Existing) (first second version : String)
    (vs : VirtualService) (tc : TrafficConfig)
    → is_cluster_in_allowed_scope compile params first ≡ some true
    → is_cluster_in_allowed_scope compile params second ≡ some true
    → is_some (Clusters.get_cluster registered first) ≡ true
    → is_some (Clusters.get_cluster registered second) ≡ true
    → is_some vs.annotations ≡ true
    → is_disabled tc ≡ false
    → existing first vs.name ≡ some version
    → existing second vs.name ≡ none
    → let object : VirtualService = record vs { resource_version = version } in
      apply_all compile params registered existing tc vs (first ∷ second ∷ [])
      ≡ some (update_virtual_service first object ∷ create_virtual_service second object ∷ [])
unfolding apply_all can_write
apply_all-creation compile params registered existing first second version vs tc in_first in_second
      first_there second_there written enabled there absent =
    let object : VirtualService = record vs { resource_version = version } in
    let now = updating existing first version vs tc enabled there in
    let next = creating existing second object tc enabled absent in
    apply_all-turn compile params registered existing tc vs object first (second ∷ []) _ _ in_first
      first_there now written
      (apply_all-turn compile params registered existing tc object object second [] _ [] in_second
        second_there next written refl)
