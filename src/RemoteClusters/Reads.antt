-- ===== src/RemoteClusters/Reads.antt =====
-- What the cluster cache answers after a secret is handled.

use naavik.Common.{
  String, Bool, true, false, ◌||◌, [], ◌∷◌, Option, none, some, ◌≡◌, ◌⊎◌, inl, inr, refl, ap, ◌∙◌,
  arith, ◌==◌, eq_iff, eq_refl, if◌then◌else◌, is_some, Option-cases,
}
use naavik.Common.Table
use naavik.Common.Table.{Table, get-set, get-delete}
use naavik.Common.Table.Laws.{Entries}
use naavik.Common.Text.{to_lower}
use naavik.Options.{NaavikArgs}
use naavik.Cache.Clusters
use naavik.Cache.Clusters.{RemoteCluster, get_cluster, add_cluster, delete_cluster, get_cluster_id}
use naavik.RemoteClusters.{Loader, Clients}
use naavik.RemoteClusters.Resolve.{
  ConfigResolver, Result, ok, err, or_err, ResolveError, resolve_config, ◌>>=◌,
}
use naavik.RemoteClusters.Controllers.{
  Registry, delete_remote_cluster_from_cache, stop_remote_cluster_controllers,
}
use naavik.RemoteClusters.Secrets.{with_found, add_all, stop_all}

-- Whether the data of a secret has a cluster, in any case.
abbrev pub has_cluster : Table String → String → Bool
has_cluster [] k = false
has_cluster ((cluster_id, config) ∷ data_of) k =
    to_lower cluster_id == to_lower k || has_cluster data_of k

module _ {Clients : Type 0} where
  -- After the stops, the clusters of the data are gone, and the others are as before.
  pub get-stop_all :
      (data_of : Table String) (r : Registry Clients) (k : String)
      → get_cluster (stop_all r data_of).clusters k
        ≡ (if has_cluster data_of k then none else get_cluster r.clusters k)
  unfolding stop_all stop_remote_cluster_controllers delete_remote_cluster_from_cache get_cluster
      delete_cluster
  get-stop_all [] r k = refl
  get-stop_all ((cluster_id, config) ∷ data_of) r k =
      let next : Registry Clients =
        delete_remote_cluster_from_cache (stop_remote_cluster_controllers r cluster_id)
          cluster_id in
      ground (
        arith,
        get-stop_all data_of next k,
        get-delete r.clusters (to_lower cluster_id) (to_lower k),
      )

module _ {Config ClientConfig RestConfig Client : Type 0}
    (loader : Loader Config ClientConfig RestConfig Client) (resolver : ConfigResolver)
    (params : NaavikArgs) where
  -- What a cluster is when it is resolved.
  abbrev IsResolved :
      String → String → Result (RemoteCluster (Clients ClientConfig Client)) → Type 0
  IsResolved secret_key identifier (err e) = Unit
  IsResolved secret_key identifier (ok cluster) =
      (cluster.cluster_id ≡ secret_key) × (cluster.secret_identifier ≡ identifier)

  after_step :
      {A : Type 0} (secret_key identifier : String) (m : Option A) (e : ResolveError)
      (f : A → Result (RemoteCluster (Clients ClientConfig Client)))
      → ((a : A) → IsResolved secret_key identifier (f a))
      → IsResolved secret_key identifier (or_err m e >>= f)
  after_step secret_key identifier none e f h = tt
  after_step secret_key identifier (some a) e f h = h a

  -- A resolved cluster has the id and the secret that it is resolved for.
  pub resolve_config-ids :
      (secret_key identifier secret_value : String)
      → IsResolved secret_key identifier
          (resolve_config loader resolver secret_key identifier secret_value)
  unfolding resolve_config
  resolve_config-ids secret_key identifier secret_value = ground arith

  abbrev is_ok : Result (RemoteCluster (Clients ClientConfig Client)) → Bool
  is_ok (err e) = false
  is_ok (ok cluster) = true

  abbrev pub resolvable : String → String → String → Bool
  resolvable identifier cluster_id config =
      is_ok (resolve_config loader resolver cluster_id identifier config)

  -- A read after one turn of the loop, from the read before it.
  abbrev read_after :
      Option (RemoteCluster (Clients ClientConfig Client))
      → Result (RemoteCluster (Clients ClientConfig Client))
      → String
      → String
      → Option (RemoteCluster (Clients ClientConfig Client))
      → Option (RemoteCluster (Clients ClientConfig Client))
  read_after (some cluster) resolved cluster_id k old = old
  read_after none (err e) cluster_id k old = old
  read_after none (ok cluster) cluster_id k old =
      if to_lower cluster_id == to_lower k then some cluster else old

  get-with_found :
      (found : Option (RemoteCluster (Clients ClientConfig Client)))
      (resolved : Result (RemoteCluster (Clients ClientConfig Client)))
      (identifier cluster_id k : String) (r : Registry (Clients ClientConfig Client))
      → IsResolved cluster_id identifier resolved
      → get_cluster (with_found loader resolver params r found resolved).clusters k
        ≡ read_after found resolved cluster_id k (get_cluster r.clusters k)
  unfolding get_cluster add_cluster get_cluster_id
  get-with_found (some cluster) resolved identifier cluster_id k r h = refl
  get-with_found none (err e) identifier cluster_id k r h = refl
  get-with_found none (ok cluster) identifier cluster_id k r (same, secret) =
      get-set r.clusters (to_lower cluster.cluster_id) (to_lower k) cluster
      ∙ ap
          (λ s.
            if to_lower s == to_lower k then some cluster else Table.get r.clusters (to_lower k))
          same

  -- One turn of the loop
  abbrev turn :
      String
      → Registry (Clients ClientConfig Client)
      → String
      → String
      → Registry (Clients ClientConfig Client)
  turn identifier r cluster_id config =
      with_found loader resolver params r (get_cluster r.clusters cluster_id)
        (resolve_config loader resolver cluster_id identifier config)

  get-turn :
      (identifier cluster_id config k : String) (r : Registry (Clients ClientConfig Client))
      → get_cluster (turn identifier r cluster_id config).clusters k
        ≡ read_after
            (get_cluster r.clusters cluster_id)
            (resolve_config loader resolver cluster_id identifier config)
            cluster_id
            k
            (get_cluster r.clusters k)
  get-turn identifier cluster_id config k r =
      get-with_found (get_cluster r.clusters cluster_id)
        (resolve_config loader resolver cluster_id identifier config) identifier cluster_id k r
        (resolve_config-ids cluster_id identifier config)

  same_cluster :
      (c : Clusters.Cache (Clients ClientConfig Client)) (cluster_id k : String)
      → (to_lower cluster_id == to_lower k) ≡ true
      → get_cluster c cluster_id ≡ get_cluster c k
  unfolding get_cluster
  same_cluster c cluster_id k h =
      ap (λ s. Table.get c s) ((eq_iff (to_lower cluster_id) (to_lower k)).0 h)

  turn-keeps :
      (identifier cluster_id config k : String) (r : Registry (Clients ClientConfig Client))
      (cluster : RemoteCluster (Clients ClientConfig Client))
      → get_cluster r.clusters k ≡ some cluster
      → get_cluster (turn identifier r cluster_id config).clusters k ≡ some cluster
  turn-keeps identifier cluster_id config k r cluster h =
      ground
        (arith, get-turn identifier cluster_id config k r, same_cluster r.clusters cluster_id k)

  -- A cluster that is cached stays as it is.
  pub add_all-keeps :
      (identifier k : String) (data_of : Table String) (r : Registry (Clients ClientConfig Client))
      (cluster : RemoteCluster (Clients ClientConfig Client))
      → get_cluster r.clusters k ≡ some cluster
      → get_cluster (add_all loader resolver params identifier r data_of).clusters k ≡ some cluster
  unfolding add_all
  add_all-keeps identifier k [] r cluster h = h
  add_all-keeps identifier k ((cluster_id, config) ∷ data_of) r cluster h =
      add_all-keeps identifier k data_of (turn identifier r cluster_id config) cluster
        (turn-keeps identifier cluster_id config k r cluster h)

  turn-new :
      (identifier cluster_id config k : String) (r : Registry (Clients ClientConfig Client))
      (cluster : RemoteCluster (Clients ClientConfig Client))
      → get_cluster (turn identifier r cluster_id config).clusters k ≡ some cluster
      → (get_cluster r.clusters k ≡ some cluster)
        ⊎ ((cluster.secret_identifier ≡ identifier) × ((to_lower cluster_id == to_lower k) ≡ true))
  turn-new identifier cluster_id config k r cluster h = ground (
    arith,
    get-turn identifier cluster_id config k r,
    resolve_config-ids cluster_id identifier config,
  )

  -- A cluster that is cached was so before, or it is of this secret and in its data.
  pub add_all-new :
      (identifier k : String) (data_of : Table String) (r : Registry (Clients ClientConfig Client))
      (cluster : RemoteCluster (Clients ClientConfig Client))
      → get_cluster (add_all loader resolver params identifier r data_of).clusters k ≡ some cluster
      → (get_cluster r.clusters k ≡ some cluster)
        ⊎ ((cluster.secret_identifier ≡ identifier) × (has_cluster data_of k ≡ true))
  unfolding add_all
  add_all-new identifier k [] r cluster h = inl h
  add_all-new identifier k ((cluster_id, config) ∷ data_of) r cluster h =
      elim (add_all-new identifier k data_of (turn identifier r cluster_id config) cluster h) [
        | inr (secret, there) ↦ inr (secret, ground arith)
        | inl before ↦ elim (turn-new identifier cluster_id config k r cluster before) [
          | inl old ↦ inl old
          | inr (secret, there) ↦ inr (secret, ground arith)
        ]
      ]

  turn-adds :
      (identifier cluster_id config : String) (r : Registry (Clients ClientConfig Client))
      → resolvable identifier cluster_id config ≡ true
      → is_some (get_cluster (turn identifier r cluster_id config).clusters cluster_id) ≡ true
  turn-adds identifier cluster_id config r h =
      ground
        (arith, get-turn identifier cluster_id config cluster_id r, eq_refl (to_lower cluster_id))

  still_there :
      (identifier k : String) (data_of : Table String) (r : Registry (Clients ClientConfig Client))
      → is_some (get_cluster r.clusters k) ≡ true
      → is_some (get_cluster (add_all loader resolver params identifier r data_of).clusters k)
        ≡ true
  still_there identifier k data_of r h = elim (Option-cases (get_cluster r.clusters k)) [
    | inl absent ↦ absurd (ground arith)
    | inr (cluster, there) ↦ rw (add_all-keeps identifier k data_of r cluster there) refl
  ]

  -- Every cluster of the data is cached after the loop, if it is resolved.
  pub add_all-adds :
      (identifier : String) (data_of : Table String) (r : Registry (Clients ClientConfig Client))
      → Entries
          (λ cluster_id config.
            resolvable identifier cluster_id config ≡ true
            → is_some (
                get_cluster
                  (add_all loader resolver params identifier r data_of).clusters
                  cluster_id)
              ≡ true)
          data_of
  unfolding add_all
  add_all-adds identifier [] r = tt
  add_all-adds identifier ((cluster_id, config) ∷ data_of) r = (
    λ resolved.
        still_there identifier cluster_id data_of (turn identifier r cluster_id config)
          (turn-adds identifier cluster_id config r resolved),
    add_all-adds identifier data_of (turn identifier r cluster_id config),
  )
