-- ===== src/Cache/Clusters.antt =====
-- internal/cache/remote_cluster_cache.go: the remote clusters, and their record
-- (internal/types/remotecluster/remote_cluster.go). The clients of a cluster are of a type of their
-- libraries, `Clients`.
pub mod Laws
use naavik.Common.{String, Bool, true, List, [], Option, none, some}
use naavik.Common.Table
use naavik.Common.Table.{Table}
use naavik.Common.Text.{to_lower}

pub record RemoteCluster (Clients : Type 0) : Type 0 where
  pub cluster_id : String
  pub context_name : String
  pub secret_identifier : String
  pub host : String
  pub clients : Clients

abbrev pub Cache : Type 0 → Type 0
Cache Clients = Table (RemoteCluster Clients)

-- The end of `UpdateCluster`: the previous cluster and the flag, or a panic.
pub data Updated (Clients : Type 0) : Type 0 where
  returned : RemoteCluster Clients → Bool → Updated Clients
  panicked : Updated Clients

module _ {Clients : Type 0} where
  unfoldable pub get_cluster_id : RemoteCluster Clients → String
  get_cluster_id rc = to_lower rc.cluster_id

  unfoldable pub add_cluster : Cache Clients → RemoteCluster Clients → Cache Clients
  unfolding get_cluster_id
  add_cluster c rc = Table.set c (get_cluster_id rc) rc

  unfoldable pub delete_cluster : Cache Clients → String → Cache Clients
  delete_cluster c cluster_id = Table.delete c (to_lower cluster_id)

  -- The cluster, which is nil where the flag of the code is false.
  unfoldable pub get_cluster : Cache Clients → String → Option (RemoteCluster Clients)
  get_cluster c cluster_id = Table.get c (to_lower cluster_id)

  unfoldable pub list_clusters : Cache Clients → List (RemoteCluster Clients)
  list_clusters c = Table.values c

  -- The type assertion on what `Swap` returned, which panics on nil.
  abbrev asserted : Option (RemoteCluster Clients) → Updated Clients
  asserted none = panicked
  asserted (some previous) = returned previous true

  -- The cache, and how the call ends, after the store in either case.
  unfoldable pub update_cluster :
      Cache Clients → String → RemoteCluster Clients → Cache Clients × Updated Clients
  update_cluster c cluster_id rc =
      (Table.set c (to_lower cluster_id) rc, asserted (Table.get c (to_lower cluster_id)))

  unfoldable pub reset : Cache Clients → Cache Clients
  reset c = []
