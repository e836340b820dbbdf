-- ===== src/Cache/Clusters/Laws.antt =====
-- What the remote cluster cache promises to its readers.
use naavik.Common.{String, none, some, ◌≡◌, arith, ◌==◌, if◌then◌else◌}
use naavik.Common.Table
use naavik.Common.Table.{get-set, get-delete}
use naavik.Common.Text.{to_lower}
use naavik.Cache.Clusters.{
  RemoteCluster, Cache, get_cluster_id, add_cluster, delete_cluster, get_cluster,
}

module _ {Clients : Type 0} where
  -- After `AddCluster`, `GetCluster` finds the cluster by its name in any case; after
  -- `DeleteCluster`, it finds none by that name; every other read is as before.
  pub get_cluster-add-delete :
      (c : Cache Clients) (rc : RemoteCluster Clients) (deleted read : String)
      → get_cluster (delete_cluster (add_cluster c rc) deleted) read ≡ (
          if to_lower deleted == to_lower read
          then none
          else if to_lower rc.cluster_id == to_lower read
          then some rc
          else get_cluster c read)
  unfolding get_cluster delete_cluster add_cluster get_cluster_id
  get_cluster-add-delete c rc deleted read = ground (
    arith,
    get-delete (Table.set c (to_lower rc.cluster_id) rc) (to_lower deleted) (to_lower read),
    get-set c (to_lower rc.cluster_id) (to_lower read) rc,
  )
