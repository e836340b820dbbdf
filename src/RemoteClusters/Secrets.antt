-- ===== src/RemoteClusters/Secrets.antt =====
-- internal/handler/remotecluster/clusters_secret_handler.go. The data of a secret is visited in the
-- order of its table.
use naavik.Common.{String, not, ◌&&◌, [], ◌∷◌, ◌++◌, Option, none, some, if◌then◌else◌}
use naavik.Common.Table.{Table}
use naavik.Common.Text.{join}
use naavik.Meta.{ObjectMeta, is_sync_enabled}
use naavik.Options.{NaavikArgs}
use naavik.Resources.{Object}
use naavik.Cache.Clusters
use naavik.Cache.Clusters.{RemoteCluster}
use naavik.Controller.Status.{EventStatus, new_event_process_status, skip_close}
use naavik.Handlers.{StatusChan}
use naavik.RemoteClusters.{Loader, Clients}
use naavik.RemoteClusters.Resolve.{ConfigResolver, Result, ok, err, resolve_config}
use naavik.RemoteClusters.Controllers.{
  Registry, start_remote_cluster_controllers, stop_remote_cluster_controllers,
  delete_remote_cluster_from_cache,
}

unfoldable pub get_secret_identifier : String → String → String
get_secret_identifier namespace name = join (namespace ∷ name ∷ []) "/"

abbrev pub identifier_of : ObjectMeta → String
identifier_of meta = get_secret_identifier meta.namespace meta.name

-- The type assertion.
abbrev pub as_secret : Object → Option (ObjectMeta × Table String)
as_secret (Object.secret meta data_of) = some (meta, data_of)
as_secret _ = none

-- The registry, the status that is returned, and the status channel.
abbrev pub Handled : Type 0 → Type 0
Handled Clients = Registry Clients × EventStatus × StatusChan

abbrev pub closed_with :
    {Clients : Type 0}
    → Registry Clients
    → Option (EventStatus × StatusChan)
    → Option (Handled Clients)
closed_with r none = none
closed_with r (some (status, ch)) = some (r, status, ch)

-- `return controller.NewEventProcessStatus().SkipClose(statusChan)`; `none` is a panic.
unfoldable pub skipped :
    {Clients : Type 0} → Registry Clients → StatusChan → Option (Handled Clients)
unfolding skip_close new_event_process_status
skipped r ch = closed_with r (skip_close new_event_process_status ch)

module _ {Clients : Type 0} where
  -- The loop over the clusters of a secret that is gone
  unfoldable pub stop_all : Registry Clients → Table String → Registry Clients
  unfolding stop_remote_cluster_controllers delete_remote_cluster_from_cache
  stop_all r [] = r
  stop_all r ((cluster_id, kube_config) ∷ rest) =
      stop_all
        (delete_remote_cluster_from_cache (stop_remote_cluster_controllers r cluster_id) cluster_id)
        rest

module _ {Config ClientConfig RestConfig Client : Type 0}
    (loader : Loader Config ClientConfig RestConfig Client) (resolver : ConfigResolver)
    (params : NaavikArgs) where
  -- A cluster that is not cached, by its resolution; it stays out on an error.
  abbrev pub with_resolved :
      Registry (Clients ClientConfig Client)
      → Result (RemoteCluster (Clients ClientConfig Client))
      → Registry (Clients ClientConfig Client)
  with_resolved r (err e) = r
  with_resolved r (ok cluster) = record r {
    clusters = Clusters.add_cluster r.clusters cluster;
    launched = r.launched ++ start_remote_cluster_controllers loader params cluster;
  }

  -- A cluster that is cached stays as it is, whichever secret it came from.
  abbrev pub with_found :
      Registry (Clients ClientConfig Client)
      → Option (RemoteCluster (Clients ClientConfig Client))
      → Result (RemoteCluster (Clients ClientConfig Client))
      → Registry (Clients ClientConfig Client)
  with_found r (some cluster) resolved = r
  with_found r none resolved = with_resolved r resolved

  -- The loop over the clusters of a secret
  unfoldable pub add_all :
      String
      → Registry (Clients ClientConfig Client)
      → Table String
      → Registry (Clients ClientConfig Client)
  unfolding resolve_config start_remote_cluster_controllers
  add_all identifier r [] = r
  add_all identifier r ((cluster_id, kube_config) ∷ rest) =
      add_all identifier
        (with_found r (Clusters.get_cluster r.clusters cluster_id)
          (resolve_config loader resolver cluster_id identifier kube_config))
        rest

  abbrev pub added_secret :
      Registry (Clients ClientConfig Client)
      → StatusChan
      → Option (ObjectMeta × Table String)
      → Option (Handled (Clients ClientConfig Client))
  added_secret r ch none = skipped r ch
  added_secret r ch (some (meta, data_of)) =
      if is_sync_enabled params meta
      then skipped (add_all (identifier_of meta) r data_of) ch
      else skipped r ch

  unfoldable pub added :
      Registry (Clients ClientConfig Client)
      → Object
      → StatusChan
      → Option (Handled (Clients ClientConfig Client))
  unfolding add_all
  added r obj ch = added_secret r ch (as_secret obj)

  abbrev pub updated_secret :
      Registry (Clients ClientConfig Client)
      → Object
      → StatusChan
      → Option (ObjectMeta × Table String)
      → Option (ObjectMeta × Table String)
      → Option (Handled (Clients ClientConfig Client))
  updated_secret r new_obj ch none old_secret = skipped r ch
  updated_secret r new_obj ch (some new_secret) none = skipped r ch
  updated_secret r new_obj ch (some (meta, data_of)) (some (old_meta, old_data)) =
      if is_sync_enabled params old_meta && not (is_sync_enabled params meta)
      then skipped (stop_all r data_of) ch
      else added r new_obj ch

  unfoldable pub updated :
      Registry (Clients ClientConfig Client)
      → Object
      → Object
      → StatusChan
      → Option (Handled (Clients ClientConfig Client))
  unfolding added stop_all
  updated r new_obj old_obj ch = updated_secret r new_obj ch (as_secret new_obj) (as_secret old_obj)

module _ {Clients : Type 0} where
  abbrev pub deleted_secret :
      Registry Clients → StatusChan → Option (ObjectMeta × Table String) → Option (Handled Clients)
  deleted_secret r ch none = skipped r ch
  deleted_secret r ch (some (meta, data_of)) = skipped (stop_all r data_of) ch

  unfoldable pub deleted : Registry Clients → Object → StatusChan → Option (Handled Clients)
  unfolding stop_all
  deleted r obj ch = deleted_secret r ch (as_secret obj)
