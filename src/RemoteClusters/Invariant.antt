-- ===== src/RemoteClusters/Invariant.antt =====
-- The keys of the cluster and controller caches and the stops under way, in the states that the
-- program reaches.

use naavik.Common.{String, not, ◌&&◌, [], ◌∷◌, Option, none, some, ◌≡◌, refl, Bool-cases, inl, inr}
use naavik.Common.Table.{Table}
use naavik.Common.Table.Laws.{Entries-set}
use naavik.Options.{NaavikArgs}
use naavik.Resources.{Object}
use naavik.Meta.{ObjectMeta, is_sync_enabled}
use naavik.Cache.Clusters.{RemoteCluster, get_cluster_id, add_cluster, get_cluster}
use naavik.Handlers.{StatusChan}
use naavik.RemoteClusters.{Loader, Clients}
use naavik.RemoteClusters.Resolve.{ConfigResolver, Result, ok, err, resolve_config}
use naavik.RemoteClusters.Controllers.{Registry}
use naavik.RemoteClusters.Secrets.{
  Handled, added, updated, deleted, add_all, stop_all, as_secret, with_found, added_secret,
  updated_secret, deleted_secret, identifier_of,
}
use naavik.RemoteClusters.Steps.{
  Step, Reach, at_start, then_step, secret_added, secret_updated, secret_deleted,
  controller_registered, stop_begun, stop_finished,
}
use naavik.RemoteClusters.Valid.{
  IsValid, stop_all-IsValid, skipped-IsValid, register-IsValid, begin-IsValid, finish-IsValid,
}

module _ {Config ClientConfig RestConfig Client : Type 0}
    (loader : Loader Config ClientConfig RestConfig Client) (resolver : ConfigResolver)
    (params : NaavikArgs) where
  with_found-IsValid :
      (found : Option (RemoteCluster (Clients ClientConfig Client)))
      (resolved : Result (RemoteCluster (Clients ClientConfig Client)))
      (r : Registry (Clients ClientConfig Client))
      → IsValid r
      → IsValid (with_found loader resolver params r found resolved)
  unfolding add_cluster
  with_found-IsValid (some cluster) resolved r v = v
  with_found-IsValid none (err e) r v = v
  with_found-IsValid none (ok cluster) r v = record {
    keyed = Entries-set _ r.clusters (get_cluster_id cluster) cluster refl v.keyed;
    lower = v.lower;
    stops = v.stops;
    draining = v.draining;
  }

  add_all-IsValid :
      (identifier : String) (data_of : Table String) (r : Registry (Clients ClientConfig Client))
      → IsValid r
      → IsValid (add_all loader resolver params identifier r data_of)
  unfolding add_all
  add_all-IsValid identifier [] r v = v
  add_all-IsValid identifier ((cluster_id, config) ∷ data_of) r v =
      add_all-IsValid identifier data_of _ (
        with_found-IsValid (get_cluster r.clusters cluster_id)
          (resolve_config loader resolver cluster_id identifier config) r v)

  added_secret-IsValid :
      (r : Registry (Clients ClientConfig Client)) (ch : StatusChan)
      (secret : Option (ObjectMeta × Table String))
      (handled : Handled (Clients ClientConfig Client))
      → IsValid r
      → added_secret loader resolver params r ch secret ≡ some handled
      → IsValid handled.0
  added_secret-IsValid r ch none handled v e = skipped-IsValid r ch handled v e
  added_secret-IsValid r ch (some (meta, data_of)) handled v e =
      elim (Bool-cases (is_sync_enabled params meta)) [
        | inl on ↦
            skipped-IsValid _ ch handled (add_all-IsValid (identifier_of meta) data_of r v)
              (rw on at e)
        | inr off ↦ skipped-IsValid r ch handled v (rw off at e)
      ]

  updated_secret-IsValid :
      (r : Registry (Clients ClientConfig Client)) (new_obj : Object) (ch : StatusChan)
      (new_secret old_secret : Option (ObjectMeta × Table String))
      (handled : Handled (Clients ClientConfig Client))
      → IsValid r
      → updated_secret loader resolver params r new_obj ch new_secret old_secret ≡ some handled
      → IsValid handled.0
  unfolding added
  updated_secret-IsValid r new_obj ch none old_secret handled v e = skipped-IsValid r ch handled v e
  updated_secret-IsValid r new_obj ch (some new_secret) none handled v e =
      skipped-IsValid r ch handled v e
  updated_secret-IsValid r new_obj ch (some (meta, data_of)) (some (old_meta, old_data)) handled v
        e =
      elim (Bool-cases (is_sync_enabled params old_meta && not (is_sync_enabled params meta))) [
        | inl turned_off ↦
            skipped-IsValid _ ch handled (stop_all-IsValid data_of r v) (rw turned_off at e)
        | inr other ↦ added_secret-IsValid r ch (as_secret new_obj) handled v (rw other at e)
      ]

  deleted_secret-IsValid :
      (r : Registry (Clients ClientConfig Client)) (ch : StatusChan)
      (secret : Option (ObjectMeta × Table String))
      (handled : Handled (Clients ClientConfig Client))
      → IsValid r
      → deleted_secret r ch secret ≡ some handled
      → IsValid handled.0
  deleted_secret-IsValid r ch none handled v e = skipped-IsValid r ch handled v e
  deleted_secret-IsValid r ch (some (meta, data_of)) handled v e =
      skipped-IsValid (stop_all r data_of) ch handled (stop_all-IsValid data_of r v) e

  Step-IsValid :
      {r s : Registry (Clients ClientConfig Client)}
      → Step loader resolver params r s
      → IsValid r
      → IsValid s
  unfolding added updated deleted
  Step-IsValid {r} (secret_added obj ch handled e) v =
      added_secret-IsValid r ch (as_secret obj) handled v e
  Step-IsValid {r} (secret_updated new_obj old_obj ch handled e) v =
      updated_secret-IsValid r new_obj ch (as_secret new_obj) (as_secret old_obj) handled v e
  Step-IsValid {r} (secret_deleted obj ch handled e) v =
      deleted_secret-IsValid r ch (as_secret obj) handled v e
  Step-IsValid {r} (controller_registered name context) v = register-IsValid r name context v
  Step-IsValid {r} (stop_begun before later stop next split e) v =
      begin-IsValid r next before later stop v split e
  Step-IsValid {r} (stop_finished before later stop split) v =
      finish-IsValid r before later stop v split

  -- In every state that is reached from an empty registry by the handler of secrets, by controllers
  -- that register and by stops that begin and finish, in any order: each remote cluster is cached by
  -- its own id, controllers are cached by names in lower case, and each stop that is under way is of a
  -- controller that does not watch the registry, for a cluster id without capitals.
  pub Reach-IsValid :
      {r : Registry (Clients ClientConfig Client)} → Reach loader resolver params r → IsValid r
  Reach-IsValid at_start = record { keyed = tt; lower = tt; stops = tt; draining = tt }
  Reach-IsValid (then_step before step) = Step-IsValid step (Reach-IsValid before)
