-- ===== src/RemoteClusters/Valid.antt =====
-- Valid registries, and what the stops and the registration of controllers keep of them.
use mathlib.Core.Path.{subst}
use naavik.Common.{
  ℕ, String, Bool, true, false, ◌||◌, List, [], ◌∷◌, ◌++◌, Option, none, some, ◌≡◌, ap, arith, ◌==◌,
  All, All-append, Bool-cases, inl, inr,
}
use naavik.Common.Table.{Table}
use naavik.Common.Table.Laws.{Entries, Entries-set, Entries-delete}
use naavik.Common.Text.{to_lower, to_lower_idem, split_two}
use naavik.Common.Text.Lower.{IsLower, SecondIsLower, IsLower-contains, split_two-IsLower}
use naavik.Cache.Clusters.{get_cluster_id, delete_cluster}
use naavik.Cache.Controllers.{ControllerContext, register, de_register}
use naavik.Cache.Controllers
use naavik.Controller.Status.{EventStatus}
use naavik.Handlers.{StatusChan}
use naavik.RemoteClusters.Handling.{registry_of}
use naavik.RemoteClusters.Controllers.{
  Registry, Stop, secret_controller, traffic_config_controller, dependency_controller, stopped_with,
  stops_for, stop_remote_cluster_controllers, delete_remote_cluster_from_cache, register_controller,
  begin_stop, finish_stop, with_closed,
}
use naavik.RemoteClusters.Secrets.{Handled, stop_all, skipped, closed_with}

-- Whether a controller watches the registry itself, by its kind.
abbrev watches_of : Option (String × String) → Bool
watches_of none = false
watches_of (some (kind, name)) =
    secret_controller == kind || traffic_config_controller == kind || dependency_controller == kind

abbrev pub watches_registry : String → Bool
watches_registry name = watches_of (split_two name)

-- A stop of a controller that does not watch the registry, for a cluster without capitals
pub record IsOfCluster (stop : Stop) : Type 0 where
  pub of_cluster : watches_registry stop.name ≡ false
  pub lower : IsLower stop.cluster_id

-- Each cluster is cached by its own id; controllers are cached in lower case; every stop is of a
-- controller of a cluster.
pub record IsValid {C : Type 0} (r : Registry C) : Type 0 where
  pub keyed : Entries (λ k cluster. get_cluster_id cluster ≡ k) r.clusters
  pub lower : Entries (λ name context. IsLower name) r.controllers
  pub stops : All IsOfCluster r.stops
  pub draining : All IsOfCluster r.draining

stopped_split :
    (cluster_id : String) (parts : Option (String × String))
    → SecondIsLower parts
    → stopped_with cluster_id parts ≡ true
    → (watches_of parts ≡ false) × IsLower cluster_id
stopped_split cluster_id none l h = absurd (ground arith)
stopped_split cluster_id (some (kind, name)) l h =
    (ground arith, IsLower-contains name cluster_id (ground arith) l)

stopped-IsOfCluster :
    (name cluster_id : String) (context : ControllerContext ℕ)
    → IsLower name
    → stopped_with cluster_id (split_two name) ≡ true
    → IsOfCluster (record { name = name; context = context; cluster_id = cluster_id })
stopped-IsOfCluster name cluster_id context l h =
    let (own, lower) = stopped_split cluster_id (split_two name) (split_two-IsLower name l) h in
    record { of_cluster = own; lower = lower }

stops_for-IsOfCluster :
    (cluster_id : String) (c : Controllers.Cache ℕ)
    → Entries (λ name context. IsLower name) c
    → All IsOfCluster (stops_for cluster_id c)
unfolding stops_for
stops_for-IsOfCluster cluster_id [] h = tt
stops_for-IsOfCluster cluster_id ((name, context) ∷ c) (l, h) =
    elim (Bool-cases (stopped_with cluster_id (split_two name))) [
      | inl stopped ↦ rw stopped (
        stopped-IsOfCluster name cluster_id context l stopped,
        stops_for-IsOfCluster cluster_id c h,
      )
      | inr kept ↦ rw kept (stops_for-IsOfCluster cluster_id c h)
    ]

pub All-middle {ℓ κ} :
    {A : Type ℓ} (P : A → Type κ) (before later : List A) (x : A)
    → All P (before ++ x ∷ later)
    → P x × All P (before ++ later)
All-middle P [] later x h = h
All-middle P (y ∷ before) later x (p, h) = let (q, k) = All-middle P before later x h in (q, (p, k))

module _ {C : Type 0} where
  pub stop_all-IsValid :
      (data_of : Table String) (r : Registry C) → IsValid r → IsValid (stop_all r data_of)
  unfolding stop_all stop_remote_cluster_controllers delete_remote_cluster_from_cache delete_cluster
  stop_all-IsValid [] r v = v
  stop_all-IsValid ((cluster_id, config) ∷ data_of) r v =
      stop_all-IsValid data_of
        (delete_remote_cluster_from_cache (stop_remote_cluster_controllers r cluster_id) cluster_id)
        (record {
          keyed = Entries-delete _ r.clusters (to_lower cluster_id) v.keyed;
          lower = v.lower;
          stops =
              All-append IsOfCluster r.stops (stops_for cluster_id r.controllers) v.stops
                (stops_for-IsOfCluster cluster_id r.controllers v.lower);
          draining = v.draining;
        })

  abbrev registry_or : Registry C → Option (Registry C) → Registry C
  registry_or r none = r
  registry_or r (some next) = next

  closed_with-IsValid :
      (r : Registry C) (o : Option (EventStatus × StatusChan)) (handled : Handled C)
      → IsValid r
      → closed_with r o ≡ some handled
      → IsValid handled.0
  closed_with-IsValid r none handled v e = absurd (ground arith)
  closed_with-IsValid r (some sent) handled v e = subst IsValid (ap (registry_of r) e) v

  pub skipped-IsValid :
      (r : Registry C) (ch : StatusChan) (handled : Handled C)
      → IsValid r
      → skipped r ch ≡ some handled
      → IsValid handled.0
  unfolding skipped
  skipped-IsValid r ch handled v e = closed_with-IsValid r _ handled v e

  pub register-IsValid :
      (r : Registry C) (name : String) (context : ControllerContext ℕ)
      → IsValid r
      → IsValid (register_controller r name context)
  unfolding register_controller register
  register-IsValid r name context v = record {
    keyed = v.keyed;
    lower = Entries-set _ r.controllers (to_lower name) context (to_lower_idem name) v.lower;
    stops = v.stops;
    draining = v.draining;
  }

  with_closed-IsValid :
      (r next : Registry C) (stop : Stop) (closed : Option (List ℕ))
      → IsValid r
      → IsOfCluster stop
      → with_closed r stop closed ≡ some next
      → IsValid next
  unfolding de_register
  with_closed-IsValid r next stop none v own e = absurd (ground arith)
  with_closed-IsValid r next stop (some closed) v own e =
      subst IsValid (ap (registry_or r) e) (record {
        keyed = v.keyed;
        lower = Entries-delete _ r.controllers (to_lower stop.name) v.lower;
        stops = v.stops;
        draining = (own, v.draining);
      })

  pub begin-IsValid :
      (r next : Registry C) (before later : List Stop) (stop : Stop)
      → IsValid r
      → r.stops ≡ before ++ stop ∷ later
      → begin_stop (record r { stops = before ++ later }) stop ≡ some next
      → IsValid next
  unfolding begin_stop
  begin-IsValid r next before later stop v split e =
      let (own, others) =
        All-middle IsOfCluster before later stop (subst (All IsOfCluster) split v.stops) in
      with_closed-IsValid (record r { stops = before ++ later }) next stop _
        (record { keyed = v.keyed; lower = v.lower; stops = others; draining = v.draining }) own e

  pub finish-IsValid :
      (r : Registry C) (before later : List Stop) (stop : Stop)
      → IsValid r
      → r.draining ≡ before ++ stop ∷ later
      → IsValid (finish_stop (record r { draining = before ++ later }) stop)
  unfolding finish_stop delete_cluster
  finish-IsValid r before later stop v split = record {
    keyed = Entries-delete _ r.clusters (to_lower stop.cluster_id) v.keyed;
    lower = v.lower;
    stops = v.stops;
    draining =
        (All-middle IsOfCluster before later stop (subst (All IsOfCluster) split v.draining)).1;
  }
