-- ===== src/RemoteClusters/Controllers.antt =====
-- The controllers of a remote cluster: their start and their stop in remote_cluster_resolver.go, and
-- their names in internal/controller/k8s. A stop is a goroutine for each controller: it is recorded
-- here, and its two parts, which other code may run between, are steps of their own.
use naavik.Common.{
  ℕ, String, Bool, true, false, not, ◌&&◌, List, [], ◌∷◌, ◌++◌, Option, none, some, ◌==◌,
  if◌then◌else◌, nat_eq,
}
use naavik.Common.Text.{contains, join, split_two}
use naavik.Options.{NaavikArgs}
use naavik.Cache.Clusters
use naavik.Cache.Clusters.{RemoteCluster}
use naavik.Cache.Controllers
use naavik.Cache.Controllers.{ControllerContext}
use naavik.RemoteClusters.{Loader, Clients}

-- A goroutine that stops a controller, for a cluster.
pub record Stop : Type 0 where
  pub name : String
  pub context : ControllerContext ℕ
  pub cluster_id : String

-- The cluster cache, the controller cache, the controllers that are created and not yet registered
-- by their goroutine, and the stops: those that have yet to begin, and those that wait for workers.
-- Channels and contexts are numbered.
pub record Registry (Clients : Type 0) : Type 0 where
  pub clusters : Clusters.Cache Clients
  pub controllers : Controllers.Cache ℕ
  pub launched : List String
  pub stops : List Stop
  pub draining : List Stop
  pub closed : List ℕ

abbrev pub secret_controller : String
secret_controller = "secret-controller"

abbrev pub traffic_config_controller : String
traffic_config_controller = "traffic-config-controller"

abbrev pub dependency_controller : String
dependency_controller = "dependency-controller"

-- The name of a controller: by the given name, or else by the host.
unfoldable pub controller_name : String → String → String → String
controller_name kind name host = join (kind ∷ (if name == "" then host else name) ∷ []) "/"

-- A controller whose client can be created.
abbrev pub launch_with {ℓ} : {A : Type ℓ} → String → Option A → List String
launch_with name none = []
launch_with name (some client) = name ∷ []

module _ {Config ClientConfig RestConfig Client : Type 0}
    (loader : Loader Config ClientConfig RestConfig Client) (params : NaavikArgs) where
  abbrev pub launched_for : Option RestConfig → Option String → List String
  launched_for none context = []
  launched_for (some rest) none = []
  launched_for (some rest) (some context) =
      launch_with (controller_name "service-controller" context (loader.host rest))
        (loader.client_from_config rest)
      ++ launch_with (controller_name "deployment-controller" context (loader.host rest))
          (loader.client_from_config rest)
      ++ (if params.argo_rollouts_enabled
          then launch_with (controller_name "rollouts-controller" context (loader.host rest))
              (loader.argo_client_from_config rest)
          else [])

  -- The names of the controllers that are created, in order.
  unfoldable pub start_remote_cluster_controllers :
      RemoteCluster (Clients ClientConfig Client) → List String
  unfolding controller_name
  start_remote_cluster_controllers cluster =
      launched_for (loader.client_config cluster.clients.client_config)
        (loader.raw_config cluster.clients.client_config)

-- Whether a controller is stopped with a cluster: by its kind, and by the name after the first "/".
abbrev pub stopped_with : String → Option (String × String) → Bool
stopped_with cluster_id none = false
stopped_with cluster_id (some (kind, name)) =
    contains name cluster_id
    && not (secret_controller == kind)
    && not (traffic_config_controller == kind)
    && not (dependency_controller == kind)

unfoldable pub stops_for : String → Controllers.Cache ℕ → List Stop
unfolding contains split_two
stops_for cluster_id [] = []
stops_for cluster_id ((name, context) ∷ c) =
    if stopped_with cluster_id (split_two name)
    then record { name = name; context = context; cluster_id = cluster_id } ∷ stops_for cluster_id c
    else stops_for cluster_id c

abbrev pub is_closed : List ℕ → ℕ → Bool
is_closed [] ch = false
is_closed (c ∷ closed) ch = if nat_eq c ch then true else is_closed closed ch

-- The close of a stop channel; `none` is the panic on a nil channel or a closed one.
abbrev pub close_channel : List ℕ → Option ℕ → Option (List ℕ)
close_channel closed none = none
close_channel closed (some ch) = if is_closed closed ch then none else some (ch ∷ closed)

module _ {Clients : Type 0} where
  unfoldable pub stop_remote_cluster_controllers : Registry Clients → String → Registry Clients
  unfolding stops_for
  stop_remote_cluster_controllers r cluster_id = record r {
    stops = r.stops ++ stops_for cluster_id r.controllers;
  }

  unfoldable pub delete_remote_cluster_from_cache : Registry Clients → String → Registry Clients
  delete_remote_cluster_from_cache r cluster_id = record r {
    clusters = Clusters.delete_cluster r.clusters cluster_id;
  }

  -- `Run` of a controller registers it, with a stop channel of its own.
  unfoldable pub register_controller :
      Registry Clients → String → ControllerContext ℕ → Registry Clients
  register_controller r name context = record r {
    controllers = Controllers.register r.controllers name context;
  }

  abbrev pub with_closed : Registry Clients → Stop → Option (List ℕ) → Option (Registry Clients)
  with_closed r stop none = none
  with_closed r stop (some closed) = some (record r {
    controllers = Controllers.de_register r.controllers stop.name;
    draining = stop ∷ r.draining;
    closed = closed;
  })

  -- The first part of a stop: the controller leaves its cache, and its channel is closed.
  unfoldable pub begin_stop : Registry Clients → Stop → Option (Registry Clients)
  begin_stop r stop = with_closed r stop (close_channel r.closed stop.context.stop_ch)

  -- The second one, when the workers have finished: the cluster is deleted, once more.
  unfoldable pub finish_stop : Registry Clients → Stop → Registry Clients
  finish_stop r stop = record r { clusters = Clusters.delete_cluster r.clusters stop.cluster_id }
