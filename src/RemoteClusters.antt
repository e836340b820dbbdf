-- ===== src/RemoteClusters.antt =====
-- internal/handler/remotecluster: how the secrets of a registry become remote clusters. Resolve has
-- remote_cluster_resolver.go's way from a secret to a cluster, Controllers the start and the stop of a
-- cluster's controllers, Secrets clusters_secret_handler.go.
pub mod Resolve
pub mod Controllers
pub mod Secrets
pub mod Reads
pub mod Handling
pub mod Steps
pub mod Valid
pub mod Invariant
pub mod Races
use naavik.Common.{String, Option}

-- What the program calls of the client libraries, through internal/utils/k8s/config_loader.go. The
-- types are the libraries': `Client` stands for the clients of any API. A missing answer is an error.
pub record Loader (Config ClientConfig RestConfig Client : Type 0) : Type 0 where
  pub load : String → Option Config
  pub default_client_config : Config → ClientConfig
  -- The current context of the raw configuration
  pub raw_config : ClientConfig → Option String
  pub client_config : ClientConfig → Option RestConfig
  pub host : RestConfig → String
  pub client_from_config : RestConfig → Option Client
  pub istio_client_from_config : RestConfig → Option Client
  pub argo_client_from_config : RestConfig → Option Client
  pub admiral_client_from_config : RestConfig → Option Client

-- The clients of a remote cluster (internal/types/remotecluster/remote_cluster.go).
pub record Clients (ClientConfig Client : Type 0) : Type 0 where
  pub client_config : ClientConfig
  pub k8s_client : Client
  pub istio_client : Client
  pub argo_client : Client
  pub admiral_client : Client
