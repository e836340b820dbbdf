-- ===== src/RemoteClusters/Resolve.antt =====
-- internal/handler/remotecluster/remote_cluster_resolver.go: `ResolveConfig`, with
-- resolver/config_resolver.go and resolver/secret_resolver.go.
use naavik.Common.{String, Option, none, some, ◌==◌, if◌then◌else◌}
use naavik.Common.Types.{config_resolver_secret}
use naavik.Cache.Clusters.{RemoteCluster}
use naavik.RemoteClusters.{Loader, Clients}

-- The step that failed; the handler logs the error of it.
pub data ResolveError : Type 0 where
  resolving_kubeconfig loading_kubeconfig getting_raw_config creating_rest_config : ResolveError
  creating_client creating_istio_client creating_argo_client : ResolveError
  creating_admiral_client : ResolveError

pub data Result {ℓ} (A : Type ℓ) : Type ℓ where
  ok : A → Result A
  err : ResolveError → Result A

infixl 5 ◌>>=◌
abbrev pub ◌>>=◌ {ℓ κ} : {A : Type ℓ} {B : Type κ} → Result A → (A → Result B) → Result B
ok a >>= f = f a
err e >>= f = err e

-- `if err != nil { return nil, … }`
abbrev pub or_err {ℓ} : {A : Type ℓ} → Option A → ResolveError → Result A
or_err none e = err e
or_err (some a) e = ok a

-- `ConfigResolver`, and the one of `NewSecretConfigResolver`, which gives back the secret's value.
abbrev pub ConfigResolver : Type 0
ConfigResolver = String → String → Option String

unfoldable pub secret_config_resolver : ConfigResolver
secret_config_resolver secret_key secret_value = some secret_value

-- `GetConfigResolver`; `none` ends the program.
unfoldable pub get_config_resolver : String → Option ConfigResolver
unfolding secret_config_resolver
get_config_resolver name =
    if name == config_resolver_secret then some secret_config_resolver else none

module _ {Config ClientConfig RestConfig Client : Type 0}
    (loader : Loader Config ClientConfig RestConfig Client) where
  unfoldable pub create_remote_cluster :
      String
      → String
      → String
      → String
      → ClientConfig
      → Client
      → Client
      → Client
      → Client
      → RemoteCluster (Clients ClientConfig Client)
  create_remote_cluster cluster_id context_name secret_identifier cluster_host client_config
        k8s_client istio_client argo_client admiral_client =
      record {
        cluster_id = cluster_id;
        context_name = context_name;
        secret_identifier = secret_identifier;
        host = cluster_host;
        clients = record {
          client_config = client_config;
          k8s_client = k8s_client;
          istio_client = istio_client;
          argo_client = argo_client;
          admiral_client = admiral_client;
        };
      }

  unfoldable pub resolve_config :
      ConfigResolver
      → String
      → String
      → String
      → Result (RemoteCluster (Clients ClientConfig Client))
  unfolding create_remote_cluster
  resolve_config resolver secret_key secret_identifier secret_value = do
    kube_config ← or_err (resolver secret_key secret_value) resolving_kubeconfig
    cluster_config ← or_err (loader.load kube_config) loading_kubeconfig
    let client_config = loader.default_client_config cluster_config
    current_context ← or_err (loader.raw_config client_config) getting_raw_config
    rest_config ← or_err (loader.client_config client_config) creating_rest_config
    k8s_client ← or_err (loader.client_from_config rest_config) creating_client
    istio_client ← or_err (loader.istio_client_from_config rest_config) creating_istio_client
    argo_client ← or_err (loader.argo_client_from_config rest_config) creating_argo_client
    admiral_client ← or_err (loader.admiral_client_from_config rest_config) creating_admiral_client
    ok (
        create_remote_cluster secret_key current_context secret_identifier (loader.host rest_config)
          client_config k8s_client istio_client argo_client admiral_client)
