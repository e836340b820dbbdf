-- ===== src/Cache/Rollouts.antt =====
-- internal/cache/cluster_rollouts_cache.go, which repeats the deployment cache for rollouts. Its
-- reads return the cached objects and not copies of them, and `Delete` loads the cluster's map
-- before it takes the lock; as functions of the cache the operations are the same.
use naavik.Common.{ℕ, String, List, Option}
use naavik.Options.{NaavikArgs}
use naavik.Resources.{Workload}
use naavik.Cache.Nested.{Item, Entry}
use naavik.Cache.Deployments

-- `rolloutcache`
abbrev pub Cache : Type 0
Cache = Deployments.Cache

abbrev pub get_by_cluster_identity_env : Cache → String → String → String → Option Workload
get_by_cluster_identity_env = Deployments.get_by_cluster_identity_env

abbrev pub get_by_cluster_identity : Cache → String → String → Option (Entry Workload)
get_by_cluster_identity = Deployments.get_by_cluster_identity

abbrev pub get_by_identity : Cache → String → List (Item Workload)
get_by_identity = Deployments.get_by_identity

abbrev pub add : NaavikArgs → Cache → String → Workload → Cache
add = Deployments.add

abbrev pub delete : NaavikArgs → Cache → String → Workload → Cache
delete = Deployments.delete

abbrev pub get_no_of_rollouts : Cache → ℕ
get_no_of_rollouts = Deployments.get_no_of_deployments

abbrev pub reset : Cache → Cache
reset = Deployments.reset
