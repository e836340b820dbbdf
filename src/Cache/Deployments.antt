-- ===== src/Cache/Deployments.antt =====
-- internal/cache/cluster_deployments_cache.go: the workloads of each cluster by identity and
-- environment.
pub mod Laws
use mathlib.Core.Option
use naavik.Common.{ℕ, String, ◌||◌, List, [], Option, ◌==◌, if◌then◌else◌}
use naavik.Common.Text.{to_lower}
use naavik.Meta.{get_workload_identifier, get_env}
use naavik.Options.{NaavikArgs}
use naavik.Resources.{Workload}
use naavik.Cache.Nested
use naavik.Cache.Nested.{Item, Entry, find_item, find_entry, gather, store_item, remove_item}

-- `depcache`
abbrev pub Cache : Type 0
Cache = Nested.Cache Workload

unfoldable pub get_by_cluster_identity_env : Cache → String → String → String → Option Workload
get_by_cluster_identity_env c cluster_id identity env =
    Option.map (λ item. item.object)
      (find_item c (to_lower cluster_id) (to_lower identity) (to_lower env))

unfoldable pub get_by_cluster_identity : Cache → String → String → Option (Entry Workload)
get_by_cluster_identity c cluster_id identity =
    find_entry c (to_lower cluster_id) (to_lower identity)

unfoldable pub get_by_identity : Cache → String → List (Item Workload)
get_by_identity c identity = gather (to_lower identity) c

-- The two keys that `Add` and `Delete` read from the pod template.
abbrev pub identity_of : NaavikArgs → Workload → String
identity_of params w = to_lower (get_workload_identifier params w.template)

abbrev pub env_of : NaavikArgs → Workload → String
env_of params w = to_lower (get_env params w.template w.meta.namespace)

unfoldable pub add : NaavikArgs → Cache → String → Workload → Cache
add params c cluster_id w =
    if identity_of params w == "" || env_of params w == ""
    then c
    else store_item c (to_lower cluster_id) (identity_of params w) (env_of params w)
        (record { object = w; cluster_id = to_lower cluster_id })

unfoldable pub delete : NaavikArgs → Cache → String → Workload → Cache
delete params c cluster_id w =
    remove_item c (to_lower cluster_id) (identity_of params w) (env_of params w)

unfoldable pub get_no_of_deployments : Cache → ℕ
get_no_of_deployments c = Nested.count_items c

unfoldable pub reset : Cache → Cache
reset c = []
