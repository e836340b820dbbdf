-- ===== src/Cache/Deployments/Laws.antt =====
-- What the operations of the deployment cache promise to its readers.
use naavik.Common.{
  ◌+◌, String, none, some, ◌≡◌, ◌≢◌, refl, arith, ◌==◌, ◌||◌, eq_iff, is_some, if◌then◌else◌,
  Bool-cases, inl, inr,
}
use naavik.Common.Text.{to_lower, to_lower-eq-nil_iff}
use naavik.Meta.Laws.{get_env-ne-nil}
use naavik.Options.{NaavikArgs}
use naavik.Resources.{Workload}
use naavik.Cache.Nested.{find_item}
use naavik.Cache.Nested.View.{same_keys, find_item-store_item, find_item-remove_item}
use naavik.Cache.Nested.Valid.{IsValid, store_item-IsValid, remove_item-IsValid}
use naavik.Cache.Nested.Count.{count_items-store_item, count_items-remove_item}
use naavik.Cache.Deployments.{
  Cache, get_by_cluster_identity_env, identity_of, env_of, add, delete, get_no_of_deployments,
}

-- The fallback of `GetEnv` makes the environment test of `Add` pass.
env_of-ne-nil : (params : NaavikArgs) (w : Workload) → env_of params w ≢ ""
env_of-ne-nil params w =
    λ e. get_env-ne-nil params w.template w.meta.namespace ((to_lower-eq-nil_iff _).0 e)

-- After `Add`, a read at the workload's cluster, identity and environment, spelled in any case,
-- returns it, and every other read is as before; a workload with no identity changes no read.
pub get_by_cluster_identity_env-add :
    (params : NaavikArgs) (c : Cache) (cl : String) (w : Workload) (cl' id' env' : String)
    → get_by_cluster_identity_env (add params c cl w) cl' id' env' ≡ (
        if identity_of params w == ""
        then get_by_cluster_identity_env c cl' id' env'
        else if same_keys
            (to_lower cl)
            (identity_of params w)
            (env_of params w)
            (to_lower cl')
            (to_lower id')
            (to_lower env')
        then some w
        else get_by_cluster_identity_env c cl' id' env')
unfolding add get_by_cluster_identity_env
get_by_cluster_identity_env-add params c cl w cl' id' env' = ground (
  arith,
  eq_iff (env_of params w) "",
  env_of-ne-nil params w,
  find_item-store_item c (to_lower cl) (identity_of params w) (env_of params w) (to_lower cl')
      (to_lower id') (to_lower env') (record { object = w; cluster_id = to_lower cl }),
)

-- After `Delete`, a read at the workload's cluster, identity and environment finds nothing, and
-- every other read is as before.
pub get_by_cluster_identity_env-delete :
    (params : NaavikArgs) (c : Cache) (cl : String) (w : Workload) (cl' id' env' : String)
    → get_by_cluster_identity_env (delete params c cl w) cl' id' env' ≡ (
        if same_keys
          (to_lower cl)
          (identity_of params w)
          (env_of params w)
          (to_lower cl')
          (to_lower id')
          (to_lower env')
        then none
        else get_by_cluster_identity_env c cl' id' env')
unfolding delete get_by_cluster_identity_env
get_by_cluster_identity_env-delete params c cl w cl' id' env' = ground (
  arith,
  find_item-remove_item c (to_lower cl) (identity_of params w) (env_of params w) (to_lower cl')
      (to_lower id') (to_lower env'),
)

-- `Add` keeps the shape of the cache, for any workload.
pub add-IsValid :
    (params : NaavikArgs) (c : Cache) (cl : String) (w : Workload)
    → IsValid c
    → IsValid (add params c cl w)
unfolding add
add-IsValid params c cl w v =
    elim (Bool-cases (identity_of params w == "" || env_of params w == "")) [
      | inl e ↦ rw e v
      | inr e ↦
          rw e
            (store_item-IsValid c (to_lower cl) (identity_of params w) (env_of params w) _ refl v)
    ]

-- `Delete` keeps the shape of the cache: every key stored once, every entry and item under the key
-- that it names, and no empty entry or cluster left behind.
pub delete-IsValid :
    (params : NaavikArgs) (c : Cache) (cl : String) (w : Workload)
    → IsValid c
    → IsValid (delete params c cl w)
unfolding delete
delete-IsValid params c cl w v =
    remove_item-IsValid c (to_lower cl) (identity_of params w) (env_of params w) v

-- `Add` of a workload with an identity counts one more exactly when nothing was cached under the
-- same cluster, identity and environment.
pub get_no_of_deployments-add :
    (params : NaavikArgs) (c : Cache) (cl : String) (w : Workload)
    → identity_of params w ≢ ""
    → get_no_of_deployments (add params c cl w)
      ≡ get_no_of_deployments c
        + (if is_some (find_item c (to_lower cl) (identity_of params w) (env_of params w))
            then 0
            else 1)
unfolding add get_no_of_deployments
get_no_of_deployments-add params c cl w h = ground (
  arith,
  eq_iff (identity_of params w) "",
  eq_iff (env_of params w) "",
  env_of-ne-nil params w,
  count_items-store_item c (to_lower cl) (identity_of params w) (env_of params w)
      (record { object = w; cluster_id = to_lower cl }),
)

-- In a cache of the right shape, `Delete` counts one less exactly when something was cached under
-- the workload's cluster, identity and environment.
pub get_no_of_deployments-delete :
    (params : NaavikArgs) (c : Cache) (cl : String) (w : Workload)
    → IsValid c
    → get_no_of_deployments (delete params c cl w)
        + (if is_some (find_item c (to_lower cl) (identity_of params w) (env_of params w))
            then 1
            else 0)
      ≡ get_no_of_deployments c
unfolding delete get_no_of_deployments
get_no_of_deployments-delete params c cl w v =
    count_items-remove_item c (to_lower cl) (identity_of params w) (env_of params w) v
