-- ===== src/Handlers/Effects.antt =====
-- What the handlers leave in the caches.
use naavik.Common.{
  String, true, false, not, ◌&&◌, ◌||◌, Option, none, some, ◌≡◌, refl, arith, ◌==◌, eq_iff,
  if◌then◌else◌, Bool-cases, inl, inr,
}
use naavik.Common.Text.{to_lower, to_lower-eq-nil_iff}
use naavik.Options.{is_cache_warmed_up}
use naavik.Resources.{Workload}
use naavik.Controller.Status.{skip_close}
use naavik.Cache.Deployments
use naavik.Cache.Deployments.Laws.{
  get_by_cluster_identity_env-add, get_by_cluster_identity_env-delete,
}
use naavik.Cache.Nested.View.{same_keys}
use naavik.Cache.Deployments.{env_of, get_by_cluster_identity_env}
use naavik.Cache.Identities
use naavik.Cache.Identities.{is_cluster_present_in_identity}
use naavik.Cache.Identities.Laws.{
  is_cluster_present_in_identity-add, is_cluster_present_in_identity-delete,
}
use naavik.Handlers.{Caches, Setting, StatusChan, Trail, Outcome, finish, start}
use naavik.Handlers.Kept.{is_open, open_cases, holds, holds-trigger}
use naavik.Handlers.Reports.{is_ready, trigger_config-ready}
use naavik.Handlers.TrafficConfig.{finish_after}
use naavik.Handlers.Workloads.{
  Kind, workloads, identifier, is_handled, put_workload, remove_workload, workload_added,
  workload_deleted,
}

-- The caches after a run; those before it, where it panics.
abbrev pub caches_after : Caches → Option Outcome → Caches
caches_after before none = before
caches_after before (some o) = o.caches

pub caches_after-finish :
    (before caches : Caches) (trail : Trail)
    → is_open trail.status_chan ≡ true
    → caches_after before (finish caches trail) ≡ caches
unfolding finish skip_close
caches_after-finish before caches trail h =
    let (sent, e) = open_cases trail.status_chan h in rw e refl

pub caches_after-finish_after :
    (before caches : Caches) (o : Option Trail)
    → holds is_ready o ≡ true
    → caches_after before (finish_after caches o) ≡ caches
caches_after-finish_after before caches none h = cc
caches_after-finish_after before caches (some trail) h =
    caches_after-finish before caches trail (ground arith)

module _ (kind : Kind) (setting : Setting) (cluster_id : String) (caches : Caches) (w : Workload)
    (ch : StatusChan) (handled : is_handled setting w ≡ true) (opened : is_open ch ≡ true) where
  caches_after-workload_added :
      caches_after caches (workload_added kind setting cluster_id caches w ch)
      ≡ put_workload kind setting caches cluster_id w
  unfolding workload_added
  caches_after-workload_added =
      rw handled (elim (Bool-cases (is_cache_warmed_up setting.params setting.elapsed)) [
        | inl e ↦ rw e (
            caches_after-finish_after caches _ _ (
              holds-trigger setting is_ready (trigger_config-ready setting)
                (put_workload kind setting caches cluster_id w) (identifier setting w) (start ch)
                (ground arith)))
        | inr e ↦ rw e (caches_after-finish caches _ (start ch) opened)
      ])

  caches_after-workload_deleted :
      caches_after caches (workload_deleted kind setting cluster_id caches w ch)
      ≡ remove_workload kind setting caches cluster_id w
  unfolding workload_deleted
  caches_after-workload_deleted = rw handled (caches_after-finish caches _ (start ch) opened)

module _ (setting : Setting) (caches : Caches) (cluster_id : String) (w : Workload) where
  workloads-put_workload :
      (kind : Kind)
      → workloads kind (put_workload kind setting caches cluster_id w)
        ≡ Deployments.add setting.params (workloads kind caches) cluster_id w
  unfolding put_workload
  workloads-put_workload Kind.deployment_kind = refl
  workloads-put_workload Kind.rollout_kind = refl

  identities-put_workload :
      (kind : Kind)
      → (put_workload kind setting caches cluster_id w).identities
        ≡ Identities.add_cluster_to_identity caches.identities (identifier setting w) cluster_id
  unfolding put_workload
  identities-put_workload Kind.deployment_kind = refl
  identities-put_workload Kind.rollout_kind = refl

  workloads-remove_workload :
      (kind : Kind)
      → workloads kind (remove_workload kind setting caches cluster_id w)
        ≡ Deployments.delete setting.params (workloads kind caches) cluster_id w
  unfolding remove_workload
  workloads-remove_workload Kind.deployment_kind = refl
  workloads-remove_workload Kind.rollout_kind = refl

  identities-remove_workload :
      (kind : Kind)
      → (remove_workload kind setting caches cluster_id w).identities
        ≡ Identities.delete_cluster_from_identity caches.identities
            (identifier setting w)
            cluster_id
  unfolding remove_workload
  identities-remove_workload Kind.deployment_kind = refl
  identities-remove_workload Kind.rollout_kind = refl

is_handled-named :
    (setting : Setting) (w : Workload)
    → is_handled setting w ≡ true
    → (to_lower (identifier setting w) == "") ≡ false
is_handled-named setting w h = ground (
  arith,
  eq_iff (identifier setting w) "",
  eq_iff (to_lower (identifier setting w)) "",
  to_lower-eq-nil_iff (identifier setting w),
)

-- `Added` of a deployment or a rollout that is in the mesh, not ignored and has an identifier, on an
-- open status channel: reads of its kind's cache find it at its cluster, identity and environment
-- and are as before elsewhere, and its cluster, and no other, is new in its identity, and in no other.
pub workload_added-reads :
    (kind : Kind) (setting : Setting) (cluster_id : String) (caches : Caches) (w : Workload)
    (ch : StatusChan) (cl id env : String)
    → is_handled setting w ≡ true
    → is_open ch ≡ true
    → let after : Caches =
        caches_after caches (workload_added kind setting cluster_id caches w ch) in
      let name : String = to_lower (identifier setting w) in
      (get_by_cluster_identity_env (workloads kind after) cl id env ≡ (
        if same_keys
          (to_lower cluster_id)
          name
          (env_of setting.params w)
          (to_lower cl)
          (to_lower id)
          (to_lower env)
        then some w
        else get_by_cluster_identity_env (workloads kind caches) cl id env))
      × (is_cluster_present_in_identity after.identities id cl ≡ (
          name == to_lower id && to_lower cluster_id == to_lower cl
          || is_cluster_present_in_identity caches.identities id cl))
workload_added-reads kind setting cluster_id caches w ch cl id env handled opened =
    rw
      (
        caches_after-workload_added kind setting cluster_id caches w ch handled opened,
        workloads-put_workload setting caches cluster_id w kind,
        identities-put_workload setting caches cluster_id w kind,
      )
      (
        ground (
          arith,
          get_by_cluster_identity_env-add setting.params (workloads kind caches) cluster_id w cl id
              env,
          is_handled-named setting w handled,
        ),
        is_cluster_present_in_identity-add caches.identities (identifier setting w) cluster_id id
            cl,
      )

-- `Deleted` of a deployment or a rollout that is in the mesh, not ignored and has an identifier, on
-- an open status channel: reads of its kind's cache find nothing at its cluster, identity and
-- environment and are as before elsewhere, and its cluster leaves its identity, whatever else of the
-- identity runs there.
pub workload_deleted-reads :
    (kind : Kind) (setting : Setting) (cluster_id : String) (caches : Caches) (w : Workload)
    (ch : StatusChan) (cl id env : String)
    → is_handled setting w ≡ true
    → is_open ch ≡ true
    → let after : Caches =
        caches_after caches (workload_deleted kind setting cluster_id caches w ch) in
      let name : String = to_lower (identifier setting w) in
      (get_by_cluster_identity_env (workloads kind after) cl id env ≡ (
        if same_keys
          (to_lower cluster_id)
          name
          (env_of setting.params w)
          (to_lower cl)
          (to_lower id)
          (to_lower env)
        then none
        else get_by_cluster_identity_env (workloads kind caches) cl id env))
      × (is_cluster_present_in_identity after.identities id cl ≡ (
          not (name == to_lower id && to_lower cluster_id == to_lower cl)
          && is_cluster_present_in_identity caches.identities id cl))
workload_deleted-reads kind setting cluster_id caches w ch cl id env handled opened =
    rw
      (
        caches_after-workload_deleted kind setting cluster_id caches w ch handled opened,
        workloads-remove_workload setting caches cluster_id w kind,
        identities-remove_workload setting caches cluster_id w kind,
      )
      (
        get_by_cluster_identity_env-delete setting.params (workloads kind caches) cluster_id w cl id
            env,
        is_cluster_present_in_identity-delete caches.identities (identifier setting w) cluster_id id
            cl,
      )
