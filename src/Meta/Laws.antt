-- ===== src/Meta/Laws.antt =====
-- What the metadata helpers return.
use naavik.Common.{String, ◌≡◌, ◌≢◌, true, arith, ◌↔◌, ◌⊎◌, eq_iff}
use naavik.Common.Text.{to_lower, split}
use naavik.Common.Types.{env_default, is_true}
use naavik.Meta.{
  ObjectMeta, at, get_env, label_or_annotation, or_else, last_of_many, is_resource_mesh_enabled,
}
use naavik.Options.{NaavikArgs}

pub or_else-ne-nil : (s t : String) → t ≢ "" → or_else s t ≢ ""
or_else-ne-nil s t h = ground (arith, eq_iff s "")

env_default-ne-nil : env_default ≢ ""
env_default-ne-nil = ground (arith, eq_iff env_default "")

-- Every workload has an environment: whatever the labels, the annotations and the namespace, the
-- result is not empty.
pub get_env-ne-nil :
    (params : NaavikArgs) (meta : ObjectMeta) (namespace : String)
    → get_env params meta namespace ≢ ""
unfolding get_env
get_env-ne-nil params meta namespace =
    or_else-ne-nil
      (or_else (label_or_annotation meta params.env_key) (last_of_many (split "-" namespace)))
      env_default env_default-ne-nil

-- A non-empty environment label decides, whatever the annotations and the namespace.
pub get_env_of_label :
    (params : NaavikArgs) (meta : ObjectMeta) (namespace : String)
    → at meta.labels params.env_key ≢ ""
    → get_env params meta namespace ≡ at meta.labels params.env_key
unfolding get_env
get_env_of_label params meta namespace h = ground (arith, eq_iff (at meta.labels params.env_key) "")

-- A workload is mesh-enabled exactly when its label or its annotation says "true", in any case.
pub is_resource_mesh_enabled_iff :
    (params : NaavikArgs) (meta : ObjectMeta)
    → (is_resource_mesh_enabled params meta ≡ true) ↔ (
        (to_lower (at meta.labels params.mesh_injection_enabled_key) ≡ is_true)
        ⊎ (to_lower (at meta.annotations params.mesh_injection_enabled_key) ≡ is_true))
unfolding is_resource_mesh_enabled
is_resource_mesh_enabled_iff params meta = ground (
  arith,
  eq_iff (to_lower (at meta.labels params.mesh_injection_enabled_key)) is_true,
  eq_iff (to_lower (at meta.annotations params.mesh_injection_enabled_key)) is_true,
)
