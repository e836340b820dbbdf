-- ===== src/Meta.antt =====
-- Object metadata, and what the program reads from it: pkg/utils/resource_utils.go.
-- A nil map of labels or annotations reads as an empty one.
pub mod Laws
use mathlib.Core.Option
use naavik.Common.{String, Bool, List, [], ◌∷◌, Option, ◌==◌, if◌then◌else◌}
use naavik.Common.Table
use naavik.Common.Table.{Table}
use naavik.Common.Text.{to_lower, split}
use naavik.Common.Types.{env_default, is_true}
use naavik.Options.{NaavikArgs}

-- The fields of `metav1.ObjectMeta` that the program reads.
pub record ObjectMeta : Type 0 where
  pub name : String
  pub namespace : String
  pub labels : Table String
  pub annotations : Table String
  pub resource_version : String

-- `m[k]`, the empty text for a missing key
abbrev pub at : Table String → String → String
at m k = Option.get_or (Table.get m k) ""

-- `len(x) == 0 && …`: the second text where the first is empty
abbrev pub or_else : String → String → String
or_else s t = if s == "" then t else s

-- The label under a key, or the annotation where the label is missing or empty.
abbrev pub label_or_annotation : ObjectMeta → String → String
label_or_annotation meta k = or_else (at meta.labels k) (at meta.annotations k)

unfoldable pub get_workload_identifier : NaavikArgs → ObjectMeta → String
get_workload_identifier params meta = label_or_annotation meta params.workload_identity_key

-- The last part, if there is more than one.
abbrev last_of_many : List String → String
last_of_many [] = ""
last_of_many (s ∷ []) = ""
last_of_many (s ∷ t ∷ []) = t
last_of_many (s ∷ t ∷ u ∷ parts) = last_of_many (t ∷ u ∷ parts)

unfoldable pub get_env : NaavikArgs → ObjectMeta → String → String
unfolding split
get_env params meta namespace =
    or_else (or_else (label_or_annotation meta params.env_key) (last_of_many (split "-" namespace)))
      env_default

-- Either map has "true" under the key, in any case.
abbrev pub marked : ObjectMeta → String → Bool
marked meta k =
    if to_lower (at meta.labels k) == is_true
    then Bool.true
    else to_lower (at meta.annotations k) == is_true

unfoldable pub is_resource_mesh_enabled : NaavikArgs → ObjectMeta → Bool
is_resource_mesh_enabled params meta = marked meta params.mesh_injection_enabled_key

unfoldable pub is_resource_ignored : NaavikArgs → ObjectMeta → Bool
is_resource_ignored params meta = marked meta params.resource_ignore_label

unfoldable pub is_sync_enabled : NaavikArgs → ObjectMeta → Bool
is_sync_enabled params meta = marked meta params.secret_sync_label
