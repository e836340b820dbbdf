-- ===== src/EnvoyFilters.antt =====
-- pkg/clients/clientset/istio/envoy_filter.go: how the rate limit filters of a cluster are brought to
-- those that are requested. The calls of the Istio API are recorded, in order; which of them fail,
-- and with what, is a parameter. The filters have annotations, and the listing of those that exist
-- is not nil: their callers build and check them.
pub mod Laws
use naavik.Common.{
  String, Bool, true, false, List, [], ◌∷◌, ◌++◌, Option, none, some, ◌==◌, is_empty, if◌then◌else◌,
}
use naavik.Common.Text.{to_lower}

-- The name, the namespace and the rest of an `EnvoyFilter`.
pub record EnvoyFilter (Spec : Type 0) : Type 0 where
  pub name : String
  pub namespace : String
  pub spec : Spec

pub data FilterCall (Spec : Type 0) : Type 0 where
  create_envoy_filter update_envoy_filter : EnvoyFilter Spec → FilterCall Spec
  delete_envoy_filter : String → String → FilterCall Spec

-- The error list of the three loops: a joined error is dropped, so that it stays nil.
abbrev pub after_call : Option String → Option String → Option String
after_call error_list none = error_list
after_call error_list (some err) = error_list

module _ {Spec : Type 0} where
  -- `strings.EqualFold` on ASCII
  unfoldable pub check_if_present : EnvoyFilter Spec → List (EnvoyFilter Spec) → Bool
  check_if_present filter [] = false
  check_if_present filter (f ∷ filters) =
      if to_lower f.name == to_lower filter.name then true else check_if_present filter filters

  unfoldable pub create_envoy_filters :
      (FilterCall Spec → Option String)
      → Option String
      → List (EnvoyFilter Spec)
      → List (FilterCall Spec) × Option String
  create_envoy_filters fails error_list [] = ([], error_list)
  create_envoy_filters fails error_list (f ∷ filters) =
      let (calls, err) =
        create_envoy_filters fails (after_call error_list (fails (create_envoy_filter f)))
          filters in
      (create_envoy_filter f ∷ calls, err)

  unfoldable pub update_envoy_filters :
      (FilterCall Spec → Option String)
      → Option String
      → List (EnvoyFilter Spec)
      → List (FilterCall Spec) × Option String
  update_envoy_filters fails error_list [] = ([], error_list)
  update_envoy_filters fails error_list (f ∷ filters) =
      let (calls, err) =
        update_envoy_filters fails (after_call error_list (fails (update_envoy_filter f)))
          filters in
      (update_envoy_filter f ∷ calls, err)

  unfoldable pub delete_envoy_filters :
      (FilterCall Spec → Option String)
      → Option String
      → List (EnvoyFilter Spec)
      → List (FilterCall Spec) × Option String
  delete_envoy_filters fails error_list [] = ([], error_list)
  delete_envoy_filters fails error_list (f ∷ filters) =
      let (calls, err) =
        delete_envoy_filters fails
          (after_call error_list (fails (delete_envoy_filter f.name f.namespace))) filters in
      (delete_envoy_filter f.name f.namespace ∷ calls, err)

  -- The filters of a list that are in another one, and those that are not.
  unfoldable pub present_in :
      List (EnvoyFilter Spec) → List (EnvoyFilter Spec) → List (EnvoyFilter Spec)
  unfolding check_if_present
  present_in others [] = []
  present_in others (f ∷ filters) =
      if check_if_present f others then f ∷ present_in others filters else present_in others filters

  unfoldable pub absent_from :
      List (EnvoyFilter Spec) → List (EnvoyFilter Spec) → List (EnvoyFilter Spec)
  unfolding check_if_present
  absent_from others [] = []
  absent_from others (f ∷ filters) =
      if check_if_present f others
      then absent_from others filters
      else f ∷ absent_from others filters

  -- The calls, creations first and deletions last, and the error that is returned: nothing is ever
  -- assigned to it.
  unfoldable pub apply_envoy_filters :
      (FilterCall Spec → Option String)
      → List (EnvoyFilter Spec)
      → List (EnvoyFilter Spec)
      → List (FilterCall Spec) × Option String
  unfolding create_envoy_filters update_envoy_filters delete_envoy_filters present_in absent_from
  apply_envoy_filters fails requested existing =
      let deleted = if is_empty requested then existing else absent_from requested existing in
      (
        (create_envoy_filters fails none (absent_from existing requested)).0
            ++ (update_envoy_filters fails none (present_in existing requested)).0
            ++ (delete_envoy_filters fails none deleted).0,
        none,
      )
