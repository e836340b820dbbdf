-- ===== src/Options/Laws.antt =====
-- What holds of the settings.
use naavik.Common.{
  String, Bool, true, false, List, [], ◌∷◌, Option, ◌≡◌, ◌≢◌, refl, arith, ◌==◌, eq_iff, ◌||◌,
}
use naavik.Common.Text.{to_lower}
use naavik.Options.{
  NaavikArgs, items, defaults, fill, given_or_zero, initialize_naavik_args, text_or_default,
  lower_all, is_asset_ignored, slice_contains, get_traffic_config_ignore_assets,
}

-- A text with a non-empty default is never empty.
text_or_default-ne-nil : (val def : String) → (def == "") ≡ false → text_or_default val def ≢ ""
text_or_default-ne-nil val def h = ground (arith, eq_iff "" val, eq_iff def "")

-- Whatever is given, the keys by which the program reads workloads and configurations are not empty
-- after `InitializeNaavikArgs`, and no setting turns Argo rollouts off.
pub initialize_naavik_args-keys :
    (args : Option NaavikArgs)
    → let params : NaavikArgs = initialize_naavik_args args in
      (params.workload_identity_key ≢ "")
      × (params.mesh_injection_enabled_key ≢ "")
      × (params.env_key ≢ "")
      × (params.resource_ignore_label ≢ "")
      × (params.traffic_config_identity_key ≢ "")
      × (params.argo_rollouts_enabled ≡ true)
unfolding initialize_naavik_args fill
initialize_naavik_args-keys args =
    let given = given_or_zero args in
    (
      text_or_default-ne-nil given.workload_identity_key _ refl,
      text_or_default-ne-nil given.mesh_injection_enabled_key _ refl,
      text_or_default-ne-nil given.env_key _ refl,
      text_or_default-ne-nil given.resource_ignore_label _ refl,
      text_or_default-ne-nil given.traffic_config_identity_key _ refl,
      argo given.argo_rollouts_enabled,
    )
  where
    argo : (b : Bool) → naavik.Options.bool_or_default b defaults.argo_rollouts_enabled ≡ true
    argo true = refl
    argo false = refl

-- Whether an asset is in a list, in any case.
abbrev pub contains_fold : List String → String → Bool
contains_fold [] asset = false
contains_fold (a ∷ assets) asset = to_lower a == to_lower asset || contains_fold assets asset

slice_contains-lower_all :
    (assets : List String) (asset : String)
    → slice_contains (lower_all assets) (to_lower asset) ≡ contains_fold assets asset
unfolding slice_contains lower_all
slice_contains-lower_all [] asset = refl
slice_contains-lower_all (a ∷ assets) asset = ground (arith, slice_contains-lower_all assets asset)

-- An asset is ignored exactly when it is among the ignored aliases, in any case.
pub is_asset_ignored-contains_fold :
    (params : NaavikArgs) (asset : String)
    → is_asset_ignored params asset ≡ contains_fold (items params.ignore_asset_aliases) asset
unfolding is_asset_ignored get_traffic_config_ignore_assets
is_asset_ignored-contains_fold params asset =
    slice_contains-lower_all (items params.ignore_asset_aliases) asset
