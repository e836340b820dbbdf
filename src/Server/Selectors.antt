-- ===== src/Server/Selectors.antt =====
-- What the label selectors of the API find among what the program writes.
use naavik.Common.{String, Bool, ◌&&◌, ◌||◌, List, ◌≡◌, arith, ◌==◌, Bool-cases, inl, inr}
use naavik.Common.Table
use naavik.Common.Table.{Table}
use naavik.Common.Text.{to_lower}
use naavik.Options.{NaavikArgs}
use naavik.Resources.{TrafficConfig}
use naavik.TrafficUtil.{get_identity}
use naavik.Handlers.{Caches}
use naavik.VirtualService.Rules.{HttpRoute}
use naavik.VirtualService.Build.{build_virtual_service_object}
use naavik.RateLimits.Routes.{Codec, ConfigPatch}
use naavik.RateLimits.Create.{Istio, throttle_filter}
use naavik.RateLimits.Names.{selects}
use naavik.Server.Answers.{identity_selector}
use naavik.Server.Gathered.{resource_selector}

module _ (codec : Codec) (istio : Istio) (params : NaavikArgs) (caches : Caches) where
  -- The selector of the gathered resources finds a throttle filter exactly by the identity in any
  -- case, and by its environment if one is given. It finds a virtual service only without an
  -- environment, by the identity: no virtual service has the label of an environment. The selector of
  -- the listings for a cluster finds a filter exactly by the identity in lower case.
  pub resource_selector-selects :
      (cluster_id env version identity wanted : String) (tc : TrafficConfig) (labels : Table String)
      (patches : List ConfigPatch) (routes : List HttpRoute)
      → let filter : Table String =
          (throttle_filter codec istio params caches cluster_id tc labels env version
            patches).spec.labels in
        let service : Table String = (build_virtual_service_object params tc routes).labels in
        let same : Bool = to_lower (get_identity params tc) == to_lower identity in
        (selects (resource_selector identity wanted) filter
          ≡ (same && (wanted == "" || env == wanted)))
        × (selects (resource_selector identity wanted) service ≡ (same && wanted == ""))
        × (selects (identity_selector identity) filter
            ≡ (to_lower (get_identity params tc) == identity))
  unfolding resource_selector build_virtual_service_object Table.get
  resource_selector-selects cluster_id env version identity wanted tc labels patches routes =
      elim (Bool-cases (wanted == "")) [
        | inl all ↦ rw all (ground arith, ground arith, ground arith)
        | inr one ↦ rw one (ground arith, ground arith, ground arith)
      ]
