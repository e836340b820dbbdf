-- ===== src/Writes.antt =====
-- What the calls that a handler makes write to the clusters: the recorded calls of Handlers, run by
-- RateLimits and VirtualService on the caches.
pub mod Deletion
pub mod Returns
use naavik.Common.{List, [], ◌∷◌, Option, none, some}
use naavik.Options.{Compile}
use naavik.Cache.Clusters
use naavik.Handlers.{Caches, Setting, Call, handle_rate_limiter, handle_virtual_service}
use naavik.VirtualService.Apply.{Existing, ApiCall, handle_virtual_service_for_traffic_config}
use naavik.RateLimits.Handle
use naavik.RateLimits.Handle.{ClusterCall}
use naavik.RateLimits.Routes.{Codec}
use naavik.RateLimits.Create.{Istio, both_lists}

-- A call of the Istio API that writes a filter or a virtual service.
pub data Write : Type 0 where
  filter_write : ClusterCall → Write
  service_write : ApiCall → Write

abbrev pub filter_writes : List ClusterCall → List Write
filter_writes [] = []
filter_writes (call ∷ calls) = filter_write call ∷ filter_writes calls

abbrev pub service_writes : List ApiCall → List Write
service_writes [] = []
service_writes (call ∷ calls) = service_write call ∷ service_writes calls

abbrev filters_if : Option (List ClusterCall) → Option (List Write)
filters_if none = none
filters_if (some calls) = some (filter_writes calls)

abbrev services_if : Option (List ApiCall) → Option (List Write)
services_if none = none
services_if (some calls) = some (service_writes calls)

-- The remote clusters, and what the APIs of Istio answer.
pub record World (Clients : Type 0) : Type 0 where
  pub compile : Compile
  pub codec : Codec
  pub istio : Istio
  pub existing : Existing
  pub registered : Clusters.Cache Clients

module _ {Clients : Type 0} (world : World Clients) (setting : Setting) (caches : Caches) where
  unfoldable pub writes_of : Call → Option (List Write)
  unfolding Handle.handle_rate_limiter handle_virtual_service_for_traffic_config
  writes_of (handle_rate_limiter tc event_type) = filters_if (
      Handle.handle_rate_limiter world.compile world.codec world.istio setting.params caches
        world.registered tc event_type)
  writes_of (handle_virtual_service tc) = services_if (
      handle_virtual_service_for_traffic_config world.compile setting.params caches.identities
        caches.dependencies world.registered world.existing tc)

  -- The writes of the calls, in order; `none` if one of them panics.
  unfoldable pub writes_of_all : List Call → Option (List Write)
  unfolding writes_of
  writes_of_all [] = some []
  writes_of_all (call ∷ calls) = both_lists (writes_of call) (writes_of_all calls)
