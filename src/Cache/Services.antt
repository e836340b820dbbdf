-- ===== src/Cache/Services.antt =====
-- internal/cache/cluster_services_cache.go: the services of each cluster by namespace and name. The
-- cluster is lowered on the way in, the namespace and the name are not; the reads lower both keys.
pub mod Laws
use naavik.Common.{String, List, [], Option}
use naavik.Common.Text.{to_lower}
use naavik.Resources.{Service}
use naavik.Cache.Nested
use naavik.Cache.Nested.{Item, Entry, find_entry, gather, store_item, remove_item}

-- `servicecache`
abbrev pub Cache : Type 0
Cache = Nested.Cache Service

-- `Copy` of an entry is the entry: it copies the fields and, deeply, the items.
unfoldable pub copy : Entry Service → Entry Service
copy entry = record { name = entry.name; items = entry.items }

unfoldable pub get_by_cluster_namespace : Cache → String → String → Option (Entry Service)
get_by_cluster_namespace c cluster_id namespace =
    find_entry c (to_lower cluster_id) (to_lower namespace)

unfoldable pub get_by_namespace : Cache → String → List (Item Service)
get_by_namespace c namespace = gather (to_lower namespace) c

unfoldable pub add : Cache → String → Service → Cache
add c cluster_id service =
    store_item c (to_lower cluster_id) service.meta.namespace service.meta.name
      (record { object = service; cluster_id = to_lower cluster_id })

unfoldable pub delete : Cache → String → Service → Cache
delete c cluster_id service =
    remove_item c (to_lower cluster_id) service.meta.namespace service.meta.name

unfoldable pub reset : Cache → Cache
reset c = []
