-- ===== src/Cache/Identities.antt =====
-- internal/cache/identity_cluster_cache.go: the clusters that an identity runs in. A set is shared
-- with the cache, so a change to it is a change of the cache.
pub mod Laws
use naavik.Common.{String, Bool, false, List, [], Option, none, some}
use naavik.Common.Table
use naavik.Common.Table.{Table}
use naavik.Common.Text.{to_lower}
use naavik.Set
use naavik.Set.{Set}

-- `identityClusterCache`
abbrev pub Cache : Type 0
Cache = Table Set

add_at : Cache → String → String → Cache
add_at c identity cluster_id = elim (Table.get c identity) [
  | none ↦ Table.set c identity (Set.add Set.new_set cluster_id)
  | some existing ↦ Table.set c identity (Set.add existing cluster_id)
]

unfoldable pub add_cluster_to_identity : Cache → String → String → Cache
unfolding add_at
add_cluster_to_identity c identity cluster_id = add_at c (to_lower identity) (to_lower cluster_id)

-- The set stays in the cache, even an empty one.
delete_at : Cache → String → String → Cache
delete_at c identity cluster_id = elim (Table.get c identity) [
  | none ↦ c
  | some existing ↦ Table.set c identity (Set.delete existing cluster_id).0
]

unfoldable pub delete_cluster_from_identity : Cache → String → String → Cache
unfolding delete_at
delete_cluster_from_identity c identity cluster_id =
    delete_at c (to_lower identity) (to_lower cluster_id)

items_of : Option Set → List String
items_of none = []
items_of (some existing) = Set.list_items existing

unfoldable pub get_clusters_for_identity : Cache → String → List String
unfolding items_of
get_clusters_for_identity c identity = items_of (Table.get c (to_lower identity))

unfoldable pub list_identities : Cache → List String
list_identities c = Table.keys c

abbrev has_in : Option Set → String → Bool
has_in none cluster_id = false
has_in (some existing) cluster_id = Set.has existing cluster_id

unfoldable pub is_cluster_present_in_identity : Cache → String → String → Bool
is_cluster_present_in_identity c identity cluster_id =
    has_in (Table.get c (to_lower identity)) (to_lower cluster_id)

unfoldable pub reset : Cache → Cache
reset c = []
