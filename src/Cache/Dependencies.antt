-- ===== src/Cache/Dependencies.antt =====
-- internal/cache/identity_dependency_cache.go: which identities call which. Two maps to sets: an
-- identity's dependencies, and its dependents.
pub mod Laws
use naavik.Common.{
  ℕ, String, Bool, false, List, [], ◌∷◌, Option, none, some, length, nat_eq, if◌then◌else◌,
}
use naavik.Common.Table
use naavik.Common.Table.{Table}
use naavik.Common.Text.{to_lower}
use naavik.Set
use naavik.Set.{Set}

-- `identityDependencyCache` and `identityDependentCache`
pub record Cache : Type 0 where
  pub dependencies : Table Set
  pub dependents : Table Set

-- The body that the two additions have in common.
unfoldable pub relate : Table Set → String → String → Table Set
relate m identity other = elim (Table.get m identity) [
  | none ↦ Table.set m identity (Set.add Set.new_set other)
  | some existing ↦ Table.set m identity (Set.add existing other)
]

-- A set that is left without items is removed.
keep_set : Table Set → String → Set → Table Set
keep_set m identity items =
    if nat_eq (Set.size items) 0 then Table.delete m identity else Table.set m identity items

-- The body that the two removals have in common.
unfoldable pub unrelate : Table Set → String → String → Table Set
unfolding keep_set
unrelate m identity other = elim (Table.get m identity) [
  | none ↦ m
  | some existing ↦ keep_set m identity (Set.delete existing other).0
]

unfoldable pub add_dependency_to_identity : Cache → String → String → Cache
add_dependency_to_identity c identity dependency = record c {
  dependencies = relate c.dependencies (to_lower identity) (to_lower dependency);
}

unfoldable pub add_dependent_to_identity : Cache → String → String → Cache
add_dependent_to_identity c identity dependent = record c {
  dependents = relate c.dependents (to_lower identity) (to_lower dependent);
}

unfoldable pub delete_dependency_from_identity : Cache → String → String → Cache
delete_dependency_from_identity c identity dependency = record c {
  dependencies = unrelate c.dependencies (to_lower identity) (to_lower dependency);
}

unfoldable pub delete_dependent_from_identity : Cache → String → String → Cache
delete_dependent_from_identity c identity dependent = record c {
  dependents = unrelate c.dependents (to_lower identity) (to_lower dependent);
}

items_of : Option Set → List String
items_of none = []
items_of (some existing) = Set.list_items existing

unfoldable pub get_dependencies_for_identity : Cache → String → List String
unfolding items_of
get_dependencies_for_identity c identity = items_of (Table.get c.dependencies (to_lower identity))

unfoldable pub get_dependents_for_identity : Cache → String → List String
unfolding items_of
get_dependents_for_identity c identity = items_of (Table.get c.dependents (to_lower identity))

abbrev pub has_in : Option Set → String → Bool
has_in none other = false
has_in (some existing) other = Set.has existing other

unfoldable pub is_dependent_for_identity : Cache → String → String → Bool
is_dependent_for_identity c identity dependency =
    has_in (Table.get c.dependencies (to_lower identity)) (to_lower dependency)

unfoldable pub get_total_dependencies : Cache → ℕ
get_total_dependencies c = length c.dependencies

-- The callback sees the pairs up to the first one on which it answers false.
visited : (String → List String → Bool) → Table Set → List (String × List String)
visited f [] = []
visited f ((identity, items) ∷ m) =
    let rest = visited f m in
    if f identity (Set.list_items items)
    then (identity, Set.list_items items) ∷ rest
    else (identity, Set.list_items items) ∷ []

unfoldable pub ranged_dependencies :
    (String → List String → Bool) → Cache → List (String × List String)
unfolding visited
ranged_dependencies f c = visited f c.dependencies

unfoldable pub reset : Cache → Cache
reset c = record { dependencies = []; dependents = [] }
