-- ===== src/Cache/Nested.antt =====
-- What the caches of deployments, rollouts and services have in common (internal/cache/cluster_*_cache.go):
-- clusters, groups (identities or namespaces) and keys (environments or names), nested maps.
-- The lock makes each operation one step. The entries that readers get share the cache's maps; no
-- caller writes to them.
pub mod View
pub mod Valid
pub mod Count
use naavik.Common.{
  ℕ, String, List, [], ◌∷◌, ◌++◌, Option, none, some, is_empty, length, if◌then◌else◌,
}
use naavik.Common.Table
use naavik.Common.Table.{Table}

-- `DeploymentItem`, `RolloutItem`, `K8sServiceItem`
pub record Item {ℓ} (A : Type ℓ) : Type ℓ where
  pub object : A
  pub cluster_id : String

-- `DeploymentEntry`, `RolloutEntry`, `K8sServiceEntry`: a group's name, and its items by key
pub record Entry {ℓ} (A : Type ℓ) : Type ℓ where
  pub name : String
  pub items : Table (Item A)

-- The groups of a cluster.
abbrev pub GroupMap {ℓ} : Type ℓ → Type ℓ
GroupMap A = Table (Entry A)

-- The groups by cluster.
abbrev pub Cache {ℓ} : Type ℓ → Type ℓ
Cache A = Table (GroupMap A)

module _ {ℓ} {A : Type ℓ} where
  -- A read at each level, with the early return on a missing key.
  abbrev pub entry_at : Option (GroupMap A) → String → Option (Entry A)
  entry_at none group = none
  entry_at (some groups) group = Table.get groups group

  abbrev pub item_at : Option (Entry A) → String → Option (Item A)
  item_at none key = none
  item_at (some entry) key = Table.get entry.items key

  -- The reads at the stored keys.
  unfoldable pub find_entry : Cache A → String → String → Option (Entry A)
  find_entry c cluster_id group = entry_at (Table.get c cluster_id) group

  unfoldable pub find_item : Cache A → String → String → String → Option (Item A)
  find_item c cluster_id group key = item_at (entry_at (Table.get c cluster_id) group) key

  -- The items of one cluster.
  items_for : String → GroupMap A → List (Item A)
  items_for group groups = elim (Table.get groups group) [
    | none ↦ []
    | some entry ↦ Table.values entry.items
  ]

  unfoldable pub gather : String → Cache A → List (Item A)
  unfolding items_for
  gather group [] = []
  gather group ((cluster_id, groups) ∷ c) = items_for group groups ++ gather group c

  abbrev one_item : String → String → Item A → Entry A
  one_item group key item = record { name = group; items = Table.set [] key item }

  -- An addition below the cluster: into the entry of the group, which may be new.
  put_item : GroupMap A → String → String → Item A → GroupMap A
  put_item groups group key item = elim (Table.get groups group) [
    | none ↦ Table.set groups group (one_item group key item)
    | some entry ↦ Table.set groups group (record entry { items = Table.set entry.items key item })
  ]

  unfoldable pub store_item : Cache A → String → String → String → Item A → Cache A
  unfolding put_item
  store_item c cluster_id group key item = elim (Table.get c cluster_id) [
    | none ↦ Table.set c cluster_id (Table.set [] group (one_item group key item))
    | some groups ↦ Table.set c cluster_id (put_item groups group key item)
  ]

  -- A removal below the cluster: the key goes, and with it an entry that is left empty.
  drop_item : GroupMap A → Entry A → String → String → GroupMap A
  drop_item groups entry group key =
      let items = Table.delete entry.items key in
      if is_empty items
      then Table.delete groups group
      else Table.set groups group (record entry { items = items })

  -- A cluster that is left empty goes too.
  keep_cluster : Cache A → String → GroupMap A → Cache A
  keep_cluster c cluster_id groups =
      if is_empty groups then Table.delete c cluster_id else Table.set c cluster_id groups

  unfoldable pub remove_item : Cache A → String → String → String → Cache A
  unfolding drop_item keep_cluster
  remove_item c cluster_id group key = elim (Table.get c cluster_id) [
    | none ↦ c
    | some groups ↦ elim (Table.get groups group) [
      | none ↦ c
      | some entry ↦ keep_cluster c cluster_id (drop_item groups entry group key)
    ]
  ]

  abbrev pub count_group_items : GroupMap A → ℕ
  count_group_items groups = Table.sum_values (λ entry. length entry.items) groups

  unfoldable pub count_items : Cache A → ℕ
  count_items c = Table.sum_values count_group_items c
