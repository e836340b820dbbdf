-- ===== src/Cache/Nested/Count.antt =====
-- What the counting loops over the nested maps return.
use naavik.Common.{
  ◌+◌, String, [], some, ◌≡◌, arith, is_empty, length, is_some, if◌then◌else◌, Option-cases,
  Bool-cases, inl, inr,
}
use naavik.Common.Table
use naavik.Common.Table.Laws.{
  IsDistinct, Entries-get, sum_values-set, sum_values-delete, sum_values_of_is_empty, length-set,
  length-delete, length_of_is_empty,
}
use naavik.Cache.Nested.{
  Item, Entry, GroupMap, Cache, item_at, find_item, one_item, put_item, store_item, drop_item,
  keep_cluster, remove_item, count_group_items, count_items,
}
use naavik.Cache.Nested.Valid.{EntryOf, ClusterOf, IsValid}

module _ {ℓ} {A : Type ℓ} where
  put_item-count :
      (m : GroupMap A) (id env : String) (item : Item A)
      → count_group_items (put_item m id env item)
        ≡ count_group_items m + (if is_some (item_at (Table.get m id) env) then 0 else 1)
  unfolding put_item Table.set
  put_item-count m id env item = elim (Option-cases (Table.get m id)) [
    | inl e ↦
        rw (e, put_item)
          (ground
            (arith, sum_values-set (λ (x : Entry A). length x.items) m id (one_item id env item)))
    | inr (entry, e) ↦
        rw (e, put_item)
          (ground (
            arith,
            sum_values-set (λ (x : Entry A). length x.items) m id
                (record entry { items = Table.set entry.items env item }),
            length-set entry.items env item,
          ))
  ]

  pub count_items-store_item :
      (c : Cache A) (cl id env : String) (item : Item A)
      → count_items (store_item c cl id env item)
        ≡ count_items c + (if is_some (find_item c cl id env) then 0 else 1)
  unfolding store_item count_items find_item Table.set Table.sum_values
  count_items-store_item c cl id env item = elim (Option-cases (Table.get c cl)) [
    | inl e ↦
        rw (e, store_item)
          (ground
            (arith, sum_values-set count_group_items c cl (Table.set [] id (one_item id env item))))
    | inr (m, e) ↦
        rw (e, store_item)
          (ground (
            arith,
            sum_values-set count_group_items c cl (put_item m id env item),
            put_item-count m id env item,
          ))
  ]

  drop_item-count :
      (m : GroupMap A) (entry : Entry A) (id env : String)
      → IsDistinct m
      → IsDistinct entry.items
      → Table.get m id ≡ some entry
      → count_group_items (drop_item m entry id env)
          + (if is_some (Table.get entry.items env) then 1 else 0)
        ≡ count_group_items m
  unfolding drop_item
  drop_item-count m entry id env d d' found =
      let left = Table.delete entry.items env in
      elim (Bool-cases (is_empty (Table.delete entry.items env))) [
        | inl e ↦
            rw (e, drop_item)
              (ground (
                arith,
                sum_values-delete (λ (x : Entry A). length x.items) m id d,
                length-delete entry.items env d',
                length_of_is_empty left e,
              ))
        | inr e ↦
            rw (e, drop_item)
              (ground (
                arith,
                sum_values-set (λ (x : Entry A). length x.items) m id
                    (record entry { items = left }),
                length-delete entry.items env d',
              ))
      ]

  keep_cluster-count :
      (c : Cache A) (cl : String) (m m' : GroupMap A)
      → IsDistinct c
      → Table.get c cl ≡ some m
      → count_items (keep_cluster c cl m') + count_group_items m
        ≡ count_items c + count_group_items m'
  unfolding keep_cluster count_items
  keep_cluster-count c cl m m' d found = elim (Bool-cases (is_empty m')) [
    | inl e ↦ rw e (
        ground (
          arith,
          sum_values-delete count_group_items c cl d,
          sum_values_of_is_empty (λ (x : Entry A). length x.items) m' e,
        ))
    | inr e ↦ rw e (ground (arith, sum_values-set count_group_items c cl m'))
  ]

  pub count_items-remove_item :
      (c : Cache A) (cl id env : String)
      → IsValid c
      → count_items (remove_item c cl id env) + (if is_some (find_item c cl id env) then 1 else 0)
        ≡ count_items c
  unfolding remove_item find_item
  count_items-remove_item c cl id env v = elim (Option-cases (Table.get c cl)) [
    | inl e ↦ rw (e, remove_item) (ground arith)
    | inr (m, e) ↦ elim (Option-cases (Table.get m id)) [
      | inl e' ↦ rw (e, remove_item) (rw (e', remove_item) (ground arith))
      | inr (entry, e') ↦
          let h = Entries-get ClusterOf c cl v.clusters e in
          let h' = Entries-get (EntryOf cl) m id h.entries e' in
          rw (e, remove_item)
            (rw (e', remove_item)
              (ground (
                arith,
                drop_item-count m entry id env h.distinct h'.distinct e',
                keep_cluster-count c cl m (drop_item m entry id env) v.distinct e,
              )))
    ]
  ]
