-- ===== src/Cache/Nested/View.antt =====
-- The nested maps against their abstract view: a function of a cluster, a group and a key.
use naavik.Common.{
  String, Bool, ◌&&◌, [], none, some, ◌≡◌, arith, ◌==◌, eq_iff, is_empty, if◌then◌else◌,
  Option-cases, Bool-cases, inl, inr,
}
use naavik.Common.Table
use naavik.Common.Table.{Table, get-set, get-delete}
use naavik.Common.Table.Laws.{get_of_is_empty}
use naavik.Cache.Nested.{
  Item, Entry, GroupMap, Cache, entry_at, item_at, find_item, put_item, store_item, drop_item,
  keep_cluster, remove_item,
}

abbrev pub same_keys : String → String → String → String → String → String → Bool
same_keys cl id env cl' id' env' = cl == cl' && (id == id' && env == env')

module _ {ℓ} {A : Type ℓ} where
  put_item-find_item :
      (m : GroupMap A) (id env id' env' : String) (item : Item A)
      → item_at (Table.get (put_item m id env item) id') env'
        ≡ (if id == id' && env == env' then some item else item_at (Table.get m id') env')
  unfolding put_item Table.get
  put_item-find_item m id env id' env' item = elim (Option-cases (Table.get m id)) [
    | inl e ↦
        rw (e, put_item, get-set)
          (ground (arith, eq_iff id id', eq_iff env env', get-set [] env env' item))
    | inr (entry, e) ↦
        rw (e, put_item, get-set)
          (ground (arith, eq_iff id id', eq_iff env env', get-set entry.items env env' item))
  ]

  -- A store is seen at its own three keys and nowhere else.
  pub find_item-store_item :
      (c : Cache A) (cl id env cl' id' env' : String) (item : Item A)
      → find_item (store_item c cl id env item) cl' id' env'
        ≡ (if same_keys cl id env cl' id' env' then some item else find_item c cl' id' env')
  unfolding store_item find_item Table.get
  find_item-store_item c cl id env cl' id' env' item = elim (Option-cases (Table.get c cl)) [
    | inl e ↦
        rw (e, store_item, get-set)
          (ground (arith, eq_iff cl cl', put_item-find_item [] id env id' env' item))
    | inr (m, e) ↦
        rw (e, store_item, get-set)
          (ground (arith, eq_iff cl cl', put_item-find_item m id env id' env' item))
  ]

  drop_item-find_item :
      (m : GroupMap A) (entry : Entry A) (id env id' env' : String)
      → Table.get m id ≡ some entry
      → item_at (Table.get (drop_item m entry id env) id') env'
        ≡ (if id == id' && env == env' then none else item_at (Table.get m id') env')
  unfolding drop_item
  drop_item-find_item m entry id env id' env' h =
      elim (Bool-cases (is_empty (Table.delete entry.items env))) [
        | inl e ↦
            rw (e, drop_item, get-delete)
              (ground (
                arith,
                eq_iff id id',
                eq_iff env env',
                get-delete entry.items env env',
                get_of_is_empty _ env' e,
              ))
        | inr e ↦
            rw (e, drop_item, get-set)
              (ground (arith, eq_iff id id', eq_iff env env', get-delete entry.items env env'))
      ]

  keep_cluster-entry_at :
      (c : Cache A) (m : GroupMap A) (cl cl' id' : String)
      → entry_at (Table.get (keep_cluster c cl m) cl') id'
        ≡ (if cl == cl' then Table.get m id' else entry_at (Table.get c cl') id')
  unfolding keep_cluster
  keep_cluster-entry_at c m cl cl' id' = elim (Bool-cases (is_empty m)) [
    | inl e ↦ rw (e, get-delete) (ground (arith, get_of_is_empty m id' e))
    | inr e ↦ rw (e, get-set) (ground arith)
  ]

  -- A removal empties its own three keys and nothing else.
  pub find_item-remove_item :
      (c : Cache A) (cl id env cl' id' env' : String)
      → find_item (remove_item c cl id env) cl' id' env'
        ≡ (if same_keys cl id env cl' id' env' then none else find_item c cl' id' env')
  unfolding remove_item find_item
  find_item-remove_item c cl id env cl' id' env' = elim (Option-cases (Table.get c cl)) [
    | inl e ↦ rw (e, remove_item) (ground (arith, eq_iff cl cl'))
    | inr (m, e) ↦ elim (Option-cases (Table.get m id)) [
      | inl e' ↦
          rw (e, remove_item) (rw (e', remove_item) (ground (arith, eq_iff cl cl', eq_iff id id')))
      | inr (entry, e') ↦
          rw (e, remove_item)
            (rw (e', remove_item)
              (rw keep_cluster-entry_at
                (ground (arith, eq_iff cl cl', drop_item-find_item m entry id env id' env' e'))))
    ]
  ]
