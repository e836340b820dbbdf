-- ===== src/Cache/Nested/Valid.antt =====
-- The shape of the nested maps: no entry and no cluster is empty, every key is stored once, and the
-- keys that the entries and the items repeat are the ones that they stand under.
use naavik.Common.{String, false, [], some, ◌≡◌, refl, is_empty, Option-cases, Bool-cases, inl, inr}
use naavik.Common.Table
use naavik.Common.Table.Laws.{
  IsDistinct, set-IsDistinct, delete-IsDistinct, Entries, Entries-get, Entries-set, Entries-delete,
  is_empty-set,
}
use naavik.Cache.Nested.{
  Item, Entry, GroupMap, Cache, one_item, put_item, store_item, drop_item, keep_cluster,
  remove_item,
}

module _ {ℓ} {A : Type ℓ} where
  -- An item of a cluster says which cluster it is of.
  abbrev pub ItemOf : String → String → Item A → Type 0
  ItemOf cluster_id key item = item.cluster_id ≡ cluster_id

  pub record EntryOf (cluster_id : String) (group : String) (entry : Entry A) : Type ℓ where
    pub named : entry.name ≡ group
    pub filled : is_empty entry.items ≡ false
    pub distinct : IsDistinct entry.items
    pub owned : Entries (ItemOf cluster_id) entry.items

  pub record ClusterOf (cluster_id : String) (groups : GroupMap A) : Type ℓ where
    pub filled : is_empty groups ≡ false
    pub distinct : IsDistinct groups
    pub entries : Entries (EntryOf cluster_id) groups

  pub record IsValid (c : Cache A) : Type ℓ where
    pub distinct : IsDistinct c
    pub clusters : Entries ClusterOf c

  -- What is left of a cluster, before an empty one is taken out.
  record Remains (cl : String) (m : GroupMap A) : Type ℓ where
    distinct : IsDistinct m
    entries : Entries (EntryOf cl) m

module _ {ℓ} {A : Type ℓ} where
  one_item-EntryOf :
      (cl id env : String) (item : Item A)
      → item.cluster_id ≡ cl
      → EntryOf cl id (one_item id env item)
  one_item-EntryOf cl id env item h = record {
    named = refl;
    filled = is_empty-set [] env item;
    distinct = set-IsDistinct [] env item tt;
    owned = Entries-set (ItemOf cl) [] env item h tt;
  }

  set-ClusterOf :
      (cl : String) (m : GroupMap A) (id : String) (entry : Entry A)
      → IsDistinct m
      → Entries (EntryOf cl) m
      → EntryOf cl id entry
      → ClusterOf cl (Table.set m id entry)
  set-ClusterOf cl m id entry d h e = record {
    filled = is_empty-set m id entry;
    distinct = set-IsDistinct m id entry d;
    entries = Entries-set (EntryOf cl) m id entry e h;
  }

  put_item-ClusterOf :
      (cl : String) (m : GroupMap A) (id env : String) (item : Item A)
      → item.cluster_id ≡ cl
      → ClusterOf cl m
      → ClusterOf cl (put_item m id env item)
  unfolding put_item
  put_item-ClusterOf cl m id env item own h = elim (Option-cases (Table.get m id)) [
    | inl e ↦
        rw (e, put_item)
          (set-ClusterOf cl m id (one_item id env item) h.distinct h.entries
            (one_item-EntryOf cl id env item own))
    | inr (entry, e) ↦
        let old = Entries-get (EntryOf cl) m id h.entries e in
        rw (e, put_item)
          (set-ClusterOf cl m id (record entry { items = Table.set entry.items env item })
            h.distinct h.entries
            (record {
              named = old.named;
              filled = is_empty-set entry.items env item;
              distinct = set-IsDistinct entry.items env item old.distinct;
              owned = Entries-set (ItemOf cl) entry.items env item own old.owned;
            }))
  ]

  set-IsValid :
      (c : Cache A) (cl : String) (m : GroupMap A)
      → ClusterOf cl m
      → IsValid c
      → IsValid (Table.set c cl m)
  set-IsValid c cl m h v = record {
    distinct = set-IsDistinct c cl m v.distinct;
    clusters = Entries-set ClusterOf c cl m h v.clusters;
  }

  drop_cluster-IsValid : (c : Cache A) (cl : String) → IsValid c → IsValid (Table.delete c cl)
  drop_cluster-IsValid c cl v = record {
    distinct = delete-IsDistinct c cl v.distinct;
    clusters = Entries-delete ClusterOf c cl v.clusters;
  }

  pub store_item-IsValid :
      (c : Cache A) (cl id env : String) (item : Item A)
      → item.cluster_id ≡ cl
      → IsValid c
      → IsValid (store_item c cl id env item)
  unfolding store_item
  store_item-IsValid c cl id env item own v = elim (Option-cases (Table.get c cl)) [
    | inl e ↦
        rw (e, store_item)
          (set-IsValid c cl _
            (set-ClusterOf cl [] id (one_item id env item) tt tt
              (one_item-EntryOf cl id env item own))
            v)
    | inr (m, e) ↦
        rw (e, store_item)
          (set-IsValid c cl _
            (put_item-ClusterOf cl m id env item own (Entries-get ClusterOf c cl v.clusters e)) v)
  ]

  drop_item-Remains :
      (cl : String) (m : GroupMap A) (entry : Entry A) (id env : String)
      → Table.get m id ≡ some entry
      → ClusterOf cl m
      → Remains cl (drop_item m entry id env)
  unfolding drop_item
  drop_item-Remains cl m entry id env found h =
      let old = Entries-get (EntryOf cl) m id h.entries found in
      elim (Bool-cases (is_empty (Table.delete entry.items env))) [
        | inl e ↦
            rw (e, drop_item)
              (record {
                distinct = delete-IsDistinct m id h.distinct;
                entries = Entries-delete (EntryOf cl) m id h.entries;
              })
        | inr e ↦
            rw (e, drop_item)
              (record {
                distinct = set-IsDistinct m id _ h.distinct;
                entries =
                    Entries-set (EntryOf cl) m id _
                      (record {
                        named = old.named;
                        filled = e;
                        distinct = delete-IsDistinct entry.items env old.distinct;
                        owned = Entries-delete (ItemOf cl) entry.items env old.owned;
                      })
                      h.entries;
              })
      ]

  keep_cluster-IsValid :
      (c : Cache A) (cl : String) (m : GroupMap A)
      → Remains cl m
      → IsValid c
      → IsValid (keep_cluster c cl m)
  unfolding keep_cluster
  keep_cluster-IsValid c cl m h v = elim (Bool-cases (is_empty m)) [
    | inl e ↦ rw e (drop_cluster-IsValid c cl v)
    | inr e ↦
        rw e
          (set-IsValid c cl m (record { filled = e; distinct = h.distinct; entries = h.entries }) v)
  ]

  -- A removal leaves no empty entry and no empty cluster behind.
  pub remove_item-IsValid :
      (c : Cache A) (cl id env : String) → IsValid c → IsValid (remove_item c cl id env)
  unfolding remove_item
  remove_item-IsValid c cl id env v = elim (Option-cases (Table.get c cl)) [
    | inl e ↦ rw (e, remove_item) v
    | inr (m, e) ↦ elim (Option-cases (Table.get m id)) [
      | inl e' ↦ rw (e, remove_item) (rw (e', remove_item) v)
      | inr (entry, e') ↦
          rw (e, remove_item)
            (rw (e', remove_item)
              (keep_cluster-IsValid c cl _
                (drop_item-Remains cl m entry id env e' (Entries-get ClusterOf c cl v.clusters e))
                v))
    ]
  ]
