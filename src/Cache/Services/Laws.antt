-- ===== src/Cache/Services/Laws.antt =====
-- What a read of a namespace finds.
use naavik.Common.{String, none, some, ◌≡◌, refl, arith, if◌then◌else◌, Option}
use naavik.Common.Text.{to_lower}
use naavik.Resources.{Service}
use naavik.Cache.Nested.{find_entry, Item, item_at, find_item}
use naavik.Cache.Nested.View.{same_keys, find_item-store_item, find_item-remove_item}
use naavik.Cache.Services.{Cache, get_by_cluster_namespace, add, delete}

-- What a client reads: the item of a name in the entry that `GetByClusterNamespace` returns.
abbrev pub read : Cache → String → String → String → Option (Item Service)
read c cl ns name = item_at (get_by_cluster_namespace c cl ns) name

read-find_item :
    (c : Cache) (cl ns name : String)
    → read c cl ns name ≡ find_item c (to_lower cl) (to_lower ns) name
unfolding get_by_cluster_namespace find_item find_entry
read-find_item c cl ns name = refl

-- After `Add`, exactly the reads whose lowered cluster and namespace and whose name are the
-- service's find it. So a service whose own namespace is not in lower case is never found.
pub read-add :
    (c : Cache) (cl : String) (s : Service) (cl' ns' name' : String)
    → read (add c cl s) cl' ns' name' ≡ (
        if same_keys (to_lower cl) s.meta.namespace s.meta.name (to_lower cl') (to_lower ns') name'
        then some (record { object = s; cluster_id = to_lower cl })
        else read c cl' ns' name')
unfolding add
read-add c cl s cl' ns' name' = ground (
  arith,
  read-find_item (add c cl s) cl' ns' name',
  read-find_item c cl' ns' name',
  find_item-store_item c (to_lower cl) s.meta.namespace s.meta.name (to_lower cl') (to_lower ns')
      name' (record { object = s; cluster_id = to_lower cl }),
)

-- After `Delete`, those reads find nothing, and all others what they found before.
pub read-delete :
    (c : Cache) (cl : String) (s : Service) (cl' ns' name' : String)
    → read (delete c cl s) cl' ns' name' ≡ (
        if same_keys (to_lower cl) s.meta.namespace s.meta.name (to_lower cl') (to_lower ns') name'
        then none
        else read c cl' ns' name')
unfolding delete
read-delete c cl s cl' ns' name' = ground (
  arith,
  read-find_item (delete c cl s) cl' ns' name',
  read-find_item c cl' ns' name',
  find_item-remove_item c (to_lower cl) s.meta.namespace s.meta.name (to_lower cl') (to_lower ns')
      name',
)
