-- ===== src/Set.antt =====
-- pkg/types/set/set.go, at texts: a set is a map to `struct{}`. Its lock makes each operation one
-- step.
pub mod Laws
use naavik.Common.{ℕ, String, Bool, true, false, List, [], ◌∷◌, is_some, length, if◌then◌else◌}
use naavik.Common.Table
use naavik.Common.Table.{Table}

pub record Set : Type 0 where
  pub items : Table (Unit {0})

unfoldable pub new_set : Set
new_set = record { items = [] }

unfoldable pub has : Set → String → Bool
has s item = is_some (Table.get s.items item)

unfoldable pub add : Set → String → Set
add s item =
    if is_some (Table.get s.items item) then s else record s { items = Table.set s.items item tt }

add_each : Set → List String → Set
add_each s [] = s
add_each s (item ∷ rest) = add_each (add s item) rest

-- `NewSetData`
unfoldable pub new_set_data : List String → Set
unfolding add_each add new_set
new_set_data given = add_each new_set given

unfoldable pub clear : Set → Set
clear s = record s { items = [] }

-- The set after the removal, and whether the item was there.
unfoldable pub delete : Set → String → Set × Bool
delete s item =
    if is_some (Table.get s.items item)
    then (record s { items = Table.delete s.items item }, true)
    else (s, false)

keys : Table (Unit {0}) → List String
keys [] = []
keys ((k, v) ∷ m) = k ∷ keys m

-- `Items`
unfoldable pub list_items : Set → List String
unfolding keys
list_items s = keys s.items

unfoldable pub size : Set → ℕ
size s = length s.items
