-- ===== src/Set/Laws.antt =====
-- A set answers as a mathematical set does.
use naavik.Common.{
  ◌+◌, String, Bool, false, ◌||◌, not, ◌&&◌, List, [], ◌∷◌, ◌≡◌, refl, arith, ◌==◌, eq_iff, is_some,
  Bool-cases, if◌then◌else◌, inl, inr,
}
use naavik.Common.Table
use naavik.Common.Table.{Table, get-set, get-delete}
use naavik.Common.Table.Laws.{
  IsDistinct, set-IsDistinct, delete-IsDistinct, length-set, length-delete, get_of_length_zero,
}
use naavik.Set.{Set, new_set, has, add, delete, keys, list_items, size, new_set_data, add_each}

-- Each item is stored once.
pub record IsValid (s : Set) : Type 0 where
  pub distinct : IsDistinct s.items

pub has-add : (s : Set) (a b : String) → has (add s a) b ≡ (a == b || has s b)
unfolding has add
has-add s a b = ground (arith, get-set s.items a b tt, eq_iff a b)

pub has-delete : (s : Set) (a b : String) → has (delete s a).0 b ≡ (not (a == b) && has s b)
unfolding has delete
has-delete s a b = ground (arith, get-delete s.items a b, eq_iff a b)

-- `Delete` reports whether the item was there.
pub delete-has : (s : Set) (a : String) → (delete s a).1 ≡ has s a
unfolding has delete
delete-has s a = ground arith

pub set_add-IsValid : (s : Set) (a : String) → IsValid s → IsValid (add s a)
unfolding add
set_add-IsValid s a h = elim (Bool-cases (is_some (Table.get s.items a))) [
  | inl old ↦ rw old h
  | inr new ↦ rw new (record { distinct = set-IsDistinct s.items a tt h.distinct })
]

pub set_delete-IsValid : (s : Set) (a : String) → IsValid s → IsValid (delete s a).0
unfolding delete
set_delete-IsValid s a h = elim (Bool-cases (is_some (Table.get s.items a))) [
  | inl old ↦ rw old (record { distinct = delete-IsDistinct s.items a h.distinct })
  | inr new ↦ rw new h
]

-- Adding raises the size by one exactly when the item is new; deleting undoes it.
pub size-add : (s : Set) (a : String) → size (add s a) ≡ size s + (if has s a then 0 else 1)
unfolding size add has
size-add s a = ground (arith, length-set s.items a tt)

pub size-delete :
    (s : Set) (a : String) → IsValid s → size (delete s a).0 + (if has s a then 1 else 0) ≡ size s
unfolding size delete has
size-delete s a h = ground (arith, length-delete s.items a h.distinct)

-- `slices.Contains` on a listing.
abbrev pub listed : List String → String → Bool
listed [] b = false
listed (x ∷ xs) b = x == b || listed xs b

listed-keys : (m : Table (Unit {0})) (b : String) → listed (keys m) b ≡ is_some (Table.get m b)
unfolding keys Table.get
listed-keys [] b = refl
listed-keys ((k, v) ∷ m) b = ground (arith, listed-keys m b)

-- `Items` lists exactly what `Has` finds.
pub listed-list_items : (s : Set) (b : String) → listed (list_items s) b ≡ has s b
unfolding list_items has
listed-list_items s b = listed-keys s.items b

pub has-new_set : (b : String) → has new_set b ≡ false
unfolding has new_set Table.get
has-new_set b = refl

has-add_each :
    (s : Set) (given : List String) (b : String)
    → has (add_each s given) b ≡ (has s b || listed given b)
unfolding add_each
has-add_each s [] b = ground arith
has-add_each s (a ∷ given) b = ground (arith, has-add_each (add s a) given b, has-add s a b)

-- `NewSetData` holds exactly what it is given.
pub has-new_set_data :
    (given : List String) (b : String) → has (new_set_data given) b ≡ listed given b
unfolding new_set_data
has-new_set_data given b = ground (arith, has-add_each new_set given b, has-new_set b)

-- A set without items has none.
pub has_of_size_zero : (s : Set) (b : String) → size s ≡ 0 → has s b ≡ false
unfolding size has
has_of_size_zero s b h = rw (get_of_length_zero s.items b h) refl
