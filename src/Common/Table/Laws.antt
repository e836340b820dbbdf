-- ===== src/Common/Table/Laws.antt =====
-- Tables with distinct keys, their sizes, and predicates on their entries.
use Prim.Native.Nat.{ℕ, ◌+◌}
use Prim.Native.String.{String}
use mathlib.Core.Path.{◌≡◌, refl, subst₂}
use mathlib.Core.Bool.{true, false}
use mathlib.Core.List.{[], ◌∷◌}
use mathlib.Core.Logic.{◌≢◌, inl, inr}
use mathlib.Core.Option.{Option, none, some}
use native.Mathlib.Omega.{arith}
use text.Mathlib.Text.{◌==◌}
use text.Mathlib.TextEquality.{eq_iff}
use text.Mathlib.TextPositions.{eq_refl}
use naavik.Common.Tests.{length, if◌then◌else◌, is_some, is_empty, Bool-cases}
use naavik.Common.Table.{Table, get, set, delete, sum_values, get-set, get-delete}

module _ {ℓ} {V : Type ℓ} where
  -- Every map of Go has each key once.
  abbrev pub IsDistinct : Table V → Type ℓ
  IsDistinct [] = Unit
  IsDistinct ((k, v) ∷ m) = (get m k ≡ none) × IsDistinct m

  pub get-set_self : (m : Table V) (k : String) (v : V) → get (set m k v) k ≡ some v
  get-set_self m k v = ground (arith, get-set m k k v, eq_refl k)

  pub get-set_ne : (m : Table V) (k j : String) (v : V) → k ≢ j → get (set m k v) j ≡ get m j
  get-set_ne m k j v h = ground (arith, get-set m k j v, eq_iff k j)

  pub get-delete_self : (m : Table V) (k : String) → get (delete m k) k ≡ none
  get-delete_self m k = ground (arith, get-delete m k k, eq_refl k)

  pub get-delete_ne : (m : Table V) (k j : String) → k ≢ j → get (delete m k) j ≡ get m j
  get-delete_ne m k j h = ground (arith, get-delete m k j, eq_iff k j)

  pub set-IsDistinct : (m : Table V) (k : String) (v : V) → IsDistinct m → IsDistinct (set m k v)
  unfolding get set
  set-IsDistinct [] k v h = (refl, tt)
  set-IsDistinct ((i, w) ∷ m) k v (fresh, h) =
      ground (arith, eq_iff i k, eq_iff k i, get-set m k i v, set-IsDistinct m k v h)

  pub delete-IsDistinct : (m : Table V) (k : String) → IsDistinct m → IsDistinct (delete m k)
  unfolding delete
  delete-IsDistinct [] k h = tt
  delete-IsDistinct ((i, w) ∷ m) k (fresh, h) =
      ground (arith, get-delete m k i, delete-IsDistinct m k h)

  delete_absent : (m : Table V) (k : String) → get m k ≡ none → delete m k ≡ m
  unfolding get delete
  delete_absent [] k h = refl
  delete_absent ((i, w) ∷ m) k h = ground (arith, delete_absent m k)

  -- A store adds an entry exactly when the key is new.
  pub length-set :
      (m : Table V) (k : String) (v : V)
      → length (set m k v) ≡ length m + (if is_some (get m k) then 0 else 1)
  unfolding get set
  length-set [] k v = refl
  length-set ((i, w) ∷ m) k v = ground (arith, length-set m k v)

  -- A removal takes an entry away exactly when the key is there.
  pub length-delete :
      (m : Table V) (k : String)
      → IsDistinct m
      → length (delete m k) + (if is_some (get m k) then 1 else 0) ≡ length m
  unfolding get delete
  length-delete [] k h = refl
  length-delete ((i, w) ∷ m) k (fresh, h) =
      ground (arith, eq_iff i k, length-delete m k h, delete_absent m k)

  pub get_of_is_empty : (m : Table V) (k : String) → is_empty m ≡ true → get m k ≡ none
  unfolding get
  get_of_is_empty [] k h = refl
  get_of_is_empty (x ∷ m) k h = cc

  pub is_empty-set : (m : Table V) (k : String) (v : V) → is_empty (set m k v) ≡ false
  unfolding set
  is_empty-set [] k v = refl
  is_empty-set ((i, w) ∷ m) k v = ground arith

  pub length_of_is_empty : (m : Table V) → is_empty m ≡ true → length m ≡ 0
  length_of_is_empty [] h = refl
  length_of_is_empty (x ∷ m) h = cc

  pub get_of_length_zero : (m : Table V) (k : String) → length m ≡ 0 → get m k ≡ none
  unfolding get
  get_of_length_zero [] k h = refl
  get_of_length_zero (x ∷ m) k h = ground arith

  pub sum_values_of_is_empty : (f : V → ℕ) (m : Table V) → is_empty m ≡ true → sum_values f m ≡ 0
  unfolding sum_values
  sum_values_of_is_empty f [] h = refl
  sum_values_of_is_empty f (x ∷ m) h = cc

  -- What the value under a key adds to a sum.
  abbrev pub part : (V → ℕ) → Option V → ℕ
  part f none = 0
  part f (some v) = f v

  pub sum_values-set :
      (f : V → ℕ) (m : Table V) (k : String) (v : V)
      → sum_values f (set m k v) + part f (get m k) ≡ sum_values f m + f v
  unfolding get set sum_values
  sum_values-set f [] k v = omega arith
  sum_values-set f ((i, w) ∷ m) k v = ground (arith, sum_values-set f m k v)

  pub sum_values-delete :
      (f : V → ℕ) (m : Table V) (k : String)
      → IsDistinct m
      → sum_values f (delete m k) + part f (get m k) ≡ sum_values f m
  unfolding get delete sum_values
  sum_values-delete f [] k h = refl
  sum_values-delete f ((i, w) ∷ m) k (fresh, h) =
      ground (arith, eq_iff i k, sum_values-delete f m k h, delete_absent m k)

module _ {ℓ κ} {V : Type ℓ} (P : String → V → Type κ) where
  -- A predicate on every entry.
  abbrev pub Entries : Table V → Type κ
  Entries [] = Unit
  Entries ((k, v) ∷ m) = P k v × Entries m

  pub Entries-get : (m : Table V) (k : String) {v : V} → Entries m → get m k ≡ some v → P k v
  unfolding get
  Entries-get [] k h e = cc
  Entries-get ((i, w) ∷ m) k {v} (p, h) e = elim (Bool-cases (i == k)) [
    | inl same ↦ let here : w ≡ v = ground arith in subst₂ P ((eq_iff i k).0 same) here p
    | inr other ↦ Entries-get m k h (ground arith)
  ]

  pub Entries-set : (m : Table V) (k : String) (v : V) → P k v → Entries m → Entries (set m k v)
  unfolding set
  Entries-set [] k v p h = (p, tt)
  Entries-set ((i, w) ∷ m) k v p (q, h) = ground (arith, Entries-set m k v p h)

  pub Entries-delete : (m : Table V) (k : String) → Entries m → Entries (delete m k)
  unfolding delete
  Entries-delete [] k h = tt
  Entries-delete ((i, w) ∷ m) k (q, h) = ground (arith, Entries-delete m k h)
