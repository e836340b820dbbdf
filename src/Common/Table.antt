-- ===== src/Common/Table.antt =====
-- Go's maps with text keys, and `sync.Map`: association lists in which a store replaces in place.
-- Go visits the entries in no fixed order; the model's order is one that Go may choose.
pub mod Laws
use Prim.Native.Nat.{ℕ, ◌+◌}
use Prim.Native.String.{String}
use mathlib.Core.Path.{◌≡◌, refl}
use mathlib.Core.List.{List, [], ◌∷◌}
use mathlib.Core.Option.{Option, none, some}
use native.Mathlib.Omega.{arith}
use text.Mathlib.Text.{◌==◌}
use text.Mathlib.TextEquality.{eq_iff}
use naavik.Common.Tests.{if◌then◌else◌}

-- A nil map reads as an empty one, and the program writes to none.
abbrev pub Table {ℓ} : Type ℓ → Type ℓ
Table V = List (String × V)

module _ {ℓ} {V : Type ℓ} where
  -- `v, ok := m[k]` and `Load`
  unfoldable pub get : Table V → String → Option V
  get [] k = none
  get ((j, v) ∷ m) k = if j == k then some v else get m k

  -- `m[k] = v` and `Store`
  unfoldable pub set : Table V → String → V → Table V
  set [] k v = (k, v) ∷ []
  set ((j, w) ∷ m) k v = if j == k then (k, v) ∷ m else (j, w) ∷ set m k v

  -- `delete(m, k)` and `Delete`
  unfoldable pub delete : Table V → String → Table V
  delete [] k = []
  delete ((j, w) ∷ m) k = if j == k then delete m k else (j, w) ∷ delete m k

  -- A sum over the values, as the counting loops compute it.
  unfoldable pub sum_values : (V → ℕ) → Table V → ℕ
  sum_values f [] = 0
  sum_values f ((k, v) ∷ m) = f v + sum_values f m

  -- The values, in the order of a `Range`.
  unfoldable pub values : Table V → List V
  values [] = []
  values ((k, v) ∷ m) = v ∷ values m

  -- The keys, in the order of a `Range`.
  unfoldable pub keys : Table V → List String
  keys [] = []
  keys ((k, v) ∷ m) = k ∷ keys m

  pub get-set :
      (m : Table V) (k j : String) (v : V)
      → get (set m k v) j ≡ (if k == j then some v else get m j)
  unfolding get set
  get-set [] k j v = refl
  get-set ((i, w) ∷ m) k j v = ground (arith, eq_iff k j, eq_iff i k, eq_iff i j, get-set m k j v)

  pub get-delete :
      (m : Table V) (k j : String) → get (delete m k) j ≡ (if k == j then none else get m j)
  unfolding get delete
  get-delete [] k j = ground arith
  get-delete ((i, w) ∷ m) k j = ground (arith, eq_iff k j, eq_iff i k, eq_iff i j, get-delete m k j)
