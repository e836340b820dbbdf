-- ===== src/Common/Text/Lower.antt =====
-- Parts of a text in lower case are in lower case.
use Prim.Native.Char.{Char, code}
use Prim.Native.String.{String, [], ◌∷◌}
use mathlib.Core.Path.{◌≡◌, refl, sym, ap, ap₂, ◌∙◌}
use mathlib.Core.Bool.{true}
use mathlib.Core.Option.{Option, none, some}
use mathlib.Core.Logic.{inl, inr}
use native.Mathlib.Omega.{arith}
use text.Mathlib.TextEquality.{Char-path}
use naavik.Common.Tests.{nat_eq, Bool-cases}
use naavik.Common.Text.{to_lower, lower_char, has_prefix, contains, split_two, cons_to}

-- A text without capitals
abbrev pub IsLower : String → Type 0
IsLower s = to_lower s ≡ s

abbrev head_or : Char → String → Char
head_or c [] = c
head_or c (d ∷ s) = d

abbrev tail_of : String → String
tail_of [] = []
tail_of (c ∷ s) = s

lower_head : (c : Char) (s : String) → IsLower (c ∷ s) → lower_char c ≡ c
unfolding to_lower
lower_head c s h = ap (head_or c) h

IsLower-tail : (c : Char) (s : String) → IsLower (c ∷ s) → IsLower s
unfolding to_lower
IsLower-tail c s h = ap tail_of h

IsLower-has_prefix : (s t : String) → has_prefix s t ≡ true → IsLower s → IsLower t
unfolding has_prefix to_lower
IsLower-has_prefix s [] h l = refl
IsLower-has_prefix [] (d ∷ t) h l = absurd (ground arith)
IsLower-has_prefix (c ∷ s) (d ∷ t) h l =
    let same : c ≡ d = Char-path c d (ground arith) in
    ap₂ ◌∷◌ (ap lower_char (sym same) ∙ lower_head c s l ∙ same)
      (IsLower-has_prefix s t (ground arith) (IsLower-tail c s l))

pub IsLower-contains : (s t : String) → contains s t ≡ true → IsLower s → IsLower t
unfolding contains
IsLower-contains [] t h l = IsLower-has_prefix [] t h l
IsLower-contains (c ∷ s) t h l = elim (Bool-cases (has_prefix (c ∷ s) t)) [
  | inl here ↦ IsLower-has_prefix (c ∷ s) t here l
  | inr later ↦ IsLower-contains s t (ground arith) (IsLower-tail c s l)
]

abbrev pub SecondIsLower : Option (String × String) → Type 0
SecondIsLower none = Unit
SecondIsLower (some (s, t)) = IsLower t

cons_to-lower :
    (c : Char) (o : Option (String × String)) → SecondIsLower o → SecondIsLower (cons_to c o)
cons_to-lower c none h = tt
cons_to-lower c (some (s, t)) h = h

pub split_two-IsLower : (s : String) → IsLower s → SecondIsLower (split_two s)
unfolding split_two
split_two-IsLower [] l = tt
split_two-IsLower (c ∷ s) l = elim (Bool-cases (nat_eq (code c) b'/')) [
  | inl slash ↦ rw slash (IsLower-tail c s l)
  | inr other ↦ rw other (cons_to-lower c (split_two s) (split_two-IsLower s (IsLower-tail c s l)))
]
