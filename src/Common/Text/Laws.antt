-- ===== src/Common/Text/Laws.antt =====
-- Parts that lack the separator are read back from their join.
use Prim.Native.Char.{Char, code}
use Prim.Native.String.{String, [], ◌∷◌, ◌++◌}
use Prim.Native.String.append
use mathlib.Core.Path.{◌≡◌, refl, ap, ◌∙◌}
use mathlib.Core.Bool.{Bool, true, false, not, ◌&&◌}
use mathlib.Core.List.{List, [], ◌∷◌}
use mathlib.Core.Logic.{inl, inr}
use native.Mathlib.Omega.{arith}
use naavik.Common.Tests.{nat_eq, Bool-cases, is_empty}
use naavik.Common.Text.{split, join}

-- Whether a text lacks a character.
abbrev pub lacks : Char → String → Bool
lacks sep [] = true
lacks sep (c ∷ s) = not (nat_eq (code c) (code sep)) && lacks sep s

abbrev pub all_lack : Char → List String → Bool
all_lack sep [] = true
all_lack sep (s ∷ parts) = lacks sep s && all_lack sep parts

module _ (sep : Char) where
  split-lacks : (s : String) → lacks sep s ≡ true → split sep s ≡ s ∷ []
  unfolding split
  split-lacks [] h = refl
  split-lacks (c ∷ s) h = elim (Bool-cases (nat_eq (code c) (code sep))) [
    | inl same ↦ absurd (ground arith)
    | inr other ↦ rw (other, split-lacks s (ground arith)) refl
  ]

  split_first :
      (s rest : String) → lacks sep s ≡ true → split sep (s ++ sep ∷ rest) ≡ s ∷ split sep rest
  unfolding split
  split_first [] rest h = rw append.nil (ground arith)
  split_first (c ∷ s) rest h = elim (Bool-cases (nat_eq (code c) (code sep))) [
    | inl same ↦ absurd (ground arith)
    | inr other ↦ rw (append.cons, other, split_first s rest (ground arith)) refl
  ]

  pub split-join :
      (parts : List String)
      → is_empty parts ≡ false
      → all_lack sep parts ≡ true
      → split sep (join parts (sep ∷ [])) ≡ parts
  unfolding join
  split-join [] some h = absurd (ground arith)
  split-join (s ∷ []) some h = split-lacks s (ground arith)
  split-join (s ∷ t ∷ parts) some h =
      ap (λ u. split sep (s ++ u)) (append.cons sep [] _ ∙ ap (λ u. sep ∷ u) (append.nil _))
      ∙ split_first s _ (ground arith)
      ∙ ap (λ l. s ∷ l) (split-join (t ∷ parts) refl (ground arith))
