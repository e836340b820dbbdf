-- ===== src/Common/Replace.antt =====
-- `strings.ReplaceAll` of a text that is not empty.
pub mod Laws
use Prim.Native.Nat.{ℕ, zero, suc, ◌-◌}
use Prim.Native.String.{String, [], ◌∷◌, ◌++◌}
use mathlib.Core.Path.{◌≡◌, refl}
use naavik.Common.Tests.{if◌then◌else◌}
use naavik.Common.Text.{has_prefix}

size : String → ℕ
size [] = 0
size (c ∷ s) = suc (size s)

-- The number counts the characters that a match has still to pass over.
unfoldable pub replace_from : String → String → ℕ → String → String
unfolding has_prefix size
replace_from old new skip [] = []
replace_from old new (suc skip) (c ∷ s) = replace_from old new skip s
replace_from old new zero (c ∷ s) =
    let passed = replace_from old new (size old - 1) s in
    let kept = replace_from old new 0 s in
    if has_prefix (c ∷ s) old then new ++ passed else c ∷ kept

unfoldable pub replace_all : String → String → String → String
unfolding replace_from
replace_all s old new = replace_from old new 0 s

test : replace_all "a.*b*" ".*" "*" ≡ "a*b*"
unfolding replace_all
test = refl
