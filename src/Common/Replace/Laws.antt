-- ===== src/Common/Replace/Laws.antt =====
-- Replacing ".*" by "*", and "*" by ".*".
use Prim.Native.Char.{Char, char, code}
use Prim.Native.String.{String, [], ◌∷◌, ◌++◌}
use Prim.Native.String.append
use mathlib.Core.Path.{◌≡◌, refl, ap, ◌∙◌}
use mathlib.Core.Bool.{true, false, ◌&&◌}
use mathlib.Core.Logic.{inl, inr}
use text.Mathlib.TextEquality.{Char-path}
use native.Mathlib.Omega.{arith}
use naavik.Common.Tests.{nat_eq, Bool-cases, if◌then◌else◌}
use naavik.Common.Text.{has_prefix}
use naavik.Common.Replace.{replace_from, replace_all}

abbrev star : Char
star = char b'*' tt

abbrev dot : Char
dot = char b'.' tt

dot-star : (s : String) → ".*" ++ s ≡ dot ∷ star ∷ s
dot-star s =
    append.cons dot "*" s
    ∙ ap (λ t. dot ∷ t) (append.cons star [] s ∙ ap (λ t. star ∷ t) (append.nil s))

one_star : (s : String) → "*" ++ s ≡ star ∷ s
one_star s = append.cons star [] s ∙ ap (λ t. star ∷ t) (append.nil s)

-- `strings.ReplaceAll(s, "*", ".*")` and back
abbrev pub widen : String → String
widen s = replace_all s "*" ".*"

abbrev pub narrow : String → String
narrow s = replace_all s ".*" "*"

widen-no_star : (s : String) → has_prefix (widen s) "*" ≡ false
unfolding replace_all replace_from has_prefix
widen-no_star [] = refl
widen-no_star (c ∷ s) = elim (Bool-cases (nat_eq (code c) b'*')) [
  | inl same ↦ rw (same, dot-star) refl
  | inr other ↦ rw (other, other) refl
]

narrow_kept : (c : Char) (s : String) → has_prefix s "*" ≡ false → narrow (c ∷ s) ≡ c ∷ narrow s
unfolding replace_all replace_from has_prefix
narrow_kept c s h = elim (Bool-cases (nat_eq (code c) b'.')) [
  | inl same ↦ rw (same, h) refl
  | inr other ↦ rw other refl
]

narrow-dot-star : (s : String) → narrow (dot ∷ star ∷ s) ≡ star ∷ narrow s
unfolding replace_all replace_from has_prefix
narrow-dot-star s = one_star _

pub narrow-widen : (s : String) → narrow (widen s) ≡ s
unfolding replace_all replace_from has_prefix
narrow-widen [] = refl
narrow-widen (c ∷ s) = elim (Bool-cases (nat_eq (code c) b'*')) [
  | inl same ↦
      rw (same, dot-star)
        (narrow-dot-star (widen s)
          ∙ ap (λ t. star ∷ t) (narrow-widen s)
          ∙ ap (λ d. d ∷ s) (Char-path star c (ground arith)))
  | inr other ↦
      rw other (narrow_kept c (widen s) (widen-no_star s) ∙ ap (λ t. c ∷ t) (narrow-widen s))
]

-- One pass over a text: ".*" stays, any other "*" becomes ".*", and other characters stay.
abbrev pub starred : String → String
starred [] = []
starred (c ∷ []) = if nat_eq (code c) b'*' then dot ∷ star ∷ [] else c ∷ []
starred (c ∷ d ∷ s) =
    let shifted = starred (d ∷ s) in
    let passed = starred s in
    if nat_eq (code c) b'*'
    then dot ∷ star ∷ shifted
    else if nat_eq (code c) b'.' && nat_eq (code d) b'*'
    then dot ∷ star ∷ passed
    else c ∷ shifted

narrow_other :
    (c : Char) (s : String) → nat_eq (code c) b'.' ≡ false → narrow (c ∷ s) ≡ c ∷ narrow s
unfolding replace_all replace_from has_prefix
narrow_other c s other = rw other refl

widen-star :
    (c : Char) (s : String) → nat_eq (code c) b'*' ≡ true → widen (c ∷ s) ≡ dot ∷ star ∷ widen s
unfolding replace_all replace_from has_prefix
widen-star c s same = rw (same, dot-star) refl

widen_other : (c : Char) (s : String) → nat_eq (code c) b'*' ≡ false → widen (c ∷ s) ≡ c ∷ widen s
unfolding replace_all replace_from has_prefix
widen_other c s other = rw other refl

no_dot : (c : Char) → nat_eq (code c) b'*' ≡ true → nat_eq (code c) b'.' ≡ false
no_dot c same = ground arith

narrow_pair :
    (c d : Char) (s : String)
    → (nat_eq (code c) b'.' && nat_eq (code d) b'*') ≡ false
    → narrow (c ∷ d ∷ s) ≡ c ∷ narrow (d ∷ s)
unfolding has_prefix
narrow_pair c d s h = elim (Bool-cases (nat_eq (code c) b'.')) [
  | inr other ↦ narrow_other c (d ∷ s) other
  | inl same ↦ narrow_kept c (d ∷ s) (ground arith)
]

narrow_both :
    (c d : Char) (s : String)
    → nat_eq (code c) b'.' ≡ true
    → nat_eq (code d) b'*' ≡ true
    → narrow (c ∷ d ∷ s) ≡ star ∷ narrow s
narrow_both c d s is_dot is_star =
    ap (λ e. narrow (e ∷ d ∷ s)) (Char-path c dot (ground arith))
    ∙ ap (λ e. narrow (dot ∷ e ∷ s)) (Char-path d star (ground arith))
    ∙ narrow-dot-star s

nil_narrow : narrow [] ≡ []
unfolding replace_all replace_from
nil_narrow = refl

nil_widen : widen [] ≡ []
unfolding replace_all replace_from
nil_widen = refl

narrow_one : (c : Char) → narrow (c ∷ []) ≡ c ∷ []
unfolding has_prefix
narrow_one c = narrow_kept c [] refl ∙ ap (λ t. c ∷ t) nil_narrow

-- Narrowing a text and widening it again is one pass over it.
pub widen-narrow : (s : String) → widen (narrow s) ≡ starred s
widen-narrow [] = ap widen nil_narrow ∙ nil_widen
widen-narrow (c ∷ []) = elim (Bool-cases (nat_eq (code c) b'*')) [
  | inl same ↦ rw (same, narrow_one, widen-star c [] same) (ap (λ t. dot ∷ star ∷ t) nil_widen)
  | inr other ↦ rw (other, narrow_one, widen_other c [] other) (ap (λ t. c ∷ t) nil_widen)
]
widen-narrow (c ∷ d ∷ s) =
    let shifted = widen-narrow (d ∷ s) in
    let passed = widen-narrow s in
    elim (Bool-cases (nat_eq (code c) b'*')) [
      | inl same ↦
          rw (same, narrow_other c (d ∷ s) (no_dot c same), widen-star c (narrow (d ∷ s)) same)
            (ap (λ t. dot ∷ star ∷ t) shifted)
      | inr other ↦ elim (Bool-cases (nat_eq (code c) b'.' && nat_eq (code d) b'*')) [
        | inl both ↦
            rw (other, both, narrow_both c d s (ground arith) (ground arith))
              (widen-star star (narrow s) refl ∙ ap (λ t. dot ∷ star ∷ t) passed)
        | inr neither ↦
            rw (other, neither, narrow_pair c d s neither, widen_other c (narrow (d ∷ s)) other)
              (ap (λ t. c ∷ t) shifted)
      ]
    ]
