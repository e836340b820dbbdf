-- ===== src/Common/Text.antt =====
-- The functions of Go's `strings` package that the program calls. A text is a list of characters;
-- the case mappings are those of the ASCII letters.
pub mod Laws
pub mod Lower
use Prim.Native.Nat.{ℕ, ◌+◌, ◌-◌}
use Prim.Native.Char.{Char, char, code, IsScalar}
use Prim.Native.String.{String, [], ◌∷◌, ◌++◌}
use mathlib.Core.Path.{◌≡◌, refl, ap₂}
use mathlib.Core.Logic.{◌↔◌}
use mathlib.Core.Bool.{Bool, true, false, ◌&&◌, ◌||◌}
use mathlib.Core.Option.{Option, none, some}
use mathlib.Core.List.{List, [], ◌∷◌}
use native.Mathlib.Omega.{arith}
use text.Mathlib.Text.{◌==◌}
use text.Mathlib.TextEquality.{Char-path}
use naavik.Common.Tests.{leb, nat_eq, if◌then◌else◌}

unfoldable pub lower_code : ℕ → ℕ
lower_code n = if leb b'A' n && leb n b'Z' then n + 32 else n

pub lower_code-IsScalar : (n : ℕ) → IsScalar n → IsScalar (lower_code n)
unfolding lower_code
lower_code-IsScalar n h = ground arith

unfoldable pub lower_char : Char → Char
lower_char (char n p) = char (lower_code n) (lower_code-IsScalar n p)

-- `strings.ToLower`
unfoldable pub to_lower : String → String
unfolding lower_char lower_code
to_lower [] = []
to_lower (c ∷ s) = lower_char c ∷ to_lower s

unfoldable pub upper_code : ℕ → ℕ
upper_code n = if leb b'a' n && leb n b'z' then n - 32 else n

pub upper_code-IsScalar : (n : ℕ) → IsScalar n → IsScalar (upper_code n)
unfolding upper_code
upper_code-IsScalar n h = ground arith

unfoldable pub upper_char : Char → Char
upper_char (char n p) = char (upper_code n) (upper_code-IsScalar n p)

-- `strings.ToUpper`
unfoldable pub to_upper : String → String
unfolding upper_char upper_code
to_upper [] = []
to_upper (c ∷ s) = upper_char c ∷ to_upper s

lower_code_idem : (n : ℕ) → lower_code (lower_code n) ≡ lower_code n
unfolding lower_code
lower_code_idem n = ground arith

lower_char_idem : (c : Char) → lower_char (lower_char c) ≡ lower_char c
unfolding lower_char
lower_char_idem (char n p) = Char-path _ _ (lower_code_idem n)

-- Lowering twice changes nothing more.
pub to_lower_idem : (s : String) → to_lower (to_lower s) ≡ to_lower s
unfolding to_lower
to_lower_idem [] = refl
to_lower_idem (c ∷ s) = ap₂ ◌∷◌ (lower_char_idem c) (to_lower_idem s)

-- `len(s) == 0` and its converse survive lowering.
pub to_lower-eq-nil_iff : (s : String) → (to_lower s ≡ "") ↔ (s ≡ "")
unfolding to_lower
to_lower-eq-nil_iff [] = (λ e. e, λ e. e)
to_lower-eq-nil_iff (c ∷ s) = (λ e. cc, λ e. cc)

abbrev pub is_space : Char → Bool
is_space c =
    let n = code c in leb 9 n && leb n 13 || nat_eq n b' ' || nat_eq n 0x85 || nat_eq n 0xa0

trim_left : String → String
trim_left [] = []
trim_left (c ∷ s) = if is_space c then trim_left s else c ∷ s

cons_kept : Char → String → String
cons_kept c [] = if is_space c then [] else c ∷ []
cons_kept c (d ∷ s) = c ∷ d ∷ s

trim_right : String → String
unfolding cons_kept
trim_right [] = []
trim_right (c ∷ s) = cons_kept c (trim_right s)

-- `strings.TrimSpace`, for the white space below U+0100
unfoldable pub trim_space : String → String
unfolding trim_left trim_right
trim_space s = trim_right (trim_left s)

-- `strings.HasPrefix`
unfoldable pub has_prefix : String → String → Bool
has_prefix s [] = true
has_prefix [] (d ∷ t) = false
has_prefix (c ∷ s) (d ∷ t) = nat_eq (code c) (code d) && has_prefix s t

-- `strings.Contains`
unfoldable pub contains : String → String → Bool
unfolding has_prefix
contains [] t = has_prefix [] t
contains (c ∷ s) t = has_prefix (c ∷ s) t || contains s t

-- `strings.HasSuffix`
unfoldable pub has_suffix : String → String → Bool
has_suffix [] t = [] == t
has_suffix (c ∷ s) t = (c ∷ s) == t || has_suffix s t

cons_first : Char → List String → List String
cons_first c [] = (c ∷ []) ∷ []
cons_first c (s ∷ parts) = (c ∷ s) ∷ parts

-- `strings.Split` at a separator of one character
unfoldable pub split : Char → String → List String
unfolding cons_first
split sep [] = [] ∷ []
split sep (c ∷ s) =
    let parts = split sep s in if nat_eq (code c) (code sep) then [] ∷ parts else cons_first c parts

abbrev cons_to : Char → Option (String × String) → Option (String × String)
cons_to c none = none
cons_to c (some (s, t)) = some (c ∷ s, t)

-- `strings.SplitN(s, "/", 2)`, where that has two parts
unfoldable pub split_two : String → Option (String × String)
split_two [] = none
split_two (c ∷ s) =
    let rest = split_two s in if nat_eq (code c) b'/' then some ([], s) else cons_to c rest

-- `strings.Join`
unfoldable pub join : List String → String → String
join [] sep = []
join (s ∷ []) sep = s
join (s ∷ t ∷ parts) sep = s ++ sep ++ join (t ∷ parts) sep

test : to_lower "AbZz@[-1" ≡ "abzz@[-1"
unfolding to_lower
test = refl

other_tests :
    (trim_space " a b\n" ≡ "a b")
    × (contains "controller/abc" "r/a" ≡ true)
    × (contains "abc" "ac" ≡ false)
    × (join ("a" ∷ "b" ∷ "" ∷ []) "_" ≡ "a_b_")
unfolding trim_space contains join
other_tests = (refl, refl, refl, refl)

split_test : split "-" "svc-usw-qa" ≡ "svc" ∷ "usw" ∷ "qa" ∷ []
unfolding split
split_test = refl

split_two_test :
    (split_two "secret-controller/https://h/x" ≡ some ("secret-controller", "https://h/x"))
    × (split_two "controller" ≡ none)
unfolding split_two
split_two_test = (refl, refl)
