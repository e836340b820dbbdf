-- ===== src/Common/Bytes.antt =====
-- `[]byte(s)`, the UTF-8 of a text, and `base64.StdEncoding.EncodeToString`. A byte is a number
-- below 256.
pub mod Laws
use Prim.Native.Nat.{ℕ, ◌+◌, ◌-◌, ◌*◌, ◌/◌, ◌%◌}
use Prim.Native.Char.{Char, char, code, IsScalar}
use Prim.Native.String.{String, [], ◌∷◌}
use mathlib.Core.Path.{◌≡◌, refl}
use mathlib.Core.List.{List, [], ◌∷◌, ◌++◌}
use native.Mathlib.Omega.{arith}
use naavik.Common.Tests.{ltb, if◌then◌else◌}

unfoldable pub char_bytes : ℕ → List ℕ
char_bytes n =
    if ltb n 0x80
    then n ∷ []
    else if ltb n 0x800
    then (0xc0 + n / 64) ∷ (0x80 + n % 64) ∷ []
    else if ltb n 0x10000
    then (0xe0 + n / 4096) ∷ (0x80 + n / 64 % 64) ∷ (0x80 + n % 64) ∷ []
    else (0xf0 + n / 262144) ∷ (0x80 + n / 4096 % 64) ∷ (0x80 + n / 64 % 64) ∷ (0x80 + n % 64) ∷ []

unfoldable pub bytes_of : String → List ℕ
unfolding char_bytes
bytes_of [] = []
bytes_of (c ∷ s) = char_bytes (code c) ++ bytes_of s

-- The alphabet of RFC 4648: A to Z, a to z, 0 to 9, + and /.
unfoldable pub digit_code : ℕ → ℕ
digit_code n =
    if ltb n 26
    then n + 65
    else if ltb n 52
    then n + 71
    else if ltb n 62
    then n - 4
    else if ltb n 63
    then 43
    else 47

pub digit_code-IsScalar : (n : ℕ) → IsScalar (digit_code n)
unfolding digit_code
digit_code-IsScalar n = ground arith

unfoldable pub digit : ℕ → Char
unfolding digit_code
digit n = char (digit_code n) (digit_code-IsScalar n)

abbrev pub padding : Char
padding = char b'=' tt

unfoldable pub encode_to_string : List ℕ → String
encode_to_string [] = []
encode_to_string (a ∷ []) = digit (a / 4) ∷ digit (a % 4 * 16) ∷ padding ∷ padding ∷ []
encode_to_string (a ∷ b ∷ []) =
    digit (a / 4) ∷ digit (a % 4 * 16 + b / 16) ∷ digit (b % 16 * 4) ∷ padding ∷ []
encode_to_string (a ∷ b ∷ c ∷ bytes) =
    digit (a / 4)
    ∷ digit (a % 4 * 16 + b / 16)
    ∷ digit (b % 16 * 4 + c / 64)
    ∷ digit (c % 64)
    ∷ encode_to_string bytes

test : encode_to_string (bytes_of "tcg:quota") ≡ "dGNnOnF1b3Rh"
unfolding encode_to_string bytes_of digit
test = refl

test_padded : encode_to_string (bytes_of "é:a?") ≡ "w6k6YT8="
unfolding encode_to_string bytes_of digit
test_padded = refl
