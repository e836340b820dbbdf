-- ===== src/Common/Bytes/Laws.antt =====
-- The encodings lose nothing.
use Prim.Native.Nat.{ℕ, ◌<◌, ◌+◌, ◌*◌, ◌/◌, ◌%◌}
use Prim.Native.Char.{Char, char, code, IsScalar}
use Prim.Native.String.{String, [], ◌∷◌}
use mathlib.Core.Path.{◌≡◌, refl, sym, ap, ap₂}
use mathlib.Core.List
use mathlib.Core.List.{List, [], ◌∷◌}
use native.Mathlib.Omega.{arith}
use text.Mathlib.TextEquality.{Char-path}
use naavik.Common.Tests.{All, All-append}
use naavik.Common.Bytes.{char_bytes, bytes_of, digit_code, digit, padding, encode_to_string}

scalar_bound : (n : ℕ) → IsScalar n → n < 0x110000
scalar_bound n h = ground arith

char_bytes-cancel :
    (n m : ℕ) (l k : List ℕ)
    → n < 0x110000
    → m < 0x110000
    → List.◌++◌ (char_bytes n) l ≡ List.◌++◌ (char_bytes m) k
    → (n ≡ m) × (l ≡ k)
unfolding char_bytes
char_bytes-cancel n m l k hn hm e = ground arith

abbrev Byte : ℕ → Type 0
Byte b = b < 256

digit-injective : (n m : ℕ) → n < 64 → m < 64 → digit n ≡ digit m → n ≡ m
unfolding digit digit_code
digit-injective n m hn hm e = ground (arith, ap (λ c. code c) e)

digit-ne-padding : (n : ℕ) → n < 64 → digit n ≡ padding → ⊥
unfolding digit digit_code
digit-ne-padding n hn e = ground (arith, ap (λ c. code c) e)

abbrev third : String → Char
third (c ∷ d ∷ e ∷ s) = e
third _ = padding

abbrev fourth : String → Char
fourth (c ∷ d ∷ e ∷ f ∷ s) = f
fourth _ = padding

encode-injective :
    (l m : List ℕ) → All Byte l → All Byte m → encode_to_string l ≡ encode_to_string m → l ≡ m
unfolding encode_to_string
encode-injective [] [] hl hm e = refl
encode-injective [] (x ∷ []) hl hm e = cc
encode-injective [] (x ∷ y ∷ []) hl hm e = cc
encode-injective [] (x ∷ y ∷ z ∷ m) hl hm e = cc
encode-injective (a ∷ []) [] hl hm e = cc
encode-injective (a ∷ []) (x ∷ []) (ha, hl) (hx, hm) e =
    ground (arith, digit-injective (a / 4) (x / 4), digit-injective (a % 4 * 16) (x % 4 * 16))
encode-injective (a ∷ []) (x ∷ y ∷ []) (ha, hl) (hx, (hy, hm)) e =
    absurd (digit-ne-padding (y % 16 * 4) (ground arith) (sym (ap third e)))
encode-injective (a ∷ []) (x ∷ y ∷ z ∷ m) (ha, hl) (hx, (hy, (hz, hm))) e =
    absurd (digit-ne-padding (y % 16 * 4 + z / 64) (ground arith) (sym (ap third e)))
encode-injective (a ∷ b ∷ []) [] hl hm e = cc
encode-injective (a ∷ b ∷ []) (x ∷ []) (ha, (hb, hl)) (hx, hm) e =
    absurd (digit-ne-padding (b % 16 * 4) (ground arith) (ap third e))
encode-injective (a ∷ b ∷ []) (x ∷ y ∷ []) (ha, (hb, hl)) (hx, (hy, hm)) e = ground (
  arith,
  digit-injective (a / 4) (x / 4),
  digit-injective (a % 4 * 16 + b / 16) (x % 4 * 16 + y / 16),
  digit-injective (b % 16 * 4) (y % 16 * 4),
)
encode-injective (a ∷ b ∷ []) (x ∷ y ∷ z ∷ m) (ha, (hb, hl)) (hx, (hy, (hz, hm))) e =
    absurd (digit-ne-padding (z % 64) (ground arith) (sym (ap fourth e)))
encode-injective (a ∷ b ∷ c ∷ l) [] hl hm e = cc
encode-injective (a ∷ b ∷ c ∷ l) (x ∷ []) (ha, (hb, (hc, hl))) (hx, hm) e =
    absurd (digit-ne-padding (b % 16 * 4 + c / 64) (ground arith) (ap third e))
encode-injective (a ∷ b ∷ c ∷ l) (x ∷ y ∷ []) (ha, (hb, (hc, hl))) (hx, (hy, hm)) e =
    absurd (digit-ne-padding (c % 64) (ground arith) (ap fourth e))
encode-injective (a ∷ b ∷ c ∷ l) (x ∷ y ∷ z ∷ m) (ha, (hb, (hc, hl))) (hx, (hy, (hz, hm))) e =
    ground (
      arith,
      digit-injective (a / 4) (x / 4),
      digit-injective (a % 4 * 16 + b / 16) (x % 4 * 16 + y / 16),
      digit-injective (b % 16 * 4 + c / 64) (y % 16 * 4 + z / 64),
      digit-injective (c % 64) (z % 64),
      encode-injective l m hl hm,
    )

char_bytes-Byte : (n : ℕ) → n < 0x110000 → All Byte (char_bytes n)
unfolding char_bytes
char_bytes-Byte n h = ground arith

bytes_of-Byte : (s : String) → All Byte (bytes_of s)
unfolding bytes_of
bytes_of-Byte [] = tt
bytes_of-Byte (char n p ∷ s) =
    All-append Byte (char_bytes n) (bytes_of s) (char_bytes-Byte n (scalar_bound n p))
      (bytes_of-Byte s)

char_bytes-ne-nil : (n : ℕ) (l : List ℕ) → List.◌++◌ (char_bytes n) l ≡ [] → ⊥
unfolding char_bytes
char_bytes-ne-nil n l e = ground arith

bytes_of-injective : (s t : String) → bytes_of s ≡ bytes_of t → s ≡ t
unfolding bytes_of
bytes_of-injective [] [] e = refl
bytes_of-injective [] (char n p ∷ t) e = absurd (char_bytes-ne-nil n (bytes_of t) (sym e))
bytes_of-injective (char n p ∷ s) [] e = absurd (char_bytes-ne-nil n (bytes_of s) e)
bytes_of-injective (char n p ∷ s) (char m q ∷ t) e =
    let (same, rest) =
      char_bytes-cancel n m (bytes_of s) (bytes_of t) (scalar_bound n p) (scalar_bound m q) e in
    ap₂ ◌∷◌ (Char-path (char n p) (char m q) same) (bytes_of-injective s t rest)

-- `base64.StdEncoding.EncodeToString([]Byte(s))` tells any two texts apart.
pub base64-injective :
    (s t : String) → encode_to_string (bytes_of s) ≡ encode_to_string (bytes_of t) → s ≡ t
base64-injective s t e =
    bytes_of-injective s t
      (encode-injective (bytes_of s) (bytes_of t) (bytes_of-Byte s) (bytes_of-Byte t) e)
