-- ===== src/RateLimits/Values.antt =====
-- The keys, the path patterns and the amounts of the rate limits.
use Prim.Native.Char.{Char, char}
use naavik.Common.{
  ◌<◌, ◌^◌, ltb, Bool, String, true, false, List, ◌≡◌, ◌↔◌, refl, sym, ap, ◌∙◌, arith, is_empty,
}
use naavik.Common.Bytes.Laws.{base64-injective}
use naavik.Common.Replace.Laws.{starred, widen-narrow}
use naavik.Common.Text.{split, join}
use naavik.Common.Text.Laws.{all_lack, split-join}
use naavik.Common.Words.{ℤ, pos, negsuc, uint32}
use naavik.Resources.{Quota}
use naavik.RateLimits.{get_path_regex, get_descriptor_key, get_descriptor_config, get_token_bucket}

abbrev pub colon : Char
colon = char b':' tt

-- A descriptor key determines the names that it is made of, for names without a colon: neither the
-- separator nor the encoding confuses two lists of names that are not empty.
pub get_descriptor_key-injective :
    (s t : List String)
    → is_empty s ≡ false
    → is_empty t ≡ false
    → all_lack colon s ≡ true
    → all_lack colon t ≡ true
    → get_descriptor_key s ≡ get_descriptor_key t
    → s ≡ t
unfolding get_descriptor_key
get_descriptor_key-injective s t s_some t_some s_lack t_lack e =
    sym (split-join colon s s_some s_lack)
    ∙ ap (split colon) (base64-injective (join s ":") (join t ":") e)
    ∙ split-join colon t t_some t_lack

-- The two replacements of a path are one pass over it: ".*" stays, any other "*" becomes ".*", and
-- every other character stays.
pub get_path_regex-starred : (path : String) → get_path_regex path ≡ starred path
unfolding get_path_regex
get_path_regex-starred path = widen-narrow path

abbrev pub is_uint32 : ℤ → Bool
is_uint32 (pos n) = ltb n (2 ^ 32)
is_uint32 (negsuc n) = false

uint32-bound : (z : ℤ) → uint32 z < 2 ^ 32
unfolding uint32
uint32-bound (pos n) = ground arith
uint32-bound (negsuc n) = ground arith

uint32-exact : (z : ℤ) → (pos (uint32 z) ≡ z) ↔ (is_uint32 z ≡ true)
unfolding uint32
uint32-exact (pos n) = ground arith
uint32-exact (negsuc n) = ground arith

-- For every quota and period, the bucket is filled whole at each interval and holds less than 2 ^ 32
-- tokens: the amount of the quota, where that is neither negative nor larger, and else another
-- number.
pub get_descriptor_config-bucket :
    (group app : String) (quota : Quota) (period : ℤ)
    → let bucket = (get_descriptor_config group app quota period).token_bucket in
      (bucket.tokens_per_fill ≡ bucket.max_tokens)
      × (bucket.max_tokens < 2 ^ 32)
      × ((pos bucket.max_tokens ≡ quota.max_amount) ↔ (is_uint32 quota.max_amount ≡ true))
unfolding get_descriptor_config get_token_bucket
get_descriptor_config-bucket group app quota period =
    (refl, uint32-bound quota.max_amount, uint32-exact quota.max_amount)
