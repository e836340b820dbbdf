-- ===== src/RateLimits/Structs.antt =====
-- The generic values of protobuf (structpb) that the rate limit patches are built from.
use naavik.Common.{ℕ, String, List, [], ◌∷◌}

-- `structpb.Value`, `Struct` and `ListValue`
mutual
  pub data Value : Type 0 where
    string_value : String → Value
    number_value : ℕ → Value
    struct_value : Struct → Value
    list_value : ListValue → Value

  pub data Struct : Type 0 where
    no_fields : Struct
    field : String → Value → Struct → Struct

  pub data ListValue : Type 0 where
    no_values : ListValue
    value : Value → ListValue → ListValue

-- A list value with given values.
abbrev pub list_of : List Value → ListValue
list_of [] = no_values
list_of (v ∷ values) = value v (list_of values)
