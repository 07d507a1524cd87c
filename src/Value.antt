-- ===== src/Value.antt =====
-- Decoded JSON and YAML values, Go's `interface{}` as `encoding/json` fills it.
use external_gateway.Prelude.{
  ℕ, ◌*◌, ◌^◌, Bool, not, ◌&&◌, ltb, Bytes, List, [], ◌∷◌, Option, none, some, Map,
}

-- A finite float64, exactly: the sign, and `mant / 2 ^ scale`.
pub record Float64 : Type 0 where
  pub negative : Bool
  pub mant : ℕ
  pub scale : ℕ

-- `f > float64(m)` for `0 <= m <= 2 ^ 53`, where the conversion is exact.
unfoldable pub exceeds : Float64 → ℕ → Bool
exceeds f m = not f.negative && ltb (m * 2 ^ f.scale) f.mant

mutual
  pub data Value : Type 0 where
    null : Value
    bool : Bool → Value
    num : Float64 → Value
    str : Bytes → Value
    arr : Items → Value
    obj : Fields → Value

  pub data Items : Type 0 where
    nil : Items
    cons : Value → Items → Items

  pub data Fields : Type 0 where
    end : Fields
    field : Bytes → Value → Fields → Fields

-- `s, _ := v.(string)`, where `none` is a missing key or another type.
abbrev pub as_string : Option Value → Option Bytes
as_string none = none
as_string (some null) = none
as_string (some (bool _)) = none
as_string (some (num _)) = none
as_string (some (str s)) = some s
as_string (some (arr _)) = none
as_string (some (obj _)) = none

-- The same with Go's zero value, the empty string.
abbrev pub string_or_empty : Option Value → Bytes
string_or_empty v = elim (as_string v) [ none ↦ [] | some s ↦ s ]

abbrev pub keys : Fields → List Bytes
keys end = []
keys (field k v fs) = k ∷ keys fs

abbrev pub values : Items → List Value
values nil = []
values (cons v vs) = v ∷ values vs

-- Request parameters. A nil Go map reads as the empty one.
abbrev pub Params : Type 0
Params = Map Value
