-- ===== src/Redact.antt =====
-- internal/redact/hook.go: the response shaper; and `shapeResponse` of internal/server/server.go,
-- which applies it to an upstream body.
use external_gateway.Prelude.{
  ℕ, Bool, true, false, ◌&&◌, ◌||◌, Bytes, List, [], ◌∷◌, ◌++◌, Option, none, some, codes, str_eq,
  leb, if◌then◌else◌, ◌==◌, ◌≡◌, refl,
}
use external_gateway.Value.{
  Value, null, bool, num, str, arr, obj, Items, nil, cons, Fields, end, field,
}
pub mod Allowed
pub mod Places
pub mod Origin
pub mod Response

-- The marker of an array in a path.
abbrev pub elements : Bytes
elements = codes "[]"

-- `flush`: the part that has been collected, if any, goes before the others.
unfoldable pub flush : Bytes → List Bytes → List Bytes
flush [] parts = parts
flush (c ∷ cur) parts = (c ∷ cur) ∷ parts

-- The loop of `splitPath`; `cur` is the part under way.
unfoldable pub split_from : Bytes → Bytes → List Bytes
unfolding flush
split_from cur [] = flush cur []
split_from cur (c ∷ []) = if c == b'.' then flush cur [] else flush (cur ++ c ∷ []) []
split_from cur (c ∷ d ∷ s) = elim (c == b'.') [
  | true ↦ flush cur (split_from [] (d ∷ s))
  | false ↦ elim (c == b'[' && d == b']') [
    | true ↦ flush cur (elements ∷ split_from [] s)
    | false ↦ split_from (cur ++ c ∷ []) (d ∷ s)
  ]
]

unfoldable pub split_path : Bytes → List Bytes
unfolding split_from
split_path path = split_from [] path

-- `m[k]`
unfoldable pub find_field : Bytes → Fields → Option Value
unfolding str_eq
find_field k end = none
find_field k (field j v fs) = if str_eq j k then some v else find_field k fs

-- `m[k] = v`
unfoldable pub set_field : Bytes → Value → Fields → Fields
unfolding str_eq
set_field k v end = field k v end
set_field k v (field j w fs) = if str_eq j k then field j v fs else field j w (set_field k v fs)

-- What a projection leaves at its place in an array: nil where the path is absent.
abbrev pub or_null : Option Value → Value
or_null none = null
or_null (some v) = v

abbrev pub is_found : Option Value → Bool
is_found none = false
is_found (some v) = true

unfoldable pub project_items : (Value → Option Value) → Items → Items
project_items f nil = nil
project_items f (cons v vs) = cons (or_null (f v)) (project_items f vs)

-- Some element has the path.
unfoldable pub any_found : (Value → Option Value) → Items → Bool
any_found f nil = false
any_found f (cons v vs) = is_found (f v) || any_found f vs

unfoldable pub project_array : (Value → Option Value) → Items → Option Value
unfolding project_items any_found
project_array f nil = some (arr nil)
project_array f (cons v vs) =
    if any_found f (cons v vs) then some (arr (project_items f (cons v vs))) else none

unfoldable pub wrap_field : Bytes → Option Value → Option Value
wrap_field p none = none
wrap_field p (some v) = some (obj (field p v end))

unfoldable pub project_child : Bytes → (Value → Option Value) → Option Value → Option Value
unfolding wrap_field
project_child p f none = none
project_child p f (some child) = wrap_field p (f child)

-- One segment of a path; `f` projects by the segments behind it.
unfoldable pub project_segment : Bytes → (Value → Option Value) → Value → Option Value
unfolding project_array project_child find_field str_eq
project_segment p f null = some null
project_segment p f (arr vs) = if str_eq p elements then project_array f vs else none
project_segment p f (obj fs) =
    if str_eq p elements then none else project_child p f (find_field p fs)
project_segment p f (bool b) = none
project_segment p f (num n) = none
project_segment p f (str s) = none

-- `project`: `none` where the path is not found.
unfoldable pub project : List Bytes → Value → Option Value
unfolding project_segment
project [] src = some src
project (p ∷ parts) src = project_segment p (project parts) src

-- The merges recur on what is merged in.
unfoldable mutual
  pub merge_values : Value → Value → Value
  merge_values a null = a
  merge_values a (bool b) = bool b
  merge_values a (num n) = num n
  merge_values a (str s) = str s
  merge_values null (arr bs) = arr bs
  merge_values (bool a) (arr bs) = arr bs
  merge_values (num a) (arr bs) = arr bs
  merge_values (str a) (arr bs) = arr bs
  merge_values (arr as_) (arr bs) = arr (merge_items as_ bs)
  merge_values (obj fs) (arr bs) = arr bs
  merge_values null (obj gs) = obj gs
  merge_values (bool a) (obj gs) = obj gs
  merge_values (num a) (obj gs) = obj gs
  merge_values (str a) (obj gs) = obj gs
  merge_values (arr as_) (obj gs) = obj gs
  merge_values (obj fs) (obj gs) = obj (deep_merge fs gs)

  -- Element by element, the rest of the longer one kept. A merge with nil on either side gives the
  -- other.
  pub merge_items : Items → Items → Items
  merge_items as_ nil = as_
  merge_items nil (cons b bs) = cons b bs
  merge_items (cons a as_) (cons b bs) = cons (merge_values a b) (merge_items as_ bs)

  -- `deepMerge`: the fields of the second go into the first.
  pub deep_merge : Fields → Fields → Fields
  deep_merge dst end = dst
  deep_merge dst (field k v src) =
      let old = find_field k dst in
      deep_merge (set_field k (elim old [ none ↦ v | some w ↦ merge_values w v ]) dst) src

-- Only an object is merged into the result.
unfoldable pub merge_found : Fields → Option Value → Fields
unfolding deep_merge
merge_found result none = result
merge_found result (some null) = result
merge_found result (some (bool b)) = result
merge_found result (some (num n)) = result
merge_found result (some (str s)) = result
merge_found result (some (arr vs)) = result
merge_found result (some (obj fs)) = deep_merge result fs

-- The loop of `Shape`.
unfoldable pub shape_each : List Bytes → Fields → Fields → Fields
unfolding merge_found project split_path
shape_each [] src result = result
shape_each (path ∷ paths) src result =
    shape_each paths src (merge_found result (project (split_path path) (obj src)))

-- `Shape`; `none` is a shaper without a list.
unfoldable pub shape : Option (List Bytes) → Fields → Fields
unfolding shape_each
shape none src = src
shape (some paths) src = shape_each paths src end

splits :
    split_path (codes "hits.hits[]._source.message")
    ≡ codes "hits" ∷ codes "hits" ∷ elements ∷ codes "_source" ∷ codes "message" ∷ []
unfolding split_path
splits = refl
