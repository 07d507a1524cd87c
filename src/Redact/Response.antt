-- ===== src/Redact/Response.antt =====
-- `shapeResponse` of internal/server/server.go, with the JSON decoder and encoder as parameters.
use external_gateway.Prelude.{
  ℕ, ◌<◌, Bool, true, false, Bytes, List, [], ◌∷◌, Option, none, some, leb, if◌then◌else◌, ◌≡◌,
  refl, arith,
}
use external_gateway.Value.{Value, null, bool, num, str, arr, obj, Items, nil, cons, Fields}
use external_gateway.Redact.{shape}
use external_gateway.Redact.Origin.{ComesFrom, shape-ComesFrom}
use external_gateway.Redact.Allowed.{Listed, HasAllowed, shape-HasAllowed}

-- The objects of a top-level array, each shaped; other elements are dropped.
unfoldable pub shape_items : List Bytes → Items → Items
shape_items fields nil = nil
shape_items fields (cons (obj fs) vs) = cons (obj (shape (some fields) fs)) (shape_items fields vs)
shape_items fields (cons null vs) = shape_items fields vs
shape_items fields (cons (bool b) vs) = shape_items fields vs
shape_items fields (cons (num n) vs) = shape_items fields vs
shape_items fields (cons (str s) vs) = shape_items fields vs
shape_items fields (cons (arr ws) vs) = shape_items fields vs

-- The decoded body as it is sent on: `none` where it is neither an object nor an array.
unfoldable pub filtered : List Bytes → Value → Option Value
unfolding shape_items
filtered fields null = none
filtered fields (bool b) = none
filtered fields (num n) = none
filtered fields (str s) = none
filtered fields (arr vs) = some (arr (shape_items fields vs))
filtered fields (obj fs) = some (obj (shape (some fields) fs))

abbrev encoded_or : Bytes → Option Bytes → Bytes
encoded_or body none = body
encoded_or body (some out) = out

module _ (decode : Bytes → Option Value) (encode : Value → Option Bytes) where
  abbrev encode_filtered : Bytes → Option Value → Bytes
  encode_filtered body none = body
  encode_filtered body (some v) = encoded_or body (encode v)

  abbrev shape_decoded : Bytes → List Bytes → Option Value → Bytes
  shape_decoded body fields none = body
  shape_decoded body fields (some v) = encode_filtered body (filtered fields v)

  unfoldable pub shape_response : ℕ → Bytes → List Bytes → Bytes
  unfolding filtered
  shape_response status body [] = body
  shape_response status body (f ∷ fields) =
      if leb 400 status then body else shape_decoded body (f ∷ fields) (decode body)

-- A shaped object of an object of the source: it holds only what the listed paths allow, and what it
-- holds comes from the same place.
abbrev pub IsShapedOf : List Bytes → Fields → Fields → Type 0
IsShapedOf fields src out = HasAllowed (Listed fields) out × ComesFrom fields src out

abbrev pub is_object : Value → Bool
is_object null = false
is_object (bool b) = false
is_object (num n) = false
is_object (str s) = false
is_object (arr vs) = false
is_object (obj fs) = true

-- The shaped objects of an array, in order, without its other elements.
pub data AllShaped (fields : List Bytes) : Items → Items → Type 0 where
  all_done : AllShaped fields nil nil
  shaped :
      {src out : Fields} {vs ws : Items}
      → IsShapedOf fields src out
      → AllShaped fields vs ws
      → AllShaped fields (cons (obj src) vs) (cons (obj out) ws)
  dropped :
      {v : Value} {vs ws : Items}
      → is_object v ≡ false
      → AllShaped fields vs ws
      → AllShaped fields (cons v vs) ws

-- What may be sent on of a value: the shaped object, or the shaped objects of the array.
pub data IsShaped (fields : List Bytes) : Value → Value → Type 0 where
  object : {src out : Fields} → IsShapedOf fields src out → IsShaped fields (obj src) (obj out)
  array : {vs ws : Items} → AllShaped fields vs ws → IsShaped fields (arr vs) (arr ws)

shape-IsShapedOf :
    (fields : List Bytes) (src : Fields)
    → ¬ (Listed fields [])
    → IsShapedOf fields src (shape (some fields) src)
shape-IsShapedOf fields src n = (shape-HasAllowed fields src n, shape-ComesFrom fields src)

shape_items-AllShaped :
    (fields : List Bytes) (vs : Items)
    → ¬ (Listed fields [])
    → AllShaped fields vs (shape_items fields vs)
unfolding shape_items
shape_items-AllShaped fields nil n = all_done
shape_items-AllShaped fields (cons (obj fs) vs) n =
    shaped (shape-IsShapedOf fields fs n) (shape_items-AllShaped fields vs n)
shape_items-AllShaped fields (cons null vs) n = dropped refl (shape_items-AllShaped fields vs n)
shape_items-AllShaped fields (cons (bool b) vs) n = dropped refl (shape_items-AllShaped fields vs n)
shape_items-AllShaped fields (cons (num b) vs) n = dropped refl (shape_items-AllShaped fields vs n)
shape_items-AllShaped fields (cons (str b) vs) n = dropped refl (shape_items-AllShaped fields vs n)
shape_items-AllShaped fields (cons (arr ws) vs) n = dropped refl (shape_items-AllShaped fields vs n)

-- An object or an array.
abbrev pub is_structured : Value → Bool
is_structured null = false
is_structured (bool b) = false
is_structured (num n) = false
is_structured (str s) = false
is_structured (arr vs) = true
is_structured (obj fs) = true

filtered-IsShaped :
    (fields : List Bytes) (v : Value)
    → ¬ (Listed fields [])
    → is_structured v ≡ true
    → (w : Value) × (filtered fields v ≡ some w) × IsShaped fields v w
unfolding filtered
filtered-IsShaped fields null n h = absurd (ground arith)
filtered-IsShaped fields (bool b) n h = absurd (ground arith)
filtered-IsShaped fields (num b) n h = absurd (ground arith)
filtered-IsShaped fields (str b) n h = absurd (ground arith)
filtered-IsShaped fields (arr vs) n h =
    (arr (shape_items fields vs), refl, array (shape_items-AllShaped fields vs n))
filtered-IsShaped fields (obj fs) n h =
    (obj (shape (some fields) fs), refl, object (shape-IsShapedOf fields fs n))

module _ (decode : Bytes → Option Value) (encode : Value → Option Bytes) where
  -- If encoding never fails, the upstream status is below 400, the body decodes to an object or an
  -- array, and the operation has an allow-list none of whose entries names the whole response, then
  -- what is sent on encodes the shaped object, or the array of the shaped objects among its
  -- elements, in order. Every key of a shaped object lies on a listed path, and every Boolean,
  -- number and text in it stands at the same place of the object it is made of, at a listed path or
  -- below one.
  pub shape_response-IsShaped :
      ((v : Value) → (out : Bytes) × (encode v ≡ some out))
      → (status : ℕ) (body f : Bytes) (fields : List Bytes) (v : Value) → status < 400
      → decode body ≡ some v
      → is_structured v ≡ true
      → ¬ (Listed (f ∷ fields) [])
      → (w : Value) × IsShaped (f ∷ fields) v w
        × (encode w ≡ some (shape_response decode encode status body (f ∷ fields)))
  unfolding shape_response
  shape_response-IsShaped total status body f fields v low d s n =
      let (w, e, is_shaped) = filtered-IsShaped (f ∷ fields) v n s in
      let (out, encoded) = total w in
      let below : leb 400 status ≡ false = ground arith in
      (w, is_shaped, rw (below, d, e, encoded) refl)
