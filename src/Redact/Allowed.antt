-- ===== src/Redact/Allowed.antt =====
-- What a shaped response may hold, by the paths of the allow-list of internal/redact/hook.go.
use external_gateway.Prelude.{
  Bytes, List, [], ◌∷◌, Option, none, some, str_eq, str_eq_iff, ◌≡◌, ◌⊎◌, inl, inr, refl, sym,
  subst, Some, Bool-cases, Option-cases,
}
use external_gateway.Value.{
  Value, null, bool, num, str, arr, obj, Items, nil, cons, Fields, end, field,
}
use external_gateway.Redact.{
  elements, split_path, find_field, set_field, or_null, project_items, any_found, project_array,
  wrap_field, project_child, project_segment, project, merge_values, merge_items, deep_merge,
  merge_found, shape_each, shape,
}

-- A set of paths.
abbrev pub Paths : Type 1
Paths = List Bytes → Type 0

-- What stands behind a segment.
abbrev pub behind : Bytes → Paths → Paths
behind p P q = P (p ∷ q)

-- A path goes through the segment.
abbrev pub Enters : Bytes → Paths → Type 0
Enters p P = (q : List Bytes) × P (p ∷ q)

-- A value that the paths allow: everything where a path ends, and nil; else an array that a path
-- enters, of allowed elements, or an object whose every key a path enters, to an allowed value.
abbrev mutual
  pub IsAllowed : Paths → Value → Type 0
  IsAllowed P null = Unit {0}
  IsAllowed P (bool b) = P []
  IsAllowed P (num n) = P []
  IsAllowed P (str s) = P []
  IsAllowed P (arr vs) = P [] ⊎ (Enters elements P × AreAllowed (behind elements P) vs)
  IsAllowed P (obj fs) = P [] ⊎ HasAllowed P fs

  pub AreAllowed : Paths → Items → Type 0
  AreAllowed P nil = Unit {0}
  AreAllowed P (cons v vs) = IsAllowed P v × AreAllowed P vs

  pub HasAllowed : Paths → Fields → Type 0
  HasAllowed P end = Unit {0}
  HasAllowed P (field k v fs) = Enters k P × (IsAllowed (behind k P) v × HasAllowed P fs)

-- Whatever stands where a path ends is allowed.
ends-IsAllowed : (P : Paths) (v : Value) → P [] → IsAllowed P v
ends-IsAllowed P null h = tt
ends-IsAllowed P (bool b) h = h
ends-IsAllowed P (num n) h = h
ends-IsAllowed P (str s) h = h
ends-IsAllowed P (arr vs) h = inl h
ends-IsAllowed P (obj fs) h = inl h

abbrev AllowsResult : Paths → Option Value → Type 0
AllowsResult P none = Unit {0}
AllowsResult P (some v) = IsAllowed P v

or_null-IsAllowed : (P : Paths) (o : Option Value) → AllowsResult P o → IsAllowed P (or_null o)
or_null-IsAllowed P none h = tt
or_null-IsAllowed P (some v) h = h

project_items-AreAllowed :
    (P : Paths) (f : Value → Option Value) (vs : Items)
    → ((v : Value) → AllowsResult P (f v))
    → AreAllowed P (project_items f vs)
unfolding project_items
project_items-AreAllowed P f nil h = tt
project_items-AreAllowed P f (cons v vs) h =
    (or_null-IsAllowed P (f v) (h v), project_items-AreAllowed P f vs h)

project_array-AllowsResult :
    (P : Paths) (f : Value → Option Value) (vs : Items)
    → Enters elements P
    → ((v : Value) → AllowsResult (behind elements P) (f v))
    → AllowsResult P (project_array f vs)
unfolding project_array
project_array-AllowsResult P f nil e h = inr (e, tt)
project_array-AllowsResult P f (cons v vs) e h = elim (Bool-cases (any_found f (cons v vs))) [
  | inl y ↦ rw (y) (inr (e, project_items-AreAllowed (behind elements P) f (cons v vs) h))
  | inr n ↦ rw (n) tt
]

wrap_field-AllowsResult :
    (P : Paths) (p : Bytes) (o : Option Value)
    → Enters p P
    → AllowsResult (behind p P) o
    → AllowsResult P (wrap_field p o)
unfolding wrap_field
wrap_field-AllowsResult P p none e h = tt
wrap_field-AllowsResult P p (some v) e h = inr (e, (h, tt))

project_child-AllowsResult :
    (P : Paths) (p : Bytes) (f : Value → Option Value) (o : Option Value)
    → Enters p P
    → ((v : Value) → AllowsResult (behind p P) (f v))
    → AllowsResult P (project_child p f o)
unfolding project_child
project_child-AllowsResult P p f none e h = tt
project_child-AllowsResult P p f (some v) e h = wrap_field-AllowsResult P p (f v) e (h v)

project_segment-AllowsResult :
    (P : Paths) (p : Bytes) (f : Value → Option Value) (v : Value)
    → Enters p P
    → ((w : Value) → AllowsResult (behind p P) (f w))
    → AllowsResult P (project_segment p f v)
unfolding project_segment
project_segment-AllowsResult P p f null e h = tt
project_segment-AllowsResult P p f (bool b) e h = tt
project_segment-AllowsResult P p f (num n) e h = tt
project_segment-AllowsResult P p f (str s) e h = tt
project_segment-AllowsResult P p f (arr vs) e h = elim (Bool-cases (str_eq p elements)) [
  | inl y ↦
      let same : p ≡ elements = (str_eq_iff p elements).0 y in
      rw (y) (
        project_array-AllowsResult P f vs (subst (λ k. Enters k P) same e)
          (subst (λ k. (w : Value) → AllowsResult (behind k P) (f w)) same h))
  | inr n ↦ rw (n) tt
]
project_segment-AllowsResult P p f (obj fs) e h = elim (Bool-cases (str_eq p elements)) [
  | inl y ↦ rw (y) tt
  | inr n ↦ rw (n) (project_child-AllowsResult P p f (find_field p fs) e h)
]

project-AllowsResult :
    (P : Paths) (parts : List Bytes) (v : Value) → P parts → AllowsResult P (project parts v)
unfolding project
project-AllowsResult P [] v h = ends-IsAllowed P v h
project-AllowsResult P (p ∷ parts) v h =
    project_segment-AllowsResult P p (project parts) v (parts, h)
      (λ w. project-AllowsResult (behind p P) parts w h)

find_field-HasAllowed :
    (P : Paths) (k : Bytes) (fs : Fields)
    → HasAllowed P fs
    → AllowsResult (behind k P) (find_field k fs)
unfolding find_field
find_field-HasAllowed P k end h = tt
find_field-HasAllowed P k (field j v fs) (e, (a, h)) = elim (Bool-cases (str_eq j k)) [
  | inl y ↦ rw (y) (subst (λ i. IsAllowed (behind i P) v) ((str_eq_iff j k).0 y) a)
  | inr n ↦ rw (n) (find_field-HasAllowed P k fs h)
]

set_field-HasAllowed :
    (P : Paths) (k : Bytes) (v : Value) (fs : Fields)
    → Enters k P
    → IsAllowed (behind k P) v
    → HasAllowed P fs
    → HasAllowed P (set_field k v fs)
unfolding set_field
set_field-HasAllowed P k v end e a h = (e, (a, tt))
set_field-HasAllowed P k v (field j w fs) e a (d, (b, h)) = elim (Bool-cases (str_eq j k)) [
  | inl y ↦ rw (y) (d, (subst (λ i. IsAllowed (behind i P) v) (sym ((str_eq_iff j k).0 y)) a, h))
  | inr n ↦ rw (n) (d, (b, set_field-HasAllowed P k v fs e a h))
]

mutual
  unfolding merge_values

  merge_values-IsAllowed :
      (P : Paths) (a b : Value) → IsAllowed P a → IsAllowed P b → IsAllowed P (merge_values a b)
  merge_values-IsAllowed P a null x y = x
  merge_values-IsAllowed P a (bool b) x y = y
  merge_values-IsAllowed P a (num n) x y = y
  merge_values-IsAllowed P a (str s) x y = y
  merge_values-IsAllowed P null (arr bs) x y = y
  merge_values-IsAllowed P (bool a) (arr bs) x y = y
  merge_values-IsAllowed P (num a) (arr bs) x y = y
  merge_values-IsAllowed P (str a) (arr bs) x y = y
  merge_values-IsAllowed P (obj fs) (arr bs) x y = y
  merge_values-IsAllowed P (arr as_) (arr bs) (inl x) y = inl x
  merge_values-IsAllowed P (arr as_) (arr bs) (inr x) (inl y) = inl y
  merge_values-IsAllowed P (arr as_) (arr bs) (inr (e, x)) (inr (d, y)) =
      inr (e, merge_items-AreAllowed (behind elements P) as_ bs x y)
  merge_values-IsAllowed P null (obj gs) x y = y
  merge_values-IsAllowed P (bool a) (obj gs) x y = y
  merge_values-IsAllowed P (num a) (obj gs) x y = y
  merge_values-IsAllowed P (str a) (obj gs) x y = y
  merge_values-IsAllowed P (arr as_) (obj gs) x y = y
  merge_values-IsAllowed P (obj fs) (obj gs) (inl x) y = inl x
  merge_values-IsAllowed P (obj fs) (obj gs) (inr x) (inl y) = inl y
  merge_values-IsAllowed P (obj fs) (obj gs) (inr x) (inr y) =
      inr (deep_merge-HasAllowed P fs gs x y)

  merge_items-AreAllowed :
      (P : Paths) (as_ bs : Items)
      → AreAllowed P as_
      → AreAllowed P bs
      → AreAllowed P (merge_items as_ bs)
  merge_items-AreAllowed P as_ nil x y = x
  merge_items-AreAllowed P nil (cons b bs) x y = y
  merge_items-AreAllowed P (cons a as_) (cons b bs) (x, xs) (y, ys) =
      (merge_values-IsAllowed P a b x y, merge_items-AreAllowed P as_ bs xs ys)

  deep_merge-HasAllowed :
      (P : Paths) (dst src : Fields)
      → HasAllowed P dst
      → HasAllowed P src
      → HasAllowed P (deep_merge dst src)
  deep_merge-HasAllowed P dst end x y = x
  deep_merge-HasAllowed P dst (field k v src) x (e, (a, y)) =
      elim (Option-cases (find_field k dst)) [
        | inl n ↦ rw (n) (
            deep_merge-HasAllowed P (set_field k v dst) src (set_field-HasAllowed P k v dst e a x)
              y)
        | inr (w, s) ↦ rw (s) (
            deep_merge-HasAllowed P (set_field k (merge_values w v) dst) src
              (set_field-HasAllowed P k (merge_values w v) dst e
                (merge_values-IsAllowed (behind k P) w v
                  (subst (AllowsResult (behind k P)) s (find_field-HasAllowed P k dst x)) a)
                x)
              y)
      ]

-- An object whose root no path ends at.
merge_found-HasAllowed :
    (P : Paths) (result : Fields) (o : Option Value)
    → (P [] → ⊥)
    → HasAllowed P result
    → AllowsResult P o
    → HasAllowed P (merge_found result o)
unfolding merge_found
merge_found-HasAllowed P result none n x y = x
merge_found-HasAllowed P result (some null) n x y = x
merge_found-HasAllowed P result (some (bool b)) n x y = x
merge_found-HasAllowed P result (some (num b)) n x y = x
merge_found-HasAllowed P result (some (str b)) n x y = x
merge_found-HasAllowed P result (some (arr b)) n x y = x
merge_found-HasAllowed P result (some (obj fs)) n x (inl y) = absurd (n y)
merge_found-HasAllowed P result (some (obj fs)) n x (inr y) = deep_merge-HasAllowed P result fs x y

-- The paths of an allow-list.
abbrev pub Listed : List Bytes → Paths
Listed fields parts = Some (λ f. split_path f ≡ parts) fields

shape_each-HasAllowed :
    (P : Paths) (fields : List Bytes) (src result : Fields)
    → (P [] → ⊥)
    → ((parts : List Bytes) → Listed fields parts → P parts)
    → HasAllowed P result
    → HasAllowed P (shape_each fields src result)
unfolding shape_each
shape_each-HasAllowed P [] src result n l x = x
shape_each-HasAllowed P (f ∷ fields) src result n l x =
    shape_each-HasAllowed P fields src (merge_found result (project (split_path f) (obj src))) n
      (λ parts h. l parts (inr h))
      (merge_found-HasAllowed P result (project (split_path f) (obj src)) n x
        (project-AllowsResult P (split_path f) (obj src) (l (split_path f) (inl refl))))

-- If the allow-list has no entry that names the whole response, then every key of the shaped
-- response lies on a listed path, at every depth and through the elements of arrays, and a value
-- that is not nil stands only where a listed path ends or below, or is an object or an array that a
-- listed path goes through.
pub shape-HasAllowed :
    (fields : List Bytes) (src : Fields)
    → ¬ (Listed fields [])
    → HasAllowed (Listed fields) (shape (some fields) src)
unfolding shape
shape-HasAllowed fields src n =
    shape_each-HasAllowed (Listed fields) fields src end n (λ parts h. h) tt
