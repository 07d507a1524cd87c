-- ===== src/Redact/Places.antt =====
-- Where the values of a projection stand in the response that internal/redact/hook.go shapes.
use external_gateway.Prelude.{
  ℕ, zero, suc, Bytes, List, [], ◌∷◌, Option, none, some, str_eq, str_eq_iff, ◌≡◌, ◌⊎◌, inl, inr,
  sym, ap, subst, arith, Bool-cases, Option-cases,
}
use external_gateway.Value.{
  Value, null, bool, num, str, arr, obj, Items, nil, cons, Fields, end, field,
}
use external_gateway.Redact.{
  elements, find_field, or_null, project_items, any_found, project_array, wrap_field, project_child,
  project_segment, project,
}
use external_gateway.Redact.Allowed.{Paths, behind}

-- A place in a value: the value itself, or a place in a field or in the element with an index.
pub data Place : Type 0 where
  here : Place
  in_field : Bytes → Place → Place
  in_item : ℕ → Place → Place

-- The value has this Boolean, number or text at the place.
abbrev mutual
  pub Holds : Value → Place → Value → Type 0
  Holds null p x = ⊥
  Holds (bool b) p x = (p ≡ here) × (x ≡ bool b)
  Holds (num n) p x = (p ≡ here) × (x ≡ num n)
  Holds (str s) p x = (p ≡ here) × (x ≡ str s)
  Holds (arr vs) here x = ⊥
  Holds (arr vs) (in_field k p) x = ⊥
  Holds (arr vs) (in_item n p) x = ItemHolds vs n p x
  Holds (obj fs) here x = ⊥
  Holds (obj fs) (in_field k p) x = FieldHolds fs k p x
  Holds (obj fs) (in_item n p) x = ⊥

  pub ItemHolds : Items → ℕ → Place → Value → Type 0
  ItemHolds nil n p x = ⊥
  ItemHolds (cons v vs) zero p x = Holds v p x
  ItemHolds (cons v vs) (suc n) p x = ItemHolds vs n p x

  pub FieldHolds : Fields → Bytes → Place → Value → Type 0
  FieldHolds end k p x = ⊥
  FieldHolds (field j v fs) k p x = ((j ≡ k) × Holds v p x) ⊎ FieldHolds fs k p x

-- A path leads to the place, or to one that it lies in.
abbrev pub Under : Paths → Place → Type 0
Under P here = P []
Under P (in_field k p) = P [] ⊎ Under (behind k P) p
Under P (in_item n p) = P [] ⊎ Under (behind elements P) p

abbrev pub ResultHolds : Option Value → Place → Value → Type 0
ResultHolds none p x = ⊥
ResultHolds (some v) p x = Holds v p x

Under-end : (P : Paths) (p : Place) → P [] → Under P p
Under-end P here h = h
Under-end P (in_field k p) h = inl h
Under-end P (in_item n p) h = inl h

or_null-Holds :
    (o : Option Value) (p : Place) (x : Value) → Holds (or_null o) p x → ResultHolds o p x
or_null-Holds none p x h = absurd h
or_null-Holds (some v) p x h = h

-- The projection by the rest of a path leaves what stands at the same place, below the path.
abbrev pub Leaves : Paths → (Value → Option Value) → Type 0
Leaves P f = (w : Value) (p : Place) (x : Value) → ResultHolds (f w) p x → Holds w p x × Under P p

project_items-Holds :
    (P : Paths) (f : Value → Option Value) (vs : Items) (n : ℕ) (p : Place) (x : Value)
    → Leaves P f
    → ItemHolds (project_items f vs) n p x
    → ItemHolds vs n p x × Under P p
unfolding project_items
project_items-Holds P f nil n p x k h = absurd h
project_items-Holds P f (cons v vs) zero p x k h = k v p x (or_null-Holds (f v) p x h)
project_items-Holds P f (cons v vs) (suc n) p x k h = project_items-Holds P f vs n p x k h

items-Holds :
    (P : Paths) (f : Value → Option Value) (vs : Items) (p : Place) (x : Value)
    → Leaves (behind elements P) f
    → Holds (arr (project_items f vs)) p x
    → Holds (arr vs) p x × Under P p
items-Holds P f vs here x k h = absurd h
items-Holds P f vs (in_field j p) x k h = absurd h
items-Holds P f vs (in_item n p) x k h =
    let (found, under) = project_items-Holds (behind elements P) f vs n p x k h in
    (found, inr under)

project_array-Holds :
    (P : Paths) (f : Value → Option Value) (vs : Items) (p : Place) (x : Value)
    → Leaves (behind elements P) f
    → ResultHolds (project_array f vs) p x
    → Holds (arr vs) p x × Under P p
unfolding project_array
project_array-Holds P f nil p x k = items-Holds P f nil p x k
project_array-Holds P f (cons v vs) p x k = elim (Bool-cases (any_found f (cons v vs))) [
  | inl y ↦ rw (y) (items-Holds P f (cons v vs) p x k)
  | inr n ↦ rw (n) (λ h. absurd h)
]

wrap_field-Holds :
    (s : Bytes) (o : Option Value) (p : Place) (x : Value)
    → ResultHolds (wrap_field s o) p x
    → (q : Place) × (p ≡ in_field s q) × ResultHolds o q x
unfolding wrap_field
wrap_field-Holds s none p x h = absurd h
wrap_field-Holds s (some v) here x h = absurd h
wrap_field-Holds s (some v) (in_item n q) x h = absurd h
wrap_field-Holds s (some v) (in_field k q) x (inl (e, h)) = (q, ap (λ t. in_field t q) (sym e), h)
wrap_field-Holds s (some v) (in_field k q) x (inr h) = absurd h

pub find_field-Holds :
    (s : Bytes) (fs : Fields) {v : Value} (p : Place) (x : Value)
    → find_field s fs ≡ some v
    → Holds v p x
    → FieldHolds fs s p x
unfolding find_field
find_field-Holds s end p x e h = absurd (ground arith)
find_field-Holds s (field j w fs) {v} p x e h = elim (Bool-cases (str_eq j s)) [
  | inl y ↦
      let same : v ≡ w = ground arith in inl ((str_eq_iff j s).0 y, subst (λ u. Holds u p x) same h)
  | inr n ↦ inr (find_field-Holds s fs p x (ground arith) h)
]

project_child-Holds :
    (P : Paths) (s : Bytes) (f : Value → Option Value) (fs : Fields) (p : Place) (x : Value)
    → Leaves (behind s P) f
    → ResultHolds (project_child s f (find_field s fs)) p x
    → Holds (obj fs) p x × Under P p
unfolding project_child
project_child-Holds P s f fs p x k = elim (Option-cases (find_field s fs)) [
  | inl e ↦ rw (e) (λ h. absurd h)
  | inr (v, e) ↦ rw (e) (λ h.
      let (q, same, held) = wrap_field-Holds s (f v) p x h in
      let (found, under) = k v q x held in
      subst (λ r. Holds (obj fs) r x × Under P r) (sym same)
        (find_field-Holds s fs q x e found, inr under))
]

project_segment-Holds :
    (P : Paths) (s : Bytes) (f : Value → Option Value)
    → Leaves (behind s P) f
    → Leaves P (project_segment s f)
unfolding project_segment
project_segment-Holds P s f k null p x = λ h. absurd h
project_segment-Holds P s f k (bool b) p x = λ h. absurd h
project_segment-Holds P s f k (num n) p x = λ h. absurd h
project_segment-Holds P s f k (str t) p x = λ h. absurd h
project_segment-Holds P s f k (arr vs) p x = elim (Bool-cases (str_eq s elements)) [
  | inl y ↦ rw (y) (
      project_array-Holds P f vs p x
        (subst (λ t. Leaves (behind t P) f) ((str_eq_iff s elements).0 y) k))
  | inr n ↦ rw (n) (λ h. absurd h)
]
project_segment-Holds P s f k (obj fs) p x = elim (Bool-cases (str_eq s elements)) [
  | inl y ↦ rw (y) (λ h. absurd h)
  | inr n ↦ rw (n) (project_child-Holds P s f fs p x k)
]

pub project-Holds : (P : Paths) (parts : List Bytes) → P parts → Leaves P (project parts)
unfolding project
project-Holds P [] h = λ v p x held. (held, Under-end P p h)
project-Holds P (s ∷ parts) h =
    project_segment-Holds P s (project parts) (project-Holds (behind s P) parts h)
