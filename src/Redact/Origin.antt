-- ===== src/Redact/Origin.antt =====
-- Where the values of a shaped response stand in the response that internal/redact/hook.go shapes.
use external_gateway.Prelude.{
  ℕ, zero, suc, Bytes, List, [], ◌∷◌, Option, none, some, str_eq, str_eq_iff, ◌≡◌, ◌⊎◌, inl, inr,
  refl, subst, Bool-cases, Option-cases,
}
use external_gateway.Value.{
  Value, null, bool, num, str, arr, obj, Items, nil, cons, Fields, end, field,
}
use external_gateway.Redact.{
  split_path, find_field, set_field, project, merge_values, merge_items, deep_merge, merge_found,
  shape_each, shape,
}
use external_gateway.Redact.Allowed.{Paths, Listed}
use external_gateway.Redact.Places.{
  Place, in_field, in_item, here, Holds, ItemHolds, FieldHolds, Under, ResultHolds,
  find_field-Holds, project-Holds,
}

set_field-Holds :
    (j : Bytes) (v : Value) (fs : Fields) (k : Bytes) (p : Place) (x : Value)
    → FieldHolds (set_field j v fs) k p x
    → ((j ≡ k) × Holds v p x) ⊎ FieldHolds fs k p x
unfolding set_field
set_field-Holds j v end k p x = λ h. h
set_field-Holds j v (field i w fs) k p x = elim (Bool-cases (str_eq i j)) [
  | inl y ↦ rw (y) (λ h. elim h [
    | inl (e, held) ↦ inl (subst (λ t. t ≡ k) ((str_eq_iff i j).0 y) e, held)
    | inr rest ↦ inr (inr rest)
  ])
  | inr n ↦ rw (n) (λ h. elim h [
    | inl found ↦ inr (inl found)
    | inr rest ↦ elim (set_field-Holds j v fs k p x rest) [
      | inl new ↦ inl new
      | inr old ↦ inr (inr old)
    ]
  ])
]

-- A merge holds nothing that neither side holds at the same place.
mutual
  unfolding merge_values

  merge_values-Holds :
      (a b : Value) (p : Place) (x : Value)
      → Holds (merge_values a b) p x
      → Holds a p x ⊎ Holds b p x
  merge_values-Holds a null p x = λ h. inl h
  merge_values-Holds a (bool b) p x = λ h. inr h
  merge_values-Holds a (num n) p x = λ h. inr h
  merge_values-Holds a (str s) p x = λ h. inr h
  merge_values-Holds null (arr bs) p x = λ h. inr h
  merge_values-Holds (bool a) (arr bs) p x = λ h. inr h
  merge_values-Holds (num a) (arr bs) p x = λ h. inr h
  merge_values-Holds (str a) (arr bs) p x = λ h. inr h
  merge_values-Holds (obj fs) (arr bs) p x = λ h. inr h
  merge_values-Holds (arr as_) (arr bs) here x = λ h. absurd h
  merge_values-Holds (arr as_) (arr bs) (in_field k p) x = λ h. absurd h
  merge_values-Holds (arr as_) (arr bs) (in_item n p) x = merge_items-Holds as_ bs n p x
  merge_values-Holds null (obj gs) p x = λ h. inr h
  merge_values-Holds (bool a) (obj gs) p x = λ h. inr h
  merge_values-Holds (num a) (obj gs) p x = λ h. inr h
  merge_values-Holds (str a) (obj gs) p x = λ h. inr h
  merge_values-Holds (arr as_) (obj gs) p x = λ h. inr h
  merge_values-Holds (obj fs) (obj gs) here x = λ h. absurd h
  merge_values-Holds (obj fs) (obj gs) (in_item n p) x = λ h. absurd h
  merge_values-Holds (obj fs) (obj gs) (in_field k p) x = deep_merge-Holds fs gs k p x

  merge_items-Holds :
      (as_ bs : Items) (n : ℕ) (p : Place) (x : Value)
      → ItemHolds (merge_items as_ bs) n p x
      → ItemHolds as_ n p x ⊎ ItemHolds bs n p x
  merge_items-Holds as_ nil n p x = λ h. inl h
  merge_items-Holds nil (cons b bs) n p x = λ h. inr h
  merge_items-Holds (cons a as_) (cons b bs) zero p x = merge_values-Holds a b p x
  merge_items-Holds (cons a as_) (cons b bs) (suc n) p x = merge_items-Holds as_ bs n p x

  deep_merge-Holds :
      (dst src : Fields) (k : Bytes) (p : Place) (x : Value)
      → FieldHolds (deep_merge dst src) k p x
      → FieldHolds dst k p x ⊎ FieldHolds src k p x
  deep_merge-Holds dst end k p x = λ h. inl h
  deep_merge-Holds dst (field j v src) k p x = elim (Option-cases (find_field j dst)) [
    | inl n ↦ rw (n) (λ h. elim (deep_merge-Holds (set_field j v dst) src k p x h) [
      | inr rest ↦ inr (inr rest)
      | inl set ↦ elim (set_field-Holds j v dst k p x set) [
        | inl new ↦ inr (inl new)
        | inr old ↦ inl old
      ]
    ])
    | inr (w, s) ↦ rw (s) (λ h.
        elim (deep_merge-Holds (set_field j (merge_values w v) dst) src k p x h) [
          | inr rest ↦ inr (inr rest)
          | inl set ↦ elim (set_field-Holds j (merge_values w v) dst k p x set) [
            | inr old ↦ inl old
            | inl (e, held) ↦ elim (merge_values-Holds w v p x held) [
              | inl from_dst ↦
                  inl (subst (λ t. FieldHolds dst t p x) e (find_field-Holds j dst p x s from_dst))
              | inr from_src ↦ inr (inl (e, from_src))
            ]
          ]
        ])
  ]

merge_found-Holds :
    (result : Fields) (o : Option Value) (k : Bytes) (p : Place) (x : Value)
    → FieldHolds (merge_found result o) k p x
    → FieldHolds result k p x ⊎ ResultHolds o (in_field k p) x
unfolding merge_found
merge_found-Holds result none k p x = λ h. inl h
merge_found-Holds result (some null) k p x = λ h. inl h
merge_found-Holds result (some (bool b)) k p x = λ h. inl h
merge_found-Holds result (some (num b)) k p x = λ h. inl h
merge_found-Holds result (some (str b)) k p x = λ h. inl h
merge_found-Holds result (some (arr b)) k p x = λ h. inl h
merge_found-Holds result (some (obj fs)) k p x = deep_merge-Holds result fs k p x

shape_each-Holds :
    (P : Paths) (fields : List Bytes) (src result : Fields) (k : Bytes) (p : Place) (x : Value)
    → ((parts : List Bytes) → Listed fields parts → P parts)
    → FieldHolds (shape_each fields src result) k p x
    → FieldHolds result k p x ⊎ (FieldHolds src k p x × Under P (in_field k p))
unfolding shape_each
shape_each-Holds P [] src result k p x l h = inl h
shape_each-Holds P (f ∷ fields) src result k p x l h =
    let next = merge_found result (project (split_path f) (obj src)) in
    elim (shape_each-Holds P fields src next k p x (λ parts m. l parts (inr m)) h) [
      | inr found ↦ inr found
      | inl merged ↦
          elim (merge_found-Holds result (project (split_path f) (obj src)) k p x merged) [
            | inl old ↦ inl old
            | inr new ↦ inr (
                project-Holds P (split_path f) (l (split_path f) (inl refl)) (obj src)
                  (in_field k p) x new)
          ]
    ]

-- Whatever stands in the shaped object stands at the same place in the source, under a listed path.
abbrev pub ComesFrom : List Bytes → Fields → Fields → Type 0
ComesFrom fields src out =
    (k : Bytes) (p : Place) (x : Value)
    → FieldHolds out k p x
    → FieldHolds src k p x × Under (Listed fields) (in_field k p)

pub shape-ComesFrom :
    (fields : List Bytes) (src : Fields) → ComesFrom fields src (shape (some fields) src)
unfolding shape
shape-ComesFrom fields src k p x h =
    elim (shape_each-Holds (Listed fields) fields src end k p x (λ parts m. m) h) [
      | inl none_yet ↦ absurd none_yet
      | inr found ↦ found
    ]
