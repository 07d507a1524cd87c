-- ===== src/Server/Suggest/Distance.antt =====
-- `editDistance` of internal/server/server.go against the recursion that defines the distance.
use external_gateway.Prelude.{
  ℕ, suc, ◌+◌, min, Bytes, List, [], ◌∷◌, length, if◌then◌else◌, ◌==◌, ◌≡◌, refl, sym, ◌∙◌, ap,
  subst, ◌≤◌, arith, Bool-cases, inl, inr, leb,
}
use external_gateway.Server.Suggest.{fill, first_row, rows, last_cell, edit_distance}

-- The Levenshtein distance by its recursion; the texts stand with their last bytes first.
pub lev : Bytes → Bytes → ℕ
lev [] b = length b
lev (c ∷ a) [] = suc (length a)
lev (c ∷ a) (d ∷ b) =
    min (min (lev a (d ∷ b) + 1) (lev (c ∷ a) b + 1)) (lev a b + (if c == d then 0 else 1))

-- A text reversed, before another one.
pub reverse_onto : Bytes → Bytes → Bytes
reverse_onto [] out = out
reverse_onto (c ∷ s) out = reverse_onto s (c ∷ out)

-- The row of the table for the bytes `a`, from the column of the bytes `b` on; both are reversed.
row_of : Bytes → Bytes → Bytes → List ℕ
row_of a b [] = lev a b ∷ []
row_of a b (d ∷ more) = lev a b ∷ row_of a (d ∷ b) more

fill-row_of :
    (c : ℕ) (a b more : Bytes)
    → lev (c ∷ a) b ∷ fill c more (row_of a b more) (lev (c ∷ a) b) ≡ row_of (c ∷ a) b more
unfolding fill row_of lev
fill-row_of c a b [] = refl
fill-row_of c a b (d ∷ []) = refl
fill-row_of c a b (d ∷ e ∷ more) = ap (λ r. lev (c ∷ a) b ∷ r) (fill-row_of c a (d ∷ b) (e ∷ more))

first_row-row_of : (b more : Bytes) → first_row (length b) more ≡ row_of [] b more
unfolding first_row row_of lev
first_row-row_of b [] = refl
first_row-row_of b (d ∷ more) =
    ap (λ r. length b ∷ r)
      (let e : length b + 1 ≡ suc (length b) = omega arith in
        rw (e) (first_row-row_of (d ∷ b) more))

lev-nil : (a : Bytes) → lev a [] ≡ length a
unfolding lev
lev-nil [] = refl
lev-nil (c ∷ a) = refl

rows-row_of :
    (i : ℕ) (done a b : Bytes)
    → i ≡ length done + 1
    → rows i a b (row_of done [] b) ≡ row_of (reverse_onto a done) [] b
unfolding rows reverse_onto
rows-row_of i done [] b e = refl
rows-row_of i done (c ∷ a) b e =
    let first : i ≡ lev (c ∷ done) [] = unfold lev in omega (arith, e) in
    let row : i ∷ fill c b (row_of done [] b) i ≡ row_of (c ∷ done) [] b =
      subst (λ k. k ∷ fill c b (row_of done [] b) k ≡ row_of (c ∷ done) [] b) (sym first)
        (fill-row_of c done [] b) in
    rw (row) (rows-row_of (i + 1) (c ∷ done) a b (omega (arith, e)))

last_cell-row_of : (a b more : Bytes) → last_cell (row_of a b more) ≡ lev a (reverse_onto more b)
unfolding last_cell row_of reverse_onto
last_cell-row_of a b [] = refl
last_cell-row_of a b (d ∷ []) = refl
last_cell-row_of a b (d ∷ e ∷ more) = last_cell-row_of a (d ∷ b) (e ∷ more)

-- The table computes the distance by its recursion, on the reversed texts.
edit_distance-lev : (a b : Bytes) → edit_distance a b ≡ lev (reverse_onto a []) (reverse_onto b [])
unfolding edit_distance
edit_distance-lev a b =
    ap (λ r. last_cell (rows 1 a b r)) (first_row-row_of [] b)
    ∙ ap last_cell (rows-row_of 1 [] a b refl)
    ∙ last_cell-row_of (reverse_onto a []) [] b

-- A way from one text to another by single bytes, from the last bytes on, with what it costs.
pub data Edits : Bytes → Bytes → ℕ → Type 0 where
  finish : Edits [] [] 0
  keep : {a b : Bytes} {n : ℕ} (c : ℕ) → Edits a b n → Edits (c ∷ a) (c ∷ b) n
  replace : {a b : Bytes} {n : ℕ} (c d : ℕ) → Edits a b n → Edits (c ∷ a) (d ∷ b) (suc n)
  remove : {a b : Bytes} {n : ℕ} (c : ℕ) → Edits a b n → Edits (c ∷ a) b (suc n)
  add : {a b : Bytes} {n : ℕ} (d : ℕ) → Edits a b n → Edits a (d ∷ b) (suc n)

lev-remove : (c : ℕ) (a b : Bytes) → lev (c ∷ a) b ≤ lev a b + 1
unfolding lev
lev-remove c a [] = rw (lev-nil a) (omega arith)
lev-remove c a (d ∷ b) = ground arith

lev-add : (d : ℕ) (a b : Bytes) → lev a (d ∷ b) ≤ lev a b + 1
unfolding lev
lev-add d [] b = omega arith
lev-add d (c ∷ a) b = ground arith

lev-both : (c d : ℕ) (a b : Bytes) → lev (c ∷ a) (d ∷ b) ≤ lev a b + (if c == d then 0 else 1)
unfolding lev
lev-both c d a b = ground arith

lev-le : {a b : Bytes} {n : ℕ} → Edits a b n → lev a b ≤ n
lev-le finish = unfold lev in omega arith
lev-le (keep {a} {b} c e) = ground (arith, lev-both c c a b, lev-le e)
lev-le (replace {a} {b} c d e) = ground (arith, lev-both c d a b, lev-le e)
lev-le (remove {a} {b} c e) = omega (arith, lev-remove c a b, lev-le e)
lev-le (add {a} {b} d e) = omega (arith, lev-add d a b, lev-le e)

min_case : (P : ℕ → Type 0) (x y : ℕ) → P x → P y → P (min x y)
min_case P x y p q = elim (Bool-cases (leb x y)) [
  | inl h ↦ let e : x ≡ min x y = ground arith in subst P e p
  | inr h ↦ let e : y ≡ min x y = ground arith in subst P e q
]

change :
    (c d : ℕ) {a b : Bytes} (n : ℕ)
    → Edits a b n
    → Edits (c ∷ a) (d ∷ b) (n + (if c == d then 0 else 1))
change c d {a} {b} n e = elim (Bool-cases (c == d)) [
  | inl h ↦
      let same : c ≡ d = ground arith in
      let cost : n ≡ n + 0 = omega arith in
      rw (h) (
        subst (λ k. Edits (c ∷ a) (k ∷ b) (n + 0)) same
          (subst (Edits (c ∷ a) (c ∷ b)) cost (keep c e)))
  | inr h ↦
      let cost : suc n ≡ n + 1 = omega arith in
      rw (h) (subst (Edits (c ∷ a) (d ∷ b)) cost (replace c d e))
]

removed : (c : ℕ) {a b : Bytes} (n : ℕ) → Edits a b n → Edits (c ∷ a) b (n + 1)
removed c {a} {b} n e =
    let cost : suc n ≡ n + 1 = omega arith in subst (Edits (c ∷ a) b) cost (remove c e)

added : (d : ℕ) {a b : Bytes} (n : ℕ) → Edits a b n → Edits a (d ∷ b) (n + 1)
added d {a} {b} n e =
    let cost : suc n ≡ n + 1 = omega arith in subst (Edits a (d ∷ b)) cost (add d e)

lev-Edits : (a b : Bytes) → Edits a b (lev a b)
unfolding lev
lev-Edits [] [] = finish
lev-Edits [] (d ∷ b) = add d (lev-Edits [] b)
lev-Edits (c ∷ []) [] = remove c finish
lev-Edits (c ∷ x ∷ a) [] = remove c (lev-Edits (x ∷ a) [])
lev-Edits (c ∷ a) (d ∷ b) =
    min_case (Edits (c ∷ a) (d ∷ b)) (min (lev a (d ∷ b) + 1) (lev (c ∷ a) b + 1))
      (lev a b + (if c == d then 0 else 1))
      (min_case (Edits (c ∷ a) (d ∷ b)) (lev a (d ∷ b) + 1) (lev (c ∷ a) b + 1)
        (removed c (lev a (d ∷ b)) (lev-Edits a (d ∷ b)))
        (added d (lev (c ∷ a) b) (lev-Edits (c ∷ a) b)))
      (change c d (lev a b) (lev-Edits a b))

-- The cost of some way from one text to the other, and of no way more.
pub record IsLeastCost (a b : Bytes) (n : ℕ) : Type 0 where
  pub attained : Edits a b n
  pub least : (m : ℕ) → Edits a b m → n ≤ m

-- `editDistance` of two texts is the least number of single-byte insertions, deletions and
-- replacements that lead from one to the other, counted over all ways from their last bytes on.
pub edit_distance-IsLeastCost :
    (a b : Bytes) → IsLeastCost (reverse_onto a []) (reverse_onto b []) (edit_distance a b)
edit_distance-IsLeastCost a b = rw (edit_distance-lev a b) (record {
  attained = lev-Edits (reverse_onto a []) (reverse_onto b []);
  least = λ m e. lev-le e;
})
