-- ===== src/Policy/Jql/Scanning.antt =====
-- The loop of `splitJQLOrderBy` against the grammar of `Policy.Jql.Nesting`.
use external_gateway.Prelude.{
  ℕ, suc, ◌+◌, ◌-◌, ◌<◌, ◌≤◌, ◌≡◌, ◌≢◌, ◌⊎◌, inl, inr, refl, sym, ◌∙◌, subst, Bool, true, false,
  Bytes, [], ◌∷◌, Option, none, some, ok, bind-eq-ok, arith, take, Bool-cases, ◌==◌,
}
use external_gateway.Policy.Jql.{Scan, step, unquoted, starts_order, scan, start}
use external_gateway.Policy.Jql.Nesting.{Closes, IsQuote, IsPlain}

-- What is left closes everything that the loop's variables say is open. A skipped byte comes first.
abbrev pub Rest : Bool → ℕ → ℕ → Bytes → Type 0
Rest false q n t = Closes q n t
Rest true q n [] = ⊥
Rest true q n (e ∷ t) = Closes q n t

abbrev pub RestOf : Scan → Bytes → Type 0
RestOf st t = Rest st.escaped st.quote st.depth t

-- The loop's variables are consistent.
pub record IsSound (st : Scan) : Type 0 where
  pub quote : (st.quote ≡ 0) ⊎ IsQuote st.quote
  pub escaped : st.escaped ≡ true → st.quote ≢ 0

step-IsSound :
    (prev : Option ℕ) (i : ℕ) (st : Scan) (c : ℕ) (s : Bytes) {st' : Scan}
    → step prev i st c s ≡ ok st'
    → IsSound st
    → IsSound st'
unfolding step unquoted
step-IsSound prev i st c s h v = ground arith

-- What one round does outside of quotes.
abbrev Effect : Scan → ℕ → Scan → Type 0
Effect st c st' =
    (IsQuote c × (st'.quote ≡ c) × (st'.depth ≡ st.depth))
    ⊎ ((c ≡ b'(') × (st'.quote ≡ st.quote) × (st'.depth ≡ st.depth + 1))
    ⊎ ((c ≡ b')') × (0 < st.depth) × (st'.quote ≡ st.quote) × (st'.depth ≡ st.depth - 1))
    ⊎ (IsPlain c × (st'.quote ≡ st.quote) × (st'.depth ≡ st.depth))

unquoted-Effect :
    (prev : Option ℕ) (i : ℕ) (st : Scan) (c : ℕ) (s : Bytes) {st' : Scan}
    → unquoted prev i st c s ≡ ok st'
    → Effect st c st'
unfolding unquoted
unquoted-Effect prev i st c s h = ground arith

Effect-Closes :
    (st st' : Scan) {c : ℕ} {t : Bytes}
    → st.quote ≡ 0
    → Effect st c st'
    → Closes st'.quote st'.depth t
    → Closes st.quote st.depth (c ∷ t)
Effect-Closes st st' z (inl (q, e, f)) c = Closes.quoted z q (rw (← e, ← f) c)
Effect-Closes st st' z (inr (inl (o, e, f))) c = Closes.opening z o (rw (← e, ← f) c)
Effect-Closes st st' z (inr (inr (inl (o, p, e, f)))) c = Closes.closing z o p (rw (← e, ← f) c)
Effect-Closes st st' z (inr (inr (inr (p, e, f)))) c = Closes.plain z p (rw (← e, ← f) c)

unquoted-escaped :
    (prev : Option ℕ) (i : ℕ) (st : Scan) (c : ℕ) (s : Bytes) {st' : Scan}
    → unquoted prev i st c s ≡ ok st'
    → st'.escaped ≡ st.escaped
unfolding unquoted
unquoted-escaped prev i st c s h = ground arith

Rest-eq :
    (t : Bytes) {b b' : Bool} {q q' n n' : ℕ}
    → b ≡ b'
    → q ≡ q'
    → n ≡ n'
    → Rest b q n t
    → Rest b' q' n' t
Rest-eq t {b' = b'} {q} {q' = q'} {n} e f g r =
    subst (λ n. Rest b' q' n t) g (subst (λ q. Rest b' q n t) f (subst (λ b. Rest b q n t) e r))

Rest-escape : {q n c : ℕ} (t : Bytes) → q ≢ 0 → c ≡ b'\\' → Rest true q n t → Closes q n (c ∷ t)
Rest-escape [] ne e r = elim r [ ]
Rest-escape (b ∷ t) ne e r = Closes.escape ne e r

-- What one round does in quotes, and to a byte that is skipped.
Fields : Scan → Bool → ℕ → ℕ → Type 0
Fields st b q n = (st.escaped ≡ b) × (st.quote ≡ q) × (st.depth ≡ n)

module _ (prev : Option ℕ) (i : ℕ) (st : Scan) (c : ℕ) (s : Bytes) {st' : Scan}
    (h : step prev i st c s ≡ ok st') where
  step-skip : st.escaped ≡ true → Fields st' false st.quote st.depth
  unfolding step Fields
  step-skip e = ground arith

  step-unquoted : st.escaped ≡ false → st.quote ≡ 0 → unquoted prev i st c s ≡ ok st'
  unfolding step
  step-unquoted e z = ground arith

  step-quoted :
      st.escaped ≡ false
      → st.quote ≢ 0
      → ((c ≡ b'\\') × Fields st' true st.quote st.depth)
        ⊎ ((c ≡ st.quote) × Fields st' false 0 st.depth)
        ⊎ ((c ≢ b'\\') × (c ≢ st.quote) × Fields st' false st.quote st.depth)
  unfolding step Fields
  step-quoted e z = ground arith

  step-Rest_quoted :
      (t : Bytes)
      → IsSound st
      → RestOf st' t
      → st.escaped ≡ false
      → st.quote ≢ 0
      → Closes st.quote st.depth (c ∷ t)
  unfolding Fields
  step-Rest_quoted t v r e z = elim (step-quoted e z) [
    | inl (b, (x, y, w)) ↦ Rest-escape t z b (Rest-eq t x y w r)
    | inr (inl (b, (x, y, w))) ↦ Closes.unquote (ground arith) b (Rest-eq t x y w r)
    | inr (inr (b, d, (x, y, w))) ↦ Closes.inside z b d (Rest-eq t x y w r)
  ]

  -- One round of the loop takes the byte `c` off the front of what is left.
  step-Rest : (t : Bytes) → IsSound st → RestOf st' t → RestOf st (c ∷ t)
  unfolding Fields
  step-Rest t v r = elim (Bool-cases st.escaped) [
    | inl e ↦ let (x, y, w) = step-skip e in Rest-eq (c ∷ t) (sym e) refl refl (Rest-eq t x y w r)
    | inr e ↦ elim (Bool-cases (st.quote == 0)) [
      | inl z ↦
          let out = step-unquoted e (ground arith) in
          let same = unquoted-escaped prev i st c s out in
          Rest-eq (c ∷ t) (sym e) refl refl (
            Effect-Closes st st' (ground arith) (unquoted-Effect prev i st c s out)
              (Rest-eq t (same ∙ e) refl refl r))
      | inr z ↦ Rest-eq (c ∷ t) (sym e) refl refl (step-Rest_quoted t v r e (ground arith))
    ]
  ]

-- At the end of the text nothing is open.
scan-Rest_end :
    (prev : Option ℕ) (i : ℕ) (st : Scan) (s : Bytes) {st' : Scan}
    → scan prev i st s ≡ ok st'
    → IsSound st
    → st'.quote ≡ 0
    → st'.depth ≡ 0
    → RestOf st s
unfolding scan
scan-Rest_end prev i st [] h v q d =
    let unescaped : st.escaped ≡ false = ground arith in
    Rest-eq [] (sym unescaped) refl refl (Closes.done (ground arith) (ground arith))
scan-Rest_end prev i st (c ∷ s) h v q d =
    let (mid, first, rest) = bind-eq-ok (step prev i st c s) (λ m. scan (some c) (i + 1) m s) h in
    step-Rest prev i st c s first s v
      (scan-Rest_end (some c) (i + 1) mid s rest (step-IsSound prev i st c s first v) q d)

step_order :
    (prev : Option ℕ) (i : ℕ) (st : Scan) (c : ℕ) (s : Bytes) {st' : Scan}
    → step prev i st c s ≡ ok st'
    → st.order_at ≡ none
    → (st'.order_at ≡ none)
      ⊎ ((st'.order_at ≡ some i) × (st.escaped ≡ false) × (st.quote ≡ 0) × (st.depth ≡ 0))
unfolding step unquoted starts_order
step_order prev i st c s h o = ground arith

step_order_kept :
    (prev : Option ℕ) (i : ℕ) (st : Scan) (c : ℕ) (s : Bytes) {st' : Scan} {j : ℕ}
    → step prev i st c s ≡ ok st'
    → st.order_at ≡ some j
    → st'.order_at ≡ some j
unfolding step unquoted starts_order
step_order_kept prev i st c s h o = ground arith

scan_order_kept :
    (prev : Option ℕ) (i : ℕ) (st : Scan) (s : Bytes) {st' : Scan} {j : ℕ}
    → scan prev i st s ≡ ok st'
    → st.order_at ≡ some j
    → st'.order_at ≡ some j
unfolding scan
scan_order_kept prev i st [] h o = ground arith
scan_order_kept prev i st (c ∷ s) h o =
    let (mid, first, rest) = bind-eq-ok (step prev i st c s) (λ m. scan (some c) (i + 1) m s) h in
    scan_order_kept (some c) (i + 1) mid s rest (step_order_kept prev i st c s first o)

-- At the start of the ORDER BY clause nothing is open either.
scan-Rest_order :
    (prev : Option ℕ) (i : ℕ) (st : Scan) (s : Bytes) {st' : Scan} (j : ℕ)
    → scan prev i st s ≡ ok st'
    → IsSound st
    → st.order_at ≡ none
    → st'.order_at ≡ some j
    → (i ≤ j) × RestOf st (take (j - i) s)
unfolding scan
scan-Rest_order prev i st [] j h v o e = absurd (ground arith)
scan-Rest_order prev i st (c ∷ s) {st'} j h v o e =
    let (mid, first, rest) = bind-eq-ok (step prev i st c s) (λ m. scan (some c) (i + 1) m s) h in
    elim (step_order prev i st c s first o) [
      | inl later ↦
          let (le, r) =
            scan-Rest_order (some c) (i + 1) mid s j rest (step-IsSound prev i st c s first v) later
              e in
          let one_more : j - i ≡ suc (j - (i + 1)) = omega arith in
          (omega arith, rw one_more (step-Rest prev i st c s first (take (j - (i + 1)) s) v r))
      | inr (now, x, q, d) ↦
          let same : some i ≡ some j = sym (scan_order_kept (some c) (i + 1) mid s rest now) ∙ e in
          let none_left : j - i ≡ 0 = ground arith in
          (ground arith, rw none_left (Rest-eq [] (sym x) refl refl (Closes.done q d)))
    ]

-- If the loop accepts the whole text, then the part before the ORDER BY clause, or all of it where
-- there is none, closes what it opens.
pub scan-Closes :
    (jql : Bytes) {st : Scan}
    → scan none 0 start jql ≡ ok st
    → st.quote ≡ 0
    → st.depth ≡ 0
    → ((st.order_at ≡ none) → Closes 0 0 jql)
      × ((j : ℕ) → st.order_at ≡ some j → Closes 0 0 (take j jql))
scan-Closes jql h q d = (
  λ _. scan-Rest_end none 0 start jql h begin q d,
  λ j e.
      subst (λ k. Closes 0 0 (take k jql)) (omega arith)
        (scan-Rest_order none 0 start jql j h begin refl e).1,
)
  where
    begin : IsSound start
    begin = record { quote = inl refl; escaped = λ e. cc }
