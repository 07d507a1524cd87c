-- ===== src/Policy/Jql/Nesting.antt =====
-- Quotes and parentheses of a JQL text, as a grammar, and the scan of `splitJQLOrderBy` against it.
use external_gateway.Prelude.{
  ℕ, ◌+◌, ◌-◌, ◌<◌, ◌≡◌, ◌≢◌, ◌⊎◌, refl, subst, Bytes, [], ◌∷◌, ◌++◌, arith, All, trim_space,
  trim_left, trim_right, IsSpacing, trim_left-DropsLeft, trim_right-DropsRight,
}

abbrev pub IsQuote : ℕ → Type 0
IsQuote c = (c ≡ b'"') ⊎ (c ≡ b'\'')

abbrev pub IsPlain : ℕ → Type 0
IsPlain c = (c ≢ b'"') × (c ≢ b'\'') × (c ≢ b'(') × (c ≢ b')')

-- `Closes q n s`: read inside the quote `q`, or outside of quotes if `q` is 0, with `n` parentheses
-- open, the text `s` closes the quote and all `n` parentheses, and none that was not open.
pub data Closes : ℕ → ℕ → Bytes → Type 0 where
  done : {q n : ℕ} → q ≡ 0 → n ≡ 0 → Closes q n []
  plain : {q n c : ℕ} {s : Bytes} → q ≡ 0 → IsPlain c → Closes q n s → Closes q n (c ∷ s)
  opening : {q n c : ℕ} {s : Bytes} → q ≡ 0 → c ≡ b'(' → Closes q (n + 1) s → Closes q n (c ∷ s)
  closing :
      {q n c : ℕ} {s : Bytes} → q ≡ 0 → c ≡ b')' → 0 < n → Closes q (n - 1) s → Closes q n (c ∷ s)
  quoted : {q n c : ℕ} {s : Bytes} → q ≡ 0 → IsQuote c → Closes c n s → Closes q n (c ∷ s)
  escape : {q n c e : ℕ} {s : Bytes} → q ≢ 0 → c ≡ b'\\' → Closes q n s → Closes q n (c ∷ e ∷ s)
  inside : {q n c : ℕ} {s : Bytes} → q ≢ 0 → c ≢ b'\\' → c ≢ q → Closes q n s → Closes q n (c ∷ s)
  unquote : {q n c : ℕ} {s : Bytes} → IsQuote q → c ≡ q → Closes 0 n s → Closes q n (c ∷ s)

-- The first byte of such a text, and the rest.
data Head (q n c : ℕ) (s : Bytes) : Type 0 where
  plain : q ≡ 0 → IsPlain c → Closes q n s → Head q n c s
  opening : q ≡ 0 → c ≡ b'(' → Closes q (n + 1) s → Head q n c s
  closing : q ≡ 0 → c ≡ b')' → 0 < n → Closes q (n - 1) s → Head q n c s
  quoted : q ≡ 0 → IsQuote c → Closes c n s → Head q n c s
  escape : (e : ℕ) (t : Bytes) → q ≢ 0 → c ≡ b'\\' → s ≡ e ∷ t → Closes q n t → Head q n c s
  inside : q ≢ 0 → c ≢ b'\\' → c ≢ q → Closes q n s → Head q n c s
  unquote : IsQuote q → c ≡ q → Closes 0 n s → Head q n c s

head : {q n c : ℕ} {s : Bytes} → Closes q n (c ∷ s) → Head q n c s
head (Closes.plain e p c) = Head.plain e p c
head (Closes.opening e p c) = Head.opening e p c
head (Closes.closing e p o c) = Head.closing e p o c
head (Closes.quoted e p c) = Head.quoted e p c
head (Closes.escape {e = b} {s = t} e p c) = Head.escape b t e p refl c
head (Closes.inside e p o c) = Head.inside e p o c
head (Closes.unquote e p c) = Head.unquote e p c

-- White space closes nothing.
Closes-spacing : {q n : ℕ} {w : Bytes} → Closes q n w → All IsSpacing w → (q ≡ 0) × (n ≡ 0)
Closes-spacing (Closes.done e f) h = (e, f)
Closes-spacing (Closes.plain e p c) (_, h) = Closes-spacing c h
Closes-spacing (Closes.opening e p c) (k, h) = absurd (omega arith)
Closes-spacing (Closes.closing e p o c) (k, h) = absurd (omega arith)
Closes-spacing (Closes.quoted e p c) (k, h) = absurd (omega arith)
Closes-spacing (Closes.escape e p c) (k, h) = absurd (omega arith)
Closes-spacing (Closes.inside e p o c) (k, h) = absurd (e (Closes-spacing c h).0)
Closes-spacing (Closes.unquote e p c) (k, h) = absurd (omega arith)

Closes-drop : (p : Bytes) {n : ℕ} {s : Bytes} → All IsSpacing p → Closes 0 n (p ++ s) → Closes 0 n s
Closes-drop [] h c = c
Closes-drop (a ∷ p) (k, h) c = elim (head c) [
  | Head.plain e _ c' ↦ Closes-drop p h c'
  | Head.opening _ e _ ↦ absurd (omega arith)
  | Head.closing _ e _ _ ↦ absurd (omega arith)
  | Head.quoted _ e _ ↦ absurd (omega arith)
  | Head.escape _ _ e _ _ _ ↦ absurd (e refl)
  | Head.inside e _ _ _ ↦ absurd (e refl)
  | Head.unquote e _ _ ↦ absurd (omega arith)
]

-- One byte in front of a text from whose end white space can be taken.
module _ (t w : Bytes) (shorter : (q n : ℕ) → Closes q n (t ++ w) → Closes q n t) where
  Closes-take_cons :
      {q n a : ℕ}
      → ((e : ℕ) (s : Bytes)
          → t ++ w ≡ e ∷ s
          → q ≢ 0
          → Closes q n s
          → (r : Bytes) × (t ≡ e ∷ r) × Closes q n r)
      → Head q n a (t ++ w)
      → Closes q n (a ∷ t)
  Closes-take_cons esc (Head.plain e p c) = Closes.plain e p (shorter _ _ c)
  Closes-take_cons esc (Head.opening e p c) = Closes.opening e p (shorter _ _ c)
  Closes-take_cons esc (Head.closing e p o c) = Closes.closing e p o (shorter _ _ c)
  Closes-take_cons esc (Head.quoted e p c) = Closes.quoted e p (shorter _ _ c)
  Closes-take_cons esc (Head.escape b s e p same c) =
      let (r, here, c') = esc b s same e c in rw here (Closes.escape e p c')
  Closes-take_cons esc (Head.inside e p o c) = Closes.inside e p o (shorter _ _ c)
  Closes-take_cons esc (Head.unquote e p c) = Closes.unquote e p (shorter _ _ c)

Closes-take : (t w : Bytes) (q n : ℕ) → All IsSpacing w → Closes q n (t ++ w) → Closes q n t
Closes-take [] w q n h c = let (e, f) = Closes-spacing c h in Closes.done e f
Closes-take (a ∷ []) w q n h c =
    Closes-take_cons [] w (λ q n. Closes-take [] w q n h) (escaped w h) (head c)
  where
    escaped :
        (w : Bytes)
        → All IsSpacing w
        → (e : ℕ) (s : Bytes) → [] ++ w ≡ e ∷ s
        → q ≢ 0
        → Closes q n s
        → (r : Bytes) × ([] ≡ e ∷ r) × Closes q n r
    escaped [] h e s same ne c = absurd (cc)
    escaped (b ∷ w) (_, h) e s same ne c =
        absurd (ne (Closes-spacing (subst (λ s. Closes q n s) (cc) c) h).0)
Closes-take (a ∷ b ∷ t) w q n h c =
    Closes-take_cons (b ∷ t) w (λ q n. Closes-take (b ∷ t) w q n h)
      (λ e s same ne c'. (t, cc, Closes-take t w q n h (subst (λ s. Closes q n s) (cc) c')))
      (head c)

-- A text that closes everything still does so without the white space around it.
pub Closes-trim_space : (s : Bytes) → Closes 0 0 s → Closes 0 0 (trim_space s)
unfolding trim_space
Closes-trim_space s c =
    let (p, left, hp) = trim_left-DropsLeft s in
    let (w, right, hw) = trim_right-DropsRight (trim_left s) in
    Closes-take (trim_right (trim_left s)) w 0 0 hw
      (subst (λ t. Closes 0 0 t) right (Closes-drop p hp (subst (λ t. Closes 0 0 t) left c)))
