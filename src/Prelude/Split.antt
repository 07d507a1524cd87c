-- ===== src/Prelude/Split.antt =====
-- `strings.Split` at one byte, and the texts that a filter on bytes leaves.
use Prim.Native.Nat.{ℕ}
use mathlib.Core.Path.{◌≡◌, refl}
use mathlib.Core.Bool.{Bool, false}
use mathlib.Core.Logic.{inl, inr}
use mathlib.Core.List.{List, [], ◌∷◌, ◌++◌}
use external_gateway.Prelude.Tests.{◌==◌, if◌then◌else◌, Bool-cases}
use external_gateway.Prelude.Lists.{All}
use external_gateway.Prelude.Text.{Bytes}

unfoldable pub onto_first : ℕ → List Bytes → List Bytes
onto_first c [] = (c ∷ []) ∷ []
onto_first c (p ∷ ps) = (c ∷ p) ∷ ps

-- `strings.Split(s, sep)` for a separator of one byte.
unfoldable pub split : Bytes → ℕ → List Bytes
unfolding onto_first
split [] sep = [] ∷ []
split (c ∷ s) sep = let rest = split s sep in if c == sep then [] ∷ rest else onto_first c rest

-- The bytes of a text that pass a test, in order.
unfoldable pub keep : (ℕ → Bool) → Bytes → Bytes
keep p [] = []
keep p (c ∷ s) = if p c then c ∷ keep p s else keep p s

pub keep-append : (p : ℕ → Bool) (s t : Bytes) → keep p (s ++ t) ≡ keep p s ++ keep p t
unfolding keep
keep-append p [] t = refl
keep-append p (c ∷ s) t = elim (Bool-cases (p c)) [
  | inl e ↦ rw (e, keep-append p s t)
  | inr e ↦ rw (e, keep-append p s t)
]

pub keep_none : (p : ℕ → Bool) (s : Bytes) → All (λ c. p c ≡ false) s → keep p s ≡ []
unfolding keep
keep_none p [] h = refl
keep_none p (c ∷ s) (e, h) = rw (e, keep_none p s h)
