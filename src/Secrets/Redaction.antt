-- ===== src/Secrets/Redaction.antt =====
-- A registered value does not survive `Redact`.
use external_gateway.Prelude.{
  ℕ, zero, suc, ◌-◌, true, false, Bytes, List, [], ◌∷◌, ◌++◌, has_prefix, contains, length, ◌≡◌,
  ◌≢◌, inl, inr, refl, sym, arith, All, Some, Bool-cases,
}
use external_gateway.Secrets.Taint.{replace_from, replace_all, placeholder, redact_values}

-- No byte of the text is the placeholder's.
abbrev pub StarFree : Bytes → Type 0
StarFree = All (λ c. c ≢ b'*')

-- Where a text without stars starts in the result, it starts in the source.
prefix-replace :
    (old s w : Bytes)
    → StarFree w
    → has_prefix (replace_from zero old placeholder s) w ≡ true
    → has_prefix s w ≡ true
unfolding replace_from has_prefix
prefix-replace old s [] f h = refl
prefix-replace old [] (a ∷ w) f h = cc
prefix-replace old (c ∷ s) (a ∷ w) (n, f) h = elim (Bool-cases (has_prefix (c ∷ s) old)) [
  | inl e ↦ absurd (ground arith)
  | inr e ↦ ground (arith, prefix-replace old s w f)
]

-- A text without stars does not start at a placeholder.
contains-placeholder :
    (s w : Bytes) → StarFree w → w ≢ [] → contains (placeholder ++ s) w ≡ contains s w
unfolding contains has_prefix
contains-placeholder s [] f ne = absurd (ne refl)
contains-placeholder s (a ∷ w) (n, f) ne = ground arith

-- A replacement does not bring in a text without stars.
pub contains-replace_from :
    (k : ℕ) (old s w : Bytes)
    → StarFree w
    → w ≢ []
    → contains (replace_from k old placeholder s) w ≡ true
    → contains s w ≡ true
unfolding replace_from contains
contains-replace_from k old [] w f ne h = h
contains-replace_from (suc k) old (c ∷ s) w f ne h =
    ground (arith, contains-replace_from k old s w f ne)
contains-replace_from zero old (c ∷ s) w f ne h = elim (Bool-cases (has_prefix (c ∷ s) old)) [
  | inl e ↦ ground (
    arith,
    contains-placeholder (replace_from (length old - 1) old placeholder s) w f ne,
    contains-replace_from (length old - 1) old s w f ne,
  )
  | inr e ↦ ground (arith, prefix-replace old (c ∷ s) w f, contains-replace_from zero old s w f ne)
]

-- A replacement leaves nothing of what it replaces.
pub replace_from-removes :
    (k : ℕ) (old s : Bytes)
    → StarFree old
    → old ≢ []
    → contains (replace_from k old placeholder s) old ≡ false
unfolding replace_from contains
replace_from-removes k [] [] f ne = absurd (ne refl)
replace_from-removes k (a ∷ old) [] f ne = refl
replace_from-removes (suc k) old (c ∷ s) f ne = replace_from-removes k old s f ne
replace_from-removes zero old (c ∷ s) f ne = elim (Bool-cases (has_prefix (c ∷ s) old)) [
  | inl e ↦ ground (
    arith,
    contains-placeholder (replace_from (length old - 1) old placeholder s) old f ne,
    replace_from-removes (length old - 1) old s f ne,
  )
  | inr e ↦ ground (arith, prefix-replace old (c ∷ s) old f, replace_from-removes zero old s f ne)
]

-- What a text does not contain, the redacted text does not contain.
redact_values-keeps :
    (values : List Bytes) (out w : Bytes)
    → StarFree w
    → w ≢ []
    → contains out w ≡ false
    → contains (redact_values values out) w ≡ false
unfolding redact_values replace_all
redact_values-keeps [] out w f ne h = h
redact_values-keeps ([] ∷ values) out w f ne h = redact_values-keeps values out w f ne h
redact_values-keeps ((c ∷ v) ∷ values) out w f ne h =
    redact_values-keeps values (replace_all out (c ∷ v) placeholder) w f ne
      (ground (arith, contains-replace_from zero (c ∷ v) out w f ne))

-- No value of the list that is nonempty and has no star is left in the result.
pub redact_values-removes :
    (values : List Bytes) (out w : Bytes)
    → StarFree w
    → w ≢ []
    → Some (λ v. v ≡ w) values
    → contains (redact_values values out) w ≡ false
unfolding redact_values replace_all
redact_values-removes [] out w f ne h = absurd h
redact_values-removes ([] ∷ values) out w f ne (inl e) = absurd (ne (sym e))
redact_values-removes ([] ∷ values) out w f ne (inr h) = redact_values-removes values out w f ne h
redact_values-removes ((c ∷ v) ∷ values) out w f ne (inr h) =
    redact_values-removes values (replace_all out (c ∷ v) placeholder) w f ne h
redact_values-removes ((c ∷ v) ∷ values) out w f ne (inl e) =
    redact_values-keeps values (replace_all out (c ∷ v) placeholder) w f ne
      (rw (e, replace_from-removes zero w out f ne))
