-- ===== src/Prelude/Space.antt =====
-- `strings.TrimSpace` on the bytes of UTF-8: Unicode's white space is six ASCII bytes, two
-- characters of two bytes and seventeen of three.
use Prim.Native.Nat.{ℕ, ◌≤◌}
use mathlib.Core.Path.{◌≡◌, refl, ap}
use mathlib.Core.Bool.{Bool, true, false, ◌&&◌, ◌||◌}
use mathlib.Core.Logic.{◌⊎◌, inl, inr}
use mathlib.Core.List.{[], ◌∷◌, ◌++◌}
use native.Mathlib.Omega.{arith}
use external_gateway.Prelude.Tests.{◌==◌, leb, Bool-cases}
use external_gateway.Prelude.Lists.{All}
use external_gateway.Prelude.Text.{Bytes}

-- Tab to carriage return, and the space.
unfoldable pub space_byte : ℕ → Bool
space_byte a = leb 9 a && leb a 13 || a == 32

-- U+0085 and U+00A0.
unfoldable pub space_pair : ℕ → ℕ → Bool
space_pair a b = a == 0xc2 && (b == 0x85 || b == 0xa0)

-- U+1680, U+2000 to U+200A, U+2028, U+2029, U+202F, U+205F and U+3000.
unfoldable pub space_triple : ℕ → ℕ → ℕ → Bool
space_triple a b c =
    a == 0xe1 && b == 0x9a && c == 0x80
    || a == 0xe2 && b == 0x80 && (leb 0x80 c && leb c 0x8a || c == 0xa8 || c == 0xa9 || c == 0xaf)
    || a == 0xe2 && b == 0x81 && c == 0x9f
    || a == 0xe3 && b == 0x80 && c == 0x80

-- The text is white space from here to its end.
unfoldable pub all_space : Bytes → Bool
all_space [] = true
all_space (a ∷ []) = space_byte a
all_space (a ∷ b ∷ []) = space_byte a && space_byte b || space_pair a b
all_space (a ∷ b ∷ c ∷ s) = elim (space_byte a) [
  | true ↦ all_space (b ∷ c ∷ s)
  | false ↦ elim (space_pair a b) [
    | true ↦ all_space (c ∷ s)
    | false ↦ elim (space_triple a b c) [ true ↦ all_space s | false ↦ false ]
  ]
]

unfoldable pub trim_left : Bytes → Bytes
trim_left [] = []
trim_left (a ∷ []) = elim (space_byte a) [ true ↦ [] | false ↦ a ∷ [] ]
trim_left (a ∷ b ∷ []) = elim (space_byte a) [
  | true ↦ trim_left (b ∷ [])
  | false ↦ elim (space_pair a b) [ true ↦ [] | false ↦ a ∷ b ∷ [] ]
]
trim_left (a ∷ b ∷ c ∷ s) = elim (space_byte a) [
  | true ↦ trim_left (b ∷ c ∷ s)
  | false ↦ elim (space_pair a b) [
    | true ↦ trim_left (c ∷ s)
    | false ↦ elim (space_triple a b c) [ true ↦ trim_left s | false ↦ a ∷ b ∷ c ∷ s ]
  ]
]

unfoldable pub trim_right : Bytes → Bytes
trim_right [] = []
trim_right (a ∷ s) = elim (all_space (a ∷ s)) [ true ↦ [] | false ↦ a ∷ trim_right s ]

-- `strings.TrimSpace(s)`
unfoldable pub trim_space : Bytes → Bytes
unfolding trim_left trim_right all_space space_byte space_pair space_triple
trim_space s = trim_right (trim_left s)

-- A byte that can stand in the encoding of a white-space character.
abbrev pub IsSpacing : ℕ → Type 0
IsSpacing a = (a ≤ 32) ⊎ (128 ≤ a)

byte-IsSpacing : (a : ℕ) → space_byte a ≡ true → IsSpacing a
unfolding space_byte
byte-IsSpacing a h = ground arith

pair-IsSpacing : (a b : ℕ) → space_pair a b ≡ true → IsSpacing a × IsSpacing b
unfolding space_pair
pair-IsSpacing a b h = ground arith

triple-IsSpacing : (a b c : ℕ) → space_triple a b c ≡ true → IsSpacing a × IsSpacing b × IsSpacing c
unfolding space_triple
triple-IsSpacing a b c h = ground arith

pub all_space-IsSpacing : (s : Bytes) → all_space s ≡ true → All IsSpacing s
unfolding all_space
all_space-IsSpacing [] h = tt
all_space-IsSpacing (a ∷ []) h = (byte-IsSpacing a h, tt)
all_space-IsSpacing (a ∷ b ∷ []) h =
    ground (arith, byte-IsSpacing a, byte-IsSpacing b, pair-IsSpacing a b)
all_space-IsSpacing (a ∷ b ∷ c ∷ s) h = elim (Bool-cases (space_byte a)) [
  | inl e ↦ (byte-IsSpacing a e, all_space-IsSpacing (b ∷ c ∷ s) (rw (e, all_space) at h))
  | inr e ↦ elim (Bool-cases (space_pair a b)) [
    | inl e' ↦
        let (pa, pb) = pair-IsSpacing a b e' in
        (pa, (pb, all_space-IsSpacing (c ∷ s) (ground arith)))
    | inr e' ↦ elim (Bool-cases (space_triple a b c)) [
      | inl e'' ↦
          let (pa, pb, pc) = triple-IsSpacing a b c e'' in
          (pa, (pb, (pc, all_space-IsSpacing s (ground arith))))
      | inr e'' ↦ absurd (ground arith)
    ]
  ]
]

-- What `trim_left` drops, and what it keeps.
abbrev pub DropsLeft : Bytes → Bytes → Type 0
DropsLeft s t = (p : Bytes) × (s ≡ p ++ t) × All IsSpacing p

DropsLeft-cons : {s t : Bytes} (a : ℕ) → IsSpacing a → DropsLeft s t → DropsLeft (a ∷ s) t
DropsLeft-cons a h (p, e, d) = (a ∷ p, ap (λ s. a ∷ s) e, (h, d))

DropsLeft-refl : (s : Bytes) → DropsLeft s s
DropsLeft-refl s = ([], refl, tt)

pub trim_left-DropsLeft : (s : Bytes) → DropsLeft s (trim_left s)
unfolding trim_left
trim_left-DropsLeft [] = DropsLeft-refl []
trim_left-DropsLeft (a ∷ []) = elim (Bool-cases (space_byte a)) [
  | inl e ↦ rw (e, trim_left) (DropsLeft-cons a (byte-IsSpacing a e) (DropsLeft-refl []))
  | inr e ↦ rw (e, trim_left) (DropsLeft-refl (a ∷ []))
]
trim_left-DropsLeft (a ∷ b ∷ []) = elim (Bool-cases (space_byte a)) [
  | inl e ↦ rw (e, trim_left) (DropsLeft-cons a (byte-IsSpacing a e) (trim_left-DropsLeft (b ∷ [])))
  | inr e ↦ elim (Bool-cases (space_pair a b)) [
    | inl e' ↦
        let (pa, pb) = pair-IsSpacing a b e' in
        rw (e, e', trim_left) (DropsLeft-cons a pa (DropsLeft-cons b pb (DropsLeft-refl [])))
    | inr e' ↦ rw (e, e', trim_left) (DropsLeft-refl (a ∷ b ∷ []))
  ]
]
trim_left-DropsLeft (a ∷ b ∷ c ∷ s) = elim (Bool-cases (space_byte a)) [
  | inl e ↦
      rw (e, trim_left) (DropsLeft-cons a (byte-IsSpacing a e) (trim_left-DropsLeft (b ∷ c ∷ s)))
  | inr e ↦ elim (Bool-cases (space_pair a b)) [
    | inl e' ↦
        let (pa, pb) = pair-IsSpacing a b e' in
        rw (e, e', trim_left)
          (DropsLeft-cons a pa (DropsLeft-cons b pb (trim_left-DropsLeft (c ∷ s))))
    | inr e' ↦ elim (Bool-cases (space_triple a b c)) [
      | inl e'' ↦
          let (pa, pb, pc) = triple-IsSpacing a b c e'' in
          rw (e, e', e'', trim_left)
            (DropsLeft-cons a pa
              (DropsLeft-cons b pb (DropsLeft-cons c pc (trim_left-DropsLeft s))))
      | inr e'' ↦ rw (e, e', e'', trim_left) (DropsLeft-refl (a ∷ b ∷ c ∷ s))
    ]
  ]
]

abbrev pub DropsRight : Bytes → Bytes → Type 0
DropsRight s t = (w : Bytes) × (s ≡ t ++ w) × All IsSpacing w

pub trim_right-DropsRight : (s : Bytes) → DropsRight s (trim_right s)
unfolding trim_right
trim_right-DropsRight [] = ([], refl, tt)
trim_right-DropsRight (a ∷ s) = elim (Bool-cases (all_space (a ∷ s))) [
  | inl e ↦ rw (e, trim_right) (a ∷ s, refl, all_space-IsSpacing (a ∷ s) e)
  | inr e ↦
      let (w, same, h) = trim_right-DropsRight s in rw (e, trim_right) (w, ap (λ s. a ∷ s) same, h)
]
