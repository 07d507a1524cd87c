-- ===== src/Prelude/Sort.antt =====
-- `sort.Strings` and the sorting of a map's entries by key, as insertion sort on bytes.
use mathlib.Core.Path.{◌≡◌, refl}
use mathlib.Core.Bool.{Bool, true, false, ◌&&◌, ◌||◌}
use mathlib.Core.Logic.{◌↔◌}
use mathlib.Core.List.{List, [], ◌∷◌}
use native.Mathlib.Omega.{arith}
use external_gateway.Prelude.Tests.{◌==◌, ltb, if◌then◌else◌}
use external_gateway.Prelude.Lists.{All, length}
use external_gateway.Prelude.Text.{Bytes}
use external_gateway.Prelude.Maps.{Map}

-- `s <= t`, byte by byte.
unfoldable pub str_leb : Bytes → Bytes → Bool
str_leb [] t = true
str_leb (a ∷ s) [] = false
str_leb (a ∷ s) (b ∷ t) = ltb a b || (a == b && str_leb s t)

unfoldable pub insert_string : Bytes → List Bytes → List Bytes
unfolding str_leb
insert_string s [] = s ∷ []
insert_string s (t ∷ ts) = if str_leb s t then s ∷ t ∷ ts else t ∷ insert_string s ts

unfoldable pub sort_strings : List Bytes → List Bytes
unfolding insert_string
sort_strings [] = []
sort_strings (s ∷ ss) = insert_string s (sort_strings ss)

module _ {ℓ} {V : Type ℓ} where
  unfoldable pub insert_entry : Bytes × V → Map V → Map V
  unfolding str_leb
  insert_entry e [] = e ∷ []
  insert_entry e (d ∷ ds) = if str_leb e.0 d.0 then e ∷ d ∷ ds else d ∷ insert_entry e ds

  unfoldable pub sort_entries : Map V → Map V
  unfolding insert_entry
  sort_entries [] = []
  sort_entries (e ∷ es) = insert_entry e (sort_entries es)

module _ {ℓ κ} {V : Type ℓ} (P : Bytes × V → Type κ) where
  All-insert_entry : (e : Bytes × V) (m : Map V) → All P (insert_entry e m) ↔ (P e × All P m)
  unfolding insert_entry
  All-insert_entry e [] = ground arith
  All-insert_entry e (d ∷ ds) = ground (arith, All-insert_entry e ds)

  -- Sorting keeps what holds of all entries.
  pub All-sort_entries : (m : Map V) → All P (sort_entries m) ↔ All P m
  unfolding sort_entries
  All-sort_entries [] = ground arith
  All-sort_entries (e ∷ es) =
      ground (arith, All-insert_entry e (sort_entries es), All-sort_entries es)

length-insert_string : (s : Bytes) (ss : List Bytes) → length (insert_string s ss) ≡ length (s ∷ ss)
unfolding insert_string
length-insert_string s [] = refl
length-insert_string s (t ∷ ts) = ground (arith, length-insert_string s ts)

pub length-sort_strings : (ss : List Bytes) → length (sort_strings ss) ≡ length ss
unfolding sort_strings
length-sort_strings [] = refl
length-sort_strings (s ∷ ss) =
    omega (arith, length-insert_string s (sort_strings ss), length-sort_strings ss)
