-- ===== src/Worklogs/Pages.antt =====
-- `tempoWorklogs` of internal/server/jira_worklog.go: every page of a listing.
use external_gateway.Prelude.{
  ℕ, zero, suc, ◌+◌, ◌-◌, min, ◌≤◌, ◌<◌, Bool, true, false, ◌||◌, Bytes, List, [], ◌∷◌, ◌++◌,
  Option, none, some, str_eq, str_eq_iff, Result, ok, err, if◌then◌else◌, ltb, ◌==◌, length, take,
  drop, ◌≡◌, ◌≢◌, ◌⊎◌, inl, inr, refl, sym, ap, ◌∙◌, arith, Bool-cases,
}
use external_gateway.Worklogs.{Worklog, WorklogError, upstream}

-- A page with the link to the next one, empty on the last.
pub record Page : Type 0 where
  pub next : Bytes
  pub results : List Worklog

-- `worklogTempoPage`
abbrev pub tempo_page : ℕ
tempo_page = 1000

abbrev is_last : Page → Bool
is_last page = length page.results == 0 || str_eq page.next []

-- The loop, on fuel, with what Tempo replies at an offset; `none` means that the fuel ran out.
unfoldable pub read_pages :
    ℕ → (ℕ → Result Bytes Page) → ℕ → List Worklog → Option (Result WorklogError (List Worklog))
unfolding str_eq
read_pages zero reply offset seen = none
read_pages (suc fuel) reply offset seen = elim (reply offset) [
  | err message ↦ some (err (upstream message))
  | ok page ↦
      let more = read_pages fuel reply (offset + length page.results) (seen ++ page.results) in
      if is_last page then some (ok (seen ++ page.results)) else more
]

unfoldable pub tempo_worklogs :
    ℕ → (ℕ → Result Bytes Page) → Option (Result WorklogError (List Worklog))
unfolding read_pages
tempo_worklogs fuel reply = read_pages fuel reply 0 []

-- A page of a list at an offset: at most so many of the rest, with a link where some are left.
abbrev pub page_of : Bytes → List Worklog → ℕ → Page
page_of link all offset = record {
  next = if ltb (offset + tempo_page) (length all) then link else [];
  results = take tempo_page (drop offset all);
}

length-take : (n : ℕ) (xs : List Worklog) → length (take n xs) ≡ min n (length xs)
length-take zero xs = omega arith
length-take (suc n) [] = omega arith
length-take (suc n) (x ∷ xs) = omega (arith, length-take n xs)

length-drop : (n : ℕ) (xs : List Worklog) → length (drop n xs) ≡ length xs - n
length-drop zero xs = omega arith
length-drop (suc n) [] = omega arith
length-drop (suc n) (x ∷ xs) = omega (arith, length-drop n xs)

take_all : (n : ℕ) (xs : List Worklog) → length xs ≤ n → take n xs ≡ xs
take_all zero [] h = refl
take_all zero (x ∷ xs) h = absurd (omega arith)
take_all (suc n) [] h = refl
take_all (suc n) (x ∷ xs) h = ap (λ t. x ∷ t) (take_all n xs (omega arith))

take_add : (m n : ℕ) (xs : List Worklog) → take (m + n) xs ≡ take m xs ++ take n (drop m xs)
take_add zero n xs = let e : 0 + n ≡ n = omega arith in rw (e) refl
take_add (suc m) zero [] = let e : suc m + 0 ≡ suc m = omega arith in rw (e) refl
take_add (suc m) (suc n) [] = let e : suc m + suc n ≡ suc (m + suc n) = omega arith in rw (e) refl
take_add (suc m) n (x ∷ xs) =
    let e : suc m + n ≡ suc (m + n) = omega arith in rw (e) (ap (λ t. x ∷ t) (take_add m n xs))

below : (a b : ℕ) → a < b → ltb a b ≡ true
below a b h = ground arith

not_below : (a b : ℕ) → b ≤ a → ltb a b ≡ false
not_below a b h = ground arith

below_or_not : (a b : ℕ) → (a < b) ⊎ (b ≤ a)
below_or_not a b = elim (Bool-cases (ltb a b)) [
  | inl e ↦ inl (ground arith)
  | inr e ↦ inr (ground arith)
]

module _ (link : Bytes) (set : link ≢ []) (all : List Worklog) where
  abbrev replies : ℕ → Result Bytes Page
  replies offset = ok (page_of link all offset)

  full_page :
      (offset : ℕ)
      → offset + tempo_page < length all
      → (length (take tempo_page (drop offset all)) ≡ tempo_page)
        × (is_last (page_of link all offset) ≡ false)
  full_page offset h =
      let size : length (take tempo_page (drop offset all)) ≡ tempo_page =
        omega (arith, length-take tempo_page (drop offset all), length-drop offset all) in
      let left : ltb (offset + tempo_page) (length all) ≡ true =
        below (offset + tempo_page) (length all) h in
      let linked : str_eq link [] ≡ false = elim (Bool-cases (str_eq link [])) [
        | inl e ↦ absurd (set ((str_eq_iff link []).0 e))
        | inr e ↦ e
      ] in
      (size, rw (size, left, linked) refl)

  last_page :
      (offset : ℕ)
      → length all ≤ offset + tempo_page
      → (take offset all ++ take tempo_page (drop offset all) ≡ all)
        × (is_last (page_of link all offset) ≡ true)
  unfolding str_eq
  last_page offset h =
      let none_left : ltb (offset + tempo_page) (length all) ≡ false =
        not_below (offset + tempo_page) (length all) h in
      (
        sym (take_add offset tempo_page all) ∙ take_all (offset + tempo_page) all h,
        rw (none_left) (ground arith),
      )

  read_last :
      (fuel offset : ℕ)
      → length all ≤ offset + tempo_page
      → read_pages (suc fuel) replies offset (take offset all) ≡ some (ok all)
  unfolding read_pages
  read_last fuel offset e =
      let (whole, last) = last_page offset e in rw (last) (ap (λ xs. some (ok xs)) whole)

  read_pages-all :
      (fuel offset : ℕ)
      → length all ≤ offset + fuel
      → read_pages (suc fuel) replies offset (take offset all) ≡ some (ok all)
  unfolding read_pages
  read_pages-all zero offset hi = read_last zero offset (omega arith)
  read_pages-all (suc fuel) offset hi = elim (below_or_not (offset + tempo_page) (length all)) [
    | inr e ↦ read_last (suc fuel) offset e
    | inl e ↦
        let (size, more) = full_page offset e in
        rw (more, size, sym (take_add offset tempo_page all))
          (read_pages-all fuel (offset + tempo_page) (omega arith))
  ]

  -- Where Tempo lists its worklogs by pages of at most a thousand from an offset on, with a link
  -- to the next page exactly while some are left, the loop of `tempoWorklogs` ends and gives all
  -- of them, in order; as many rounds as there are worklogs, and one more, are enough.
  pub tempo_worklogs-all : tempo_worklogs (suc (length all)) replies ≡ some (ok all)
  unfolding tempo_worklogs
  tempo_worklogs-all = read_pages-all (length all) 0 (omega arith)
