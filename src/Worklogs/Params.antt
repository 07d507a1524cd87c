-- ===== src/Worklogs/Params.antt =====
-- The parameters of the worklog operations of internal/server/jira_worklog.go.
use external_gateway.Prelude.{
  ℕ, zero, suc, ℤ, pos, negsuc, ◌+◌, ◌-◌, ◌*◌, ◌/◌, ◌%◌, ◌^◌, Bool, true, false, not, ◌&&◌, ◌||◌,
  Bytes, [], ◌∷◌, ◌++◌, Option, none, some, codes, str_eq, contains_string, lookup, Result, ok, err,
  ltb, leb, ◌==◌, if◌then◌else◌, length, ◌>>=◌, ◌≡◌, refl,
}
use external_gateway.Value.{
  Float64, exceeds, Value, null, bool, num, str, arr, obj, Params, string_or_empty,
}
use external_gateway.Config.{Workspace}
use external_gateway.Workcal.{Date, date, days_in_month}
use external_gateway.Worklogs.{
  WorklogError, key_shape, project_outside, hours_range, hours_short, date_shape, start_shape,
  activity_name_shape,
}

abbrev pub is_digit : ℕ → Bool
is_digit c = leb b'0' c && leb c b'9'

abbrev pub is_upper : ℕ → Bool
is_upper c = leb b'A' c && leb c b'Z'

abbrev is_lower : ℕ → Bool
is_lower c = leb b'a' c && leb c b'z'

abbrev pub all : (ℕ → Bool) → Bytes → Bool
all p [] = true
all p (c ∷ s) = p c && all p s

-- `^[1-9][0-9]*$`
unfoldable pub is_number : Bytes → Bool
is_number [] = false
is_number (c ∷ s) = leb b'1' c && leb c b'9' && all is_digit s

-- `[A-Z][A-Z0-9_]*`
unfoldable pub is_project : Bytes → Bool
is_project [] = false
is_project (c ∷ s) = is_upper c && all (λ d. is_upper d || is_digit d || d == b'_') s

-- What stands before and behind the first dash; a project has none.
unfoldable pub cut_dash : Bytes → Option (Bytes × Bytes)
cut_dash [] = none
cut_dash (c ∷ s) =
    let rest = cut_dash s in
    if c == b'-' then some ([], s) else elim rest [ none ↦ none | some (a, b) ↦ some (c ∷ a, b) ]

-- `jiraIssueKeyRe.FindStringSubmatch(key)`: the project of a well-formed key.
unfoldable pub key_project : Bytes → Option Bytes
unfolding cut_dash is_project is_number
key_project key = elim (cut_dash key) [
  | none ↦ none
  | some (project, number) ↦ if is_project project && is_number number then some project else none
]

unfoldable pub scoped_issue_key : Workspace → Bytes → Result WorklogError (Unit {0})
unfolding key_project contains_string
scoped_issue_key ws key = elim (key_project key) [
  | none ↦ err key_shape
  | some project ↦
      if ltb 0 (length ws.policy.jira_projects)
        && not (contains_string ws.policy.jira_projects project)
      then err (project_outside project)
      else ok tt
]

-- `worklogActivityRe`: `^[a-z0-9][a-z0-9-]{0,39}$`
unfoldable pub is_activity_name : Bytes → Bool
is_activity_name [] = false
is_activity_name (c ∷ s) =
    (is_lower c || is_digit c)
    && all (λ d. is_lower d || is_digit d || d == b'-') s
    && leb (length s) 39

-- `worklogStartRe`: `^([01][0-9]|2[0-3]):[0-5][0-9]$`
unfoldable pub is_start : Bytes → Bool
is_start [] = false
is_start (a ∷ []) = false
is_start (a ∷ b ∷ []) = false
is_start (a ∷ b ∷ c ∷ []) = false
is_start (a ∷ b ∷ c ∷ d ∷ []) = false
is_start (a ∷ b ∷ c ∷ d ∷ e ∷ []) =
    ((a == b'0' || a == b'1') && is_digit b || a == b'2' && leb b'0' b && leb b b'3')
    && c == b':'
    && leb b'0' d
    && leb d b'5'
    && is_digit e
is_start (a ∷ b ∷ c ∷ d ∷ e ∷ f ∷ s) = false

unfoldable pub tempo_start_time : Bytes → Result WorklogError Bytes
unfolding is_start
tempo_start_time hhmm = if is_start hhmm then ok (hhmm ++ codes ":00") else err start_shape

abbrev two : ℕ → ℕ → ℕ
two a b = (a - 48) * 10 + (b - 48)

abbrev valid_date : ℕ → ℕ → ℕ → Option Date
valid_date y m d =
    if leb 1 m && leb m 12 && leb 1 d && leb d (days_in_month y m) then some (date y m d) else none

-- `time.Parse("2006-01-02", s)`
unfoldable pub parse_date : Bytes → Option Date
unfolding date days_in_month
parse_date (a ∷ b ∷ c ∷ d ∷ s ∷ e ∷ f ∷ t ∷ g ∷ h ∷ []) =
    if all is_digit (a ∷ b ∷ c ∷ d ∷ e ∷ f ∷ g ∷ h ∷ []) && s == b'-' && t == b'-'
    then valid_date (two a b * 100 + two c d) (two e f) (two g h)
    else none
parse_date s = none

-- `s, _ := params[name].(string)`
unfoldable pub string_param : Params → Bytes → Bytes
unfolding lookup
string_param params name = string_or_empty (lookup name params)

-- The date and whether it was given; `today` is the reading of the clock.
unfoldable pub param_date : Date → Params → Bytes → Result WorklogError (Date × Bool)
unfolding string_param parse_date
param_date today params name =
    if str_eq (string_param params name) []
    then ok (today, false)
    else elim (parse_date (string_param params name)) [
      | none ↦ err (date_shape name)
      | some d ↦ ok (d, true)
    ]

-- The bits of a number beyond 53, of eight at most.
unfoldable pub excess : ℕ → ℕ → ℕ
excess zero m = 0
excess (suc k) m = let rest = excess k (m / 2) in if ltb m (2 ^ 53) then 0 else suc rest

-- The quotient by `2 ^ k`, rounded to the nearest, a tie to the even one.
unfoldable pub nearest_even : ℕ → ℕ → ℕ
nearest_even m k =
    let q = m / 2 ^ k in
    if ltb (2 * (m % 2 ^ k)) (2 ^ k)
    then q
    else if 2 * (m % 2 ^ k) == 2 ^ k
    then q + q % 2
    else q + 1

-- The product by 60 as a float64, over `2 ^ h.scale`.
unfoldable pub times_sixty : ℕ → ℕ
unfolding excess nearest_even
times_sixty mant = nearest_even (mant * 60) (excess 8 (mant * 60)) * 2 ^ excess 8 (mant * 60)

-- `int(math.Round(h * 60))` of a positive number
unfoldable pub round_minutes : Float64 → ℕ
unfolding times_sixty
round_minutes h = (2 * times_sixty h.mant + 2 ^ h.scale) / (2 * 2 ^ h.scale)

unfoldable pub minutes_param : Float64 → Result WorklogError ℕ
unfolding round_minutes exceeds
minutes_param h =
    if h.negative || h.mant == 0 || exceeds h 24
    then err hours_range
    else if ltb (round_minutes h) 1
    then err hours_short
    else ok (round_minutes h * 60)

-- The seconds that `hours` stands for; `none` where the parameter is not given.
unfoldable pub hours_value : Value → Result WorklogError ℕ
unfolding minutes_param
hours_value null = err hours_range
hours_value (bool b) = err hours_range
hours_value (num h) = minutes_param h
hours_value (str s) = err hours_range
hours_value (arr vs) = err hours_range
hours_value (obj fs) = err hours_range

unfoldable pub param_hours : Params → Result WorklogError (Option ℕ)
unfolding hours_value lookup
param_hours params = elim (lookup (codes "hours") params) [
  | none ↦ ok none
  | some v ↦ hours_value v >>= λ secs. ok (some secs)
]

unfoldable pub param_activity : Params → Result WorklogError Bytes
unfolding string_param is_activity_name
param_activity params =
    if is_activity_name (string_param params (codes "name"))
    then ok (string_param params (codes "name"))
    else err activity_name_shape

-- The number that decimal digits stand for.
unfoldable pub read_digits : ℕ → Bytes → ℕ
read_digits n [] = n
read_digits n (c ∷ s) = read_digits (n * 10 + (c - 48)) s

unfoldable pub signed : Bool → Bytes → Option ℤ
unfolding read_digits
signed minus [] = none
signed minus (c ∷ s) = if not (all is_digit (c ∷ s)) then none else elim (read_digits 0 (c ∷ s)) [
  | zero ↦ some (pos 0)
  | suc n ↦
      if minus
      then (if ltb n (2 ^ 63) then some (negsuc n) else none)
      else if ltb (suc n) (2 ^ 63)
      then some (pos (suc n))
      else none
]

-- `strconv.ParseInt(s, 10, 64)`
unfoldable pub parse_int : Bytes → Option ℤ
unfolding signed
parse_int [] = none
parse_int (c ∷ s) =
    if c == b'-' then signed true s else if c == b'+' then signed false s else signed false (c ∷ s)

half_hours :
    (minutes_param (record { negative = false; mant = 3; scale = 1 }) ≡ ok 5400)
    × (parse_date (codes "2024-02-30") ≡ none)
unfolding minutes_param parse_date
half_hours = (refl, refl)

keys : (key_project (codes "THP-12") ≡ some (codes "THP")) × (key_project (codes "THP-0") ≡ none)
unfolding key_project
keys = (refl, refl)
