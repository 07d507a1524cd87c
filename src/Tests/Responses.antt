-- ===== src/Tests/Responses.antt =====
-- Shaped responses, suggestions and the calendar at concrete inputs.
use external_gateway.Prelude.{
  ◌≤◌, true, Bytes, [], ◌∷◌, ◌++◌, some, codes, length, All, if◌then◌else◌, ◌≡◌, refl, arith, ◌+◌,
  ◌-◌, Some, is_some, ◌↔◌,
}
use external_gateway.Value.{
  Value, null, bool, num, str, arr, obj, Items, nil, cons, Fields, end, field,
}
use external_gateway.Redact.{split_path, shape}
use external_gateway.Redact.Allowed.{Listed}
use external_gateway.Redact.Response.{shape_response, IsShaped, shape_response-IsShaped}
use external_gateway.Server.Suggest.{edit_distance, closest_allowed_ops}
use external_gateway.Server.Suggest.Distance.{reverse_onto, IsLeastCost, edit_distance-IsLeastCost}
use external_gateway.Server.Suggest.Candidates.{IsSuggestible, closest_allowed_ops-IsSuggestible}
use external_gateway.Workcal.{date, weekday, easter, holiday_name, holidays_between, working_days}
use external_gateway.Workcal.Easter.{easter_bounds}
use external_gateway.Workcal.Holidays.{IsOn, holidays_between_iff}
use external_gateway.Workcal.Counting.{working_in, working_days_lem}
use external_gateway.Tests.Fixtures.{config, developer, runtime}

-- An issue with a secret, in an array.
abbrev issues : Value
issues = obj (
    field (codes "issues")
      (arr (
        cons
          (obj
            (field (codes "key") (str (codes "A-1")) (field (codes "token") (str (codes "x")) end)))
          nil))
      end)

abbrev keys_only : Fields
keys_only =
    field (codes "issues") (arr (cons (obj (field (codes "key") (str (codes "A-1")) end)) nil)) end

shaped :
    shape (some (codes "issues[].key" ∷ [])) (
      field
        (codes "issues")
        (arr (
          cons
            (obj (
              field
                (codes "key")
                (str (codes "A-1"))
                (field (codes "token") (str (codes "x")) end)))
            nil))
        end)
    ≡ keys_only
unfolding shape external_gateway.Redact.set_field
shaped = refl

-- An encoder of strings, objects and arrays, enough for these bodies.
mutual
  print : Value → Bytes
  print null = codes "null"
  print (bool b) = if b then codes "true" else codes "false"
  print (num n) = codes "0"
  print (str s) = b'"' ∷ s ++ b'"' ∷ []
  print (arr vs) = b'[' ∷ print_items vs ++ b']' ∷ []
  print (obj fs) = b'{' ∷ print_fields fs ++ b'}' ∷ []

  print_items : Items → Bytes
  print_items nil = []
  print_items (cons v vs) = print v ++ b',' ∷ print_items vs

  print_fields : Fields → Bytes
  print_fields end = []
  print_fields (field k v fs) = k ++ b':' ∷ print v ++ b',' ∷ print_fields fs

not_the_whole : ¬ (Listed (codes "issues[].key" ∷ []) [])
unfolding split_path
not_the_whole h = ground arith

shape_response-IsShaped_example :
    (w : Value) × IsShaped (codes "issues[].key" ∷ []) issues w
    × (some (print w)
        ≡ some (
            shape_response
              (λ b. some issues)
              (λ v. some (print v))
              200
              (print issues)
              (codes "issues[].key" ∷ [])))
shape_response-IsShaped_example =
    shape_response-IsShaped (λ b. some issues) (λ v. some (print v)) (λ v. (print v, refl)) 200
      (print issues) (codes "issues[].key") [] issues (omega arith) refl refl not_the_whole

edit_distance-IsLeastCost_example :
    IsLeastCost
      (reverse_onto (codes "jira.serch") [])
      (reverse_onto (codes "jira.search") [])
      (edit_distance (codes "jira.serch") (codes "jira.search"))
edit_distance-IsLeastCost_example =
    edit_distance-IsLeastCost (codes "jira.serch") (codes "jira.search")

suggested :
    closest_allowed_ops config runtime.reg developer (codes "acme") (codes "jira.serch")
    ≡ codes "jira.search" ∷ []
unfolding closest_allowed_ops
suggested = refl

closest_allowed_ops-IsSuggestible_example :
    All
      (IsSuggestible config runtime.reg developer (codes "acme") (codes "jira.serch"))
      (closest_allowed_ops config runtime.reg developer (codes "acme") (codes "jira.serch"))
    × (length (closest_allowed_ops config runtime.reg developer (codes "acme") (codes "jira.serch"))
        ≤ 3)
closest_allowed_ops-IsSuggestible_example =
    closest_allowed_ops-IsSuggestible config runtime.reg developer (codes "acme")
      (codes "jira.serch")

easter_bounds_example :
    (weekday (easter 2026) ≡ 0) × (date 2026 3 22 ≤ easter 2026) × (easter 2026 ≤ date 2026 4 25)
easter_bounds_example = easter_bounds 2026

-- Holy Saturday to the Monday after the end of the year.
holidays_between_iff_example :
    Some (IsOn (date 2026 12 26)) (holidays_between (date 2026 4 4) (date 2027 1 4)) ↔ (
      (date 2026 4 4 ≤ date 2026 12 26)
      × (date 2026 12 26 ≤ date 2027 1 4)
      × (is_some (holiday_name (date 2026 12 26)) ≡ true))
holidays_between_iff_example =
    holidays_between_iff (date 2026 4 4) (date 2027 1 4) (date 2026 12 26)
      (unfold date in omega arith)

-- From Monday, 14 April 2025, to Friday of the week after.
working_days_lem_example :
    working_days (date 2025 4 14) (date 2025 4 25)
    ≡ some (working_in (date 2025 4 25 + 1 - date 2025 4 14) (date 2025 4 14))
working_days_lem_example = working_days_lem (date 2025 4 14) (date 2025 4 25)
