-- ===== src/Server/Suggest.antt =====
-- `editDistance` and `closestAllowedOps` of internal/server/server.go: the operations that the
-- answer to an unknown one suggests.
use external_gateway.Prelude.{
  ℕ, zero, suc, ◌+◌, ◌-◌, ◌/◌, min, max, Bool, true, false, not, ◌&&◌, ◌||◌, Bytes, List, [], ◌∷◌,
  ◌++◌, Option, none, some, Map, contains_string, str_eq, str_leb, is_some, length, take, map, ltb,
  leb, if◌then◌else◌, ◌==◌, codes, ◌≡◌, refl,
}
use external_gateway.Config.{Config, Agent, Grant, get_role}
use external_gateway.Policy.{Operation, get}
pub mod Distance
pub mod Candidates

-- The inner loop: the row's cells behind the first, from the row before and the cell to the left.
unfoldable pub fill : ℕ → Bytes → List ℕ → ℕ → List ℕ
fill c [] prev left = []
fill c (d ∷ b) [] left = []
fill c (d ∷ b) (p ∷ []) left = []
fill c (d ∷ b) (p ∷ q ∷ prev) left =
    let cell = min (min (q + 1) (left + 1)) (p + (if c == d then 0 else 1)) in
    cell ∷ fill c b (q ∷ prev) cell

-- `prev[j] = j`
unfoldable pub first_row : ℕ → Bytes → List ℕ
first_row j [] = j ∷ []
first_row j (d ∷ b) = j ∷ first_row (j + 1) b

-- The outer loop, from row `i`.
unfoldable pub rows : ℕ → Bytes → Bytes → List ℕ → List ℕ
unfolding fill
rows i [] b prev = prev
rows i (c ∷ a) b prev = rows (i + 1) a b (i ∷ fill c b prev i)

-- The last cell of a row.
unfoldable pub last_cell : List ℕ → ℕ
last_cell [] = 0
last_cell (x ∷ []) = x
last_cell (x ∷ y ∷ xs) = last_cell (y ∷ xs)

unfoldable pub edit_distance : Bytes → Bytes → ℕ
unfolding last_cell rows first_row
edit_distance a b = last_cell (rows 1 a b (first_row 0 b))

distances :
    (edit_distance (codes "kitten") (codes "sitting") ≡ 3) × (edit_distance [] (codes "ab") ≡ 2)
unfolding edit_distance
distances = (refl, refl)

pub record Scored : Type 0 where
  pub id : Bytes
  pub dist : ℕ
  pub diff : ℕ

-- `absInt(m - n)`
abbrev abs_diff : ℕ → ℕ → ℕ
abs_diff m n = (m - n) + (n - m)

abbrev pub half_longer : Bytes → Bytes → ℕ
half_longer op_id cand = max (length op_id) (length cand) / 2

-- The candidate with its scores, if it is registered and near enough.
unfoldable pub score : Map Operation → Bytes → Bytes → Option Scored
unfolding get edit_distance
score reg op_id cand =
    if not (is_some (get reg cand))
    then none
    else if ltb (half_longer op_id cand) (abs_diff (length cand) (length op_id))
    then none
    else if ltb (half_longer op_id cand) (edit_distance op_id cand)
    then none
    else some (record {
      id = cand;
      dist = edit_distance op_id cand;
      diff = abs_diff (length cand) (length op_id);
    })

-- `seen` and `found`
pub record Search : Type 0 where
  pub seen : List Bytes
  pub found : List Scored

abbrev with_score : List Scored → Option Scored → List Scored
with_score found none = found
with_score found (some s) = found ++ s ∷ []

unfoldable pub consider : Map Operation → Bytes → Bytes → Search → Search
unfolding score contains_string
consider reg op_id cand st =
    if contains_string st.seen cand
    then st
    else record { seen = cand ∷ st.seen; found = with_score st.found (score reg op_id cand) }

unfoldable pub consider_each : Map Operation → Bytes → List Bytes → Search → Search
unfolding consider
consider_each reg op_id [] st = st
consider_each reg op_id (cand ∷ cands) st =
    consider_each reg op_id cands (consider reg op_id cand st)

unfoldable pub consider_grant : Config → Map Operation → Bytes → Bytes → Grant → Search → Search
unfolding consider_each str_eq get_role
consider_grant c reg workspace op_id g st =
    if str_eq g.workspace workspace
    then elim (get_role c g.role) [
      | none ↦ st
      | some role ↦ consider_each reg op_id role.operations st
    ]
    else st

unfoldable pub consider_grants :
    Config → Map Operation → Bytes → Bytes → List Grant → Search → Search
unfolding consider_grant
consider_grants c reg workspace op_id [] st = st
consider_grants c reg workspace op_id (g ∷ grants) st =
    consider_grants c reg workspace op_id grants (consider_grant c reg workspace op_id g st)

-- The order of the suggestions; the ids are all different.
unfoldable pub ranks_before : Scored → Scored → Bool
unfolding str_leb
ranks_before a b =
    if not (a.dist == b.dist)
    then ltb a.dist b.dist
    else if not (a.diff == b.diff)
    then ltb a.diff b.diff
    else str_leb a.id b.id

unfoldable pub insert_scored : Scored → List Scored → List Scored
unfolding ranks_before
insert_scored s [] = s ∷ []
insert_scored s (t ∷ ts) = if ranks_before s t then s ∷ t ∷ ts else t ∷ insert_scored s ts

unfoldable pub sort_scored : List Scored → List Scored
unfolding insert_scored
sort_scored [] = []
sort_scored (s ∷ ss) = insert_scored s (sort_scored ss)

unfoldable pub closest_allowed_ops : Config → Map Operation → Agent → Bytes → Bytes → List Bytes
unfolding consider_grants sort_scored
closest_allowed_ops c reg agent workspace op_id =
    if ltb 128 (length op_id)
    then []
    else map (λ s. s.id)
        (take 3 (
          sort_scored
            (consider_grants c reg workspace op_id agent.grants
              (record { seen = []; found = [] })).found))
