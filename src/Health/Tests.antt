-- ===== src/Health/Tests.antt =====
-- The health of two projects, and the theorem at it.
use code_fixer.Base.{String, true, none, some, List, [], ◌∷◌, text_eq, map, ◌≡◌, refl}
use code_fixer.Base.Result.{ok}
use code_fixer.Health.{HealthRow, CheckResult, put, get, list, payload_of}
use code_fixer.Health.Answers.{get-put}

calls : Unit {0}
unfolding put get list
calls = tt

abbrev same : String → String
same s = s

abbrev result : String → CheckResult String
result id = record {
  project_id = some id;
  ready = true;
  status = some "ready";
  summary = none;
  checks = "[]";
}

abbrev rows : List HealthRow
rows = (put same same "t2" (result " q ") (put same same "t1" (result "p") []).1).1

-- A second result of a project replaces the first.
lists :
    (map (λ (id, h). id) (list same same (put same same "t3" (result "p") rows).1)
      ≡ ("p" ∷ "q" ∷ []))
    × (map (λ (id, h). h.checked_at) (list same same (put same same "t3" (result "p") rows).1)
        ≡ ("t3" ∷ "t2" ∷ []))
unfolding calls
lists = (refl, refl)

get-put_example :
    ((put same same "t3" (result "p ") rows).0 ≡ ok (payload_of same same "p" "t3" (result "p ")))
    × (get same same "p" (put same same "t3" (result "p ") rows).1
        ≡ some (payload_of same same "p" "t3" (result "p ")))
    × (get same same "q" (put same same "t3" (result "p ") rows).1 ≡ get same same "q" rows)
get-put_example = get-put same same "t3" "p" "q" (result "p ") rows refl refl refl refl
