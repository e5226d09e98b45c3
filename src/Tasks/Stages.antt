-- ===== src/Tasks/Stages.antt =====
-- TaskStore: the stages of a run, the cursors of the providers and the queue.
use code_fixer.Base.{
  ℕ, ◌+◌, String, Bool, not, ◌&&◌, Option, none, some, List, [], ◌∷◌, ◌++◌, ltb, ◌==◌, text_eq,
  number_eq, if◌then◌else◌, any,
}
use code_fixer.Base.Table.{find, update}
use code_fixer.Base.Result.{Result, ok, err}
use code_fixer.Tasks.Table.{
  StageStatus, Failure, StageRun, Tasks, TaskError, integrity_error, is_run,
}

abbrev pub is_stage_of : String → String → StageRun → Bool
is_stage_of run_id stage_id x = x.task_run_id == run_id && x.stage_id == stage_id

abbrev pub is_attempt : String → String → ℕ → StageRun → Bool
is_attempt run_id stage_id attempt x = is_stage_of run_id stage_id x && x.attempt == attempt

-- The foreign key refuses a run that is not there, UNIQUE(task_run_id, stage_id, attempt) a second
-- row.
unfoldable pub start_stage :
    (run_id stage_id : String) (attempt : ℕ) → Tasks → Result TaskError ℕ × Tasks
start_stage run_id stage_id attempt s =
    if not (any (is_run run_id) s.runs)
    then (err integrity_error, s)
    else if any (is_attempt run_id stage_id attempt) s.stages
    then (err integrity_error, s)
    else (
      ok s.next_stage,
      record s {
        stages =
            s.stages
            ++ record {
              id = s.next_stage;
              task_run_id = run_id;
              stage_id = stage_id;
              attempt = attempt;
              status = StageStatus.running;
              output_path = none;
              failure = none;
              finished_at = none;
            }
              ∷ [];
        next_stage = s.next_stage + 1;
      },
    )

unfoldable pub finish_stage :
    (stage_run_id : ℕ) (status : StageStatus) (output_path : Option String)
    (failure : Option Failure) (now : ℕ)
    → Tasks
    → Tasks
finish_stage stage_run_id status output_path failure now s = record s {
  stages =
      update (λ x. x.id == stage_run_id)
        (λ x. record x {
          status = status;
          output_path = output_path;
          failure = failure;
          finished_at = some now;
        })
        s.stages;
}

-- COALESCE(MAX(attempt), 0)
abbrev pub max_attempt : String → String → List StageRun → ℕ
max_attempt run_id stage_id [] = 0
max_attempt run_id stage_id (x ∷ xs) =
    let rest = max_attempt run_id stage_id xs in
    if is_stage_of run_id stage_id x && ltb rest x.attempt then x.attempt else rest

unfoldable pub next_stage_attempt : (run_id stage_id : String) → Tasks → ℕ
next_stage_attempt run_id stage_id s = max_attempt run_id stage_id s.stages + 1

abbrev pub is_cursor : String → String × String → Bool
is_cursor provider_instance_id (id, value) = id == provider_instance_id

-- An empty cursor reads as none.
unfoldable pub get_cursor : String → Tasks → Option String
get_cursor provider_instance_id s = elim (find (is_cursor provider_instance_id) s.cursors) [
  | none ↦ none
  | some (id, value) ↦ if value == "" then none else some value
]

unfoldable pub set_cursor : String → Option String → Tasks → Tasks
set_cursor provider_instance_id none s = s
set_cursor provider_instance_id (some value) s =
    elim (find (is_cursor provider_instance_id) s.cursors) [
      | none ↦ record s { cursors = s.cursors ++ (provider_instance_id, value) ∷ [] }
      | some row ↦ record s {
        cursors = update (is_cursor provider_instance_id) (λ (id, old). (id, value)) s.cursors;
      }
    ]
