-- ===== src/Tasks/Table.antt =====
-- domain/tasks.py and the tables of migrations 0002 and 0003. The columns created_at and updated_at
-- of tickets, snapshots and tasks, which no decision reads, are left out.
use code_fixer.Base.{ℕ, String, Bool, true, false, Option, List, ◌==◌, text_eq}

pub data TaskStatus : Type 0 where
  awaiting_start queued running cancel_requested completed failed canceled : TaskStatus

pub data RunStatus : Type 0 where
  queued running superseded completed failed canceled : RunStatus

-- The failure record that is stored as JSON; the keys `side_effects` and `checks` are left out.
pub record Failure : Type 0 where
  pub code : String
  pub stage : String
  pub summary : String
  pub retryable : Bool

pub record TicketRecord : Type 0 where
  pub id : ℕ
  pub provider_instance_id : String
  pub external_ticket_id : String
  pub title : String
  pub eligible : Bool
  pub external_version : Option String
  pub current_snapshot_id : Option ℕ

pub record Snapshot : Type 0 where
  pub id : ℕ
  pub ticket_record_id : ℕ
  pub content_hash : String
  pub title : String
  pub payload_json : String
  pub external_version : Option String

pub record Task : Type 0 where
  pub id : String
  pub ticket_record_id : ℕ
  pub project_id : String
  pub status : TaskStatus
  pub result : Option String
  pub current_run_id : Option String
  pub failure : Option Failure

pub record TaskRun : Type 0 where
  pub id : String
  pub task_id : String
  pub status : RunStatus
  pub execution_mode : String
  pub ticket_snapshot_id : Option ℕ
  pub project_config_hash : Option String
  pub input_fingerprint : Option String
  pub created_at : ℕ
  pub started_at : Option ℕ
  pub finished_at : Option ℕ

pub data StageStatus : Type 0 where
  running completed failed canceled : StageStatus

pub record StageRun : Type 0 where
  pub id : ℕ
  pub task_run_id : String
  pub stage_id : String
  pub attempt : ℕ
  pub status : StageStatus
  pub output_path : Option String
  pub failure : Option Failure
  pub finished_at : Option ℕ

-- A row of task_events: its type, its task and the run of its payload.
pub record Event : Type 0 where
  pub event_type : String
  pub task_id : String
  pub run_id : Option String

pub record Tasks : Type 0 where
  pub tickets : List TicketRecord
  pub snapshots : List Snapshot
  pub tasks : List Task
  pub runs : List TaskRun
  pub stages : List StageRun
  pub events : List Event
  pub cursors : List (String × String)
  pub next_ticket : ℕ
  pub next_snapshot : ℕ
  pub next_stage : ℕ

pub data TaskError : Type 0 where
  not_found no_route cannot_start not_current not_failed cannot_cancel cannot_claim : TaskError
  no_snapshot integrity_error : TaskError

abbrev pub unbound_project_id : String
unbound_project_id = "__unbound__"

-- status IN ('queued','running'), as in the partial unique index on task_runs
abbrev pub is_active : RunStatus → Bool
is_active RunStatus.queued = true
is_active RunStatus.running = true
is_active RunStatus.superseded = false
is_active RunStatus.completed = false
is_active RunStatus.failed = false
is_active RunStatus.canceled = false

abbrev pub is_running : RunStatus → Bool
is_running RunStatus.running = true
is_running RunStatus.queued = false
is_running RunStatus.superseded = false
is_running RunStatus.completed = false
is_running RunStatus.failed = false
is_running RunStatus.canceled = false

abbrev pub is_waiting : RunStatus → Bool
is_waiting RunStatus.queued = true
is_waiting RunStatus.running = false
is_waiting RunStatus.superseded = false
is_waiting RunStatus.completed = false
is_waiting RunStatus.failed = false
is_waiting RunStatus.canceled = false

abbrev pub run_failed : RunStatus → Bool
run_failed RunStatus.failed = true
run_failed RunStatus.queued = false
run_failed RunStatus.running = false
run_failed RunStatus.superseded = false
run_failed RunStatus.completed = false
run_failed RunStatus.canceled = false

abbrev pub task_failed : TaskStatus → Bool
task_failed TaskStatus.failed = true
task_failed TaskStatus.awaiting_start = false
task_failed TaskStatus.queued = false
task_failed TaskStatus.running = false
task_failed TaskStatus.cancel_requested = false
task_failed TaskStatus.completed = false
task_failed TaskStatus.canceled = false

-- {"awaiting_start", "failed", "canceled"}
abbrev pub can_start : TaskStatus → Bool
can_start TaskStatus.awaiting_start = true
can_start TaskStatus.failed = true
can_start TaskStatus.canceled = true
can_start TaskStatus.queued = false
can_start TaskStatus.running = false
can_start TaskStatus.cancel_requested = false
can_start TaskStatus.completed = false

-- {"queued", "running", "cancel_requested"}
abbrev pub is_busy : TaskStatus → Bool
is_busy TaskStatus.queued = true
is_busy TaskStatus.running = true
is_busy TaskStatus.cancel_requested = true
is_busy TaskStatus.awaiting_start = false
is_busy TaskStatus.failed = false
is_busy TaskStatus.canceled = false
is_busy TaskStatus.completed = false

abbrev pub cancel_asked : TaskStatus → Bool
cancel_asked TaskStatus.cancel_requested = true
cancel_asked TaskStatus.queued = false
cancel_asked TaskStatus.running = false
cancel_asked TaskStatus.awaiting_start = false
cancel_asked TaskStatus.failed = false
cancel_asked TaskStatus.canceled = false
cancel_asked TaskStatus.completed = false

abbrev pub is_task : String → Task → Bool
is_task id t = t.id == id

abbrev pub is_run : String → TaskRun → Bool
is_run id r = r.id == id
