-- ===== src/Slots/Table.antt =====
-- The rows of llm_slot_waiters and llm_slot_leases, the values that the store returns, and the
-- queries on the tables.
use code_fixer.Base.{
  ℕ, zero, suc, ◌+◌, ◌*◌, String, Bool, true, false, ◌||◌, Option, none, some, List, [], ◌∷◌, ◌++◌,
  leb, ◌==◌, number_eq, text_eq, if◌then◌else◌, elem, any,
}
use code_fixer.Base.Result.{Result, ok, err}

pub data WaiterState : Type 0 where
  queued granted released expired canceled : WaiterState

pub record Waiter : Type 0 where
  pub queue_position : ℕ
  pub request_id : String
  pub owner : String
  pub task_run_id : Option String
  pub stage_id : String
  pub state : WaiterState
  pub enqueued_at : ℕ
  pub heartbeat_at : ℕ
  pub expires_at : ℕ
  pub granted_at : Option ℕ
  pub finished_at : Option ℕ

pub record LeaseRow : Type 0 where
  pub slot_number : ℕ
  pub request_id : String
  pub owner : String
  pub task_run_id : Option String
  pub stage_id : String
  pub acquired_at : ℕ
  pub heartbeat_at : ℕ
  pub expires_at : ℕ
  pub row_version : ℕ

pub record LlmSlotLease : Type 0 where
  pub slot_number : ℕ
  pub request_id : String
  pub owner : String
  pub task_run_id : Option String
  pub stage_id : String
  pub acquired_at : ℕ
  pub expires_at : ℕ
  pub queue_position : ℕ
  pub enqueued_at : ℕ

pub record LlmSlotSnapshot : Type 0 where
  pub capacity : ℕ
  pub active : ℕ
  pub waiting : ℕ
  pub expired_reclaimed : ℕ

-- `next_position` is the counter of the AUTOINCREMENT key.
pub record Slots : Type 0 where
  pub waiters : List Waiter
  pub leases : List LeaseRow
  pub next_position : ℕ

-- One constructor for each place that raises.
pub data SlotError : Type 0 where
  bad_ttl bad_capacity owner_mismatch waiter_missing lease_lost : SlotError
  integrity_error assertion_error : SlotError

abbrev pub seconds : ℕ → ℕ
seconds n = n * 1_000_000

abbrev pub is_queued : WaiterState → Bool
is_queued queued = true
is_queued granted = false
is_queued released = false
is_queued expired = false
is_queued canceled = false

abbrev pub is_granted : WaiterState → Bool
is_granted granted = true
is_granted queued = false
is_granted released = false
is_granted expired = false
is_granted canceled = false

-- `_lease(waiter, row)`
unfoldable pub lease_of : Waiter → LeaseRow → LlmSlotLease
lease_of waiter row = record {
  slot_number = row.slot_number;
  request_id = row.request_id;
  owner = row.owner;
  task_run_id = row.task_run_id;
  stage_id = row.stage_id;
  acquired_at = row.acquired_at;
  expires_at = row.expires_at;
  queue_position = waiter.queue_position;
  enqueued_at = waiter.enqueued_at;
}

abbrev pub earlier : Waiter → Option Waiter → Option Waiter
earlier w none = some w
earlier w (some v) = if leb w.queue_position v.queue_position then some w else some v

-- SELECT ... WHERE state='queued' ORDER BY queue_position LIMIT 1
unfoldable pub first_queued : List Waiter → Option Waiter
first_queued [] = none
first_queued (w ∷ ws) =
    let rest = first_queued ws in if is_queued w.state then earlier w rest else rest

-- next(candidate for candidate in range(from, from + n) if candidate not in occupied)
unfoldable pub free_slot : ℕ → ℕ → List ℕ → Option ℕ
free_slot zero from occupied = none
free_slot (suc n) from occupied =
    if elem from occupied then free_slot n (from + 1) occupied else some from

-- INSERT INTO llm_slot_leases, with its PRIMARY KEY and UNIQUE constraints.
unfoldable pub insert_lease : LeaseRow → List LeaseRow → Result SlotError (List LeaseRow)
insert_lease row leases =
    if any (λ l. l.slot_number == row.slot_number || l.request_id == row.request_id) leases
    then err integrity_error
    else ok (leases ++ row ∷ [])
