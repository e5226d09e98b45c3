-- ===== src/Tasks.antt =====
-- backend/src/codefixer/infrastructure/task_store.py and orchestration/recovery.py: tickets, tasks,
-- their runs and stages, and the recovery after a restart.
pub mod Table
pub mod Store
pub mod Ingest
pub mod Stages
pub mod Attempts
pub mod Consistency
pub mod Moves
pub mod Busy
pub mod Creation
pub mod Restated
pub mod Cancel
pub mod Lifecycle
pub mod Restart
pub mod Intake
pub mod Tickets
pub mod Recovery
pub mod Restarted
pub mod Steps
pub mod Exclusion
mod Tests
