-- ===== src/Pipeline.antt =====
-- backend/src/codefixer/orchestration/pipeline.py, and what factory.py and scheduler.py wrap around
-- it: one run from its claim to its end.
pub mod Session
pub mod Adapters
pub mod Stages
pub mod Run
pub mod Body
pub mod Rules
pub mod Safe
pub mod Ends
pub mod Calm
pub mod StagesKept
pub mod RunKept
pub mod Settles
pub mod Returns
pub mod Claims
pub mod Runs
pub mod Execute
pub mod Executed
pub mod Idle
mod Tests
