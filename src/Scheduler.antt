-- ===== src/Scheduler.antt =====
-- backend/src/codefixer/orchestration/scheduler.py: which providers are polled and which runs are
-- started at a tick, and when the health of a project is checked again.
pub mod Intervals
pub mod Ticks
pub mod Lowest
pub mod Capacity
pub mod Starts
pub mod Oldest
mod Tests
