-- ===== src/Cohorts.antt =====
-- backend/src/codefixer/infrastructure/baseline_cohorts.py: cohorts of runs that share one
-- source baseline. A time is a number of microseconds.
pub mod Table
pub mod Store
pub mod Calls
pub mod Baseline
mod Tests
