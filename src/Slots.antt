-- ===== src/Slots.antt =====
-- backend/src/codefixer/infrastructure/llm_slots.py: the durable FIFO store of LLM slots.
-- The two tables of migration 0005 are lists of rows in insertion order; a time is a number of
-- microseconds, whose order is that of the ISO stamps that the code compares.
pub mod Table
pub mod Store
pub mod Invariant
pub mod Releases
pub mod Numbers
pub mod Grants
pub mod Acquire
pub mod Reach
pub mod Fairness
pub mod Turns
pub mod Expiry
pub mod Answers
mod Tests
