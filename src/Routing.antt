-- ===== src/Routing.antt =====
-- backend/src/codefixer/application/services/routing.py and ingestion.py: which project takes a
-- ticket, and what a batch of tickets leaves in the tables.
pub mod Value
pub mod Match
pub mod Route
pub mod Ingestion
pub mod Scans
pub mod Choice
pub mod Kinds
pub mod Recorded
pub mod Counts
mod Tests
