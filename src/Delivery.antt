-- ===== src/Delivery.antt =====
-- backend/src/codefixer/application/services/delivery.py and stability.py, application/ports/
-- delivery.py and infrastructure/delivery_store.py: how the final actions of a run are executed,
-- summed up and recorded.
pub mod Coordinator
pub mod Outcomes
pub mod Store
pub mod Intents
pub mod Stability
mod Tests
