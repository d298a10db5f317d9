-- ===== src/Cases.antt =====
-- cases/service.py: the life of a case. The children hold the operations, then what is proved.
pub mod Status
pub mod Sla
pub mod Rows
pub mod Create
pub mod Edit
pub mod Workflow
pub mod Intake
pub mod Queries
pub mod Operations
pub mod Soundness
pub mod Lifecycle
pub mod Survival
pub mod RowUpdates
pub mod Persistence
pub mod Guarantees
pub mod Accountability
pub mod Moves
pub mod Deadlines
pub mod IntakeLaws
pub mod Collisions
pub mod Ledger
