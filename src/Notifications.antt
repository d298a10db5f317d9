-- ===== src/Notifications.antt =====
-- notifications/service.py: notices derived from cases and replies, kept in the ledger.
pub mod Rules
pub mod Emit
pub mod Reading
pub mod Laws
