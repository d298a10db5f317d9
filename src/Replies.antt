-- ===== src/Replies.antt =====
-- channels/service.py and channels/whatsapp.py: replies to citizens, from the draft through the
-- review by a second person to their delivery over WhatsApp.
pub mod Distance
pub mod Delivery
pub mod Drafts
pub mod Linking
pub mod Approval
pub mod Operations
pub mod Metric
pub mod Sending
pub mod Review
pub mod MakerChecker
pub mod Departures
pub mod Once
pub mod Outcomes
pub mod Account
