-- ===== src/Ingest.antt =====
-- ingest/service.py and the webhook of channels/routes.py: an inbound message is redacted, pseudonymised, measured and stored once.
pub mod Redaction
pub mod Simhash
pub mod SimhashLaws
pub mod Messages
pub mod MessageLaws
pub mod Webhook
pub mod Uncommitted
pub mod WebhookLaws
