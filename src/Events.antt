-- ===== src/Events.antt =====
-- Events and their delivery to webhooks.
pub mod Tables
pub mod Outbox
