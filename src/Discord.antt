-- ===== src/Discord.antt =====
-- internal/discord: the delivery of queued messages to Discord webhooks.
pub mod Sender
pub mod Rows
pub mod Queue
pub mod Worker
pub mod Tests
