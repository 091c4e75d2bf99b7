-- ===== src/Messaging.antt =====
-- The consumers, the outbox publisher and the change buffer of apps/api/src/messaging.
pub mod Outbox
pub mod Campaign
pub mod Cascade
pub mod Buffer
pub mod Realtime
pub mod RabbitMq
