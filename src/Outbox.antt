-- ===== src/Outbox.antt =====
-- apps/outbox-relay/src: the relay that publishes the payment service's outbox table.
pub mod Repository
pub mod Lifecycle
pub mod Recovery
pub mod Claims
pub mod Sizes
pub mod Drain
pub mod Publisher
pub mod Relay
pub mod Scheduler
pub mod Tests
