-- ===== src/Messaging.antt =====
-- packages/common/src/messaging: the inbox, the consumer, and the serializer of event envelopes.
pub mod Json
pub mod Serializer
pub mod Inbox
pub mod Consumer
pub mod Topics
pub mod Producer
pub mod Replayer
pub mod Tests
