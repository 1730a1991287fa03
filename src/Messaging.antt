-- ===== src/Messaging.antt =====
-- messaging/: the client, the messages that a subscriber settles, and the NATS queue.
pub mod Values
pub mod Shared
pub mod SubMessage
pub mod Client
pub mod Nats
pub mod Tracing
pub mod Endpoint
pub mod Start
mod Toy
mod Tests
