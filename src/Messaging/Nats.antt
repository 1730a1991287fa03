-- ===== src/Messaging/Nats.antt =====
-- messaging/nats.go: the NATS queue, over the NATS client that `Server` describes.
pub mod Server
pub mod Streams
pub mod Open
pub mod Queue
pub mod Pull
