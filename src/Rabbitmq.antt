-- ===== src/Rabbitmq.antt =====
-- internal/platform/rabbitmq: the connection, its channels and queues, and the publisher.
pub mod Library
pub mod Connection
pub mod Publisher
