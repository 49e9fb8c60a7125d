-- ===== src/Messaging.antt =====
-- modules/messaging: the events that the other parts announce, the bus and its observers, and the consumer.
mod Tests
pub mod Events
pub mod Bus
pub mod Contracts
pub mod Consumer
