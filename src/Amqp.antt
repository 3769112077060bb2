-- ===== src/Amqp.antt =====
-- The reconnecting AMQP client (crates/reconnecting-amqp): the connection's state machine, the
-- handle through which it is driven, and the callbacks that feed it.
pub mod Types
pub mod Connection
pub mod Machine
pub mod Loop
pub mod Safety
pub mod Resources
pub mod Delivery
pub mod Start
pub mod Stopping
pub mod Steady
pub mod Handle
pub mod WaitStart
