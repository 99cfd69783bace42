-- ===== src/Transport.antt =====
-- crates/transports/core: what the clients see of a transport.
pub mod Error
pub mod Batch
pub mod IndexPool
pub mod VecPool
pub mod Bypass
pub mod Decap
mod Tests
