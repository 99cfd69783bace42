-- ===== src/IoUring.antt =====
-- crates/transports/io-uring: the receive driver over an io_uring.
pub mod Completion
pub mod Driver
pub mod RingMem
pub mod Requests
pub mod Poll
pub mod Cancel
mod Tests
mod CancelTests
