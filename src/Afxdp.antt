-- ===== src/Afxdp.antt =====
-- crates/transports/afxdp: the receive driver, and the rings that it shares with the kernel.
pub mod Ring
pub mod Driver
pub mod Config
pub mod Open
pub mod System
pub mod Xsk
mod Tests
mod OpenTests
