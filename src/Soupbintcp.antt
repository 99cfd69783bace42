-- ===== src/Soupbintcp.antt =====
-- The SoupBinTCP client: crates/clients/soupbintcp/src.
pub mod Error
pub mod Wire
pub mod Ascii
pub mod Session
pub mod Compressed
pub mod Client
mod CompressedTests
mod Tests
