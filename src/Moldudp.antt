-- ===== src/Moldudp.antt =====
-- crates/clients/moldudp: the MoldUDP64 client.
pub mod Error
pub mod Wire
pub mod Gap
pub mod Emitter
pub mod Ab
pub mod Reassembly
pub mod Receiver
pub mod Receive
pub mod Construct
mod Tests
mod ReceiverTests
