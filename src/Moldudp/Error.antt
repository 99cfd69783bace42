-- ===== src/Moldudp/Error.antt =====
-- `MoldUdpError` of crates/clients/moldudp/src/error.rs.
use polaris_trade.Base.{ℕ, List}
use polaris_trade.Transport.Error.{TransportError}

pub data MoldUdpError : Type 0 where
  transport : TransportError → MoldUdpError
  session_mismatch : List ℕ → List ℕ → MoldUdpError
  gap_detected : MoldUdpError
  reassembly_buffer_full : ℕ → MoldUdpError
  packet_too_short packet_too_large : MoldUdpError
  pool_too_small : ℕ → ℕ → ℕ → MoldUdpError
  leg_count : ℕ → MoldUdpError
