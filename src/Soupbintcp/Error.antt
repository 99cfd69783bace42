-- ===== src/Soupbintcp/Error.antt =====
-- `SoupBinError` of crates/clients/soupbintcp/src/error.rs, and the packet types that it names.
use polaris_trade.Base.{ℕ, List}
use polaris_trade.Transport.Error.{TransportError}

pub data PacketType : Type 0 where
  login_request_packet login_accepted_packet login_rejected_packet : PacketType
  sequenced_data server_heartbeat end_of_session_packet debug : PacketType
  unsequenced_data client_heartbeat logout_request : PacketType

-- The texts of `ProtocolViolation`.
pub data Violation : Type 0 where
  zero_length_packet : Violation
  login_accepted_short login_rejected_empty : Violation
  non_ascii_field : Violation
  inflate_failed inflate_stalled : Violation
  bad_numeric_field : List ℕ → Violation
  unexpected_in_login unexpected_in_streaming : PacketType → Violation

pub data SoupBinError : Type 0 where
  transport : TransportError → SoupBinError
  login_timeout : ℕ → SoupBinError
  frame_too_large : ℕ → ℕ → SoupBinError
  protocol_violation : Violation → SoupBinError
  unknown_packet_type : ℕ → SoupBinError
  end_of_session : SoupBinError
