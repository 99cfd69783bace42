-- ===== src/Soupbintcp/Wire.antt =====
-- The packet framing of crates/clients/soupbintcp/src/wire.rs, over lists of bytes.
pub mod RoundTrip
use polaris_trade.Base.{
  ℕ, ◌+◌, Option, none, some, List, [], ◌∷◌, ltb, ◌==◌, if◌then◌else◌, length, take, drop, get_or,
  ◌-◌, from_be, slice,
}
use polaris_trade.Base.Result.{Result, ok, err, ◌>>=◌}
use polaris_trade.Soupbintcp.Error.{
  PacketType, login_request_packet, login_accepted_packet, login_rejected_packet, sequenced_data,
  server_heartbeat, end_of_session_packet, debug, unsequenced_data, client_heartbeat,
  logout_request, SoupBinError, protocol_violation, zero_length_packet, unknown_packet_type,
}

-- `ty as u8`
abbrev pub packet_byte : PacketType → ℕ
packet_byte login_request_packet = 0x4c
packet_byte login_accepted_packet = 0x41
packet_byte login_rejected_packet = 0x4a
packet_byte sequenced_data = 0x53
packet_byte server_heartbeat = 0x48
packet_byte end_of_session_packet = 0x5a
packet_byte debug = 0x2b
packet_byte unsequenced_data = 0x55
packet_byte client_heartbeat = 0x52
packet_byte logout_request = 0x4f

-- `PacketType::try_from`
unfoldable pub packet_type : ℕ → Result SoupBinError PacketType
packet_type b =
    if b == 0x4c
    then ok login_request_packet
    else if b == 0x41
    then ok login_accepted_packet
    else if b == 0x4a
    then ok login_rejected_packet
    else if b == 0x53
    then ok sequenced_data
    else if b == 0x48
    then ok server_heartbeat
    else if b == 0x5a
    then ok end_of_session_packet
    else if b == 0x2b
    then ok debug
    else if b == 0x55
    then ok unsequenced_data
    else if b == 0x52
    then ok client_heartbeat
    else if b == 0x4f
    then ok logout_request
    else err (unknown_packet_type b)

pub record PacketFrame : Type 0 where
  pub ty : PacketType
  pub payload : List ℕ

-- `parse_packet`: a whole packet and the bytes it takes, or `none` while it is partial.
unfoldable pub parse_packet : List ℕ → Result SoupBinError (Option (PacketFrame × ℕ))
parse_packet buf =
    let len = from_be 0 (take 2 buf) in
    if ltb (length buf) 3
    then ok none
    else if ltb len 1
    then err (protocol_violation zero_length_packet)
    else if ltb (length buf) (2 + len)
    then ok none
    else packet_type (get_or buf 2 0) >>= λ t.
        ok (some (record { ty = t; payload = slice buf 3 (len - 1) }, 2 + len))
