-- ===== src/Soupbintcp/Wire/RoundTrip.antt =====
-- A packet is read back whatever follows it, and is partial until its last byte is there.
use polaris_trade.Base.{
  ℕ, zero, suc, ◌+◌, ◌-◌, ◌/◌, ◌%◌, ◌^◌, ◌<◌, ◌≡◌, ◌≢◌, refl, none, some, List, [], ◌∷◌, ◌++◌,
  arith, length, length-append, take, drop, take-append, take-append_left, drop-append_left,
  length-drop, get_or, from_be, from_be-to_be, to_be, u16_max,
}
use polaris_trade.Base.Result.{ok}
use polaris_trade.Soupbintcp.Error.{
  PacketType, login_request_packet, login_accepted_packet, login_rejected_packet, sequenced_data,
  server_heartbeat, end_of_session_packet, debug, unsequenced_data, client_heartbeat,
  logout_request,
}
use polaris_trade.Soupbintcp.Wire.{packet_byte, packet_type, parse_packet}

-- A packet on the wire: its length in two bytes, its type, its payload.
abbrev pub encode_packet : PacketType → List ℕ → List ℕ
encode_packet t payload = to_be 2 (1 + length payload) ++ (packet_byte t ∷ payload)

packet_type-packet_byte : (t : PacketType) → packet_type (packet_byte t) ≡ ok t
unfolding packet_type
packet_type-packet_byte login_request_packet = refl
packet_type-packet_byte login_accepted_packet = refl
packet_type-packet_byte login_rejected_packet = refl
packet_type-packet_byte sequenced_data = refl
packet_type-packet_byte server_heartbeat = refl
packet_type-packet_byte end_of_session_packet = refl
packet_type-packet_byte debug = refl
packet_type-packet_byte unsequenced_data = refl
packet_type-packet_byte client_heartbeat = refl
packet_type-packet_byte logout_request = refl

get_or-append_left :
    (xs ys : List ℕ) (i : ℕ) → i < length xs → get_or (xs ++ ys) i 0 ≡ get_or xs i 0
get_or-append_left [] ys i h = absurd (omega arith)
get_or-append_left (x ∷ xs) ys zero h = refl
get_or-append_left (x ∷ xs) ys (suc i) h = get_or-append_left xs ys i (omega arith)

-- `parse_packet` reads back a packet with a payload of at most 65534 bytes, and says how long it is,
-- whatever bytes follow it.
pub parse_packet-encode_packet :
    (t : PacketType) (payload rest : List ℕ)
    → length payload < u16_max
    → parse_packet (encode_packet t payload ++ rest)
      ≡ ok (some (record { ty = t; payload = payload }, 3 + length payload))
unfolding parse_packet to_be
parse_packet-encode_packet t payload rest h = ground (
  arith,
  prefix,
  len,
  from_be-to_be 2 0 (1 + length payload),
  packet_type-packet_byte t,
  length-append payload rest,
  take-append payload rest,
)
  where
    hi : ℕ
    hi = (1 + length payload) / 256 ^ 1 % 256

    lo : ℕ
    lo = (1 + length payload) / 256 ^ 0 % 256

    prefix : encode_packet t payload ++ rest ≡ hi ∷ lo ∷ packet_byte t ∷ (payload ++ rest)
    prefix = refl

    len : to_be 2 (1 + length payload) ≡ hi ∷ lo ∷ []
    len = refl

-- An answer that `parse_packet` gives on received bytes, a packet or an error, is the answer that it
-- gives when more bytes have arrived behind them.
pub parse_packet-append :
    (buf more : List ℕ) → parse_packet buf ≢ ok none → parse_packet (buf ++ more) ≡ parse_packet buf
unfolding parse_packet
parse_packet-append buf more whole = ground (
  arith,
  length-append buf more,
  take-append_left 2 buf more,
  get_or-append_left buf more 2,
  drop-append_left 3 buf more,
  length-drop 3 buf,
  take-append_left (from_be 0 (take 2 buf) - 1) (drop 3 buf) more,
)
