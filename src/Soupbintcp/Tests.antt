-- ===== src/Soupbintcp/Tests.antt =====
-- The SoupBinTCP session on concrete bytes.
use polaris_trade.Soupbintcp.Client.{poll, poll_stream, heartbeat_sent_event}
use polaris_trade.Soupbintcp.Client.States.{rank, poll-rank}
use polaris_trade.Soupbintcp.Client.Lifecycle.{poll_ends}
use polaris_trade.Base.{
  none, zero, suc, ◌<◌, ◌≢◌, ℕ, ◌≡◌, ◌⊎◌, refl, ap, false, some, List, [], ◌∷◌, ◌++◌, arith, length,
  take, replicate, length-take, ◌≤◌, to_be,
}
use polaris_trade.Base.Result.{Result, ok}
use polaris_trade.Transport.Error.{TransportError}
use polaris_trade.Soupbintcp.Error.{sequenced_data}
use polaris_trade.Soupbintcp.Wire.{parse_packet}
use polaris_trade.Soupbintcp.Wire.RoundTrip.{encode_packet, parse_packet-encode_packet}
use polaris_trade.Soupbintcp.Ascii.{ascii_left_justify, ascii_right_justify, digits}
use polaris_trade.Soupbintcp.Session.{
  SoupBinClientConfig, Session, streaming, new_session, queue, flush, login_request, flush_fuel,
  heartbeat_due, queue_heartbeat, advance_out,
}
use polaris_trade.Soupbintcp.Session.Queue.{flush_lem, is_ok}
use polaris_trade.Soupbintcp.Session.Inbound.{dispatch_stream}
use polaris_trade.Soupbintcp.Session.Inbound.Chunks.{received, resumed, dispatch_stream-append}

abbrev message : List ℕ
message = 0x41 ∷ 0x42 ∷ []

abbrev config : SoupBinClientConfig
config = record {
  username = 0x75 ∷ [];
  password = 0x70 ∷ [];
  requested_session = [];
  requested_sequence_number = 42;
  login_timeout_after = 30;
  heartbeat_interval = 1;
  heartbeat_timeout = 15;
  max_frame_size = 65536;
  decode_buf_capacity = 65536;
}

login_request_run :
    login_request config
    ≡ 0x75 ∷ (replicate 5 0x20 ++ (0x70 ∷ (replicate 37 0x20 ++ (0x34 ∷ 0x32 ∷ []))))
unfolding login_request ascii_left_justify ascii_right_justify digits
login_request_run = refl

-- A session that streams, with a message and half a heartbeat to dispatch.
abbrev session : Session
session = record (new_session config 0) {
  state = streaming;
  next_expected_sequence = 9;
  decode_buf = encode_packet sequenced_data message ++ (0 ∷ []);
}

parse_packet_result :
    parse_packet session.decode_buf
    ≡ ok (some (record { ty = sequenced_data; payload = message }, 5))
parse_packet_result = parse_packet-encode_packet sequenced_data message (0 ∷ []) (omega arith)

-- A socket with room for a number of bytes, and what it has written.
abbrev send_some : ℕ × List ℕ → List ℕ → Result TransportError ℕ × (ℕ × List ℕ)
send_some (room, sent) buf =
    (ok (length (take room buf)), (0, sent ++ take (length (take room buf)) buf))

abbrev full_session : Session
full_session = record session { out = 1 ∷ 2 ∷ 3 ∷ [] }

flush_example :
    let (answer, s', t') = flush send_some (2, []) full_session 5 in
    (t'.1 ++ s'.out ≡ 1 ∷ 2 ∷ 3 ∷ [])
    × ((is_ok answer ≡ false)
        ⊎ (s'.out ≡ [])
        ⊎ ((u : ℕ × List ℕ) × ((send_some u s'.out).0 ≡ ok 0) × (t' ≡ (send_some u s'.out).1)))
flush_example =
    flush_lem send_some (λ t. t.1)
      (λ t buf n e.
        let same : length (take t.0 buf) ≡ n = cc e in
        (omega (arith, same, length-take t.0 buf), ap (λ (k : ℕ). t.1 ++ take k buf) same))
      (λ t buf e k. absurd (cc k)) (2, []) full_session 5

dispatch_stream-append_example :
    dispatch_stream (received session (1 ∷ 0x48 ∷ []))
    ≡ resumed (dispatch_stream session) (1 ∷ 0x48 ∷ [])
dispatch_stream-append_example = dispatch_stream-append session (1 ∷ 0x48 ∷ [])

-- A transport that takes every write and gives one byte as often as its number says.
abbrev take_all : ℕ → List ℕ → Result TransportError ℕ × ℕ
take_all t buf = (ok (length buf), t)

abbrev give_byte : ℕ → ℕ → Result TransportError (List ℕ) × ℕ
give_byte zero room = (ok [], zero)
give_byte (suc t) room = (ok (0 ∷ []), t)

give_byte_fewer :
    (t room b : ℕ) (bs : List ℕ) → (give_byte t room).0 ≡ ok (b ∷ bs) → (give_byte t room).1 < t
give_byte_fewer zero room b bs e = absurd (cc e)
give_byte_fewer (suc t) room b bs e = omega arith

poll_ends_example : poll take_all give_byte 3 2 session 0 ≢ none
poll_ends_example =
    poll_ends take_all give_byte (λ t. t) give_byte_fewer (λ t buf. omega arith) 3 2 session 0
      (omega arith)

-- At 5 the client heartbeat is due, and is sent.
poll_run :
    poll take_all give_byte 3 2 session 5
    ≡ some (ok (some heartbeat_sent_event), record session { last_send = 5 }, 2)
unfolding poll flush flush_fuel poll_stream heartbeat_due queue_heartbeat queue advance_out to_be
poll_run = refl

poll-rank_example : rank streaming ≤ rank streaming
poll-rank_example =
    poll-rank take_all give_byte 3 2 2 session (record session { last_send = 5 }) 5
      (ok (some heartbeat_sent_event)) poll_run
