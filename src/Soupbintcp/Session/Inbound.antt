-- ===== src/Soupbintcp/Session/Inbound.antt =====
-- The inbound half of `Session` of crates/clients/soupbintcp/src/session.rs: packets off the decode
-- buffer, and their dispatch by state.
pub mod Chunks
pub mod Numbers
use polaris_trade.Base.{
  ℕ, zero, suc, ◌+◌, ◌-◌, min, Bool, true, false, ◌&&◌, Option, none, some, List, [], ◌∷◌, ◌++◌,
  ltb, leb, ◌==◌, if◌then◌else◌, length, drop, take, from_be, to_be, add64, split_first_chunk,
}
use polaris_trade.Base.Result.{Result, ok, err, ◌>>=◌}
use polaris_trade.Transport.Error.{TransportError}
use polaris_trade.Soupbintcp.Error.{
  PacketType, login_request_packet, login_accepted_packet, login_rejected_packet, sequenced_data,
  server_heartbeat, end_of_session_packet, debug, unsequenced_data, client_heartbeat,
  logout_request, SoupBinError, transport, login_timeout, frame_too_large, protocol_violation,
  login_rejected_empty, unexpected_in_login, unexpected_in_streaming,
}
use polaris_trade.Soupbintcp.Wire.{packet_byte, parse_packet}
use polaris_trade.Soupbintcp.Ascii.{
  ascii_left_justify, ascii_right_justify, decimal, parse_login_accepted, parse_ascii_field,
}
use polaris_trade.Soupbintcp.Session.{
  SoupBinClientConfig, ClientState, authenticating, streaming, closed, Session, Login, accepted,
  rejected, Streamed, data_message, heartbeat_received, session_ended,
}

-- The guard of `take_packet` on the length prefix.
unfoldable pub guard_size : ℕ → List ℕ → Result SoupBinError (Unit {0})
guard_size max_frame_size buf = elim (split_first_chunk 2 buf) [
  | none ↦ ok tt
  | some (prefix, rest) ↦
      let total = 2 + from_be 0 prefix in
      if ltb max_frame_size total then err (frame_too_large total max_frame_size) else ok tt
]

unfoldable pub take_packet : Session → Result SoupBinError (Option (PacketType × List ℕ)) × Session
take_packet s = elim (guard_size s.cfg.max_frame_size s.decode_buf) [
  | err e ↦ (err e, s)
  | ok u ↦ elim (parse_packet s.decode_buf) [
    | err e ↦ (err e, s)
    | ok none ↦ (ok none, s)
    | ok (some (frame, consumed)) ↦ (
      ok (some (frame.ty, drop (consumed - length frame.payload) (take consumed s.decode_buf))),
      record s { decode_buf = drop consumed s.decode_buf },
    )
  ]
]

-- A login answer, `Login Accepted`.
unfoldable pub accept_login : Session → List ℕ → ℕ → Result SoupBinError (Option Login) × Session
accept_login s bytes now = elim (parse_login_accepted bytes) [
  | err e ↦ (err e, s)
  | ok (session, sequence) ↦ elim (parse_ascii_field session) [
    | err e ↦ (err e, s)
    | ok id ↦ (
      ok (some (accepted session sequence)),
      record s {
        assigned_id = id;
        next_expected_sequence = sequence;
        last_recv = now;
        state = streaming;
      },
    )
  ]
]

unfoldable pub reject_login : Session → List ℕ → Result SoupBinError (Option Login) × Session
reject_login s [] = (err (protocol_violation login_rejected_empty), s)
reject_login s (reason ∷ rest) = (ok (some (rejected reason)), record s { state = closed })

-- The loop of `dispatch_login`. Each round takes a packet of three bytes at least, so that the bytes
-- buffered are fuel enough.
unfoldable pub dispatch_login_fuel : ℕ → Session → ℕ → Result SoupBinError (Option Login) × Session
dispatch_login_fuel zero s now = (ok none, s)
dispatch_login_fuel (suc fuel) s now =
    let (taken, s') = take_packet s in
    elim taken [
      | err e ↦ (err e, s')
      | ok none ↦ (ok none, s')
      | ok (some (ty, bytes)) ↦ elim ty [
        | login_accepted_packet ↦ accept_login s' bytes now
        | login_rejected_packet ↦ reject_login s' bytes
        | debug ↦ dispatch_login_fuel fuel s' now
        | server_heartbeat ↦ dispatch_login_fuel fuel s' now
        | other ↦ (err (protocol_violation (unexpected_in_login other)), s')
      ]
    ]

unfoldable pub dispatch_login : Session → ℕ → Result SoupBinError (Option Login) × Session
dispatch_login s now = dispatch_login_fuel (suc (length s.decode_buf)) s now

-- The loop of `dispatch_stream`, on the same fuel.
unfoldable pub dispatch_stream_fuel : ℕ → Session → Result SoupBinError (Option Streamed) × Session
dispatch_stream_fuel zero s = (ok none, s)
dispatch_stream_fuel (suc fuel) s =
    let (taken, s') = take_packet s in
    elim taken [
      | err e ↦ (err e, s')
      | ok none ↦ (ok none, s')
      | ok (some (ty, bytes)) ↦ elim ty [
        | sequenced_data ↦ (
          ok (some (data_message s'.next_expected_sequence)),
          record s' {
            next_expected_sequence = add64 s'.next_expected_sequence 1;
            last_frame = bytes;
          },
        )
        | server_heartbeat ↦ (ok (some heartbeat_received), s')
        | end_of_session_packet ↦ (ok (some session_ended), record s' { state = closed; out = [] })
        | debug ↦ dispatch_stream_fuel fuel s'
        | other ↦ (err (protocol_violation (unexpected_in_streaming other)), s')
      ]
    ]

unfoldable pub dispatch_stream : Session → Result SoupBinError (Option Streamed) × Session
dispatch_stream s = dispatch_stream_fuel (suc (length s.decode_buf)) s
