-- ===== src/Soupbintcp/Session.antt =====
-- `Session` of crates/clients/soupbintcp/src/session.rs, built without the feature `compressed`. Times
-- are nanoseconds, the strings of the config are their bytes, and the transport is a parameter.
pub mod Queue
pub mod Inbound
use polaris_trade.Base.{
  ℕ, zero, suc, ◌+◌, ◌-◌, min, Bool, true, false, ◌&&◌, Option, none, some, List, [], ◌∷◌, ◌++◌,
  ltb, leb, ◌==◌, if◌then◌else◌, length, drop, take, from_be, to_be, add64, split_first_chunk,
}
use polaris_trade.Base.Result.{Result, ok, err, ◌>>=◌}
use polaris_trade.Transport.Error.{TransportError}
use polaris_trade.Soupbintcp.Error.{
  PacketType, login_request_packet, login_accepted_packet, login_rejected_packet, sequenced_data,
  server_heartbeat, end_of_session_packet, debug, unsequenced_data, client_heartbeat,
  logout_request, SoupBinError, transport, login_timeout, frame_too_large, protocol_violation,
  login_rejected_empty, unexpected_in_login, unexpected_in_streaming,
}
use polaris_trade.Soupbintcp.Wire.{packet_byte, parse_packet}
use polaris_trade.Soupbintcp.Ascii.{
  ascii_left_justify, ascii_right_justify, decimal, parse_login_accepted, parse_ascii_field,
}

-- `SoupBinClientConfig`
pub record SoupBinClientConfig : Type 0 where
  pub username : List ℕ
  pub password : List ℕ
  pub requested_session : List ℕ
  pub requested_sequence_number : ℕ
  pub login_timeout_after : ℕ
  pub heartbeat_interval : ℕ
  pub heartbeat_timeout : ℕ
  pub max_frame_size : ℕ
  pub decode_buf_capacity : ℕ

pub data ClientState : Type 0 where
  authenticating streaming closed : ClientState

pub record Session : Type 0 where
  pub state : ClientState
  pub cfg : SoupBinClientConfig
  pub decode_buf : List ℕ
  pub last_frame : List ℕ
  pub out : List ℕ
  pub assigned_id : List ℕ
  pub next_expected_sequence : ℕ
  pub last_send : ℕ
  pub last_recv : ℕ
  pub login_deadline : ℕ

pub data Login : Type 0 where
  accepted : List ℕ → ℕ → Login
  rejected : ℕ → Login

-- `Streamed`, with the two events that dispatching gives.
pub data Streamed : Type 0 where
  data_message : ℕ → Streamed
  heartbeat_received session_ended : Streamed

-- `Session::new` at `now`
abbrev pub new_session : SoupBinClientConfig → ℕ → Session
new_session cfg now = record {
  state = authenticating;
  cfg = cfg;
  decode_buf = [];
  last_frame = [];
  out = [];
  assigned_id = [];
  next_expected_sequence = 0;
  last_send = now;
  last_recv = now;
  login_deadline = now;
}

abbrev pub is_empty : List ℕ → Bool
is_empty [] = true
is_empty (x ∷ xs) = false

unfoldable pub next_deadline : Session → ℕ
next_deadline s =
    let recv_due = s.last_recv + s.cfg.heartbeat_timeout in
    let due =
      if is_empty s.out then min recv_due (s.last_send + s.cfg.heartbeat_interval) else recv_due in
    elim s.state [ authenticating ↦ s.login_deadline | streaming ↦ due | closed ↦ due ]

-- `queue`
unfoldable pub queue : Session → PacketType → List ℕ → Result SoupBinError (Unit {0}) × Session
queue s ty payload =
    if ltb 0xffff (1 + length payload)
    then (err (frame_too_large (length payload) 0xfffe), s)
    else (
      ok tt,
      record s { out = s.out ++ (to_be 2 (1 + length payload) ++ (packet_byte ty ∷ payload)) },
    )

unfoldable pub login_request : SoupBinClientConfig → List ℕ
login_request cfg =
    ascii_right_justify
      (ascii_left_justify
        (ascii_left_justify (ascii_left_justify [] cfg.username 6) cfg.password 10)
        cfg.requested_session 10)
      (decimal cfg.requested_sequence_number) 20

unfoldable pub queue_login : Session → ℕ → Result SoupBinError (Unit {0}) × Session
queue_login s now =
    let (queued, s') = queue s login_request_packet (login_request s.cfg) in
    elim queued [
      | err e ↦ (err e, s')
      | ok u ↦ (ok tt, record s' { login_deadline = now + s.cfg.login_timeout_after })
    ]

unfoldable pub queue_heartbeat : Session → Result SoupBinError (Unit {0}) × Session
queue_heartbeat s = queue s client_heartbeat []

abbrev pub close_logout : Session → Session
close_logout s = record s { state = closed }

abbrev pub login_timed_out : Session → SoupBinError × Session
login_timed_out s = (login_timeout s.cfg.login_timeout_after, record s { state = closed; out = [] })

abbrev pub sent_all : Session → ℕ → Session
sent_all s now = record s { out = []; last_send = now }

unfoldable pub heartbeat_due : Session → ℕ → Bool
heartbeat_due s now = is_empty s.out && ltb s.cfg.heartbeat_interval (now - s.last_send)

unfoldable pub heartbeat_timed_out : Session → ℕ → Bool × Session
heartbeat_timed_out s now =
    if leb (now - s.last_recv) s.cfg.heartbeat_timeout
    then (false, s)
    else (true, record s { state = closed; out = [] })

-- `self.out.advance(n)`, and the time of the last send once nothing is left.
unfoldable pub advance_out : Session → ℕ → ℕ → Session
advance_out s n now =
    let out = drop n s.out in
    record s { out = out; last_send = if is_empty out then now else s.last_send }

module _ {T : Type 0} (try_send : T → List ℕ → Result TransportError ℕ × T) where
  -- The loop of `flush`: each round but the last writes a byte at least.
  unfoldable pub flush_fuel : ℕ → T → Session → ℕ → Result SoupBinError (Unit {0}) × Session × T
  flush_fuel zero t s now = (ok tt, s, t)
  flush_fuel (suc fuel) t s now =
      let (answer, t') = try_send t s.out in
      elim (is_empty s.out) [
        | true ↦ (ok tt, s, t)
        | false ↦ elim answer [
          | err e ↦ (err (transport e), s, t')
          | ok n ↦ elim (n == 0) [
            | true ↦ (ok tt, s, t')
            | false ↦ flush_fuel fuel t' (advance_out s n now) now
          ]
        ]
      ]

  unfoldable pub flush : T → Session → ℕ → Result SoupBinError (Unit {0}) × Session × T
  flush t s now = flush_fuel (suc (length s.out)) t s now

module _ {T : Type 0} (recv_into : T → ℕ → Result TransportError (List ℕ) × T) where
  -- `ingest` and `land`: the bytes that `recv_into` reads, given room for the capacity at least.
  unfoldable pub ingest : T → Session → ℕ → Result SoupBinError Bool × Session × T
  ingest t s now =
      let (answer, t') = recv_into t s.cfg.decode_buf_capacity in
      elim answer [
        | err e ↦ (err (transport e), s, t')
        | ok bytes ↦
            let s' : Session = record s { decode_buf = s.decode_buf ++ bytes } in
            if ltb 0 (length bytes)
            then (ok true, record s' { last_recv = now }, t')
            else (ok false, s', t')
      ]
