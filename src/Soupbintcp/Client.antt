-- ===== src/Soupbintcp/Client.antt =====
-- The sync driver of `SoupBinClient`, at the end of crates/clients/soupbintcp/src/session.rs. Both halves of
-- the transport are parameters.
pub mod Lifecycle
pub mod States
use polaris_trade.Base.{
  ℕ, zero, suc, Bool, true, false, Option, none, some, List, [], ◌∷◌, leb, if◌then◌else◌,
}
use polaris_trade.Base.Result.{Result, ok, err}
use polaris_trade.Transport.Error.{TransportError}
use polaris_trade.Soupbintcp.Error.{SoupBinError, end_of_session, unsequenced_data, logout_request}
use polaris_trade.Soupbintcp.Session.{
  SoupBinClientConfig, ClientState, authenticating, streaming, closed, Session, Login, accepted,
  rejected, Streamed, data_message, heartbeat_received, session_ended, new_session, is_empty, queue,
  queue_login, queue_heartbeat, close_logout, login_timed_out, flush, heartbeat_due,
  heartbeat_timed_out, ingest,
}
use polaris_trade.Soupbintcp.Session.Inbound.{dispatch_login, dispatch_stream}

-- `SoupBinMessage`: a frame is its payload and its sequence; and `SoupBinEvent`.
pub data SoupBinMessage : Type 0 where
  data_frame : List ℕ → ℕ → SoupBinMessage
  login_accepted_event : List ℕ → ℕ → SoupBinMessage
  login_rejected_event : ℕ → SoupBinMessage
  heartbeat_received_event heartbeat_sent_event : SoupBinMessage
  heartbeat_timeout_event end_of_session_event : SoupBinMessage

-- `queue_unsequenced`
unfoldable pub queue_unsequenced : Session → List ℕ → Result SoupBinError (Unit {0}) × Session
queue_unsequenced s payload = elim s.state [
  | closed ↦ (err end_of_session, s)
  | authenticating ↦ queue s unsequenced_data payload
  | streaming ↦ queue s unsequenced_data payload
]

-- `queue_logout`
unfoldable pub queue_logout : Session → Result SoupBinError (Unit {0}) × Session
queue_logout s =
    let (queued, s') = queue s logout_request [] in
    let logout : Result SoupBinError (Unit {0}) × Session = elim queued [
      | err e ↦ (err e, s')
      | ok u ↦ (ok tt, close_logout s')
    ] in
    elim s.state [ closed ↦ (err end_of_session, s) | authenticating ↦ logout | streaming ↦ logout ]

abbrev login_message : Login → SoupBinMessage
login_message (accepted session sequence) = login_accepted_event session sequence
login_message (rejected reason) = login_rejected_event reason

abbrev stream_message : Session → Streamed → SoupBinMessage
stream_message s (data_message sequence) = data_frame s.last_frame sequence
stream_message s heartbeat_received = heartbeat_received_event
stream_message s session_ended = end_of_session_event

module _ {T : Type 0} (try_send : T → List ℕ → Result TransportError ℕ × T)
    (recv_into : T → ℕ → Result TransportError (List ℕ) × T) where
  -- What `poll` answers, and the client after it.
  abbrev pub Polled : Type 0
  Polled = Result SoupBinError (Option SoupBinMessage) × Session × T

  -- `start`
  unfoldable pub start : T → SoupBinClientConfig → ℕ → Result SoupBinError (Unit {0}) × Session × T
  start t cfg now =
      let (queued, s) = queue_login (new_session cfg now) now in
      elim queued [ err e ↦ (err e, s, t) | ok u ↦ flush try_send t s now ]

  -- `poll_login`. The loop is on fuel, and `none` once that is spent.
  unfoldable pub poll_login : ℕ → T → Session → ℕ → Option Polled
  poll_login zero t s now = none
  poll_login (suc fuel) t s now =
      let (answer, s₁) = dispatch_login s now in
      let (read, s₂, t') = ingest recv_into t s₁ now in
      let (timeout, s₃) = login_timed_out s₂ in
      elim answer [
        | err e ↦ some (err e, s₁, t)
        | ok (some login) ↦ some (ok (some (login_message login)), s₁, t)
        | ok none ↦ elim read [
          | err e ↦ some (err e, s₂, t')
          | ok true ↦ poll_login fuel t' s₂ now
          | ok false ↦
              if leb s₂.login_deadline now
              then some (err timeout, s₃, t')
              else some (ok none, s₂, t')
        ]
      ]

  -- The loop of `poll_stream`, and what follows it.
  unfoldable pub poll_received : ℕ → T → Session → ℕ → Option Polled
  poll_received zero t s now = none
  poll_received (suc fuel) t s now =
      let (answer, s₁) = dispatch_stream s in
      let (read, s₂, t') = ingest recv_into t s₁ now in
      let (silent, s₃) = heartbeat_timed_out s₂ now in
      elim answer [
        | err e ↦ some (err e, s₁, t)
        | ok (some m) ↦ some (ok (some (stream_message s₁ m)), s₁, t)
        | ok none ↦ elim read [
          | err e ↦ some (err e, s₂, t')
          | ok true ↦ poll_received fuel t' s₂ now
          | ok false ↦ some (ok (if silent then some heartbeat_timeout_event else none), s₃, t')
        ]
      ]

  unfoldable pub poll_stream : ℕ → T → Session → ℕ → Option Polled
  poll_stream fuel t s now =
      let (queued, s₁) = queue_heartbeat s in
      let (flushed, s₂, t') = flush try_send t s₁ now in
      let received = poll_received fuel t s now in
      elim (heartbeat_due s now) [
        | false ↦ received
        | true ↦ elim queued [
          | err e ↦ some (err e, s₁, t)
          | ok u ↦ elim flushed [
            | err e ↦ some (err e, s₂, t')
            | ok v ↦ some (ok (some heartbeat_sent_event), s₂, t')
          ]
        ]
      ]

  unfoldable pub poll : ℕ → T → Session → ℕ → Option Polled
  poll fuel t s now =
      let (flushed, s', t') = flush try_send t s now in
      elim flushed [
        | err e ↦ some (err e, s', t')
        | ok u ↦ elim s'.state [
          | closed ↦ some (if is_empty s'.out then err end_of_session else ok none, s', t')
          | authenticating ↦ poll_login fuel t' s' now
          | streaming ↦ poll_stream fuel t' s' now
        ]
      ]
