-- ===== src/Soupbintcp/Client/States.antt =====
-- The states that a session goes through under `poll`.
use polaris_trade.Base.{
  ℕ, zero, suc, ◌≤◌, ◌≡◌, ◌⊎◌, refl, ap, subst, true, false, Option, none, some, List, [], ◌∷◌,
  arith, ltb, ◌==◌, length, Bool-cases, inl, inr,
}
use polaris_trade.Base.Result.{Result, ok, err, Result-cases}
use polaris_trade.Transport.Error.{TransportError}
use polaris_trade.Soupbintcp.Error.{
  PacketType, end_of_session_packet, debug, client_heartbeat, SoupBinError,
}
use polaris_trade.Soupbintcp.Wire.{parse_packet}
use polaris_trade.Soupbintcp.Session.{
  ClientState, authenticating, streaming, closed, Session, is_empty, advance_out, queue,
  queue_heartbeat, flush_fuel, flush, heartbeat_due, heartbeat_timed_out, ingest,
}
use polaris_trade.Soupbintcp.Session.Inbound.{
  guard_size, take_packet, dispatch_stream, dispatch_stream_fuel,
}
use polaris_trade.Soupbintcp.Client.Lifecycle.{state_cases}
use polaris_trade.Soupbintcp.Client.{SoupBinMessage, poll_login, poll_received, poll_stream, poll}

-- How far a state is along the life of a session.
abbrev pub rank : ClientState → ℕ
rank authenticating = 0
rank streaming = 1
rank closed = 2

take_packet-state : (s : Session) → (take_packet s).1.state ≡ s.state
unfolding take_packet
take_packet-state s = elim (Result-cases (guard_size s.cfg.max_frame_size s.decode_buf)) [
  | inr (x, k) ↦ rw (k, take_packet) refl
  | inl (u, k) ↦ elim (Result-cases (parse_packet s.decode_buf)) [
    | inr (x, k') ↦ rw (k, k', take_packet) refl
    | inl (none, k') ↦ rw (k, k', take_packet) refl
    | inl (some p, k') ↦ rw (k, k', take_packet) refl
  ]
]

dispatch_stream_fuel-rank :
    (fuel : ℕ) (s : Session) → rank s.state ≤ rank (dispatch_stream_fuel fuel s).1.state
unfolding dispatch_stream_fuel
dispatch_stream_fuel-rank zero s = omega arith
dispatch_stream_fuel-rank (suc fuel) s =
    let kept = ap rank (take_packet-state s) in
    go (λ u. omega (arith, kept, dispatch_stream_fuel-rank fuel (take_packet s).1))
      (Result-cases (take_packet s).0)
  where
    same : rank s.state ≤ rank (take_packet s).1.state
    same = omega (arith, ap rank (take_packet-state s))

    top : (z : ClientState) → rank z ≤ 2
    top authenticating = omega arith
    top streaming = omega arith
    top closed = omega arith

    go :
        (Unit {0} → rank s.state ≤ rank (dispatch_stream_fuel fuel (take_packet s).1).1.state)
        → ((o : Option (PacketType × List ℕ)) × ((take_packet s).0 ≡ ok o))
          ⊎ ((x : SoupBinError) × ((take_packet s).0 ≡ err x))
        → rank s.state ≤ rank (dispatch_stream_fuel (suc fuel) s).1.state
    go ih (inr (x, k)) = rw (k, dispatch_stream_fuel) same
    go ih (inl (none, k)) = rw (k, dispatch_stream_fuel) same
    go ih (inl (some (debug, bytes), k)) = rw (k, dispatch_stream_fuel) (ih tt)
    go ih (inl (some (end_of_session_packet, bytes), k)) =
        rw (k, dispatch_stream_fuel) (top s.state)
    go ih (inl (some (other, bytes), k)) = rw (k, dispatch_stream_fuel) same

dispatch_stream-rank : (s : Session) → rank s.state ≤ rank (dispatch_stream s).1.state
unfolding dispatch_stream
dispatch_stream-rank s = dispatch_stream_fuel-rank (suc (length s.decode_buf)) s

heartbeat_timed_out-rank :
    (s : Session) (now : ℕ) → rank s.state ≤ rank (heartbeat_timed_out s now).1.state
unfolding heartbeat_timed_out
heartbeat_timed_out-rank s now = ground arith

queue-state :
    (s : Session) (ty : PacketType) (payload : List ℕ) → (queue s ty payload).1.state ≡ s.state
unfolding queue
queue-state s ty payload = ground arith

module _ {T : Type 0} (try_send : T → List ℕ → Result TransportError ℕ × T)
    (recv_into : T → ℕ → Result TransportError (List ℕ) × T) where
  ingest-state : (t : T) (s : Session) (now : ℕ) → (ingest recv_into t s now).1.state ≡ s.state
  unfolding ingest
  ingest-state t s now = elim (Result-cases (recv_into t s.cfg.decode_buf_capacity).0) [
    | inr (x, k) ↦ rw (k, ingest) refl
    | inl ([], k) ↦ rw (k, ingest) refl
    | inl (b ∷ bs, k) ↦ elim (Bool-cases (ltb 0 (length (b ∷ bs)))) [
      | inl p ↦ rw (k, p, ingest) refl
      | inr p ↦ rw (k, p, ingest) refl
    ]
  ]

  flush_fuel-state :
      (fuel : ℕ) (t : T) (s : Session) (now : ℕ)
      → (flush_fuel try_send fuel t s now).1.state ≡ s.state
  unfolding flush_fuel advance_out
  flush_fuel-state zero t s now = refl
  flush_fuel-state (suc fuel) t s now = elim (Bool-cases (is_empty s.out)) [
    | inl done ↦ rw (done, flush_fuel) refl
    | inr more ↦ elim (Result-cases (try_send t s.out).0) [
      | inr (x, k) ↦ rw (more, k, flush_fuel) refl
      | inl (n, k) ↦ elim (Bool-cases (n == 0)) [
        | inl full ↦ rw (more, k, full, flush_fuel) refl
        | inr part ↦
            rw (more, k, part, flush_fuel)
              (flush_fuel-state fuel (try_send t s.out).1 (advance_out s n now) now)
      ]
    ]
  ]

  -- What a call answers, if its fuel is enough, leaves the session no earlier in its life than `n`.
  abbrev Forward : ℕ → Option (Result SoupBinError (Option SoupBinMessage) × Session × T) → Type 0
  Forward n none = Unit
  Forward n (some (answer, s, t)) = n ≤ rank s.state

  poll_received-Forward :
      (n fuel : ℕ) (t : T) (s : Session) (now : ℕ)
      → n ≤ rank s.state
      → Forward n (poll_received try_send recv_into fuel t s now)
  unfolding poll_received
  poll_received-Forward n zero t s now le = tt
  poll_received-Forward n (suc fuel) t s now le =
      let s₁ = (dispatch_stream s).1 in
      let a = dispatch_stream-rank s in
      let b = ap rank (ingest-state t s₁ now) in
      elim (Result-cases (dispatch_stream s).0) [
        | inr (x, k) ↦ rw (k, poll_received) (omega (arith, a))
        | inl (some m, k) ↦ rw (k, poll_received) (omega (arith, a))
        | inl (none, k) ↦ elim (Result-cases (ingest recv_into t s₁ now).0) [
          | inr (x, k') ↦ rw (k, k', poll_received) (omega (arith, a, b))
          | inl (true, k') ↦
              rw (k, k', poll_received)
                (poll_received-Forward n fuel (ingest recv_into t s₁ now).2
                  (ingest recv_into t s₁ now).1 now (omega (arith, a, b)))
          | inl (false, k') ↦
              rw (k, k', poll_received)
                (omega (arith, a, b, heartbeat_timed_out-rank (ingest recv_into t s₁ now).1 now))
        ]
      ]

  poll_stream-Forward :
      (n fuel : ℕ) (t : T) (s : Session) (now : ℕ)
      → n ≤ rank s.state
      → Forward n (poll_stream try_send recv_into fuel t s now)
  unfolding poll_stream queue_heartbeat flush
  poll_stream-Forward n fuel t s now le =
      let q = ap rank (queue-state s client_heartbeat []) in
      let s₁ = (queue_heartbeat s).1 in
      let f = ap rank (flush_fuel-state (suc (length s₁.out)) t s₁ now) in
      elim (Bool-cases (heartbeat_due s now)) [
        | inr quiet ↦ rw (quiet, poll_stream) (poll_received-Forward n fuel t s now le)
        | inl due ↦ elim (Result-cases (queue_heartbeat s).0) [
          | inr (x, k) ↦ rw (due, k, poll_stream) (omega (arith, q))
          | inl (u, k) ↦ elim (Result-cases (flush try_send t s₁ now).0) [
            | inr (x, k') ↦ rw (due, k, k', poll_stream) (omega (arith, q, f))
            | inl (v, k') ↦ rw (due, k, k', poll_stream) (omega (arith, q, f))
          ]
        ]
      ]

  poll-Forward :
      (fuel : ℕ) (t : T) (s : Session) (now : ℕ)
      → Forward (rank s.state) (poll try_send recv_into fuel t s now)
  unfolding poll flush
  poll-Forward fuel t s now =
      let t' = (flush try_send t s now).2 in
      let s' = (flush try_send t s now).1 in
      let f = flush_fuel-state (suc (length s.out)) t s now in
      let kept = ap rank f in
      elim (Result-cases (flush try_send t s now).0) [
        | inr (x, k) ↦ rw (k, poll) (omega (arith, kept))
        | inl (u, k) ↦ elim (state_cases s'.state) [
          | inl k' ↦
              rw (k, k', poll)
                (at_start (poll_login try_send recv_into fuel t' s' now)
                  (omega (arith, kept, ap rank k')))
          | inr (inl k') ↦
              rw (k, k', poll)
                (poll_stream-Forward (rank s.state) fuel t' s' now (omega (arith, kept)))
          | inr (inr k') ↦ rw (k, k', poll) (omega (arith, kept))
        ]
      ]
    where
      at_start :
          (out : Option (Result SoupBinError (Option SoupBinMessage) × Session × T))
          → rank s.state ≤ 0
          → Forward (rank s.state) out
      at_start none le = tt
      at_start (some (answer, z, u)) le = omega arith

  -- Whatever the transport does, `poll` leaves a session at its state or further on, from authenticating
  -- over streaming to closed: a session that streams never logs in again, and a closed one stays closed.
  pub poll-rank :
      (fuel : ℕ) (t t' : T) (s s' : Session) (now : ℕ)
      (answer : Result SoupBinError (Option SoupBinMessage))
      → poll try_send recv_into fuel t s now ≡ some (answer, s', t')
      → rank s.state ≤ rank s'.state
  poll-rank fuel t t' s s' now answer e =
      subst (Forward (rank s.state)) e (poll-Forward fuel t s now)
