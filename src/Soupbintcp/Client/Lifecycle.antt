-- ===== src/Soupbintcp/Client/Lifecycle.antt =====
-- The loops of `poll`, and the reads that they take.
use polaris_trade.Base.{
  ℕ, zero, suc, ◌≤◌, ◌<◌, ◌≡◌, ◌≢◌, ◌⊎◌, refl, true, false, none, some, List, [], ◌∷◌, arith, leb,
  ◌==◌, length, Bool-cases, inl, inr,
}
use polaris_trade.Base.Result.{Result, ok, Result-cases}
use polaris_trade.Transport.Error.{TransportError}
use polaris_trade.Soupbintcp.Session.{
  ClientState, authenticating, streaming, closed, Session, is_empty, advance_out, queue_heartbeat,
  flush_fuel, flush, heartbeat_due, ingest,
}
use polaris_trade.Soupbintcp.Session.Inbound.{dispatch_login, dispatch_stream}
use polaris_trade.Soupbintcp.Client.{poll_login, poll_received, poll_stream, poll}

some-ne_none : {A : Type 0} (a : A) → some a ≢ none
some-ne_none a e = cc e

pub state_cases : (s : ClientState) → (s ≡ authenticating) ⊎ (s ≡ streaming) ⊎ (s ≡ closed)
state_cases authenticating = inl refl
state_cases streaming = inr (inl refl)
state_cases closed = inr (inr refl)

-- A transport that has `left` reads at most to give before it has nothing, one fewer behind each; a write
-- gives it no more.
module _ {T : Type 0} (try_send : T → List ℕ → Result TransportError ℕ × T)
    (recv_into : T → ℕ → Result TransportError (List ℕ) × T) (left : T → ℕ)
    (reads : (t : T) (room b : ℕ) (bs : List ℕ)
      → (recv_into t room).0 ≡ ok (b ∷ bs)
      → left (recv_into t room).1 < left t)
    (writes : (t : T) (buf : List ℕ) → left (try_send t buf).1 ≤ left t) where
  ingest_fewer :
      (t : T) (s : Session) (now : ℕ)
      → (ingest recv_into t s now).0 ≡ ok true
      → left (ingest recv_into t s now).2 < left t
  unfolding ingest
  ingest_fewer t s now e = elim (Result-cases (recv_into t s.cfg.decode_buf_capacity).0) [
    | inr (x, k) ↦ absurd (ground (arith, k, e))
    | inl ([], k) ↦ absurd (ground (arith, k, e))
    | inl (b ∷ bs, k) ↦ ground (arith, k, reads t s.cfg.decode_buf_capacity b bs k)
  ]

  flush_fuel_fewer :
      (fuel : ℕ) (t : T) (s : Session) (now : ℕ)
      → left (flush_fuel try_send fuel t s now).2 ≤ left t
  unfolding flush_fuel
  flush_fuel_fewer zero t s now = omega arith
  flush_fuel_fewer (suc fuel) t s now = elim (Bool-cases (is_empty s.out)) [
    | inl done ↦ rw (done, flush_fuel) (omega arith)
    | inr more ↦ elim (Result-cases (try_send t s.out).0) [
      | inr (x, k) ↦ rw (more, k, flush_fuel) (writes t s.out)
      | inl (n, k) ↦ elim (Bool-cases (n == 0)) [
        | inl full ↦ rw (more, k, full, flush_fuel) (writes t s.out)
        | inr part ↦
            rw (more, k, part, flush_fuel)
              (omega (
                arith,
                writes t s.out,
                flush_fuel_fewer fuel (try_send t s.out).1 (advance_out s n now) now,
              ))
      ]
    ]
  ]

  poll_login_ends :
      (fuel : ℕ) (t : T) (s : Session) (now : ℕ)
      → left t < fuel
      → poll_login try_send recv_into fuel t s now ≢ none
  unfolding poll_login
  poll_login_ends zero t s now lt e = absurd (omega arith)
  poll_login_ends (suc fuel) t s now lt e =
      let s₁ = (dispatch_login s now).1 in
      elim (Result-cases (dispatch_login s now).0) [
        | inr (x, k) ↦ some-ne_none _ (rw (k, poll_login) at e)
        | inl (some m, k) ↦ some-ne_none _ (rw (k, poll_login) at e)
        | inl (none, k) ↦ elim (Result-cases (ingest recv_into t s₁ now).0) [
          | inr (x, k') ↦ some-ne_none _ (rw (k, k', poll_login) at e)
          | inl (true, k') ↦
              poll_login_ends fuel (ingest recv_into t s₁ now).2 (ingest recv_into t s₁ now).1 now
                (omega (arith, ingest_fewer t s₁ now k')) (rw (k, k', poll_login) at e)
          | inl (false, k') ↦
              elim (Bool-cases (leb (ingest recv_into t s₁ now).1.login_deadline now)) [
                | inl late ↦ some-ne_none _ (rw (k, k', late, poll_login) at e)
                | inr early ↦ some-ne_none _ (rw (k, k', early, poll_login) at e)
              ]
        ]
      ]

  poll_received_ends :
      (fuel : ℕ) (t : T) (s : Session) (now : ℕ)
      → left t < fuel
      → poll_received try_send recv_into fuel t s now ≢ none
  unfolding poll_received
  poll_received_ends zero t s now lt e = absurd (omega arith)
  poll_received_ends (suc fuel) t s now lt e =
      let s₁ = (dispatch_stream s).1 in
      elim (Result-cases (dispatch_stream s).0) [
        | inr (x, k) ↦ some-ne_none _ (rw (k, poll_received) at e)
        | inl (some m, k) ↦ some-ne_none _ (rw (k, poll_received) at e)
        | inl (none, k) ↦ elim (Result-cases (ingest recv_into t s₁ now).0) [
          | inr (x, k') ↦ some-ne_none _ (rw (k, k', poll_received) at e)
          | inl (true, k') ↦
              poll_received_ends fuel (ingest recv_into t s₁ now).2 (ingest recv_into t s₁ now).1
                now (omega (arith, ingest_fewer t s₁ now k')) (rw (k, k', poll_received) at e)
          | inl (false, k') ↦ some-ne_none _ (rw (k, k', poll_received) at e)
        ]
      ]

  poll_stream_ends :
      (fuel : ℕ) (t : T) (s : Session) (now : ℕ)
      → left t < fuel
      → poll_stream try_send recv_into fuel t s now ≢ none
  unfolding poll_stream
  poll_stream_ends fuel t s now lt e = elim (Bool-cases (heartbeat_due s now)) [
    | inr quiet ↦ poll_received_ends fuel t s now lt (rw (quiet, poll_stream) at e)
    | inl due ↦ elim (Result-cases (queue_heartbeat s).0) [
      | inr (x, k) ↦ some-ne_none _ (rw (due, k, poll_stream) at e)
      | inl (u, k) ↦ elim (Result-cases (flush try_send t (queue_heartbeat s).1 now).0) [
        | inr (x, k') ↦ some-ne_none _ (rw (due, k, k', poll_stream) at e)
        | inl (v, k') ↦ some-ne_none _ (rw (due, k, k', poll_stream) at e)
      ]
    ]
  ]

  -- On a transport that gives finitely many reads, which writing does not raise, `poll` comes back in
  -- every state of the session: its loops need no more rounds than the transport has
  -- reads to give, and one more.
  pub poll_ends :
      (fuel : ℕ) (t : T) (s : Session) (now : ℕ)
      → left t < fuel
      → poll try_send recv_into fuel t s now ≢ none
  unfolding poll flush
  poll_ends fuel t s now lt e =
      let t' = (flush try_send t s now).2 in
      let s' = (flush try_send t s now).1 in
      let fewer = flush_fuel_fewer (suc (length s.out)) t s now in
      elim (Result-cases (flush try_send t s now).0) [
        | inr (x, k) ↦ some-ne_none _ (rw (k, poll) at e)
        | inl (u, k) ↦ elim (state_cases s'.state) [
          | inl k' ↦ poll_login_ends fuel t' s' now (omega (arith, fewer)) (rw (k, k', poll) at e)
          | inr (inl k') ↦
              poll_stream_ends fuel t' s' now (omega (arith, fewer)) (rw (k, k', poll) at e)
          | inr (inr k') ↦ some-ne_none _ (rw (k, k', poll) at e)
        ]
      ]
