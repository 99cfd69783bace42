-- ===== src/Soupbintcp/Session/Inbound/Chunks.antt =====
-- Framing does not depend on how the stream is cut into reads.
use polaris_trade.Base.{
  ℕ, zero, suc, ◌≤◌, ◌<◌, ◌≡◌, ◌≢◌, ◌∙◌, refl, sym, ap, Option, none, some, List, ◌++◌, arith,
  length, length-append, length-drop, take-append_left, drop-append_left, Option-cases, inl, inr,
  get_or, split_first_chunk,
}
use polaris_trade.Base.Result.{Result, ok, err, Result-cases}
use polaris_trade.Soupbintcp.Error.{PacketType, debug, SoupBinError}
use polaris_trade.Soupbintcp.Wire.{PacketFrame, packet_type, parse_packet}
use polaris_trade.Soupbintcp.Wire.RoundTrip.{parse_packet-append}
use polaris_trade.Soupbintcp.Session.{Session, Streamed}
use polaris_trade.Soupbintcp.Session.Inbound.{
  guard_size, take_packet, dispatch_stream_fuel, dispatch_stream,
}

-- More bytes arrive.
abbrev pub received : Session → List ℕ → Session
received s more = record s { decode_buf = s.decode_buf ++ more }

parse_packet-some :
    (buf : List ℕ) (f : PacketFrame) (n : ℕ)
    → parse_packet buf ≡ ok (some (f, n))
    → (n ≤ length buf) × (2 < n)
unfolding parse_packet
parse_packet-some buf f n e = elim (Result-cases (packet_type (get_or buf 2 0))) [
  | inl (t, k) ↦ ground arith
  | inr (x, k) ↦ ground arith
]

guard_size-append :
    (max : ℕ) (buf more : List ℕ)
    → 2 ≤ length buf
    → guard_size max (buf ++ more) ≡ guard_size max buf
unfolding guard_size split_first_chunk
guard_size-append max buf more le =
    ground (arith, length-append buf more, take-append_left 2 buf more)

guard_size-err :
    (max : ℕ) (buf : List ℕ) (x : SoupBinError) → guard_size max buf ≡ err x → 2 ≤ length buf
unfolding guard_size split_first_chunk
guard_size-err max buf x e = ground arith

parse_packet-whole : (buf : List ℕ) → parse_packet buf ≢ ok none → 2 ≤ length buf
unfolding parse_packet
parse_packet-whole buf whole = ground arith

-- What `take_packet` answers on a buffer that holds a whole packet, or a wrong one.
take_packet-append :
    (s : Session) (more : List ℕ)
    → (take_packet s).0 ≢ ok none
    → take_packet (received s more) ≡ ((take_packet s).0, received (take_packet s).1 more)
unfolding take_packet
take_packet-append s more whole =
    elim (Result-cases (guard_size s.cfg.max_frame_size s.decode_buf)) [
      | inr (x, big) ↦
          let same =
            guard_size-append s.cfg.max_frame_size s.decode_buf more
              (guard_size-err s.cfg.max_frame_size s.decode_buf x big)
            ∙ big in
          rw (same, big, take_packet) refl
      | inl (u, small) ↦ elim (Result-cases (parse_packet s.decode_buf)) [
        | inr (x, bad) ↦
            let partial : parse_packet s.decode_buf ≢ ok none = λ e. cc (bad, e) in
            let same =
              guard_size-append s.cfg.max_frame_size s.decode_buf more
                (parse_packet-whole s.decode_buf partial)
              ∙ small in
            let again = parse_packet-append s.decode_buf more partial ∙ bad in
            rw (same, small, again, bad, take_packet) refl
        | inl (o, good) ↦ elim (Option-cases o) [
          | inl nothing ↦
              let e = good ∙ ap ok nothing in absurd (whole (rw (small, e, take_packet) refl))
          | inr ((f, n), found) ↦
              let e = good ∙ ap ok found in
              let partial : parse_packet s.decode_buf ≢ ok none = λ e'. cc (e, e') in
              let same =
                guard_size-append s.cfg.max_frame_size s.decode_buf more
                  (parse_packet-whole s.decode_buf partial)
                ∙ small in
              let again = parse_packet-append s.decode_buf more partial ∙ e in
              let le = (parse_packet-some s.decode_buf f n e).0 in
              rw
                (
                  same,
                  small,
                  again,
                  e,
                  take-append_left n s.decode_buf more le,
                  drop-append_left n s.decode_buf more le,
                  take_packet,
                )
                refl
        ]
      ]
    ]

-- What one round of the loop has taken.
record Taken (s : Session) (out : Result SoupBinError (Option (PacketType × List ℕ)) × Session)
    : Type 0 where
  pub partial : out.0 ≡ ok none → out.1 ≡ s
  pub shorter :
      (p : PacketType × List ℕ)
      → out.0 ≡ ok (some p)
      → length out.1.decode_buf < length s.decode_buf

take_packet-Taken : (s : Session) → Taken s (take_packet s)
unfolding take_packet
take_packet-Taken s = elim (Result-cases (guard_size s.cfg.max_frame_size s.decode_buf)) [
  | inr (x, big) ↦
      rw (big, take_packet) (record { partial = λ e. refl; shorter = λ p e. absurd (cc e) })
  | inl (u, small) ↦ elim (Result-cases (parse_packet s.decode_buf)) [
    | inr (x, bad) ↦
        rw (small, bad, take_packet)
          (record { partial = λ e. refl; shorter = λ p e. absurd (cc e) })
    | inl (o, good) ↦ elim (Option-cases o) [
      | inl nothing ↦
          let e = good ∙ ap ok nothing in
          rw (small, e, take_packet)
            (record { partial = λ e. refl; shorter = λ p e. absurd (cc e) })
      | inr ((f, n), found) ↦
          let e = good ∙ ap ok found in
          let k = parse_packet-some s.decode_buf f n e in
          rw (small, e, take_packet)
            (record {
              partial = λ e. absurd (cc e);
              shorter = λ p e. omega (arith, k.0, k.1, length-drop n s.decode_buf);
            })
    ]
  ]
]

-- The three ways in which a round can go.
data Round (s : Session) : Type 0 where
  failed : (x : SoupBinError) → (take_packet s).0 ≡ err x → Round s
  starved : (take_packet s).0 ≡ ok none → (take_packet s).1 ≡ s → Round s
  got :
      (ty : PacketType) (bytes : List ℕ)
      → (take_packet s).0 ≡ ok (some (ty, bytes))
      → length (take_packet s).1.decode_buf < length s.decode_buf
      → Round s

round : (s : Session) → Round s
round s = elim (Result-cases (take_packet s).0) [
  | inr (x, e) ↦ failed x e
  | inl (o, e) ↦ elim (Option-cases o) [
    | inl nothing ↦ starved (e ∙ ap ok nothing) ((take_packet-Taken s).partial (e ∙ ap ok nothing))
    | inr ((ty, bytes), found) ↦
        got ty bytes (e ∙ ap ok found) ((take_packet-Taken s).shorter (ty, bytes) (e ∙ ap ok found))
  ]
]

-- More rounds than there are bytes change nothing.
dispatch_stream_fuel-enough :
    (fuel fuel' : ℕ) (s : Session)
    → length s.decode_buf < fuel
    → length s.decode_buf < fuel'
    → dispatch_stream_fuel fuel s ≡ dispatch_stream_fuel fuel' s
unfolding dispatch_stream_fuel
dispatch_stream_fuel-enough zero fuel' s lt lt' = absurd (omega arith)
dispatch_stream_fuel-enough (suc fuel) zero s lt lt' = absurd (omega arith)
dispatch_stream_fuel-enough (suc fuel) (suc fuel') s lt lt' =
    go
      (λ less. dispatch_stream_fuel-enough fuel fuel' (take_packet s).1 (omega arith) (omega arith))
      (round s)
  where
    go :
        (length (take_packet s).1.decode_buf < length s.decode_buf
          → dispatch_stream_fuel fuel (take_packet s).1
            ≡ dispatch_stream_fuel fuel' (take_packet s).1)
        → Round s
        → dispatch_stream_fuel (suc fuel) s ≡ dispatch_stream_fuel (suc fuel') s
    go ih (failed x e) = rw (e, dispatch_stream_fuel) refl
    go ih (starved e same) = rw (e, dispatch_stream_fuel) refl
    go ih (got debug bytes e less) = rw (e, dispatch_stream_fuel) (ih less)
    go ih (got other bytes e less) = rw (e, dispatch_stream_fuel) refl

-- How a dispatch goes on when more bytes have arrived: an answer stands, and without one it is tried
-- again.
abbrev pub resumed :
    Result SoupBinError (Option Streamed) × Session
    → List ℕ
    → Result SoupBinError (Option Streamed) × Session
resumed (answer, s) more = elim answer [
  | err e ↦ (err e, received s more)
  | ok none ↦ dispatch_stream (received s more)
  | ok (some m) ↦ (ok (some m), received s more)
]

dispatch_stream_fuel-append :
    (fuel fuel' : ℕ) (s : Session) (more : List ℕ)
    → length s.decode_buf < fuel
    → length (s.decode_buf ++ more) < fuel'
    → dispatch_stream_fuel fuel' (received s more) ≡ resumed (dispatch_stream_fuel fuel s) more
unfolding dispatch_stream_fuel dispatch_stream
dispatch_stream_fuel-append zero fuel' s more lt lt' = absurd (omega arith)
dispatch_stream_fuel-append (suc fuel) zero s more lt lt' = absurd (omega arith)
dispatch_stream_fuel-append (suc fuel) (suc fuel') s more lt lt' =
    go
      (λ less. dispatch_stream_fuel-append fuel fuel' (take_packet s).1 more (omega arith) (
        omega (
          arith,
          length-append s.decode_buf more,
          length-append (take_packet s).1.decode_buf more,
        )))
      (round s)
  where
    answers : (take_packet s).0 ≢ ok none → (take_packet (received s more)).0 ≡ (take_packet s).0
    answers ne = ap (λ p. p.0) (take_packet-append s more ne)

    keeps :
        (take_packet s).0 ≢ ok none
        → (take_packet (received s more)).1 ≡ received (take_packet s).1 more
    keeps ne = ap (λ p. p.1) (take_packet-append s more ne)

    go :
        (length (take_packet s).1.decode_buf < length s.decode_buf
          → dispatch_stream_fuel fuel' (received (take_packet s).1 more)
            ≡ resumed (dispatch_stream_fuel fuel (take_packet s).1) more)
        → Round s
        → dispatch_stream_fuel (suc fuel') (received s more)
          ≡ resumed (dispatch_stream_fuel (suc fuel) s) more
    go ih (failed x e) =
        rw (answers (λ k. cc (e, k)) ∙ e, keeps (λ k. cc (e, k)), e, dispatch_stream_fuel) refl
    go ih (starved e same) =
        dispatch_stream_fuel-enough (suc fuel') (suc (length (s.decode_buf ++ more)))
          (received s more) lt' (omega arith)
        ∙ sym (rw (e, dispatch_stream_fuel) (ap (λ z. dispatch_stream (received z more)) same))
    go ih (got debug bytes e less) =
        rw (answers (λ k. cc (e, k)) ∙ e, keeps (λ k. cc (e, k)), e, dispatch_stream_fuel) (ih less)
    go ih (got other bytes e less) =
        rw (answers (λ k. cc (e, k)) ∙ e, keeps (λ k. cc (e, k)), e, dispatch_stream_fuel) refl

-- What `dispatch_stream` answers on the bytes received so far stands whatever bytes arrive later, and the
-- session differs only by those bytes at the end of its buffer; and if it had no answer, then with the
-- later bytes it answers as it does when it sees all of them at once. The loop takes every whole packet
-- that is there: it never stops for lack of rounds.
pub dispatch_stream-append :
    (s : Session) (more : List ℕ)
    → dispatch_stream (received s more) ≡ resumed (dispatch_stream s) more
unfolding dispatch_stream
dispatch_stream-append s more =
    dispatch_stream_fuel-append (suc (length s.decode_buf)) (suc (length (s.decode_buf ++ more))) s
      more (omega arith) (omega arith)
