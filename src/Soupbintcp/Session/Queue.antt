-- ===== src/Soupbintcp/Session/Queue.antt =====
-- The outbound buffer: what is queued reaches the wire once, in order.
use polaris_trade.Base.{
  ℕ, zero, suc, ◌≤◌, ◌<◌, ◌≡◌, ◌⊎◌, ◌∙◌, refl, ap, Bool, true, false, List, [], ◌∷◌, ◌++◌, arith,
  ltb, ◌==◌, if◌then◌else◌, length, take, drop, take-append-drop, length-drop, Bool-cases, inl, inr,
  u16_max,
}
use mathlib.Core.List.{append_assoc, append-nil}
use polaris_trade.Base.Result.{Result, ok, err, Result-cases}
use polaris_trade.Transport.Error.{TransportError}
use polaris_trade.Soupbintcp.Error.{PacketType, SoupBinError, transport, frame_too_large}
use polaris_trade.Soupbintcp.Wire.RoundTrip.{encode_packet}
use polaris_trade.Soupbintcp.Session.{Session, is_empty, queue, advance_out, flush_fuel, flush}

-- `queue` appends exactly one whole packet behind what is queued if its payload has at most 65534 bytes;
-- of a longer one it answers the size and the limit, and changes nothing.
pub queue_lem :
    (s : Session) (ty : PacketType) (payload : List ℕ)
    → queue s ty payload ≡ (
        if ltb (length payload) u16_max
        then (ok tt, record s { out = s.out ++ encode_packet ty payload })
        else (err (frame_too_large (length payload) 65534), s))
unfolding queue
queue_lem s ty payload = ground arith

abbrev pub is_ok : Result SoupBinError (Unit {0}) → Bool
is_ok (ok u) = true
is_ok (err e) = false

is_empty-true : (xs : List ℕ) → is_empty xs ≡ true → xs ≡ []
is_empty-true [] e = refl
is_empty-true (x ∷ xs) e = absurd (cc)

err-ne_ok : (e : SoupBinError) → err e ≡ ok (tt {0}) → ⊥
err-ne_ok e p = cc p

-- A transport whose `try_send` writes the first `n` bytes it is given when it answers `n`, and none when
-- it fails; `wire` is what it has written.
module _ {T : Type 0} (try_send : T → List ℕ → Result TransportError ℕ × T) (wire : T → List ℕ)
    (writes : (t : T) (buf : List ℕ) (n : ℕ)
      → (try_send t buf).0 ≡ ok n
      → (n ≤ length buf) × (wire (try_send t buf).1 ≡ wire t ++ take n buf))
    (fails : (t : T) (buf : List ℕ) (e : TransportError)
      → (try_send t buf).0 ≡ err e
      → wire (try_send t buf).1 ≡ wire t) where
  flush_fuel-wire :
      (fuel : ℕ) (t : T) (s : Session) (now : ℕ)
      → let (answer, s', t') = flush_fuel try_send fuel t s now in
        wire t' ++ s'.out ≡ wire t ++ s.out
  unfolding flush_fuel advance_out
  flush_fuel-wire zero t s now = refl
  flush_fuel-wire (suc fuel) t s now = elim (Bool-cases (is_empty s.out)) [
    | inl done ↦ rw (done, flush_fuel) refl
    | inr more ↦ elim (Result-cases (try_send t s.out).0) [
      | inr (e, failed) ↦
          rw (more, failed, flush_fuel) (ap (λ w. w ++ s.out) (fails t s.out e failed))
      | inl (n, wrote) ↦
          let w = (writes t s.out n wrote).1 in
          elim (Bool-cases (n == 0)) [
            | inl full ↦
                rw (more, wrote, full, flush_fuel)
                  (let zero_bytes : n ≡ 0 = ground arith in
                    ap (λ v. v ++ s.out)
                      (w ∙ ap (λ (k : ℕ). wire t ++ take k s.out) zero_bytes ∙ append-nil (wire t)))
            | inr some_bytes ↦
                rw (more, wrote, some_bytes, flush_fuel)
                  (flush_fuel-wire fuel (try_send t s.out).1 (advance_out s n now) now
                    ∙ ap (λ v. v ++ drop n s.out) w
                    ∙ append_assoc (wire t) (take n s.out) (drop n s.out)
                    ∙ ap (λ v. wire t ++ v) (take-append-drop n s.out))
          ]
    ]
  ]

  flush_fuel-stops :
      (fuel : ℕ) (t : T) (s : Session) (now : ℕ)
      → length s.out < fuel
      → (flush_fuel try_send fuel t s now).0 ≡ ok tt
      → let (answer, s', t') = flush_fuel try_send fuel t s now in
        (s'.out ≡ []) ⊎ ((u : T) × ((try_send u s'.out).0 ≡ ok 0) × (t' ≡ (try_send u s'.out).1))
  unfolding flush_fuel advance_out
  flush_fuel-stops zero t s now lt e = absurd (omega arith)
  flush_fuel-stops (suc fuel) t s now lt e = elim (Bool-cases (is_empty s.out)) [
    | inl done ↦ rw (done, flush_fuel) (inl (is_empty-true s.out done))
    | inr more ↦ elim (Result-cases (try_send t s.out).0) [
      | inr (x, failed) ↦ absurd (err-ne_ok (transport x) (rw (more, failed, flush_fuel) at e))
      | inl (n, wrote) ↦ elim (Bool-cases (n == 0)) [
        | inl full ↦
            let zero_bytes : n ≡ 0 = ground arith in
            rw (more, wrote, full, flush_fuel) (inr (t, wrote ∙ ap ok zero_bytes, refl))
        | inr some_bytes ↦
            rw (more, wrote, some_bytes, flush_fuel)
              (flush_fuel-stops fuel (try_send t s.out).1 (advance_out s n now) now
                (ground (arith, length-drop n s.out, (writes t s.out n wrote).0))
                (rw (more, wrote, some_bytes, flush_fuel) at e))
      ]
    ]
  ]

  -- `flush` writes queued bytes once each, in order and none besides, whatever it answers: what the wire
  -- has got and what is still queued make up, together, what they made up before. If it answers without
  -- an error, then nothing is queued any more, or the socket has last accepted nothing.
  pub flush_lem :
      (t : T) (s : Session) (now : ℕ)
      → let (answer, s', t') = flush try_send t s now in
        (wire t' ++ s'.out ≡ wire t ++ s.out)
        × ((is_ok answer ≡ false)
            ⊎ (s'.out ≡ [])
            ⊎ ((u : T) × ((try_send u s'.out).0 ≡ ok 0) × (t' ≡ (try_send u s'.out).1)))
  unfolding flush
  flush_lem t s now = (
    flush_fuel-wire (suc (length s.out)) t s now,
    elim (Result-cases (flush_fuel try_send (suc (length s.out)) t s now).0) [
      | inl (tt, e) ↦ inr (flush_fuel-stops (suc (length s.out)) t s now (omega arith) e)
      | inr (x, e) ↦ inl (ap is_ok e)
    ],
  )
