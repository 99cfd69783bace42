-- ===== src/Moldudp/Receive/Numbered.antt =====
-- Over any number of polls the messages that are handed out are numbered one after another.
use polaris_trade.Base.{
  ℕ, zero, suc, ◌≡◌, ◌∙◌, refl, sym, ap, subst, true, false, Option, none, some, List, [], ◌∷◌, inl,
  inr, Bool-cases, All, All-append,
}
use polaris_trade.Base.Result.{Result, ok, err, Result-cases}
use polaris_trade.Moldudp.Error.{MoldUdpError}
use polaris_trade.Moldudp.Gap.{has_pending, record_gap}
use polaris_trade.Moldudp.Ab.{AbArbiter, confirmed_gaps}
use polaris_trade.Moldudp.Receiver.{
  Held, held_bytes, frame, copied, gap, Inner, push_ready, record_confirmed, drain_confirmed_gaps,
}
use polaris_trade.Moldudp.Receiver.Decode.{process_datagram, process_next_pending}
use polaris_trade.Moldudp.Receiver.InOrder.{Emitted, Emitted-refl, Emitted-trans}
use polaris_trade.Moldudp.Receiver.Process.{
  InRange, IsReady, process_datagram-Emitted, push-Emitted,
}
use polaris_trade.Moldudp.Receive.{
  World, MoldUdpReceiver, is_none_left, tagged, queue_datagrams, poll_legs, poll_recovery, gather,
  decode_next, pump_fuel,
}
use polaris_trade.Moldudp.Receive.Kept.{process_datagram-queue_of}

abbrev pub AllInRange : List (ℕ × Held) → Type 0
AllInRange = All (λ d. InRange (held_bytes d.1))

-- A receiver that waits for a fixed sequence, with datagrams of sequences in range.
pub record IsRunning (r : Inner) : Type 0 where
  pub ready : IsReady r
  pub waiting : AllInRange r.pending_datagrams

-- From `r` to `r'` items were made ready, numbered in order.
pub record Steps (r r' : Inner) : Type 0 where
  pub emitted : Emitted r r'
  pub running : IsRunning r'
  pub same_current : r'.current ≡ r.current

Steps-trans : (r s t : Inner) → Steps r s → Steps s t → Steps r t
Steps-trans r s t a b = record {
  emitted = Emitted-trans r s t a.emitted b.emitted;
  running = b.running;
  same_current = b.same_current ∙ a.same_current;
}

-- A step that touches neither the ready items nor the ring.
Steps-still :
    (r r' : Inner)
    → IsRunning r
    → r'.ready ≡ r.ready
    → r'.reassembler ≡ r.reassembler
    → r'.seq_anchored ≡ r.seq_anchored
    → r'.current ≡ r.current
    → AllInRange r'.pending_datagrams
    → Steps r r'
Steps-still r r' v e k a c waiting = record {
  same_current = c;
  emitted = Emitted-refl r r' v.ready.valid v.ready.fits e k;
  running = record {
    ready = record {
      valid = rw k v.ready.valid;
      fits = rw k v.ready.fits;
      anchored = a ∙ v.ready.anchored;
    };
    waiting = waiting;
  };
}

Steps-refl : (r : Inner) → IsRunning r → Steps r r
Steps-refl r v = Steps-still r r v refl refl refl refl v.waiting

-- Queued datagrams.
Steps-queue :
    (r : Inner) (ds : List (ℕ × Held))
    → IsRunning r
    → AllInRange ds
    → Steps r (queue_datagrams r ds)
Steps-queue r ds v range =
    Steps-still r (queue_datagrams r ds) v refl refl refl refl
      (All-append _ r.pending_datagrams ds v.waiting range)

-- What decodes `r` decodes a receiver that differs in nothing but the datagrams that wait.
decode_first :
    (r : Inner) (rest : List (ℕ × Held)) (stream : ℕ) (datagram : Held) (now : Option ℕ)
    → IsRunning r
    → InRange (held_bytes datagram)
    → AllInRange rest
    → Steps r (process_datagram (record r { pending_datagrams = rest }) stream datagram now).1
decode_first r rest stream datagram now v range waiting =
    let r' : Inner = record r { pending_datagrams = rest } in
    let popped = Steps-still r r' v refl refl refl refl waiting in
    let kept = process_datagram-queue_of r' stream datagram now v.ready.anchored in
    let x = process_datagram-Emitted r' stream datagram now popped.running.ready range in
    record {
      same_current = ap (λ q. q.2) kept;
      emitted = Emitted-trans r r' _ popped.emitted x;
      running = record {
        ready = record {
          valid = x.valid;
          fits = x.fits;
          anchored = ap (λ q. q.1) kept ∙ v.ready.anchored;
        };
        waiting = subst AllInRange (sym (ap (λ q. q.0) kept)) waiting;
      };
    }

-- `process_next_pending`, by the datagrams that wait.
abbrev pub decoded_by : Inner → Option ℕ → List (ℕ × Held) → Inner
decoded_by r now [] = r
decoded_by r now ((stream, datagram) ∷ rest) =
    (process_datagram (record r { pending_datagrams = rest }) stream datagram now).1

pub decoded_by-process_next_pending :
    (r : Inner) (now : Option ℕ)
    → (process_next_pending r now).1 ≡ decoded_by r now r.pending_datagrams
unfolding process_next_pending
decoded_by-process_next_pending r now = by_queue r.pending_datagrams
  where
    by_queue :
        (queue : List (ℕ × Held))
        → (elim queue as (λ q. Result MoldUdpError (Unit {0}) × Inner) [
          | [] ↦ (ok tt, r)
          | (stream, datagram) ∷ rest ↦
              process_datagram (record r { pending_datagrams = rest }) stream datagram now
        ]).1
          ≡ decoded_by r now queue
    by_queue [] = refl
    by_queue ((stream, datagram) ∷ rest) = refl

decode_queue :
    (r : Inner) (now : Option ℕ) (queue : List (ℕ × Held))
    → IsRunning r
    → AllInRange queue
    → Steps r (decoded_by r now queue)
decode_queue r now [] v range = Steps-refl r v
decode_queue r now ((stream, datagram) ∷ rest) v range =
    decode_first r rest stream datagram now v range.0 range.1

Steps-decode : (r : Inner) (now : Option ℕ) → IsRunning r → Steps r (process_next_pending r now).1
Steps-decode r now v =
    subst (Steps r) (sym (decoded_by-process_next_pending r now))
      (decode_queue r now r.pending_datagrams v v.waiting)

-- A gap is an item, but no message.
Steps-gap :
    (r r' : Inner)
    → IsRunning r
    → r'.ready ≡ r.ready
    → r'.reassembler ≡ r.reassembler
    → r'.seq_anchored ≡ r.seq_anchored
    → r'.current ≡ r.current
    → r'.pending_datagrams ≡ r.pending_datagrams
    → Steps r (push_ready r' gap)
Steps-gap r r' v e k a c q =
    let x = push-Emitted r r' gap (λ n. refl) v.ready.valid v.ready.fits e k in
    record {
      same_current = c;
      emitted = x;
      running = record {
        ready = record { valid = x.valid; fits = x.fits; anchored = a ∙ v.ready.anchored };
        waiting = subst AllInRange (sym q) v.waiting;
      };
    }

Steps-confirmed : (r : Inner) (seqs : List ℕ) → IsRunning r → Steps r (record_confirmed r seqs)
unfolding record_confirmed
Steps-confirmed r [] v = Steps-refl r v
Steps-confirmed r (seq ∷ seqs) v =
    let r' : Inner = record r { gap_handler = record_gap r.gap_handler seq } in
    let one = Steps-gap r r' v refl refl refl refl refl in
    Steps-trans r (push_ready r' gap) _ one (Steps-confirmed (push_ready r' gap) seqs one.running)

Steps-drain_confirmed : (r : Inner) (now : ℕ) → IsRunning r → Steps r (drain_confirmed_gaps r now)
unfolding drain_confirmed_gaps
Steps-drain_confirmed r now v = by_arbiter r.arbiter
  where
    by_arbiter :
        (o : Option AbArbiter)
        → Steps r (elim o as (λ q. Inner) [
          | none ↦ r
          | some a ↦
              record_confirmed
                (record r { arbiter = some (confirmed_gaps a now).1 })
                (confirmed_gaps a now).0
        ])
    by_arbiter none = Steps-refl r v
    by_arbiter (some a) =
        let r' : Inner = record r { arbiter = some (confirmed_gaps a now).1 } in
        let quiet = Steps-still r r' v refl refl refl refl v.waiting in
        Steps-trans r r' _ quiet (Steps-confirmed r' (confirmed_gaps a now).0 quiet.running)

tagged-AllInRange :
    (stream : ℕ) (hold : List ℕ → Held) (frames : List (List ℕ))
    → ((bytes : List ℕ) → held_bytes (hold bytes) ≡ bytes)
    → All InRange frames
    → AllInRange (tagged stream hold frames)
tagged-AllInRange stream hold [] same range = tt
tagged-AllInRange stream hold (bytes ∷ frames) same range =
    (subst InRange (sym (same bytes)) range.0, tagged-AllInRange stream hold frames same range.1)

-- Sources whose datagrams have sequences below the last of u64.
module _ {T R C : Type 0} (world : World T R C)
    (legs_InRange : (t : T) (frames : List (List ℕ))
      → (world.recv_burst t).0 ≡ ok frames
      → All InRange frames)
    (recovery_InRange : (q : R) (frames : List (List ℕ))
      → (world.recover q).0 ≡ ok frames
      → All InRange frames) where
  poll_legs-Steps :
      (stream : ℕ) (legs : List T) (r : Inner)
      → IsRunning r
      → Steps r (poll_legs world stream legs r).2
  unfolding poll_legs
  poll_legs-Steps stream [] r v = Steps-refl r v
  poll_legs-Steps stream (leg ∷ legs) r v = elim (Result-cases (world.recv_burst leg).0) [
    | inr (x, fails) ↦ rw (fails, poll_legs) (Steps-refl r v)
    | inl (frames, got) ↦
        let ds = tagged stream frame frames in
        let queued =
          Steps-queue r ds v
            (tagged-AllInRange stream frame frames (λ b. refl) (legs_InRange leg frames got)) in
        let r' = queue_datagrams r ds in
        let rest = poll_legs-Steps (suc stream) legs r' queued.running in
        let both = Steps-trans r r' _ queued rest in
        elim (Result-cases (poll_legs world (suc stream) legs r').0) [
          | inr (x, fails) ↦ rw (got, fails, poll_legs) both
          | inl (landed, works) ↦ rw (got, works, poll_legs) both
        ]
  ]

  poll_recovery-Steps : (q : R) (r : Inner) → IsRunning r → Steps r (poll_recovery world q r).2
  unfolding poll_recovery
  poll_recovery-Steps q r v = elim (Bool-cases (has_pending r.gap_handler)) [
    | inr settled ↦ rw (settled, poll_recovery) (Steps-refl r v)
    | inl missing ↦ elim (Result-cases (world.recover q).0) [
      | inr (x, fails) ↦ rw (missing, fails, poll_recovery) (Steps-refl r v)
      | inl (frames, got) ↦
          rw (missing, got, poll_recovery)
            (Steps-queue r (tagged r.recovery_stream copied frames) v (
              tagged-AllInRange r.recovery_stream copied frames (λ b. refl)
                (recovery_InRange q frames got)))
    ]
  ]

  gather-Steps :
      (rx : MoldUdpReceiver T R C) → IsRunning rx.inner → Steps rx.inner (gather world rx).1.inner
  unfolding gather
  gather-Steps rx v =
      let polled = poll_legs world 0 rx.legs rx.inner in
      let a = poll_legs-Steps 0 rx.legs rx.inner v in
      let b =
        Steps-trans rx.inner polled.2 _ a (poll_recovery-Steps rx.recovery polled.2 a.running) in
      elim (Bool-cases (is_none_left rx.inner.pending_datagrams)) [
        | inr waits ↦ rw (waits, gather) (Steps-refl rx.inner v)
        | inl none_waits ↦ elim (Result-cases polled.0) [
          | inr (x, fails) ↦ rw (none_waits, fails, gather) a
          | inl (landed, works) ↦ elim (Result-cases (poll_recovery world rx.recovery polled.2).0) [
            | inr (x, fails) ↦ rw (none_waits, works, fails, gather) b
            | inl (recovered, too) ↦ rw (none_waits, works, too, gather) b
          ]
        ]
      ]

  timed-Steps :
      (rx : MoldUdpReceiver T R C) (t : ℕ) (clock : C) (d : Result MoldUdpError (Unit {0}))
      → Steps rx.inner (process_next_pending rx.inner (some t)).1
      → Steps rx.inner
          (elim d as (λ q. Result MoldUdpError (Unit {0}) × MoldUdpReceiver T R C) [
            | err e ↦ (
              err e,
              record rx { inner = (process_next_pending rx.inner (some t)).1; clock = clock },
            )
            | ok u ↦ (
              ok u,
              record rx {
                inner = drain_confirmed_gaps (process_next_pending rx.inner (some t)).1 t;
                clock = clock;
              },
            )
          ]).1.inner
  timed-Steps rx t clock (err e) s = s
  timed-Steps rx t clock (ok u) s = Steps-trans rx.inner _ _ s (Steps-drain_confirmed _ t s.running)

  decode_next-Steps :
      (rx : MoldUdpReceiver T R C)
      → IsRunning rx.inner
      → Steps rx.inner (decode_next world rx).1.inner
  unfolding decode_next
  decode_next-Steps rx v = by_arbiter rx.inner.arbiter
    where
      t : ℕ
      t = (world.now rx.clock).0

      by_arbiter :
          (o : Option AbArbiter)
          → Steps rx.inner
              (elim o as (λ q. Result MoldUdpError (Unit {0}) × MoldUdpReceiver T R C) [
                | none ↦ (
                  (process_next_pending rx.inner none).0,
                  record rx { inner = (process_next_pending rx.inner none).1 },
                )
                | some a ↦
                    elim (process_next_pending rx.inner (some t)).0
                      as (λ q. Result MoldUdpError (Unit {0}) × MoldUdpReceiver T R C) [
                        | err e ↦ (
                          err e,
                          record rx {
                            inner = (process_next_pending rx.inner (some t)).1;
                            clock = (world.now rx.clock).1;
                          },
                        )
                        | ok u ↦ (
                          ok u,
                          record rx {
                            inner =
                                drain_confirmed_gaps (process_next_pending rx.inner (some t)).1 t;
                            clock = (world.now rx.clock).1;
                          },
                        )
                      ]
              ]).1.inner
      by_arbiter none = Steps-decode rx.inner none v
      by_arbiter (some a) =
          timed-Steps rx t (world.now rx.clock).1 (process_next_pending rx.inner (some t)).0
            (Steps-decode rx.inner (some t) v)

  pub pump_fuel-Steps :
      (fuel : ℕ) (rx : MoldUdpReceiver T R C)
      → IsRunning rx.inner
      → Steps rx.inner (pump_fuel world fuel rx).1.inner
  unfolding pump_fuel
  pump_fuel-Steps zero rx v = Steps-refl rx.inner v
  pump_fuel-Steps (suc fuel) rx v =
      let a = gather-Steps rx v in
      let rx₁ = (gather world rx).1 in
      let b = Steps-trans rx.inner rx₁.inner _ a (decode_next-Steps rx₁ a.running) in
      let rx₂ = (decode_next world rx₁).1 in
      elim (Bool-cases (is_none_left rx.inner.ready)) [
        | inr some_ready ↦ rw (some_ready, pump_fuel) (Steps-refl rx.inner v)
        | inl none_ready ↦ elim (Result-cases (gather world rx).0) [
          | inr (x, fails) ↦ rw (none_ready, fails, pump_fuel) a
          | inl (false, dry) ↦ rw (none_ready, dry, pump_fuel) a
          | inl (true, landed) ↦ elim (Result-cases (decode_next world rx₁).0) [
            | inr (x, fails) ↦ rw (none_ready, landed, fails, pump_fuel) b
            | inl (u, works) ↦
                rw (none_ready, landed, works, pump_fuel)
                  (Steps-trans rx.inner rx₂.inner _ b (pump_fuel-Steps fuel rx₂ b.running))
          ]
        ]
      ]
