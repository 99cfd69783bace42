-- ===== src/Moldudp/Receive/Ends.antt =====
-- The loop of `pump` on sources that have finitely many datagrams: that it ends, and why.
use polaris_trade.Base.{
  ℕ, zero, suc, ◌+◌, ◌≤◌, ◌<◌, ◌≡◌, ◌⊎◌, ◌∙◌, refl, sym, ap, subst, Bool, true, false, none, some,
  List, [], ◌∷◌, inl, inr, arith, length, Bool-cases, Option-cases, leb,
}
use polaris_trade.Base.Result.{Result, ok, err, Result-cases}
use polaris_trade.Base.Weigh.{weigh}
use polaris_trade.Moldudp.Error.{MoldUdpError, transport, gap_detected}
use polaris_trade.Moldudp.Gap.{has_pending}
use polaris_trade.Moldudp.Receiver.{
  ReadyItem, inline, view, event, gap, backing_bytes, held_bytes, Held, frame, copied, Inner,
}
use polaris_trade.Moldudp.Receiver.Decode.{process_next_pending}
use polaris_trade.Moldudp.Receive.{
  World, MoldUdpReceiver, is_none_left, tagged, queue_datagrams, poll_legs, poll_recovery, gather,
  decode_next, pump_fuel, PollAnswer, failed, outcome, panicked, nothing, answer_of, hand_out,
  send_requests, poll_receiver,
}
use polaris_trade.Moldudp.Receiver.Outcome.{
  MoldUdpOutcome, event_outcome, checked_slice, yield_item, retire_current,
}
use polaris_trade.Moldudp.Receive.Polls.{OutOfRange, yielded}
use polaris_trade.Moldudp.Receive.Waiting.{
  waiting, process_next_pending-waiting, drain_confirmed_gaps-waiting, queue_datagrams-waiting,
  frames_cases,
}

-- An answer of `poll` that left `r`: an outcome, an error, or the panic of a slice out of range.
abbrev pub Gives : PollAnswer → Inner → Type 0
Gives answer r =
    ((o : MoldUdpOutcome) × (answer ≡ outcome o))
    ⊎ (((e : MoldUdpError) × (answer ≡ failed e))
        ⊎ ((answer ≡ panicked) × ((n : ℕ) × OutOfRange n r)))

module _ {T R C : Type 0} (world : World T R C) where
  -- Every leg has given nothing.
  abbrev pub Silent : List T → List T → Type 0
  Silent [] [] = Unit {0}
  Silent [] (t ∷ ts) = ⊥
  Silent (t ∷ ts) [] = ⊥
  Silent (t ∷ ts) (t' ∷ ts') = (world.recv_burst t ≡ (ok [], t')) × Silent ts ts'

  -- The sources have nothing: the legs, and the requester if a gap is pending; and no datagram waits.
  pub record IsDry (rx : MoldUdpReceiver T R C) : Type 0 where
    pub legs_before : List T
    pub silent : Silent legs_before rx.legs
    pub none_waiting : waiting rx.inner ≡ 0
    pub quiet :
        (has_pending rx.inner.gap_handler ≡ false)
        ⊎ ((q : R) × (world.recover q ≡ (ok [], rx.recovery)))

  module _ (left : T → ℕ) (owed : R → ℕ)
      (legs_finite : (t : T) (frames : List (List ℕ))
        → (world.recv_burst t).0 ≡ ok frames
        → length frames + left (world.recv_burst t).1 ≤ left t)
      (recovery_finite : (q : R) (frames : List (List ℕ))
        → (world.recover q).0 ≡ ok frames
        → length frames + owed (world.recover q).1 ≤ owed q) where
    -- What a pass over sources that hold `before` datagrams has done.
    data Landed (before : ℕ) (r : Inner) (answer : Result MoldUdpError Bool) (after : ℕ)
        (r' : Inner) (Nothing : Type 0) : Type 0 where
      broken : (e : MoldUdpError) → answer ≡ err e → Landed before r answer after r' Nothing
      idle :
          answer ≡ ok false
          → waiting r' ≡ waiting r
          → after ≤ before
          → Nothing
          → Landed before r answer after r' Nothing
      some_landed :
          answer ≡ ok true
          → waiting r < waiting r'
          → waiting r' + after ≤ waiting r + before
          → Landed before r answer after r' Nothing

    poll_legs-Landed :
        (stream : ℕ) (legs : List T) (r : Inner)
        → let (answer, legs', r') = poll_legs world stream legs r in
          Landed (weigh left legs) r answer (weigh left legs') r' (Silent legs legs')
          × (length legs' ≡ length legs)
    unfolding poll_legs
    poll_legs-Landed stream [] r = (idle refl refl (omega arith) tt, refl)
    poll_legs-Landed stream (leg ∷ legs) r = elim (Result-cases (world.recv_burst leg).0) [
      | inr (x, e) ↦ rw (e, poll_legs) (broken (transport x) refl, refl)
      | inl (frames, e) ↦
          let leg' = (world.recv_burst leg).1 in
          let r₁ = queue_datagrams r (tagged stream frame frames) in
          let queued = queue_datagrams-waiting r stream frame frames in
          let fewer = legs_finite leg frames e in
          let (rest, same) = poll_legs-Landed (suc stream) legs r₁ in
          elim rest [
            | broken x q ↦ rw (e, poll_legs) (rw q (broken x refl, ap suc same))
            | idle q still kept silent ↦ elim (frames_cases frames) [
              | inl (nil, zero_long, b) ↦
                  let head : world.recv_burst leg ≡ (ok [], leg') =
                    ap (λ f. (f, leg')) e ∙ ap (λ (fs : List (List ℕ)). (ok fs, leg')) nil in
                  rw (e, poll_legs)
                    (rw (q, b) (idle refl (omega arith) (omega arith) (head, silent), ap suc same))
              | inr (many, b) ↦
                  rw (e, poll_legs)
                    (rw (q, b) (some_landed refl (omega arith) (omega arith), ap suc same))
            ]
            | some_landed q more kept ↦ elim (frames_cases frames) [
              | inl (nil, zero_long, b) ↦
                  rw (e, poll_legs)
                    (rw (q, b) (some_landed refl (omega arith) (omega arith), ap suc same))
              | inr (many, b) ↦
                  rw (e, poll_legs)
                    (rw (q, b) (some_landed refl (omega arith) (omega arith), ap suc same))
            ]
          ]
    ]

    abbrev Quiet : R → Inner → Type 0
    Quiet recovery r =
        (has_pending r.gap_handler ≡ false) ⊎ ((q : R) × (world.recover q ≡ (ok [], recovery)))

    poll_recovery-Landed :
        (q : R) (r : Inner)
        → let (answer, q', r') = poll_recovery world q r in
          Landed (owed q) r answer (owed q') r' (Quiet q' r')
    unfolding poll_recovery
    poll_recovery-Landed q r = elim (Bool-cases (has_pending r.gap_handler)) [
      | inr none_pending ↦
          rw (none_pending, poll_recovery) (idle refl refl (omega arith) (inl none_pending))
      | inl pending ↦ elim (Result-cases (world.recover q).0) [
        | inr (x, e) ↦ rw (pending, e, poll_recovery) (broken (transport x) refl)
        | inl (frames, e) ↦
            let queued = queue_datagrams-waiting r r.recovery_stream copied frames in
            let fewer = recovery_finite q frames e in
            elim (frames_cases frames) [
              | inl (nil, zero_long, b) ↦
                  let dry : world.recover q ≡ (ok [], (world.recover q).1) =
                    ap (λ f. (f, (world.recover q).1)) e
                    ∙ ap (λ (fs : List (List ℕ)). (ok fs, (world.recover q).1)) nil in
                  rw (pending, e, b, poll_recovery)
                    (idle refl (omega arith) (omega arith) (inr (q, dry)))
              | inr (many, b) ↦
                  rw (pending, e, b, poll_recovery) (some_landed refl (omega arith) (omega arith))
            ]
      ]
    ]

    -- The datagrams that wait and those that the sources still hold.
    abbrev pub total : MoldUdpReceiver T R C → ℕ
    total rx = waiting rx.inner + (weigh left rx.legs + owed rx.recovery)

    -- What `gather` did.
    data Gathered (rx : MoldUdpReceiver T R C) (answer : Result MoldUdpError Bool)
        (rx' : MoldUdpReceiver T R C) : Type 0 where
      refused : (e : MoldUdpError) → answer ≡ err e → Gathered rx answer rx'
      dry : answer ≡ ok false → IsDry rx' → Gathered rx answer rx'
      found :
          answer ≡ ok true → 0 < waiting rx'.inner → total rx' ≤ total rx → Gathered rx answer rx'

    waiting_cases :
        (ds : List (ℕ × Held))
        → ((length ds ≡ 0) × (is_none_left ds ≡ true))
          ⊎ ((0 < length ds) × (is_none_left ds ≡ false))
    waiting_cases [] = inl (refl, refl)
    waiting_cases (d ∷ ds) = inr (omega arith, refl)

    gather-Gathered :
        (rx : MoldUdpReceiver T R C)
        → let (answer, rx') = gather world rx in
          Gathered rx answer rx' × (length rx'.legs ≡ length rx.legs)
    unfolding gather
    gather-Gathered rx =
        let (polled, same) = poll_legs-Landed 0 rx.legs rx.inner in
        let (landed, legs', r₁) = poll_legs world 0 rx.legs rx.inner in
        let recovered = poll_recovery-Landed rx.recovery r₁ in
        elim (waiting_cases rx.inner.pending_datagrams) [
          | inr (many, b) ↦ rw (b, gather) (found refl many (omega arith), refl)
          | inl (zero_long, b) ↦ elim polled [
            | broken x q ↦ rw (b, q, gather) (refused x refl, same)
            | idle q still kept silent ↦ elim recovered [
              | broken x p ↦ rw (b, q, gather) (rw p (refused x refl, same))
              | idle p still' kept' quiet ↦
                  rw (b, q, gather)
                    (rw p (
                      dry refl (record {
                        legs_before = rx.legs;
                        silent = silent;
                        none_waiting = omega arith;
                        quiet = quiet;
                      }),
                      same,
                    ))
              | some_landed p more kept' ↦
                  rw (b, q, gather) (rw p (found refl (omega arith) (omega arith), same))
            ]
            | some_landed q more kept ↦ elim recovered [
              | broken x p ↦ rw (b, q, gather) (rw p (refused x refl, same))
              | idle p still' kept' quiet ↦
                  rw (b, q, gather) (rw p (found refl (omega arith) (omega arith), same))
              | some_landed p more' kept' ↦
                  rw (b, q, gather) (rw p (found refl (omega arith) (omega arith), same))
            ]
          ]
        ]

    decode_next-total :
        (rx : MoldUdpReceiver T R C)
        → 0 < waiting rx.inner
        → let rx' = (decode_next world rx).1 in
          (total rx' < total rx) × (length rx'.legs ≡ length rx.legs)
    unfolding decode_next
    decode_next-total rx some_wait =
        let t = (world.now rx.clock).0 in
        let plain = process_next_pending-waiting rx.inner none in
        let timed = process_next_pending-waiting rx.inner (some t) in
        elim (Option-cases rx.inner.arbiter) [
          | inl e ↦ rw (e, decode_next) (omega arith, refl)
          | inr (a, e) ↦ elim (Result-cases (process_next_pending rx.inner (some t)).0) [
            | inr (x, bad) ↦ rw (e, bad, decode_next) (omega arith, refl)
            | inl (u, good) ↦
                let drained =
                  drain_confirmed_gaps-waiting (process_next_pending rx.inner (some t)).1 t in
                rw (e, good, decode_next) (omega arith, refl)
          ]
        ]

    pump_fuel_ends :
        (fuel : ℕ) (rx : MoldUdpReceiver T R C)
        → total rx < fuel
        → let (answer, rx') = pump_fuel world fuel rx in
          (((e : MoldUdpError) × (answer ≡ err e))
            ⊎ ((answer ≡ ok tt) × ((is_none_left rx'.inner.ready ≡ false) ⊎ IsDry rx')))
          × (length rx'.legs ≡ length rx.legs)
    unfolding pump_fuel
    pump_fuel_ends zero rx enough = absurd (omega arith)
    pump_fuel_ends (suc fuel) rx enough =
        let rx₁ = (gather world rx).1 in
        let (gathered, same) = gather-Gathered rx in
        elim (Bool-cases (is_none_left rx.inner.ready)) [
          | inr some_ready ↦ rw (some_ready, pump_fuel) (inr (refl, inl some_ready), refl)
          | inl none_ready ↦ elim gathered [
            | refused e q ↦ rw (none_ready, q, pump_fuel) (inl (e, refl), same)
            | dry q is_dry ↦ rw (none_ready, q, pump_fuel) (inr (refl, inr is_dry), same)
            | found q waits less ↦
                let rx₂ = (decode_next world rx₁).1 in
                let (fewer, same') = decode_next-total rx₁ waits in
                elim (Result-cases (decode_next world rx₁).0) [
                  | inr (e, bad) ↦ rw (none_ready, q, bad, pump_fuel) (inl (e, refl), same' ∙ same)
                  | inl (u, good) ↦
                      let (ended, kept) = pump_fuel_ends fuel rx₂ (omega arith) in
                      rw (none_ready, q, good, pump_fuel) (ended, kept ∙ (same' ∙ same))
                ]
          ]
        ]

    yield_item-Gives :
        (r : Inner) (item : ReadyItem)
        → Gives (answer_of world (yield_item r item).0) (record r { current = some item })
    unfolding yield_item checked_slice
    yield_item-Gives r (inline s t offset len) =
        elim (Bool-cases (leb (offset + len) (length (backing_bytes r.backing)))) [
          | inl fits ↦ rw (fits, yield_item, checked_slice) (inl (_, refl))
          | inr over ↦
              rw (over, yield_item, checked_slice)
                (inr (inr (refl, (s, (refl, ground (arith, over))))))
        ]
    yield_item-Gives r (view v s t) =
        elim (Bool-cases (leb (v.offset + v.len) (length (held_bytes v.datagram)))) [
          | inl fits ↦ rw (fits, yield_item, checked_slice) (inl (_, refl))
          | inr over ↦
              rw (over, yield_item, checked_slice)
                (inr (inr (refl, (s, (refl, ground (arith, over))))))
        ]
    yield_item-Gives r (event ev) = inl (event_outcome ev, refl)
    yield_item-Gives r gap = inr (inl (gap_detected, refl))

    hand_out-Gives :
        (rx : MoldUdpReceiver T R C) (items : List ReadyItem)
        → let (answer, rx') = hand_out world rx items in
          Gives answer rx'.inner ⊎ ((answer ≡ nothing) × (rx' ≡ rx) × (is_none_left items ≡ true))
    unfolding hand_out
    hand_out-Gives rx [] = inr (refl, refl, refl)
    hand_out-Gives rx (item ∷ rest) =
        let r : Inner = record rx.inner { ready = rest } in
        inl (
          subst (Gives (answer_of world (yield_item r item).0)) (sym (yielded r item))
            (yield_item-Gives r item))

    hand_out-legs :
        (rx : MoldUdpReceiver T R C) (items : List ReadyItem)
        → (hand_out world rx items).1.legs ≡ rx.legs
    unfolding hand_out
    hand_out-legs rx [] = refl
    hand_out-legs rx (item ∷ rest) = refl

    send_requests-legs : (rx : MoldUdpReceiver T R C) → (send_requests world rx).legs ≡ rx.legs
    unfolding send_requests
    send_requests-legs rx = elim (Option-cases rx.inner.session) [
      | inl e ↦ rw (e, send_requests) refl
      | inr (session, e) ↦ elim (Bool-cases (has_pending rx.inner.gap_handler)) [
        | inl due ↦ rw (e, due, send_requests) refl
        | inr settled ↦ rw (e, settled, send_requests) refl
      ]
    ]

    -- On legs and a recovery that hold finitely many datagrams, and with a round for each of those and of the datagrams
    -- that wait, and one more, `poll` ends: it answers an outcome or an error, or it panics on a message whose bytes lie
    -- outside of what holds them, or else it answers that there is nothing and has emptied every source. Then no
    -- datagram waits, every leg has given nothing when it was polled last, and so has the requester if a gap is
    -- pending. In each case the receiver keeps all its legs.
    pub poll_receiver_lem :
        (fuel : ℕ) (rx : MoldUdpReceiver T R C)
        → total (send_requests world (record rx { inner = retire_current rx.inner })) < fuel
        → let (answer, rx') = poll_receiver world fuel rx in
          (Gives answer rx'.inner ⊎ ((answer ≡ nothing) × IsDry rx'))
          × (length rx'.legs ≡ length rx.legs)
    unfolding poll_receiver
    poll_receiver_lem fuel rx enough =
        let start = send_requests world (record rx { inner = retire_current rx.inner }) in
        let rx₁ = (pump_fuel world fuel start).1 in
        let (ended, kept) = pump_fuel_ends fuel start enough in
        let same : length rx₁.legs ≡ length rx.legs =
          kept ∙ ap length (send_requests-legs (record rx { inner = retire_current rx.inner })) in
        elim ended [
          | inl (e, failing) ↦ rw (failing, poll_receiver) (inl (inr (inl (e, refl))), same)
          | inr (works, why) ↦
              let handed = ap length (hand_out-legs rx₁ rx₁.inner.ready) ∙ same in
              elim (hand_out-Gives rx₁ rx₁.inner.ready) [
                | inl gives ↦ rw (works, poll_receiver) (inl gives, handed)
                | inr (none_given, still, no_items) ↦ elim why [
                  | inl items ↦ absurd (cc (items, no_items))
                  | inr is_dry ↦
                      rw (works, poll_receiver)
                        (inr (none_given, subst IsDry (sym still) is_dry), handed)
                ]
              ]
        ]
