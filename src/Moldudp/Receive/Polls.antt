-- ===== src/Moldudp/Receive/Polls.antt =====
-- Polls, one after another: the items that they hand out.
use polaris_trade.Base.{
  ℕ, ◌+◌, ◌%◌, ◌^◌, u64_max, ◌≡◌, ◌∙◌, refl, sym, ap, subst, Option, none, some, List, [], ◌∷◌,
  ◌==◌, arith, leb, length, ◌<◌, if◌then◌else◌, inl, inr, Bool-cases, Option-cases, All,
}
use polaris_trade.Base.Result.{ok, Result-cases}
use polaris_trade.Moldudp.Gap.{has_pending}
use polaris_trade.Moldudp.Receiver.{
  held_bytes, ReadyItem, inline, view, event, gap, Backing, backing_bytes, Inner,
}
use polaris_trade.Moldudp.Receiver.Outcome.{
  release_inline, retire_current, checked_slice, yield_item, frame_outcome, owned_outcome,
  event_outcome,
}
use polaris_trade.Moldudp.Receiver.InOrder.{Emits, Emits-append, expected}
use polaris_trade.Moldudp.Receiver.Process.{InRange}
use polaris_trade.Moldudp.Receive.{
  World, MoldUdpReceiver, pump_fuel, send_requests, hand_out, poll_receiver, PollAnswer, failed,
  outcome, nothing, panicked, answer_of,
}
use polaris_trade.Moldudp.Receive.Numbered.{AllInRange, IsRunning, Steps, pump_fuel-Steps}

-- The message that the caller was to have has number `n`, and its bytes lie outside the datagram that it names.
abbrev pub OutOfRange : ℕ → Inner → Type 0
OutOfRange n r = elim r.current [
  | none ↦ ⊥
  | some item ↦ elim item [
    | inline s t offset len ↦ (s ≡ n) × (length (backing_bytes r.backing) < offset + len)
    | view v s t ↦ (s ≡ n) × (length (held_bytes v.datagram) < v.offset + v.len)
    | event ev ↦ ⊥
    | gap ↦ ⊥
  ]
]

-- What one answer does to the number of the next message, `n`, at a receiver `r`.
abbrev pub Numbers : ℕ → PollAnswer → ℕ → Inner → Type 0
Numbers n (failed e) n' r = n ≡ n'
Numbers n nothing n' r = n ≡ n'
Numbers n (outcome (frame_outcome f)) n' r = (f.sequence ≡ n) × (n + 1 ≡ n')
Numbers n (outcome (owned_outcome f)) n' r = (f.sequence ≡ n) × (n + 1 ≡ n')
Numbers n (outcome (event_outcome ev)) n' r = n ≡ n'
Numbers n panicked n' r = OutOfRange n r

-- The frames among the answers are numbered from `n` on, one after the other, and so are the messages that are ready
-- behind them at `r`, up to the expected sequence. A panic is the last answer, on the next message in turn.
abbrev pub Numbered : ℕ → List PollAnswer → Inner → Type 0
Numbered n [] r = Emits n r.ready (expected r)
Numbered n (failed e ∷ answers) r = Numbered n answers r
Numbered n (nothing ∷ answers) r = Numbered n answers r
Numbered n (outcome (frame_outcome f) ∷ answers) r = (f.sequence ≡ n) × Numbered (n + 1) answers r
Numbered n (outcome (owned_outcome f) ∷ answers) r = (f.sequence ≡ n) × Numbered (n + 1) answers r
Numbered n (outcome (event_outcome ev) ∷ answers) r = Numbered n answers r
Numbered n (panicked ∷ answers) r = OutOfRange n r × (answers ≡ [])

module _ {T R C : Type 0} (world : World T R C) where
  -- Polls, each with fuel of its own, until one panics: their answers.
  abbrev pub poll_all : MoldUdpReceiver T R C → List ℕ → List PollAnswer × MoldUdpReceiver T R C
  poll_all rx [] = ([], rx)
  poll_all rx (fuel ∷ fuels) =
      let (answer, rx₁) = poll_receiver world fuel rx in
      let (answers, rx₂) = poll_all rx₁ fuels in
      elim answer [
        | panicked ↦ (panicked ∷ [], rx₁)
        | failed e ↦ (failed e ∷ answers, rx₂)
        | outcome o ↦ (outcome o ∷ answers, rx₂)
        | nothing ↦ (nothing ∷ answers, rx₂)
      ]

-- Two receivers that differ in nothing that matters to order.
record Alike (r r' : Inner) : Type 0 where
  same_ready : r'.ready ≡ r.ready
  same_ring : r'.reassembler ≡ r.reassembler
  same_anchored : r'.seq_anchored ≡ r.seq_anchored
  same_pending : r'.pending_datagrams ≡ r.pending_datagrams

Alike-IsRunning : (r r' : Inner) → Alike r r' → IsRunning r → IsRunning r'
Alike-IsRunning r r' a v = record {
  ready = record {
    valid = rw a.same_ring v.ready.valid;
    fits = rw a.same_ring v.ready.fits;
    anchored = a.same_anchored ∙ v.ready.anchored;
  };
  waiting = subst AllInRange (sym a.same_pending) v.waiting;
}

Alike-plain :
    (r : Inner) {current : Option ReadyItem} {inline_pending : ℕ} {backing : Backing}
    → Alike r (record r { current = current; inline_pending = inline_pending; backing = backing })
Alike-plain r = record {
  same_ready = refl;
  same_ring = refl;
  same_anchored = refl;
  same_pending = refl;
}

released : (r : Inner) → Alike r (release_inline r) × ((release_inline r).current ≡ r.current)
unfolding release_inline
released r = elim (Bool-cases ((r.inline_pending + u64_max) % 2 ^ 64 == 0)) [
  | inl last ↦ rw (last, release_inline) (Alike-plain r, refl)
  | inr more ↦ rw (more, release_inline) (Alike-plain r, refl)
]

retired : (r : Inner) → Alike r (retire_current r) × ((retire_current r).current ≡ none)
unfolding retire_current
retired r = by_current r.current
  where
    r' : Inner
    r' = record r { current = none }

    by_current :
        (c : Option ReadyItem)
        → let x = elim c as (λ q. Inner) [ some (inline s t o n) ↦ release_inline r' | _ ↦ r' ] in
          Alike r x × (x.current ≡ none)
    by_current none = (Alike-plain r, refl)
    by_current (some (inline s t o n)) =
        let (alike, same) = released r' in
        (
          record {
            same_ready = alike.same_ready;
            same_ring = alike.same_ring;
            same_anchored = alike.same_anchored;
            same_pending = alike.same_pending;
          },
          same,
        )
    by_current (some (view v s t)) = (Alike-plain r, refl)
    by_current (some (event ev)) = (Alike-plain r, refl)
    by_current (some gap) = (Alike-plain r, refl)

pub yielded :
    (r : Inner) (item : ReadyItem) → (yield_item r item).1 ≡ record r { current = some item }
unfolding yield_item
yielded r (inline s t offset len) =
    elim (Option-cases (checked_slice (backing_bytes r.backing) offset len)) [
      | inl e ↦ rw (e, yield_item) refl
      | inr (p, e) ↦ rw (e, yield_item) refl
    ]
yielded r (view v s t) =
    elim (Option-cases (checked_slice (held_bytes v.datagram) v.offset v.len)) [
      | inl e ↦ rw (e, yield_item) refl
      | inr (p, e) ↦ rw (e, yield_item) refl
    ]
yielded r (event ev) = refl
yielded r gap = refl

-- The answer for an item that is next in turn.
yield_item-Numbers :
    {T R C : Type 0} (world : World T R C) (r : Inner) (n c : ℕ) (item : ReadyItem)
    (rest : List ReadyItem)
    → Emits n (item ∷ rest) c
    → (n' : ℕ) × Numbers n
        (answer_of world (yield_item r item).0)
        n'
        (record r { current = some item })
      × Emits n' rest c
unfolding yield_item checked_slice
yield_item-Numbers world r n c (inline s t offset len) rest h =
    elim (Bool-cases (leb (offset + len) (length (backing_bytes r.backing)))) [
      | inl fits ↦ (n + 1, rw (fits, yield_item, checked_slice) (h.0, refl), h.1)
      | inr over ↦ (n + 1, rw (over, yield_item, checked_slice) (h.0, ground (arith, over)), h.1)
    ]
yield_item-Numbers world r n c (view v s t) rest h =
    elim (Bool-cases (leb (v.offset + v.len) (length (held_bytes v.datagram)))) [
      | inl fits ↦ (n + 1, rw (fits, yield_item, checked_slice) (h.0, refl), h.1)
      | inr over ↦ (n + 1, rw (over, yield_item, checked_slice) (h.0, ground (arith, over)), h.1)
    ]
yield_item-Numbers world r n c (event ev) rest h = (n, refl, h)
yield_item-Numbers world r n c gap rest h = (n, refl, h)

module _ {T R C : Type 0} (world : World T R C)
    (legs_InRange : (t : T) (frames : List (List ℕ))
      → (world.recv_burst t).0 ≡ ok frames
      → All InRange frames)
    (recovery_InRange : (q : R) (frames : List (List ℕ))
      → (world.recover q).0 ≡ ok frames
      → All InRange frames) where
  sent-inner : (rx : MoldUdpReceiver T R C) → (send_requests world rx).inner ≡ rx.inner
  unfolding send_requests
  sent-inner rx = by_session rx.inner.session
    where
      by_session :
          (o : Option (List ℕ))
          → (elim o as (λ q. MoldUdpReceiver T R C) [
            | none ↦ rx
            | some session ↦
                if has_pending rx.inner.gap_handler
                then record rx {
                  recovery = world.send_due rx.recovery session rx.inner.gap_handler;
                }
                else rx
          ]).inner
            ≡ rx.inner
      by_session none = refl
      by_session (some session) = elim (Bool-cases (has_pending rx.inner.gap_handler)) [
        | inl due ↦ rw due refl
        | inr settled ↦ rw settled refl
      ]

  -- A poll from `n` on: what its answer does, and where the ready messages go on.
  abbrev Told : ℕ → PollAnswer → Inner → Type 0
  Told n answer r = (n' : ℕ) × Numbers n answer n' r × Emits n' r.ready (expected r) × IsRunning r

  hand_out-Told :
      (n : ℕ) (rx : MoldUdpReceiver T R C) (queue : List ReadyItem)
      → rx.inner.ready ≡ queue
      → IsRunning rx.inner
      → Emits n queue (expected rx.inner)
      → let (answer, rx') = hand_out world rx queue in Told n answer rx'.inner
  unfolding hand_out
  hand_out-Told n rx [] e v h = (n, refl, rw e h, v)
  hand_out-Told n rx (item ∷ rest) e v h =
      let r₁ : Inner = record rx.inner { ready = rest } in
      let (n', numbers, emits) = yield_item-Numbers world r₁ n (expected rx.inner) item rest h in
      subst (Told n (answer_of world (yield_item r₁ item).0)) (sym (yielded r₁ item)) (
        n',
        numbers,
        emits,
        record {
          ready = record {
            valid = v.ready.valid;
            fits = v.ready.fits;
            anchored = v.ready.anchored;
          };
          waiting = v.waiting;
        },
      )

  poll_receiver-Told :
      (fuel n : ℕ) (rx : MoldUdpReceiver T R C)
      → IsRunning rx.inner
      → Emits n rx.inner.ready (expected rx.inner)
      → let (answer, rx') = poll_receiver world fuel rx in Told n answer rx'.inner
  unfolding poll_receiver
  poll_receiver-Told fuel n rx v h =
      let start = send_requests world (record rx { inner = retire_current rx.inner }) in
      let same = sent-inner (record rx { inner = retire_current rx.inner }) in
      let (alike, none_had) = retired rx.inner in
      let pumped = pump_fuel world fuel start in
      let v₁ = Alike-IsRunning rx.inner (retire_current rx.inner) alike v in
      let st : Steps (retire_current rx.inner) pumped.1.inner =
        subst (λ r. Steps r pumped.1.inner) same
          (pump_fuel-Steps world legs_InRange recovery_InRange fuel start
            (subst IsRunning (sym same) v₁)) in
      let before : Emits n (retire_current rx.inner).ready (expected (retire_current rx.inner)) =
        rw (alike.same_ready, ap (λ x. x.expected_next) alike.same_ring) h in
      let ready : Emits n pumped.1.inner.ready (expected pumped.1.inner) =
        subst (λ xs. Emits n xs (expected pumped.1.inner)) (sym st.emitted.appended)
          (Emits-append n (expected (retire_current rx.inner)) (expected pumped.1.inner)
            (retire_current rx.inner).ready st.emitted.out before st.emitted.emits) in
      elim (Result-cases pumped.0) [
        | inr (x, fails) ↦ rw (fails, poll_receiver) (n, refl, ready, st.running)
        | inl (u, works) ↦
            rw (works, poll_receiver)
              (hand_out-Told n pumped.1 pumped.1.inner.ready refl st.running ready)
      ]

  -- Over any number of polls, on any number of legs, with or without a requester, and however long each
  -- poll goes on: the frames that the polls answer are numbered consecutively from `n`, and behind them the messages
  -- that are ready, up to the sequence that is expected then, if those ready at the start were so. None is missing,
  -- none comes twice and none out of order, whatever arrives and whatever fails, up to a poll that panics; a poll
  -- panics only if the bytes of the next message in turn lie outside of what holds them. The expected sequence is fixed
  -- at the start, and sequences stay below the last of u64.
  pub poll_all-Emits :
      (n : ℕ) (rx : MoldUdpReceiver T R C) (fuels : List ℕ)
      → IsRunning rx.inner
      → Emits n rx.inner.ready (expected rx.inner)
      → let (answers, rx') = poll_all world rx fuels in Numbered n answers rx'.inner
  poll_all-Emits n rx [] v e = e
  poll_all-Emits n rx (fuel ∷ fuels) v e =
      by_answer (poll_receiver world fuel rx).0 (λ m v' h. poll_all-Emits m rx₁ fuels v' h)
        (poll_receiver-Told fuel n rx v e)
    where
      rx₁ : MoldUdpReceiver T R C
      rx₁ = (poll_receiver world fuel rx).1

      by_answer :
          (answer : PollAnswer)
          → ((m : ℕ)
              → IsRunning rx₁.inner
              → Emits m rx₁.inner.ready (expected rx₁.inner)
              → let (answers, rx₂) = poll_all world rx₁ fuels in Numbered m answers rx₂.inner)
          → Told n answer rx₁.inner
          → let (answers, rx₂) = poll_all world rx₁ fuels in
            let (all, rx') : List PollAnswer × MoldUdpReceiver T R C = elim answer [
              | panicked ↦ (panicked ∷ [], rx₁)
              | failed x ↦ (failed x ∷ answers, rx₂)
              | outcome o ↦ (outcome o ∷ answers, rx₂)
              | nothing ↦ (nothing ∷ answers, rx₂)
            ] in
            Numbered n all rx'.inner
      by_answer panicked ih (n', out, ready, v') = (out, refl)
      by_answer nothing ih (n', same, ready, v') = ih n v' (rw same ready)
      by_answer (failed x) ih (n', same, ready, v') = ih n v' (rw same ready)
      by_answer (outcome (event_outcome ev)) ih (n', same, ready, v') = ih n v' (rw same ready)
      by_answer (outcome (frame_outcome f)) ih (n', (num, same), ready, v') =
          (num, ih (n + 1) v' (rw same ready))
      by_answer (outcome (owned_outcome f)) ih (n', (num, same), ready, v') =
          (num, ih (n + 1) v' (rw same ready))
