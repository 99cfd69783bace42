-- ===== src/Moldudp/Receive.antt =====
-- `poll` of crates/clients/moldudp/src/receiver/recv.rs, `poll_legs` of receiver/decode.rs and the requester of
-- receiver/recovery.rs. The legs, the recovery and the clock are parameters.
pub mod Kept
pub mod Numbered
pub mod Polls
pub mod Waiting
pub mod Ends
use polaris_trade.Base.{
  ℕ, zero, suc, Bool, true, false, ◌&&◌, ◌||◌, not, Option, none, some, List, [], ◌∷◌, ◌++◌, map,
  if◌then◌else◌,
}
use polaris_trade.Base.Result.{Result, ok, err}
use polaris_trade.Transport.Error.{TransportError, SocketAddr}
use polaris_trade.Moldudp.Error.{MoldUdpError, transport}
use polaris_trade.Moldudp.Gap.{GapRequestHandler, has_pending, pending_gaps}
use polaris_trade.Moldudp.Emitter.{GapRequestEmitter, emit}
use polaris_trade.Moldudp.Receiver.{Held, frame, copied, ReadyItem, Inner, drain_confirmed_gaps}
use polaris_trade.Moldudp.Receiver.Decode.{process_next_pending}
use polaris_trade.Moldudp.Receiver.Outcome.{MoldUdpOutcome, retire_current, yield_item}

-- What a receiver works with: `recv_burst` of a leg, which gives the frames of a burst, the two
-- operations of `Recovery`, and `Instant::now`.
pub record World (T R C : Type 0) : Type 0 where
  pub recv_burst : T → Result TransportError (List (List ℕ)) × T
  pub send_due : R → List ℕ → GapRequestHandler → R
  pub recover : R → Result TransportError (List (List ℕ)) × R
  pub now : C → ℕ × C

-- `MoldUdpReceiver`, with the legs of its `Inner`.
pub record MoldUdpReceiver (T R C : Type 0) : Type 0 where
  pub inner : Inner
  pub legs : List T
  pub recovery : R
  pub clock : C

-- What `poll` answers; `panicked` is a slice out of range.
pub data PollAnswer : Type 0 where
  failed : MoldUdpError → PollAnswer
  outcome : MoldUdpOutcome → PollAnswer
  nothing panicked : PollAnswer

abbrev pub is_none_left : {A : Type 0} → List A → Bool
is_none_left [] = true
is_none_left (x ∷ xs) = false

abbrev pub tagged : ℕ → (List ℕ → Held) → List (List ℕ) → List (ℕ × Held)
tagged stream hold [] = []
tagged stream hold (bytes ∷ rest) = (stream, hold bytes) ∷ tagged stream hold rest

abbrev pub queue_datagrams : Inner → List (ℕ × Held) → Inner
queue_datagrams r datagrams = record r { pending_datagrams = r.pending_datagrams ++ datagrams }

module _ {T R C : Type 0} (world : World T R C) where
  -- The loop of `poll_legs`, from leg `stream` on, of at most 255: whether anything landed. A leg that
  -- fails ends it.
  unfoldable pub poll_legs : ℕ → List T → Inner → Result MoldUdpError Bool × List T × Inner
  poll_legs stream [] r = (ok false, [], r)
  poll_legs stream (leg ∷ legs) r =
      let (burst, leg') = world.recv_burst leg in
      elim burst [
        | err e ↦ (err (transport e), leg' ∷ legs, r)
        | ok frames ↦
            let (landed, legs', r') =
              poll_legs (suc stream) legs (queue_datagrams r (tagged stream frame frames)) in
            elim landed [
              | err e ↦ (err e, leg' ∷ legs', r')
              | ok rest ↦ (ok (not (is_none_left frames) || rest), leg' ∷ legs', r')
            ]
      ]

  -- The requester's burst, while a gap is pending.
  unfoldable pub poll_recovery : R → Inner → Result MoldUdpError Bool × R × Inner
  poll_recovery recovery r =
      let (burst, recovery') = world.recover recovery in
      if has_pending r.gap_handler
      then elim burst [
        | err e ↦ (err (transport e), recovery', r)
        | ok frames ↦ (
          ok (not (is_none_left frames)),
          recovery',
          queue_datagrams r (tagged r.recovery_stream copied frames),
        )
      ]
      else (ok false, recovery, r)

  -- Datagrams to decode: those that wait, or else what the sources give.
  unfoldable pub gather : MoldUdpReceiver T R C → Result MoldUdpError Bool × MoldUdpReceiver T R C
  gather rx =
      let (landed, legs, inner) = poll_legs 0 rx.legs rx.inner in
      let (recovered, recovery, inner') = poll_recovery rx.recovery inner in
      let rx₁ : MoldUdpReceiver T R C = record rx { legs = legs; inner = inner } in
      let rx₂ : MoldUdpReceiver T R C = record rx {
        legs = legs;
        recovery = recovery;
        inner = inner';
      } in
      if is_none_left rx.inner.pending_datagrams
      then elim landed [
        | err e ↦ (err e, rx₁)
        | ok some_landed ↦ elim recovered [
          | err e ↦ (err e, rx₂)
          | ok some_recovered ↦ (ok (some_landed || some_recovered), rx₂)
        ]
      ]
      else (ok true, rx)

  -- One datagram, at the arbiter's time if there is an arbiter.
  unfoldable pub decode_next :
      MoldUdpReceiver T R C → Result MoldUdpError (Unit {0}) × MoldUdpReceiver T R C
  decode_next rx =
      let (t, clock) = world.now rx.clock in
      let (plain, r) = process_next_pending rx.inner none in
      let (timed, r') = process_next_pending rx.inner (some t) in
      elim rx.inner.arbiter [
        | none ↦ (plain, record rx { inner = r })
        | some a ↦ elim timed [
          | err e ↦ (err e, record rx { inner = r'; clock = clock })
          | ok u ↦ (ok u, record rx { inner = drain_confirmed_gaps r' t; clock = clock })
        ]
      ]

  -- The loop of `pump`; spent fuel leaves the receiver between two rounds.
  unfoldable pub pump_fuel :
      ℕ → MoldUdpReceiver T R C → Result MoldUdpError (Unit {0}) × MoldUdpReceiver T R C
  pump_fuel zero rx = (ok tt, rx)
  pump_fuel (suc fuel) rx =
      let (landed, rx₁) = gather rx in
      let (decoded, rx₂) = decode_next rx₁ in
      let rest = pump_fuel fuel rx₂ in
      if is_none_left rx.inner.ready
      then elim landed [
        | err e ↦ (err e, rx₁)
        | ok false ↦ (ok tt, rx₁)
        | ok true ↦ elim decoded [ err e ↦ (err e, rx₂) | ok u ↦ rest ]
      ]
      else (ok tt, rx)

  -- The re-requests that are due, once the session is known.
  unfoldable pub send_requests : MoldUdpReceiver T R C → MoldUdpReceiver T R C
  send_requests rx = elim rx.inner.session [
    | none ↦ rx
    | some session ↦
        if has_pending rx.inner.gap_handler
        then record rx { recovery = world.send_due rx.recovery session rx.inner.gap_handler }
        else rx
  ]

  abbrev pub answer_of : Option (Result MoldUdpError MoldUdpOutcome) → PollAnswer
  answer_of none = panicked
  answer_of (some (ok o)) = outcome o
  answer_of (some (err e)) = failed e

  -- The first of the ready items, `items`, goes out.
  unfoldable pub hand_out :
      MoldUdpReceiver T R C → List ReadyItem → PollAnswer × MoldUdpReceiver T R C
  hand_out rx [] = (nothing, rx)
  hand_out rx (item ∷ rest) =
      let (given, inner) = yield_item (record rx.inner { ready = rest }) item in
      (answer_of given, record rx { inner = inner })

  unfoldable pub poll_receiver : ℕ → MoldUdpReceiver T R C → PollAnswer × MoldUdpReceiver T R C
  poll_receiver fuel rx =
      let (pumped, rx') =
        pump_fuel fuel (send_requests (record rx { inner = retire_current rx.inner })) in
      let out = hand_out rx' rx'.inner.ready in elim pumped [ err e ↦ (failed e, rx') | ok u ↦ out ]

-- `Requester`: its socket also tells the time.
pub record Requester (Q : Type 0) : Type 0 where
  pub sock : Q
  pub emitter : GapRequestEmitter

module _ {Q : Type 0} (send_to : Q → List ℕ → SocketAddr → Result TransportError ℕ × Q)
    (burst : Q → Result TransportError (List (List ℕ)) × Q) (instant : Q → ℕ × Q) where
  -- A send that fails is logged; the emitter remembers what it has asked for.
  unfoldable pub send_due : Requester Q → List ℕ → GapRequestHandler → Requester Q
  send_due q session gaps =
      let (t, sock) = instant q.sock in
      let (emitter, sock', sent) = emit send_to q.emitter (pending_gaps gaps) session sock t in
      record { sock = sock'; emitter = emitter }

  abbrev pub poll_requester : Requester Q → Result TransportError (List (List ℕ)) × Requester Q
  poll_requester q = let (answer, sock) = burst q.sock in (answer, record q { sock = sock })
