-- ===== src/Moldudp/ReceiverTests.antt =====
-- The reassembler, the arbiter, the emitter and the receiver of the MoldUDP64 client on concrete input.
use polaris_trade.Base.{
  ℕ, ◌+◌, ◌≤◌, ◌≡◌, ◌⊎◌, refl, ap, true, false, ◌&&◌, none, some, List, [], ◌∷◌, arith, to_be, leb,
  ◌==◌, if◌then◌else◌, length, All, replicate, subst, Bool,
}
use polaris_trade.Base.Result.{Result, ok, err}
use polaris_trade.Transport.Error.{SocketAddr, v4, TransportError}
use polaris_trade.Moldudp.Error.{reassembly_buffer_full}
use polaris_trade.Moldudp.Wire.{DownstreamHeader}
use polaris_trade.Moldudp.Wire.Header.{parse_header-encode_header}
use polaris_trade.Moldudp.Wire.RoundTrip.{encode_blocks, encode_packet}
use polaris_trade.Moldudp.Gap.{GapRequest}
use polaris_trade.Moldudp.Gap.Record.{is_missing}
use polaris_trade.Moldudp.Emitter.{GapRequestEmitter, new_emitter, encode_request_packet}
use polaris_trade.Moldudp.Ab.{AbArbiter, forward, rebase, observe}
use polaris_trade.Moldudp.Ab.Window.{IsValid as IsTracking}
use polaris_trade.Moldudp.Ab.Dedupe.{
  observe_verdict, delivered_with, is_forward, rebase-IsValid, ArbiterCall, observes, confirms,
  times, forwarded, forwarded_once,
}
use polaris_trade.Moldudp.Reassembly.{new, SequenceReassembler, empty_slot, insert, drain}
use polaris_trade.Moldudp.Reassembly.View.{or_else, new-IsValid, held, IsValid, is_ok, insert-held}
use polaris_trade.Moldudp.Reassembly.Drain.{FitsU64, Drained, drain_lem}
use polaris_trade.Moldudp.Receiver.{Held, frame, copied, MessageView, Inner, empty_backing}
use polaris_trade.Moldudp.Receiver.Decode.{Loop, buffer_view, place_block, process_next_pending}
use polaris_trade.Moldudp.Receiver.InOrder.{Emitted}
use polaris_trade.Moldudp.Receive.{World, MoldUdpReceiver, nothing, send_requests, poll_receiver}
use polaris_trade.Moldudp.Receive.Ends.{Gives, IsDry, poll_receiver_lem}
use polaris_trade.Moldudp.Receiver.Outcome.{retire_current}
use polaris_trade.Moldudp.Construct.{MoldUdpReceiverConfig, NoRecovery, check_pools, from_legs}
use polaris_trade.Moldudp.Construct.Started.{from_legs-Emits}
use polaris_trade.Moldudp.Receive.Polls.{Numbered, poll_all, poll_all-Emits}
use polaris_trade.Moldudp.Receiver.Process.{InRange, NextInRange, process_next_pending-Emitted}
use polaris_trade.Moldudp.Receiver.Refused.{place_block-refused}

-- Two legs, a window of two sequences, anchored at 5.
abbrev arbiter : AbArbiter
arbiter = record {
  window_base = 0;
  window_bits = false ∷ false ∷ [];
  stream_stats = [];
  gap_confirm_window_ms = 1;
  pending_gap_confirms = [];
}

anchored-IsTracking : IsTracking (λ s. false) (rebase arbiter 5)
anchored-IsTracking = rebase-IsValid arbiter 5 (omega arith) (omega arith)

observe_verdict_example :
    ((observe (rebase arbiter 5) 0 5 0).0 ≡ forward)
    × IsTracking
        (delivered_with (λ s. false) 5 (observe (rebase arbiter 5) 0 5 0).0)
        (observe (rebase arbiter 5) 0 5 0).1
    × ((is_forward (observe (rebase arbiter 5) 0 5 0).0 && false) ≡ false)
unfolding rebase
observe_verdict_example =
    observe_verdict (λ s. false) (rebase arbiter 5) 0 5 0 anchored-IsTracking (omega arith)

abbrev history : List ArbiterCall
history = observes 0 5 0 ∷ observes 1 5 1 ∷ observes 1 9 2 ∷ confirms 3 ∷ observes 0 6 4 ∷ []

forwarded_once_example : times 5 (forwarded (rebase arbiter 5) history) + 0 ≤ 1
forwarded_once_example =
    forwarded_once (λ s. false) (rebase arbiter 5) history 5 anchored-IsTracking
      (omega arith, (omega arith, (omega arith, (omega arith, tt))))

-- A ring of four slots that holds 3, and waits for 3.
abbrev at_three : MessageView
at_three = record { datagram = copied []; offset = 0; len = 0 }

abbrev fresh : SequenceReassembler MessageView
fresh = record { slots = replicate 4 empty_slot; capacity = 4; expected_next = 1 }

abbrev ring : SequenceReassembler MessageView
ring = record {
  slots = empty_slot ∷ empty_slot ∷ empty_slot ∷ record { seq = 3; payload = some at_three } ∷ [];
  capacity = 4;
  expected_next = 3;
}

fresh_lem : IsValid fresh × ((s : ℕ) → held fresh s ≡ none) × (fresh.expected_next ≡ 1)
unfolding new
fresh_lem = new-IsValid 4 fresh refl

ring-IsValid : IsValid ring
unfolding insert
ring-IsValid =
    let v = (insert-held fresh 3 3 at_three fresh_lem.0).0 in
    record { sized = v.sized; positive = v.positive; placed = v.placed }

ring-FitsU64 : FitsU64 ring
unfolding insert held
ring-FitsU64 s a h = ground (arith, (insert-held fresh 3 s at_three fresh_lem.0).2, fresh_lem.1 s)

insert-held_example :
    let (answer, ring') = insert ring 4 at_three in
    IsValid ring'
    × (ring'.expected_next ≡ 3)
    × (held ring' 4 ≡ (
        if (4 == 4) && (leb 3 4 && is_ok answer)
        then some (or_else (held ring 4) at_three)
        else held ring 4))
insert-held_example = insert-held ring 4 4 at_three ring-IsValid

drain_example : Drained ring (drain ring)
drain_example = drain_lem ring ring-IsValid ring-FitsU64

-- A socket that keeps what is sent.
abbrev log_send : List (List ℕ) → List ℕ → SocketAddr → Result TransportError ℕ × List (List ℕ)
log_send sent packet to = (ok (length packet), packet ∷ sent)

abbrev server : SocketAddr
server = record { ip = v4 1; port = 26477 }

abbrev emitter : GapRequestEmitter
emitter = new_emitter server 2

abbrev asked : List GapRequest
asked = record { start_seq = 3; count = 2 } ∷ []

abbrev remembering : GapRequestEmitter
remembering = record emitter { requested = record { start = 3; stop = 5; at = 1000 } ∷ [] }

abbrev session_id : List ℕ
session_id = replicate 10 0x30

abbrev sent_packet : List ℕ
sent_packet = encode_request_packet session_id 3 2

-- A receiver of one leg that waits for 3, holds nothing, and has a packet of 3 and 4 to decode.
abbrev header : DownstreamHeader
header = record { session = session_id; sequence = 3; message_count = 2 }

abbrev messages : List (List ℕ)
messages = (0x41 ∷ []) ∷ (0x42 ∷ []) ∷ []

abbrev packet : List ℕ
packet = encode_packet header messages

abbrev receiver : SequenceReassembler MessageView → List (ℕ × Held) → Inner
receiver reassembler pending = record {
  recovery_stream = 1;
  session = some session_id;
  reassembler = reassembler;
  next_unseen = 3;
  gap_handler = record { gaps = [] };
  arbiter = none;
  ready = [];
  current = none;
  pending_datagrams = pending;
  backing = empty_backing;
  inline_pending = 0;
  seq_anchored = true;
}

packet-NextInRange : NextInRange ((0, frame packet) ∷ [])
unfolding to_be
packet-NextInRange h e =
    let k =
      parse_header-encode_header header (encode_blocks messages)
        (record { session_len = refl; sequence_fits = omega arith; count_fits = omega arith })
        (omega arith) in
    let same : header ≡ h = cc (k, e) in
    omega (arith, ap (λ x. x.sequence) same, ap (λ x. x.message_count) same)

process_next_pending_example :
    Emitted
      (receiver ring ((0, frame packet) ∷ []))
      (process_next_pending (receiver ring ((0, frame packet) ∷ [])) none).1
process_next_pending_example =
    process_next_pending-Emitted (receiver ring ((0, frame packet) ∷ [])) none
      (record { valid = ring-IsValid; fits = ring-FitsU64; anchored = refl }) packet-NextInRange

abbrev decoding : Loop
decoding = record { inner = receiver ring []; backing = empty_backing; inlined = 0 }

place_block_example :
    let failed = (place_block decoding 0 7 22 1).1 in
    (is_missing failed.gap_handler 7 ≡ false)
    × (failed.ready ≡ [])
    × (held failed.reassembler 7 ≡ none)
unfolding place_block buffer_view insert
place_block_example =
    place_block-refused decoding 0 7 22 1 (reassembly_buffer_full 4) ring-IsValid tt (omega arith)
      refl

-- Silent legs, no recovery, and a clock that stands still.
abbrev silent : World (Unit {0}) (Unit {0}) ℕ
silent = record {
  recv_burst = λ t. (ok [], t);
  send_due = λ q session gaps. q;
  recover = λ q. (ok [], q);
  now = λ c. (c, c);
}

silent-InRange :
    (t : Unit {0}) (frames : List (List ℕ))
    → (silent.recv_burst t).0 ≡ ok frames
    → All InRange frames
silent-InRange t frames e =
    subst
      (λ (r : Result TransportError (List (List ℕ))). elim r as (λ q. Type 0) [
        | ok fs ↦ All InRange fs
        | err x ↦ Unit {0}
      ])
      e tt

abbrev polled : MoldUdpReceiver (Unit {0}) (Unit {0}) ℕ
polled = record {
  inner = receiver ring ((0, frame packet) ∷ []);
  legs = tt ∷ [];
  recovery = tt;
  clock = 0;
}

poll_all-Emits_example :
    let (answers, rx) = poll_all silent polled (2 ∷ 2 ∷ 2 ∷ []) in Numbered 3 answers rx.inner
poll_all-Emits_example =
    poll_all-Emits silent silent-InRange silent-InRange 3 polled (2 ∷ 2 ∷ 2 ∷ [])
      (record {
        ready = record { valid = ring-IsValid; fits = ring-FitsU64; anchored = refl };
        waiting = (packet-NextInRange, tt);
      })
      refl

-- A leg that brings the packet once, and an idle leg beside it.
abbrev burst_of : Bool → Result TransportError (List (List ℕ)) × Bool
burst_of true = (ok (packet ∷ []), false)
burst_of false = (ok [], false)

abbrev one_packet : World Bool (Unit {0}) ℕ
one_packet = record {
  recv_burst = burst_of;
  send_due = λ q session gaps. q;
  recover = λ q. (ok [], q);
  now = λ c. (c, c);
}

burst_of-InRange :
    (t : Bool) (frames : List (List ℕ)) → (burst_of t).0 ≡ ok frames → All InRange frames
burst_of-InRange t frames e =
    subst
      (λ (r : Result TransportError (List (List ℕ))). elim r as (λ q. Type 0) [
        | ok fs ↦ All InRange fs
        | err x ↦ Unit {0}
      ])
      e (given t)
  where
    given :
        (b : Bool)
        → elim (burst_of b).0 as (λ q. Type 0) [ ok fs ↦ All InRange fs | err x ↦ Unit {0} ]
    given true = (packet-NextInRange, tt)
    given false = tt

abbrev config : MoldUdpReceiverConfig
config = record {
  max_rerequests_per_gap_per_sec = 4;
  gap_confirm_window = 5;
  start_sequence = some 3;
}

from_legs-Emits_example :
    (rx : MoldUdpReceiver Bool NoRecovery ℕ) × (from_legs (λ t. 5000) config (true ∷ false ∷ []) 0
      ≡ some (ok rx))
    × (let (answers, rx') =
          poll_all one_packet
            (record { inner = rx.inner; legs = rx.legs; recovery = tt; clock = rx.clock })
            (2 ∷ 2 ∷ 2 ∷ []) in
        Numbered 3 answers rx'.inner)
unfolding check_pools
from_legs-Emits_example =
    from_legs-Emits (λ t. 5000) one_packet burst_of-InRange silent-InRange config
      (true ∷ false ∷ []) 0 3 tt (2 ∷ 2 ∷ 2 ∷ []) refl refl refl

-- The datagrams that a leg of `one_packet` still has.
abbrev packets : Bool → ℕ
packets true = 1
packets false = 0

burst_of-packets :
    (t : Bool) (frames : List (List ℕ))
    → (burst_of t).0 ≡ ok frames
    → length frames + packets (burst_of t).1 ≤ packets t
burst_of-packets true frames e =
    let same : packet ∷ [] ≡ frames = cc e in omega (arith, ap length same)
burst_of-packets false frames e = let same : [] ≡ frames = cc e in omega (arith, ap length same)

no_recovery :
    (q : Unit {0}) (frames : List (List ℕ))
    → (one_packet.recover q).0 ≡ ok frames
    → length frames + 0 ≤ 0
no_recovery q frames e = let same : [] ≡ frames = cc e in omega (arith, ap length same)

abbrev waking : MoldUdpReceiver Bool (Unit {0}) ℕ
waking = record { inner = receiver ring []; legs = true ∷ false ∷ []; recovery = tt; clock = 0 }

poll_receiver_example :
    let (answer, rx') = poll_receiver one_packet 2 waking in
    (Gives answer rx'.inner ⊎ ((answer ≡ nothing) × IsDry one_packet rx')) × (length rx'.legs ≡ 2)
unfolding send_requests retire_current
poll_receiver_example =
    poll_receiver_lem one_packet packets (λ q. 0) burst_of-packets no_recovery 2 waking
      (omega arith)
