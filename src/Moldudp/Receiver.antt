-- ===== src/Moldudp/Receiver.antt =====
-- The state of `MoldUdpReceiver` (crates/clients/moldudp/src/receiver/mod.rs, frame.rs, event.rs) and
-- the steps that every receive method shares. A frame is its bytes; an `Arc` is the datagram that it
-- shares, which nobody writes.
pub mod Decode
pub mod Outcome
pub mod InOrder
pub mod Process
pub mod Refused
use polaris_trade.Base.{
  ℕ, Bool, true, false, ◌&&◌, ◌==◌, Option, none, some, List, [], ◌∷◌, ◌++◌, ltb, if◌then◌else◌,
}
use polaris_trade.Base.Result.{Result, ok, err}
use polaris_trade.Moldudp.Error.{MoldUdpError, session_mismatch}
use polaris_trade.Moldudp.Wire.{DownstreamHeader}
use polaris_trade.Moldudp.Gap.{GapRequestHandler, record_missing_range, record_gap}
use polaris_trade.Moldudp.Ab.{AbArbiter, rebase, confirmed_gaps}
use polaris_trade.Moldudp.Reassembly.{SequenceReassembler, reset_expected}

-- `Held<F>`: a frame of a leg, or a retransmission copied off the requester.
pub data Held : Type 0 where
  frame copied : List ℕ → Held

abbrev pub held_bytes : Held → List ℕ
held_bytes (frame bytes) = bytes
held_bytes (copied bytes) = bytes

pub record MessageView : Type 0 where
  pub datagram : Held
  pub offset : ℕ
  pub len : ℕ

pub data MoldUdpEvent : Type 0 where
  heartbeat_event end_of_session_event : ℕ → MoldUdpEvent

-- `ReadyItem`: `inline sequence stream_id offset len`, `view view sequence stream_id`.
pub data ReadyItem : Type 0 where
  inline : ℕ → ℕ → ℕ → ℕ → ReadyItem
  view : MessageView → ℕ → ℕ → ReadyItem
  event : MoldUdpEvent → ReadyItem
  gap : ReadyItem

pub data Backing : Type 0 where
  owned shared : Held → Backing

-- `Backing::empty`, `Backing::share`, `Backing::bytes`
abbrev pub empty_backing : Backing
empty_backing = owned (copied [])

abbrev pub share : Backing → Backing × Held
share (owned held) = (shared held, held)
share (shared held) = (shared held, held)

abbrev pub backing_bytes : Backing → List ℕ
backing_bytes (owned held) = held_bytes held
backing_bytes (shared held) = held_bytes held

-- `Inner<T>` without its legs and its scratch buffers.
pub record Inner : Type 0 where
  pub recovery_stream : ℕ
  pub session : Option (List ℕ)
  pub reassembler : SequenceReassembler MessageView
  pub next_unseen : ℕ
  pub gap_handler : GapRequestHandler
  pub arbiter : Option AbArbiter
  pub ready : List ReadyItem
  pub current : Option ReadyItem
  pub pending_datagrams : List (ℕ × Held)
  pub backing : Backing
  pub inline_pending : ℕ
  pub seq_anchored : Bool

abbrev pub push_ready : Inner → ReadyItem → Inner
push_ready r item = record r { ready = r.ready ++ item ∷ [] }

-- `note_tail_gap`
unfoldable pub note_tail_gap : Inner → ℕ → Inner
note_tail_gap r next_expected =
    if ltb r.next_unseen next_expected
    then push_ready
        (record r {
          next_unseen = next_expected;
          gap_handler = record_missing_range r.gap_handler r.next_unseen next_expected;
        })
        gap
    else r

-- The loop of `drain_confirmed_gaps` over the confirmed sequences.
unfoldable pub record_confirmed : Inner → List ℕ → Inner
record_confirmed r [] = r
record_confirmed r (seq ∷ seqs) =
    record_confirmed (push_ready (record r { gap_handler = record_gap r.gap_handler seq }) gap) seqs

unfoldable pub drain_confirmed_gaps : Inner → ℕ → Inner
drain_confirmed_gaps r now = elim r.arbiter [
  | none ↦ r
  | some a ↦
      let (confirmed, a') = confirmed_gaps a now in
      record_confirmed (record r { arbiter = some a' }) confirmed
]

-- Byte-wise equality of session ids.
unfoldable pub same_bytes : List ℕ → List ℕ → Bool
same_bytes [] [] = true
same_bytes [] (y ∷ ys) = false
same_bytes (x ∷ xs) [] = false
same_bytes (x ∷ xs) (y ∷ ys) = (x == y) && same_bytes xs ys

-- `accept_header` once the session is settled: anchor the expected sequence on the first packet.
unfoldable pub anchor : Inner → ℕ → Inner
anchor r sequence = if r.seq_anchored then r else record r {
  reassembler = reset_expected r.reassembler sequence;
  next_unseen = sequence;
  arbiter = elim r.arbiter [ none ↦ none | some a ↦ some (rebase a sequence) ];
  seq_anchored = true;
}

unfoldable pub accept_header : Inner → DownstreamHeader → Result MoldUdpError (Unit {0}) × Inner
accept_header r header = elim r.session [
  | none ↦ (ok tt, anchor (record r { session = some header.session }) header.sequence)
  | some expected ↦
      if same_bytes expected header.session
      then (ok tt, anchor r header.sequence)
      else (err (session_mismatch expected header.session), r)
]
