-- ===== src/Moldudp/Wire.antt =====
-- The downstream packet codec of crates/clients/moldudp/src/wire.rs, over lists of bytes.
pub mod Header
pub mod Blocks
pub mod RoundTrip
use polaris_trade.Base.{
  ℕ, zero, suc, ◌+◌, ◌-◌, Bool, true, false, ◌||◌, Option, none, some, List, [], ◌∷◌, ltb, leb,
  ◌==◌, if◌then◌else◌, length, take, drop, from_be, add64, split_first_chunk,
}
use polaris_trade.Base.Result.{Result, ok, err, ◌>>=◌, ok_or}
use polaris_trade.Moldudp.Error.{MoldUdpError, packet_too_short, packet_too_large}

abbrev pub header_len : ℕ
header_len = 20

abbrev pub max_downstream_datagram : ℕ
max_downstream_datagram = 65536

-- `DownstreamHeader`
pub record DownstreamHeader : Type 0 where
  pub session : List ℕ
  pub sequence : ℕ
  pub message_count : ℕ

pub data PacketKind : Type 0 where
  heartbeat end_of_session data_packet : PacketKind

-- `DownstreamHeader::kind`
unfoldable pub kind : DownstreamHeader → PacketKind
kind h =
    if h.message_count == 0
    then heartbeat
    else if h.message_count == 0xffff
    then end_of_session
    else data_packet

unfoldable pub parse_header : List ℕ → Result MoldUdpError DownstreamHeader
parse_header buf = if ltb max_downstream_datagram (length buf) then err packet_too_large else do
  (session, rest) ← ok_or (split_first_chunk 10 buf) packet_too_short
  (sequence, rest') ← ok_or (split_first_chunk 8 rest) packet_too_short
  (message_count, rest'') ← ok_or (split_first_chunk 2 rest') packet_too_short
  ok (record {
    session = session;
    sequence = from_be 0 sequence;
    message_count = from_be 0 message_count;
  })

pub record MessageBlockIter : Type 0 where
  pub remaining : List ℕ
  pub blocks_left : ℕ
  pub truncated : Bool
  pub next_offset : ℕ

-- `MessageBlockIter::new`
abbrev pub new_iter : List ℕ → ℕ → MessageBlockIter
new_iter payload message_count = record {
  remaining = payload;
  blocks_left = message_count;
  truncated = false;
  next_offset = header_len;
}

-- `DownstreamHeader::blocks`
abbrev pub blocks : DownstreamHeader → List ℕ → MessageBlockIter
blocks h datagram =
    new_iter (if leb header_len (length datagram) then drop header_len datagram else [])
      h.message_count

-- The body of `MessageBlockIter::next` behind a length prefix.
unfoldable pub take_block :
    MessageBlockIter → ℕ → List ℕ → Option (Result MoldUdpError (ℕ × List ℕ)) × MessageBlockIter
take_block it len rest =
    if ltb (length rest) len
    then (some (err packet_too_short), record it { truncated = true })
    else (
      some (ok (it.next_offset + 2, take len rest)),
      record it {
        next_offset = it.next_offset + (2 + len);
        remaining = drop len rest;
        blocks_left = it.blocks_left - 1;
      },
    )

-- `MessageBlockIter::next`: what it yields, and the iterator after it.
unfoldable pub next :
    MessageBlockIter → Option (Result MoldUdpError (ℕ × List ℕ)) × MessageBlockIter
next it =
    if it.truncated || (it.blocks_left == 0)
    then (none, it)
    else elim (split_first_chunk 2 it.remaining) [
      | none ↦ (some (err packet_too_short), record it { truncated = true })
      | some (len, rest) ↦ take_block it (from_be 0 len) rest
    ]

-- The loop of `process_next_pending` (receiver/decode.rs) that collects (seq, offset, len) of every
-- block. Each round takes a block, so `blocks_left` rounds are enough.
unfoldable pub collect_blocks : ℕ → ℕ → MessageBlockIter → Result MoldUdpError (List (ℕ × ℕ × ℕ))
collect_blocks zero seq it = ok []
collect_blocks (suc fuel) seq it =
    let (item, it') = next it in
    let rest = collect_blocks fuel (add64 seq 1) it' in
    elim item [
      | none ↦ ok []
      | some (err e) ↦ err e
      | some (ok (offset, bytes)) ↦ rest >>= λ bs. ok ((seq, offset, length bytes) ∷ bs)
    ]
