-- ===== src/Moldudp/Tests.antt =====
-- The MoldUDP64 client on concrete packets, legs and gaps.
use polaris_trade.Base.{
  ℕ, ◌≡◌, refl, ◌&&◌, ◌||◌, not, List, [], ◌∷◌, arith, to_be, ◌==◌, if◌then◌else◌, length, All,
  replicate,
}
use polaris_trade.Base.Result.{ok}
use polaris_trade.Moldudp.Wire.{DownstreamHeader, parse_header, blocks, collect_blocks, header_len}
use polaris_trade.Moldudp.Wire.Header.{IsHeader}
use polaris_trade.Moldudp.Wire.Blocks.{InBounds, blocks-InBounds}
use polaris_trade.Moldudp.Wire.RoundTrip.{encode_packet, entries, payloads, decode-encode_packet}
use polaris_trade.Moldudp.Gap.{
  GapRequestHandler, absorb_following, widen_left, insert_merged, record_missing_range,
  mark_received, pending_gaps,
}
use polaris_trade.Base.BTreeMap.{insert, remove, last_below, first_from}
use polaris_trade.Moldudp.Gap.Ranges.{within}
use polaris_trade.Moldudp.Gap.Record.{IsValid as IsSeparated, is_missing, record_missing_range_lem}
use polaris_trade.Moldudp.Gap.Received.{mark_received_lem}
use polaris_trade.Moldudp.Gap.Pending.{IsSendable, times_requested, pending_gaps_lem}

-- A packet of two messages, from sequence 7 on.
abbrev header : DownstreamHeader
header = record { session = replicate 10 0x30; sequence = 7; message_count = 2 }

abbrev messages : List (List ℕ)
messages = (0x41 ∷ 0x42 ∷ []) ∷ (0x43 ∷ []) ∷ []

header-IsHeader : IsHeader header
header-IsHeader = record {
  session_len = refl;
  sequence_fits = omega arith;
  count_fits = omega arith;
}

decode-encode_packet_example :
    let datagram = encode_packet header messages in
    let found = entries 7 header_len messages in
    (parse_header datagram ≡ ok header)
    × (collect_blocks 2 7 (blocks header datagram) ≡ ok found)
    × (payloads datagram found ≡ messages)
unfolding to_be
decode-encode_packet_example =
    decode-encode_packet header messages header-IsHeader refl (omega arith, (omega arith, tt))
      (omega arith)

-- Two ranges that are missing.
abbrev gapped : GapRequestHandler
gapped = record { gaps = (3, 5) ∷ (9, 12) ∷ [] }

gapped-IsSeparated : IsSeparated gapped
gapped-IsSeparated = (omega arith, omega arith, (omega arith, omega arith, tt))

record_missing_range_example :
    IsSeparated (record_missing_range gapped 5 9)
    × (is_missing (record_missing_range gapped 5 9) 6 ≡ (within 5 9 6 || is_missing gapped 6))
record_missing_range_example = record_missing_range_lem gapped 5 9 6 gapped-IsSeparated

record_missing_range_run : (record_missing_range gapped 5 9).gaps ≡ (3, 12) ∷ []
unfolding record_missing_range insert_merged absorb_following widen_left last_below first_from
    insert remove
record_missing_range_run = refl

mark_received_example :
    IsSeparated (mark_received gapped 10)
    × (is_missing (mark_received gapped 10) 10 ≡ (is_missing gapped 10 && not (10 == 10)))
mark_received_example = mark_received_lem gapped 10 10 (omega arith) gapped-IsSeparated

pending_gaps_example :
    All IsSendable (pending_gaps gapped)
    × (times_requested (pending_gaps gapped) 4 ≡ (if is_missing gapped 4 then 1 else 0))
pending_gaps_example = pending_gaps_lem gapped 4 gapped-IsSeparated (λ s h. ground arith)

-- The blocks of that packet.
abbrev packet : List ℕ
packet = encode_packet header messages

blocks-InBounds_example :
    All (InBounds (length packet)) (entries 7 header_len messages)
    × (length (entries 7 header_len messages) ≡ 2)
unfolding to_be
blocks-InBounds_example =
    blocks-InBounds header packet (entries 7 header_len messages) (omega arith)
      decode-encode_packet_example.1
