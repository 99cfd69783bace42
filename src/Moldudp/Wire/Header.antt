-- ===== src/Moldudp/Wire/Header.antt =====
-- `parse_header` on every datagram, and the layout that it reads.
use polaris_trade.Base.{
  ℕ, ltb, if◌then◌else◌, slice, drop-drop, ◌≤◌, ◌≡◌, List, ◌++◌, arith, length, length-append, drop,
  length-drop, to_be, length-to_be, from_be, from_be-to_be, u64_max, u16_max, split_first_chunk,
  split_first_chunk-append,
}
use mathlib.Core.List.{append_assoc}
use polaris_trade.Base.Result.{ok, err}
use polaris_trade.Moldudp.Error.{packet_too_short, packet_too_large}
use polaris_trade.Moldudp.Wire.{DownstreamHeader, parse_header, header_len, max_downstream_datagram}

-- The header on the wire: session, sequence and count, the numbers in big-endian order.
abbrev pub encode_header : DownstreamHeader → List ℕ
encode_header h = h.session ++ (to_be 8 h.sequence ++ to_be 2 h.message_count)

pub record IsHeader (h : DownstreamHeader) : Type 0 where
  pub session_len : length h.session ≡ 10
  pub sequence_fits : h.sequence ≤ u64_max
  pub count_fits : h.message_count ≤ u16_max

pub length-encode_header :
    (h : DownstreamHeader) → IsHeader h → length (encode_header h) ≡ header_len
length-encode_header h v = omega (
  arith,
  v.session_len,
  length-append h.session (to_be 8 h.sequence ++ to_be 2 h.message_count),
  length-append (to_be 8 h.sequence) (to_be 2 h.message_count),
  length-to_be 8 h.sequence,
  length-to_be 2 h.message_count,
)

-- `parse_header` reads back every header whose session has ten bytes and whose numbers fit their fields,
-- from a datagram that begins with it and is not too large, whatever follows.
pub parse_header-encode_header :
    (h : DownstreamHeader) (body : List ℕ)
    → IsHeader h
    → length (encode_header h ++ body) ≤ max_downstream_datagram
    → parse_header (encode_header h ++ body) ≡ ok h
unfolding parse_header
parse_header-encode_header h body v fits = ground (
  arith,
  assoc,
  split_first_chunk-append h.session (sequence ++ (count ++ body)) v.session_len,
  split_first_chunk-append sequence (count ++ body) (length-to_be 8 h.sequence),
  split_first_chunk-append count body (length-to_be 2 h.message_count),
  from_be-to_be 8 0 h.sequence,
  from_be-to_be 2 0 h.message_count,
)
  where
    sequence : List ℕ
    sequence = to_be 8 h.sequence

    count : List ℕ
    count = to_be 2 h.message_count

    assoc : encode_header h ++ body ≡ h.session ++ (sequence ++ (count ++ body))
    assoc = simp append_assoc

-- `parse_header` answers for every datagram: one of more than 65536 bytes is too large, one of less
-- than 20 too short, and of any other it reads the session at offset 0, the sequence at offset 10 and
-- the count at offset 18, each big-endian.
pub parse_header_cases :
    (buf : List ℕ)
    → parse_header buf ≡ (
        if ltb max_downstream_datagram (length buf)
        then err packet_too_large
        else if ltb (length buf) header_len
        then err packet_too_short
        else ok (record {
          session = slice buf 0 10;
          sequence = from_be 0 (slice buf 10 8);
          message_count = from_be 0 (slice buf 18 2);
        }))
unfolding parse_header split_first_chunk
parse_header_cases buf =
    ground (arith, length-drop 10 buf, length-drop 8 (drop 10 buf), drop-drop 8 10 buf)
