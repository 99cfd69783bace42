-- ===== src/Moldudp/Wire/RoundTrip.antt =====
-- From a packet as the server builds it, the receiver reads back the messages.
use polaris_trade.Base.{
  ℕ, ◌+◌, ◌-◌, ◌≤◌, ◌≡◌, ◌∙◌, refl, sym, ap, ap₂, false, some, List, [], ◌∷◌, ◌++◌, arith, length,
  length-append, take, drop, take-append, drop-append, drop-drop, All, to_be, length-to_be, from_be,
  from_be-to_be, u16_max, add64, ◌≢◌, slice, split_first_chunk, split_first_chunk-append,
}
use mathlib.Core.List.{append_assoc, append-nil}
use polaris_trade.Base.Result.{ok}
use polaris_trade.Moldudp.Wire.{
  DownstreamHeader, MessageBlockIter, take_block, next, blocks, collect_blocks, header_len,
  parse_header, max_downstream_datagram,
}
use polaris_trade.Moldudp.Wire.Header.{
  IsHeader, encode_header, length-encode_header, parse_header-encode_header,
}
use polaris_trade.Moldudp.Wire.Blocks.{next-take_block, collect_blocks-cons}

-- A message on the wire, behind its length in two bytes; and several in a row.
abbrev pub encode_blocks : List (List ℕ) → List ℕ
encode_blocks [] = []
encode_blocks (m ∷ ms) = to_be 2 (length m) ++ (m ++ encode_blocks ms)

-- The entries for messages that begin at `offset`, numbered from `seq` on.
abbrev pub entries : ℕ → ℕ → List (List ℕ) → List (ℕ × ℕ × ℕ)
entries seq offset [] = []
entries seq offset (m ∷ ms) =
    (seq, offset + 2, length m) ∷ entries (add64 seq 1) (offset + (2 + length m)) ms

-- The bytes that the entries name.
abbrev pub payloads : List ℕ → List (ℕ × ℕ × ℕ) → List (List ℕ)
payloads datagram [] = []
payloads datagram ((seq, offset, len) ∷ bs) = slice datagram offset len ∷ payloads datagram bs

abbrev pub FitsPrefix : List ℕ → Type 0
FitsPrefix m = length m ≤ u16_max

module _ (m tail : List ℕ) (fits : FitsPrefix m) where
  prefix_read : from_be 0 (to_be 2 (length m)) ≡ length m
  prefix_read = omega (arith, from_be-to_be 2 0 (length m))

  next-encoded :
      (it : MessageBlockIter)
      → it.truncated ≡ false
      → it.blocks_left ≢ 0
      → it.remaining ≡ to_be 2 (length m) ++ (m ++ tail)
      → next it ≡ (
        some (ok (it.next_offset + 2, m)),
        record it {
          next_offset = it.next_offset + (2 + length m);
          remaining = tail;
          blocks_left = it.blocks_left - 1;
        },
      )
  unfolding take_block
  next-encoded it t ne e =
      next-take_block it (to_be 2 (length m)) (m ++ tail) t (ground arith) (
        ap (split_first_chunk 2) e
        ∙ split_first_chunk-append (to_be 2 (length m)) (m ++ tail) (length-to_be 2 (length m)))
      ∙ ground (arith, prefix_read, length-append m tail, take-append m tail, drop-append m tail)

-- `collect_blocks` reads back the messages' entries from their encoding, whatever follows it.
collect_blocks-encode_blocks :
    (msgs : List (List ℕ)) (seq : ℕ) (it : MessageBlockIter) (rest : List ℕ)
    → All FitsPrefix msgs
    → it.truncated ≡ false
    → it.blocks_left ≡ length msgs
    → it.remaining ≡ encode_blocks msgs ++ rest
    → collect_blocks (length msgs) seq it ≡ ok (entries seq it.next_offset msgs)
unfolding collect_blocks
collect_blocks-encode_blocks [] seq it rest fits t left e = refl
collect_blocks-encode_blocks (m ∷ ms) seq it rest fits t left e =
    let assoc : encode_blocks (m ∷ ms) ++ rest
        ≡ to_be 2 (length m) ++ (m ++ (encode_blocks ms ++ rest)) =
      simp append_assoc in
    let step = next-encoded m (encode_blocks ms ++ rest) fits.0 it t (omega arith) (e ∙ assoc) in
    let it' : MessageBlockIter = record it {
      next_offset = it.next_offset + (2 + length m);
      remaining = encode_blocks ms ++ rest;
      blocks_left = it.blocks_left - 1;
    } in
    let ih = collect_blocks-encode_blocks ms (add64 seq 1) it' rest fits.1 t (omega arith) refl in
    ground (
      arith,
      collect_blocks-cons (length ms) seq (it.next_offset + 2) m it (ap (λ p. p.0) step),
      step,
      ih,
    )

payloads-entries :
    (msgs : List (List ℕ)) (seq offset : ℕ) (datagram rest : List ℕ)
    → drop offset datagram ≡ encode_blocks msgs ++ rest
    → payloads datagram (entries seq offset msgs) ≡ msgs
payloads-entries [] seq offset datagram rest e = refl
payloads-entries (m ∷ ms) seq offset datagram rest e =
    ap₂ ◌∷◌ (ap (take (length m)) body ∙ take-append m tail) (
      payloads-entries ms (add64 seq 1) (offset + (2 + length m)) datagram rest (
        ap (λ (k : ℕ). drop k datagram) (omega arith)
        ∙ sym (drop-drop (length m) (offset + 2) datagram)
        ∙ ap (drop (length m)) body
        ∙ drop-append m tail))
  where
    tail : List ℕ
    tail = encode_blocks ms ++ rest

    assoc : encode_blocks (m ∷ ms) ++ rest ≡ to_be 2 (length m) ++ (m ++ tail)
    assoc = simp append_assoc

    two : drop 2 (to_be 2 (length m) ++ (m ++ tail)) ≡ m ++ tail
    two = rw (length-to_be 2 (length m)) at (drop-append (to_be 2 (length m)) (m ++ tail))

    body : drop (offset + 2) datagram ≡ m ++ tail
    body = sym (drop-drop 2 offset datagram) ∙ ap (drop 2) (e ∙ assoc) ∙ two

-- A data packet as the server sends it.
abbrev pub encode_packet : DownstreamHeader → List (List ℕ) → List ℕ
encode_packet h msgs = encode_header h ++ encode_blocks msgs

-- From a packet of at most 65536 bytes that the server built out of `msgs`, each of at most 65535 bytes,
-- under a header that fits its fields and announces as many messages, the receiver reads back the header, one entry
-- for each message, numbered from the header's sequence on, and each entry names the bytes of its
-- message.
pub decode-encode_packet :
    (h : DownstreamHeader) (msgs : List (List ℕ))
    → IsHeader h
    → h.message_count ≡ length msgs
    → All FitsPrefix msgs
    → length (encode_packet h msgs) ≤ max_downstream_datagram
    → let datagram = encode_packet h msgs in
      let found = entries h.sequence header_len msgs in
      (parse_header datagram ≡ ok h)
      × (collect_blocks h.message_count h.sequence (blocks h datagram) ≡ ok found)
      × (payloads datagram found ≡ msgs)
decode-encode_packet h msgs v count fits size = (
  parse_header-encode_header h (encode_blocks msgs) v size,
  ap (λ k. collect_blocks k h.sequence (blocks h datagram)) count
      ∙ collect_blocks-encode_blocks msgs h.sequence (blocks h datagram) [] fits refl count
          (remaining ∙ sym (append-nil (encode_blocks msgs))),
  payloads-entries msgs h.sequence header_len (encode_packet h msgs) []
      (dropped ∙ sym (append-nil (encode_blocks msgs))),
)
  where
    datagram : List ℕ
    datagram = encode_packet h msgs

    dropped : drop header_len (encode_packet h msgs) ≡ encode_blocks msgs
    dropped = rw (length-encode_header h v) at (drop-append (encode_header h) (encode_blocks msgs))

    remaining : (blocks h datagram).remaining ≡ encode_blocks msgs
    remaining = ground (
      arith,
      dropped,
      length-append (encode_header h) (encode_blocks msgs),
      length-encode_header h v,
    )
