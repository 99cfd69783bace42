-- ===== src/Soupbintcp/Session/Inbound/Numbers.antt =====
-- The packets that a server writes, as a streaming session dispatches them.
use polaris_trade.Base.{
  ℕ, ◌+◌, ◌-◌, ◌≤◌, ◌<◌, ◌≡◌, ◌∙◌, ap, ap₂, some, List, ◌∷◌, ◌++◌, arith, length, take, drop,
  length-to_be, take-append, drop-append, to_be, from_be-to_be, u16_max, add64,
  split_first_chunk-append,
}
use mathlib.Core.List.{append_assoc}
use polaris_trade.Base.Result.{ok}
use polaris_trade.Soupbintcp.Error.{PacketType, sequenced_data}
use polaris_trade.Soupbintcp.Wire.{packet_byte, parse_packet}
use polaris_trade.Soupbintcp.Wire.RoundTrip.{encode_packet, parse_packet-encode_packet}
use polaris_trade.Soupbintcp.Session.{Session, data_message}
use polaris_trade.Soupbintcp.Session.Inbound.{
  guard_size, take_packet, dispatch_stream_fuel, dispatch_stream,
}

guard_size-encode_packet :
    (max : ℕ) (ty : PacketType) (payload rest : List ℕ)
    → length payload < u16_max
    → 3 + length payload ≤ max
    → guard_size max (encode_packet ty payload ++ rest) ≡ ok tt
unfolding guard_size
guard_size-encode_packet max ty payload rest lt le =
    let prefix = to_be 2 (1 + length payload) in
    let split =
      split_first_chunk-append prefix (packet_byte ty ∷ payload ++ rest)
        (length-to_be 2 (1 + length payload)) in
    let assoc = append_assoc prefix (packet_byte ty ∷ payload) rest in
    ground (arith, split, assoc, from_be-to_be 2 0 (1 + length payload))

-- The session once it has taken the packet in front of `rest`.
abbrev behind : Session → List ℕ → Session
behind s rest = record s { decode_buf = rest }

take_packet-encode_packet :
    (s : Session) (ty : PacketType) (payload rest : List ℕ)
    → s.decode_buf ≡ encode_packet ty payload ++ rest
    → length payload < u16_max
    → 3 + length payload ≤ s.cfg.max_frame_size
    → take_packet s ≡ (ok (some (ty, payload)), behind s rest)
unfolding take_packet to_be
take_packet-encode_packet s ty payload rest e lt le =
    let small : guard_size s.cfg.max_frame_size s.decode_buf ≡ ok tt =
      ap (guard_size s.cfg.max_frame_size) e
      ∙ guard_size-encode_packet s.cfg.max_frame_size ty payload rest lt le in
    let parsed = ap parse_packet e ∙ parse_packet-encode_packet ty payload rest lt in
    rw (small, parsed, take_packet) (ap₂ (λ p b. (ok (some (ty, p)), behind s b)) body tail)
  where
    packet : List ℕ
    packet = encode_packet ty payload

    size : 3 + length payload ≡ length packet
    size = omega arith

    body :
        drop (3 + length payload - length payload) (take (3 + length payload) s.decode_buf)
        ≡ payload
    body =
        let three : 3 + length payload - length payload ≡ 3 = omega arith in
        ap (λ (k : ℕ). drop k (take (3 + length payload) s.decode_buf)) three
        ∙ ap₂ (λ (k : ℕ) (b : List ℕ). drop 3 (take k b)) size e
        ∙ ap (drop 3) (take-append packet rest)

    tail : drop (3 + length payload) s.decode_buf ≡ rest
    tail = ap₂ (λ (k : ℕ) (b : List ℕ). drop k b) size e ∙ drop-append packet rest

-- From a buffer that begins with a whole Sequenced Data packet, of at most 65534 bytes of payload and no
-- more than the frame limit, `dispatch_stream` hands out its payload under the expected sequence, moves
-- that sequence on by one, and leaves the rest of the buffer for the next call.
dispatch_stream-encode_packet :
    (s : Session) (payload rest : List ℕ)
    → s.decode_buf ≡ encode_packet sequenced_data payload ++ rest
    → length payload < u16_max
    → 3 + length payload ≤ s.cfg.max_frame_size
    → dispatch_stream s ≡ (
      ok (some (data_message s.next_expected_sequence)),
      record s {
        decode_buf = rest;
        last_frame = payload;
        next_expected_sequence = add64 s.next_expected_sequence 1;
      },
    )
unfolding dispatch_stream dispatch_stream_fuel
dispatch_stream-encode_packet s payload rest e lt le =
    let taken = take_packet-encode_packet s sequenced_data payload rest e lt le in
    rw (ap (λ p. p.0) taken, dispatch_stream_fuel)
      (ap
        (λ z. (
          ok (some (data_message z.next_expected_sequence)),
          record z {
            last_frame = payload;
            next_expected_sequence = add64 z.next_expected_sequence 1;
          },
        ))
        (ap (λ p. p.1) taken))
