-- ===== src/Moldudp/Receiver/Decode.antt =====
-- `process_next_pending` of crates/clients/moldudp/src/receiver/decode.rs: one datagram into ready
-- items. `now` is the arbiter's clock, given exactly if there are several legs.
use polaris_trade.Base.{
  ℕ, Bool, true, false, Option, none, some, List, [], ◌∷◌, ◌++◌, ltb, ◌==◌, max, if◌then◌else◌,
  add64, saturating_add64, ◌+◌,
}
use polaris_trade.Base.Result.{Result, ok, err}
use polaris_trade.Moldudp.Error.{MoldUdpError}
use polaris_trade.Moldudp.Wire.{
  DownstreamHeader, heartbeat, end_of_session, data_packet, kind, parse_header, blocks,
  collect_blocks,
}
use polaris_trade.Moldudp.Gap.{record_missing_range, mark_received}
use polaris_trade.Moldudp.Ab.{
  AbArbiter, forward, duplicate, out_of_window, note_missing_range, observe,
}
use polaris_trade.Moldudp.Reassembly.{advance_expected, insert, drain}
use polaris_trade.Moldudp.Receiver.{
  Held, held_bytes, MessageView, heartbeat_event, end_of_session_event, ReadyItem, inline, view,
  event, gap, Backing, owned, share, Inner, push_ready, note_tail_gap, accept_header,
}

-- `self.arbiter.as_mut().zip(now)`
abbrev pub with_clock : Option AbArbiter → Option ℕ → Option (AbArbiter × ℕ)
with_clock none now = none
with_clock (some a) none = none
with_clock (some a) (some now) = some (a, now)

-- The jump past the highest sequence seen: staged with the arbiter, or recorded at once.
unfoldable pub note_jump : Inner → ℕ → Option ℕ → Inner
note_jump r sequence now =
    if ltb r.next_unseen sequence
    then elim (with_clock r.arbiter now) [
      | some (a, t) ↦ record r { arbiter = some (note_missing_range a r.next_unseen sequence t) }
      | none ↦
          push_ready
            (record r { gap_handler = record_missing_range r.gap_handler r.next_unseen sequence })
            gap
    ]
    else r

unfoldable pub note_unseen : Inner → DownstreamHeader → Option ℕ → Inner
note_unseen r h now = record (note_jump r h.sequence now) {
  next_unseen = max r.next_unseen (saturating_add64 h.sequence h.message_count);
}

-- The arbiter's say on a block: whether to go on, and the receiver after it.
unfoldable pub arbitrate : Inner → ℕ → ℕ → Option ℕ → Bool × Inner
arbitrate r stream_id seq now = elim (with_clock r.arbiter now) [
  | none ↦ (true, r)
  | some (a, t) ↦
      let (verdict, a') = observe a stream_id seq t in
      (
        elim verdict [ forward ↦ true | duplicate ↦ false | out_of_window ↦ false ],
        record r { arbiter = some a' },
      )
]

-- `(seq..).zip(cursor)`, each pushed as a view.
abbrev pub views_from : ℕ → ℕ → List MessageView → List ReadyItem
views_from seq stream_id [] = []
views_from seq stream_id (v ∷ vs) = view v seq stream_id ∷ views_from (add64 seq 1) stream_id vs

-- The loop over the blocks carries the receiver, the backing, and how many items are inline.
pub record Loop : Type 0 where
  pub inner : Inner
  pub backing : Backing
  pub inlined : ℕ

-- A block on the expected sequence: it goes out inline, and what it makes contiguous behind it.
unfoldable pub emit_inline : Loop → ℕ → ℕ → ℕ → ℕ → Loop
emit_inline l stream_id seq offset len =
    let (out, reassembler) = drain (advance_expected l.inner.reassembler 1) in
    record l {
      inner = record l.inner {
        reassembler = reassembler;
        ready =
            l.inner.ready
            ++ (inline seq stream_id offset len ∷ views_from (add64 seq 1) stream_id out);
      };
      inlined = l.inlined + 1;
    }

-- A block ahead of it: the datagram is shared, and the reassembler keeps a view.
unfoldable pub buffer_view : Loop → ℕ → ℕ → ℕ → ℕ → Result MoldUdpError Loop × Inner
buffer_view l stream_id seq offset len =
    let (backing, arc) = share l.backing in
    let (answer, reassembler) =
      insert l.inner.reassembler seq (record { datagram = arc; offset = offset; len = len }) in
    let inner : Inner = record l.inner { reassembler = reassembler } in
    let (out, drained) = drain reassembler in
    elim answer [
      | err e ↦ (err e, inner)
      | ok false ↦ (ok (record l { inner = inner; backing = backing }), inner)
      | ok true ↦ (
        ok (record l {
          inner = record inner {
            reassembler = drained;
            ready = inner.ready ++ views_from seq stream_id out;
          };
          backing = backing;
        }),
        inner,
      )
    ]

-- A block that is to go on: `mark_received`, then by its place against the expected sequence.
unfoldable pub place_block : Loop → ℕ → ℕ → ℕ → ℕ → Result MoldUdpError Loop × Inner
place_block l stream_id seq offset len =
    let inner : Inner = record l.inner { gap_handler = mark_received l.inner.gap_handler seq } in
    let l' : Loop = record l { inner = inner } in
    if ltb seq inner.reassembler.expected_next
    then (ok l', inner)
    else if seq == inner.reassembler.expected_next
    then (ok (emit_inline l' stream_id seq offset len), inner)
    else buffer_view l' stream_id seq offset len

-- The loop over the blocks. On an error the receiver is left as the failing block left it.
unfoldable pub place_blocks :
    Loop → ℕ → Option ℕ → List (ℕ × ℕ × ℕ) → Result MoldUdpError Loop × Inner
place_blocks l stream_id now [] = (ok l, l.inner)
place_blocks l stream_id now ((seq, offset, len) ∷ bs) =
    let (go_on, inner) = arbitrate l.inner stream_id seq now in
    let l' : Loop = record l { inner = inner } in
    let skip = place_blocks l' stream_id now bs in
    let (placed, failed) = place_block l' stream_id seq offset len in
    elim go_on [
      | false ↦ skip
      | true ↦ elim placed [ err e ↦ (err e, failed) | ok l'' ↦ place_blocks l'' stream_id now bs ]
    ]

-- What follows the header of a data packet.
unfoldable pub process_data :
    Inner → ℕ → Held → DownstreamHeader → Option ℕ → Result MoldUdpError (Unit {0}) × Inner
process_data r stream_id datagram header now =
    elim (collect_blocks header.message_count header.sequence
      (blocks header (held_bytes datagram))) [
        | err e ↦ (err e, r)
        | ok bs ↦
            let start : Loop = record {
              inner = note_unseen r header now;
              backing = owned datagram;
              inlined = 0;
            } in
            let (placed, failed) = place_blocks start stream_id now bs in
            elim placed [
              | err e ↦ (err e, failed)
              | ok l ↦ (
                ok tt,
                if l.inlined == 0
                    then l.inner
                    else record l.inner { backing = l.backing; inline_pending = l.inlined },
              )
            ]
      ]

-- A heartbeat or the end of the session.
unfoldable pub process_control : Inner → ReadyItem → ℕ → Inner
process_control r item next_expected = push_ready (note_tail_gap r next_expected) item

unfoldable pub process_datagram :
    Inner → ℕ → Held → Option ℕ → Result MoldUdpError (Unit {0}) × Inner
process_datagram r stream_id datagram now = elim (parse_header (held_bytes datagram)) [
  | err e ↦ (err e, r)
  | ok header ↦
      let (accepted, r') = accept_header r header in
      elim accepted [
        | err e ↦ (err e, r')
        | ok u ↦ elim (kind header) [
          | heartbeat ↦
              (ok tt, process_control r' (event (heartbeat_event header.sequence)) header.sequence)
          | end_of_session ↦ (
            ok tt,
            process_control r' (event (end_of_session_event header.sequence)) header.sequence,
          )
          | data_packet ↦ process_data r' stream_id datagram header now
        ]
      ]
]

unfoldable pub process_next_pending : Inner → Option ℕ → Result MoldUdpError (Unit {0}) × Inner
process_next_pending r now = elim r.pending_datagrams [
  | [] ↦ (ok tt, r)
  | (stream_id, datagram) ∷ rest ↦
      process_datagram (record r { pending_datagrams = rest }) stream_id datagram now
]
