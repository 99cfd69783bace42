-- ===== src/Moldudp/Receive/Kept.antt =====
-- What decoding one datagram leaves alone: the datagrams behind it, that the sequence is
-- anchored, and the item that the caller has.
use polaris_trade.Base.{
  ℕ, ◌≡◌, ◌∙◌, refl, Bool, true, false, Option, List, [], ◌∷◌, ltb, ◌==◌, inl, inr, Bool-cases,
  Option-cases,
}
use polaris_trade.Base.Result.{Result-cases}
use polaris_trade.Moldudp.Wire.{DownstreamHeader, kind, parse_header, blocks, collect_blocks}
use polaris_trade.Moldudp.Reassembly.{insert}
use polaris_trade.Moldudp.Receiver.{
  Held, held_bytes, MessageView, ReadyItem, Inner, owned, share, note_tail_gap, anchor,
  accept_header, same_bytes, event, heartbeat_event, end_of_session_event,
}
use polaris_trade.Moldudp.Receiver.Decode.{
  with_clock, note_jump, note_unseen, arbitrate, Loop, emit_inline, buffer_view, place_block,
  place_blocks, process_data, process_control, process_datagram,
}
use polaris_trade.Moldudp.Receiver.InOrder.{after}
use polaris_trade.Moldudp.Receiver.Process.{kind_cases}

abbrev pub Queue : Type 0
Queue = List (ℕ × Held) × Bool × Option ReadyItem

abbrev pub queue_of : Inner → Queue
queue_of r = (r.pending_datagrams, r.seq_anchored, r.current)

note_jump-queue_of :
    (r : Inner) (sequence : ℕ) (now : Option ℕ) → queue_of (note_jump r sequence now) ≡ queue_of r
unfolding note_jump
note_jump-queue_of r sequence now = elim (Bool-cases (ltb r.next_unseen sequence)) [
  | inr behind ↦ rw (behind, note_jump) refl
  | inl jump ↦ elim (Option-cases (with_clock r.arbiter now)) [
    | inl e ↦ rw (jump, e, note_jump) refl
    | inr (a, e) ↦ rw (jump, e, note_jump) refl
  ]
]

arbitrate-queue_of :
    (r : Inner) (stream seq : ℕ) (now : Option ℕ)
    → queue_of (arbitrate r stream seq now).1 ≡ queue_of r
unfolding arbitrate
arbitrate-queue_of r stream seq now = elim (Option-cases (with_clock r.arbiter now)) [
  | inl e ↦ rw (e, arbitrate) refl
  | inr (a, e) ↦ rw (e, arbitrate) refl
]

buffer_view-queue_of :
    (l : Loop) (stream seq offset len : ℕ)
    → queue_of (after (buffer_view l stream seq offset len)) ≡ queue_of l.inner
unfolding buffer_view
buffer_view-queue_of l stream seq offset len =
    let v : MessageView = record { datagram = (share l.backing).1; offset = offset; len = len } in
    elim (Result-cases (insert l.inner.reassembler seq v).0) [
      | inr (x, e) ↦ rw (e, buffer_view) refl
      | inl (true, e) ↦ rw (e, buffer_view) refl
      | inl (false, e) ↦ rw (e, buffer_view) refl
    ]

place_block-queue_of :
    (l : Loop) (stream seq offset len : ℕ)
    → queue_of (after (place_block l stream seq offset len)) ≡ queue_of l.inner
unfolding place_block emit_inline
place_block-queue_of l stream seq offset len =
    elim (Bool-cases (ltb seq l.inner.reassembler.expected_next)) [
      | inl old ↦ rw (old, place_block) refl
      | inr new ↦ elim (Bool-cases (seq == l.inner.reassembler.expected_next)) [
        | inl next ↦ rw (new, next, place_block) refl
        | inr ahead ↦ rw (new, ahead, place_block) (buffer_view-queue_of _ stream seq offset len)
      ]
    ]

place_blocks-queue_of :
    (l : Loop) (stream : ℕ) (now : Option ℕ) (bs : List (ℕ × ℕ × ℕ))
    → queue_of (after (place_blocks l stream now bs)) ≡ queue_of l.inner
unfolding place_blocks
place_blocks-queue_of l stream now [] = refl
place_blocks-queue_of l stream now ((seq, offset, len) ∷ bs) =
    let arbited = arbitrate l.inner stream seq now in
    let l' : Loop = record l { inner = arbited.1 } in
    let same = arbitrate-queue_of l.inner stream seq now in
    let placed = place_block l' stream seq offset len in
    elim (Bool-cases arbited.0) [
      | inr skip ↦ rw (skip, place_blocks) (place_blocks-queue_of l' stream now bs ∙ same)
      | inl go ↦ elim (Result-cases placed.0) [
        | inr (x, e) ↦
            rw (go, e, place_blocks)
              (rw e at (place_block-queue_of l' stream seq offset len) ∙ same)
        | inl (l'', e) ↦
            rw (go, e, place_blocks)
              (place_blocks-queue_of l'' stream now bs
                ∙ rw e at (place_block-queue_of l' stream seq offset len)
                ∙ same)
      ]
    ]

pub process_data-queue_of :
    (r : Inner) (stream : ℕ) (datagram : Held) (h : DownstreamHeader) (now : Option ℕ)
    → queue_of (process_data r stream datagram h now).1 ≡ queue_of r
unfolding process_data note_unseen
process_data-queue_of r stream datagram h now =
    elim (Result-cases
      (collect_blocks h.message_count h.sequence (blocks h (held_bytes datagram)))) [
        | inr (x, e) ↦ rw (e, process_data) refl
        | inl (bs, e) ↦
            let start : Loop = record {
              inner = note_unseen r h now;
              backing = owned datagram;
              inlined = 0;
            } in
            let same = note_jump-queue_of r h.sequence now in
            let placed = place_blocks start stream now bs in
            elim (Result-cases placed.0) [
              | inr (x, fails) ↦
                  rw (e, fails, process_data)
                    (rw fails at (place_blocks-queue_of start stream now bs) ∙ same)
              | inl (l, works) ↦
                  let kept : queue_of l.inner ≡ queue_of r =
                    rw works at (place_blocks-queue_of start stream now bs) ∙ same in
                  elim (Bool-cases (l.inlined == 0)) [
                    | inl none_inlined ↦ rw (e, works, none_inlined, process_data) kept
                    | inr inlined ↦ rw (e, works, inlined, process_data) kept
                  ]
            ]
      ]

pub process_control-queue_of :
    (r : Inner) (item : ReadyItem) (next : ℕ) → queue_of (process_control r item next) ≡ queue_of r
unfolding process_control note_tail_gap
process_control-queue_of r item next = elim (Bool-cases (ltb r.next_unseen next)) [
  | inl tail ↦ rw (tail, process_control, note_tail_gap) refl
  | inr settled ↦ rw (settled, process_control, note_tail_gap) refl
]

accept_header-queue_of :
    (r : Inner) (h : DownstreamHeader)
    → r.seq_anchored ≡ true
    → queue_of (accept_header r h).1 ≡ queue_of r
unfolding accept_header anchor
accept_header-queue_of r h anchored = elim (Option-cases r.session) [
  | inl e ↦ rw (e, anchored, accept_header) refl
  | inr (expected, e) ↦ elim (Bool-cases (same_bytes expected h.session)) [
    | inl same ↦ rw (e, same, anchored, accept_header) refl
    | inr other ↦ rw (e, other, accept_header) refl
  ]
]

pub process_datagram-queue_of :
    (r : Inner) (stream : ℕ) (datagram : Held) (now : Option ℕ)
    → r.seq_anchored ≡ true
    → queue_of (process_datagram r stream datagram now).1 ≡ queue_of r
unfolding process_datagram
process_datagram-queue_of r stream datagram now anchored =
    elim (Result-cases (parse_header (held_bytes datagram))) [
      | inr (x, bad) ↦ rw (bad, process_datagram) refl
      | inl (h, good) ↦
          let r' = (accept_header r h).1 in
          let same = accept_header-queue_of r h anchored in
          elim (Result-cases (accept_header r h).0) [
            | inr (x, refused) ↦ rw (good, refused, process_datagram) same
            | inl (u, accepted) ↦ elim (kind_cases (kind h)) [
              | inl k ↦
                  rw (good, accepted, k, process_datagram)
                    (process_control-queue_of r' (event (heartbeat_event h.sequence)) h.sequence
                      ∙ same)
              | inr (inl k) ↦
                  rw (good, accepted, k, process_datagram)
                    (process_control-queue_of r' (event (end_of_session_event h.sequence))
                        h.sequence
                      ∙ same)
              | inr (inr k) ↦
                  rw (good, accepted, k, process_datagram)
                    (process_data-queue_of r' stream datagram h now ∙ same)
            ]
          ]
    ]
