-- ===== src/Moldudp/Receiver/Process.antt =====
-- `process_next_pending` as a whole: what one datagram makes ready.
use polaris_trade.Base.{
  ℕ, zero, suc, ◌+◌, ◌≤◌, ◌≡◌, ◌∙◌, refl, sym, ap, subst, true, Option, some, List, [], ◌∷◌, ◌++◌,
  arith, ltb, ◌==◌, All, add64, u64_max, inl, inr, Bool-cases, Option-cases, ◌⊎◌,
}
use polaris_trade.Base.Result.{ok, Result-cases}
use polaris_trade.Moldudp.Wire.{
  DownstreamHeader, PacketKind, heartbeat, end_of_session, data_packet, kind, parse_header,
  MessageBlockIter, next, blocks, collect_blocks,
}
use polaris_trade.Moldudp.Wire.Blocks.{collect_blocks-cons}
use polaris_trade.Moldudp.Reassembly.View.{IsValid}
use polaris_trade.Moldudp.Reassembly.Drain.{FitsU64}
use polaris_trade.Moldudp.Receiver.{
  Held, held_bytes, heartbeat_event, end_of_session_event, ReadyItem, event, gap, owned, Inner,
  push_ready, note_tail_gap, anchor, accept_header,
}
use polaris_trade.Moldudp.Receiver.Decode.{
  with_clock, note_jump, note_unseen, Loop, place_blocks, process_data, process_control,
  process_datagram, process_next_pending,
}
use polaris_trade.Moldudp.Receiver.InOrder.{
  Emits, Emitted, Emitted-refl, Emitted-trans, SeqFits, after-ok, after-err, place_blocks-Emitted,
  expected,
}

collect_blocks-SeqFits :
    (fuel seq : ℕ) (it : MessageBlockIter) (bs : List (ℕ × ℕ × ℕ))
    → seq + fuel ≤ u64_max
    → collect_blocks fuel seq it ≡ ok bs
    → All SeqFits bs
unfolding collect_blocks
collect_blocks-SeqFits zero seq it bs h e = ground arith
collect_blocks-SeqFits (suc fuel) seq it bs h e = elim (Option-cases (next it).0) [
  | inl done ↦ ground arith
  | inr (item, more) ↦ elim (Result-cases item) [
    | inr (x, k) ↦ absurd (ground arith)
    | inl ((offset, bytes), k) ↦
        let step = collect_blocks-cons fuel seq offset bytes it (more ∙ ap some k) in
        let plus : add64 seq 1 ≡ seq + 1 = omega arith in
        elim (Result-cases (collect_blocks fuel (add64 seq 1) (next it).1)) [
          | inr (x, rest) ↦ absurd (ground (arith, step))
          | inl (bs', rest) ↦
              let ih =
                collect_blocks-SeqFits fuel (seq + 1) (next it).1 bs' (omega arith)
                  (rw plus at rest) in
              ground (arith, step, ih)
        ]
  ]
]

-- A receiver whose ring is sound and whose expected sequence is fixed.
pub record IsReady (r : Inner) : Type 0 where
  pub valid : IsValid r.reassembler
  pub fits : FitsU64 r.reassembler
  pub anchored : r.seq_anchored ≡ true

-- Pushing an item that is no message.
pub push-Emitted :
    (r r' : Inner) (item : ReadyItem)
    → ((e : ℕ) → Emits e (item ∷ []) e)
    → IsValid r.reassembler
    → FitsU64 r.reassembler
    → r'.ready ≡ r.ready
    → r'.reassembler ≡ r.reassembler
    → Emitted r (push_ready r' item)
push-Emitted r r' item silent v f e k = record {
  out = item ∷ [];
  appended = ap (λ xs. xs ++ item ∷ []) e;
  emits =
      subst (Emits (expected r) (item ∷ [])) (ap (λ x. x.expected_next) (sym k))
        (silent (expected r));
  valid = rw k v;
  fits = rw k f;
}

note_jump-Emitted :
    (r : Inner) (sequence : ℕ) (now : Option ℕ)
    → IsValid r.reassembler
    → FitsU64 r.reassembler
    → Emitted r (note_jump r sequence now)
unfolding note_jump
note_jump-Emitted r sequence now v f = elim (Bool-cases (ltb r.next_unseen sequence)) [
  | inr same ↦ rw (same, note_jump) (Emitted-refl r r v f refl refl)
  | inl jump ↦ elim (Option-cases (with_clock r.arbiter now)) [
    | inl one_leg ↦ rw (jump, one_leg, note_jump) (push-Emitted r _ gap (λ e. refl) v f refl refl)
    | inr (a, legs) ↦ rw (jump, legs, note_jump) (Emitted-refl r _ v f refl refl)
  ]
]

note_unseen-Emitted :
    (r : Inner) (h : DownstreamHeader) (now : Option ℕ)
    → IsValid r.reassembler
    → FitsU64 r.reassembler
    → Emitted r (note_unseen r h now)
unfolding note_unseen
note_unseen-Emitted r h now v f =
    let x = note_jump-Emitted r h.sequence now v f in
    record { out = x.out; appended = x.appended; emits = x.emits; valid = x.valid; fits = x.fits }

process_data-Emitted :
    (r : Inner) (stream : ℕ) (datagram : Held) (h : DownstreamHeader) (now : Option ℕ)
    → IsValid r.reassembler
    → FitsU64 r.reassembler
    → h.sequence + h.message_count ≤ u64_max
    → Emitted r (process_data r stream datagram h now).1
unfolding process_data
process_data-Emitted r stream datagram h now v f fits =
    elim (Result-cases
      (collect_blocks h.message_count h.sequence (blocks h (held_bytes datagram)))) [
        | inr (e, bad) ↦ rw (bad, process_data) (Emitted-refl r r v f refl refl)
        | inl (bs, good) ↦
            let first = note_unseen-Emitted r h now v f in
            let start : Loop = record {
              inner = note_unseen r h now;
              backing = owned datagram;
              inlined = 0;
            } in
            let placed = place_blocks start stream now bs in
            let second = place_blocks-Emitted start stream now bs first.valid first.fits (
              collect_blocks-SeqFits h.message_count h.sequence (blocks h (held_bytes datagram)) bs
                fits good) in
            let both = Emitted-trans r start.inner _ first second in
            elim (Result-cases placed.0) [
              | inr (e, bad) ↦
                  rw (good, bad, process_data) (subst (Emitted r) (after-err placed e bad) both)
              | inl (l, done) ↦
                  let end = subst (Emitted r) (after-ok placed l done) both in
                  elim (Bool-cases (l.inlined == 0)) [
                    | inl none_inline ↦ rw (good, done, none_inline, process_data) end
                    | inr some_inline ↦
                        rw (good, done, some_inline, process_data)
                          (record {
                            out = end.out;
                            appended = end.appended;
                            emits = end.emits;
                            valid = end.valid;
                            fits = end.fits;
                          })
                  ]
            ]
      ]

note_tail_gap-Emitted :
    (r : Inner) (next_expected : ℕ)
    → IsValid r.reassembler
    → FitsU64 r.reassembler
    → Emitted r (note_tail_gap r next_expected)
unfolding note_tail_gap
note_tail_gap-Emitted r n v f = elim (Bool-cases (ltb r.next_unseen n)) [
  | inr same ↦ rw (same, note_tail_gap) (Emitted-refl r r v f refl refl)
  | inl jump ↦ rw (jump, note_tail_gap) (push-Emitted r _ gap (λ e. refl) v f refl refl)
]

process_control-Emitted :
    (r : Inner) (item : ReadyItem) (n : ℕ)
    → ((e : ℕ) → Emits e (item ∷ []) e)
    → IsValid r.reassembler
    → FitsU64 r.reassembler
    → Emitted r (process_control r item n)
unfolding process_control
process_control-Emitted r item n silent v f =
    let t = note_tail_gap-Emitted r n v f in
    Emitted-trans r (note_tail_gap r n) _ t
      (push-Emitted (note_tail_gap r n) (note_tail_gap r n) item silent t.valid t.fits refl refl)

accept_header-same :
    (r : Inner) (h : DownstreamHeader)
    → r.seq_anchored ≡ true
    → ((accept_header r h).1.ready ≡ r.ready) × ((accept_header r h).1.reassembler ≡ r.reassembler)
unfolding accept_header anchor
accept_header-same r h v = ground arith

accept_header-Emitted :
    (r : Inner) (h : DownstreamHeader) → IsReady r → Emitted r (accept_header r h).1
accept_header-Emitted r h v =
    let e = accept_header-same r h v.anchored in Emitted-refl r _ v.valid v.fits e.0 e.1

pub kind_cases : (k : PacketKind) → (k ≡ heartbeat) ⊎ ((k ≡ end_of_session) ⊎ (k ≡ data_packet))
kind_cases heartbeat = inl refl
kind_cases end_of_session = inr (inl refl)
kind_cases data_packet = inr (inr refl)

-- The sequences of a datagram stay below the last of u64.
abbrev pub InRange : List ℕ → Type 0
InRange bytes =
    (h : DownstreamHeader) → parse_header bytes ≡ ok h → h.sequence + h.message_count ≤ u64_max

pub process_datagram-Emitted :
    (r : Inner) (stream : ℕ) (datagram : Held) (now : Option ℕ)
    → IsReady r
    → InRange (held_bytes datagram)
    → Emitted r (process_datagram r stream datagram now).1
unfolding process_datagram
process_datagram-Emitted r stream datagram now v range =
    elim (Result-cases (parse_header (held_bytes datagram))) [
      | inr (e, bad) ↦ rw (bad, process_datagram) (Emitted-refl r r v.valid v.fits refl refl)
      | inl (h, good) ↦
          let a = accept_header-Emitted r h v in
          let r' = (accept_header r h).1 in
          elim (Result-cases (accept_header r h).0) [
            | inr (e, mismatch) ↦ rw (good, mismatch, process_datagram) a
            | inl (u, accepted) ↦ elim (kind_cases (kind h)) [
              | inl k ↦
                  rw (good, accepted, k, process_datagram)
                    (Emitted-trans r r' _ a (
                      process_control-Emitted r' (event (heartbeat_event h.sequence)) h.sequence
                        (λ e. refl) a.valid a.fits))
              | inr (inl k) ↦
                  rw (good, accepted, k, process_datagram)
                    (Emitted-trans r r' _ a (
                      process_control-Emitted r' (event (end_of_session_event h.sequence))
                        h.sequence (λ e. refl) a.valid a.fits))
              | inr (inr k) ↦
                  rw (good, accepted, k, process_datagram)
                    (Emitted-trans r r' _ a
                      (process_data-Emitted r' stream datagram h now a.valid a.fits (range h good)))
            ]
          ]
    ]

-- The datagram that is decoded next has sequences below the last of u64.
abbrev pub NextInRange : List (ℕ × Held) → Type 0
NextInRange [] = Unit
NextInRange ((stream, datagram) ∷ rest) = InRange (held_bytes datagram)

process_pending :
    (r : Inner) (now : Option ℕ) (queue : List (ℕ × Held))
    → r.pending_datagrams ≡ queue
    → IsReady r
    → NextInRange queue
    → Emitted r (process_next_pending r now).1
unfolding process_next_pending
process_pending r now [] e v range =
    rw (e, process_next_pending)
      (Emitted-refl (record r { pending_datagrams = [] }) r v.valid v.fits refl refl)
process_pending r now ((stream, datagram) ∷ rest) e v range =
    let r' : Inner = record r { pending_datagrams = rest } in
    let x =
      process_datagram-Emitted r' stream datagram now
        (record { valid = v.valid; fits = v.fits; anchored = v.anchored }) range in
    rw (e, process_next_pending)
      (record {
        out = x.out;
        appended = x.appended;
        emits = x.emits;
        valid = x.valid;
        fits = x.fits;
      })

-- Whatever datagram is next, in whatever order datagrams arrive and on whatever leg, and whether it is
-- decoded or fails: what it makes ready goes behind what was ready, and the messages among it are
-- numbered consecutively from the old expected sequence up to the new one, none missing, none twice.
-- The expected sequence is anchored, the ring is sound, and numbers stay below the last of u64.
pub process_next_pending-Emitted :
    (r : Inner) (now : Option ℕ)
    → IsReady r
    → NextInRange r.pending_datagrams
    → Emitted r (process_next_pending r now).1
process_next_pending-Emitted r now v range = process_pending r now r.pending_datagrams refl v range
