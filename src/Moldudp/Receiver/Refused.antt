-- ===== src/Moldudp/Receiver/Refused.antt =====
-- What a refused block leaves behind: `mark_received` before `insert` in receiver/decode.rs.
use polaris_trade.Base.{
  ℕ, ◌%◌, ◌<◌, ◌≡◌, refl, sym, ◌∙◌, ap, Bool, false, none, some, arith, ltb, ◌==◌, u64_max, inl,
  inr, Bool-cases, ◌≢◌,
}
use polaris_trade.Base.Result.{ok, err, Result-cases}
use polaris_trade.Moldudp.Error.{MoldUdpError}
use polaris_trade.Moldudp.Gap.{mark_received}
use polaris_trade.Moldudp.Gap.Record.{IsValid as IsSeparated, is_missing}
use polaris_trade.Moldudp.Gap.Received.{mark_received_lem}
use polaris_trade.Moldudp.Reassembly.{SequenceReassembler, insert}
use polaris_trade.Moldudp.Reassembly.View.{IsValid, held, insert-refused}
use polaris_trade.Moldudp.Receiver.{MessageView, Inner, share}
use polaris_trade.Moldudp.Receiver.Decode.{Loop, buffer_view, place_block}

-- Of the sequences that share a slot at most one is held.
held-other :
    {A : Type 0} (r : SequenceReassembler A) (q s : ℕ) (a : A)
    → q ≢ s
    → q % r.capacity ≡ s % r.capacity
    → held r q ≡ some a
    → held r s ≡ none
unfolding held
held-other r q s a ne same h = ground (arith, same)

buffer_view-refused :
    (l : Loop) (stream_id seq offset len : ℕ) (x : MoldUdpError)
    → IsValid l.inner.reassembler
    → (buffer_view l stream_id seq offset len).0 ≡ err x
    → let failed = (buffer_view l stream_id seq offset len).1 in
      (failed.gap_handler ≡ l.inner.gap_handler)
      × (failed.ready ≡ l.inner.ready)
      × (held failed.reassembler seq ≡ none)
unfolding buffer_view
buffer_view-refused l stream_id seq offset len x v e =
    let view : MessageView = record {
      datagram = (share l.backing).1;
      offset = offset;
      len = len;
    } in
    elim (Result-cases (insert l.inner.reassembler seq view).0) [
      | inl (b, accepted) ↦ absurd (not-refused b accepted)
      | inr (y, refused) ↦
          let c = insert-refused l.inner.reassembler seq view y v refused in
          rw (refused, buffer_view)
            (
              refl,
              refl,
              ap (λ s. held s seq) c.1 ∙ held-other l.inner.reassembler c.2 seq c.3 c.4 c.5 c.6,
            )
    ]
  where
    not-refused :
        (b : Bool)
        → (insert l.inner.reassembler seq
            (record { datagram = (share l.backing).1; offset = offset; len = len })).0
          ≡ ok b
        → ⊥
    not-refused b k = ground (arith, e)

-- When a block is refused, on a sound ring and a valid gap handler and below the last of u64, it is not held and nothing is made
-- ready, and yet the gap handler no longer counts it as missing: it is not asked for again.
pub place_block-refused :
    (l : Loop) (stream_id seq offset len : ℕ) (x : MoldUdpError)
    → IsValid l.inner.reassembler
    → IsSeparated l.inner.gap_handler
    → seq < u64_max
    → (place_block l stream_id seq offset len).0 ≡ err x
    → let failed = (place_block l stream_id seq offset len).1 in
      (is_missing failed.gap_handler seq ≡ false)
      × (failed.ready ≡ l.inner.ready)
      × (held failed.reassembler seq ≡ none)
unfolding place_block
place_block-refused l stream_id seq offset len x v w lt e =
    let inner : Inner = record l.inner { gap_handler = mark_received l.inner.gap_handler seq } in
    let l' : Loop = record l { inner = inner } in
    elim (Bool-cases (ltb seq l.inner.reassembler.expected_next)) [
      | inl stale ↦ absurd (ground arith)
      | inr ahead ↦ elim (Bool-cases (seq == l.inner.reassembler.expected_next)) [
        | inl next ↦ absurd (ground arith)
        | inr later ↦
            let same : place_block l stream_id seq offset len
                ≡ buffer_view l' stream_id seq offset len =
              rw (ahead, later, place_block) refl in
            let b =
              buffer_view-refused l' stream_id seq offset len x v (ap (λ p. p.0) (sym same) ∙ e) in
            let m = mark_received_lem l.inner.gap_handler seq seq lt w in
            rw (ahead, later, place_block) (ground (arith, b.0, m.1), b.1, b.2)
      ]
    ]
