-- ===== src/Moldudp/Receiver/InOrder.antt =====
-- The receiver hands out consecutive sequence numbers, whatever arrives.
use polaris_trade.Base.{
  ℕ, suc, ◌+◌, ◌<◌, ◌≡◌, ◌∙◌, refl, sym, ap, subst, ◌≢◌, true, false, Option, List, [], ◌∷◌, ◌++◌,
  arith, ltb, ◌==◌, length, All, add64, u64_max, inl, inr, Bool-cases, Option-cases,
}
use polaris_trade.Base.Result.{Result, ok, err, Result-cases}
use polaris_trade.Moldudp.Error.{MoldUdpError}
use polaris_trade.Moldudp.Gap.{mark_received}
use polaris_trade.Moldudp.Reassembly.{SequenceReassembler, advance_expected, insert, drain}
use polaris_trade.Moldudp.Reassembly.View.{held, IsValid, insert_lem}
use polaris_trade.Moldudp.Reassembly.Drain.{FitsU64, Run, Drained, drain_lem}
use polaris_trade.Moldudp.Receiver.{MessageView, ReadyItem, inline, view, event, gap, Inner, share}
use polaris_trade.Moldudp.Receiver.Decode.{
  with_clock, Loop, views_from, arbitrate, emit_inline, buffer_view, place_block, place_blocks,
}
use mathlib.Core.List.{append-nil, append_assoc}

-- The messages among the items are numbered from `e` on, one after the other, up to but not `e'`.
abbrev pub Emits : ℕ → List ReadyItem → ℕ → Type 0
Emits e [] e' = e ≡ e'
Emits e (inline s stream offset len ∷ items) e' = (s ≡ e) × Emits (e + 1) items e'
Emits e (view v s stream ∷ items) e' = (s ≡ e) × Emits (e + 1) items e'
Emits e (event ev ∷ items) e' = Emits e items e'
Emits e (gap ∷ items) e' = Emits e items e'

pub Emits-append :
    (a b c : ℕ) (xs ys : List ReadyItem) → Emits a xs b → Emits b ys c → Emits a (xs ++ ys) c
Emits-append a b c [] ys h k = rw h k
Emits-append a b c (inline s t o n ∷ xs) ys h k = (h.0, Emits-append (a + 1) b c xs ys h.1 k)
Emits-append a b c (view v s t ∷ xs) ys h k = (h.0, Emits-append (a + 1) b c xs ys h.1 k)
Emits-append a b c (event ev ∷ xs) ys h k = Emits-append a b c xs ys h k
Emits-append a b c (gap ∷ xs) ys h k = Emits-append a b c xs ys h k

abbrev pub expected : Inner → ℕ
expected r = r.reassembler.expected_next

-- From `r` to `r'` items were made ready behind those that there were, and their messages are
-- exactly those from the expected sequence of `r` up to that of `r'`.
pub record Emitted (r r' : Inner) : Type 0 where
  pub out : List ReadyItem
  pub appended : r'.ready ≡ r.ready ++ out
  pub emits : Emits (expected r) out (expected r')
  pub valid : IsValid r'.reassembler
  pub fits : FitsU64 r'.reassembler

pub Emitted-refl :
    (r r' : Inner)
    → IsValid r.reassembler
    → FitsU64 r.reassembler
    → r'.ready ≡ r.ready
    → r'.reassembler ≡ r.reassembler
    → Emitted r r'
Emitted-refl r r' v f e k = record {
  out = [];
  appended = e ∙ sym (append-nil r.ready);
  emits = ap (λ x. x.expected_next) (sym k);
  valid = rw k v;
  fits = rw k f;
}

pub Emitted-trans : (r s t : Inner) → Emitted r s → Emitted s t → Emitted r t
Emitted-trans r s t a b = record {
  out = a.out ++ b.out;
  appended = b.appended ∙ ap (λ xs. xs ++ b.out) a.appended ∙ append_assoc r.ready a.out b.out;
  emits = Emits-append (expected r) (expected s) (expected t) a.out b.out a.emits b.emits;
  valid = b.valid;
  fits = b.fits;
}

Emits-views_from :
    (r : SequenceReassembler MessageView) (s stream : ℕ) (vs : List MessageView)
    → FitsU64 r
    → Run (held r) s vs
    → Emits s (views_from s stream vs) (s + length vs)
Emits-views_from r s stream [] f run = omega arith
Emits-views_from r s stream (v ∷ vs) f run =
    let plus : add64 s 1 ≡ s + 1 = omega (arith, f s v run.0) in
    let rest = Emits-views_from r (s + 1) stream vs f run.1 in
    let e : s + 1 + length vs ≡ s + suc (length vs) = omega arith in (refl, rw plus (rw e at rest))

advance-Ring :
    (r : SequenceReassembler MessageView) (n : ℕ)
    → IsValid r
    → FitsU64 r
    → IsValid (advance_expected r n) × FitsU64 (advance_expected r n)
unfolding advance_expected held
advance-Ring r n v f =
    (record { sized = v.sized; positive = v.positive; placed = v.placed }, λ s a h. f s a h)

advanced :
    (r : SequenceReassembler MessageView) (seq : ℕ)
    → seq ≡ r.expected_next
    → seq < u64_max
    → (advance_expected r 1).expected_next ≡ seq + 1
unfolding advance_expected
advanced r seq e lt = omega arith

Drained-views :
    (r : SequenceReassembler MessageView) (seq stream : ℕ)
    (out : List MessageView × SequenceReassembler MessageView)
    → FitsU64 r
    → r.expected_next ≡ seq + 1
    → seq < u64_max
    → Drained r out
    → Emits (seq + 1) (views_from (add64 seq 1) stream out.0) out.1.expected_next
Drained-views r seq stream out f next lt d =
    let plus : add64 seq 1 ≡ seq + 1 = omega arith in
    let run = subst (λ (n : ℕ). Run (held r) n out.0) next d.run in
    let end : seq + 1 + length out.0 ≡ out.1.expected_next = omega (arith, d.moved) in
    rw plus (
      subst (λ (n : ℕ). Emits (seq + 1) (views_from (seq + 1) stream out.0) n) end
        (Emits-views_from r (seq + 1) stream out.0 f run))

emit_inline-Emitted :
    (l : Loop) (stream seq offset len : ℕ)
    → IsValid l.inner.reassembler
    → FitsU64 l.inner.reassembler
    → seq ≡ expected l.inner
    → seq < u64_max
    → Emitted l.inner (emit_inline l stream seq offset len).inner
unfolding emit_inline
emit_inline-Emitted l stream seq offset len v f e lt =
    let r = advance_expected l.inner.reassembler 1 in
    let ring = advance-Ring l.inner.reassembler 1 v f in
    let d = drain_lem r ring.0 ring.1 in
    record {
      out = inline seq stream offset len ∷ views_from (add64 seq 1) stream (drain r).0;
      appended = refl;
      emits = (
        e,
        subst
            (λ (n : ℕ).
              Emits (n + 1) (views_from (add64 seq 1) stream (drain r).0) (drain r).1.expected_next)
            e
            (Drained-views r seq stream (drain r) ring.1 (advanced l.inner.reassembler seq e lt) lt
              d),
      );
      valid = d.valid;
      fits = λ s a h. ground (arith, d.emptied s, ring.1 s a);
    }

insert-ne-cursor :
    (r : SequenceReassembler MessageView) (seq : ℕ) (slab : MessageView)
    → seq ≢ r.expected_next
    → (insert r seq slab).0 ≢ ok true
unfolding insert
insert-ne-cursor r seq slab ne e = ground arith

insert-Ring :
    (r : SequenceReassembler MessageView) (seq : ℕ) (slab : MessageView)
    → IsValid r
    → FitsU64 r
    → seq < u64_max
    → IsValid (insert r seq slab).1
      × FitsU64 (insert r seq slab).1
      × ((insert r seq slab).1.expected_next ≡ r.expected_next)
insert-Ring r seq slab v f lt =
    let i = insert_lem r seq slab v in
    (
      i.valid,
      λ s a h. elim (Bool-cases (s == seq)) [
        | inl same ↦ ground arith
        | inr other ↦ f s a (sym (i.others s (ground arith)) ∙ h)
      ],
      i.same_expected,
    )

-- The receiver after a step that may fail.
abbrev pub after : Result MoldUdpError Loop × Inner → Inner
after (ok l, r) = l.inner
after (err e, r) = r

buffer_view-Emitted :
    (l : Loop) (stream seq offset len : ℕ)
    → IsValid l.inner.reassembler
    → FitsU64 l.inner.reassembler
    → seq ≢ expected l.inner
    → seq < u64_max
    → Emitted l.inner (after (buffer_view l stream seq offset len))
unfolding buffer_view
buffer_view-Emitted l stream seq offset len v f ne lt = elim (Result-cases (insert r seq slab).0) [
  | inr (e, failed) ↦ rw (failed, buffer_view) kept
  | inl (false, stored) ↦ rw (stored, buffer_view) kept
  | inl (true, cursor) ↦ absurd (insert-ne-cursor r seq slab ne cursor)
]
  where
    r : SequenceReassembler MessageView
    r = l.inner.reassembler

    slab : MessageView
    slab = record { datagram = (share l.backing).1; offset = offset; len = len }

    kept : Emitted l.inner (record l.inner { reassembler = (insert r seq slab).1 })
    kept =
        let i = insert-Ring r seq slab v f lt in
        record {
          out = [];
          appended = sym (append-nil l.inner.ready);
          emits = sym i.2;
          valid = i.0;
          fits = i.1;
        }

place_block-Emitted :
    (l : Loop) (stream seq offset len : ℕ)
    → IsValid l.inner.reassembler
    → FitsU64 l.inner.reassembler
    → seq < u64_max
    → Emitted l.inner (after (place_block l stream seq offset len))
unfolding place_block
place_block-Emitted l stream seq offset len v f lt =
    elim (Bool-cases (ltb seq (expected l.inner))) [
      | inl stale ↦ rw (stale, place_block) (Emitted-refl l.inner _ v f refl refl)
      | inr fresh ↦ elim (Bool-cases (seq == expected l.inner)) [
        | inl next ↦
            rw (fresh, next, place_block)
              (shift (emit_inline-Emitted marked stream seq offset len v f (ground arith) lt))
        | inr later ↦
            rw (fresh, later, place_block)
              (shift (buffer_view-Emitted marked stream seq offset len v f (ground arith) lt))
      ]
    ]
  where
    marked : Loop
    marked = record l {
      inner = record l.inner { gap_handler = mark_received l.inner.gap_handler seq };
    }

    -- Marking a sequence as received makes nothing ready.
    shift : {r : Inner} → Emitted marked.inner r → Emitted l.inner r
    shift x = record {
      out = x.out;
      appended = x.appended;
      emits = x.emits;
      valid = x.valid;
      fits = x.fits;
    }

abbrev pub SeqFits : ℕ × ℕ × ℕ → Type 0
SeqFits (seq, offset, len) = seq < u64_max

arbitrate-Emitted :
    (r : Inner) (stream seq : ℕ) (now : Option ℕ)
    → IsValid r.reassembler
    → FitsU64 r.reassembler
    → Emitted r (arbitrate r stream seq now).1
unfolding arbitrate
arbitrate-Emitted r stream seq now v f = elim (Option-cases (with_clock r.arbiter now)) [
  | inl e ↦ rw (e, arbitrate) (Emitted-refl r r v f refl refl)
  | inr (a, e) ↦ rw (e, arbitrate) (Emitted-refl r _ v f refl refl)
]

pub after-ok : (p : Result MoldUdpError Loop × Inner) (l : Loop) → p.0 ≡ ok l → after p ≡ l.inner
after-ok (ok x, r) l e = ground arith
after-ok (err x, r) l e = absurd (cc)

pub after-err :
    (p : Result MoldUdpError Loop × Inner) (e : MoldUdpError) → p.0 ≡ err e → after p ≡ p.1
after-err (ok x, r) e h = absurd (cc)
after-err (err x, r) e h = refl

-- The loop over a datagram's blocks makes ready exactly the messages from the expected sequence up
-- to the new one, also where it stops at an error.
pub place_blocks-Emitted :
    (l : Loop) (stream : ℕ) (now : Option ℕ) (bs : List (ℕ × ℕ × ℕ))
    → IsValid l.inner.reassembler
    → FitsU64 l.inner.reassembler
    → All SeqFits bs
    → Emitted l.inner (after (place_blocks l stream now bs))
unfolding place_blocks
place_blocks-Emitted l stream now [] v f fits = Emitted-refl l.inner l.inner v f refl refl
place_blocks-Emitted l stream now ((seq, offset, len) ∷ bs) v f fits =
    elim (Bool-cases (arbitrate l.inner stream seq now).0) [
      | inr skip ↦
          rw (skip, place_blocks)
            (Emitted-trans l.inner l'.inner _ first
              (place_blocks-Emitted l' stream now bs first.valid first.fits fits.1))
      | inl go_on ↦ elim (Result-cases (place_block l' stream seq offset len).0) [
        | inl (l'', placed) ↦
            let s =
              subst (Emitted l'.inner) (after-ok (place_block l' stream seq offset len) l'' placed)
                second in
            rw (go_on, placed, place_blocks)
              (Emitted-trans l.inner l'.inner _ first (
                Emitted-trans l'.inner l''.inner _ s
                  (place_blocks-Emitted l'' stream now bs s.valid s.fits fits.1)))
        | inr (e, failed) ↦
            rw (go_on, failed, place_blocks)
              (Emitted-trans l.inner l'.inner _ first (
                subst (Emitted l'.inner) (after-err (place_block l' stream seq offset len) e failed)
                  second))
      ]
    ]
  where
    l' : Loop
    l' = record l { inner = (arbitrate l.inner stream seq now).1 }

    first : Emitted l.inner l'.inner
    first = arbitrate-Emitted l.inner stream seq now v f

    second : Emitted l'.inner (after (place_block l' stream seq offset len))
    second = place_block-Emitted l' stream seq offset len first.valid first.fits fits.0
