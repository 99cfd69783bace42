-- ===== src/Moldudp/Ab/Dedupe.antt =====
-- Every sequence is forwarded once: `observe`, `note_missing_range` and `confirmed_gaps` in any order.
use polaris_trade.Base.{
  idx-ne, ℕ, zero, suc, ◌+◌, ◌-◌, ◌≤◌, ◌<◌, Bool, true, false, ◌&&◌, ◌||◌, ◌≡◌, refl, ap, inl, inr,
  none, some, List, [], ◌∷◌, arith, ltb, leb, ◌==◌, if◌then◌else◌, length, get_elem?, add64,
  u64_max, Bool-cases, Option-cases, ◌⊎◌, replicate, length-replicate, get_or-replicate,
}
use polaris_trade.Base.HashMap.{lookup, remove, lookup-remove}
use polaris_trade.Moldudp.Ab.{
  AbArbiter, ArbiterVerdict, forward, duplicate, out_of_window, capacity, bit_at, set_bit,
  note_missing, note_missing_from, note_missing_range, record_delivery, observe_in_window,
  observe_behind, slide_to, observe, remove_all, confirmed_gaps, rebase,
}
use polaris_trade.Moldudp.Ab.Window.{
  IsValid, stage-IsValid, slide_to-IsValid, capacity-set_bit, bit_at-set_bit,
}

abbrev pub is_forward : ArbiterVerdict → Bool
is_forward forward = true
is_forward duplicate = false
is_forward out_of_window = false

-- The sequences forwarded once `seq` has got this verdict too.
abbrev pub delivered_with : (ℕ → Bool) → ℕ → ArbiterVerdict → ℕ → Bool
delivered_with delivered seq verdict s = (s == seq && is_forward verdict) || delivered s

record_delivery-IsValid :
    (delivered : ℕ → Bool) (a : AbArbiter) (stream_id seq now : ℕ) (lost : Bool)
    → IsValid delivered a
    → IsValid delivered (record_delivery a stream_id seq now lost)
unfolding record_delivery
record_delivery-IsValid delivered a stream_id seq now lost v =
    elim (Option-cases (get_elem? a.stream_stats stream_id)) [
      | inl e ↦ rw (e, record_delivery) v
      | inr (s, e) ↦
          rw (e, record_delivery)
            (record {
              positive = v.positive;
              fits = v.fits;
              window = v.window;
              ahead = v.ahead;
              settled = v.settled;
            })
    ]

module _ (delivered : ℕ → Bool) where
  -- The window with `seq` in it once `seq` is delivered.
  delivered-IsValid :
      (a : AbArbiter) (seq : ℕ)
      → IsValid delivered a
      → a.window_base ≤ seq
      → seq < a.window_base + capacity a
      → IsValid
          (delivered_with delivered seq forward)
          (record (set_bit a seq true) { pending_gap_confirms = remove seq a.pending_gap_confirms })
  delivered-IsValid a seq v lo hi = record {
    positive = omega (arith, v.positive, capacity-set_bit a seq true);
    fits = omega (arith, v.fits, capacity-set_bit a seq true);
    window = λ s h k. ground (
      arith,
      capacity-set_bit a seq true,
      bit_at-set_bit a seq s true v.positive,
      idx-ne (capacity a) s seq,
      idx-ne (capacity a) seq s,
      v.window s h,
    );
    ahead = λ s h. ground (arith, v.ahead s, capacity-set_bit a seq true);
    settled = λ s h. ground (arith, lookup-remove seq s a.pending_gap_confirms, v.settled s);
  }

  -- The set with `seq` in it, behind the window.
  late-IsValid :
      (a : AbArbiter) (seq : ℕ)
      → IsValid delivered a
      → seq < a.window_base
      → IsValid
          (delivered_with delivered seq forward)
          (record a { pending_gap_confirms = remove seq a.pending_gap_confirms })
  late-IsValid a seq v lt = record {
    positive = v.positive;
    fits = v.fits;
    window = λ s h k. ground (arith, v.window s h k);
    ahead = λ s h. ground (arith, v.ahead s h);
    settled = λ s h. ground (arith, lookup-remove seq s a.pending_gap_confirms, v.settled s);
  }

-- The set does not change by a verdict other than `forward`.
same-IsValid :
    (delivered : ℕ → Bool) (a : AbArbiter) (seq : ℕ) (verdict : ArbiterVerdict)
    → is_forward verdict ≡ false
    → IsValid delivered a
    → IsValid (delivered_with delivered seq verdict) a
same-IsValid delivered a seq verdict e v = record {
  positive = v.positive;
  fits = v.fits;
  window = λ s h k. ground (arith, v.window s h k);
  ahead = λ s h. ground (arith, v.ahead s h);
  settled = λ s h. ground (arith, v.settled s);
}

-- What `observe` answers, and what it leaves.
pub record Observed (delivered : ℕ → Bool) (a : AbArbiter) (seq : ℕ)
    (out : ArbiterVerdict × AbArbiter) : Type 0 where
  pub once : out.0 ≡ forward → delivered seq ≡ false
  pub first : a.window_base ≤ seq → delivered seq ≡ false → out.0 ≡ forward
  pub again : a.window_base ≤ seq → delivered seq ≡ true → out.0 ≡ duplicate
  pub late :
      seq < a.window_base
      → out.0 ≡ elim (lookup seq a.pending_gap_confirms) [ none ↦ out_of_window | some t ↦ forward ]
  pub valid : IsValid (delivered_with delivered seq out.0) out.1

observe_in_window-Observed :
    (delivered : ℕ → Bool) (a : AbArbiter) (stream_id seq now : ℕ)
    → IsValid delivered a
    → a.window_base ≤ seq
    → seq < a.window_base + capacity a
    → let (verdict, a') = observe_in_window a stream_id seq now in
      (verdict ≡ (if delivered seq then duplicate else forward))
      × IsValid (delivered_with delivered seq verdict) a'
unfolding observe_in_window
observe_in_window-Observed delivered a stream_id seq now v lo hi =
    elim (Bool-cases (bit_at a seq)) [
      | inl seen ↦
          rw (seen, observe_in_window)
            (
              ground (arith, v.window seq lo hi),
              same-IsValid delivered _ seq duplicate refl
                  (record_delivery-IsValid delivered a stream_id seq now true v),
            )
      | inr new ↦
          rw (new, observe_in_window)
            (
              ground (arith, v.window seq lo hi),
              record_delivery-IsValid (delivered_with delivered seq forward) _ stream_id seq now
                  false (delivered-IsValid delivered a seq v lo hi),
            )
    ]

module _ (a : AbArbiter) (stream_id seq now : ℕ) where
  observe-gone :
      seq < a.window_base
      → lookup seq a.pending_gap_confirms ≡ none
      → observe a stream_id seq now ≡ (out_of_window, a)
  unfolding observe observe_behind
  observe-gone lt e = ground arith

  observe-late :
      (t : ℕ)
      → seq < a.window_base
      → lookup seq a.pending_gap_confirms ≡ some t
      → observe a stream_id seq now ≡ (
        forward,
        record_delivery
            (record a { pending_gap_confirms = remove seq a.pending_gap_confirms })
            stream_id
            seq
            now
            false,
      )
  unfolding observe observe_behind
  observe-late t lt e = ground arith

  observe-ahead :
      a.window_base ≤ seq
      → observe a stream_id seq now ≡ observe_in_window (slide_to a seq now) stream_id seq now
  unfolding observe
  observe-ahead le = ground arith

pub observe_lem :
    (delivered : ℕ → Bool) (a : AbArbiter) (stream_id seq now : ℕ)
    → IsValid delivered a
    → seq < u64_max
    → Observed delivered a seq (observe a stream_id seq now)
observe_lem delivered a stream_id seq now v lt = elim (Bool-cases (ltb seq a.window_base)) [
  | inl behind ↦ elim (Option-cases (lookup seq a.pending_gap_confirms)) [
    | inl gone ↦ rw (observe-gone a stream_id seq now (ground arith) gone) (record {
      once = λ e. absurd (cc);
      first = λ h. absurd (ground arith);
      again = λ h. absurd (ground arith);
      late = λ h. ground arith;
      valid = same-IsValid delivered a seq out_of_window refl v;
    })
    | inr (t, pending) ↦ rw (observe-late a stream_id seq now t (ground arith) pending) (record {
      once = λ e. ground (arith, v.settled seq);
      first = λ h. absurd (ground arith);
      again = λ h. absurd (ground arith);
      late = λ h. ground arith;
      valid =
          record_delivery-IsValid (delivered_with delivered seq forward) _ stream_id seq now false
            (late-IsValid delivered a seq v (ground arith));
    })
  ]
  | inr ahead ↦
      let le : a.window_base ≤ seq = ground arith in
      let s = slide_to-IsValid delivered a seq now v le lt in
      let o =
        observe_in_window-Observed delivered (slide_to a seq now) stream_id seq now s.0 s.1 s.2 in
      rw (observe-ahead a stream_id seq now le) (record {
        once = λ e. ground (arith, o.0);
        first = λ h e. ground (arith, o.0);
        again = λ h e. ground (arith, o.0);
        late = λ h. absurd (omega arith);
        valid = o.1;
      })
]

verdict_cases : (v : ArbiterVerdict) → (v ≡ forward) ⊎ (is_forward v ≡ false)
verdict_cases forward = inl refl
verdict_cases duplicate = inr refl
verdict_cases out_of_window = inr refl

-- In an arbiter whose bits are the forwarded sequences, `observe` forwards a sequence of the window
-- or ahead of it exactly if it was not forwarded before, and calls it a duplicate if it was; behind
-- the window it forwards exactly the candidates for a gap, and calls any other out of the window.
-- Afterwards the bits are the forwarded sequences, this one included, and no sequence is forwarded
-- that was before. The sequence is below the last of u64.
pub observe_verdict :
    (delivered : ℕ → Bool) (a : AbArbiter) (stream_id seq now : ℕ)
    → IsValid delivered a
    → seq < u64_max
    → let (verdict, a') = observe a stream_id seq now in
      (verdict ≡ (
        if ltb seq a.window_base
        then elim (lookup seq a.pending_gap_confirms) [ none ↦ out_of_window | some t ↦ forward ]
        else if delivered seq
        then duplicate
        else forward))
      × IsValid (delivered_with delivered seq verdict) a'
      × ((is_forward verdict && delivered seq) ≡ false)
observe_verdict delivered a stream_id seq now v lt =
    let o = observe_lem delivered a stream_id seq now v lt in
    let verdict = (observe a stream_id seq now).0 in
    (
      ground (arith, o.late, o.first, o.again),
      o.valid,
      elim (verdict_cases verdict) [ inl e ↦ ground (arith, o.once e) | inr e ↦ rw e refl ],
    )

note_missing-IsValid :
    (delivered : ℕ → Bool) (a : AbArbiter) (seq now : ℕ)
    → IsValid delivered a
    → a.window_base ≤ seq
    → IsValid delivered (note_missing a seq now)
      × ((note_missing a seq now).window_base ≡ a.window_base)
unfolding note_missing
note_missing-IsValid delivered a seq now v le =
    elim (Bool-cases (ltb seq (a.window_base + capacity a))) [
      | inl inside ↦ elim (Bool-cases (bit_at a seq)) [
        | inl seen ↦ rw (plus, low, inside, seen, note_missing) (v, refl)
        | inr new ↦
            rw (plus, low, inside, new, note_missing)
              (stage-IsValid delivered a seq now v (ground (arith, v.window seq le)), refl)
      ]
      | inr beyond ↦
          rw (plus, low, beyond, note_missing)
            (stage-IsValid delivered a seq now v (v.ahead seq (ground arith)), refl)
    ]
  where
    plus : add64 a.window_base (capacity a) ≡ a.window_base + capacity a
    plus = omega (arith, v.fits)

    low : leb a.window_base seq ≡ true
    low = ground arith

note_missing_from-IsValid :
    (count : ℕ) (delivered : ℕ → Bool) (a : AbArbiter) (seq now : ℕ)
    → IsValid delivered a
    → a.window_base ≤ seq
    → IsValid delivered (note_missing_from count a seq now)
unfolding note_missing_from
note_missing_from-IsValid zero delivered a seq now v le = v
note_missing_from-IsValid (suc count) delivered a seq now v le =
    let n = note_missing-IsValid delivered a seq now v le in
    note_missing_from-IsValid count delivered (note_missing a seq now) (seq + 1) now n.0
      (omega (arith, n.1))

remove_all-none :
    (seqs : List ℕ) (m : List (ℕ × ℕ)) (s : ℕ)
    → lookup s m ≡ none
    → lookup s (remove_all seqs m) ≡ none
unfolding remove_all
remove_all-none [] m s h = h
remove_all-none (x ∷ xs) m s h =
    remove_all-none xs (remove x m) s (ground (arith, lookup-remove x s m))

confirmed_gaps-IsValid :
    (delivered : ℕ → Bool) (a : AbArbiter) (now : ℕ)
    → IsValid delivered a
    → IsValid delivered (confirmed_gaps a now).1
unfolding confirmed_gaps
confirmed_gaps-IsValid delivered a now v = record {
  positive = v.positive;
  fits = v.fits;
  window = v.window;
  ahead = v.ahead;
  settled = λ s h. remove_all-none _ a.pending_gap_confirms s (v.settled s h);
}

-- The calls that the receiver makes of the arbiter.
pub data ArbiterCall : Type 0 where
  observes : ℕ → ℕ → ℕ → ArbiterCall
  notes : ℕ → ℕ → ℕ → ArbiterCall
  confirms : ℕ → ArbiterCall

-- The sequences that a history of calls forwards, in order.
unfoldable pub forwarded : AbArbiter → List ArbiterCall → List ℕ
forwarded a [] = []
forwarded a (observes stream_id seq now ∷ calls) =
    let (verdict, a') = observe a stream_id seq now in
    let rest = forwarded a' calls in if is_forward verdict then seq ∷ rest else rest
forwarded a (notes start end now ∷ calls) = forwarded (note_missing_range a start end now) calls
forwarded a (confirms now ∷ calls) = forwarded (confirmed_gaps a now).1 calls

-- The history observes numbers below the last of u64, and never notes a range behind the window.
abbrev pub Proper : AbArbiter → List ArbiterCall → Type 0
Proper a [] = Unit
Proper a (observes stream_id seq now ∷ calls) =
    (seq < u64_max) × Proper (observe a stream_id seq now).1 calls
Proper a (notes start end now ∷ calls) =
    (a.window_base ≤ start) × Proper (note_missing_range a start end now) calls
Proper a (confirms now ∷ calls) = Proper (confirmed_gaps a now).1 calls

abbrev pub times : ℕ → List ℕ → ℕ
times s [] = 0
times s (x ∷ xs) = (if s == x then 1 else 0) + times s xs

note_missing_range-IsValid :
    (delivered : ℕ → Bool) (a : AbArbiter) (start end now : ℕ)
    → IsValid delivered a
    → a.window_base ≤ start
    → IsValid delivered (note_missing_range a start end now)
unfolding note_missing_range
note_missing_range-IsValid delivered a start end now v le =
    note_missing_from-IsValid (end - start) delivered a start now v le

-- `rebase` empties the window and forgets every delivery.
pub rebase-IsValid :
    (a : AbArbiter) (base : ℕ)
    → 0 < capacity a
    → base + capacity a ≤ u64_max
    → IsValid (λ s. false) (rebase a base)
unfolding rebase lookup
rebase-IsValid a base pos fits = record {
  positive = omega (arith, len);
  fits = omega (arith, len);
  window = λ s h k. get_or-replicate (capacity a) _ false;
  ahead = λ s h. refl;
  settled = λ s h. refl;
}
  where
    len : length (replicate (capacity a) false) ≡ capacity a
    len = length-replicate (capacity a) false

-- In a history of observations, gap notes and confirmations, on any streams and in any order, every
-- sequence is forwarded at most once, and not at all if it was forwarded before. The arbiter's bits
-- are the forwarded sequences, those observed are below the last of u64, and no range is noted behind
-- the window.
pub forwarded_once :
    (delivered : ℕ → Bool) (a : AbArbiter) (calls : List ArbiterCall) (s : ℕ)
    → IsValid delivered a
    → Proper a calls
    → times s (forwarded a calls) + (if delivered s then 1 else 0) ≤ 1
unfolding forwarded
forwarded_once delivered a [] s v p = ground arith
forwarded_once delivered a (observes stream_id seq now ∷ calls) s v p =
    let o = observe_lem delivered a stream_id seq now v p.0 in
    let verdict = (observe a stream_id seq now).0 in
    let ih =
      forwarded_once (delivered_with delivered seq verdict) (observe a stream_id seq now).1 calls s
        o.valid p.1 in
    elim (verdict_cases verdict) [
      | inl e ↦ rw (ap is_forward e) (ground (arith, ih, o.once e, ap is_forward e))
      | inr e ↦ rw e (ground (arith, ih, e))
    ]
forwarded_once delivered a (notes start end now ∷ calls) s v p =
    forwarded_once delivered (note_missing_range a start end now) calls s
      (note_missing_range-IsValid delivered a start end now v p.0) p.1
forwarded_once delivered a (confirms now ∷ calls) s v p =
    forwarded_once delivered (confirmed_gaps a now).1 calls s
      (confirmed_gaps-IsValid delivered a now v) p
