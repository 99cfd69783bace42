-- ===== src/Moldudp/Reassembly/Drain.antt =====
-- `DrainCursor`: the contiguous run that it yields, and where it stops.
use polaris_trade.Base.{
  ℕ, zero, suc, ◌+◌, ◌%◌, ◌≤◌, ◌<◌, ◌&&◌, ◌≡◌, ◌∙◌, refl, ap, subst, inl, inr, Option, none, some,
  List, [], ◌∷◌, arith, ltb, leb, ◌==◌, if◌then◌else◌, length, get_or, set, u64_max, Bool-cases,
  Option-cases,
}
use polaris_trade.Moldudp.Reassembly.{
  Slot, SequenceReassembler, empty_slot, slot_at, cursor_next, drain_fuel, drain,
}
use polaris_trade.Moldudp.Reassembly.View.{
  held, IsValid, held-put_slot, put_slot-IsValid, slot-shared,
}

module _ {A : Type 0} where
  -- How many slots hold a payload.
  abbrev occupied : List (Slot A) → ℕ
  occupied [] = 0
  occupied (x ∷ xs) = elim x.payload [ none ↦ 0 | some a ↦ 1 ] + occupied xs

  occupied-le : (xs : List (Slot A)) → occupied xs ≤ length xs
  occupied-le [] = omega arith
  occupied-le (x ∷ xs) = ground (arith, occupied-le xs)

  occupied-set :
      (xs : List (Slot A)) (i : ℕ) (x : Slot A) (a : A)
      → (get_or xs i empty_slot).payload ≡ some a
      → x.payload ≡ none
      → suc (occupied (set xs i x)) ≡ occupied xs
  occupied-set [] i x a h e = absurd (cc)
  occupied-set (y ∷ xs) zero x a h e = ground arith
  occupied-set (y ∷ xs) (suc i) x a h e = ground (arith, occupied-set xs i x a)

  -- No pending sequence is the last of u64.
  abbrev pub FitsU64 : SequenceReassembler A → Type 0
  FitsU64 r = (s : ℕ) (a : A) → held r s ≡ some a → s < u64_max

  record Stepped (r r' : SequenceReassembler A) : Type 0 where
    pub valid : IsValid r'
    pub same_capacity : r'.capacity ≡ r.capacity
    pub moved : r'.expected_next ≡ r.expected_next + 1
    pub emptied : (t : ℕ) → held r' t ≡ (if t == r.expected_next then none else held r t)
    pub fewer : suc (occupied r'.slots) ≡ occupied r.slots

  cursor_next-some :
      (r : SequenceReassembler A) (a : A)
      → IsValid r
      → held r r.expected_next ≡ some a
      → r.expected_next < u64_max
      → ((cursor_next r).0 ≡ some a) × Stepped r (cursor_next r).1
  unfolding cursor_next held
  cursor_next-some r a v h lt =
      elim (Bool-cases ((slot_at r r.expected_next).seq == r.expected_next)) [
        | inr other ↦ absurd (ground arith)
        | inl same ↦
            let full : (slot_at r r.expected_next).payload ≡ some a = ground arith in
            let x : Slot A = record { seq = (slot_at r r.expected_next).seq; payload = none } in
            let w = put_slot-IsValid r r.expected_next x v (v.placed r.expected_next a full) in
            rw (same, full, cursor_next)
              (
                refl,
                record {
                  valid = record { sized = w.sized; positive = w.positive; placed = w.placed };
                  same_capacity = refl;
                  moved = omega arith;
                  emptied = λ t. ground (
                    arith,
                    held-put_slot r r.expected_next t x v,
                    slot-shared r r.expected_next t,
                  );
                  fewer = occupied-set r.slots (r.expected_next % r.capacity) x a full refl;
                },
              )
      ]

  cursor_next-none :
      (r : SequenceReassembler A) → held r r.expected_next ≡ none → cursor_next r ≡ (none, r)
  unfolding cursor_next held
  cursor_next-none r h = ground arith

  -- `as` is the run of what is held from `s` on.
  abbrev pub Run : (ℕ → Option A) → ℕ → List A → Type 0
  Run h s [] = Unit
  Run h s (a ∷ as') = (h s ≡ some a) × Run h (s + 1) as'

  pub record Drained (r : SequenceReassembler A) (out : List A × SequenceReassembler A)
      : Type 0 where
    pub valid : IsValid out.1
    pub same_capacity : out.1.capacity ≡ r.capacity
    pub run : Run (held r) r.expected_next out.0
    pub moved : out.1.expected_next ≡ r.expected_next + length out.0
    pub stopped : held out.1 out.1.expected_next ≡ none
    pub emptied :
        (t : ℕ)
        → held out.1 t
          ≡ (if leb r.expected_next t && ltb t out.1.expected_next then none else held r t)

  -- What lies ahead of a step is what was there.
  Run-Stepped :
      (r r' : SequenceReassembler A) (s : ℕ) (out : List A)
      → Stepped r r'
      → r.expected_next < s
      → Run (held r') s out
      → Run (held r) s out
  Run-Stepped r r' s [] st lt run = tt
  Run-Stepped r r' s (a ∷ out) st lt run =
      (ground (arith, st.emptied s, run.0), Run-Stepped r r' (s + 1) out st (omega arith) run.1)

  Stepped-FitsU64 : (r r' : SequenceReassembler A) → Stepped r r' → FitsU64 r → FitsU64 r'
  Stepped-FitsU64 r r' st fits s a h = ground (arith, st.emptied s, fits s a)

  drain_fuel-stop :
      (fuel : ℕ) (r : SequenceReassembler A)
      → held r r.expected_next ≡ none
      → drain_fuel (suc fuel) r ≡ ([], r)
  unfolding drain_fuel
  drain_fuel-stop fuel r stop =
      let e = cursor_next-none r stop in rw (ap (λ p. p.0) e, drain_fuel) (ap (λ p. ([], p.1)) e)

  drain_fuel-Drained :
      (fuel : ℕ) (r : SequenceReassembler A)
      → occupied r.slots < fuel
      → IsValid r
      → FitsU64 r
      → Drained r (drain_fuel fuel r)
  unfolding drain_fuel
  drain_fuel-Drained zero r h v fits = absurd (omega arith)
  drain_fuel-Drained (suc fuel) r h v fits = elim (Option-cases (held r r.expected_next)) [
    | inl stop ↦ rw (drain_fuel-stop fuel r stop) (record {
      valid = v;
      same_capacity = refl;
      run = tt;
      moved = omega arith;
      stopped = stop;
      emptied = λ t. ground arith;
    })
    | inr (a, more) ↦
        let c = cursor_next-some r a v more (fits r.expected_next a more) in
        let r' = (cursor_next r).1 in
        let st = c.1 in
        let ih =
          drain_fuel-Drained fuel r' (omega (arith, st.fewer)) st.valid
            (Stepped-FitsU64 r r' st fits) in
        rw (c.0, drain_fuel)
          (record {
            valid = ih.valid;
            same_capacity = ih.same_capacity ∙ st.same_capacity;
            run = (
              more,
              Run-Stepped r r' (r.expected_next + 1) (drain_fuel fuel r').0 st (omega arith)
                  (subst (λ (s : ℕ). Run (held r') s (drain_fuel fuel r').0) st.moved ih.run),
            );
            moved = omega (arith, ih.moved, st.moved);
            stopped = ih.stopped;
            emptied = λ t. ground (arith, ih.emptied t, st.emptied t, st.moved, ih.moved);
          })
  ]

  -- A drained ring is valid. The cursor yields exactly the payloads held from the expected sequence
  -- on, up to the first that is not held: it moves the expected sequence there, takes what it
  -- yielded out of the ring, and leaves every other sequence alone.
  pub drain_lem : (r : SequenceReassembler A) → IsValid r → FitsU64 r → Drained r (drain r)
  unfolding drain
  drain_lem r v fits =
      drain_fuel-Drained (suc (length r.slots)) r (omega (arith, occupied-le r.slots)) v fits
