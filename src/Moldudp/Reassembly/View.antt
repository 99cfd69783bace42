-- ===== src/Moldudp/Reassembly/View.antt =====
-- The ring seen as a map from sequence numbers to payloads, and `insert` on it.
use polaris_trade.Base.{
  ℕ, ◌%◌, ◌≤◌, ◌<◌, Bool, false, ◌≡◌, refl, ap, ◌≢◌, inl, inr, Option, none, some, arith, ltb, leb,
  true, ◌&&◌, ◌==◌, if◌then◌else◌, length, get_or, length-set, get_or-set_self, get_or-set_ne,
  length-replicate, get_or-replicate, Bool-cases, Option-cases,
}
use polaris_trade.Base.Result.{Result, ok, err, Result-cases}
use polaris_trade.Moldudp.Error.{MoldUdpError, reassembly_buffer_full}
use polaris_trade.Moldudp.Reassembly.{
  Slot, SequenceReassembler, empty_slot, new, slot_at, put_slot, insert,
}
use native.Mathlib.Nat.{mod-lt}

abbrev pub is_ok : Result MoldUdpError Bool → Bool
is_ok (ok b) = true
is_ok (err e) = false

module _ {A : Type 0} where
  -- The payload pending under `s`.
  unfoldable pub held : SequenceReassembler A → ℕ → Option A
  held r s = if (slot_at r s).seq == s then (slot_at r s).payload else none

  -- There is a slot for each remainder by the capacity, and what a slot holds belongs there.
  pub record IsValid (r : SequenceReassembler A) : Type 0 where
    pub sized : length r.slots ≡ r.capacity
    pub positive : 0 < r.capacity
    pub placed :
        (s : ℕ) (a : A)
        → (slot_at r s).payload ≡ some a
        → (slot_at r s).seq % r.capacity ≡ s % r.capacity

  pub new-IsValid :
      (capacity : ℕ) (r : SequenceReassembler A)
      → new capacity ≡ some r
      → IsValid r × ((s : ℕ) → held r s ≡ none) × (r.expected_next ≡ 1)
  unfolding new held
  new-IsValid capacity r e = elim (Bool-cases (capacity == 0)) [
    | inl nothing ↦ absurd (ground arith)
    | inr full ↦
        let none_at = λ (s : ℕ). get_or-replicate capacity (s % capacity) (empty_slot {A = A}) in
        (
          record {
            sized = ground (arith, length-replicate capacity (empty_slot {A = A}));
            positive = ground arith;
            placed = λ s a h. ground (arith, none_at s);
          },
          λ s. ground (arith, none_at s),
          ground arith,
        )
  ]

  pub slot-put_self :
      (r : SequenceReassembler A) (s : ℕ) (x : Slot A)
      → IsValid r
      → get_or (put_slot r s x).slots (s % r.capacity) empty_slot ≡ x
  slot-put_self r s x v =
      get_or-set_self r.slots (s % r.capacity) x empty_slot
        (omega (arith, v.sized, mod-lt s v.positive))

  -- Writing a slot changes what is held under the sequences that share it, and nothing else.
  pub held-put_slot :
      (r : SequenceReassembler A) (s t : ℕ) (x : Slot A)
      → IsValid r
      → held (put_slot r s x) t ≡ (
          if t % r.capacity == s % r.capacity
          then (if x.seq == t then x.payload else none)
          else held r t)
  unfolding held
  held-put_slot r s t x v = elim (Bool-cases (t % r.capacity == s % r.capacity)) [
    | inl same ↦ ground (arith, slot-put_self r s x v)
    | inr apart ↦
        ground (arith, get_or-set_ne r.slots (s % r.capacity) (t % r.capacity) x empty_slot)
  ]

  pub put_slot-IsValid :
      (r : SequenceReassembler A) (s : ℕ) (x : Slot A)
      → IsValid r
      → x.seq % r.capacity ≡ s % r.capacity
      → IsValid (put_slot r s x)
  put_slot-IsValid r s x v e = record {
    sized = omega (arith, v.sized, length-set r.slots (s % r.capacity) x);
    positive = v.positive;
    placed = λ t a h. elim (Bool-cases (t % r.capacity == s % r.capacity)) [
      | inl same ↦ ground (arith, slot-put_self r s x v)
      | inr apart ↦ ground (
        arith,
        get_or-set_ne r.slots (s % r.capacity) (t % r.capacity) x empty_slot,
        v.placed t a,
      )
    ];
  }

  abbrev pub or_else : Option A → A → A
  or_else none b = b
  or_else (some a) b = a

  -- Sequences with one remainder share a slot.
  pub slot-shared :
      (r : SequenceReassembler A) (s t : ℕ)
      → t % r.capacity ≡ s % r.capacity
      → slot_at r t ≡ slot_at r s
  slot-shared r s t e = ap (λ (i : ℕ). get_or r.slots i empty_slot) e

  free-held :
      (r : SequenceReassembler A) (s t : ℕ)
      → (slot_at r s).payload ≡ none
      → t % r.capacity ≡ s % r.capacity
      → held r t ≡ none
  unfolding held
  free-held r s t free e = ground (arith, slot-shared r s t e)

  full-held :
      (r : SequenceReassembler A) (s : ℕ) (a : A)
      → (slot_at r s).payload ≡ some a
      → (slot_at r s).seq % r.capacity ≡ s % r.capacity
      → held r (slot_at r s).seq ≡ some a
  unfolding held
  full-held r s a full e = ground (arith, slot-shared r s (slot_at r s).seq e)

  -- What `insert` answers and leaves, on every branch.
  pub record Inserted (r r' : SequenceReassembler A) (seq : ℕ) (slab : A)
      (answer : Result MoldUdpError Bool) : Type 0 where
    pub valid : IsValid r'
    pub same_expected : r'.expected_next ≡ r.expected_next
    pub same_capacity : r'.capacity ≡ r.capacity
    pub others : (t : ℕ) → t ≢ seq → held r' t ≡ held r t
    pub stale : seq < r.expected_next → (answer ≡ ok false) × (held r' seq ≡ held r seq)
    pub taken :
        (b : Bool)
        → r.expected_next ≤ seq
        → answer ≡ ok b
        → held r' seq ≡ some (or_else (held r seq) slab)
    pub refused :
        (x : MoldUdpError)
        → answer ≡ err x
        → (x ≡ reassembly_buffer_full r.capacity)
          × (r' ≡ r)
          × (q : ℕ) × (a : A) × (q ≢ seq)
          × (q % r.capacity ≡ seq % r.capacity)
          × (held r q ≡ some a)

  pub insert_lem :
      (r : SequenceReassembler A) (seq : ℕ) (slab : A)
      → IsValid r
      → let (answer, r') = insert r seq slab in Inserted r r' seq slab answer
  unfolding insert held
  insert_lem r seq slab v = elim (Bool-cases (ltb seq r.expected_next)) [
    | inl old ↦
        rw (old, insert)
          (record {
            valid = v;
            same_expected = refl;
            same_capacity = refl;
            others = λ t h. refl;
            stale = λ h. (refl, refl);
            taken = λ b h e. absurd (ground arith);
            refused = λ x e. absurd (cc);
          })
    | inr ahead ↦ elim (Option-cases (slot_at r seq).payload) [
      | inl free ↦
          rw (ahead, free, insert)
            (record {
              valid = put_slot-IsValid r seq (record { seq = seq; payload = some slab }) v refl;
              same_expected = refl;
              same_capacity = refl;
              others = λ t h. ground (
                arith,
                held-put_slot r seq t (record { seq = seq; payload = some slab }) v,
                free-held r seq t free,
              );
              stale = λ h. absurd (ground arith);
              taken = λ b h e. ground (
                arith,
                held-put_slot r seq seq (record { seq = seq; payload = some slab }) v,
                free-held r seq seq free,
              );
              refused = λ x e. absurd (cc);
            })
      | inr (pending, full) ↦ elim (Bool-cases ((slot_at r seq).seq == seq)) [
        | inl same ↦
            rw (ahead, full, same, insert)
              (record {
                valid = v;
                same_expected = refl;
                same_capacity = refl;
                others = λ t h. refl;
                stale = λ h. absurd (ground arith);
                taken = λ b h e. ground arith;
                refused = λ x e. absurd (cc);
              })
        | inr other ↦
            rw (ahead, full, other, insert)
              (record {
                valid = v;
                same_expected = refl;
                same_capacity = refl;
                others = λ t h. refl;
                stale = λ h. absurd (ground arith);
                taken = λ b h e. absurd (cc);
                refused = λ x e. (
                  ground (arith, v.sized),
                  refl,
                  (slot_at r seq).seq,
                  pending,
                  ground arith,
                  v.placed seq pending full,
                  full-held r seq pending full (v.placed seq pending full),
                );
              })
      ]
    ]
  ]

  -- What is held after `insert` on a valid ring, which stays valid and expects the same sequence: if
  -- the sequence is not stale and not refused, then under it the payload that came first, and under
  -- every other sequence what was there; otherwise all is as it was.
  pub insert-held :
      (r : SequenceReassembler A) (seq t : ℕ) (slab : A)
      → IsValid r
      → let (answer, r') = insert r seq slab in
        IsValid r'
        × (r'.expected_next ≡ r.expected_next)
        × (held r' t ≡ (
            if t == seq && (leb r.expected_next seq && is_ok answer)
            then some (or_else (held r seq) slab)
            else held r t))
  insert-held r seq t slab v = let i = insert_lem r seq slab v in (i.valid, i.same_expected, view i)
    where
      view :
          Inserted r (insert r seq slab).1 seq slab (insert r seq slab).0
          → held (insert r seq slab).1 t ≡ (
              if t == seq && (leb r.expected_next seq && is_ok (insert r seq slab).0)
              then some (or_else (held r seq) slab)
              else held r t)
      view i = elim (Bool-cases (t == seq)) [
        | inr other ↦ ground (arith, i.others t)
        | inl same ↦ elim (Result-cases (insert r seq slab).0) [
          | inl (b, e) ↦ ground (arith, i.stale, i.taken b)
          | inr (x, e) ↦ ground (arith, i.stale, i.refused x e)
        ]
      ]

  -- `insert` refuses a sequence only because another sequence is pending in the slot that both share;
  -- the error names the capacity, and the ring is unchanged.
  pub insert-refused :
      (r : SequenceReassembler A) (seq : ℕ) (slab : A) (x : MoldUdpError)
      → IsValid r
      → (insert r seq slab).0 ≡ err x
      → (x ≡ reassembly_buffer_full r.capacity)
        × ((insert r seq slab).1 ≡ r)
        × (q : ℕ) × (a : A) × (q ≢ seq)
        × (q % r.capacity ≡ seq % r.capacity)
        × (held r q ≡ some a)
  insert-refused r seq slab x v e = (insert_lem r seq slab v).refused x e
