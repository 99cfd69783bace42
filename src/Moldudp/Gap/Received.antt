-- ===== src/Moldudp/Gap/Received.antt =====
-- `mark_received` takes exactly one sequence out of the ranges, and keeps them disjoint and apart.
use polaris_trade.Base.{
  ◌∙◌, ℕ, ◌+◌, ◌≤◌, ◌<◌, ◌≡◌, refl, ◌⊎◌, inl, inr, true, false, ◌&&◌, ◌||◌, not, none, some, [],
  ◌∷◌, arith, ltb, leb, ◌==◌, if◌then◌else◌, Option-cases, Bool-cases, u64_max, ==_iff, leb→le,
  add64,
}
use polaris_trade.Base.BTreeMap.{BTreeMap, insert, remove, last_upto}
use polaris_trade.Moldudp.Gap.{GapRequestHandler, split_range, mark_received}
use polaris_trade.Moldudp.Gap.Ranges.{
  within, missing, Separated, Clear, Clear-above, missing_below, remove-Separated, insert-Separated,
  missing-insert,
}
use polaris_trade.Moldudp.Gap.Record.{IsValid, is_missing}

last_upto-none :
    (seq lo : ℕ) (m : BTreeMap) → last_upto seq m ≡ none → Separated lo m → missing m seq ≡ false
unfolding last_upto
last_upto-none seq lo [] e w = refl
last_upto-none seq lo ((a, b) ∷ m) e w = ground (
  arith,
  missing_below (b + 1) seq m w.2,
  Option-cases (last_upto seq m),
  last_upto-none seq (b + 1) m,
)

-- The range found begins at or before `seq`, and the others keep clear of it.
last_upto-some :
    (seq lo a b : ℕ) (m : BTreeMap)
    → last_upto seq m ≡ some (a, b)
    → Separated lo m
    → (lo ≤ a) × (a ≤ seq) × (a < b) × Clear a (b + 1) (remove a m)
unfolding last_upto remove
last_upto-some seq lo a b [] e w = absurd (cc)
last_upto-some seq lo a b ((x, y) ∷ m) e w = ground (
  arith,
  Option-cases (last_upto seq m),
  Clear-above a (b + 1) (y + 1) m w.2,
  last_upto-some seq (y + 1) a b m,
)

missing-last_upto :
    (seq lo a b s : ℕ) (m : BTreeMap)
    → last_upto seq m ≡ some (a, b)
    → Separated lo m
    → missing m s ≡ (within a b s || missing (remove a m) s)
unfolding last_upto remove
missing-last_upto seq lo a b s [] e w = absurd (cc)
missing-last_upto seq lo a b s ((x, y) ∷ m) e w = ground (
  arith,
  Option-cases (last_upto seq m),
  last_upto-some seq (y + 1) a b m,
  missing-last_upto seq (y + 1) a b s m,
)

-- Behind the end of the range found nothing is missing at `seq`.
last_upto-past :
    (seq lo a b : ℕ) (m : BTreeMap)
    → last_upto seq m ≡ some (a, b)
    → b ≤ seq
    → Separated lo m
    → missing m seq ≡ false
unfolding last_upto
last_upto-past seq lo a b [] e h w = refl
last_upto-past seq lo a b ((x, y) ∷ m) e h w = ground (
  arith,
  Option-cases (last_upto seq m),
  last_upto-none seq (y + 1) m,
  last_upto-some seq (y + 1) a b m,
  last_upto-past seq (y + 1) a b m,
)

missing-Clear :
    (a b s : ℕ) (m : BTreeMap) → Clear a (b + 1) m → within a b s ≡ true → missing m s ≡ false
missing-Clear a b s [] c h = refl
missing-Clear a b s ((x, y) ∷ m) c h = ground (arith, missing-Clear a b s m c.1 h)

Clear-narrow :
    (a b a' b' : ℕ) (m : BTreeMap) → a ≤ a' → b' ≤ b → Clear a (b + 1) m → Clear a' (b' + 1) m
Clear-narrow a b a' b' [] ha hb c = tt
Clear-narrow a b a' b' ((x, y) ∷ m) ha hb c = ground (arith, Clear-narrow a b a' b' m ha hb c.1)

insert-Clear :
    (k v start from : ℕ) (m : BTreeMap)
    → (v < start) ⊎ (from ≤ k)
    → Clear start from m
    → Clear start from (insert k v m)
unfolding insert
insert-Clear k v start from [] h c = (h, tt)
insert-Clear k v start from ((a, b) ∷ m) h c = ground (arith, insert-Clear k v start from m h c.1)

module _ (seq a b s : ℕ) (m : BTreeMap) (lo : a ≤ seq) (hi : seq < b) (fits : seq < u64_max)
    (w : Separated 0 m) (c : Clear a (b + 1) m) where
  abbrev left_part : BTreeMap
  left_part = if ltb a seq then insert a seq m else m

  left_part_lem :
      Separated 0 left_part
      × Clear (seq + 1) (b + 1) left_part
      × (missing left_part s ≡ (within a seq s || missing m s))
  left_part_lem = ground (
    arith,
    insert-Separated a seq 0 m,
    Clear-narrow a b a seq m,
    Clear-narrow a b (seq + 1) b m,
    insert-Clear a seq (seq + 1) (b + 1) m,
    missing-insert a seq s m,
  )

  both_parts_lem :
      Separated 0 (if ltb (seq + 1) b then insert (seq + 1) b left_part else left_part)
      × (missing (if ltb (seq + 1) b then insert (seq + 1) b left_part else left_part) s
          ≡ ((within a b s || missing m s) && not (s == seq)))
  both_parts_lem = elim (Bool-cases (ltb (seq + 1) b)) [
    | inl more ↦ rw more (
      insert-Separated (seq + 1) b 0 left_part (omega arith) (ground arith) left_part_lem.0
          left_part_lem.1,
      missing-insert (seq + 1) b s left_part (ground arith) left_part_lem.1
          ∙ ground (arith, left_part_lem.2, missing-Clear a b s m c),
    )
    | inr last ↦ rw last (left_part_lem.0, ground (arith, left_part_lem.2, missing-Clear a b s m c))
  ]

  split_range_lem :
      (r : BTreeMap)
      → remove a r ≡ m
      → Separated 0 (split_range seq a b r)
        × (missing (split_range seq a b r) s ≡ ((within a b s || missing m s) && not (s == seq)))
  unfolding split_range
  split_range_lem r e =
      let plus : add64 seq 1 ≡ seq + 1 = omega arith in rw (e, plus) both_parts_lem

-- `mark_received` keeps the ranges of a valid handler in order, not empty, disjoint and not
-- adjacent, and afterwards a sequence is missing exactly if it was and is not `seq`. The sequence is
-- below the last of u64, as every sequence inside a range is.
pub mark_received_lem :
    (h : GapRequestHandler) (seq s : ℕ)
    → seq < u64_max
    → IsValid h
    → IsValid (mark_received h seq)
      × (is_missing (mark_received h seq) s ≡ (is_missing h s && not (s == seq)))
unfolding mark_received
mark_received_lem h seq s fits w = elim (Option-cases (last_upto seq h.gaps)) [
  | inl e ↦
      rw (e, mark_received) (w, ground (arith, last_upto-none seq 0 h.gaps e w, (==_iff s seq).0))
  | inr ((a, b), e) ↦ elim (Bool-cases (leb b seq)) [
    | inl past ↦
        rw (e, mark_received)
          (rw past (w, ground (arith, last_upto-past seq 0 a b h.gaps e (leb→le b seq past) w)))
    | inr inside ↦
        let f = last_upto-some seq 0 a b h.gaps e w in
        let r =
          split_range_lem seq a b s (remove a h.gaps) f.1 (ground arith) fits
            (remove-Separated a 0 h.gaps w) f.3 h.gaps refl in
        rw (e, mark_received)
          (rw inside (r.0, r.1 ∙ ground (arith, missing-last_upto seq 0 a b s h.gaps e w)))
  ]
]
