-- ===== src/Moldudp/Emitter/Disjoint.antt =====
-- `mark_requested` keeps the remembered ranges disjoint and not adjacent.
use polaris_trade.Base.{
  ℕ, ◌≤◌, ◌<◌, ◌⊎◌, inl, inr, ◌||◌, List, [], ◌∷◌, ◌++◌, arith, ltb, All, Bool-cases, min, max,
}
use polaris_trade.Moldudp.Emitter.{Requested, absorb_requested, mark_requested}

-- A gap of at least one sequence lies between the two ranges.
abbrev pub Apart : ℕ → ℕ → Requested → Type 0
Apart start end r = (end < r.start) ⊎ (r.stop < start)

abbrev pub Disjoint : List Requested → Type 0
Disjoint [] = Unit
Disjoint (r ∷ rs) = (r.start ≤ r.stop) × All (Apart r.start r.stop) rs × Disjoint rs

-- A range apart from all that the closure meets is apart from what it makes of them.
absorb_requested-Apart :
    (start end a b : ℕ) (rs : List Requested)
    → a ≤ b
    → start ≤ end
    → (end < a) ⊎ (b < start)
    → All (Apart a b) rs
    → Disjoint rs
    → let (kept, start', end') = absorb_requested start end rs in
      All (Apart a b) kept × ((end' < a) ⊎ (b < start'))
unfolding absorb_requested
absorb_requested-Apart start end a b [] le le' h k d = (tt, h)
absorb_requested-Apart start end a b (r ∷ rs) le le' h k d =
    elim (Bool-cases (ltb end r.start || ltb r.stop start)) [
      | inl apart ↦
          rw (apart, absorb_requested)
            (let ih = absorb_requested-Apart start end a b rs le le' h k.1 d.2 in
              ((k.0, ih.0), ih.1))
      | inr touch ↦
          rw (touch, absorb_requested)
            (absorb_requested-Apart (min start r.start) (max end r.stop) a b rs le (omega arith)
              (ground arith) k.1 d.2)
    ]

absorb_requested-Disjoint :
    (start end : ℕ) (rs : List Requested)
    → start ≤ end
    → Disjoint rs
    → let (kept, start', end') = absorb_requested start end rs in
      Disjoint kept × All (Apart start' end') kept × (start' ≤ end')
unfolding absorb_requested
absorb_requested-Disjoint start end [] le d = (tt, tt, le)
absorb_requested-Disjoint start end (r ∷ rs) le d =
    elim (Bool-cases (ltb end r.start || ltb r.stop start)) [
      | inl apart ↦
          rw (apart, absorb_requested)
            (let ih = absorb_requested-Disjoint start end rs le d.2 in
              let k =
                absorb_requested-Apart start end r.start r.stop rs d.0 le (ground arith) d.1 d.2 in
              ((d.0, k.0, ih.0), (ground (arith, k.1), ih.1), ih.2))
      | inr touch ↦
          rw (touch, absorb_requested)
            (absorb_requested-Disjoint (min start r.start) (max end r.stop) rs (omega arith) d.2)
    ]

Disjoint-snoc :
    (rs : List Requested) (r : Requested)
    → Disjoint rs
    → All (Apart r.start r.stop) rs
    → r.start ≤ r.stop
    → Disjoint (rs ++ r ∷ [])
Disjoint-snoc [] r d k le = (le, tt, tt)
Disjoint-snoc (q ∷ rs) r d k le = (d.0, all rs d.1, Disjoint-snoc rs r d.2 k.1 le)
  where
    all :
        (qs : List Requested)
        → All (Apart q.start q.stop) qs
        → All (Apart q.start q.stop) (qs ++ r ∷ [])
    all [] h = (ground arith, tt)
    all (x ∷ qs) h = (h.0, all qs h.1)

-- `mark_requested` keeps the remembered ranges in order within themselves, disjoint and not adjacent,
-- though its closure widens the range while it goes through the list. The new range has no end before
-- its start.
mark_requested-Disjoint :
    (start end now : ℕ) (rs : List Requested)
    → start ≤ end
    → Disjoint rs
    → Disjoint (mark_requested start end now rs)
unfolding mark_requested
mark_requested-Disjoint start end now rs le d =
    let k = absorb_requested-Disjoint start end rs le d in
    Disjoint-snoc (absorb_requested start end rs).0 _ k.0 k.1 k.2
