-- ===== src/Moldudp/Gap/Record.antt =====
-- `record_missing_range` adds exactly the range, and keeps the ranges disjoint and apart.
use polaris_trade.Base.{
  ◌∙◌, ℕ, zero, suc, ◌+◌, ◌≤◌, ◌<◌, max, ◌≡◌, refl, inl, inr, Bool, true, ◌||◌, none, some, [], ◌∷◌,
  arith, ltb, leb, length, Option-cases, Bool-cases, u64_max, add64, ◌==◌,
}
use polaris_trade.Base.BTreeMap.{BTreeMap, remove, last_below, first_from}
use polaris_trade.Moldudp.Gap.{
  GapRequestHandler, absorb_following, widen_left, insert_merged, record_missing_range, record_gap,
}
use polaris_trade.Moldudp.Gap.Ranges.{
  within, missing, Separated, Clear, Clear-above, remove-Separated, remove-Clear, insert-Separated,
  missing-insert,
}

-- What `range(start..).next()` finds, if it finds an entry.
record Found (start a b : ℕ) (m : BTreeMap) : Type 0 where
  pub above : start ≤ a
  pub nonempty : a < b
  pub shorter : length m ≡ suc (length (remove a m))

first_from-none :
    (start end : ℕ) (m : BTreeMap)
    → first_from start m ≡ none
    → Clear start start m
    → Clear start (end + 1) m
unfolding first_from
first_from-none start end [] e c = tt
first_from-none start end ((a, b) ∷ m) e c = ground (arith, first_from-none start end m)

first_from-far :
    (start end lo a b : ℕ) (m : BTreeMap)
    → first_from start m ≡ some (a, b)
    → end < a
    → Separated lo m
    → Clear start start m
    → Clear start (end + 1) m
unfolding first_from
first_from-far start end lo a b [] e h w c = tt
first_from-far start end lo a b ((x, y) ∷ m) e h w c =
    ground
      (arith, first_from-far start end (y + 1) a b m, Clear-above start (end + 1) (y + 1) m w.2)

first_from-Found :
    (start lo a b : ℕ) (m : BTreeMap)
    → first_from start m ≡ some (a, b)
    → Separated lo m
    → Found start a b m
unfolding first_from remove
first_from-Found start lo a b [] e w = absurd (cc)
first_from-Found start lo a b ((x, y) ∷ m) e w =
    ground (arith, first_from-Found start (y + 1) a b m)

missing-remove :
    (start lo a b s : ℕ) (m : BTreeMap)
    → first_from start m ≡ some (a, b)
    → Separated lo m
    → missing m s ≡ (within a b s || missing (remove a m) s)
unfolding first_from remove
missing-remove start lo a b s [] e w = cc
missing-remove start lo a b s ((x, y) ∷ m) e w =
    ground (arith, missing-remove start (y + 1) a b s m, first_from-Found start (y + 1) a b m)

-- What the loop has done when it stops: nothing left touches the range, and no sequence is lost.
record Absorbed (start end lo : ℕ) (m : BTreeMap) (r : ℕ × BTreeMap) : Type 0 where
  pub grown : end ≤ r.0
  pub separated : Separated lo r.1
  pub clear : Clear start (r.0 + 1) r.1
  pub same : (s : ℕ) → (within start r.0 s || missing r.1 s) ≡ (within start end s || missing m s)

Absorbed-step :
    (start end lo a b : ℕ) (m : BTreeMap) (r : ℕ × BTreeMap)
    → first_from start m ≡ some (a, b)
    → a ≤ end
    → Separated lo m
    → Absorbed start (max end b) lo (remove a m) r
    → Absorbed start end lo m r
Absorbed-step start end lo a b m r e near w x = record {
  grown = omega (arith, x.grown);
  separated = x.separated;
  clear = x.clear;
  same = λ s.
      ground
        (arith, x.same s, missing-remove start lo a b s m e w, first_from-Found start lo a b m e w);
}

absorb_following-Absorbed :
    (fuel start end lo : ℕ) (m : BTreeMap)
    → length m ≤ fuel
    → start < end
    → Separated lo m
    → Clear start start m
    → Absorbed start end lo m (absorb_following fuel start end m)
unfolding absorb_following
absorb_following-Absorbed zero start end lo [] h lt w c = record {
  grown = omega arith;
  separated = tt;
  clear = tt;
  same = λ s. refl;
}
absorb_following-Absorbed zero start end lo (e ∷ m) h lt w c = absurd (omega arith)
absorb_following-Absorbed (suc fuel) start end lo m h lt w c =
    elim (Option-cases (first_from start m)) [
      | inl e ↦
          rw (e, absorb_following)
            (record {
              grown = omega arith;
              separated = w;
              clear = first_from-none start end m e c;
              same = λ s. refl;
            })
      | inr ((a, b), e) ↦ elim (Bool-cases (ltb end a)) [
        | inl far ↦
            rw (e, absorb_following)
              (rw far (record {
                grown = omega arith;
                separated = w;
                clear = first_from-far start end lo a b m e (ground arith) w c;
                same = λ s. refl;
              }))
        | inr near ↦
            rw (e, absorb_following)
              (rw near (
                Absorbed-step start end lo a b m _ e (ground arith) w (
                  absorb_following-Absorbed fuel start (max end b) lo (remove a m)
                    (omega (arith, first_from-Found start lo a b m e w)) (omega arith)
                    (remove-Separated a lo m w) (remove-Clear a start start m c))))
      ]
    ]

-- The range to insert, widened by its predecessor.
record Widened (start end : ℕ) (m : BTreeMap) (r : ℕ × ℕ) : Type 0 where
  pub left : r.0 ≤ start
  pub right : end ≤ r.1
  pub clear : Clear r.0 r.0 m
  pub same : (s : ℕ) → (within r.0 r.1 s || missing m s) ≡ (within start end s || missing m s)

-- What `range(..start).next_back()` finds: every entry of a lower key ends before it.
last_below-none :
    (start lo : ℕ) (m : BTreeMap) → last_below start m ≡ none → Separated lo m → Clear start start m
unfolding last_below
last_below-none start lo [] e w = tt
last_below-none start lo ((a, b) ∷ m) e w = ground (
  arith,
  Clear-above start start (b + 1) m w.2,
  Option-cases (last_below start m),
  last_below-none start (b + 1) m,
)

last_below-some :
    (start lo a b : ℕ) (m : BTreeMap)
    → last_below start m ≡ some (a, b)
    → Separated lo m
    → (lo ≤ a) × (a < start) × (a < b) × Clear a a m
unfolding last_below
last_below-some start lo a b [] e w = absurd (cc)
last_below-some start lo a b ((x, y) ∷ m) e w = ground (
  arith,
  Option-cases (last_below start m),
  Clear-above a a (y + 1) m w.2,
  last_below-some start (y + 1) a b m,
)

-- A predecessor that ends before `start` leaves nothing that reaches it from below.
last_below-apart :
    (start lo a b : ℕ) (m : BTreeMap)
    → last_below start m ≡ some (a, b)
    → b < start
    → Separated lo m
    → Clear start start m
unfolding last_below
last_below-apart start lo a b [] e h w = tt
last_below-apart start lo a b ((x, y) ∷ m) e h w = ground (
  arith,
  Option-cases (last_below start m),
  last_below-none start (y + 1) m,
  last_below-apart start (y + 1) a b m,
  last_below-some start (y + 1) a b m,
)

missing-last_below :
    (start lo a b s : ℕ) (m : BTreeMap)
    → last_below start m ≡ some (a, b)
    → Separated lo m
    → within a b s ≡ true
    → missing m s ≡ true
unfolding last_below
missing-last_below start lo a b s [] e w h = absurd (cc)
missing-last_below start lo a b s ((x, y) ∷ m) e w h =
    ground (arith, Option-cases (last_below start m), missing-last_below start (y + 1) a b s m)

widen_left-Widened :
    (start end lo : ℕ) (m : BTreeMap)
    → start < end
    → Separated lo m
    → Widened start end m (widen_left start end m)
unfolding widen_left
widen_left-Widened start end lo m h w = elim (Option-cases (last_below start m)) [
  | inl e ↦
      rw (e, widen_left)
        (record {
          left = omega arith;
          right = omega arith;
          clear = last_below-none start lo m e w;
          same = λ s. refl;
        })
  | inr ((a, b), e) ↦ elim (Bool-cases (leb start b)) [
    | inl touch ↦
        rw (e, widen_left)
          (rw touch (record {
            left = omega (arith, last_below-some start lo a b m e w);
            right = omega arith;
            clear = (last_below-some start lo a b m e w).3;
            same = λ s. ground (
              arith,
              missing-last_below start lo a b s m e w,
              last_below-some start lo a b m e w,
            );
          }))
    | inr apart ↦
        rw (e, widen_left)
          (rw apart (record {
            left = omega arith;
            right = omega arith;
            clear = last_below-apart start lo a b m e (ground arith) w;
            same = λ s. refl;
          }))
  ]
]

-- The handler's invariant: its ranges are in order, not empty, disjoint and not adjacent.
abbrev pub IsValid : GapRequestHandler → Type 0
IsValid h = Separated 0 h.gaps

abbrev pub is_missing : GapRequestHandler → ℕ → Bool
is_missing h = missing h.gaps

insert_merged_lem :
    (start end s : ℕ) (m : BTreeMap)
    → start < end
    → Separated 0 m
    → Clear start start m
    → Separated 0 (insert_merged (start, end) m)
      × (missing (insert_merged (start, end) m) s ≡ (within start end s || missing m s))
unfolding insert_merged
insert_merged_lem start end s m h w c =
    let x = absorb_following-Absorbed (length m) start end 0 m (omega arith) h w c in
    let (end', m') = absorb_following (length m) start end m in
    (
      insert-Separated start end' 0 m' (omega arith) (omega (arith, x.grown)) x.separated x.clear,
      missing-insert start end' s m' (omega (arith, x.grown)) x.clear ∙ x.same s,
    )

-- `record_missing_range` keeps the ranges of a valid handler in order, not empty, disjoint and not
-- adjacent, and afterwards a sequence is missing exactly if it was or lies in `[start, end)`.
pub record_missing_range_lem :
    (h : GapRequestHandler) (start end s : ℕ)
    → IsValid h
    → IsValid (record_missing_range h start end)
      × (is_missing (record_missing_range h start end) s ≡ (within start end s || is_missing h s))
unfolding record_missing_range
record_missing_range_lem h start end s w = elim (Bool-cases (leb end start)) [
  | inl empty ↦ rw (empty, record_missing_range) (w, ground arith)
  | inr full ↦
      let x = widen_left-Widened start end 0 h.gaps (ground arith) w in
      let r =
        insert_merged_lem (widen_left start end h.gaps).0 (widen_left start end h.gaps).1 s h.gaps
          (ground (arith, x.left, x.right)) w x.clear in
      rw (full, record_missing_range) (r.0, r.1 ∙ x.same s)
]

-- `record_gap` keeps a valid handler valid and adds exactly one sequence, for every sequence but the
-- last of u64.
pub record_gap_lem :
    (h : GapRequestHandler) (seq s : ℕ)
    → seq < u64_max
    → IsValid h
    → IsValid (record_gap h seq) × (is_missing (record_gap h seq) s ≡ (s == seq || is_missing h s))
unfolding record_gap
record_gap_lem h seq s fits w = ground (arith, record_missing_range_lem h seq (add64 seq 1) s w)
