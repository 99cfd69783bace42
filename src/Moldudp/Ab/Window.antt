-- ===== src/Moldudp/Ab/Window.antt =====
-- The window of the arbiter: its bits are the deliveries of the last `capacity` sequences.
use polaris_trade.Base.{
  ℕ, zero, suc, ◌+◌, ◌-◌, ◌%◌, ◌≤◌, ◌<◌, Bool, true, false, ◌≡◌, ◌∙◌, refl, sym, ap, inl, inr, none,
  arith, ltb, leb, ◌==◌, if◌then◌else◌, length, get_or, set, length-set, get_or-set_self,
  get_or-set_ne, add64, u64_max, Bool-cases, leb→le, idx-ne,
}
use polaris_trade.Base.HashMap.{lookup, lookup-or_insert}
use polaris_trade.Moldudp.Ab.{
  AbArbiter, capacity, idx, bit_at, set_bit, stage, evict, slide, slide_to,
}
use native.Mathlib.Nat.{add-mod_right, mod-lt}

pub capacity-set_bit : (a : AbArbiter) (s : ℕ) (b : Bool) → capacity (set_bit a s b) ≡ capacity a
capacity-set_bit a s b = length-set a.window_bits (idx a s) b

pub bit_at-set_bit :
    (a : AbArbiter) (s t : ℕ) (b : Bool)
    → 0 < capacity a
    → bit_at (set_bit a s b) t ≡ (if idx a t == idx a s then b else bit_at a t)
bit_at-set_bit a s t b pos =
    ap (λ (n : ℕ). get_or (set a.window_bits (idx a s) b) (t % n) false) (capacity-set_bit a s b)
    ∙ read
  where
    read :
        get_or (set a.window_bits (idx a s) b) (idx a t) false
        ≡ (if idx a t == idx a s then b else bit_at a t)
    read = ground (
      arith,
      get_or-set_self a.window_bits (idx a s) b false,
      get_or-set_ne a.window_bits (idx a s) (idx a t) b false,
      mod-lt s pos,
    )

-- `delivered` is the set of sequences that the arbiter has forwarded: the window's bits are that
-- set, nothing beyond the window is in it, and no candidate for a gap is.
pub record IsValid (delivered : ℕ → Bool) (a : AbArbiter) : Type 0 where
  pub positive : 0 < capacity a
  pub fits : a.window_base + capacity a ≤ u64_max
  pub window :
      (s : ℕ) → a.window_base ≤ s → s < a.window_base + capacity a → bit_at a s ≡ delivered s
  pub ahead : (s : ℕ) → a.window_base + capacity a ≤ s → delivered s ≡ false
  pub settled : (s : ℕ) → delivered s ≡ true → lookup s a.pending_gap_confirms ≡ none

module _ (delivered : ℕ → Bool) where
  pub stage-IsValid :
      (a : AbArbiter) (seq now : ℕ)
      → IsValid delivered a
      → delivered seq ≡ false
      → IsValid delivered (stage a seq now)
  stage-IsValid a seq now v new = record {
    positive = v.positive;
    fits = v.fits;
    window = v.window;
    ahead = v.ahead;
    settled =
        λ s h. ground (arith, lookup-or_insert seq s now a.pending_gap_confirms, v.settled s h);
  }

  -- Moving the base by one position.
  shift-IsValid :
      (a : AbArbiter)
      → IsValid delivered a
      → a.window_base + capacity a < u64_max
      → IsValid delivered
          (record (set_bit a a.window_base false) { window_base = a.window_base + 1 })
  shift-IsValid a v room = record {
    positive = omega (arith, v.positive, len);
    fits = omega (arith, len);
    window = λ s lo hi. elim (Bool-cases (s == a.window_base + capacity a)) [
      | inl last ↦ ground (
        arith,
        bit_at-set_bit a a.window_base s false v.positive,
        add-mod_right a.window_base (capacity a),
        v.ahead s,
      )
      | inr inner ↦ ground (
        arith,
        len,
        bit_at-set_bit a a.window_base s false v.positive,
        idx-ne (capacity a) a.window_base s,
        v.window s,
      )
    ];
    ahead = λ s h. v.ahead s (omega (arith, len));
    settled = v.settled;
  }
    where
      len : length (set a.window_bits (idx a a.window_base) false) ≡ capacity a
      len = length-set a.window_bits (idx a a.window_base) false

  evict-IsValid :
      (a : AbArbiter) (now : ℕ)
      → IsValid delivered a
      → a.window_base + capacity a < u64_max
      → IsValid delivered (evict now a)
        × ((evict now a).window_base ≡ a.window_base + 1)
        × (capacity (evict now a) ≡ capacity a)
  unfolding evict
  evict-IsValid a now v room = elim (Bool-cases (bit_at a a.window_base)) [
    | inl seen ↦
        rw (seen, plus, evict)
          (shift-IsValid a v room, refl, capacity-set_bit a a.window_base false)
    | inr unseen ↦
        let w =
          stage-IsValid a a.window_base now v
            (sym (v.window a.window_base (omega arith) (omega (arith, v.positive))) ∙ unseen) in
        rw (unseen, plus, evict)
          (
            shift-IsValid (stage a a.window_base now) w room,
            refl,
            capacity-set_bit a a.window_base false,
          )
  ]
    where
      plus : add64 a.window_base 1 ≡ a.window_base + 1
      plus = omega (arith, v.fits, v.positive, room)

  slide-IsValid :
      (fuel target now : ℕ) (a : AbArbiter)
      → IsValid delivered a
      → target - a.window_base ≤ fuel
      → target + capacity a ≤ u64_max
      → a.window_base ≤ target
      → IsValid delivered (slide fuel target now a)
        × ((slide fuel target now a).window_base ≡ target)
        × (capacity (slide fuel target now a) ≡ capacity a)
  unfolding slide
  slide-IsValid zero target now a v h room le = (v, omega arith, refl)
  slide-IsValid (suc fuel) target now a v h room le = elim (Bool-cases (ltb a.window_base target)) [
    | inl more ↦
        let e = evict-IsValid a now v (ground arith) in
        let ih =
          slide-IsValid fuel target now (evict now a) e.0 (omega (arith, e.1)) (omega (arith, e.2))
            (ground (arith, e.1)) in
        rw (more, slide) (ih.0, ih.1, ih.2 ∙ e.2)
    | inr done ↦ rw (done, slide) (v, ground arith, refl)
  ]

  -- Sliding the window forward keeps what it means, and brings `seq` inside.
  pub slide_to-IsValid :
      (a : AbArbiter) (seq now : ℕ)
      → IsValid delivered a
      → a.window_base ≤ seq
      → seq < u64_max
      → IsValid delivered (slide_to a seq now)
        × ((slide_to a seq now).window_base ≤ seq)
        × (seq < (slide_to a seq now).window_base + capacity (slide_to a seq now))
        × (a.window_base ≤ (slide_to a seq now).window_base)
  unfolding slide_to
  slide_to-IsValid a seq now v le lt = elim (Bool-cases (leb (a.window_base + capacity a) seq)) [
    | inl beyond ↦
        let target = seq - capacity a + 1 in
        let s =
          slide-IsValid (target - a.window_base) target now a v (omega arith)
            (omega (arith, leb→le (a.window_base + capacity a) seq beyond))
            (omega (arith, leb→le (a.window_base + capacity a) seq beyond)) in
        rw (plus, beyond, slide_to)
          (
            s.0,
            omega (arith, s.1, v.positive, leb→le (a.window_base + capacity a) seq beyond),
            omega (arith, s.1, s.2),
            omega (arith, s.1, leb→le (a.window_base + capacity a) seq beyond),
          )
    | inr in_window ↦ rw (plus, in_window, slide_to) (v, le, ground arith, omega arith)
  ]
    where
      plus : add64 a.window_base (capacity a) ≡ a.window_base + capacity a
      plus = omega (arith, v.fits)
