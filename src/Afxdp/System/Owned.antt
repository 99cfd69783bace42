-- ===== src/Afxdp/System/Owned.antt =====
-- Who owns a slot: no memory of a frame that a caller holds is in the hands of the kernel.
use polaris_trade.Base.{
  ℕ, ◌+◌, ◌*◌, ◌≤◌, ◌<◌, ◌≡◌, ◌≢◌, ◌∙◌, sym, ap, List, [], ◌∷◌, ◌++◌, arith, ltb, if◌then◌else◌,
  All, All-imp, All-append_left, All-append_right, All-append, inl, inr, ◌⊎◌,
}
use polaris_trade.Base.Weigh.{weigh, weigh-append, weigh-zero, weigh-upto_is, is}
use polaris_trade.Transport.IndexPool.{IndexFrame, IndexPool, frame_start}
use polaris_trade.Afxdp.Ring.{Producer, Consumer}
use polaris_trade.Afxdp.Ring.Contents.{contents}
use polaris_trade.Afxdp.Driver.{XdpDesc, slot_at}
use polaris_trade.Afxdp.Driver.Refill.{owed}
use polaris_trade.Afxdp.System.{System, recycled, total, initial, IsFresh, Reach}
use polaris_trade.Afxdp.System.Kept.{Sizes, Reach-sizes}
use native.Mathlib.Decide.{dec_lt}
use native.Mathlib.Nat.{mul-le-mul_right}
use polaris_trade.Afxdp.System.Invariant.{Inv, Inv-Refilled}
use polaris_trade.Afxdp.System.Conserve.{Reach-Inv}

-- How often slot `k` is anywhere.
abbrev pub copies : ℕ → System → ℕ
copies k s = total (is k) s

Inv-copies : {s : System} (k : ℕ) → Inv s → copies k s ≡ (if ltb k s.rings.frames then 1 else 0)
Inv-copies {s} k v = v.conserved (is k) ∙ weigh-upto_is k s.rings.frames

is-ne : (k j : ℕ) → is k j ≡ 0 → j ≢ k
is-ne k j e = ground arith

-- `f` is alone in its slot, which it lies in.
pub record Owned (s : System) (f : IndexFrame) (others : List IndexFrame) : Type 0 where
  pub exists : f.slot < s.rings.frames
  pub inside : f.offset + f.len ≤ s.rings.frame_size
  pub not_filled : All (λ addr. slot_at s.rings addr ≢ f.slot) (contents s.rings.fill.ring)
  pub not_held : All (λ addr. slot_at s.rings addr ≢ f.slot) s.held
  pub not_received : All (λ d. slot_at s.rings d.addr ≢ f.slot) (contents s.rings.rx.ring)
  pub not_shared : All (λ g. g.slot ≢ f.slot) others
  pub not_freed : All (λ k. k ≢ f.slot) s.pool.freed
  pub not_free : All (λ k. k ≢ f.slot) s.rings.free

module _ {A : Type 0} (at : A → ℕ) (k : ℕ) where
  none-at : (xs : List A) → weigh (λ x. is k (at x)) xs ≡ 0 → All (λ x. at x ≢ k) xs
  none-at xs e = All-imp _ _ (λ x. is-ne k (at x)) xs (weigh-zero (λ x. is k (at x)) xs e)

Inv-Owned :
    {s : System} (before : List IndexFrame) (f : IndexFrame) (after : List IndexFrame)
    → Inv s
    → s.pool.live ≡ before ++ (f ∷ after)
    → Owned s f (before ++ after)
Inv-Owned {s} before f after v e = record {
  exists = ground (arith, alone);
  inside = (All-append_right _ before (f ∷ after) (rw e at v.inside)).0;
  not_filled =
      none-at (λ a. slot_at s.rings a) f.slot (contents s.rings.fill.ring) (ground (arith, alone));
  not_held = none-at (λ a. slot_at s.rings a) f.slot s.held (ground (arith, alone));
  not_received =
      none-at (λ (d : XdpDesc). slot_at s.rings d.addr) f.slot (contents s.rings.rx.ring)
        (ground (arith, alone));
  not_shared =
      none-at (λ (g : IndexFrame). g.slot) f.slot (before ++ after) (ground (arith, alone));
  not_freed = none-at (λ (j : ℕ). j) f.slot s.pool.freed (ground (arith, alone));
  not_free = none-at (λ (j : ℕ). j) f.slot s.rings.free (ground (arith, alone));
}
  where
    here : is f.slot f.slot ≡ 1
    here = ground arith

    alone :
        weigh (λ addr. is f.slot (slot_at s.rings addr)) (contents s.rings.fill.ring)
          + weigh (λ addr. is f.slot (slot_at s.rings addr)) s.held
          + weigh (λ d. is f.slot (slot_at s.rings d.addr)) (contents s.rings.rx.ring)
          + (weigh (λ g. is f.slot g.slot) (before ++ after) + 1)
          + weigh (is f.slot) s.pool.freed
          + weigh (is f.slot) s.rings.free
        ≡ (if ltb f.slot s.rings.frames then 1 else 0)
    alone = omega (
      arith,
      Inv-copies {s = s} f.slot v,
      ap (weigh (λ (g : IndexFrame). is f.slot g.slot)) e,
      weigh-append (λ (g : IndexFrame). is f.slot g.slot) before (f ∷ after),
      weigh-append (λ (g : IndexFrame). is f.slot g.slot) before after,
      here,
    )

-- Where its bytes end.
abbrev pub end : IndexPool → IndexFrame → ℕ
end p f = frame_start p f + f.len

abbrev pub Apart : IndexPool → IndexFrame → IndexFrame → Type 0
Apart p f g = (end p f ≤ frame_start p g) ⊎ (end p g ≤ frame_start p f)

slots-Apart :
    (p : IndexPool) (f g : IndexFrame)
    → f.offset + f.len ≤ p.stride
    → g.offset + g.len ≤ p.stride
    → g.slot ≢ f.slot
    → Apart p f g
slots-Apart p f g hf hg ne = elim (dec_lt f.slot g.slot) [
  | yes lt ↦ inl (omega (arith, mul-le-mul_right p.stride lt))
  | no ge ↦
      let lt : g.slot < f.slot = omega arith in inr (omega (arith, mul-le-mul_right p.stride lt))
]

All-both {ℓ κ η} :
    {A : Type ℓ} (P : A → Type κ) (Q : A → Type η) (xs : List A)
    → All P xs
    → All Q xs
    → All (λ x. P x × Q x) xs
All-both P Q [] h k = tt
All-both P Q (x ∷ xs) h k = ((h.0, k.0), All-both P Q xs h.1 k.1)

module _ {fill : Producer ℕ} {rx : Consumer XdpDesc} {frames frame_size : ℕ} {s : System}
    (fresh : IsFresh fill rx frames frame_size)
    (r : Reach (initial fill rx frames frame_size) s) where
  -- However the driver, the kernel and the holders of frames take turns, each slot of the pool is in
  -- exactly one place: once on the fill ring, in the kernel, on the receive ring, in a live frame, on
  -- the freed list or on the free list. No other slot is anywhere.
  pub one_place : (k : ℕ) → copies k s ≡ (if ltb k frames then 1 else 0)
  one_place k =
      Inv-copies {s = s} k (Reach-Inv fresh r)
      ∙ ap (λ (n : Sizes). if ltb k n.0 then 1 else 0) (Reach-sizes r)

  -- While a frame is live, however the steps interleave, it lies inside a slot of the pool, and that slot is nowhere else: the
  -- kernel cannot write to it, as it neither has it nor finds it on the fill ring, no descriptor on the
  -- receive ring names it, no other live frame shares it and the driver has it on neither of its lists.
  pub live_frame-Owned :
      (before : List IndexFrame) (f : IndexFrame) (after : List IndexFrame)
      → s.pool.live ≡ before ++ (f ∷ after)
      → Owned s f (before ++ after)
  live_frame-Owned before f after e = Inv-Owned before f after (Reach-Inv fresh r) e

  -- The bytes of a live frame lie inside the pool's region and apart from those of every other live frame.
  pub live_bytes-Apart :
      (before : List IndexFrame) (f : IndexFrame) (after : List IndexFrame)
      → s.pool.live ≡ before ++ (f ∷ after)
      → (end s.pool f ≤ frames * frame_size) × All (Apart s.pool f) (before ++ after)
  live_bytes-Apart before f after e = (
    omega
        (arith, inside_f, ap (λ (n : ℕ). frames * n) stride, mul-le-mul_right s.pool.stride exists),
    All-imp _ _ (λ g h. slots-Apart s.pool f g inside_f h.0 h.1) (before ++ after)
        (All-both _ _ (before ++ after)
          (All-append _ before after (All-append_left _ before (f ∷ after) insides)
            (All-append_right _ before (f ∷ after) insides).1)
          o.not_shared),
  )
    where
      o : Owned s f (before ++ after)
      o = live_frame-Owned before f after e

      stride : s.pool.stride ≡ frame_size
      stride = ap (λ (n : Sizes). n.2) (Reach-sizes r)

      same : s.rings.frame_size ≡ s.pool.stride
      same = ap (λ (n : Sizes). n.1) (Reach-sizes r) ∙ sym stride

      exists : f.slot < frames
      exists = omega (arith, o.exists, ap (λ (n : Sizes). n.0) (Reach-sizes r))

      inside_f : f.offset + f.len ≤ s.pool.stride
      inside_f = omega (arith, o.inside, same)

      insides : All (λ g. g.offset + g.len ≤ s.pool.stride) (before ++ (f ∷ after))
      insides = rw (same, e) at (Reach-Inv fresh r).inside

  -- Whenever the driver recycles, all slots that callers have given back reach the kernel: behind what is
  -- on the fill ring stand the addresses of the free and the freed slots, and none is left on a list.
  pub recycle_hands_all :
      (contents (recycled s).rings.fill.ring ≡ contents s.rings.fill.ring ++ owed s.rings s.pool)
      × ((recycled s).rings.free ≡ [])
      × ((recycled s).pool.freed ≡ [])
  recycle_hands_all =
      let v = Reach-Inv fresh r in
      let p = Inv-Refilled v in (p.on_ring, p.none_free, p.none_drained ∙ v.nothing_freed)
