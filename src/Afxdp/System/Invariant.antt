-- ===== src/Afxdp/System/Invariant.antt =====
-- What holds between the steps, and that the driver's own steps keep it.
use polaris_trade.Base.{
  ℕ, zero, suc, ◌+◌, ◌-◌, ◌*◌, ◌^◌, ◌≤◌, ◌<◌, min, ◌≡◌, ◌∙◌, sym, ap, List, [], ◌∷◌, ◌++◌, arith,
  ltb, if◌then◌else◌, length, length-append, All, All-append_left, All-imp,
}
use mathlib.Core.List.{reverse}
use polaris_trade.Base.Weigh.{
  weigh, weigh-append, weigh-reverse, weigh-one, weigh-zero, weigh-map, upto, weigh-ext,
  weigh-upto_one,
}
use native.Mathlib.Nat.{mul-div_cancel}
use polaris_trade.Transport.Batch.{FrameBatch, spare}
use polaris_trade.Transport.IndexPool.{IndexFrame}
use polaris_trade.Afxdp.Ring.{Consumer, consume, size}
use polaris_trade.Afxdp.Ring.Contents.{contents}
use polaris_trade.Afxdp.Ring.Refine.{IsProducer, IsConsumer, consume_lem}
use polaris_trade.Afxdp.Driver.{slot_at, XdpDesc, Poll, collect_all, poll_round}
use polaris_trade.Afxdp.Driver.Collect.{Known, Collects, collect_all_lem}
use polaris_trade.Afxdp.Driver.Refill.{owed, Refilled, refill_lem}
use polaris_trade.Afxdp.System.{System, recycled, drained, total}

pub record Inv (s : System) : Type 0 where
  pub fill_ring : IsProducer s.rings.fill
  pub rx_ring : IsConsumer s.rings.rx
  pub fill_size : size s.rings.fill.ring ≡ s.rings.frames
  pub rx_size : size s.rings.rx.ring ≡ s.rings.frames
  pub some_bytes : 0 < s.rings.frame_size
  pub frame_size_word : s.rings.frame_size < 2 ^ 32
  pub nothing_freed : s.rings.freed ≡ []
  pub inside : All (λ f. f.offset + f.len ≤ s.rings.frame_size) s.pool.live
  pub conserved : (w : ℕ → ℕ) → total w s ≡ weigh w (upto s.rings.frames)

-- Nothing on the receive ring lies outside the pool, and the slots number as many as the frames.
Inv-Known : {s : System} → Inv s → Known s.rings (contents s.rings.rx.ring)
Inv-Known {s} v =
    All-imp _ _ (λ d e. ground arith) (contents s.rings.rx.ring)
      (weigh-zero (λ d. outside (slot_at s.rings d.addr)) (contents s.rings.rx.ring)
        (omega (arith, v.conserved outside, weigh-upto_outside s.rings.frames)))
  where
    outside : ℕ → ℕ
    outside k = if ltb k s.rings.frames then 0 else 1

    weigh-upto_outside : (n : ℕ) → weigh outside (upto n) ≡ n - s.rings.frames
    weigh-upto_outside zero = omega arith
    weigh-upto_outside (suc n) =
        ground (arith, weigh-append outside (upto n) (n ∷ []), weigh-upto_outside n)

-- The fill ring has room for whatever is free.
Inv-fits :
    {s : System}
    → Inv s
    → length (s.rings.free ++ s.pool.freed)
      ≤ size s.rings.fill.ring - length (contents s.rings.fill.ring)
Inv-fits {s} v = omega (
  arith,
  v.conserved (λ k. 1),
  weigh-upto_one s.rings.frames,
  weigh-one (contents s.rings.fill.ring),
  weigh-one s.rings.free,
  weigh-one s.pool.freed,
  length-append s.rings.free s.pool.freed,
  v.fill_size,
)

-- The addresses that go back weigh what was free.
weigh-owed :
    (s : System) (w : ℕ → ℕ)
    → 0 < s.rings.frame_size
    → weigh (λ a. w (slot_at s.rings a)) (owed s.rings s.pool)
      ≡ weigh w s.rings.free + weigh w s.pool.freed
weigh-owed s w pos =
    weigh-map (λ a. w (slot_at s.rings a)) (λ slot. slot * s.rings.frame_size)
      (reverse (s.rings.free ++ s.pool.freed))
    ∙ weigh-ext (λ k. w (slot_at s.rings (k * s.rings.frame_size))) w
        (λ k. ap w (mul-div_cancel k pos)) (reverse (s.rings.free ++ s.pool.freed))
    ∙ weigh-reverse w (s.rings.free ++ s.pool.freed)
    ∙ weigh-append w s.rings.free s.pool.freed

pub Inv-Refilled :
    {s : System} → Inv s → Refilled s.rings s.pool (recycled s).rings (recycled s).pool
Inv-Refilled {s} v = refill_lem s.rings s.pool v.fill_ring (Inv-fits v)

pub Inv-recycled : {s : System} → Inv s → Inv (recycled s)
Inv-recycled {s} v =
    let r = Inv-Refilled v in
    record {
      fill_ring = r.fill_ring;
      rx_ring = rw r.same_rx v.rx_ring;
      fill_size = r.same_size ∙ v.fill_size ∙ sym r.same_frames;
      rx_size = rw (r.same_rx, r.same_frames) v.rx_size;
      some_bytes = rw r.same_frame_size v.some_bytes;
      frame_size_word = rw r.same_frame_size v.frame_size_word;
      nothing_freed = r.none_freed;
      inside = rw (r.same_live, r.same_frame_size) v.inside;
      conserved = λ w.
          rw
            (
              r.on_ring, r.same_rx, r.same_live, r.none_drained, r.none_free, r.same_frames,
              r.same_frame_size, v.nothing_freed,
            )
            (omega (
              arith,
              v.conserved w,
              weigh-append (λ a. w (slot_at s.rings a)) (contents s.rings.fill.ring)
                  (owed s.rings s.pool),
              weigh-owed s w v.some_bytes,
            ));
    }

pub Inv-drained :
    {s : System} (out : FrameBatch IndexFrame) (pushed : ℕ) → Inv s → Inv (drained s out pushed)
unfolding poll_round
Inv-drained {s} out pushed v = record {
  fill_ring = rw c.same_fill v.fill_ring;
  rx_ring = rw c.same_rx taken.3;
  fill_size = rw (c.same_fill, c.same_frames) v.fill_size;
  rx_size = rw (c.same_rx, c.same_frames) (taken.2 ∙ v.rx_size);
  some_bytes = rw c.same_frame_size v.some_bytes;
  frame_size_word = rw c.same_frame_size v.frame_size_word;
  nothing_freed = c.same_freed ∙ v.nothing_freed;
  inside = rw c.same_frame_size (c.inside v.inside);
  conserved = λ w.
      rw (c.same_fill, c.same_rx, c.same_frames, c.same_frame_size, c.same_pool_freed)
        (omega (
          arith,
          v.conserved w,
          c.moved w,
          ap (weigh (λ (d : XdpDesc). w (slot_at s.rings d.addr))) taken.1,
          weigh-append (λ (d : XdpDesc). w (slot_at s.rings d.addr)) passed (contents rx.ring),
        ));
}
  where
    max : ℕ
    max = min (spare out) (2 ^ 32 - 1)

    rx : Consumer XdpDesc
    rx = (consume s.rings.rx max).0

    passed : List XdpDesc
    passed = (consume s.rings.rx max).1

    taken :
        (length passed ≡ min (length (contents s.rings.rx.ring)) max)
        × (contents s.rings.rx.ring ≡ passed ++ contents rx.ring)
        × (size rx.ring ≡ size s.rings.rx.ring)
        × IsConsumer rx
    taken = consume_lem s.rings.rx max v.rx_ring

    before : Poll
    before = record {
      rings = record s.rings { rx = rx };
      pool = s.pool;
      out = out;
      pushed = pushed;
    }

    c : Collects before (collect_all before passed) passed
    c =
        collect_all_lem before passed v.some_bytes v.frame_size_word
          (omega (arith, v.rx_size, v.rx_ring.shared.larger))
          (All-append_left _ passed (contents rx.ring) (rw taken.1 at (Inv-Known {s = s} v)))
