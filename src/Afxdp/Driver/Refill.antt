-- ===== src/Afxdp/Driver/Refill.antt =====
-- `refill`: the slots that are free go back to the kernel.
use polaris_trade.Base.{
  ℕ, ◌-◌, ◌*◌, ◌≤◌, ◌≡◌, ◌∙◌, refl, ap, List, [], ◌++◌, map, arith, length, take,
}
use mathlib.Core.List.{reverse}
use polaris_trade.Base.Weigh.{length-reverse, length-map, take-all}
use polaris_trade.Transport.IndexPool.{IndexPool}
use polaris_trade.Afxdp.Ring.{size, produce}
use polaris_trade.Afxdp.Ring.Contents.{contents}
use polaris_trade.Afxdp.Ring.Refine.{IsProducer, produce_lem}
use polaris_trade.Afxdp.Driver.{Rings, refill}

-- The addresses that `refill` puts on the fill ring.
abbrev pub owed : Rings → IndexPool → List ℕ
owed r pool = map (λ slot. slot * r.frame_size) (reverse (r.free ++ pool.freed))

pub record Refilled (r : Rings) (pool : IndexPool) (r' : Rings) (pool' : IndexPool) : Type 0 where
  pub fill_ring : IsProducer r'.fill
  pub on_ring : contents r'.fill.ring ≡ contents r.fill.ring ++ owed r pool
  pub same_size : size r'.fill.ring ≡ size r.fill.ring
  pub none_free : r'.free ≡ []
  pub none_freed : r'.freed ≡ []
  pub none_drained : pool'.freed ≡ r.freed
  pub same_live : pool'.live ≡ pool.live
  pub same_rx : r'.rx ≡ r.rx
  pub same_frames : r'.frames ≡ r.frames
  pub same_frame_size : r'.frame_size ≡ r.frame_size

-- With an entry of the ring for each slot, everything that is free goes.
pub refill_lem :
    (r : Rings) (pool : IndexPool)
    → IsProducer r.fill
    → length (r.free ++ pool.freed) ≤ size r.fill.ring - length (contents r.fill.ring)
    → Refilled r pool (refill r pool).0 (refill r pool).1
unfolding refill
refill_lem r pool v fits =
    let p = produce_lem r.fill (owed r pool) v in
    let all : (produce r.fill (owed r pool)).1 ≡ length (owed r pool) = omega (arith, p.0, len) in
    let none_left : length (r.free ++ pool.freed) - (produce r.fill (owed r pool)).1 ≡ 0 =
      omega (arith, all, len) in
    record {
      fill_ring = p.3;
      on_ring =
          p.1
          ∙ ap (λ xs. contents r.fill.ring ++ xs)
              (ap (λ (n : ℕ). take n (owed r pool)) all ∙ take-all (owed r pool));
      same_size = p.2;
      none_free = ap (λ (n : ℕ). take n (r.free ++ pool.freed)) none_left;
      none_freed = refl;
      none_drained = refl;
      same_live = refl;
      same_rx = refl;
      same_frames = refl;
      same_frame_size = refl;
    }
  where
    len : length (owed r pool) ≡ length (r.free ++ pool.freed)
    len = omega (
      arith,
      length-map (λ slot. slot * r.frame_size) (reverse (r.free ++ pool.freed)),
      length-reverse (r.free ++ pool.freed),
    )
