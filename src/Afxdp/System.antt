-- ===== src/Afxdp/System.antt =====
-- The driver of crates/transports/afxdp/src/driver.rs beside the kernel and the holders of its frames, which act in
-- any order between its operations.
pub mod Kept
pub mod Invariant
pub mod Conserve
pub mod Owned
use polaris_trade.Base.{
  ℕ, zero, suc, ◌+◌, ◌-◌, ◌*◌, ◌/◌, ◌%◌, ◌^◌, ◌≡◌, ◌<◌, Bool, true, false, List, [], ◌∷◌, ◌++◌,
  length,
}
use polaris_trade.Base.Weigh.{weigh}
use polaris_trade.Transport.Batch.{FrameBatch}
use polaris_trade.Transport.IndexPool.{IndexFrame, IndexPool, new_pool, drop_frame}
use polaris_trade.Afxdp.Ring.{Ring, Producer, Consumer, size, entry, write, add32}
use polaris_trade.Afxdp.Ring.Contents.{contents}
use polaris_trade.Afxdp.Ring.Refine.{IsProducer, IsConsumer}
use polaris_trade.Afxdp.Driver.{XdpDesc, slot_at, Rings, new_rings, refill, Poll, poll_round}

-- `held` are the addresses that the kernel has taken from the fill ring and not handed back.
pub record System : Type 0 where
  pub rings : Rings
  pub pool : IndexPool
  pub held : List ℕ

-- What the kernel does to the words and entries that it owns.
abbrev pub take_fill : Rings → Rings
take_fill r = record r {
  fill = record r.fill { ring = record r.fill.ring { consumer = add32 r.fill.ring.consumer 1 } };
}

abbrev pub put_rx : Rings → XdpDesc → Rings
put_rx r d = record r {
  rx = record r.rx {
    ring = record r.rx.ring {
      producer = add32 r.rx.ring.producer 1;
      desc = write r.rx.ring.desc (entry r.rx.ring r.rx.ring.producer) d;
    };
  };
}

abbrev pub set_flags : Rings → ℕ → Rings
set_flags r flags = record r {
  fill = record r.fill { ring = record r.fill.ring { flags = flags } };
}

-- `refill` and a round of `poll_frames`, as `XskDriver` calls them.
abbrev pub recycled : System → System
recycled s = let (rings, pool) = refill s.rings s.pool in record s { rings = rings; pool = pool }

abbrev pub drained : System → FrameBatch IndexFrame → ℕ → System
drained s out pushed =
    let (p, taken) =
      poll_round (record { rings = s.rings; pool = s.pool; out = out; pushed = pushed }) in
    record s { rings = p.rings; pool = p.pool }

-- The kernel takes the oldest address of the fill ring, and hands a slot back by a descriptor of any
-- length that starts in it, while the receive ring has room.
pub data Step (s : System) : System → Type 0 where
  recycle : Step s (recycled s)
  drain : (out : FrameBatch IndexFrame) (pushed : ℕ) → Step s (drained s out pushed)
  frame_dropped :
      (before : List IndexFrame) (f : IndexFrame) (after : List IndexFrame)
      → s.pool.live ≡ before ++ (f ∷ after)
      → Step s (record s { pool = drop_frame s.pool f (before ++ after) })
  kernel_takes :
      (addr : ℕ) (rest : List ℕ)
      → contents s.rings.fill.ring ≡ addr ∷ rest
      → Step s (record s { rings = take_fill s.rings; held = addr ∷ s.held })
  kernel_gives :
      (before : List ℕ) (addr : ℕ) (after : List ℕ) (d : XdpDesc)
      → s.held ≡ before ++ (addr ∷ after)
      → slot_at s.rings d.addr ≡ slot_at s.rings addr
      → length (contents s.rings.rx.ring) < size s.rings.rx.ring
      → Step s (record s { rings = put_rx s.rings d; held = before ++ after })
  kernel_flags : (flags : ℕ) → Step s (record s { rings = set_flags s.rings flags })

pub data Reach (s₀ : System) : System → Type 0 where
  start : Reach s₀ s₀
  later : {s t : System} → Reach s₀ s → Step s t → Reach s₀ t

-- What `XskDriver::open` starts with, on rings of the kernel.
abbrev pub initial : Producer ℕ → Consumer XdpDesc → ℕ → ℕ → System
initial fill rx frames frame_size = record {
  rings = new_rings fill rx frames frame_size;
  pool = new_pool frames frame_size;
  held = [];
}

-- The rings of a fresh socket are empty, and have an entry for each frame.
pub record IsFresh (fill : Producer ℕ) (rx : Consumer XdpDesc) (frames frame_size : ℕ)
    : Type 0 where
  pub fill_ring : IsProducer fill
  pub rx_ring : IsConsumer rx
  pub fill_empty : contents fill.ring ≡ []
  pub rx_empty : contents rx.ring ≡ []
  pub fill_size : size fill.ring ≡ frames
  pub rx_size : size rx.ring ≡ frames
  pub some_bytes : 0 < frame_size
  pub frame_size_word : frame_size < 2 ^ 32

-- What all slots together weigh: those on the fill ring, in the kernel, on the receive ring, in live
-- frames, freed and free.
abbrev pub total : (ℕ → ℕ) → System → ℕ
total w s =
    weigh (λ addr. w (slot_at s.rings addr)) (contents s.rings.fill.ring)
    + weigh (λ addr. w (slot_at s.rings addr)) s.held
    + weigh (λ d. w (slot_at s.rings d.addr)) (contents s.rings.rx.ring)
    + weigh (λ f. w f.slot) s.pool.live
    + weigh w s.pool.freed
    + weigh w s.rings.free
