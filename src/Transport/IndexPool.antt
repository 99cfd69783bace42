-- ===== src/Transport/IndexPool.antt =====
-- crates/transports/core/src/pool/index.rs: the pool of slots under a driver. `live` stands for the
-- frames that are not dropped yet, each of which holds a reference to what the pool shares.
use polaris_trade.Base.{ℕ, ◌+◌, ◌*◌, List, [], ◌∷◌, ◌++◌, length}
use polaris_trade.Transport.Batch.{PoolStats}

pub record IndexFrame : Type 0 where
  pub slot : ℕ
  pub offset : ℕ
  pub len : ℕ

pub record IndexPool : Type 0 where
  pub stride : ℕ
  pub count : ℕ
  pub freed : List ℕ
  pub live : List IndexFrame

-- `IndexPool::new`, where its allocations succeed.
abbrev pub new_pool : ℕ → ℕ → IndexPool
new_pool count stride = record { stride = stride; count = count; freed = []; live = [] }

-- `stats`: the strong count less one is the count of the live frames.
abbrev pub stats : IndexPool → PoolStats
stats p = record { in_use = length p.live; capacity = p.count }

-- `IndexPool::frame`
abbrev pub frame : IndexPool → ℕ → ℕ → ℕ → IndexFrame × IndexPool
frame p slot offset len =
    let f : IndexFrame = record { slot = slot; offset = offset; len = len } in
    (f, record p { live = p.live ++ (f ∷ []) })

-- `drain_freed(&mut into)`: the pool, and what `into` is behind it.
abbrev pub drain_freed : IndexPool → List ℕ → IndexPool × List ℕ
drain_freed p into = (record p { freed = into }, p.freed)

-- The drop of `f`, where `others` are the other live frames.
abbrev pub drop_frame : IndexPool → IndexFrame → List IndexFrame → IndexPool
drop_frame p f others = record p { freed = p.freed ++ (f.slot ∷ []); live = others }

-- `IndexFrame::as_ref`: where its bytes start in the region.
abbrev pub frame_start : IndexPool → IndexFrame → ℕ
frame_start p f = f.slot * p.stride + f.offset
