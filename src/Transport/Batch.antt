-- ===== src/Transport/Batch.antt =====
-- `FrameBatch` of crates/transports/core/src/transport.rs, and `PoolStats` of its pool/mod.rs.
use polaris_trade.Base.{ℕ, ◌-◌, List, [], ◌∷◌, ◌++◌, length}

module _ (F : Type 0) where
  pub record FrameBatch : Type 0 where
    pub frames : List F
    pub cap : ℕ

pub record PoolStats : Type 0 where
  pub in_use : ℕ
  pub capacity : ℕ

module _ {F : Type 0} where
  abbrev pub with_capacity : ℕ → FrameBatch F
  with_capacity cap = record { frames = []; cap = cap }

  abbrev pub spare : FrameBatch F → ℕ
  spare b = b.cap - length b.frames

  abbrev pub len : FrameBatch F → ℕ
  len b = length b.frames

  abbrev pub push : FrameBatch F → F → FrameBatch F
  push b frame = record b { frames = b.frames ++ (frame ∷ []) }
