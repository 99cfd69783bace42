-- ===== src/Transport/VecPool.antt =====
-- crates/transports/core/src/pool/vec.rs, and its access for backends in pool/backend.rs: slabs of heap memory.
-- `out` counts the slabs that are out, each of which holds a reference to the free list.
use polaris_trade.Base.{
  ℕ, ◌+◌, ◌-◌, Option, none, some, List, [], ◌∷◌, length, min, take, replicate,
}
use polaris_trade.Transport.Batch.{PoolStats}

-- The free list, its last slab first.
pub record VecPool : Type 0 where
  pub free : List (List ℕ)
  pub capacity : ℕ
  pub out : ℕ

pub record VecSlab : Type 0 where
  pub buf : List ℕ
  pub len : ℕ

-- `VecPool::new`, where its allocations succeed.
abbrev pub new_vec_pool : ℕ → ℕ → VecPool
new_vec_pool slab_count slab_size = record {
  free = replicate slab_count (replicate slab_size 0);
  capacity = slab_count;
  out = 0;
}

abbrev pub vec_stats : VecPool → PoolStats
vec_stats p = record { in_use = p.out; capacity = p.capacity }

-- A list by its first element, if it has one.
abbrev pub popped : VecPool → List (List ℕ) → Option (VecSlab × VecPool)
popped p [] = none
popped p (buf ∷ rest) =
    some (record { buf = buf; len = 0 }, record p { free = rest; out = p.out + 1 })

-- `backend::acquire`
abbrev pub acquire : VecPool → Option (VecSlab × VecPool)
acquire p = popped p p.free

-- `backend::set_len` of a release build
abbrev pub set_len : VecSlab → ℕ → VecSlab
set_len slab len = record slab { len = min len (length slab.buf) }

-- `VecSlab::as_ref`
abbrev pub slab_bytes : VecSlab → List ℕ
slab_bytes slab = take slab.len slab.buf

-- `VecSlab::drop`
abbrev pub drop_slab : VecPool → VecSlab → VecPool
drop_slab p slab = record p { free = slab.buf ∷ p.free; out = p.out - 1 }
