-- ===== src/Afxdp/Open/Mapped.antt =====
-- Where the words and the entries of a ring lie in its mapping.
use polaris_trade.Base.{ℕ, ◌+◌, ◌*◌, ◌^◌, ◌%◌, ◌≤◌, ◌<◌, ◌≡◌, arith}
use polaris_trade.Base.Result.{ok}
use polaris_trade.Afxdp.Open.{RingOffset, mapping_len}

-- The words and the entries of a ring in a mapping of `len` bytes.
pub record IsMapped (off : RingOffset) (count size align len : ℕ) : Type 0 where
  pub producer_inside : off.producer + 4 ≤ off.desc
  pub consumer_inside : off.consumer + 4 ≤ off.desc
  pub flags_inside : off.flags + 4 ≤ off.desc
  pub entries_inside : off.desc + count * size ≤ len
  pub fits : len < 2 ^ 64
  pub producer_aligned : off.producer % 4 ≡ 0
  pub consumer_aligned : off.consumer % 4 ≡ 0
  pub flags_aligned : off.flags % 4 ≡ 0
  pub desc_aligned : off.desc % align ≡ 0

-- Whatever offsets the kernel names: if they are accepted, each word of the ring and each of its entries lies inside the
-- mapping, the words before the entries and all of them aligned, and the length of the mapping is a u64.
pub mapping_len-IsMapped :
    (off : RingOffset) (count size align len : ℕ)
    → mapping_len off count size align ≡ ok len
    → IsMapped off count size align len
unfolding mapping_len
mapping_len-IsMapped off count size align len e = ground arith
