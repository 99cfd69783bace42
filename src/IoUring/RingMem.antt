-- ===== src/IoUring/RingMem.antt =====
-- `RingMem` of crates/transports/io-uring/src/ring_mem.rs: the ring of buffers that the kernel takes slots from. Its mapping is
-- a value: the entries by position, and the tail that the kernel reads.
use polaris_trade.Base.{ℕ, ◌+◌, ◌%◌, ◌^◌, ◌==◌, if◌then◌else◌}

-- `Entry`, without the field that holds the tail.
pub record Entry : Type 0 where
  pub addr : ℕ
  pub len : ℕ
  pub bid : ℕ

pub record RingMem : Type 0 where
  pub entries : ℕ → Entry
  pub published : ℕ
  pub mask : ℕ
  pub tail : ℕ

-- `RingMem::push`: `tail & mask` is the remainder by the size, a power of two.
unfoldable pub push_buffer : RingMem → ℕ → ℕ → ℕ → RingMem
push_buffer r addr len bid =
    let at = r.tail % (r.mask + 1) in
    record r {
      entries = λ i. if i == at then record { addr = addr; len = len; bid = bid } else r.entries i;
      tail = (r.tail + 1) % 2 ^ 16;
    }

-- `RingMem::publish`
abbrev pub publish : RingMem → RingMem
publish r = record r { published = r.tail }
