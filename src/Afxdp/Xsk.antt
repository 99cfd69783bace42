-- ===== src/Afxdp/Xsk.antt =====
-- `XskDriver` of crates/transports/afxdp/src/driver.rs. Its socket is a parameter: what a wakeup answers, and what the
-- kernel's statistics are when they can be read.
pub mod Receive
use polaris_trade.Base.{
  ℕ, zero, suc, ◌+◌, Bool, true, false, ◌||◌, Option, none, some, List, [], ◌∷◌, ltb, ◌==◌,
  if◌then◌else◌, add64,
}
use polaris_trade.Base.Result.{Result, ok, err}
use polaris_trade.Transport.Error.{
  TransportError, IoError, IoErrorKind, would_block, interrupted, other_kind, io,
}
use polaris_trade.Transport.Batch.{FrameBatch, PoolStats}
use polaris_trade.Transport.IndexPool.{IndexFrame, IndexPool, stats}
use polaris_trade.Transport.Bypass.{Polled, frames, idle, DriverStats, Driver}
use polaris_trade.Afxdp.Ring.{needs_wakeup}
use polaris_trade.Afxdp.Ring.Contents.{pending}
use polaris_trade.Afxdp.Driver.{Rings, Poll, refill, poll_frames}

pub record KernelDrops : Type 0 where
  pub rx_dropped : ℕ
  pub rx_ring_full : ℕ

-- The socket: `recv_with_flags(&mut [], MSG_DONTWAIT)`, and `getsockopt(XDP_STATISTICS)`.
pub record XskSocket (S : Type 0) : Type 0 where
  pub kick : S → Result IoError (Unit {0}) × S
  pub statistics : S → Option KernelDrops

module _ (S : Type 0) where
  pub record XskDriver : Type 0 where
    pub rings : Rings
    pub socket : S
    pub pool : IndexPool
    pub syscalls : ℕ
    pub kernel : KernelDrops

-- EBUSY and ENOBUFS
abbrev pub is_busy : Option ℕ → Bool
is_busy none = false
is_busy (some errno) = errno == 16 || (errno == 105)

abbrev pub is_transient : IoErrorKind → Bool
is_transient would_block = true
is_transient interrupted = true
is_transient (other_kind n) = false

module _ {S : Type 0} (sock : XskSocket S) where
  unfoldable pub wake : XskDriver S → Result TransportError (Unit {0}) × XskDriver S
  wake d =
      let (answer, socket) = sock.kick d.socket in
      let d' : XskDriver S = record d { socket = socket; syscalls = add64 d.syscalls 1 } in
      elim answer [
        | ok u ↦ (ok tt, d')
        | err e ↦
            if is_transient e.kind || is_busy e.raw_os_error
            then (ok tt, d')
            else (err (io "recvfrom(AF_XDP wakeup)" e.kind), d')
      ]

  -- What `poll_frames` answers behind its loop.
  unfoldable pub answer_polled : XskDriver S → ℕ → Result TransportError Polled × XskDriver S
  answer_polled d pushed =
      let (woken, d') = wake d in
      if ltb 0 pushed
      then (ok (frames pushed), d)
      else if needs_wakeup d.rings.fill
      then elim woken [ ok u ↦ (ok idle, d') | err e ↦ (err e, d') ]
      else (ok idle, d)

  -- `poll_frames`. The loop has as many rounds as there are descriptors, and one more.
  unfoldable pub poll_xsk :
      XskDriver S
      → FrameBatch IndexFrame
      → Result TransportError Polled × XskDriver S × FrameBatch IndexFrame
  poll_xsk d out =
      let (rings, pool) = refill d.rings d.pool in
      elim (poll_frames (suc (pending rings.rx.ring)) rings pool out) [
        | none ↦ (ok idle, d, out)
        | some p ↦
            let (answer, d') =
              answer_polled (record d { rings = p.rings; pool = p.pool }) p.pushed in
            (answer, d', p.out)
      ]

  -- `kernel_drops`: the last reading stays when it cannot be read again.
  abbrev pub kernel_drops : XskDriver S → KernelDrops × XskDriver S
  kernel_drops d = elim (sock.statistics d.socket) [
    | none ↦ (d.kernel, d)
    | some drops ↦ (drops, record d { kernel = drops })
  ]

  abbrev pub xsk_stats : XskDriver S → DriverStats × XskDriver S
  xsk_stats d =
      let (kernel, d') = kernel_drops d in
      (
        record {
          no_buffer = kernel.rx_dropped;
          nic_missed = kernel.rx_ring_full;
          truncated = d.rings.truncated;
          syscalls = d.syscalls;
        },
        d',
      )

  abbrev pub xsk_pool_stats : XskDriver S → PoolStats
  xsk_pool_stats d = stats d.pool

  -- `impl Driver for XskDriver`, where `bytes` reads the region.
  abbrev pub xsk_driver : (XskDriver S → IndexFrame → List ℕ) → Driver (XskDriver S) IndexFrame
  xsk_driver bytes = record {
    poll_frames = poll_xsk;
    stats = xsk_stats;
    pool_stats = xsk_pool_stats;
    as_ref = bytes;
  }
