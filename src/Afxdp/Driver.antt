-- ===== src/Afxdp/Driver.antt =====
-- crates/transports/afxdp/src/driver.rs: the receive side of an AF_XDP socket, which moves slots of the
-- pool between the rings, the frames that callers hold and its own lists.
pub mod Collect
pub mod Refill
pub mod Outcome
pub mod Ends
use polaris_trade.Base.{
  ℕ, zero, suc, ◌+◌, ◌-◌, ◌*◌, ◌/◌, ◌%◌, ◌^◌, min, Bool, true, false, ◌&&◌, ◌||◌, Option, none,
  some, List, [], ◌∷◌, ◌++◌, map, ltb, leb, ◌==◌, if◌then◌else◌, length, take, add64,
}
use polaris_trade.Base.Weigh.{upto}
use mathlib.Core.List.{reverse}
use polaris_trade.Base.Result.{Result, ok, err}
use polaris_trade.Transport.Error.{TransportError}
use polaris_trade.Transport.Batch.{FrameBatch, PoolStats, spare, push}
use polaris_trade.Transport.IndexPool.{IndexFrame, IndexPool, frame, drain_freed}
use polaris_trade.Afxdp.Ring.{Producer, Consumer, produce, consume, needs_wakeup}

-- `libc::xdp_desc`, but for its options, which nothing reads.
pub record XdpDesc : Type 0 where
  pub addr : ℕ
  pub len : ℕ

pub data Located : Type 0 where
  in_frame : (slot offset len : ℕ) → Located
  truncated_in : (slot : ℕ) → Located
  foreign : Located

-- `locate`, with the conversions to u32 and the sum that stays below 2 ^ 32.
unfoldable pub locate : ℕ → ℕ → ℕ → ℕ → Located
locate addr len frame_size frames =
    let slot = addr / frame_size in
    let offset = addr % frame_size in
    if leb (2 ^ 32) slot || leb (2 ^ 32) offset
    then foreign
    else if leb frames slot
    then foreign
    else if ltb (offset + len) (2 ^ 32) && leb (offset + len) frame_size
    then in_frame slot offset len
    else truncated_in slot

pub record Rings : Type 0 where
  pub fill : Producer ℕ
  pub rx : Consumer XdpDesc
  pub free : List ℕ
  pub freed : List ℕ
  pub frames : ℕ
  pub frame_size : ℕ
  pub truncated : ℕ

-- The slot that an address lies in.
abbrev pub slot_at : Rings → ℕ → ℕ
slot_at r addr = addr / r.frame_size

-- `Rings::new`
abbrev pub new_rings : Producer ℕ → Consumer XdpDesc → ℕ → ℕ → Rings
new_rings fill rx frames frame_size = record {
  fill = fill;
  rx = rx;
  free = upto frames;
  freed = [];
  frames = frames;
  frame_size = frame_size;
  truncated = 0;
}

-- `Rings::refill`: `produce` pops the free list from its end, as often as it writes. A slot is below
-- 2 ^ 32, and so is the size of a frame: their product does not overflow.
unfoldable pub refill : Rings → IndexPool → Rings × IndexPool
refill r pool =
    let (pool', drained) = drain_freed pool r.freed in
    let free = r.free ++ drained in
    let (fill, written) = produce r.fill (map (λ slot. slot * r.frame_size) (reverse free)) in
    (record r { fill = fill; free = take (length free - written) free; freed = [] }, pool')

-- What `Rings::poll_frames` works on.
pub record Poll : Type 0 where
  pub rings : Rings
  pub pool : IndexPool
  pub out : FrameBatch IndexFrame
  pub pushed : ℕ

-- What the loop does for one descriptor.
abbrev pub collect_at : Poll → Located → Poll
collect_at s (in_frame slot offset len) =
    let (f, pool) = frame s.pool slot offset len in
    record s { pool = pool; out = push s.out f; pushed = s.pushed + 1 }
collect_at s (truncated_in slot) = record s {
  rings = record s.rings {
    truncated = add64 s.rings.truncated 1;
    free = s.rings.free ++ (slot ∷ []);
  };
}
collect_at s foreign = record s { rings = record s.rings { truncated = add64 s.rings.truncated 1 } }

abbrev pub collect : Poll → XdpDesc → Poll
collect s desc = collect_at s (locate desc.addr desc.len s.rings.frame_size s.rings.frames)

abbrev pub collect_all : Poll → List XdpDesc → Poll
collect_all s [] = s
collect_all s (desc ∷ descs) = collect_all (collect s desc) descs

-- One round of the loop, and how many descriptors it took.
unfoldable pub poll_round : Poll → Poll × ℕ
poll_round s =
    let (rx, passed) = consume s.rings.rx (min (spare s.out) (2 ^ 32 - 1)) in
    (collect_all (record s { rings = record s.rings { rx = rx } }) passed, length passed)

unfoldable pub poll_fuel : ℕ → Poll → Option Poll
poll_fuel zero s = none
poll_fuel (suc fuel) s =
    let (s', taken) = poll_round s in
    let rest = poll_fuel fuel s' in
    if taken == 0 || ltb 0 s'.pushed || (spare s'.out == 0) then some s' else rest

-- `Rings::poll_frames`
abbrev pub poll_frames : ℕ → Rings → IndexPool → FrameBatch IndexFrame → Option Poll
poll_frames fuel r pool out =
    poll_fuel fuel (record { rings = r; pool = pool; out = out; pushed = 0 })
