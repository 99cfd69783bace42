-- ===== src/IoUring/Driver.antt =====
-- `UringDriver` of crates/transports/io-uring/src/driver.rs: the fleet of armed requests, the completions and the slots that
-- go back. The ring of the kernel is a parameter.
pub mod Provide
pub mod Slots
use polaris_trade.Base.{
  ℕ, zero, suc, ◌+◌, ◌-◌, ◌*◌, ◌^◌, Bool, true, false, not, ◌&&◌, ◌||◌, Option, none, some, List,
  [], ◌∷◌, ◌++◌, ltb, ◌==◌, if◌then◌else◌, length, drop, add64,
}
use polaris_trade.Base.Result.{Result, ok, err}
use polaris_trade.Transport.Error.{
  TransportError, IoError, IoErrorKind, would_block, other_kind, io,
}
use polaris_trade.Transport.Batch.{FrameBatch, spare, push}
use polaris_trade.Transport.IndexPool.{IndexFrame, IndexPool, frame, drain_freed}
use polaris_trade.Transport.Bypass.{Polled, frames, idle, exhausted, DriverStats}
use polaris_trade.IoUring.Completion.{
  Res, plus, minus, Completion, data_in, truncated_in, empty, no_buffers, failed, classify,
}

-- `Fleet`
pub record Fleet : Type 0 where
  pub depth : ℕ
  pub armed : ℕ
  pub starved : Bool

abbrev pub new_fleet : ℕ → Fleet
new_fleet depth = record { depth = depth; armed = 0; starved = false }

abbrev pub wanted : Fleet → ℕ
wanted f = if f.starved then 0 else f.depth - f.armed

-- Whether the request ended with this completion.
abbrev pub ended : Completion → Bool
ended (data_in slot len rearm) = rearm
ended (truncated_in slot rearm) = rearm
ended (empty rearm) = rearm
ended no_buffers = true
ended (failed errno) = true

abbrev pub starves : Completion → Bool → Bool
starves no_buffers starved = true
starves (data_in slot len rearm) starved = starved
starves (truncated_in slot rearm) starved = starved
starves (empty rearm) starved = starved
starves (failed errno) starved = starved

-- `Fleet::complete`
abbrev pub complete_fleet : Fleet → Completion → Fleet
complete_fleet f c = record f {
  starved = starves c f.starved;
  armed = if ended c then f.armed - 1 else f.armed;
}

abbrev pub refilled : Fleet → ℕ → Fleet
refilled f slots = if ltb 0 slots then record f { starved = false } else f

-- A completion as the driver reads it.
pub record Cqe : Type 0 where
  pub user_data : ℕ
  pub result : Res
  pub flags : ℕ

abbrev pub ud_recv : ℕ
ud_recv = 1

abbrev pub ud_provide : ℕ
ud_provide = 2

pub data RecvPath : Type 0 where
  legacy buf_ring multishot : RecvPath

abbrev pub is_multishot : RecvPath → Bool
is_multishot legacy = false
is_multishot buf_ring = false
is_multishot multishot = true

-- What a round over the completions works on.
pub record Uring : Type 0 where
  pub path : RecvPath
  pub slot_size : ℕ
  pub pool : IndexPool
  pub fleet : Fleet
  pub back : List ℕ
  pub stats : DriverStats

-- The kind of the `io::Error` that an errno makes is the standard library's.
module _ (more : ℕ → Bool) (buffer_select : ℕ → Option ℕ) (kind_of : ℕ → IoErrorKind) where
  abbrev pub completion_of : Uring → Cqe → Completion
  completion_of d cqe =
      classify more buffer_select cqe.result cqe.flags d.slot_size (is_multishot d.path)

  -- What one completion of a recv does: the error that ends the loop, or the driver, the batch and the
  -- count of the pushed frames.
  abbrev pub settle_recv :
      Uring
      → FrameBatch IndexFrame
      → ℕ
      → Completion
      → Option TransportError × Uring × FrameBatch IndexFrame × ℕ
  settle_recv d out pushed (data_in slot len rearm) =
      let (f, pool) = frame d.pool slot 0 len in
      (none, record d { pool = pool }, push out f, pushed + 1)
  settle_recv d out pushed (truncated_in slot rearm) = (
    none,
    record d {
      stats = record d.stats { truncated = add64 d.stats.truncated 1 };
      back = d.back ++ (slot ∷ []);
    },
    out,
    pushed,
  )
  settle_recv d out pushed (empty rearm) = (none, d, out, pushed)
  settle_recv d out pushed no_buffers = (
    none,
    record d { stats = record d.stats { no_buffer = add64 d.stats.no_buffer 1 } },
    out,
    pushed,
  )
  settle_recv d out pushed (failed errno) =
      (some (io "io_uring recv" (kind_of errno)), d, out, pushed)

  abbrev pub is_failed_provide : Cqe → Option ℕ
  is_failed_provide cqe =
      if cqe.user_data == ud_provide
      then elim cqe.result [ plus n ↦ none | minus errno ↦ some errno ]
      else none

  -- `complete`, over the completions that are there: also how many of them it has taken.
  unfoldable pub complete :
      Uring
      → FrameBatch IndexFrame
      → ℕ
      → ℕ
      → List Cqe
      → Result TransportError ℕ × Uring × FrameBatch IndexFrame × ℕ
  complete d out pushed taken [] = (ok pushed, d, out, taken)
  complete d out pushed taken (cqe ∷ cqes) =
      let c = completion_of d cqe in
      let (failure, d', out', pushed') =
        settle_recv (record d { fleet = complete_fleet d.fleet c }) out pushed c in
      let after = complete d' out' pushed' (taken + 1) cqes in
      let skipped = complete d out pushed (taken + 1) cqes in
      if spare out == 0
      then (ok pushed, d, out, taken)
      else if cqe.user_data == ud_recv
      then elim failure [ some e ↦ (err e, d', out', taken + 1) | none ↦ after ]
      else elim (is_failed_provide cqe) [
        | some errno ↦ (err (io "io_uring provide buffers" (kind_of errno)), d, out, taken + 1)
        | none ↦ skipped
      ]
