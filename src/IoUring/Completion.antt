-- ===== src/IoUring/Completion.antt =====
-- crates/transports/io-uring/src/completion.rs. What the flags of a completion say is read by the crate io_uring: its two
-- readers are parameters. `Res` is the result of a request, an i32.
use polaris_trade.Base.{ℕ, Bool, not, ◌&&◌, Option, none, some, ltb, ◌==◌, if◌then◌else◌}

-- `minus e` is the errno `e`, negated, which is positive.
pub data Res : Type 0 where
  plus minus : ℕ → Res

pub data Completion : Type 0 where
  data_in : (slot len : ℕ) (rearm : Bool) → Completion
  truncated_in : (slot : ℕ) (rearm : Bool) → Completion
  empty : (rearm : Bool) → Completion
  no_buffers : Completion
  failed : ℕ → Completion

-- `classify`, over `cqueue::more` and `cqueue::buffer_select`; ENOBUFS is 105 and EIO is 5.
module _ (more : ℕ → Bool) (buffer_select : ℕ → Option ℕ) where
  unfoldable pub classify : Res → ℕ → ℕ → Bool → Completion
  classify (minus e) flags slot_size multishot = if e == 105 then no_buffers else failed e
  classify (plus res) flags slot_size multishot =
      let rearm = not (multishot && more flags) in
      elim (buffer_select flags) [
        | none ↦ if res == 0 then empty rearm else failed 5
        | some slot ↦ if ltb slot_size res then truncated_in slot rearm else data_in slot res rearm
      ]
