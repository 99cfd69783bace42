-- ===== src/IoUring/Cancel.antt =====
-- The teardown in crates/transports/io-uring/src/driver.rs: `cancel_recvs`, and what `drop` does by its answer.
pub mod Quiet
use polaris_trade.Base.{
  ℕ, zero, suc, ◌+◌, ◌-◌, Bool, true, false, ◌||◌, Option, none, some, List, [], ◌∷◌, ◌==◌,
  if◌then◌else◌, length,
}
use polaris_trade.Base.Result.{Result, ok, err}
use polaris_trade.Transport.Error.{IoError, IoErrorKind}
use polaris_trade.IoUring.Driver.{Fleet, complete_fleet, Cqe, Uring, completion_of, ud_recv}
use polaris_trade.IoUring.Poll.{IoUring, UringDriver, async_cancel, push_entry}

-- One second, in nanoseconds.
abbrev pub cancel_wait : ℕ
cancel_wait = 1_000_000_000

-- `submit_with_args` for one completion with a timeout, and `Instant::now`.
pub record Timer (R : Type 0) : Type 0 where
  pub now : R → ℕ × R
  pub submit_with_args : R → ℕ → Result IoError (Unit {0}) × R

-- What becomes of the memory that the kernel writes to.
pub data Memory : Type 0 where
  freed leaked : Memory

-- ETIME and EINTR
abbrev pub is_timeout : Option ℕ → Bool
is_timeout none = false
is_timeout (some errno) = errno == 62 || (errno == 4)

module _ {R : Type 0} (kernel : IoUring R) (timer : Timer R) (more : ℕ → Bool)
    (buffer_select : ℕ → Option ℕ) (kind_of : ℕ → IoErrorKind) where
  -- The loop over the completions: those of recvs count.
  abbrev pub reap_fleet : Uring → Fleet → List Cqe → Fleet
  reap_fleet u f [] = f
  reap_fleet u f (cqe ∷ cqes) =
      reap_fleet u
        (if cqe.user_data == ud_recv
          then complete_fleet f (completion_of more buffer_select kind_of u cqe)
          else f)
        cqes

  abbrev pub reap : UringDriver R → UringDriver R
  reap d = record d {
    ring = kernel.advance d.ring (length (kernel.completions d.ring));
    uring = record d.uring { fleet = reap_fleet d.uring d.uring.fleet (kernel.completions d.ring) };
  }

  -- The loop of `cancel_recvs`; `none` when the fuel is spent.
  unfoldable pub cancel_fuel : ℕ → ℕ → UringDriver R → Option (Bool × UringDriver R)
  cancel_fuel zero deadline d = none
  cancel_fuel (suc fuel) deadline d =
      let (t, ring) = timer.now d.ring in
      let d₁ : UringDriver R = record d { ring = ring } in
      let (pushed, d₂) = push_entry kernel async_cancel d₁ in
      let (waited, ring₃) = timer.submit_with_args d₂.ring (deadline - t) in
      let d₃ : UringDriver R = record d₂ { ring = ring₃ } in
      let rest = cancel_fuel fuel deadline (reap d₃) in
      if d.uring.fleet.armed == 0
      then some (true, d)
      else if deadline - t == 0
      then some (false, d₁)
      else elim pushed [
        | err e ↦ some (false, d₂)
        | ok u ↦ elim waited [
          | ok v ↦ rest
          | err e ↦ if is_timeout e.raw_os_error then rest else some (false, d₃)
        ]
      ]

  unfoldable pub cancel_recvs : ℕ → UringDriver R → Option (Bool × UringDriver R)
  cancel_recvs fuel d =
      let (t, ring) = timer.now d.ring in
      cancel_fuel fuel (t + cancel_wait) (record d { ring = ring })

  -- `drop`
  unfoldable pub drop_driver : ℕ → UringDriver R → Option (Memory × UringDriver R)
  drop_driver fuel d = elim (cancel_recvs fuel d) [
    | none ↦ none
    | some (quiet, d') ↦ some (if quiet then freed else leaked, d')
  ]
