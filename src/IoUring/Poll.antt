-- ===== src/IoUring/Poll.antt =====
-- `poll_frames` of crates/transports/io-uring/src/driver.rs: completions in, free slots and requests out.
pub mod Kept
pub mod Counted
pub mod Pushed
pub mod Owed
pub mod Armed
use polaris_trade.Base.{
  ℕ, zero, suc, ◌+◌, ◌-◌, ◌*◌, ◌^◌, ◌%◌, Bool, true, false, not, ◌&&◌, ◌||◌, Option, none, some,
  List, [], ◌∷◌, ◌++◌, ltb, ◌==◌, if◌then◌else◌, length, add64,
}
use polaris_trade.Base.Result.{Result, ok, err}
use polaris_trade.Transport.Error.{TransportError, IoError, IoErrorKind, would_block, io}
use polaris_trade.Transport.Batch.{FrameBatch}
use polaris_trade.Transport.IndexPool.{IndexFrame, drain_freed}
use polaris_trade.Transport.Bypass.{Polled, frames, idle, exhausted}
use polaris_trade.IoUring.RingMem.{RingMem, push_buffer, publish}
use polaris_trade.IoUring.Driver.{
  Fleet, wanted, refilled, Cqe, RecvPath, legacy, buf_ring, multishot, Uring, complete,
}
use polaris_trade.IoUring.Driver.Provide.{provide_runs}

-- A request to the kernel: a single recv, a multishot one, the cancellation of a recv, or buffers from
-- `first` on.
pub data Entry : Type 0 where
  recv recv_multi async_cancel : Entry
  provide_buffers : (first run : ℕ) → Entry

-- The ring, of the crate io_uring: its two queues, and `submit`.
pub record IoUring (R : Type 0) : Type 0 where
  pub push : R → Entry → Bool × R
  pub submit : R → Result IoError (Unit {0}) × R
  pub sq_is_empty : R → Bool
  pub cq_overflow : R → Bool
  pub completions : R → List Cqe
  pub advance : R → ℕ → R

module _ (R : Type 0) where
  pub record UringDriver : Type 0 where
    pub ring : R
    pub uring : Uring
    pub buf_ring : Option RingMem

-- EAGAIN, EBUSY and EINTR
abbrev pub is_retried : Option ℕ → Bool
is_retried none = false
is_retried (some errno) = errno == 11 || (errno == 16 || (errno == 4))

abbrev pub Answer : Type 0
Answer = Result TransportError (Unit {0})

-- `id16`: the cast to u16.
abbrev pub id16 : ℕ → ℕ
id16 v = v % 2 ^ 16

abbrev pub request_of : RecvPath → Entry
request_of multishot = recv_multi
request_of legacy = recv
request_of buf_ring = recv

module _ {R : Type 0} (kernel : IoUring R) where
  unfoldable pub enter : UringDriver R → Answer × UringDriver R
  enter d =
      let (answer, ring) = kernel.submit d.ring in
      let syscalls = add64 d.uring.stats.syscalls 1 in
      let d' : UringDriver R = record d {
        ring = ring;
        uring = record d.uring { stats = record d.uring.stats { syscalls = syscalls } };
      } in
      elim answer [
        | ok u ↦ (ok tt, d')
        | err e ↦
            if is_retried e.raw_os_error
            then (ok tt, d')
            else (err (io "io_uring_enter" e.kind), d')
      ]

  -- `push`: a full queue is submitted once, to make room.
  unfoldable pub push_entry : Entry → UringDriver R → Answer × UringDriver R
  push_entry entry d =
      let (pushed, ring) = kernel.push d.ring entry in
      let d₁ : UringDriver R = record d { ring = ring } in
      let (entered, d₂) = enter d₁ in
      let (again, ring₂) = kernel.push d₂.ring entry in
      let d₃ : UringDriver R = record d₂ { ring = ring₂ } in
      if pushed then (ok tt, d₁) else elim entered [
        | err e ↦ (err e, d₂)
        | ok u ↦
            if again then (ok tt, d₃) else (err (io "io_uring submission queue" would_block), d₃)
      ]

  -- The loop of `hand_over` over the slots, on the buffer ring.
  abbrev pub push_all : ℕ → ℕ → ℕ → RingMem → List ℕ → RingMem
  push_all base stride size ring [] = ring
  push_all base stride size ring (slot ∷ slots) =
      push_all base stride size (push_buffer ring (add64 base (slot * stride)) size (id16 slot))
        slots

  -- `hand_over`, where `sort` is `sort_unstable` and `base` the address of the region: also what stays
  -- of `back`.
  unfoldable pub hand_over :
      (List ℕ → List ℕ) → ℕ → UringDriver R → List ℕ → Answer × UringDriver R × List ℕ
  hand_over sort base d back = elim d.buf_ring [
    | some ring ↦
        let ring' = push_all base d.uring.pool.stride d.uring.slot_size ring back in
        (ok tt, record d { buf_ring = some (publish ring') }, [])
    | none ↦
        provide_runs (λ t first run. push_entry (provide_buffers (id16 first) (id16 run)) t) sort d
          back
  ]

  unfoldable pub give_back : (List ℕ → List ℕ) → ℕ → UringDriver R → Answer × UringDriver R
  give_back sort base d =
      let taken : UringDriver R = record d { uring = record d.uring { back = [] } } in
      let (handed, d', left) = hand_over sort base taken d.uring.back in
      let fleet = refilled d'.uring.fleet (length d.uring.back - length left) in
      if length d.uring.back == 0
      then (ok tt, d)
      else (handed, record d' { uring = record d'.uring { fleet = fleet; back = left } })

  -- The loop of `arm`.
  unfoldable pub arm_from : ℕ → UringDriver R → Answer × UringDriver R
  arm_from zero d = (ok tt, d)
  arm_from (suc more) d =
      let (pushed, d') = push_entry (request_of d.uring.path) d in
      let fleet : Fleet = record d'.uring.fleet { armed = d'.uring.fleet.armed + 1 } in
      let rest = arm_from more (record d' { uring = record d'.uring { fleet = fleet } }) in
      elim pushed [ err e ↦ (err e, d') | ok u ↦ rest ]

  abbrev pub arm : UringDriver R → Answer × UringDriver R
  arm d = arm_from (wanted d.uring.fleet) d

  unfoldable pub submit_if_needed : UringDriver R → Answer × UringDriver R
  submit_if_needed d =
      let entered = enter d in
      if kernel.sq_is_empty d.ring && not (kernel.cq_overflow d.ring) then (ok tt, d) else entered

  -- `give_back`, `arm` and `submit_if_needed`, each unless one before it fails.
  unfoldable pub refill_kernel : (List ℕ → List ℕ) → ℕ → UringDriver R → Answer × UringDriver R
  refill_kernel sort base d =
      let (given, d₁) = give_back sort base d in
      let (armed, d₂) = arm d₁ in
      let submitted = submit_if_needed d₂ in
      elim given [
        | err e ↦ (err e, d₁)
        | ok u ↦ elim armed [ err e ↦ (err e, d₂) | ok v ↦ submitted ]
      ]

  module _ (more : ℕ → Bool) (buffer_select : ℕ → Option ℕ) (kind_of : ℕ → IoErrorKind) where
    unfoldable pub poll_uring :
        (List ℕ → List ℕ)
        → ℕ
        → UringDriver R
        → FrameBatch IndexFrame
        → Result TransportError Polled × UringDriver R × FrameBatch IndexFrame
    poll_uring sort base d out =
        let (pool, back) = drain_freed d.uring.pool d.uring.back in
        let u : Uring = record d.uring { pool = pool; back = back } in
        let (completed, u', out', taken) =
          complete more buffer_select kind_of u out 0 0 (kernel.completions d.ring) in
        let (refill, d') =
          refill_kernel sort base (record d { ring = kernel.advance d.ring taken; uring = u' }) in
        elim completed [
          | err e ↦ (err e, d', out')
          | ok pushed ↦ elim refill [
            | err e ↦ (err e, d', out')
            | ok v ↦ (
              ok (
                  if ltb 0 pushed
                  then frames pushed
                  else if d'.uring.fleet.starved
                  then exhausted
                  else idle),
              d',
              out',
            )
          ]
        ]
