-- ===== src/IoUring/Tests.antt =====
-- The driver of crates/transports/io-uring over a ring with three completions.
use polaris_trade.Base.{
  ℕ, ◌+◌, ◌/◌, ◌%◌, ◌^◌, ◌≡◌, refl, Bool, true, false, Option, none, some, List, [], ◌∷◌, ◌++◌,
  arith, ◌==◌, if◌then◌else◌, drop, map, length,
}
use polaris_trade.Base.Weigh.{weigh, is}
use polaris_trade.Base.Result.{Result, ok, err}
use polaris_trade.Transport.Error.{TransportError, IoErrorKind, other_kind, io, would_block}
use polaris_trade.Transport.Batch.{with_capacity}
use polaris_trade.Transport.IndexPool.{new_pool}
use polaris_trade.Transport.Bypass.{frames}
use polaris_trade.IoUring.Completion.{
  plus, minus, data_in, truncated_in, empty, no_buffers, failed, classify,
}
use polaris_trade.IoUring.Driver.{Cqe, legacy, new_fleet, Uring, complete}
use polaris_trade.IoUring.Driver.Provide.{
  provide_fuel, provide_runs, slots_of, Provided, provide_runs_lem,
}
use polaris_trade.IoUring.Poll.{
  IoUring, UringDriver, enter, push_entry, hand_over, give_back, arm_from, submit_if_needed,
  refill_kernel, poll_uring,
}
use polaris_trade.IoUring.Poll.Pushed.{arms}

-- Bit 0 of the flags: a buffer, whose id is in the upper half. Bit 1: more to come.
abbrev more : ℕ → Bool
more flags = flags / 2 % 2 == 1

abbrev buffer_select : ℕ → Option ℕ
buffer_select flags = if flags % 2 == 1 then some (flags / 2 ^ 16) else none

classify_results :
    (classify more buffer_select (plus 8) 0x3_0001 2048 false ≡ data_in 3 8 true)
    × (classify more buffer_select (plus 4096) 0x3_0003 2048 true ≡ truncated_in 3 false)
    × (classify more buffer_select (plus 0) 0 2048 false ≡ empty true)
    × (classify more buffer_select (plus 8) 0 2048 false ≡ failed 5)
    × (classify more buffer_select (minus 105) 0 2048 false ≡ no_buffers)
unfolding classify
classify_results = (refl, refl, refl, refl, refl)

-- A kernel that refuses the run at 5, and remembers the slots of the others.
abbrev provide : List ℕ → ℕ → ℕ → Result TransportError (Unit {0}) × List ℕ
provide t first run =
    if first == 5 then (err (io "submit" would_block), t) else (ok tt, t ++ slots_of first run)

abbrev sorted : List ℕ
sorted = 1 ∷ 2 ∷ 3 ∷ 5 ∷ 9 ∷ []

provide_runs_results : (provide_runs provide (λ slots. slots) [] sorted).1 ≡ 1 ∷ 2 ∷ 3 ∷ []
unfolding provide_runs provide_fuel
provide_runs_results = refl

provide_runs_example :
    let (answer, t', left) = provide_runs provide (λ slots. slots) [] sorted in
    (weigh (is 3) t' + weigh (is 3) left ≡ weigh (is 3) [] + weigh (is 3) sorted)
    × Provided answer left
provide_runs_example =
    provide_runs_lem provide (λ t. t) (λ t first run e. ground arith)
      (λ t first run x e. ground arith) (λ slots. slots) [] sorted (is 3) (λ slots. refl)

abbrev kind_of : ℕ → IoErrorKind
kind_of errno = other_kind errno

abbrev cqes : List Cqe
cqes =
    record { user_data = 1; result = plus 8; flags = 0x1_0001 }
    ∷ record { user_data = 3; result = plus 0; flags = 0 }
    ∷ record { user_data = 1; result = plus 4096; flags = 0x2_0001 }
    ∷ []

abbrev uring : Uring
uring = record {
  path = legacy;
  slot_size = 2048;
  pool = new_pool 4 2048;
  fleet = record (new_fleet 2) { armed = 2 };
  back = [];
  stats = record { no_buffer = 0; nic_missed = 0; truncated = 0; syscalls = 0 };
}

complete_results :
    let (answer, d', out', taken) =
      complete more buffer_select kind_of uring (with_capacity 8) 0 0 cqes in
    (answer ≡ ok 1) × (d'.back ≡ 2 ∷ []) × (d'.fleet.armed ≡ 0) × (taken ≡ 3)
unfolding complete classify
complete_results = (refl, refl, refl, refl)

-- A ring whose state are the completions that are left.
abbrev kernel : IoUring (List Cqe)
kernel = record {
  push = λ r entry. (true, r);
  submit = λ r. (ok tt, r);
  sq_is_empty = λ r. false;
  cq_overflow = λ r. false;
  completions = λ r. r;
  advance = λ r n. drop n r;
}

abbrev driver : UringDriver (List Cqe)
driver = record { ring = cqes; uring = uring; buf_ring = none }

poll_uring_results :
    (poll_uring kernel more buffer_select kind_of (λ slots. slots) 0 driver (with_capacity 8)).0
    ≡ ok (frames 1)
unfolding poll_uring complete classify refill_kernel give_back hand_over provide_runs provide_fuel
    push_entry enter arm_from submit_if_needed
poll_uring_results = refl

-- A ring whose completions each bring a datagram in the buffer of its flags, and end a recv; `queued` counts the recvs
-- that were pushed.
record Traffic : Type 0 where
  queued : ℕ
  left : List ℕ

abbrev last_recv : ℕ → Cqe
last_recv n = record { user_data = 1; result = plus n; flags = n }

abbrev more_none : ℕ → Bool
more_none flags = false

abbrev select_flags : ℕ → Option ℕ
select_flags flags = some flags

abbrev traffic : IoUring Traffic
traffic = record {
  push = λ r entry. (true, record r { queued = r.queued + arms entry });
  submit = λ r. (ok tt, r);
  sq_is_empty = λ r. false;
  cq_overflow = λ r. false;
  completions = λ r. map last_recv r.left;
  advance = λ r n. record r { left = drop n r.left };
}

abbrev on_the_way : Traffic → ℕ
on_the_way r = r.queued + length r.left

abbrev receiving : UringDriver Traffic
receiving = record {
  ring = record { queued = 0; left = 3 ∷ 1 ∷ [] };
  uring = uring;
  buf_ring = none;
}
