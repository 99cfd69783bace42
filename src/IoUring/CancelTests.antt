-- ===== src/IoUring/CancelTests.antt =====
-- The teardown over a ring that ends one recv each time it is waited for.
use polaris_trade.Base.{
  ℕ, zero, suc, ◌+◌, ◌-◌, ◌≤◌, ◌≡◌, ◌⊎◌, refl, true, false, Bool, Option, inr, none, some, [],
  arith, replicate, min, length-replicate,
}
use polaris_trade.Base.Result.{ok}
use polaris_trade.Transport.IndexPool.{new_pool}
use polaris_trade.Transport.Error.{other_kind}
use polaris_trade.IoUring.Completion.{plus}
use polaris_trade.IoUring.Driver.{Cqe, new_fleet, legacy}
use polaris_trade.IoUring.Poll.{IoUring, UringDriver}
use polaris_trade.IoUring.Cancel.{Timer, Memory, freed, leaked, drop_driver}
use polaris_trade.IoUring.Cancel.Quiet.{Promises, drop_driver_lem}
use polaris_trade.IoUring.Requests.{Contract, Contracts, finals}

-- `flying` recvs, and `done` whose completion was not read.
record Ending : Type 0 where
  flying : ℕ
  done : ℕ
  time : ℕ

abbrev last_cqe : Cqe
last_cqe = record { user_data = 1; result = plus 0; flags = 0 }

abbrev ring : IoUring Ending
ring = record {
  push = λ r entry. (true, r);
  submit = λ r. (ok tt, r);
  sq_is_empty = λ r. true;
  cq_overflow = λ r. true;
  completions = λ r. replicate r.done last_cqe;
  advance = λ r n. record r { done = r.done - n };
}

abbrev timer : Timer Ending
timer = record {
  now = λ r. (r.time, r);
  submit_with_args = λ r left.
      (ok tt, record { flying = r.flying - 1; done = r.done + min r.flying 1; time = r.time + 1 });
}

abbrev more : ℕ → Bool
more flags = false

abbrev buffer_select : ℕ → Option ℕ
buffer_select flags = none

few_finals : (n : ℕ) → finals more buffer_select (replicate n last_cqe) ≤ n
few_finals zero = omega arith
few_finals (suc n) = ground (arith, few_finals n)

last_cqe-Contract : Contract more buffer_select legacy last_cqe
last_cqe-Contract = record {
  failed_last = λ errno e. refl;
  single_last = λ e. refl;
  named = λ n e w. cc e;
}

last_cqes-Contracts : (n : ℕ) → Contracts more buffer_select legacy (replicate n last_cqe)
last_cqes-Contracts zero = tt
last_cqes-Contracts (suc n) = (inr last_cqe-Contract, last_cqes-Contracts n)

promised :
    Promises ring timer more buffer_select other_kind legacy (λ r. r.flying + r.done) (λ r. r.time)
promised = record {
  cancel_owed = λ r. omega arith;
  cancel_time = λ r. omega arith;
  submit_owed = λ r. omega arith;
  submit_time = λ r. omega arith;
  now_time = λ r. (refl, omega arith);
  now_owed = λ r. omega arith;
  wait_owed = λ r left. omega arith;
  wait_time = λ r left. omega arith;
  contracts = λ r. last_cqes-Contracts r.done;
  read_owed = λ r. omega (arith, few_finals r.done, length-replicate r.done last_cqe);
  read_time = λ r n. omega arith;
}

abbrev driver : UringDriver Ending
driver = record {
  ring = record { flying = 2; done = 0; time = 7 };
  uring = record {
    path = legacy;
    slot_size = 2048;
    pool = new_pool 4 2048;
    fleet = record (new_fleet 2) { armed = 2 };
    back = [];
    stats = record { no_buffer = 0; nic_missed = 0; truncated = 0; syscalls = 0 };
  };
  buf_ring = none;
}

drop_driver_example :
    (memory : Memory) × (d' : UringDriver Ending) × (drop_driver ring timer more buffer_select
        other_kind 1_000_000_001 driver
      ≡ some (memory, d'))
    × ((memory ≡ leaked) ⊎ ((memory ≡ freed) × (d'.ring.flying + d'.ring.done ≡ 0)))
drop_driver_example =
    drop_driver_lem ring timer more buffer_select other_kind legacy (λ r. r.flying + r.done)
      (λ r. r.time) promised 1_000_000_001 driver refl (omega arith) (omega arith)
