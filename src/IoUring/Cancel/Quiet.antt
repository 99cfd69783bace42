-- ===== src/IoUring/Cancel/Quiet.antt =====
-- When the driver's memory is freed, no request of the kernel can write to it.
use polaris_trade.Base.{
  ℕ, zero, suc, ◌+◌, ◌-◌, ◌≤◌, ◌<◌, ◌≡◌, ◌⊎◌, ◌∙◌, refl, sym, ap, subst, not, Bool, true, false,
  Option, some, List, [], ◌∷◌, ◌==◌, if◌then◌else◌, length, arith, add64, Bool-cases, inl, inr,
}
use polaris_trade.Base.Result.{Result-cases}
use polaris_trade.Transport.Error.{IoErrorKind}
use polaris_trade.IoUring.Completion.{Completion}
use polaris_trade.IoUring.Driver.{
  Fleet, complete_fleet, ended, Cqe, RecvPath, Uring, completion_of, ud_recv,
}
use polaris_trade.IoUring.Requests.{Contracts, finals, ended-completion_of}
use polaris_trade.IoUring.Poll.{IoUring, UringDriver, async_cancel, is_retried, push_entry, enter}
use polaris_trade.IoUring.Cancel.{
  Timer, Memory, freed, leaked, cancel_wait, is_timeout, reap_fleet, reap, cancel_fuel,
  cancel_recvs, drop_driver,
}

counted_armed :
    (ours goes_on : Bool) (f : Fleet) (c : Completion)
    → (ours ≡ false) ⊎ (ended c ≡ not goes_on)
    → (if ours then complete_fleet f c else f).armed
      ≡ f.armed - (if ours then if goes_on then 0 else 1 else 0)
counted_armed false goes_on f c h = omega arith
counted_armed true goes_on f c (inl other) = absurd (cc other)
counted_armed true true f c (inr h) = rw h (omega arith)
counted_armed true false f c (inr h) = rw h refl

module _ {R : Type 0} (kernel : IoUring R) (timer : Timer R) (more : ℕ → Bool)
    (buffer_select : ℕ → Option ℕ) (kind_of : ℕ → IoErrorKind) where
  -- What the ring promises on `path`: `owed` counts the recvs that the kernel has, with those whose last
  -- completion was not read yet, and `time` is the clock. A cancellation arms no recv, to wait takes time.
  pub record Promises (path : RecvPath) (owed time : R → ℕ) : Type 0 where
    pub cancel_owed : (r : R) → owed (kernel.push r async_cancel).1 ≤ owed r
    pub cancel_time : (r : R) → time r ≤ time (kernel.push r async_cancel).1
    pub submit_owed : (r : R) → owed (kernel.submit r).1 ≤ owed r
    pub submit_time : (r : R) → time r ≤ time (kernel.submit r).1
    pub now_time : (r : R) → ((timer.now r).0 ≡ time r) × (time r ≤ time (timer.now r).1)
    pub now_owed : (r : R) → owed (timer.now r).1 ≤ owed r
    pub wait_owed : (r : R) (left : ℕ) → owed (timer.submit_with_args r left).1 ≤ owed r
    pub wait_time : (r : R) (left : ℕ) → time r < time (timer.submit_with_args r left).1
    pub contracts : (r : R) → Contracts more buffer_select path (kernel.completions r)
    pub read_owed :
        (r : R)
        → owed (kernel.advance r (length (kernel.completions r)))
            + finals more buffer_select (kernel.completions r)
          ≤ owed r
    pub read_time : (r : R) (n : ℕ) → time r ≤ time (kernel.advance r n)

  reap_fleet-armed :
      (u : Uring) (f : Fleet) (cqes : List Cqe)
      → Contracts more buffer_select u.path cqes
      → (reap_fleet kernel timer more buffer_select kind_of u f cqes).armed
        ≡ f.armed - finals more buffer_select cqes
  reap_fleet-armed u f [] contracts = omega arith
  reap_fleet-armed u f (cqe ∷ cqes) contracts =
      let c = completion_of more buffer_select kind_of u cqe in
      let ours = cqe.user_data == ud_recv in
      omega (
        arith,
        reap_fleet-armed u (if ours then complete_fleet f c else f) cqes contracts.1,
        counted_armed ours (more cqe.flags) f c (elim contracts.0 [
          | inl other ↦ inl other
          | inr kept ↦ inr (ended-completion_of more buffer_select kind_of u cqe kept)
        ]),
      )

  -- A cancellation that is pushed leaves all but the ring and a count of system calls.
  record Pushed (path : RecvPath) (owed time : R → ℕ) (d d' : UringDriver R) : Type 0 where
    same_fleet : d'.uring.fleet ≡ d.uring.fleet
    same_path : d'.uring.path ≡ d.uring.path
    fewer : owed d'.ring ≤ owed d.ring
    later : time d.ring ≤ time d'.ring

  enter-Pushed :
      (path : RecvPath) (owed time : R → ℕ) (d : UringDriver R)
      → Promises path owed time
      → Pushed path owed time d (enter kernel d).1
  unfolding enter
  enter-Pushed path owed time d p =
      let ring = (kernel.submit d.ring).1 in
      let syscalls = add64 d.uring.stats.syscalls 1 in
      let d' : UringDriver R = record d {
        ring = ring;
        uring = record d.uring { stats = record d.uring.stats { syscalls = syscalls } };
      } in
      let pushed : Pushed path owed time d d' = record {
        same_fleet = refl;
        same_path = refl;
        fewer = p.submit_owed d.ring;
        later = p.submit_time d.ring;
      } in
      elim (Result-cases (kernel.submit d.ring).0) [
        | inl (u, works) ↦ rw (works, enter) pushed
        | inr (x, fails) ↦ elim (Bool-cases (is_retried x.raw_os_error)) [
          | inl again ↦ rw (fails, again, enter) pushed
          | inr hard ↦ rw (fails, hard, enter) pushed
        ]
      ]

  push_entry-Pushed :
      (path : RecvPath) (owed time : R → ℕ) (d : UringDriver R)
      → Promises path owed time
      → Pushed path owed time d (push_entry kernel async_cancel d).1
  unfolding push_entry
  push_entry-Pushed path owed time d p =
      let first = kernel.push d.ring async_cancel in
      let d₁ : UringDriver R = record d { ring = first.1 } in
      let e = enter-Pushed path owed time d₁ p in
      let d₂ = (enter kernel d₁).1 in
      let d₃ : UringDriver R = record d₂ { ring = (kernel.push d₂.ring async_cancel).1 } in
      let at₁ : Pushed path owed time d d₁ = record {
        same_fleet = refl;
        same_path = refl;
        fewer = p.cancel_owed d.ring;
        later = p.cancel_time d.ring;
      } in
      let at₂ : Pushed path owed time d d₂ = record {
        same_fleet = e.same_fleet;
        same_path = e.same_path;
        fewer = omega (arith, e.fewer, at₁.fewer);
        later = omega (arith, e.later, at₁.later);
      } in
      let at₃ : Pushed path owed time d d₃ = record {
        same_fleet = e.same_fleet;
        same_path = e.same_path;
        fewer = omega (arith, at₂.fewer, p.cancel_owed d₂.ring);
        later = omega (arith, at₂.later, p.cancel_time d₂.ring);
      } in
      elim (Bool-cases first.0) [
        | inl fits ↦ rw (fits, push_entry) at₁
        | inr full ↦ elim (Result-cases (enter kernel d₁).0) [
          | inr (x, fails) ↦ rw (full, fails, push_entry) at₂
          | inl (u, entered) ↦ elim (Bool-cases (kernel.push d₂.ring async_cancel).0) [
            | inl again ↦ rw (full, entered, again, push_entry) at₃
            | inr still ↦ rw (full, entered, still, push_entry) at₃
          ]
        ]
      ]

  -- The teardown's answer from a state where the kernel owes no more completions than the fleet counts.
  abbrev pub Quiet : (owed : R → ℕ) → Bool × UringDriver R → Type 0
  Quiet owed (true, d) = owed d.ring ≡ 0
  Quiet owed (false, d) = Unit {0}

  cancel_fuel-Quiet :
      (path : RecvPath) (owed time : R → ℕ) (p : Promises path owed time) (fuel deadline : ℕ)
      (d : UringDriver R)
      → d.uring.path ≡ path
      → owed d.ring ≤ d.uring.fleet.armed
      → deadline - time d.ring < fuel
      → (answer : Bool) × (d' : UringDriver R) × (cancel_fuel kernel timer more buffer_select
            kind_of fuel deadline d
          ≡ some (answer, d'))
        × Quiet owed (answer, d')
  unfolding cancel_fuel
  cancel_fuel-Quiet path owed time p zero deadline d same counted enough = absurd (omega arith)
  cancel_fuel-Quiet path owed time p (suc fuel) deadline d same counted enough =
      let t = (timer.now d.ring).0 in
      let d₁ : UringDriver R = record d { ring = (timer.now d.ring).1 } in
      let (at, ticked) = p.now_time d.ring in
      let q = push_entry-Pushed path owed time d₁ p in
      let d₂ = (push_entry kernel async_cancel d₁).1 in
      let waited = timer.submit_with_args d₂.ring (deadline - t) in
      let d₃ : UringDriver R = record d₂ { ring = waited.1 } in
      let d₄ = reap kernel timer more buffer_select kind_of d₃ in
      elim (Bool-cases (d.uring.fleet.armed == 0)) [
        | inl none_left ↦ (true, d, rw (none_left, cancel_fuel) refl, ground (arith, none_left))
        | inr some_left ↦ elim (Bool-cases (deadline - t == 0)) [
          | inl late ↦ (false, d₁, rw (some_left, late, cancel_fuel) refl, tt)
          | inr in_time ↦ elim (Result-cases (push_entry kernel async_cancel d₁).0) [
            | inr (x, fails) ↦ (false, d₂, rw (some_left, in_time, fails, cancel_fuel) refl, tt)
            | inl (u, pushed) ↦
                let read = p.read_owed d₃.ring in
                let keeps =
                  subst (λ x. Contracts more buffer_select x (kernel.completions d₃.ring))
                    (sym (q.same_path ∙ same)) (p.contracts d₃.ring) in
                let armed =
                  reap_fleet-armed d₃.uring d₃.uring.fleet (kernel.completions d₃.ring) keeps in
                let owed_now : owed d₄.ring ≤ d₄.uring.fleet.armed = omega (
                  arith,
                  read,
                  armed,
                  p.now_owed d.ring,
                  q.fewer,
                  p.wait_owed d₂.ring (deadline - t),
                  ap (λ (f : Fleet). f.armed) q.same_fleet,
                ) in
                let early : 0 < deadline - t = ground (arith, in_time) in
                let sooner : deadline - time d₄.ring < fuel = omega (
                  arith,
                  early,
                  at,
                  ticked,
                  q.later,
                  p.wait_time d₂.ring (deadline - t),
                  p.read_time d₃.ring (length (kernel.completions d₃.ring)),
                ) in
                let (answer, d', run, quiet) =
                  cancel_fuel-Quiet path owed time p fuel deadline d₄ (q.same_path ∙ same) owed_now
                    sooner in
                elim (Result-cases waited.0) [
                  | inl (v, works) ↦
                      (answer, d', rw (some_left, in_time, pushed, works, cancel_fuel) run, quiet)
                  | inr (x, fails) ↦ elim (Bool-cases (is_timeout x.raw_os_error)) [
                    | inl again ↦ (
                      answer,
                      d',
                      rw (some_left, in_time, pushed, fails, again, cancel_fuel) run,
                      quiet,
                    )
                    | inr hard ↦ (
                      false,
                      d₃,
                      rw (some_left, in_time, pushed, fails, hard, cancel_fuel) refl,
                      tt,
                    )
                  ]
                ]
          ]
        ]
      ]

  -- On a ring that keeps its promises, from a driver whose fleet counts every recv that the kernel has, and with a
  -- round for each nanosecond of the wait, the teardown ends; and it leaks the memory, or frees it when the
  -- kernel has no recv left that could write to it.
  pub drop_driver_lem :
      (path : RecvPath) (owed time : R → ℕ) (p : Promises path owed time) (fuel : ℕ)
      (d : UringDriver R)
      → d.uring.path ≡ path
      → owed d.ring ≤ d.uring.fleet.armed
      → cancel_wait < fuel
      → (memory : Memory) × (d' : UringDriver R) × (drop_driver kernel timer more buffer_select
            kind_of fuel d
          ≡ some (memory, d'))
        × ((memory ≡ leaked) ⊎ ((memory ≡ freed) × (owed d'.ring ≡ 0)))
  unfolding drop_driver cancel_recvs
  drop_driver_lem path owed time p fuel d same counted enough =
      let (at, ticked) = p.now_time d.ring in
      let d₁ : UringDriver R = record d { ring = (timer.now d.ring).1 } in
      let (answer, d', run, quiet) =
        cancel_fuel-Quiet path owed time p fuel ((timer.now d.ring).0 + cancel_wait) d₁ same
          (omega (arith, counted, p.now_owed d.ring)) (omega (arith, at, ticked)) in
      (
        if answer then freed else leaked,
        d',
        rw (run, drop_driver) refl,
        quiet_or_leaked answer d' quiet,
      )
    where
      quiet_or_leaked :
          (answer : Bool) (d' : UringDriver R)
          → Quiet owed (answer, d')
          → let memory = if answer then freed else leaked in
            (memory ≡ leaked) ⊎ ((memory ≡ freed) × (owed d'.ring ≡ 0))
      quiet_or_leaked true d' quiet = inr (refl, quiet)
      quiet_or_leaked false d' quiet = inl refl
