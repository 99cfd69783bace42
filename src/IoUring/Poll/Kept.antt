-- ===== src/IoUring/Poll/Kept.antt =====
-- What leaves the fleet as it is, or only ends requests.
use polaris_trade.Base.{
  ℕ, zero, suc, ◌+◌, ◌≤◌, ◌≡◌, ◌∙◌, refl, ap, Bool, Option, List, [], ◌∷◌, arith, ◌==◌, length,
  drop, Bool-cases, Option-cases, inl, inr,
}
use polaris_trade.Base.Result.{Result, Result-cases}
use polaris_trade.Transport.Error.{TransportError, IoErrorKind}
use polaris_trade.Transport.Batch.{FrameBatch, spare}
use polaris_trade.Transport.IndexPool.{IndexFrame}
use polaris_trade.IoUring.Completion.{Completion, data_in, truncated_in, empty, no_buffers, failed}
use polaris_trade.IoUring.Driver.{
  Fleet, Cqe, ud_recv, Uring, completion_of, settle_recv, is_failed_provide, complete_fleet,
  complete,
}
use polaris_trade.IoUring.Driver.Provide.{run_length, provide_fuel, provide_runs}
use polaris_trade.IoUring.Poll.{
  Entry, provide_buffers, IoUring, UringDriver, is_retried, id16, enter, push_entry, hand_over,
}

module _ (more : ℕ → Bool) (buffer_select : ℕ → Option ℕ) (kind_of : ℕ → IoErrorKind) where
  pub fleet-settle_recv :
      (d : Uring) (out : FrameBatch IndexFrame) (pushed : ℕ) (c : Completion)
      → (settle_recv more buffer_select kind_of d out pushed c).1.fleet ≡ d.fleet
  fleet-settle_recv d out pushed (data_in slot len rearm) = refl
  fleet-settle_recv d out pushed (truncated_in slot rearm) = refl
  fleet-settle_recv d out pushed (empty rearm) = refl
  fleet-settle_recv d out pushed no_buffers = refl
  fleet-settle_recv d out pushed (failed errno) = refl

  -- Completions only end requests.
  pub complete-armed :
      (d : Uring) (out : FrameBatch IndexFrame) (pushed taken : ℕ) (cqes : List Cqe)
      → let (answer, d', out', taken') =
          complete more buffer_select kind_of d out pushed taken cqes in
        (d'.fleet.armed ≤ d.fleet.armed) × (d'.fleet.depth ≡ d.fleet.depth)
  unfolding complete
  complete-armed d out pushed taken [] = (omega arith, refl)
  complete-armed d out pushed taken (cqe ∷ cqes) = elim (Bool-cases (spare out == 0)) [
    | inl full ↦ rw (full, complete) (omega arith, refl)
    | inr room ↦ elim (Bool-cases (cqe.user_data == ud_recv)) [
      | inl recv ↦
          let c = completion_of more buffer_select kind_of d cqe in
          let d₁ : Uring = record d { fleet = complete_fleet d.fleet c } in
          let step = settle_recv more buffer_select kind_of d₁ out pushed c in
          let same = fleet-settle_recv d₁ out pushed c in
          let fewer : step.1.fleet.armed ≤ d.fleet.armed =
            ground (arith, ap (λ (f : Fleet). f.armed) same) in
          let depth : step.1.fleet.depth ≡ d.fleet.depth = ap (λ (f : Fleet). f.depth) same in
          elim (Option-cases step.0) [
            | inr (e, fails) ↦ rw (room, recv, fails, complete) (fewer, depth)
            | inl works ↦
                let ih = complete-armed step.1 step.2 step.3 (taken + 1) cqes in
                rw (room, recv, works, complete) (omega (arith, fewer, ih.0), ih.1 ∙ depth)
          ]
      | inr other ↦ elim (Option-cases (is_failed_provide more buffer_select kind_of cqe)) [
        | inr (errno, fails) ↦ rw (room, other, fails, complete) (omega arith, refl)
        | inl skips ↦
            rw (room, other, skips, complete) (complete-armed d out pushed (taken + 1) cqes)
      ]
    ]
  ]

-- What hands runs over keeps whatever each hand-over keeps.
pub provide_fuel-keeps :
    {T F : Type 0} (provide : T → ℕ → ℕ → Result TransportError (Unit {0}) × T) (view : T → F)
    → ((t : T) (first run : ℕ) → view (provide t first run).1 ≡ view t)
    → (fuel : ℕ) (t : T) (slots : List ℕ) → view (provide_fuel provide fuel t slots).1 ≡ view t
unfolding provide_fuel
provide_fuel-keeps provide view keeps zero t slots = refl
provide_fuel-keeps provide view keeps (suc fuel) t [] = refl
provide_fuel-keeps provide view keeps (suc fuel) t (first ∷ slots) =
    let run : ℕ = run_length first (first ∷ slots) in
    elim (Result-cases (provide t first run).0) [
      | inr (x, fails) ↦ rw (fails, provide_fuel) (keeps t first run)
      | inl (tt, works) ↦
          rw (works, provide_fuel)
            (provide_fuel-keeps provide view keeps fuel (provide t first run).1
                (drop run (first ∷ slots))
              ∙ keeps t first run)
    ]

module _ {R : Type 0} (kernel : IoUring R) where
  pub enter-fleet : (d : UringDriver R) → (enter kernel d).1.uring.fleet ≡ d.uring.fleet
  unfolding enter
  enter-fleet d = elim (Result-cases (kernel.submit d.ring).0) [
    | inl (u, e) ↦ rw (e, enter) refl
    | inr (x, e) ↦ elim (Bool-cases (is_retried x.raw_os_error)) [
      | inl retried ↦ rw (e, retried, enter) refl
      | inr bad ↦ rw (e, bad, enter) refl
    ]
  ]

  pub push_entry-fleet :
      (entry : Entry) (d : UringDriver R)
      → (push_entry kernel entry d).1.uring.fleet ≡ d.uring.fleet
  unfolding push_entry
  push_entry-fleet entry d =
      let d₁ : UringDriver R = record d { ring = (kernel.push d.ring entry).1 } in
      let same = enter-fleet d₁ in
      elim (Bool-cases (kernel.push d.ring entry).0) [
        | inl pushed ↦ rw (pushed, push_entry) refl
        | inr full ↦ elim (Result-cases (enter kernel d₁).0) [
          | inr (x, e) ↦ rw (full, e, push_entry) same
          | inl (u, e) ↦ elim (Bool-cases (kernel.push (enter kernel d₁).1.ring entry).0) [
            | inl again ↦ rw (full, e, again, push_entry) same
            | inr still ↦ rw (full, e, still, push_entry) same
          ]
        ]
      ]

  pub hand_over-fleet :
      (sort : List ℕ → List ℕ) (base : ℕ) (d : UringDriver R) (back : List ℕ)
      → (hand_over kernel sort base d back).1.uring.fleet ≡ d.uring.fleet
  unfolding hand_over provide_runs
  hand_over-fleet sort base d back = elim (Option-cases d.buf_ring) [
    | inr (ring, e) ↦ rw (e, hand_over) refl
    | inl e ↦
        rw (e, hand_over)
          (provide_fuel-keeps
            (λ t first run. push_entry kernel (provide_buffers (id16 first) (id16 run)) t)
            (λ (t : UringDriver R). t.uring.fleet)
            (λ t first run. push_entry-fleet (provide_buffers (id16 first) (id16 run)) t)
            (suc (length (sort back))) d (sort back))
  ]
