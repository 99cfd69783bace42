-- ===== src/IoUring/Poll/Owed.antt =====
-- The recvs that the kernel has, against the count that the fleet keeps, behind `poll_frames`.
use polaris_trade.Base.{
  ℕ, zero, suc, ◌+◌, ◌-◌, ◌≡◌, ◌⊎◌, ◌∙◌, refl, sym, ap, subst, Bool, true, false, not, ◌&&◌, Option,
  List, [], ◌++◌, ltb, ◌==◌, if◌then◌else◌, length, take, arith, Bool-cases, inl, inr, take-append,
}
use polaris_trade.Base.Result.{Result, Result-cases}
use polaris_trade.Transport.Error.{TransportError, IoErrorKind}
use polaris_trade.Transport.Batch.{FrameBatch}
use polaris_trade.Transport.IndexPool.{IndexFrame, drain_freed}
use polaris_trade.IoUring.Driver.{
  Fleet, Cqe, RecvPath, legacy, buf_ring, multishot, Uring, complete, wanted, refilled,
}
use polaris_trade.IoUring.Requests.{Contracts, finals}
use polaris_trade.IoUring.Poll.{
  IoUring, UringDriver, push_entry, hand_over, give_back, request_of, arm_from, submit_if_needed,
  refill_kernel, poll_uring,
}
use polaris_trade.IoUring.Poll.Counted.{starved_by, complete-Counted}
use polaris_trade.IoUring.Poll.Pushed.{
  Ledger, Pushed, pushed_by, arms, enter-Pushed, push_entry-Pushed, hand_over-view,
}

module _ {R : Type 0} (kernel : IoUring R) (more : ℕ → Bool) (buffer_select : ℕ → Option ℕ)
    (path : RecvPath) (owed : R → ℕ) (ledger : Ledger kernel more buffer_select path owed) where
  -- The count of the fleet is that of the recvs.
  abbrev pub IsCounted : UringDriver R → Type 0
  IsCounted d = owed d.ring ≡ d.uring.fleet.armed

  -- From `d` to `d'` the count is kept, and with it what else the fleet hangs on, but for the starved gate.
  record Keeps (d d' : UringDriver R) : Type 0 where
    counted : IsCounted d'
    same_path : d'.uring.path ≡ d.uring.path

  refilled-starved :
      (f : Fleet) (n : ℕ) → (refilled f n).starved ≡ (if ltb 0 n then false else f.starved)
  refilled-starved f n = ground arith

  refilled-armed : (f : Fleet) (n : ℕ) → (refilled f n).armed ≡ f.armed
  refilled-armed f n = ground arith

  -- The gate, when the slots on `back` were `before` and are `after`.
  abbrev pub gate : ℕ → ℕ → Bool → Bool
  gate before after starved = if ltb 0 (before - after) then false else starved

  give_back-owed :
      (sort : List ℕ → List ℕ) (base : ℕ) (d : UringDriver R)
      → IsCounted d
      → let d' = (give_back kernel sort base d).1 in
        Keeps d d'
        × (owed d'.ring ≡ owed d.ring)
        × (d'.uring.fleet.starved
            ≡ gate (length d.uring.back) (length d'.uring.back) d.uring.fleet.starved)
  unfolding give_back
  give_back-owed sort base d counted =
      let taken : UringDriver R = record d { uring = record d.uring { back = [] } } in
      let same =
        hand_over-view kernel more buffer_select path owed ledger sort base taken d.uring.back in
      let handed = hand_over kernel sort base taken d.uring.back in
      let n = length d.uring.back - length handed.2 in
      let fleet = ap (λ (v : Fleet × List ℕ × RecvPath × ℕ). v.0) same in
      let owes = ap (λ (v : Fleet × List ℕ × RecvPath × ℕ). v.3) same in
      elim (Bool-cases (length d.uring.back == 0)) [
        | inl idle_back ↦
            let shut : gate (length d.uring.back) (length d.uring.back) d.uring.fleet.starved
                ≡ d.uring.fleet.starved =
              ground arith in
            rw (idle_back, give_back)
              (record { counted = counted; same_path = refl }, refl, sym shut)
        | inr some_back ↦
            rw (some_back, give_back)
              (
                record {
                  counted =
                      owes
                      ∙ counted
                      ∙ sym (
                          refilled-armed handed.1.uring.fleet n
                          ∙ ap (λ (f : Fleet). f.armed) fleet);
                  same_path = ap (λ (v : Fleet × List ℕ × RecvPath × ℕ). v.2) same;
                },
                owes,
                refilled-starved handed.1.uring.fleet n
                    ∙ ap (λ b. if ltb 0 n then false else b) (ap (λ (f : Fleet). f.starved) fleet),
              )
      ]

  arms-request_of : (p : RecvPath) → arms (request_of p) ≡ 1
  arms-request_of legacy = refl
  arms-request_of buf_ring = refl
  arms-request_of multishot = refl

  arm_from-owed :
      (n : ℕ) (d : UringDriver R)
      → IsCounted d
      → let d' = (arm_from kernel n d).1 in
        Keeps d d'
        × (d'.uring.fleet.starved ≡ d.uring.fleet.starved)
        × (d'.uring.back ≡ d.uring.back)
  unfolding arm_from
  arm_from-owed zero d counted = (record { counted = counted; same_path = refl }, refl, refl)
  arm_from-owed (suc n) d counted =
      let entry = request_of d.uring.path in
      let step = push_entry kernel entry d in
      let d₁ : UringDriver R = record step.1 {
        uring = record step.1.uring {
          fleet = record step.1.uring.fleet { armed = step.1.uring.fleet.armed + 1 };
        };
      } in
      let p = push_entry-Pushed kernel more buffer_select path owed ledger entry d in
      let armed = ap (λ (f : Fleet). f.armed) p.same_fleet in
      let starved = ap (λ (f : Fleet). f.starved) p.same_fleet in
      let one = arms-request_of d.uring.path in
      elim (Result-cases step.0) [
        | inr (x, fails) ↦
            let none_owed : owed step.1.ring ≡ owed d.ring + 0 =
              p.more_owed ∙ ap (λ a. owed d.ring + pushed_by a entry) fails in
            rw (fails, arm_from)
              (
                record { counted = omega (arith, none_owed, armed); same_path = p.same_path },
                starved,
                p.same_back,
              )
        | inl (u, works) ↦
            let one_owed : owed step.1.ring ≡ owed d.ring + arms entry =
              p.more_owed ∙ ap (λ a. owed d.ring + pushed_by a entry) works in
            let (keeps, gate_kept, back) =
              arm_from-owed n d₁ (omega (arith, one_owed, armed, one)) in
            rw (works, arm_from)
              (
                record { counted = keeps.counted; same_path = keeps.same_path ∙ p.same_path },
                gate_kept ∙ starved,
                back ∙ p.same_back,
              )
      ]

  submit-Pushed :
      (d : UringDriver R)
      → Pushed kernel more buffer_select path owed ledger 0 d (submit_if_needed kernel d).1
  unfolding submit_if_needed
  submit-Pushed d =
      elim (Bool-cases (kernel.sq_is_empty d.ring && not (kernel.cq_overflow d.ring))) [
        | inl quiet ↦
            rw (quiet, submit_if_needed)
              (record {
                same_fleet = refl;
                same_back = refl;
                same_path = refl;
                more_owed = omega arith;
              })
        | inr busy ↦
            rw (busy, submit_if_needed) (enter-Pushed kernel more buffer_select path owed ledger d)
      ]

  -- A refill keeps the count; it opens the starved gate only if a slot was handed over, and while that is shut it pushes
  -- no recv.
  pub record Refilled (d d' : UringDriver R) : Type 0 where
    pub counted : IsCounted d'
    pub same_path : d'.uring.path ≡ d.uring.path
    pub starved :
        d'.uring.fleet.starved
        ≡ gate (length d.uring.back) (length d'.uring.back) d.uring.fleet.starved
    pub shut : (d'.uring.fleet.starved ≡ false) ⊎ (owed d'.ring ≡ owed d.ring)

  pub refill_kernel-owed :
      (sort : List ℕ → List ℕ) (base : ℕ) (d : UringDriver R)
      → IsCounted d
      → Refilled d (refill_kernel kernel sort base d).1
  unfolding refill_kernel arm_from
  refill_kernel-owed sort base d counted =
      let given = give_back kernel sort base d in
      let (keeps, owes, open_gate) = give_back-owed sort base d counted in
      let n = wanted given.1.uring.fleet in
      let out = arm_from kernel n given.1 in
      let (keeps', gate_kept, back) = arm_from-owed n given.1 keeps.counted in
      let s = submit-Pushed out.1 in
      let starved : out.1.uring.fleet.starved
          ≡ gate (length d.uring.back) (length out.1.uring.back) d.uring.fleet.starved =
        gate_kept
        ∙ open_gate
        ∙ ap (λ xs. gate (length d.uring.back) (length xs) d.uring.fleet.starved) (sym back) in
      let shut : (out.1.uring.fleet.starved ≡ false) ⊎ (owed out.1.ring ≡ owed d.ring) =
        elim (Bool-cases given.1.uring.fleet.starved) [
          | inr open_now ↦ inl (gate_kept ∙ open_now)
          | inl closed ↦ inr (closed_still given.1 closed ∙ owes)
        ] in
      elim (Result-cases given.0) [
        | inr (x, fails) ↦
            rw (fails, refill_kernel)
              (record {
                counted = keeps.counted;
                same_path = keeps.same_path;
                starved = open_gate;
                shut = inr owes;
              })
        | inl (u, works) ↦ elim (Result-cases out.0) [
          | inr (y, fails) ↦
              rw (works, fails, refill_kernel)
                (record {
                  counted = keeps'.counted;
                  same_path = keeps'.same_path ∙ keeps.same_path;
                  starved = starved;
                  shut = shut;
                })
          | inl (v, armed_all) ↦
              rw (works, armed_all, refill_kernel)
                (record {
                  counted = omega (
                    arith,
                    s.more_owed,
                    keeps'.counted,
                    ap (λ (f : Fleet). f.armed) s.same_fleet,
                  );
                  same_path = s.same_path ∙ keeps'.same_path ∙ keeps.same_path;
                  starved =
                      ap (λ (f : Fleet). f.starved) s.same_fleet
                      ∙ starved
                      ∙ ap (λ xs. gate (length d.uring.back) (length xs) d.uring.fleet.starved)
                          (sym s.same_back);
                  shut = elim shut [
                    | inl open_now ↦ inl (ap (λ (f : Fleet). f.starved) s.same_fleet ∙ open_now)
                    | inr same ↦ inr (omega (arith, s.more_owed, same))
                  ];
                })
        ]
      ]
    where
      closed_still :
          (d : UringDriver R)
          → d.uring.fleet.starved ≡ true
          → owed (arm_from kernel (wanted d.uring.fleet) d).1.ring ≡ owed d.ring
      closed_still d closed = rw (closed, arm_from) refl

  module _ (kind_of : ℕ → IoErrorKind) where
    -- The round over the completions, at the start of `poll_frames`.
    abbrev pub completed :
        UringDriver R
        → FrameBatch IndexFrame
        → Result TransportError ℕ × Uring × FrameBatch IndexFrame × ℕ
    completed d out =
        let (pool, back) = drain_freed d.uring.pool d.uring.back in
        complete more buffer_select kind_of (record d.uring { pool = pool; back = back }) out 0 0
          (kernel.completions d.ring)

    -- From `d` to `d'`, with what was read: `seen`.
    pub record Recounts (d : UringDriver R) (out : FrameBatch IndexFrame) (d' : UringDriver R)
        : Type 0 where
      pub seen : List Cqe
      pub rest : List Cqe
      pub split : kernel.completions d.ring ≡ seen ++ rest
      pub counted : IsCounted d'
      pub same_path : d'.uring.path ≡ d.uring.path
      pub starved :
          d'.uring.fleet.starved
          ≡ gate
              (length (completed d out).1.back)
              (length d'.uring.back)
              (starved_by d.uring.fleet.starved seen)
      pub shut :
          (d'.uring.fleet.starved ≡ false)
          ⊎ (owed d'.ring + finals more buffer_select seen ≡ owed d.ring)

    poll_uring-refill :
        (sort : List ℕ → List ℕ) (base : ℕ) (d : UringDriver R) (out : FrameBatch IndexFrame)
        → (poll_uring kernel more buffer_select kind_of sort base d out).1
          ≡ (refill_kernel kernel sort base (record d {
            ring = kernel.advance d.ring (completed d out).3;
            uring = (completed d out).1;
          })).1
    unfolding poll_uring
    poll_uring-refill sort base d out =
        let (answer, u', out', taken) = completed d out in
        let refill =
          refill_kernel kernel sort base
            (record d { ring = kernel.advance d.ring taken; uring = u' }) in
        elim (Result-cases answer) [
          | inr (x, fails) ↦ rw (fails, poll_uring) refl
          | inl (pushed, works) ↦ elim (Result-cases refill.0) [
            | inr (x, fails) ↦ rw (works, fails, poll_uring) refl
            | inl (v, good) ↦ rw (works, good, poll_uring) refl
          ]
        ]

    pub poll_uring-Recounts :
        (sort : List ℕ → List ℕ) (base : ℕ) (d : UringDriver R) (out : FrameBatch IndexFrame)
        → d.uring.path ≡ path
        → IsCounted d
        → Recounts d out (poll_uring kernel more buffer_select kind_of sort base d out).1
    poll_uring-Recounts sort base d out on counted =
        let (answer, u', out', taken) = completed d out in
        let (pool, back) = drain_freed d.uring.pool d.uring.back in
        let u : Uring = record d.uring { pool = pool; back = back } in
        let cqes = kernel.completions d.ring in
        let d₁ : UringDriver R = record d { ring = kernel.advance d.ring taken; uring = u' } in
        let c =
          complete-Counted more buffer_select kind_of u out 0 0 cqes
            (subst (λ p. Contracts more buffer_select p cqes) (sym on) (ledger.contracts d.ring)) in
        let took : taken ≡ length c.seen = omega (arith, c.took) in
        let prefix : take taken cqes ≡ c.seen =
          ap (λ n. take n cqes) took
          ∙ ap (take (length c.seen)) c.split
          ∙ take-append c.seen c.rest in
        let read : owed d₁.ring + finals more buffer_select c.seen ≡ owed d.ring =
          ap (λ cs. owed d₁.ring + finals more buffer_select cs) (sym prefix)
          ∙ ledger.read_owed d.ring taken in
        let r = refill_kernel-owed sort base d₁ (omega (arith, read, counted, c.armed)) in
        subst (Recounts d out) (sym (poll_uring-refill sort base d out)) (record {
          seen = c.seen;
          rest = c.rest;
          split = c.split;
          counted = r.counted;
          same_path = r.same_path ∙ c.same_path;
          starved =
              r.starved
              ∙ ap
                  (λ b.
                    gate (length u'.back) (length (refill_kernel kernel sort base d₁).1.uring.back)
                      b)
                  c.starved;
          shut = elim r.shut [
            | inl open_now ↦ inl open_now
            | inr same ↦ inr (omega (arith, same, read))
          ];
        })
