-- ===== src/IoUring/Poll/Counted.antt =====
-- What a round over the completions does to the fleet.
use polaris_trade.Base.{
  ℕ, ◌+◌, ◌-◌, ◌≡◌, ◌∙◌, refl, sym, ap, subst, Bool, true, false, not, ◌||◌, Option, List, [], ◌∷◌,
  ◌++◌, ◌==◌, if◌then◌else◌, length, arith, Bool-cases, Option-cases, inl, inr,
}
use polaris_trade.Base.Result.{Result, ok, err}
use polaris_trade.Transport.Error.{TransportError, IoErrorKind}
use polaris_trade.Transport.Batch.{FrameBatch, spare}
use polaris_trade.Transport.IndexPool.{IndexFrame}
use polaris_trade.IoUring.Completion.{Completion, data_in, truncated_in, empty, no_buffers, failed}
use polaris_trade.IoUring.Driver.{
  Fleet, Cqe, ud_recv, Uring, completion_of, settle_recv, is_failed_provide, complete_fleet, ended,
  complete,
}
use polaris_trade.IoUring.Requests.{
  Contract, Contracts, finals, is_enobufs, ended-completion_of, starves-completion_of,
}
use polaris_trade.IoUring.Poll.Kept.{fleet-settle_recv}

-- Whether the group is out of buffers, after these completions.
abbrev pub starved_by : Bool → List Cqe → Bool
starved_by starved [] = starved
starved_by starved (cqe ∷ cqes) =
    starved_by (if cqe.user_data == ud_recv then is_enobufs cqe.result || starved else starved) cqes

module _ (more : ℕ → Bool) (buffer_select : ℕ → Option ℕ) (kind_of : ℕ → IoErrorKind) where
  path-settle_recv :
      (d : Uring) (out : FrameBatch IndexFrame) (pushed : ℕ) (c : Completion)
      → (settle_recv more buffer_select kind_of d out pushed c).1.path ≡ d.path
  path-settle_recv d out pushed (data_in slot len rearm) = refl
  path-settle_recv d out pushed (truncated_in slot rearm) = refl
  path-settle_recv d out pushed (empty rearm) = refl
  path-settle_recv d out pushed no_buffers = refl
  path-settle_recv d out pushed (failed errno) = refl

  -- What the completions that `complete` takes do to the fleet.
  pub record Counted (d : Uring) (taken : ℕ) (cqes : List Cqe)
      (result : Result TransportError ℕ × Uring × FrameBatch IndexFrame × ℕ) : Type 0 where
    pub seen : List Cqe
    pub rest : List Cqe
    pub split : cqes ≡ seen ++ rest
    pub took : result.3 ≡ taken + length seen
    pub same_path : result.1.path ≡ d.path
    pub armed : result.1.fleet.armed ≡ d.fleet.armed - finals more buffer_select seen
    pub starved : result.1.fleet.starved ≡ starved_by d.fleet.starved seen

  Counted-none :
      (d : Uring) (out : FrameBatch IndexFrame) (answer : Result TransportError ℕ) (taken : ℕ)
      (cqes : List Cqe)
      → Counted d taken cqes (answer, d, out, taken)
  Counted-none d out answer taken cqes = record {
    seen = [];
    rest = cqes;
    split = refl;
    took = omega arith;
    same_path = refl;
    armed = omega arith;
    starved = refl;
  }

  -- One completion in front.
  Counted-cons :
      (d d₁ : Uring) (taken : ℕ) (cqe : Cqe) (cqes : List Cqe)
      (result : Result TransportError ℕ × Uring × FrameBatch IndexFrame × ℕ)
      → d₁.path ≡ d.path
      → d₁.fleet.armed ≡ d.fleet.armed - finals more buffer_select (cqe ∷ [])
      → d₁.fleet.starved ≡ starved_by d.fleet.starved (cqe ∷ [])
      → Counted d₁ (taken + 1) cqes result
      → Counted d taken (cqe ∷ cqes) result
  Counted-cons d d₁ taken cqe cqes result path armed starved c = record {
    seen = cqe ∷ c.seen;
    rest = c.rest;
    split = ap (λ cs. cqe ∷ cs) c.split;
    took = omega (arith, c.took);
    same_path = c.same_path ∙ path;
    armed = omega (arith, c.armed);
    starved = c.starved ∙ ap (λ b. starved_by b c.seen) starved;
  }

  pub complete-Counted :
      (d : Uring) (out : FrameBatch IndexFrame) (pushed taken : ℕ) (cqes : List Cqe)
      → Contracts more buffer_select d.path cqes
      → Counted d taken cqes (complete more buffer_select kind_of d out pushed taken cqes)
  unfolding complete
  complete-Counted d out pushed taken [] keeps = Counted-none d out (ok pushed) taken []
  complete-Counted d out pushed taken (cqe ∷ cqes) (one, keeps) =
      elim (Bool-cases (spare out == 0)) [
        | inl full ↦ rw (full, complete) (Counted-none d out (ok pushed) taken (cqe ∷ cqes))
        | inr room ↦ elim (Bool-cases (cqe.user_data == ud_recv)) [
          | inl ours ↦
              let c = completion_of more buffer_select kind_of d cqe in
              let d₁ : Uring = record d { fleet = complete_fleet d.fleet c } in
              let step = settle_recv more buffer_select kind_of d₁ out pushed c in
              let path = path-settle_recv d₁ out pushed c in
              let same = fleet-settle_recv more buffer_select kind_of d₁ out pushed c in
              let contract : Contract more buffer_select d.path cqe = elim one [
                | inl other ↦ absurd (cc (other, ours))
                | inr kept ↦ kept
              ] in
              let over = ended-completion_of more buffer_select kind_of d cqe contract in
              let armed : step.1.fleet.armed
                  ≡ d.fleet.armed - finals more buffer_select (cqe ∷ []) =
                ap (λ (f : Fleet). f.armed) same
                ∙ armed_by (more cqe.flags) d.fleet.armed (ended c) over ours in
              let starved : step.1.fleet.starved ≡ starved_by d.fleet.starved (cqe ∷ []) = rw ours (
                ap (λ (f : Fleet). f.starved) same
                ∙ starves-completion_of more buffer_select kind_of d cqe d.fleet.starved) in
              elim (Option-cases step.0) [
                | inr (e, fails) ↦
                    rw (room, ours, fails, complete)
                      (Counted-cons d step.1 taken cqe cqes _ path armed starved
                        (Counted-none step.1 step.2 (err e) (taken + 1) cqes))
                | inl works ↦
                    rw (room, ours, works, complete)
                      (Counted-cons d step.1 taken cqe cqes _ path armed starved (
                        complete-Counted step.1 step.2 step.3 (taken + 1) cqes
                          (subst (λ p. Contracts more buffer_select p cqes) (sym path) keeps)))
              ]
          | inr other ↦
              let armed : d.fleet.armed ≡ d.fleet.armed - finals more buffer_select (cqe ∷ []) =
                rw other (omega arith) in
              let starved : d.fleet.starved ≡ starved_by d.fleet.starved (cqe ∷ []) =
                rw other refl in
              elim (Option-cases (is_failed_provide more buffer_select kind_of cqe)) [
                | inr (errno, fails) ↦
                    rw (room, other, fails, complete)
                      (Counted-cons d d taken cqe cqes _ refl armed starved
                        (Counted-none d out _ (taken + 1) cqes))
                | inl skips ↦
                    rw (room, other, skips, complete)
                      (Counted-cons d d taken cqe cqes _ refl armed starved
                        (complete-Counted d out pushed (taken + 1) cqes keeps))
              ]
        ]
      ]
    where
      armed_by :
          (goes_on : Bool) (n : ℕ) (over : Bool)
          → over ≡ not goes_on
          → (cqe.user_data == ud_recv) ≡ true
          → (if over then n - 1 else n)
            ≡ n - ((if cqe.user_data == ud_recv then if goes_on then 0 else 1 else 0) + 0)
      armed_by true n over e ours = rw (e, ours) (omega arith)
      armed_by false n over e ours = rw (e, ours) (omega arith)
