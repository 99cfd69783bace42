-- ===== src/IoUring/Driver/Provide.antt =====
-- `provide_runs` of crates/transports/io-uring/src/driver.rs: free slots go to the kernel by contiguous runs.
use polaris_trade.Base.{
  ℕ, zero, suc, ◌+◌, ◌≤◌, ◌<◌, ◌≡◌, ◌∙◌, refl, sym, ap, ap₂, List, [], ◌∷◌, ◌++◌, arith, ◌==◌,
  if◌then◌else◌, length, take, drop, take-append-drop, length-drop, Bool-cases, inl, inr,
}
use mathlib.Core.List.{append_assoc}
use polaris_trade.Base.Weigh.{weigh, weigh-append}
use polaris_trade.Base.Result.{Result, ok, err, Result-cases}
use polaris_trade.Transport.Error.{TransportError}

-- `.zip(first..).take_while(|(slot, next)| slot == next).count()`
abbrev pub run_length : ℕ → List ℕ → ℕ
run_length next [] = 0
run_length next (slot ∷ slots) = if slot == next then suc (run_length (next + 1) slots) else 0

-- The slots of a run.
abbrev pub slots_of : ℕ → ℕ → List ℕ
slots_of first zero = []
slots_of first (suc run) = first ∷ slots_of (first + 1) run

module _ {T : Type 0} (provide : T → ℕ → ℕ → Result TransportError (Unit {0}) × T) where
  -- The loop on what is not handed over yet: each round hands over a slot at least.
  unfoldable pub provide_fuel : ℕ → T → List ℕ → Result TransportError (Unit {0}) × T × List ℕ
  provide_fuel zero t slots = (ok tt, t, slots)
  provide_fuel (suc fuel) t [] = (ok tt, t, [])
  provide_fuel (suc fuel) t (first ∷ slots) =
      let run = run_length first (first ∷ slots) in
      let (answer, t') = provide t first run in
      let rest = provide_fuel fuel t' (drop run (first ∷ slots)) in
      elim answer [ err e ↦ (err e, t', first ∷ slots) | ok u ↦ rest ]

  -- `provide_runs`, where `sort` is `sort_unstable`: the answer, and what stays in `back`.
  unfoldable pub provide_runs :
      (List ℕ → List ℕ) → T → List ℕ → Result TransportError (Unit {0}) × T × List ℕ
  provide_runs sort t back = provide_fuel (suc (length (sort back))) t (sort back)

run_length-take :
    (next : ℕ) (slots : List ℕ)
    → take (run_length next slots) slots ≡ slots_of next (run_length next slots)
run_length-take next [] = refl
run_length-take next (slot ∷ slots) = elim (Bool-cases (slot == next)) [
  | inl e ↦
      let same : slot ≡ next = ground arith in
      rw e (ap₂ ◌∷◌ same (run_length-take (next + 1) slots))
  | inr e ↦ rw e refl
]

run_length-positive : (first : ℕ) (slots : List ℕ) → 1 ≤ run_length first (first ∷ slots)
run_length-positive first slots = ground arith

-- Without an error nothing stays.
abbrev pub Provided : Result TransportError (Unit {0}) → List ℕ → Type 0
Provided (ok u) left = left ≡ []
Provided (err e) left = Unit

-- A `provide` that hands over the whole run when it answers no error, and nothing else; `handed` are the
-- slots that the kernel has got from it.
module _ {T : Type 0} (provide : T → ℕ → ℕ → Result TransportError (Unit {0}) × T)
    (handed : T → List ℕ)
    (hands : (t : T) (first run : ℕ)
      → (provide t first run).0 ≡ ok tt
      → handed (provide t first run).1 ≡ handed t ++ slots_of first run)
    (fails : (t : T) (first run : ℕ) (e : TransportError)
      → (provide t first run).0 ≡ err e
      → handed (provide t first run).1 ≡ handed t) where
  provide_fuel_lem :
      (fuel : ℕ) (t : T) (slots : List ℕ)
      → length slots < fuel
      → let (answer, t', left) = provide_fuel provide fuel t slots in
        (handed t' ++ left ≡ handed t ++ slots) × Provided answer left
  unfolding provide_fuel
  provide_fuel_lem zero t slots lt = absurd (omega arith)
  provide_fuel_lem (suc fuel) t [] lt = (refl, refl)
  provide_fuel_lem (suc fuel) t (first ∷ slots) lt =
      let run : ℕ = run_length first (first ∷ slots) in
      elim (Result-cases (provide t first run).0) [
        | inr (x, failed) ↦
            rw (failed, provide_fuel)
              (ap (λ hs. hs ++ (first ∷ slots)) (fails t first run x failed), tt)
        | inl (tt, done) ↦
            let (kept, ends) =
              provide_fuel_lem fuel (provide t first run).1 (drop run (first ∷ slots))
                (omega (arith, length-drop run (first ∷ slots), run_length-positive first slots)) in
            rw (done, provide_fuel)
              (
                kept
                    ∙ ap (λ hs. hs ++ drop run (first ∷ slots))
                        (hands t first run done
                          ∙ ap (λ xs. handed t ++ xs) (sym (run_length-take first (first ∷ slots))))
                    ∙ append_assoc (handed t) (take run (first ∷ slots)) (drop run (first ∷ slots))
                    ∙ ap (λ xs. handed t ++ xs) (take-append-drop run (first ∷ slots)),
                ends,
              )
      ]

  -- Whatever `provide` answers, each slot of `back` is either handed to the kernel or kept for the next call, once and not
  -- both, by any weight `w` of the slots; without an error none is kept. Here `sort` returns each slot as often as it is given.
  pub provide_runs_lem :
      (sort : List ℕ → List ℕ) (t : T) (back : List ℕ) (w : ℕ → ℕ)
      → ((slots : List ℕ) → weigh w (sort slots) ≡ weigh w slots)
      → let (answer, t', left) = provide_runs provide sort t back in
        (weigh w (handed t') + weigh w left ≡ weigh w (handed t) + weigh w back)
        × Provided answer left
  unfolding provide_runs
  provide_runs_lem sort t back w permutes =
      let (kept, ends) = provide_fuel_lem (suc (length (sort back))) t (sort back) (omega arith) in
      let (answer, t', left) = provide_runs provide sort t back in
      (
        omega (
          arith,
          ap (weigh w) kept,
          weigh-append w (handed t') left,
          weigh-append w (handed t) (sort back),
          permutes back,
        ),
        ends,
      )
