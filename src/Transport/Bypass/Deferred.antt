-- ===== src/Transport/Bypass/Deferred.antt =====
-- An error that the driver meets behind frames waits for the next call: none is lost, and none hides frames.
use polaris_trade.Base.{
  ℕ, ◌-◌, ◌≡◌, ◌∙◌, refl, sym, ap, Bool, Option, none, some, List, [], ◌∷◌, ◌++◌, arith, ltb, ◌==◌,
  if◌then◌else◌, length, drop, All, Bool-cases, Option-cases, inl, inr,
}
use mathlib.Core.List.{append_assoc, append-nil}
use polaris_trade.Base.Result.{Result, ok, err}
use polaris_trade.Transport.Error.{TransportError, pool_exhausted}
use polaris_trade.Transport.Batch.{with_capacity, len}
use polaris_trade.Transport.Bypass.{
  Polled, frames, idle, exhausted, Driver, BypassTransport, settle, poll_bypass, report, recv,
}

module _ {D F : Type 0} (drv : Driver D F) (enabled : Bool) where
  -- Calls of `recv_burst` with batches of these capacities, drained between the calls.
  abbrev pub run :
      BypassTransport D → List ℕ → List (Result TransportError ℕ × List F) × BypassTransport D
  run t [] = ([], t)
  run t (cap ∷ caps) =
      let (answer, t', out, metrics) = recv drv enabled t (with_capacity cap) in
      let (rest, t'') = run t' caps in ((answer, out.frames) ∷ rest, t'')

  -- The error in the driver's outcome, when it is polled: its own, or that of an exhausted pool.
  abbrev pub error_in : D → Result TransportError Polled → ℕ → List TransportError
  error_in d (err e) pushed = e ∷ []
  error_in d (ok exhausted) pushed =
      if pushed == 0
      then pool_exhausted (drv.pool_stats d).in_use (drv.pool_stats d).capacity ∷ []
      else []
  error_in d (ok (frames n)) pushed = []
  error_in d (ok idle) pushed = []

  abbrev pub met_by : BypassTransport D → ℕ → List TransportError
  met_by t cap =
      let (polled, d, out) = drv.poll_frames t.driver (with_capacity cap) in
      elim t.deferred [ some e ↦ [] | none ↦ error_in d polled (len out) ]

  -- The errors that the driver meets in these calls, in order.
  abbrev pub met : BypassTransport D → List ℕ → List TransportError
  met t [] = []
  met t (cap ∷ caps) =
      let (answer, t', out, metrics) = recv drv enabled t (with_capacity cap) in
      met_by t cap ++ met t' caps

  abbrev pub error_of : Result TransportError ℕ → List TransportError
  error_of (ok n) = []
  error_of (err e) = e ∷ []

  abbrev pub errors : List (Result TransportError ℕ × List F) → List TransportError
  errors [] = []
  errors ((answer, fs) ∷ rest) = error_of answer ++ errors rest

  abbrev pub owed : BypassTransport D → List TransportError
  owed t = elim t.deferred [ some e ↦ e ∷ [] | none ↦ [] ]

  -- A call answers the count of the frames it hands over, or an error and no frame.
  abbrev pub Fair : Result TransportError ℕ → List F → Type 0
  Fair (ok n) fs = length fs ≡ n
  Fair (err e) fs = fs ≡ []

  report-deferred :
      (t : BypassTransport D) (pushed : List F)
      → (report drv enabled t pushed).0.deferred ≡ t.deferred
  unfolding report
  report-deferred t pushed = ground arith

  length-zero : (fs : List F) → length fs ≡ 0 → fs ≡ []
  length-zero [] e = refl
  length-zero (f ∷ fs) e = absurd (omega arith)

  settle_lem :
      (t : BypassTransport D) (polled : Result TransportError Polled) (fs : List F)
      → t.deferred ≡ none
      → let (answer, t') = settle drv t polled (length fs) in
        Fair answer fs × (error_of answer ++ owed t' ≡ error_in t.driver polled (length fs))
  unfolding settle
  settle_lem t (ok exhausted) fs e = elim (Bool-cases (length fs == 0)) [
    | inl none_pushed ↦ rw (none_pushed, settle, e) (length-zero fs (ground arith), refl)
    | inr pushed ↦ rw (pushed, settle, e) (refl, refl)
  ]
  settle_lem t (ok (frames n)) fs e = rw e (refl, refl)
  settle_lem t (ok idle) fs e = rw e (refl, refl)
  settle_lem t (err x) fs e = elim (Bool-cases (ltb 0 (length fs))) [
    | inl pushed ↦ rw (pushed, settle) (refl, refl)
    | inr none_pushed ↦ rw (none_pushed, settle, e) (length-zero fs (ground arith), refl)
  ]

  poll_lem :
      (t : BypassTransport D) (cap : ℕ)
      → let (answer, t', out) = poll_bypass drv t (with_capacity cap) in
        Fair answer out.frames × (error_of answer ++ owed t' ≡ owed t ++ met_by t cap)
  unfolding poll_bypass
  poll_lem t cap = elim (Option-cases t.deferred) [
    | inr (e, waits) ↦ rw (waits, poll_bypass) (refl, refl)
    | inl none_waits ↦
        let polled = drv.poll_frames t.driver (with_capacity cap) in
        let all : len polled.2 - 0 ≡ len polled.2 = omega arith in
        rw (none_waits, all, poll_bypass)
          (settle_lem (record t { driver = polled.1 }) polled.0 polled.2.frames none_waits)
  ]

  recv_lem :
      (t : BypassTransport D) (cap : ℕ)
      → let (answer, t', out, metrics) = recv drv enabled t (with_capacity cap) in
        Fair answer out.frames × (error_of answer ++ owed t' ≡ owed t ++ met_by t cap)
  unfolding recv
  recv_lem t cap =
      let (fair, kept) = poll_lem t cap in
      let (answer, t', out) = poll_bypass drv t (with_capacity cap) in
      (
        fair,
        ap
              (λ (d : Option TransportError).
                error_of answer ++ elim d [ some e ↦ e ∷ [] | none ↦ [] ])
              (report-deferred t' (drop 0 out.frames))
            ∙ kept,
      )

  -- Over any sequence of calls, with fresh batches of any capacity and over any driver, no call answers an error together
  -- with frames, and a call that answers a count hands over that many frames. Every error that the driver
  -- meets is answered once, in order: the answered errors, with the one that waits for the next
  -- call, are the one that waited before the first and those that the driver met.
  pub run_lem :
      (t : BypassTransport D) (caps : List ℕ)
      → let (calls, t') = run t caps in
        All (λ c. Fair c.0 c.1) calls × (errors calls ++ owed t' ≡ owed t ++ met t caps)
  run_lem t [] = (tt, sym (append-nil (owed t)))
  run_lem t (cap ∷ caps) =
      let (answer, t', out, metrics) = recv drv enabled t (with_capacity cap) in
      let (fair, kept) = recv_lem t cap in
      let (all, rest) = run_lem t' caps in
      (
        (fair, all),
        append_assoc (error_of answer) (errors (run t' caps).0) (owed (run t' caps).1)
            ∙ ap (λ es. error_of answer ++ es) rest
            ∙ sym (append_assoc (error_of answer) (owed t') (met t' caps))
            ∙ ap (λ es. es ++ met t' caps) kept
            ∙ append_assoc (owed t) (met_by t cap) (met t' caps),
      )
