-- ===== src/IoUring/Poll/Pushed.antt =====
-- The recvs that a push adds, and what a push leaves alone.
use polaris_trade.Base.{
  ℕ, suc, ◌+◌, ◌≡◌, ◌∙◌, refl, ap, Bool, Option, List, if◌then◌else◌, length, take, arith,
  Bool-cases, Option-cases, inl, inr,
}
use polaris_trade.Base.Result.{ok, err, Result-cases}
use polaris_trade.IoUring.Driver.{Fleet, RecvPath}
use polaris_trade.IoUring.Driver.Provide.{provide_runs}
use polaris_trade.IoUring.Requests.{Contracts, finals}
use polaris_trade.IoUring.Poll.{
  Entry, recv, recv_multi, async_cancel, provide_buffers, IoUring, UringDriver, Answer, is_retried,
  id16, enter, push_entry, hand_over,
}
use polaris_trade.IoUring.Poll.Kept.{provide_fuel-keeps}

-- The recvs that an entry arms.
abbrev pub arms : Entry → ℕ
arms recv = 1
arms recv_multi = 1
arms async_cancel = 0
arms (provide_buffers first run) = 0

-- What the ring promises: `owed` counts the recvs that are queued or with the kernel, until their last completion is
-- read. Only a recv that is pushed adds to them.
pub record Ledger {R : Type 0} (kernel : IoUring R) (more : ℕ → Bool) (buffer_select : ℕ → Option ℕ)
    (path : RecvPath) (owed : R → ℕ) : Type 0 where
  pub push_owed :
      (r : R) (entry : Entry)
      → owed (kernel.push r entry).1 ≡ owed r + (if (kernel.push r entry).0 then arms entry else 0)
  pub submit_owed : (r : R) → owed (kernel.submit r).1 ≡ owed r
  pub contracts : (r : R) → Contracts more buffer_select path (kernel.completions r)
  pub read_owed :
      (r : R) (n : ℕ)
      → owed (kernel.advance r n) + finals more buffer_select (take n (kernel.completions r))
        ≡ owed r

-- What an answer to a push says of the recvs.
abbrev pub pushed_by : Answer → Entry → ℕ
pushed_by (ok u) entry = arms entry
pushed_by (err e) entry = 0

module _ {R : Type 0} (kernel : IoUring R) (more : ℕ → Bool) (buffer_select : ℕ → Option ℕ)
    (path : RecvPath) (owed : R → ℕ) (ledger : Ledger kernel more buffer_select path owed) where
  -- From `d` to `d'` recvs were pushed, `n` of them, and nothing changed that the fleet hangs on.
  pub record Pushed (n : ℕ) (d d' : UringDriver R) : Type 0 where
    pub same_fleet : d'.uring.fleet ≡ d.uring.fleet
    pub same_back : d'.uring.back ≡ d.uring.back
    pub same_path : d'.uring.path ≡ d.uring.path
    pub more_owed : owed d'.ring ≡ owed d.ring + n

  pub enter-Pushed : (d : UringDriver R) → Pushed 0 d (enter kernel d).1
  unfolding enter
  enter-Pushed d =
      let still =
        λ (d' : UringDriver R) (f : d'.uring.fleet ≡ d.uring.fleet)
            (b : d'.uring.back ≡ d.uring.back) (p : d'.uring.path ≡ d.uring.path)
            (o : owed d'.ring ≡ owed d.ring).
          the_pushed d' f b p (omega (arith, o)) in
      elim (Result-cases (kernel.submit d.ring).0) [
        | inl (u, e) ↦ rw (e, enter) (still _ refl refl refl (ledger.submit_owed d.ring))
        | inr (x, e) ↦ elim (Bool-cases (is_retried x.raw_os_error)) [
          | inl retried ↦
              rw (e, retried, enter) (still _ refl refl refl (ledger.submit_owed d.ring))
          | inr bad ↦ rw (e, bad, enter) (still _ refl refl refl (ledger.submit_owed d.ring))
        ]
      ]
    where
      the_pushed :
          (d' : UringDriver R)
          → d'.uring.fleet ≡ d.uring.fleet
          → d'.uring.back ≡ d.uring.back
          → d'.uring.path ≡ d.uring.path
          → owed d'.ring ≡ owed d.ring + 0
          → Pushed 0 d d'
      the_pushed d' f b p o = record { same_fleet = f; same_back = b; same_path = p; more_owed = o }

  pub push_entry-Pushed :
      (entry : Entry) (d : UringDriver R)
      → let (answer, d') = push_entry kernel entry d in Pushed (pushed_by answer entry) d d'
  unfolding push_entry
  push_entry-Pushed entry d =
      let first = kernel.push d.ring entry in
      let d₁ : UringDriver R = record d { ring = first.1 } in
      let e = enter-Pushed d₁ in
      let d₂ = (enter kernel d₁).1 in
      let again = kernel.push d₂.ring entry in
      let now = ledger.push_owed d.ring entry in
      let then_ = ledger.push_owed d₂.ring entry in
      elim (Bool-cases first.0) [
        | inl fits ↦
            let count : owed first.1 ≡ owed d.ring + arms entry =
              now ∙ ap (λ b. owed d.ring + (if b then arms entry else 0)) fits in
            rw (fits, push_entry)
              (record { same_fleet = refl; same_back = refl; same_path = refl; more_owed = count })
        | inr full ↦
            let same : owed first.1 ≡ owed d.ring + 0 =
              now ∙ ap (λ b. owed d.ring + (if b then arms entry else 0)) full in
            elim (Result-cases (enter kernel d₁).0) [
              | inr (x, fails) ↦
                  rw (full, fails, push_entry)
                    (record {
                      same_fleet = e.same_fleet;
                      same_back = e.same_back;
                      same_path = e.same_path;
                      more_owed = omega (arith, e.more_owed, same);
                    })
              | inl (u, entered) ↦ elim (Bool-cases again.0) [
                | inl fits ↦
                    let count : owed again.1 ≡ owed d₂.ring + arms entry =
                      then_ ∙ ap (λ b. owed d₂.ring + (if b then arms entry else 0)) fits in
                    rw (full, entered, fits, push_entry)
                      (record {
                        same_fleet = e.same_fleet;
                        same_back = e.same_back;
                        same_path = e.same_path;
                        more_owed = omega (arith, e.more_owed, same, count);
                      })
                | inr still ↦
                    let count : owed again.1 ≡ owed d₂.ring + 0 =
                      then_ ∙ ap (λ b. owed d₂.ring + (if b then arms entry else 0)) still in
                    rw (full, entered, still, push_entry)
                      (record {
                        same_fleet = e.same_fleet;
                        same_back = e.same_back;
                        same_path = e.same_path;
                        more_owed = omega (arith, e.more_owed, same, count);
                      })
              ]
            ]
      ]

  -- Buffers are no recvs.
  abbrev pub view : UringDriver R → Fleet × List ℕ × RecvPath × ℕ
  view d = (d.uring.fleet, d.uring.back, d.uring.path, owed d.ring)

  provide-view :
      (first run : ℕ) (d : UringDriver R)
      → view (push_entry kernel (provide_buffers first run) d).1 ≡ view d
  provide-view first run d =
      let p = push_entry-Pushed (provide_buffers first run) d in
      by_answer (push_entry kernel (provide_buffers first run) d).0 p
    where
      d' : UringDriver R
      d' = (push_entry kernel (provide_buffers first run) d).1

      by_answer :
          (answer : Answer)
          → Pushed (pushed_by answer (provide_buffers first run)) d d'
          → view d' ≡ view d
      by_answer (ok u) p =
          let count : owed d'.ring ≡ owed d.ring = omega (arith, p.more_owed) in
          cc (p.same_fleet, p.same_back, p.same_path, count)
      by_answer (err e) p =
          let count : owed d'.ring ≡ owed d.ring = omega (arith, p.more_owed) in
          cc (p.same_fleet, p.same_back, p.same_path, count)

  pub hand_over-view :
      (sort : List ℕ → List ℕ) (base : ℕ) (d : UringDriver R) (back : List ℕ)
      → view (hand_over kernel sort base d back).1 ≡ view d
  unfolding hand_over provide_runs
  hand_over-view sort base d back = elim (Option-cases d.buf_ring) [
    | inr (ring, e) ↦ rw (e, hand_over) refl
    | inl e ↦
        rw (e, hand_over)
          (provide_fuel-keeps
            (λ t first run. push_entry kernel (provide_buffers (id16 first) (id16 run)) t) view
            (λ t first run. provide-view (id16 first) (id16 run) t) (suc (length (sort back))) d
            (sort back))
  ]
