-- ===== src/Afxdp/Xsk/Receive.antt =====
-- A whole `poll_frames` of the driver, as the shell above it sees it.
use polaris_trade.Base.{
  ℕ, zero, suc, ◌^◌, ◌≤◌, ◌<◌, ◌≡◌, ◌⊎◌, refl, subst, true, false, ◌||◌, some, List, [], ◌∷◌, ◌++◌,
  arith, ltb, ◌==◌, length, Bool-cases, inl, inr,
}
use polaris_trade.Base.Result.{Result, ok, err, Result-cases}
use polaris_trade.Transport.Error.{TransportError}
use polaris_trade.Transport.Batch.{FrameBatch, spare}
use polaris_trade.Transport.IndexPool.{IndexFrame, IndexPool}
use polaris_trade.Transport.Bypass.{Polled, frames, idle, exhausted}
use polaris_trade.Afxdp.Ring.{Producer, Consumer, needs_wakeup}
use polaris_trade.Afxdp.Ring.Contents.{contents, pending}
use polaris_trade.Afxdp.Ring.Refine.{length-contents}
use polaris_trade.Afxdp.Driver.{XdpDesc, Rings, Poll, refill, poll_round, poll_fuel}
use polaris_trade.Afxdp.Driver.Outcome.{framed}
use polaris_trade.Afxdp.Driver.Ends.{poll_frames_lem}
use polaris_trade.Afxdp.System.{System, recycle, drain, initial, IsFresh, Reach, later}
use polaris_trade.Afxdp.System.Conserve.{Reach-Inv}
use polaris_trade.Afxdp.Xsk.{
  XskDriver, XskSocket, is_transient, is_busy, wake, answer_polled, poll_xsk,
}

-- The kernel and the frames beside what the loop works on.
abbrev pub beside : Poll → List ℕ → System
beside p held = record { rings = p.rings; pool = p.pool; held = held }

-- The loop is rounds, one after another.
poll_fuel-Reach :
    {s : System} (fuel : ℕ) (p t : Poll) (held : List ℕ)
    → Reach s (beside p held)
    → poll_fuel fuel p ≡ some t
    → Reach s (beside t held)
unfolding poll_fuel
poll_fuel-Reach zero p t held r e = absurd (cc e)
poll_fuel-Reach {s} (suc fuel) p t held r e =
    let (p', taken) = poll_round p in
    let next : Reach s (beside p' held) = later r (drain p.out p.pushed) in
    elim (Bool-cases (taken == 0 || ltb 0 p'.pushed || (spare p'.out == 0))) [
      | inl done ↦
          let same : p' ≡ t = cc (rw (done, poll_fuel) at e) in
          subst (λ q. Reach s (beside q held)) same next
      | inr more ↦ poll_fuel-Reach fuel p' t held next (rw (more, poll_fuel) at e)
    ]

-- What an answer says, when `more` is what was pushed.
abbrev pub Answers :
    Result TransportError Polled → List IndexFrame → FrameBatch IndexFrame → Rings → Type 0
Answers (ok (frames n)) more out r = (0 < n) × (n ≡ length more)
Answers (ok idle) more out r = (more ≡ []) × ((spare out ≡ 0) ⊎ (contents r.rx.ring ≡ []))
Answers (ok exhausted) more out r = ⊥
Answers (err e) more out r = (more ≡ []) × (needs_wakeup r.fill ≡ true)

pub record Received (S : Type 0) (out : FrameBatch IndexFrame)
    (answer : Result TransportError Polled) (d : XskDriver S) (out' : FrameBatch IndexFrame)
    : Type 0 where
  pub more : List IndexFrame
  pub pushes : out'.frames ≡ out.frames ++ more
  pub room : length more ≤ spare out
  pub answers : Answers answer more out' d.rings

length-zero : (fs : List IndexFrame) → length fs ≡ 0 → fs ≡ []
length-zero [] e = refl
length-zero (f ∷ fs) e = absurd (omega arith)

unless : {P : Type 0} (n : ℕ) → ltb 0 n ≡ false → (0 < n) ⊎ P → P
unless n e (inl lt) = absurd (ground arith)
unless n e (inr p) = p

refill-truncated : (r : Rings) (pool : IndexPool) → (refill r pool).0.truncated ≡ r.truncated
unfolding refill
refill-truncated r pool = refl

module _ {S : Type 0} (sock : XskSocket S) where
  -- `wake` touches neither rings nor pool.
  wake-rings :
      (d : XskDriver S) → ((wake sock d).1.rings ≡ d.rings) × ((wake sock d).1.pool ≡ d.pool)
  unfolding wake
  wake-rings d = elim (Result-cases (sock.kick d.socket).0) [
    | inl (u, e) ↦ rw (e, wake) (refl, refl)
    | inr (x, e) ↦ elim (Bool-cases (is_transient x.kind || is_busy x.raw_os_error)) [
      | inl calm ↦ rw (e, calm, wake) (refl, refl)
      | inr bad ↦ rw (e, bad, wake) (refl, refl)
    ]
  ]

  answer_lem :
      (d : XskDriver S) (more : List IndexFrame) (out : FrameBatch IndexFrame) (pushed : ℕ)
      → pushed ≡ length more
      → (0 < pushed) ⊎ (spare out ≡ 0) ⊎ (contents d.rings.rx.ring ≡ [])
      → let (answer, d') = answer_polled sock d pushed in
        (d'.rings ≡ d.rings) × (d'.pool ≡ d.pool) × Answers answer more out d'.rings
  unfolding answer_polled
  answer_lem d more out pushed e why = elim (Bool-cases (ltb 0 pushed)) [
    | inl sent ↦ rw (sent, answer_polled) (refl, refl, (ground arith, e))
    | inr unsent ↦
        let nothing = length-zero more (ground arith) in
        let w = wake-rings d in
        elim (Bool-cases (needs_wakeup d.rings.fill)) [
          | inr calm ↦
              rw (unsent, calm, answer_polled) (refl, refl, (nothing, unless pushed unsent why))
          | inl asked ↦ elim (Result-cases (wake sock d).0) [
            | inl (u, k) ↦
                rw (unsent, asked, k, answer_polled)
                  (w.0, w.1, (nothing, rw w.0 (unless pushed unsent why)))
            | inr (x, k) ↦ rw (unsent, asked, k, answer_polled) (w.0, w.1, (nothing, rw w.0 asked))
          ]
        ]
  ]

  -- On a driver that an opened socket can come to, whatever the kernel and the holders of frames have done: `poll_frames` is steps of the
  -- system, so that what holds in all its states holds behind it. It pushes frames only behind those that
  -- the batch has, and no more than there is room for. It answers their count if it pushed one; that
  -- it is idle only if the ring is empty or the batch full; an error only if it pushed none and the ring
  -- asked to be woken; that the pool is exhausted never.
  pub poll_xsk_lem :
      {fill : Producer ℕ} {rx : Consumer XdpDesc} {size n : ℕ} (d : XskDriver S) (held : List ℕ)
      (out : FrameBatch IndexFrame)
      → IsFresh fill rx n size
      → Reach (initial fill rx n size) (record { rings = d.rings; pool = d.pool; held = held })
      → d.rings.truncated < 2 ^ 64
      → let (answer, d', out') = poll_xsk sock d out in
        Reach (initial fill rx n size) (record { rings = d'.rings; pool = d'.pool; held = held })
        × Received S out answer d' out'
  unfolding poll_xsk
  poll_xsk_lem d held out fresh r lt =
      let (rings, pool) = refill d.rings d.pool in
      let recycled_r = later r recycle in
      let (t, e, p, why) =
        poll_frames_lem (suc (pending rings.rx.ring)) rings pool out
          (Reach-Inv fresh recycled_r).rx_ring (rw (refill-truncated d.rings d.pool) lt)
          (omega (arith, length-contents rings.rx.ring)) in
      let more = framed rings.frame_size rings.frames p.passed in
      let a =
        answer_lem (record d { rings = t.rings; pool = t.pool }) more t.out t.pushed
          (omega (arith, p.moves.counts)) why in
      let loop =
        poll_fuel-Reach (suc (pending rings.rx.ring))
          (record { rings = rings; pool = pool; out = out; pushed = 0 }) t held recycled_r e in
      rw (e, poll_xsk)
        (
          rw (a.0, a.1) loop,
          record { more = more; pushes = p.moves.pushes; room = p.fits; answers = a.2 },
        )
