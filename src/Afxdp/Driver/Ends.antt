-- ===== src/Afxdp/Driver/Ends.antt =====
-- The loop of `poll_frames`: it ends, and only for a reason.
use polaris_trade.Base.{
  ℕ, zero, suc, ◌+◌, ◌^◌, ◌≤◌, ◌<◌, ◌≡◌, ◌⊎◌, ◌∙◌, refl, sym, ap, ◌||◌, some, List, [], ◌∷◌, ◌++◌,
  arith, ltb, ◌==◌, length, Bool-cases, inl, inr, length-append,
}
use mathlib.Core.List.{append_assoc}
use polaris_trade.Transport.Batch.{FrameBatch, spare}
use polaris_trade.Transport.IndexPool.{IndexFrame, IndexPool}
use polaris_trade.Afxdp.Ring.Contents.{contents}
use polaris_trade.Afxdp.Ring.Refine.{IsConsumer}
use polaris_trade.Afxdp.Driver.{XdpDesc, Rings, Poll, poll_round, poll_fuel, poll_frames}
use polaris_trade.Afxdp.Driver.Outcome.{framed, Moves-trans, Passes, round_lem, framed-append}

-- Why the loop ends.
abbrev pub Done : Poll → Type 0
Done t = (0 < t.pushed) ⊎ (spare t.out ≡ 0) ⊎ (contents t.rings.rx.ring ≡ [])

Passes-trans : {s t u : Poll} → Passes s t → Passes t u → Passes s u
Passes-trans {s} {t} {u} a b = record {
  passed = a.passed ++ b.passed;
  split =
      a.split
      ∙ ap (λ ds. a.passed ++ ds) b.split
      ∙ sym (append_assoc a.passed b.passed (contents u.rings.rx.ring));
  moves = Moves-trans a.moves b.moves;
  rx_ring = b.rx_ring;
  fits = omega (
    arith,
    a.fits,
    rw (a.moves.same_frame_size, a.moves.same_frames) at b.fits,
    a.moves.same_cap,
    ap length a.moves.pushes,
    length-append s.out.frames (framed s.rings.frame_size s.rings.frames a.passed),
    ap length (framed-append s.rings.frame_size s.rings.frames a.passed b.passed),
    length-append (framed s.rings.frame_size s.rings.frames a.passed)
        (framed s.rings.frame_size s.rings.frames b.passed),
  );
}

length-zero : (ds : List XdpDesc) → length ds ≡ 0 → ds ≡ []
length-zero [] e = refl
length-zero (d ∷ ds) e = absurd (omega arith)

length-Done :
    (t : Poll)
    → (0 < t.pushed) ⊎ (spare t.out ≡ 0) ⊎ (length (contents t.rings.rx.ring) ≡ 0)
    → Done t
length-Done t (inl pushed) = inl pushed
length-Done t (inr (inl full)) = inr (inl full)
length-Done t (inr (inr e)) = inr (inr (length-zero (contents t.rings.rx.ring) e))

-- What a round leaves on the ring, and of the room.
Passes-lengths :
    {s t : Poll} (p : Passes s t)
    → (length (contents s.rings.rx.ring) ≡ length p.passed + length (contents t.rings.rx.ring))
      × (spare t.out ≤ spare s.out)
Passes-lengths {s} {t} p = (
  ap length p.split ∙ length-append p.passed (contents t.rings.rx.ring),
  omega (
    arith,
    p.moves.same_cap,
    ap length p.moves.pushes,
    length-append s.out.frames (framed s.rings.frame_size s.rings.frames p.passed),
  ),
)

poll_fuel_lem :
    (fuel : ℕ) (s : Poll)
    → IsConsumer s.rings.rx
    → s.rings.truncated < 2 ^ 64
    → length (contents s.rings.rx.ring) < fuel
    → (t : Poll) × (poll_fuel fuel s ≡ some t) × Passes s t × Done t
unfolding poll_fuel
poll_fuel_lem zero s v lt enough = absurd (omega arith)
poll_fuel_lem (suc fuel) s v lt enough =
    let (p, count, taken) = round_lem s v lt in
    let t = (poll_round s).0 in
    elim (Bool-cases ((poll_round s).1 == 0 || ltb 0 t.pushed || (spare t.out == 0))) [
      | inl done ↦
          rw (done, poll_fuel)
            (
              t,
              refl,
              p,
              length-Done t
                  (ground (arith, count, taken, (Passes-lengths p).0, (Passes-lengths p).1)),
            )
      | inr more ↦
          let (u, e, q, why) =
            poll_fuel_lem fuel t p.rx_ring (omega (arith, p.moves.drops))
              (ground (arith, count, (Passes-lengths p).0)) in
          rw (more, poll_fuel) (u, e, Passes-trans p q, why)
    ]

-- `poll_frames` ends within one round for each descriptor on the receive ring and one more. It takes the
-- oldest descriptors, in order and once each, and leaves the others. It pushes the frames in those it
-- takes, no more than there is room for, and counts each other one as truncated; it stops only when it has pushed a
-- frame, when the room is used up or when the ring is empty, so that it never looks idle while more wait.
pub poll_frames_lem :
    (fuel : ℕ) (r : Rings) (pool : IndexPool) (out : FrameBatch IndexFrame)
    → IsConsumer r.rx
    → r.truncated < 2 ^ 64
    → length (contents r.rx.ring) < fuel
    → (t : Poll) × (poll_frames fuel r pool out ≡ some t)
      × Passes (record { rings = r; pool = pool; out = out; pushed = 0 }) t
      × ((0 < t.pushed) ⊎ (spare t.out ≡ 0) ⊎ (contents t.rings.rx.ring ≡ []))
poll_frames_lem fuel r pool out v lt enough =
    poll_fuel_lem fuel (record { rings = r; pool = pool; out = out; pushed = 0 }) v lt enough
