-- ===== src/Afxdp/Driver/Outcome.antt =====
-- `poll_frames` of `Rings`: it ends, and what it hands over.
use polaris_trade.Base.{
  ℕ, ◌+◌, ◌-◌, ◌%◌, ◌^◌, ◌≤◌, ◌<◌, min, ◌≡◌, ◌∙◌, refl, sym, ap, List, [], ◌∷◌, ◌++◌, arith, length,
  length-append,
}
use mathlib.Core.List.{append-nil, append_assoc}
use polaris_trade.Transport.Batch.{spare}
use polaris_trade.Transport.IndexPool.{IndexFrame}
use polaris_trade.Afxdp.Ring.{Consumer, consume, size}
use polaris_trade.Afxdp.Ring.Contents.{contents}
use polaris_trade.Afxdp.Ring.Refine.{IsConsumer, consume_lem}
use polaris_trade.Afxdp.Driver.{
  XdpDesc, Located, in_frame, truncated_in, foreign, locate, Poll, collect_at, collect, collect_all,
  poll_round,
}

-- The frames in these descriptors, in order.
abbrev pub frame_at : Located → List IndexFrame
frame_at (in_frame slot offset len) = record { slot = slot; offset = offset; len = len } ∷ []
frame_at (truncated_in slot) = []
frame_at foreign = []

abbrev pub framed : (frame_size frames : ℕ) → List XdpDesc → List IndexFrame
framed size n [] = []
framed size n (d ∷ ds) = frame_at (locate d.addr d.len size n) ++ framed size n ds

pub record Moves (s t : Poll) (ds : List XdpDesc) : Type 0 where
  pub pushes : t.out.frames ≡ s.out.frames ++ framed s.rings.frame_size s.rings.frames ds
  pub counts : t.pushed ≡ s.pushed + length (framed s.rings.frame_size s.rings.frames ds)
  pub drops :
      t.rings.truncated
      ≡ (s.rings.truncated + (length ds - length (framed s.rings.frame_size s.rings.frames ds)))
        % 2 ^ 64
  pub fewer : length (framed s.rings.frame_size s.rings.frames ds) ≤ length ds
  pub same_cap : t.out.cap ≡ s.out.cap
  pub same_frames : t.rings.frames ≡ s.rings.frames
  pub same_frame_size : t.rings.frame_size ≡ s.rings.frame_size

collect_at_lem :
    (s : Poll) (d : XdpDesc) (l : Located)
    → locate d.addr d.len s.rings.frame_size s.rings.frames ≡ l
    → s.rings.truncated < 2 ^ 64
    → Moves s (collect s d) (d ∷ [])
collect_at_lem s d (in_frame slot offset len) e lt =
    let fr : framed s.rings.frame_size s.rings.frames (d ∷ [])
        ≡ frame_at (in_frame slot offset len) ++ [] =
      ap (λ x. frame_at x ++ []) e in
    rw e (record {
      pushes = ap (λ fs. s.out.frames ++ fs) (sym fr);
      counts = omega (arith, ap length fr);
      drops = omega (arith, ap length fr);
      fewer = omega (arith, ap length fr);
      same_cap = refl;
      same_frames = refl;
      same_frame_size = refl;
    })
collect_at_lem s d (truncated_in slot) e lt =
    let fr : framed s.rings.frame_size s.rings.frames (d ∷ [])
        ≡ frame_at (truncated_in slot) ++ [] =
      ap (λ x. frame_at x ++ []) e in
    rw e (record {
      pushes = sym (append-nil _) ∙ ap (λ fs. s.out.frames ++ fs) (sym fr);
      counts = omega (arith, ap length fr);
      drops = omega (arith, ap length fr);
      fewer = omega (arith, ap length fr);
      same_cap = refl;
      same_frames = refl;
      same_frame_size = refl;
    })
collect_at_lem s d foreign e lt =
    let fr : framed s.rings.frame_size s.rings.frames (d ∷ []) ≡ frame_at foreign ++ [] =
      ap (λ x. frame_at x ++ []) e in
    rw e (record {
      pushes = sym (append-nil _) ∙ ap (λ fs. s.out.frames ++ fs) (sym fr);
      counts = omega (arith, ap length fr);
      drops = omega (arith, ap length fr);
      fewer = omega (arith, ap length fr);
      same_cap = refl;
      same_frames = refl;
      same_frame_size = refl;
    })

pub framed-append :
    (size n : ℕ) (ds es : List XdpDesc)
    → framed size n (ds ++ es) ≡ framed size n ds ++ framed size n es
framed-append size n [] es = refl
framed-append size n (d ∷ ds) es =
    ap (λ fs. frame_at (locate d.addr d.len size n) ++ fs) (framed-append size n ds es)
    ∙ sym
        (append_assoc (frame_at (locate d.addr d.len size n)) (framed size n ds) (framed size n es))

pub Moves-trans :
    {s t u : Poll} {ds es : List XdpDesc} → Moves s t ds → Moves t u es → Moves s u (ds ++ es)
Moves-trans {s} {t} {u} {ds} {es} a b = record {
  pushes =
      same_pushes
      ∙ ap (λ fs. fs ++ framed size n es) a.pushes
      ∙ append_assoc s.out.frames (framed size n ds) (framed size n es)
      ∙ ap (λ fs. s.out.frames ++ fs) (sym (framed-append size n ds es));
  counts = omega (arith, a.counts, same_counts, split);
  drops = omega (arith, a.drops, same_drops, split, a.fewer, same_fewer, length-append ds es);
  fewer = omega (arith, a.fewer, same_fewer, split, length-append ds es);
  same_cap = b.same_cap ∙ a.same_cap;
  same_frames = b.same_frames ∙ a.same_frames;
  same_frame_size = b.same_frame_size ∙ a.same_frame_size;
}
  where
    size : ℕ
    size = s.rings.frame_size

    n : ℕ
    n = s.rings.frames

    same_pushes : u.out.frames ≡ t.out.frames ++ framed size n es
    same_pushes = rw (← a.same_frame_size, ← a.same_frames) b.pushes

    same_counts : u.pushed ≡ t.pushed + length (framed size n es)
    same_counts = rw (← a.same_frame_size, ← a.same_frames) b.counts

    same_drops :
        u.rings.truncated ≡ (t.rings.truncated + (length es - length (framed size n es))) % 2 ^ 64
    same_drops = rw (← a.same_frame_size, ← a.same_frames) b.drops

    same_fewer : length (framed size n es) ≤ length es
    same_fewer = rw (← a.same_frame_size, ← a.same_frames) b.fewer

    split :
        length (framed size n (ds ++ es)) ≡ length (framed size n ds) + length (framed size n es)
    split =
        ap length (framed-append size n ds es) ∙ length-append (framed size n ds) (framed size n es)

collect_all-Moves :
    (s : Poll) (ds : List XdpDesc) → s.rings.truncated < 2 ^ 64 → Moves s (collect_all s ds) ds
collect_all-Moves s [] lt = record {
  pushes = sym (append-nil _);
  counts = omega arith;
  drops = omega arith;
  fewer = omega arith;
  same_cap = refl;
  same_frames = refl;
  same_frame_size = refl;
}
collect_all-Moves s (d ∷ ds) lt =
    let one = collect_at_lem s d (locate d.addr d.len s.rings.frame_size s.rings.frames) refl lt in
    Moves-trans one (collect_all-Moves (collect s d) ds (omega (arith, one.drops)))

collect_at-rx : (s : Poll) (l : Located) → (collect_at s l).rings.rx ≡ s.rings.rx
collect_at-rx s (in_frame slot offset len) = refl
collect_at-rx s (truncated_in slot) = refl
collect_at-rx s foreign = refl

collect_all-rx : (s : Poll) (ds : List XdpDesc) → (collect_all s ds).rings.rx ≡ s.rings.rx
collect_all-rx s [] = refl
collect_all-rx s (d ∷ ds) =
    collect_all-rx (collect s d) ds
    ∙ collect_at-rx s (locate d.addr d.len s.rings.frame_size s.rings.frames)

-- What rounds from `s` to `t` have passed on, in order and once each, and the frames among it.
pub record Passes (s t : Poll) : Type 0 where
  pub passed : List XdpDesc
  pub split : contents s.rings.rx.ring ≡ passed ++ contents t.rings.rx.ring
  pub moves : Moves s t passed
  pub rx_ring : IsConsumer t.rings.rx
  pub fits : length (framed s.rings.frame_size s.rings.frames passed) ≤ spare s.out

pub round_lem :
    (s : Poll)
    → IsConsumer s.rings.rx
    → s.rings.truncated < 2 ^ 64
    → (p : Passes s (poll_round s).0) × ((poll_round s).1 ≡ length p.passed)
      × (length p.passed ≡ min (length (contents s.rings.rx.ring)) (min (spare s.out) (2 ^ 32 - 1)))
unfolding poll_round
round_lem s v lt = (
  record {
    passed = passed;
    split = c.1 ∙ ap (λ (r : Consumer XdpDesc). passed ++ contents r.ring) (sym rx_kept);
    moves = record {
      pushes = m.pushes;
      counts = m.counts;
      drops = m.drops;
      fewer = m.fewer;
      same_cap = m.same_cap;
      same_frames = m.same_frames;
      same_frame_size = m.same_frame_size;
    };
    rx_ring = rw rx_kept c.3;
    fits = omega (arith, m.fewer, c.0);
  },
  refl,
  c.0,
)
  where
    passed : List XdpDesc
    passed = (consume s.rings.rx (min (spare s.out) (2 ^ 32 - 1))).1

    s' : Poll
    s' = record s {
      rings = record s.rings { rx = (consume s.rings.rx (min (spare s.out) (2 ^ 32 - 1))).0 };
    }

    c :
        (length passed ≡ min (length (contents s.rings.rx.ring)) (min (spare s.out) (2 ^ 32 - 1)))
        × (contents s.rings.rx.ring ≡ passed ++ contents s'.rings.rx.ring)
        × (size s'.rings.rx.ring ≡ size s.rings.rx.ring)
        × IsConsumer s'.rings.rx
    c = consume_lem s.rings.rx (min (spare s.out) (2 ^ 32 - 1)) v

    m : Moves s' (collect_all s' passed) passed
    m = collect_all-Moves s' passed lt

    rx_kept : (collect_all s' passed).rings.rx ≡ s'.rings.rx
    rx_kept = collect_all-rx s' passed
