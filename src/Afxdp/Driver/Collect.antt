-- ===== src/Afxdp/Driver/Collect.antt =====
-- What the loop of `poll_frames` does with descriptors of known slots.
use polaris_trade.Base.{
  ℕ, ◌+◌, ◌/◌, ◌%◌, ◌^◌, ◌≤◌, ◌<◌, ◌≡◌, ◌∙◌, refl, List, [], ◌∷◌, arith, leb, if◌then◌else◌,
  Bool-cases, inl, inr, All, All-append,
}
use polaris_trade.Base.Weigh.{weigh, weigh-append}
use native.Mathlib.Nat.{mod-lt}
use polaris_trade.Transport.IndexPool.{IndexFrame}
use polaris_trade.Afxdp.Driver.{
  slot_at, XdpDesc, in_frame, truncated_in, locate, Rings, Poll, collect, collect_all,
}

-- The slots of a list of descriptors exist.
abbrev pub Known : Rings → List XdpDesc → Type 0
Known r ds = All (λ d. slot_at r d.addr < r.frames) ds

locate_known :
    (addr len frame_size frames : ℕ)
    → 0 < frame_size
    → frame_size < 2 ^ 32
    → frames < 2 ^ 32
    → addr / frame_size < frames
    → locate addr len frame_size frames ≡ (
        if leb (addr % frame_size + len) frame_size
        then in_frame (addr / frame_size) (addr % frame_size) len
        else truncated_in (addr / frame_size))
unfolding locate
locate_known addr len frame_size frames pos small few known = ground (arith, mod-lt addr pos)

-- From `s` to `t` the descriptors `ds` were collected, and nothing else has changed.
pub record Collects (s t : Poll) (ds : List XdpDesc) : Type 0 where
  pub same_fill : t.rings.fill ≡ s.rings.fill
  pub same_rx : t.rings.rx ≡ s.rings.rx
  pub same_frames : t.rings.frames ≡ s.rings.frames
  pub same_frame_size : t.rings.frame_size ≡ s.rings.frame_size
  pub same_freed : t.rings.freed ≡ s.rings.freed
  pub same_pool_freed : t.pool.freed ≡ s.pool.freed
  pub moved :
      (w : ℕ → ℕ)
      → weigh (λ f. w f.slot) t.pool.live + weigh w t.rings.free
        ≡ weigh (λ f. w f.slot) s.pool.live
          + weigh w s.rings.free
          + weigh (λ d. w (slot_at s.rings d.addr)) ds
  pub inside :
      All (λ f. f.offset + f.len ≤ s.rings.frame_size) s.pool.live
      → All (λ f. f.offset + f.len ≤ s.rings.frame_size) t.pool.live

collect_lem :
    (s : Poll) (d : XdpDesc)
    → 0 < s.rings.frame_size
    → s.rings.frame_size < 2 ^ 32
    → s.rings.frames < 2 ^ 32
    → slot_at s.rings d.addr < s.rings.frames
    → Collects s (collect s d) (d ∷ [])
collect_lem s d pos small few known =
    elim (Bool-cases (leb (d.addr % s.rings.frame_size + d.len) s.rings.frame_size)) [
      | inl whole ↦
          let f : IndexFrame = record {
            slot = slot_at s.rings d.addr;
            offset = d.addr % s.rings.frame_size;
            len = d.len;
          } in
          rw
            (locate_known d.addr d.len s.rings.frame_size s.rings.frames pos small few known, whole)
            (record {
              same_fill = refl;
              same_rx = refl;
              same_frames = refl;
              same_frame_size = refl;
              same_freed = refl;
              same_pool_freed = refl;
              moved = λ w.
                  omega (arith, weigh-append (λ (g : IndexFrame). w g.slot) s.pool.live (f ∷ []));
              inside = λ h. All-append _ s.pool.live (f ∷ []) h (ground arith, tt);
            })
      | inr cut ↦
          rw (locate_known d.addr d.len s.rings.frame_size s.rings.frames pos small few known, cut)
            (record {
              same_fill = refl;
              same_rx = refl;
              same_frames = refl;
              same_frame_size = refl;
              same_freed = refl;
              same_pool_freed = refl;
              moved = λ w. omega (arith, weigh-append w s.rings.free (slot_at s.rings d.addr ∷ []));
              inside = λ h. h;
            })
    ]

pub collect_all_lem :
    (s : Poll) (ds : List XdpDesc)
    → 0 < s.rings.frame_size
    → s.rings.frame_size < 2 ^ 32
    → s.rings.frames < 2 ^ 32
    → Known s.rings ds
    → Collects s (collect_all s ds) ds
collect_all_lem s [] pos small few known = record {
  same_fill = refl;
  same_rx = refl;
  same_frames = refl;
  same_frame_size = refl;
  same_freed = refl;
  same_pool_freed = refl;
  moved = λ w. omega arith;
  inside = λ h. h;
}
collect_all_lem s (d ∷ ds) pos small few known =
    let one = collect_lem s d pos small few known.0 in
    let size_kept = one.same_frame_size in
    let rest =
      collect_all_lem (collect s d) ds (rw size_kept pos) (rw size_kept small)
        (rw one.same_frames few) (rw (size_kept, one.same_frames) known.1) in
    record {
      same_fill = rest.same_fill ∙ one.same_fill;
      same_rx = rest.same_rx ∙ one.same_rx;
      same_frames = rest.same_frames ∙ one.same_frames;
      same_frame_size = rest.same_frame_size ∙ size_kept;
      same_freed = rest.same_freed ∙ one.same_freed;
      same_pool_freed = rest.same_pool_freed ∙ one.same_pool_freed;
      moved = λ w. omega (arith, rw size_kept at (rest.moved w), one.moved w);
      inside = λ h. rw size_kept at (rest.inside (rw size_kept (one.inside h)));
    }
