-- ===== src/Afxdp/System/Kept.antt =====
-- What no step changes: how many slots there are, and how large.
use polaris_trade.Base.{ℕ, ◌-◌, ◌^◌, min, ◌≡◌, ◌∙◌, refl, List, [], ◌∷◌}
use polaris_trade.Afxdp.Ring.{consume}
use polaris_trade.Transport.Batch.{spare}
use polaris_trade.Afxdp.Ring.{Producer, Consumer}
use polaris_trade.Afxdp.Driver.{
  XdpDesc, Located, in_frame, truncated_in, foreign, locate, refill, Poll, collect_at, collect,
  collect_all, poll_round,
}
use polaris_trade.Afxdp.System.{
  System, Step, recycle, drain, frame_dropped, kernel_takes, kernel_gives, kernel_flags, initial,
  Reach, start, later,
}

abbrev pub Sizes : Type 0
Sizes = ℕ × ℕ × ℕ

abbrev sizes : Poll → Sizes
sizes s = (s.rings.frames, s.rings.frame_size, s.pool.stride)

abbrev pub sizes_of : System → Sizes
sizes_of s = (s.rings.frames, s.rings.frame_size, s.pool.stride)

sizes-collect_at : (s : Poll) (l : Located) → sizes (collect_at s l) ≡ sizes s
sizes-collect_at s (in_frame slot offset len) = refl
sizes-collect_at s (truncated_in slot) = refl
sizes-collect_at s foreign = refl

sizes-collect_all : (s : Poll) (ds : List XdpDesc) → sizes (collect_all s ds) ≡ sizes s
sizes-collect_all s [] = refl
sizes-collect_all s (d ∷ ds) =
    sizes-collect_all (collect s d) ds
    ∙ sizes-collect_at s (locate d.addr d.len s.rings.frame_size s.rings.frames)

poll_round-sizes : (s : Poll) → sizes (poll_round s).0 ≡ sizes s
unfolding poll_round
poll_round-sizes s =
    let (rx, passed) = consume s.rings.rx (min (spare s.out) (2 ^ 32 - 1)) in
    sizes-collect_all (record s { rings = record s.rings { rx = rx } }) passed

Step-sizes : {s t : System} → Step s t → sizes_of t ≡ sizes_of s
unfolding refill
Step-sizes recycle = refl
Step-sizes {s} (drain out pushed) =
    poll_round-sizes (record { rings = s.rings; pool = s.pool; out = out; pushed = pushed })
Step-sizes (frame_dropped before f after e) = refl
Step-sizes (kernel_takes addr rest e) = refl
Step-sizes (kernel_gives before addr after d e same lt) = refl
Step-sizes (kernel_flags flags) = refl

pub Reach-sizes :
    {fill : Producer ℕ} {rx : Consumer XdpDesc} {frames frame_size : ℕ} {s : System}
    → Reach (initial fill rx frames frame_size) s
    → sizes_of s ≡ (frames, frame_size, frame_size)
Reach-sizes start = refl
Reach-sizes (later r st) = Step-sizes st ∙ Reach-sizes r
