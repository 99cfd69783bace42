-- ===== src/Afxdp/System/Conserve.antt =====
-- Every step keeps each slot in one place.
use polaris_trade.Base.{
  ℕ, ◌<◌, ◌≡◌, refl, ap, List, [], ◌∷◌, ◌++◌, arith, length, All-append, All-append_left,
  All-append_right,
}
use polaris_trade.Base.Weigh.{weigh, weigh-append}
use polaris_trade.Transport.IndexPool.{IndexFrame, drop_frame}
use polaris_trade.Afxdp.Ring.{Producer, Consumer, size}
use polaris_trade.Afxdp.Ring.Contents.{contents}
use polaris_trade.Afxdp.Driver.{slot_at, XdpDesc}
use polaris_trade.Afxdp.Ring.Peer.{peer_release, peer_publish, peer_flags}
use polaris_trade.Afxdp.System.{
  System, take_fill, put_rx, set_flags, Step, recycle, drain, frame_dropped, kernel_takes,
  kernel_gives, kernel_flags, Reach, start, later, initial, IsFresh,
}
use polaris_trade.Afxdp.System.Invariant.{Inv, Inv-recycled, Inv-drained}

Inv-drop :
    {s : System} (before : List IndexFrame) (f : IndexFrame) (after : List IndexFrame)
    → s.pool.live ≡ before ++ (f ∷ after)
    → Inv s
    → Inv (record s { pool = drop_frame s.pool f (before ++ after) })
Inv-drop {s} before f after e v = record {
  fill_ring = v.fill_ring;
  rx_ring = v.rx_ring;
  fill_size = v.fill_size;
  rx_size = v.rx_size;
  some_bytes = v.some_bytes;
  frame_size_word = v.frame_size_word;
  nothing_freed = v.nothing_freed;
  inside =
      let h = rw e at v.inside in
      All-append _ before after (All-append_left _ before (f ∷ after) h)
        (All-append_right _ before (f ∷ after) h).1;
  conserved = λ w. omega (
    arith,
    v.conserved w,
    ap (weigh (λ (g : IndexFrame). w g.slot)) e,
    weigh-append (λ (g : IndexFrame). w g.slot) before (f ∷ after),
    weigh-append (λ (g : IndexFrame). w g.slot) before after,
    weigh-append w s.pool.freed (f.slot ∷ []),
  );
}

Inv-takes :
    {s : System} (addr : ℕ) (rest : List ℕ)
    → contents s.rings.fill.ring ≡ addr ∷ rest
    → Inv s
    → Inv (record s { rings = take_fill s.rings; held = addr ∷ s.held })
Inv-takes {s} addr rest e v =
    let (ring, left) = peer_release s.rings.fill addr rest v.fill_ring e in
    record {
      fill_ring = ring;
      rx_ring = v.rx_ring;
      fill_size = v.fill_size;
      rx_size = v.rx_size;
      some_bytes = v.some_bytes;
      frame_size_word = v.frame_size_word;
      nothing_freed = v.nothing_freed;
      inside = v.inside;
      conserved = λ w. omega (
        arith,
        v.conserved w,
        ap (weigh (λ a. w (slot_at s.rings a))) e,
        ap (weigh (λ a. w (slot_at s.rings a))) left,
      );
    }

Inv-gives :
    {s : System} (before : List ℕ) (addr : ℕ) (after : List ℕ) (d : XdpDesc)
    → s.held ≡ before ++ (addr ∷ after)
    → slot_at s.rings d.addr ≡ slot_at s.rings addr
    → length (contents s.rings.rx.ring) < size s.rings.rx.ring
    → Inv s
    → Inv (record s { rings = put_rx s.rings d; held = before ++ after })
Inv-gives {s} before addr after d e same lt v =
    let (ring, more) = peer_publish s.rings.rx d v.rx_ring lt in
    let at = λ (a : ℕ). slot_at s.rings a in
    record {
      fill_ring = v.fill_ring;
      rx_ring = ring;
      fill_size = v.fill_size;
      rx_size = v.rx_size;
      some_bytes = v.some_bytes;
      frame_size_word = v.frame_size_word;
      nothing_freed = v.nothing_freed;
      inside = v.inside;
      conserved = λ w. omega (
        arith,
        v.conserved w,
        ap (weigh (λ a. w (slot_at s.rings a))) e,
        weigh-append (λ a. w (slot_at s.rings a)) before (addr ∷ after),
        weigh-append (λ a. w (slot_at s.rings a)) before after,
        ap (weigh (λ (c : XdpDesc). w (slot_at s.rings c.addr))) more,
        weigh-append (λ (c : XdpDesc). w (slot_at s.rings c.addr)) (contents s.rings.rx.ring)
            (d ∷ []),
        ap w same,
      );
    }

Inv-flags : {s : System} (flags : ℕ) → Inv s → Inv (record s { rings = set_flags s.rings flags })
Inv-flags {s} flags v =
    let (ring, same) = peer_flags s.rings.fill flags v.fill_ring in
    record {
      fill_ring = ring;
      rx_ring = v.rx_ring;
      fill_size = v.fill_size;
      rx_size = v.rx_size;
      some_bytes = v.some_bytes;
      frame_size_word = v.frame_size_word;
      nothing_freed = v.nothing_freed;
      inside = v.inside;
      conserved = λ w. omega (arith, v.conserved w, ap (weigh (λ a. w (slot_at s.rings a))) same);
    }

pub Step-Inv : {s t : System} → Step s t → Inv s → Inv t
Step-Inv recycle v = Inv-recycled v
Step-Inv (drain out pushed) v = Inv-drained out pushed v
Step-Inv (frame_dropped before f after e) v = Inv-drop before f after e v
Step-Inv (kernel_takes addr rest e) v = Inv-takes addr rest e v
Step-Inv (kernel_gives before addr after d e same lt) v = Inv-gives before addr after d e same lt v
Step-Inv (kernel_flags flags) v = Inv-flags flags v

initial-Inv :
    (fill : Producer ℕ) (rx : Consumer XdpDesc) (frames frame_size : ℕ)
    → IsFresh fill rx frames frame_size
    → Inv (initial fill rx frames frame_size)
initial-Inv fill rx frames frame_size v = record {
  fill_ring = v.fill_ring;
  rx_ring = v.rx_ring;
  fill_size = v.fill_size;
  rx_size = v.rx_size;
  some_bytes = v.some_bytes;
  frame_size_word = v.frame_size_word;
  nothing_freed = refl;
  inside = tt;
  conserved = λ w. rw (v.fill_empty, v.rx_empty) (omega arith);
}

pub Reach-Inv :
    {fill : Producer ℕ} {rx : Consumer XdpDesc} {frames frame_size : ℕ} {s : System}
    → IsFresh fill rx frames frame_size
    → Reach (initial fill rx frames frame_size) s
    → Inv s
Reach-Inv {fill} {rx} {frames} {frame_size} v start = initial-Inv fill rx frames frame_size v
Reach-Inv v (later r st) = Step-Inv st (Reach-Inv v r)
