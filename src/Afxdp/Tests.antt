-- ===== src/Afxdp/Tests.antt =====
-- The receive path of crates/transports/afxdp on a pool of four frames of 2048 bytes.
use polaris_trade.Base.{
  ℕ, ◌-◌, ◌*◌, ◌^◌, ◌<◌, min, ◌≡◌, ◌⊎◌, refl, [], ◌∷◌, ◌++◌, arith, length, take, none, some,
}
use polaris_trade.Base.Result.{ok, err}
use polaris_trade.Transport.Error.{would_block}
use polaris_trade.Transport.Batch.{with_capacity, spare}
use polaris_trade.Transport.IndexPool.{IndexFrame}
use polaris_trade.Transport.Bypass.{frames}
use polaris_trade.Afxdp.Ring.{
  Ring, Producer, Consumer, new_producer, new_consumer, size, produce, consume, write_items,
  read_entries,
}
use polaris_trade.Afxdp.Ring.Contents.{contents, IsRing}
use polaris_trade.Afxdp.Ring.Refine.{IsProducer, IsConsumer, produce_lem, consume_lem}
use polaris_trade.Afxdp.Driver.{
  XdpDesc, in_frame, truncated_in, foreign, locate, refill, Poll, poll_round, poll_fuel,
  poll_frames,
}
use polaris_trade.Afxdp.Driver.Outcome.{Passes}
use polaris_trade.Afxdp.Driver.Ends.{poll_frames_lem}
use polaris_trade.Afxdp.Driver.Refill.{owed}
use polaris_trade.Afxdp.System.{
  System, initial, IsFresh, Reach, start, later, recycle, drain, kernel_takes, kernel_gives,
  recycled, drained, take_fill, put_rx,
}
use polaris_trade.Afxdp.System.Conserve.{Reach-Inv}
use polaris_trade.Afxdp.System.Owned.{copies, Owned, one_place, live_frame-Owned, recycle_hands_all}
use polaris_trade.Afxdp.Xsk.{XskDriver, XskSocket, poll_xsk, wake, answer_polled}
use polaris_trade.Afxdp.Xsk.Receive.{Received, poll_xsk_lem}

locate_results :
    (locate 4352 100 2048 4 ≡ in_frame 2 256 100)
    × (locate 4352 2000 2048 4 ≡ truncated_in 2)
    × (locate 8192 1 2048 4 ≡ foreign)
unfolding locate
locate_results = (refl, refl, refl)

-- Words about to wrap, with room for one entry.
abbrev full_ring : Producer ℕ
full_ring =
    new_producer
      (record { producer = 1; consumer = 0xffff_fffe; flags = 0; desc = λ i. i * 10; mask = 3 })

full_ring-IsRing : IsRing full_ring.ring
full_ring-IsRing = record {
  divides = ∣ (2 ^ 30, refl) ∣₁;
  larger = omega arith;
  producer_word = omega arith;
  consumer_word = omega arith;
  fits = omega arith;
}

produce_results :
    ((produce full_ring (7 ∷ 8 ∷ [])).1 ≡ 1)
    × (contents (produce full_ring (7 ∷ 8 ∷ [])).0.ring ≡ 20 ∷ 30 ∷ 0 ∷ 7 ∷ [])
unfolding produce write_items contents read_entries
produce_results = (refl, refl)

produce_example :
    let (p', written) = produce full_ring (7 ∷ 8 ∷ []) in
    (written ≡ min 2 (size full_ring.ring - length (contents full_ring.ring)))
    × (contents p'.ring ≡ contents full_ring.ring ++ take written (7 ∷ 8 ∷ []))
    × (size p'.ring ≡ size full_ring.ring)
    × IsProducer p'
produce_example =
    produce_lem full_ring (7 ∷ 8 ∷ []) (record { shared = full_ring-IsRing; published = refl })

abbrev ready_ring : Consumer ℕ
ready_ring = new_consumer full_ring.ring

consume_results :
    ((consume ready_ring 2).1 ≡ 20 ∷ 30 ∷ []) × (contents (consume ready_ring 2).0.ring ≡ 0 ∷ [])
unfolding consume contents read_entries
consume_results = (refl, refl)

consume_example :
    let (c', passed) = consume ready_ring 2 in
    (length passed ≡ min (length (contents ready_ring.ring)) 2)
    × (contents ready_ring.ring ≡ passed ++ contents c'.ring)
    × (size c'.ring ≡ size ready_ring.ring)
    × IsConsumer c'
consume_example = consume_lem ready_ring 2 (record { shared = full_ring-IsRing; released = refl })

-- The rings of a fresh socket.
abbrev empty_ring : {A : Type 0} → A → Ring A
empty_ring a = record { producer = 0; consumer = 0; flags = 1; desc = λ i. a; mask = 3 }

empty_ring-IsRing : {A : Type 0} (a : A) → IsRing (empty_ring a)
empty_ring-IsRing a = record {
  divides = ∣ (2 ^ 30, refl) ∣₁;
  larger = omega arith;
  producer_word = omega arith;
  consumer_word = omega arith;
  fits = omega arith;
}

abbrev blank : XdpDesc
blank = record { addr = 0; len = 0 }

abbrev fill_ring : Producer ℕ
fill_ring = new_producer (empty_ring 0)

abbrev rx_ring : Consumer XdpDesc
rx_ring = new_consumer (empty_ring blank)

fresh : IsFresh fill_ring rx_ring 4 2048
unfolding contents read_entries
fresh = record {
  fill_ring = record { shared = empty_ring-IsRing 0; published = refl };
  rx_ring = record { shared = empty_ring-IsRing blank; released = refl };
  fill_empty = refl;
  rx_empty = refl;
  fill_size = refl;
  rx_size = refl;
  some_bytes = omega arith;
  frame_size_word = omega arith;
}

abbrev opened : System
opened = initial fill_ring rx_ring 4 2048

-- The kernel takes slot 3, puts a datagram into it, and the driver hands it over.
abbrev given : XdpDesc
given = record { addr = 6400; len = 100 }

abbrev handed : IndexFrame
handed = record { slot = 3; offset = 256; len = 100 }

abbrev recycled_once : System
recycled_once = recycled opened

abbrev in_kernel : System
in_kernel = record recycled_once { rings = take_fill recycled_once.rings; held = 6144 ∷ [] }

abbrev received : System
received = record in_kernel { rings = put_rx in_kernel.rings given; held = [] }

abbrev delivered : System
delivered = drained received (with_capacity 8) 0

received-Reach : Reach opened received
unfolding refill produce write_items contents read_entries
received-Reach =
    later (later (later start recycle) (kernel_takes 6144 (4096 ∷ 2048 ∷ 0 ∷ []) refl))
      (kernel_gives [] 6144 [] given refl refl (omega arith))

delivered-Reach : Reach opened delivered
delivered-Reach = later received-Reach (drain (with_capacity 8) 0)

delivered_live : delivered.pool.live ≡ handed ∷ []
unfolding refill produce write_items poll_round consume read_entries locate
delivered_live = refl

one_place_example : copies 3 delivered ≡ 1
one_place_example = one_place fresh delivered-Reach 3

live_frame-Owned_example : Owned delivered handed []
live_frame-Owned_example = live_frame-Owned fresh delivered-Reach [] handed [] delivered_live

recycle_hands_all_example :
    (contents (recycled delivered).rings.fill.ring
      ≡ contents delivered.rings.fill.ring ++ owed delivered.rings delivered.pool)
    × ((recycled delivered).rings.free ≡ [])
    × ((recycled delivered).pool.freed ≡ [])
recycle_hands_all_example = recycle_hands_all fresh delivered-Reach

poll_frames_example :
    (t : Poll) × (poll_frames 2 received.rings received.pool (with_capacity 8) ≡ some t)
    × Passes
        (record { rings = received.rings; pool = received.pool; out = with_capacity 8; pushed = 0 })
        t
    × ((0 < t.pushed) ⊎ (spare t.out ≡ 0) ⊎ (contents t.rings.rx.ring ≡ []))
unfolding contents read_entries refill produce write_items
poll_frames_example =
    poll_frames_lem 2 received.rings received.pool (with_capacity 8)
      (Reach-Inv fresh received-Reach).rx_ring (omega arith) (omega arith)

-- A socket whose every wakeup would block.
abbrev quiet : XskSocket (Unit {0})
quiet = record {
  kick = λ u. (err (record { kind = would_block; raw_os_error = some 11 }), u);
  statistics = λ u. none;
}

abbrev received_driver : XskDriver (Unit {0})
received_driver = record {
  rings = received.rings;
  socket = tt;
  pool = received.pool;
  syscalls = 0;
  kernel = record { rx_dropped = 0; rx_ring_full = 0 };
}

poll_xsk_results :
    ((poll_xsk quiet received_driver (with_capacity 8)).0 ≡ ok (frames 1))
    × ((poll_xsk quiet received_driver (with_capacity 8)).2.frames ≡ handed ∷ [])
unfolding poll_xsk answer_polled wake refill produce write_items poll_fuel poll_round consume
    read_entries locate
poll_xsk_results = (refl, refl)

poll_xsk_example :
    let (answer, d', out') = poll_xsk quiet received_driver (with_capacity 8) in
    Reach opened (record { rings = d'.rings; pool = d'.pool; held = [] })
    × Received (Unit {0}) (with_capacity 8) answer d' out'
unfolding refill
poll_xsk_example =
    poll_xsk_lem quiet received_driver [] (with_capacity 8) fresh received-Reach (omega arith)
