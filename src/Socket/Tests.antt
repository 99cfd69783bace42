-- ===== src/Socket/Tests.antt =====
-- A socket that holds a short datagram, one too long for a slab, another short one, and then fails.
use polaris_trade.Base.{ℕ, ◌<◌, ◌≡◌, ◌⊎◌, refl, Option, none, some, List, [], ◌∷◌, length, arith}
use polaris_trade.Base.Result.{Result, ok, err}
use polaris_trade.Transport.Error.{
  SocketAddr, v4, would_block, other_kind, IoError, TransportError, io,
}
use polaris_trade.Transport.Batch.{FrameBatch, with_capacity}
use polaris_trade.Transport.VecPool.{VecPool, new_vec_pool}
use polaris_trade.Socket.{UdpFrame, Burst, UdpSocket, stop, datagram, burst_fuel, burst, recv_burst}
use polaris_trade.Socket.Delivered.{Datagram}
use polaris_trade.Socket.Outcome.{Outcome}
use polaris_trade.Socket.Received.{burst_lem}

abbrev Queue : Type 0
Queue = List (Result IoError Datagram)

abbrev blocked : IoError
blocked = record { kind = would_block; raw_os_error = none }

abbrev refused : IoError
refused = record { kind = other_kind 111; raw_os_error = none }

abbrev take_next : Queue → Result IoError Datagram × Queue
take_next [] = (err blocked, [])
take_next (x ∷ xs) = (x, xs)

abbrev peek_next : Queue → Result IoError (Unit {0}) × Queue
peek_next [] = (err blocked, [])
peek_next (x ∷ xs) = (ok tt, x ∷ xs)

take_next-shorter :
    (s : Queue) (d : Datagram) → (take_next s).0 ≡ ok d → length (take_next s).1 < length s
take_next-shorter [] d e = absurd (cc e)
take_next-shorter (x ∷ xs) d e = omega arith

abbrev peer : SocketAddr
peer = record { ip = v4 7; port = 9 }

abbrev queue : Queue
queue =
    ok (1 ∷ 2 ∷ [], some peer)
    ∷ ok (1 ∷ 2 ∷ 3 ∷ 4 ∷ [], some peer)
    ∷ ok (5 ∷ [], none)
    ∷ err refused
    ∷ []

abbrev pool : VecPool
pool = new_vec_pool 3 3

abbrev batch : FrameBatch UdpFrame
batch = with_capacity 8

abbrev no_error : Option TransportError
no_error = none

abbrev socket : UdpSocket Queue
socket = record { sock = queue; pool = pool; deferred = none }

-- The error behind two frames waits for the next call.
recv_burst_results :
    let first = recv_burst take_next peek_next 9 socket batch in
    elim first as (λ r. Type 0) [
      | none ↦ Unit {0}
      | some (answer, u, out) ↦
          (answer ≡ ok 2)
          × (u.deferred ≡ some (io "recv_from" (other_kind 111)))
          × (length u.pool.free ≡ 1)
    ]
unfolding recv_burst burst burst_fuel datagram stop
recv_burst_results = (refl, refl, refl)

burst_example :
    let b : Burst Queue = record {
      socket = queue;
      pool = pool;
      out = batch;
      deferred = none;
      pushed = 0;
    } in
    (answer : Result TransportError ℕ) × (b' : Burst Queue) × (burst take_next peek_next 9 queue
        pool batch no_error
      ≡ some (answer, b'))
    × (((no_error ≡ none) × Outcome take_next peek_next 3 b answer b')
        ⊎ ((e : TransportError) × (no_error ≡ some e) × (answer ≡ err e) × (b' ≡ b)))
burst_example =
    burst_lem take_next peek_next length take_next-shorter 9 3 queue pool batch no_error
      (omega arith) (refl, (refl, (refl, tt)))
