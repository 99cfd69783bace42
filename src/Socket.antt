-- ===== src/Socket.antt =====
-- crates/transports/socket: the receive loop of recv.rs and the socket of udp.rs, on Linux. The kernel's socket is a
-- parameter: `recv_from` takes the next datagram, whole, with its sender if that is an IP address.
pub mod Delivered
pub mod Outcome
pub mod Received
mod Tests
use polaris_trade.Base.{
  ℕ, zero, suc, ◌+◌, Bool, Option, none, some, List, [], ◌∷◌, ◌++◌, min, ltb, ◌==◌, if◌then◌else◌,
  length, take, drop,
}
use polaris_trade.Base.Result.{Result, ok, err}
use polaris_trade.Transport.Error.{
  SocketAddr, v4, IoErrorKind, would_block, interrupted, other_kind, IoError, TransportError, io,
  pool_exhausted, peer_closed,
}
use polaris_trade.Transport.Batch.{FrameBatch, spare, push}
use polaris_trade.Transport.VecPool.{VecPool, VecSlab, acquire, set_len, slab_bytes, drop_slab}

-- `NO_PEER`
abbrev pub no_peer : SocketAddr
no_peer = record { ip = v4 0; port = 0 }

pub record UdpFrame : Type 0 where
  pub slab : VecSlab
  pub peer : SocketAddr

abbrev pub unwrap_or {ℓ} : {A : Type ℓ} → Option A → A → A
unwrap_or none d = d
unwrap_or (some a) d = a

-- `UdpSocket`
pub record UdpSocket (S : Type 0) : Type 0 where
  pub sock : S
  pub pool : VecPool
  pub deferred : Option TransportError

-- What the kernel leaves in a buffer that it writes the front of a datagram to.
abbrev pub overwrite : List ℕ → List ℕ → List ℕ
overwrite buf bytes = take (length buf) bytes ++ drop (length bytes) buf

-- The variables of `burst`, and the socket.
pub record Burst (S : Type 0) : Type 0 where
  pub socket : S
  pub pool : VecPool
  pub out : FrameBatch UdpFrame
  pub deferred : Option TransportError
  pub pushed : ℕ

-- A received slab becomes a frame.
abbrev pub keep : {S : Type 0} → Burst S → VecSlab → ℕ → Option SocketAddr → Burst S
keep b slab len from = record b {
  out = push b.out (record { slab = set_len slab len; peer = unwrap_or from no_peer });
  pushed = b.pushed + 1;
}

-- An error other than `WouldBlock`: behind frames it waits for the next call.
abbrev pub raise : {S : Type 0} → IoErrorKind → Burst S → Result TransportError ℕ × Burst S
raise kind b =
    if b.pushed == 0
    then (err (io "recv_from" kind), b)
    else (ok b.pushed, record b { deferred = some (io "recv_from" kind) })

-- The error branches of the loop.
unfoldable pub stop : {S : Type 0} → IoErrorKind → Burst S → Result TransportError ℕ × Burst S
stop would_block b = (ok b.pushed, b)
stop interrupted b = raise interrupted b
stop (other_kind n) b = raise (other_kind n) b

-- The error branches of `exhausted`.
abbrev pub idle_or : IoErrorKind → Result TransportError ℕ
idle_or would_block = ok 0
idle_or interrupted = err (io "peek" interrupted)
idle_or (other_kind n) = err (io "peek" (other_kind n))

module _ {S : Type 0} (recv_from : S → Result IoError (List ℕ × Option SocketAddr) × S)
    (peek_sender : S → Result IoError (Unit {0}) × S) where
  -- `datagram` on Linux: the bytes stored, whether the kernel cut the datagram, its sender; and the buffer.
  unfoldable pub datagram : S → List ℕ → Result IoError (ℕ × Bool × Option SocketAddr) × List ℕ × S
  datagram s buf =
      let (received, s') = recv_from s in
      elim received [
        | err e ↦ (err e, buf, s')
        | ok (bytes, from) ↦ (
          ok (min (length bytes) (length buf), ltb (length buf) (length bytes), from),
          overwrite buf bytes,
          s',
        )
      ]

  -- `exhausted`
  unfoldable pub exhausted : Burst S → Result TransportError ℕ × Burst S
  exhausted b =
      let (peeked, s) = peek_sender b.socket in
      let b' : Burst S = record b { socket = s } in
      elim peeked [
        | ok u ↦ (err (pool_exhausted b.pool.out b.pool.capacity), b')
        | err e ↦ (idle_or e.kind, b')
      ]

  -- The loop of `burst`; `none` when the fuel is spent.
  unfoldable pub burst_fuel : ℕ → Burst S → Option (Result TransportError ℕ × Burst S)
  burst_fuel zero b = none
  burst_fuel (suc fuel) b =
      if ltb 0 (spare b.out)
      then elim (acquire b.pool) [
        | none ↦ some (if b.pushed == 0 then exhausted b else (ok b.pushed, b))
        | some (slab, pool) ↦
            let (received, buf, s) = datagram b.socket slab.buf in
            let slab' : VecSlab = record slab { buf = buf } in
            let dropped : Burst S = record b { socket = s; pool = drop_slab pool slab' } in
            elim received [
              | err e ↦ some (stop e.kind dropped)
              | ok (len, cut, from) ↦
                  let after_cut = burst_fuel fuel dropped in
                  let after_frame =
                    burst_fuel fuel (keep (record b { socket = s; pool = pool }) slab' len from) in
                  if cut then after_cut else after_frame
            ]
      ]
      else some (ok b.pushed, b)

  -- `burst`
  unfoldable pub burst :
      ℕ
      → S
      → VecPool
      → FrameBatch UdpFrame
      → Option TransportError
      → Option (Result TransportError ℕ × Burst S)
  burst fuel s pool out deferred =
      let b : Burst S = record {
        socket = s;
        pool = pool;
        out = out;
        deferred = none;
        pushed = 0;
      } in
      elim deferred [ some error ↦ some (err error, b) | none ↦ burst_fuel fuel b ]

  -- `UdpSocket::recv_burst`
  unfoldable pub recv_burst :
      ℕ
      → UdpSocket S
      → FrameBatch UdpFrame
      → Option (Result TransportError ℕ × UdpSocket S × FrameBatch UdpFrame)
  recv_burst fuel u out = elim (burst fuel u.sock u.pool out u.deferred) [
    | none ↦ none
    | some (answer, b) ↦
        some (answer, record { sock = b.socket; pool = b.pool; deferred = b.deferred }, b.out)
  ]

-- `stream`: how many bytes were read. A read of `n` bytes writes that many.
unfoldable pub stream :
    {S : Type 0} → (S → Result IoErrorKind ℕ × S) → ℕ → S → Result TransportError ℕ × S
stream recv room s =
    let (received, s') = recv s in
    if room == 0 then (ok 0, s) else elim received [
      | ok n ↦ (if n == 0 then err peer_closed else ok n, s')
      | err e ↦ elim e [ would_block ↦ (ok 0, s') | kind ↦ (err (io "recv" kind), s') ]
    ]
