-- ===== src/Socket/Received.antt =====
-- What a burst does with the datagrams that it takes off the socket.
use polaris_trade.Base.{
  ℕ, zero, suc, ◌+◌, ◌<◌, ◌≡◌, ◌⊎◌, ◌∙◌, refl, sym, ap, subst, true, false, Option, none, some,
  List, [], ◌∷◌, min, ltb, ◌==◌, length, arith, All, Bool-cases, inl, inr,
}
use mathlib.Core.List.{append-nil}
use polaris_trade.Base.Result.{Result, ok, err, Result-cases}
use polaris_trade.Transport.Error.{SocketAddr, IoError, TransportError}
use polaris_trade.Transport.Batch.{FrameBatch, spare}
use polaris_trade.Transport.VecPool.{VecPool, acquire, popped, drop_slab}
use polaris_trade.Socket.{
  UdpFrame, overwrite, Burst, keep, stop, datagram, exhausted, burst_fuel, burst,
}
use polaris_trade.Socket.Delivered.{Datagram, free-cases, length-overwrite, seen-keep}
use polaris_trade.Socket.Outcome.{
  full, out_of_slabs, Outcome, Outcome-still, stop-Outcome, exhausted-Outcome, Outcome-cons,
}

module _ {S : Type 0} (recv_from : S → Result IoError (List ℕ × Option SocketAddr) × S)
    (peek_sender : S → Result IoError (Unit {0}) × S) where
  datagram-ok :
      (s : S) (buf bytes : List ℕ) (from : Option SocketAddr)
      → (recv_from s).0 ≡ ok (bytes, from)
      → datagram recv_from peek_sender s buf ≡ (
        ok (min (length bytes) (length buf), ltb (length buf) (length bytes), from),
        overwrite buf bytes,
        (recv_from s).1,
      )
  unfolding datagram
  datagram-ok s buf bytes from e = rw (e, datagram) refl

  datagram-err :
      (s : S) (buf : List ℕ) (x : IoError)
      → (recv_from s).0 ≡ err x
      → datagram recv_from peek_sender s buf ≡ (err x, buf, (recv_from s).1)
  unfolding datagram
  datagram-err s buf x e = rw (e, datagram) refl

  -- The loop comes back with an outcome.
  abbrev Returns : ℕ → ℕ → Burst S → Type 0
  Returns fuel size b =
      (answer : Result TransportError ℕ) × (b' : Burst S) × (burst_fuel recv_from peek_sender fuel b
        ≡ some (answer, b'))
      × Outcome recv_from peek_sender size b answer b'

  abbrev Sized : ℕ → List (List ℕ) → Type 0
  Sized size = All (λ buf. length buf ≡ size)

  Returns-full :
      (fuel size : ℕ) (b : Burst S)
      → ltb 0 (spare b.out) ≡ false
      → Sized size b.pool.free
      → b.deferred ≡ none
      → Returns (suc fuel) size b
  unfolding burst_fuel
  Returns-full fuel size b no_room sized clear = (
    ok b.pushed,
    b,
    rw (no_room, burst_fuel) refl,
    Outcome-still recv_from peek_sender size b (ok b.pushed) b refl refl refl refl sized
        (full (ground (arith, no_room)) refl refl clear),
  )

  Returns-empty :
      (fuel size : ℕ) (b : Burst S)
      → ltb 0 (spare b.out) ≡ true
      → b.pool.free ≡ []
      → Sized size b.pool.free
      → b.deferred ≡ none
      → Returns (suc fuel) size b
  unfolding burst_fuel
  Returns-empty fuel size b room empty sized clear =
      let nothing : acquire b.pool ≡ none = ap (popped b.pool) empty in
      elim (Bool-cases (b.pushed == 0)) [
        | inl z ↦ (
          (exhausted recv_from peek_sender b).0,
          (exhausted recv_from peek_sender b).1,
          rw (room, nothing, z, burst_fuel) refl,
          exhausted-Outcome recv_from peek_sender size b empty (ground (arith, z)) clear,
        )
        | inr some_pushed ↦ (
          ok b.pushed,
          b,
          rw (room, nothing, some_pushed, burst_fuel) refl,
          Outcome-still recv_from peek_sender size b (ok b.pushed) b refl refl refl refl sized
              (out_of_slabs empty (ground (arith, some_pushed)) refl refl clear),
        )
      ]

  -- The pool with `buf` off its free list, and what a received datagram makes of `b`.
  abbrev lent : Burst S → List (List ℕ) → VecPool
  lent b rest = record b.pool { free = rest; out = b.pool.out + 1 }

  abbrev after_drop : Burst S → List (List ℕ) → List ℕ → Burst S
  after_drop b rest buf = record b {
    socket = (recv_from b.socket).1;
    pool = drop_slab (lent b rest) (record { buf = buf; len = 0 });
  }

  abbrev after_keep : Burst S → List (List ℕ) → List ℕ → List ℕ → Option SocketAddr → Burst S
  after_keep b rest buf bytes from =
      keep (record b { socket = (recv_from b.socket).1; pool = lent b rest })
        (record { buf = overwrite buf bytes; len = 0 }) (min (length bytes) (length buf)) from

  module _ (fuel size : ℕ) (b : Burst S) (buf : List ℕ) (rest : List (List ℕ))
      (room : ltb 0 (spare b.out) ≡ true) (some_free : b.pool.free ≡ buf ∷ rest)
      (sized : Sized size b.pool.free) where
    got_slab : acquire b.pool ≡ some (record { buf = buf; len = 0 }, lent b rest)
    got_slab = ap (popped b.pool) some_free

    free-Sized : (length buf ≡ size) × Sized size rest
    free-Sized = subst (Sized size) some_free sized

    free_count : length b.pool.free ≡ suc (length rest)
    free_count = ap length some_free

    Returns-stopped :
        (x : IoError)
        → (recv_from b.socket).0 ≡ err x
        → b.deferred ≡ none
        → Returns (suc fuel) size b
    unfolding burst_fuel
    Returns-stopped x got clear =
        let b₁ = after_drop b rest buf in
        let counts = free_count in
        (
          (stop x.kind b₁).0,
          (stop x.kind b₁).1,
          rw (room, got_slab, datagram-err b.socket buf x got, burst_fuel)
              (rw (datagram-err b.socket buf x got) refl),
          stop-Outcome recv_from peek_sender size b b₁ x refl refl (omega arith) refl free-Sized
              (ap (λ r. (r, (recv_from b.socket).1)) got) clear,
        )

    Returns-cut :
        (bytes : List ℕ) (from : Option SocketAddr)
        → (recv_from b.socket).0 ≡ ok (bytes, from)
        → ltb (length buf) (length bytes) ≡ true
        → Returns fuel size (after_drop b rest (overwrite buf bytes))
        → Returns (suc fuel) size b
    unfolding burst_fuel
    Returns-cut bytes from got cut (answer, b', run, o) =
        let counts = free_count in
        let at_size : ltb size (length bytes) ≡ true =
          subst (λ n. ltb n (length bytes) ≡ true) free-Sized.0 cut in
        let received = datagram-ok b.socket buf bytes from got in
        (
          answer,
          b',
          rw (room, got_slab, received, cut, burst_fuel) (rw received run),
          Outcome-cons recv_from peek_sender size b (after_drop b rest (overwrite buf bytes)) answer
              b' (bytes, from) got refl (rw at_size (sym (append-nil _))) (rw at_size (omega arith))
              (omega arith) (omega arith) o,
        )

    Returns-kept :
        (bytes : List ℕ) (from : Option SocketAddr)
        → (recv_from b.socket).0 ≡ ok (bytes, from)
        → ltb (length buf) (length bytes) ≡ false
        → Returns fuel size (after_keep b rest buf bytes from)
        → Returns (suc fuel) size b
    unfolding burst_fuel
    Returns-kept bytes from got fits (answer, b', run, o) =
        let counts = free_count in
        let at_size : ltb size (length bytes) ≡ false =
          subst (λ n. ltb n (length bytes) ≡ false) free-Sized.0 fits in
        let received = datagram-ok b.socket buf bytes from got in
        (
          answer,
          b',
          rw (room, got_slab, received, fits, burst_fuel) (rw received run),
          Outcome-cons recv_from peek_sender size b (after_keep b rest buf bytes from) answer b'
              (bytes, from) got refl
              (rw at_size (seen-keep b buf bytes from (ground (arith, fits))))
              (rw at_size (omega arith)) (omega arith) (omega arith) o,
        )

  module _ (left : S → ℕ)
      (gives : (s : S) (d : Datagram)
        → (recv_from s).0 ≡ ok d
        → left (recv_from s).1 < left s) where
    burst_fuel-Returns :
        (fuel size : ℕ) (b : Burst S)
        → left b.socket < fuel
        → Sized size b.pool.free
        → b.deferred ≡ none
        → Returns fuel size b
    burst_fuel-Returns zero size b enough sized clear = absurd (omega arith)
    burst_fuel-Returns (suc fuel) size b enough sized clear =
        elim (Bool-cases (ltb 0 (spare b.out))) [
          | inr no_room ↦ Returns-full fuel size b no_room sized clear
          | inl room ↦ elim (free-cases b.pool.free) [
            | inl empty ↦ Returns-empty fuel size b room empty sized clear
            | inr (buf, rest, e) ↦
                let (same_size, rest_sized) = free-Sized fuel size b buf rest room e sized in
                elim (Result-cases (recv_from b.socket).0) [
                  | inr (x, got) ↦ Returns-stopped fuel size b buf rest room e sized x got clear
                  | inl ((bytes, from), got) ↦
                      let fewer = gives b.socket (bytes, from) got in
                      let written = length-overwrite buf bytes ∙ same_size in
                      elim (Bool-cases (ltb (length buf) (length bytes))) [
                        | inl cut ↦
                            Returns-cut fuel size b buf rest room e sized bytes from got cut (
                              burst_fuel-Returns fuel size (after_drop b rest (overwrite buf bytes))
                                (omega arith) (written, rest_sized) clear)
                        | inr fits ↦
                            Returns-kept fuel size b buf rest room e sized bytes from got fits (
                              burst_fuel-Returns fuel size (after_keep b rest buf bytes from)
                                (omega arith) rest_sized clear)
                      ]
                ]
          ]
        ]

    -- On a socket that has finitely many datagrams queued, and with slabs that are all of `size` bytes, a burst comes
    -- back. An error left by the call before is answered first, and nothing else changes. Otherwise the
    -- burst takes some datagrams off the socket, in order, and pushes exactly those that fit a slab, each whole
    -- and with its sender, in that order, behind the frames of the batch; the count that it keeps is theirs. Each slab
    -- is either free or under a pushed frame. It stops, and answers, for one of the reasons that `Stop` lists, at a
    -- state of the socket where no datagram was lost: an error is answered only if nothing was pushed, and
    -- waits for the next call otherwise.
    pub burst_lem :
        (fuel size : ℕ) (s : S) (pool : VecPool) (out : FrameBatch UdpFrame)
        (deferred : Option TransportError)
        → left s < fuel
        → All (λ buf. length buf ≡ size) pool.free
        → let b : Burst S = record {
          socket = s;
          pool = pool;
          out = out;
          deferred = none;
          pushed = 0;
        } in
          (answer : Result TransportError ℕ) × (b' : Burst S) × (burst recv_from peek_sender fuel s
              pool out deferred
            ≡ some (answer, b'))
          × (((deferred ≡ none) × Outcome recv_from peek_sender size b answer b')
              ⊎ ((e : TransportError) × (deferred ≡ some e) × (answer ≡ err e) × (b' ≡ b)))
    unfolding burst
    burst_lem fuel size s pool out none enough sized =
        let (answer, b', run, o) = burst_fuel-Returns fuel size _ enough sized refl in
        (answer, b', run, inl (refl, o))
    burst_lem fuel size s pool out (some e) enough sized = (_, _, refl, inr (e, refl, refl, refl))
