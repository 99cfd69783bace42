-- ===== src/Socket/Outcome.antt =====
-- From the state before a burst to the state behind it.
use polaris_trade.Base.{
  ℕ, ◌+◌, ◌-◌, ◌<◌, ◌≡◌, ◌≢◌, ◌∙◌, refl, sym, ap, subst, Option, none, some, List, [], ◌∷◌, ◌++◌,
  ◌==◌, length, map, arith, All, Bool-cases, inl, inr, length-append,
}
use mathlib.Core.List.{append_assoc, append-nil}
use polaris_trade.Base.Result.{Result, ok, err, Result-cases}
use polaris_trade.Transport.Error.{
  SocketAddr, IoErrorKind, would_block, interrupted, other_kind, IoError, TransportError, io,
  pool_exhausted,
}
use polaris_trade.Transport.Batch.{FrameBatch, spare}
use polaris_trade.Socket.{UdpFrame, Burst, raise, stop, idle_or, exhausted}
use polaris_trade.Socket.Delivered.{Datagram, seen, delivered, delivered-cons}

module _ {S : Type 0} (recv_from : S → Result IoError (List ℕ × Option SocketAddr) × S)
    (peek_sender : S → Result IoError (Unit {0}) × S) where
  -- From `s` on the socket gives these datagrams in order, and is then `last`.
  abbrev pub Takes : S → List Datagram → S → Type 0
  Takes s [] last = s ≡ last
  Takes s (d ∷ ds) last = ((recv_from s).0 ≡ ok d) × Takes (recv_from s).1 ds last

  -- Why a burst ended, when the socket was `last`, and what it answers then.
  pub data Stop (last : S) (answer : Result TransportError ℕ) (b : Burst S) : Type 0 where
    full :
        spare b.out ≡ 0
        → b.socket ≡ last
        → answer ≡ ok b.pushed
        → b.deferred ≡ none
        → Stop last answer b
    drained :
        (e : IoError)
        → recv_from last ≡ (err e, b.socket)
        → e.kind ≡ would_block
        → answer ≡ ok b.pushed
        → b.deferred ≡ none
        → Stop last answer b
    failed :
        (e : IoError)
        → recv_from last ≡ (err e, b.socket)
        → e.kind ≢ would_block
        → b.pushed ≡ 0
        → answer ≡ err (io "recv_from" e.kind)
        → b.deferred ≡ none
        → Stop last answer b
    deferring :
        (e : IoError)
        → recv_from last ≡ (err e, b.socket)
        → e.kind ≢ would_block
        → 0 < b.pushed
        → answer ≡ ok b.pushed
        → b.deferred ≡ some (io "recv_from" e.kind)
        → Stop last answer b
    out_of_slabs :
        b.pool.free ≡ []
        → 0 < b.pushed
        → b.socket ≡ last
        → answer ≡ ok b.pushed
        → b.deferred ≡ none
        → Stop last answer b
    starved :
        b.pool.free ≡ []
        → b.pushed ≡ 0
        → peek_sender last ≡ (ok tt, b.socket)
        → answer ≡ err (pool_exhausted b.pool.out b.pool.capacity)
        → b.deferred ≡ none
        → Stop last answer b
    idle :
        (e : IoError)
        → b.pool.free ≡ []
        → b.pushed ≡ 0
        → peek_sender last ≡ (err e, b.socket)
        → e.kind ≡ would_block
        → answer ≡ ok 0
        → b.deferred ≡ none
        → Stop last answer b
    peek_failed :
        (e : IoError)
        → b.pool.free ≡ []
        → b.pushed ≡ 0
        → peek_sender last ≡ (err e, b.socket)
        → e.kind ≢ would_block
        → answer ≡ err (io "peek" e.kind)
        → b.deferred ≡ none
        → Stop last answer b

  -- From `b` to `b'` with slabs of `size` bytes: the datagrams taken, and what came of them.
  pub record Outcome (size : ℕ) (b : Burst S) (answer : Result TransportError ℕ) (b' : Burst S)
      : Type 0 where
    pub datagrams : List Datagram
    pub last : S
    pub taken : Takes b.socket datagrams last
    pub handed : map seen b'.out.frames ≡ map seen b.out.frames ++ delivered size datagrams
    pub counted : b'.pushed ≡ b.pushed + length (delivered size datagrams)
    pub slabs : length b'.pool.free + b'.pushed ≡ length b.pool.free + b.pushed
    pub balance : length b'.pool.free + b'.pool.out ≡ length b.pool.free + b.pool.out
    pub sized : All (λ buf. length buf ≡ size) b'.pool.free
    pub stopped : Stop last answer b'

  pub Outcome-still :
      (size : ℕ) (b : Burst S) (answer : Result TransportError ℕ) (b' : Burst S)
      → b'.out ≡ b.out
      → b'.pushed ≡ b.pushed
      → length b'.pool.free ≡ length b.pool.free
      → b'.pool.out ≡ b.pool.out
      → All (λ buf. length buf ≡ size) b'.pool.free
      → Stop b.socket answer b'
      → Outcome size b answer b'
  Outcome-still size b answer b' o p f n sized stopped = record {
    datagrams = [];
    last = b.socket;
    taken = refl;
    handed = ap (λ (x : FrameBatch UdpFrame). map seen x.frames) o ∙ sym (append-nil _);
    counted = omega (arith, p);
    slabs = omega arith;
    balance = omega arith;
    sized = sized;
    stopped = stopped;
  }

  stop-Stop :
      (last : S) (e : IoError) (b : Burst S)
      → recv_from last ≡ (err e, b.socket)
      → b.deferred ≡ none
      → Stop last (stop e.kind b).0 (stop e.kind b).1
  unfolding stop
  stop-Stop last e b got clear = by_kind e.kind refl
    where
      hard :
          (k : IoErrorKind) → e.kind ≡ k → k ≢ would_block → Stop last (raise k b).0 (raise k b).1
      hard k same ne = elim (Bool-cases (b.pushed == 0)) [
        | inl z ↦ rw z (
            failed e got (λ w. ne (sym same ∙ w)) (ground arith)
              (ap (λ x. err (io "recv_from" x)) (sym same)) clear)
        | inr z ↦ rw z (
            deferring e got (λ w. ne (sym same ∙ w)) (ground arith) refl
              (ap (λ x. some (io "recv_from" x)) (sym same)))
      ]

      by_kind : (k : IoErrorKind) → e.kind ≡ k → Stop last (stop k b).0 (stop k b).1
      by_kind would_block same = drained e got same refl clear
      by_kind interrupted same = hard interrupted same (λ w. cc w)
      by_kind (other_kind n) same = hard (other_kind n) same (λ w. cc w)

  -- The kinds of error change no pool, no batch and no count.
  stop-kept :
      (k : IoErrorKind) (b : Burst S)
      → let b' = (stop k b).1 in (b'.out ≡ b.out) × (b'.pushed ≡ b.pushed) × (b'.pool ≡ b.pool)
  unfolding stop
  stop-kept would_block b = (refl, refl, refl)
  stop-kept interrupted b = elim (Bool-cases (b.pushed == 0)) [
    | inl z ↦ rw (z, stop) (refl, refl, refl)
    | inr z ↦ rw (z, stop) (refl, refl, refl)
  ]
  stop-kept (other_kind n) b = elim (Bool-cases (b.pushed == 0)) [
    | inl z ↦ rw (z, stop) (refl, refl, refl)
    | inr z ↦ rw (z, stop) (refl, refl, refl)
  ]

  pub stop-Outcome :
      (size : ℕ) (b b₁ : Burst S) (x : IoError)
      → b₁.out ≡ b.out
      → b₁.pushed ≡ b.pushed
      → length b₁.pool.free ≡ length b.pool.free
      → b₁.pool.out ≡ b.pool.out + 1 - 1
      → All (λ buf. length buf ≡ size) b₁.pool.free
      → recv_from b.socket ≡ (err x, b₁.socket)
      → b₁.deferred ≡ none
      → Outcome size b (stop x.kind b₁).0 (stop x.kind b₁).1
  stop-Outcome size b b₁ x o p f n sized got clear =
      let (o', p', pool') = stop-kept x.kind b₁ in
      Outcome-still size b (stop x.kind b₁).0 (stop x.kind b₁).1 (o' ∙ o) (p' ∙ p)
        (ap (λ q. length q.free) pool' ∙ f) (omega (arith, ap (λ q. q.out) pool'))
        (subst (λ q. All (λ buf. length buf ≡ size) q.free) (sym pool') sized)
        (stop-Stop b.socket x b₁ got clear)

  pub exhausted-Outcome :
      (size : ℕ) (b : Burst S)
      → b.pool.free ≡ []
      → b.pushed ≡ 0
      → b.deferred ≡ none
      → let (answer, b') = exhausted recv_from peek_sender b in Outcome size b answer b'
  unfolding exhausted
  exhausted-Outcome size b empty zero_pushed clear = elim (Result-cases (peek_sender b.socket).0) [
    | inl (u, e) ↦
        rw (e, exhausted)
          (still (starved empty zero_pushed (ap (λ r. (r, (peek_sender b.socket).1)) e) refl clear))
    | inr (x, e) ↦
        rw (e, exhausted)
          (still (by_kind x (ap (λ r. (r, (peek_sender b.socket).1)) e) x.kind refl))
  ]
    where
      b' : Burst S
      b' = record b { socket = (peek_sender b.socket).1 }

      still :
          {answer : Result TransportError ℕ} → Stop b.socket answer b' → Outcome size b answer b'
      still {answer} st =
          Outcome-still size b answer b' refl refl refl refl
            (subst (All (λ buf. length buf ≡ size)) (sym empty) tt) st

      by_kind :
          (x : IoError)
          → peek_sender b.socket ≡ (err x, (peek_sender b.socket).1)
          → (k : IoErrorKind) → x.kind ≡ k
          → Stop b.socket (idle_or k) b'
      by_kind x e would_block same = idle x empty zero_pushed e same refl clear
      by_kind x e interrupted same =
          peek_failed x empty zero_pushed e (λ w. cc (w, same))
            (ap (λ k. err (io "peek" k)) (sym same)) clear
      by_kind x e (other_kind n) same =
          peek_failed x empty zero_pushed e (λ w. cc (w, same))
            (ap (λ k. err (io "peek" k)) (sym same)) clear

  -- One more datagram in front of an outcome.
  pub Outcome-cons :
      (size : ℕ) (b b₁ : Burst S) (answer : Result TransportError ℕ) (b' : Burst S) (d : Datagram)
      → (recv_from b.socket).0 ≡ ok d
      → b₁.socket ≡ (recv_from b.socket).1
      → map seen b₁.out.frames ≡ map seen b.out.frames ++ delivered size (d ∷ [])
      → b₁.pushed ≡ b.pushed + length (delivered size (d ∷ []))
      → length b₁.pool.free + b₁.pushed ≡ length b.pool.free + b.pushed
      → length b₁.pool.free + b₁.pool.out ≡ length b.pool.free + b.pool.out
      → Outcome size b₁ answer b'
      → Outcome size b answer b'
  Outcome-cons size b b₁ answer b' d got moved front counted slabs balance o = record {
    datagrams = d ∷ o.datagrams;
    last = o.last;
    taken = (got, subst (λ s. Takes s o.datagrams o.last) moved o.taken);
    handed =
        o.handed
        ∙ ap (λ xs. xs ++ delivered size o.datagrams) front
        ∙ append_assoc (map seen b.out.frames) (delivered size (d ∷ []))
            (delivered size o.datagrams)
        ∙ ap (λ xs. map seen b.out.frames ++ xs) (sym (delivered-cons size d o.datagrams));
    counted = omega (
      arith,
      o.counted,
      ap length (delivered-cons size d o.datagrams),
      length-append (delivered size (d ∷ [])) (delivered size o.datagrams),
    );
    slabs = omega (arith, o.slabs);
    balance = omega (arith, o.balance);
    sized = o.sized;
    stopped = o.stopped;
  }
