-- ===== src/Afxdp/Open/Fresh.antt =====
-- What an opened socket starts with: a step of the system of driver and kernel from fresh rings.
use Prim.Native.Nat.{◌∣◌}
use native.Mathlib.Nat.{pow-suc, one-le-pow, pow-le-pow_right, mul_assoc}
use polaris_trade.Base.{
  ℕ, zero, suc, ◌+◌, ◌-◌, ◌*◌, ◌^◌, ◌≤◌, ◌<◌, ◌≡◌, ◌∙◌, refl, sym, ap, inl, inr, [], ◌++◌, map,
  arith,
}
use polaris_trade.Base.Result.{Result, ok, err, Result-cases}
use polaris_trade.Transport.Error.{TransportError, IoError}
use polaris_trade.Transport.IndexPool.{IndexPool}
use polaris_trade.Afxdp.Ring.{
  Ring, Producer, Consumer, size, read_entries, new_producer, new_consumer,
}
use polaris_trade.Afxdp.Ring.Contents.{IsRing, contents, pending}
use polaris_trade.Afxdp.Driver.{XdpDesc, Rings}
use polaris_trade.Base.Weigh.{upto}
use mathlib.Core.List.{reverse, append-nil}
use polaris_trade.Afxdp.Driver.Refill.{owed}
use polaris_trade.Afxdp.System.{System, initial, recycle, IsFresh, Reach, start, later}
use polaris_trade.Afxdp.System.Owned.{recycle_hands_all}
use polaris_trade.Afxdp.Config.{AfxdpConfig, validate}
use polaris_trade.Afxdp.Config.Accepted.{IsPower, IsAccepted, validate_iff}
use polaris_trade.Afxdp.Open.{
  Kernel, M, ◌>>=◌, lift, map_err, pure, prepare, attach, MmapOffsets, RingWords, ring_of,
  RingOffset, mapping_len, at_stage, map_fill, map_rx, opened_rings, open_socket, bind,
}

pow_add : (k m : ℕ) → 2 ^ (k + m) ≡ 2 ^ k * 2 ^ m
pow_add k zero = let e : k + 0 ≡ k = omega arith in rw e (omega arith)
pow_add k (suc m) =
    let e : k + suc m ≡ suc (k + m) = omega arith in
    rw (e, pow-suc 2 (k + m), pow-suc 2 m, pow_add k m) (mul_assoc (2 ^ k) (2 ^ m) 2)

IsPower-pos : (n : ℕ) → IsPower n → 0 < n
IsPower-pos n (k, lt, e) = omega (arith, e, one-le-pow k 2 (omega arith))

IsPower-divides : (n : ℕ) → IsPower n → n ∣ 2 ^ 32
IsPower-divides n (k, lt, e) =
    let whole : k + (32 - k) ≡ 32 = omega arith in
    ∣ (
      2 ^ (32 - k),
      ap (λ (j : ℕ). 2 ^ j) (sym whole)
          ∙ pow_add k (32 - k)
          ∙ ap (λ (x : ℕ). x * 2 ^ (32 - k)) (sym e),
    ) ∣₁

IsPower-word : (n : ℕ) → IsPower n → n < 2 ^ 32
IsPower-word n (k, lt, e) =
    let small : 2 ^ k ≤ 2 ^ 31 = pow-le-pow_right (omega arith) {i = k} {j = 31} (omega arith) in
    omega (arith, e, small)

-- The words of a ring that nothing was put on.
pub record IsIdle {A : Type 0} (w : RingWords A) : Type 0 where
  pub level : w.producer_word ≡ w.consumer_word
  pub word : w.producer_word < 2 ^ 32

-- A ring over such words, of a size that is a power of two.
record IsEmptyRing {A : Type 0} (r : Ring A) (n : ℕ) : Type 0 where
  shared : IsRing r
  empty : contents r ≡ []
  sized : size r ≡ n

ring_of-IsEmptyRing :
    {A : Type 0} (w : RingWords A) (n : ℕ) → IsPower n → IsIdle w → IsEmptyRing (ring_of w n) n
unfolding contents read_entries
ring_of-IsEmptyRing w n power idle =
    let sized : n - 1 + 1 ≡ n = omega (arith, IsPower-pos n power) in
    let none_pending : pending (ring_of w n) ≡ 0 = omega (arith, idle.level, idle.word) in
    record {
      shared = record {
        divides = rw sized (IsPower-divides n power);
        larger = omega (arith, IsPower-word n power, IsPower-pos n power);
        producer_word = idle.word;
        consumer_word = omega (arith, idle.level, idle.word);
        fits = omega (arith, none_pending);
      };
      empty = rw none_pending refl;
      sized = sized;
    }

-- A step that fails ends the block; so one that ends well has passed each of its steps.
bind-ok :
    {K A B : Type 0} (m : M K A) (f : A → M K B) (k : K) {b : B}
    → ((m >>= f) k).0 ≡ ok b
    → (a : A) × ((m k).0 ≡ ok a) × ((f a (m k).1).0 ≡ ok b)
bind-ok m f k {b} e = elim (Result-cases (m k).0) [
  | inl (a, got) ↦ (a, got, rw (got, ◌>>=◌) at e)
  | inr (x, got) ↦ let failed : err x ≡ ok b = rw (got, ◌>>=◌) at e in absurd (cc failed)
]

map_err-ok :
    {K A : Type 0} (f : IoError → TransportError) (call : K → Result IoError A × K) (k : K) {a : A}
    → (map_err f call k).0 ≡ ok a
    → (call k).0 ≡ ok a
map_err-ok f call k {a} e = elim (Result-cases (call k).0) [
  | inl (a', got) ↦
      let answered : ok a' ≡ ok a = rw (got, map_err) at e in
      let same : a' ≡ a = cc answered in got ∙ ap ok same
  | inr (x, got) ↦ let failed : err (f x) ≡ ok a = rw (got, map_err) at e in absurd (cc failed)
]

module _ {K : Type 0} (kernel : Kernel K)
    (fill_IsIdle : (k : K) (len : ℕ) (w : RingWords ℕ)
      → (kernel.mmap_fill k len).0 ≡ ok w
      → IsIdle w)
    (rx_IsIdle : (k : K) (len : ℕ) (w : RingWords XdpDesc)
      → (kernel.mmap_rx k len).0 ≡ ok w
      → IsIdle w) where
  map_fill-IsIdle :
      (off : RingOffset) (count : ℕ) (k : K) (w : RingWords ℕ)
      → (map_fill kernel off count k).0 ≡ ok w
      → IsIdle w
  unfolding map_fill
  map_fill-IsIdle off count k w e =
      let (len, checked, mapped) =
        bind-ok (lift (mapping_len off count 8 8))
          (λ (n : ℕ). map_err (at_stage "mmap(XDP ring)") (λ k₁. kernel.mmap_fill k₁ n)) k e in
      fill_IsIdle k len w
        (map_err-ok (at_stage "mmap(XDP ring)") (λ k₁. kernel.mmap_fill k₁ len) k mapped)

  map_rx-IsIdle :
      (off : RingOffset) (count : ℕ) (k : K) (w : RingWords XdpDesc)
      → (map_rx kernel off count k).0 ≡ ok w
      → IsIdle w
  unfolding map_rx
  map_rx-IsIdle off count k w e =
      let (len, checked, mapped) =
        bind-ok (lift (mapping_len off count 16 8))
          (λ (n : ℕ). map_err (at_stage "mmap(XDP ring)") (λ k₁. kernel.mmap_rx k₁ n)) k e in
      rx_IsIdle k len w
        (map_err-ok (at_stage "mmap(XDP ring)") (λ k₁. kernel.mmap_rx k₁ len) k mapped)

  open_socket-words :
      (cfg : AfxdpConfig) (ifindex : ℕ) (k : K) (opened : Rings × IndexPool)
      → (open_socket kernel cfg ifindex k).0 ≡ ok opened
      → (fill : RingWords ℕ) × (rx : RingWords XdpDesc) × IsIdle fill
        × IsIdle rx
        × (opened ≡ opened_rings cfg fill rx)
  unfolding open_socket
  open_socket-words cfg ifindex k opened e =
      let (off, prepared, rest₁) = bind-ok (prepare kernel cfg) (map_both cfg ifindex) k e in
      let k₁ = (prepare kernel cfg k).1 in
      let (fill, got_fill, rest₂) =
        bind-ok (map_fill kernel off.fr cfg.frames) (map_second cfg ifindex off) k₁ rest₁ in
      let k₂ = (map_fill kernel off.fr cfg.frames k₁).1 in
      let (rx, got_rx, rest₃) =
        bind-ok (map_rx kernel off.rx cfg.frames) (finish cfg ifindex fill) k₂ rest₂ in
      let k₃ = (map_rx kernel off.rx cfg.frames k₂).1 in
      let (u, attached, done) =
        bind-ok (attach kernel cfg ifindex) (λ u. pure (opened_rings cfg fill rx)) k₃ rest₃ in
      let same : opened_rings cfg fill rx ≡ opened = cc done in
      (
        fill,
        rx,
        map_fill-IsIdle off.fr cfg.frames k₁ fill got_fill,
        map_rx-IsIdle off.rx cfg.frames k₂ rx got_rx,
        sym same,
      )
    where
      finish : AfxdpConfig → ℕ → RingWords ℕ → RingWords XdpDesc → M K (Rings × IndexPool)
      finish cfg ifindex fill rx =
          attach kernel cfg ifindex >>= λ u. pure (opened_rings cfg fill rx)

      map_second : AfxdpConfig → ℕ → MmapOffsets → RingWords ℕ → M K (Rings × IndexPool)
      map_second cfg ifindex off fill = map_rx kernel off.rx cfg.frames >>= finish cfg ifindex fill

      map_both : AfxdpConfig → ℕ → MmapOffsets → M K (Rings × IndexPool)
      map_both cfg ifindex off = map_fill kernel off.fr cfg.frames >>= map_second cfg ifindex off

  bind-words :
      (cfg : AfxdpConfig) (k : K) (opened : Rings × IndexPool)
      → (bind kernel cfg k).0 ≡ ok opened
      → (validate cfg ≡ ok tt)
        × (fill : RingWords ℕ) × (rx : RingWords XdpDesc) × IsIdle fill
        × IsIdle rx
        × (opened ≡ opened_rings cfg fill rx)
  unfolding bind
  bind-words cfg k opened e =
      let (u, valid, rest) = bind-ok (lift (validate cfg)) (λ u. indexed cfg) k e in
      let (ifindex, found, rest₁) =
        bind-ok (map_err (at_stage "if_nametoindex") (λ k₁. kernel.if_nametoindex k₁ cfg.ifname))
          (open_socket kernel cfg) k rest in
      let (fill, rx, fill_idle, rx_idle, same) = open_socket-words cfg ifindex _ opened rest₁ in
      (valid, fill, rx, fill_idle, rx_idle, same)
    where
      indexed : AfxdpConfig → M K (Rings × IndexPool)
      indexed cfg =
          map_err (at_stage "if_nametoindex") (λ k₁. kernel.if_nametoindex k₁ cfg.ifname)
          >>= open_socket kernel cfg

  -- Where the kernel maps new rings empty, a socket that `bind` opens has an accepted configuration, and
  -- starts one step behind fresh rings, with every slot on the fill ring, the last one first, and none on the
  -- free list. So what holds of every state that the driver, the kernel and the holders of frames reach from fresh
  -- rings holds of every state that they reach from `bind`.
  pub bind-Reach :
      (cfg : AfxdpConfig) (k : K) (opened : Rings × IndexPool)
      → (bind kernel cfg k).0 ≡ ok opened
      → let s : System = record { rings = opened.0; pool = opened.1; held = [] } in
        IsAccepted cfg
        × (fill : Producer ℕ) × (rx : Consumer XdpDesc) × IsFresh fill rx cfg.frames cfg.frame_size
        × Reach (initial fill rx cfg.frames cfg.frame_size) s
        × (contents s.rings.fill.ring
            ≡ map (λ slot. slot * cfg.frame_size) (reverse (upto cfg.frames)))
        × (s.rings.free ≡ [])
  unfolding opened_rings
  bind-Reach cfg k opened e =
      let (valid, fill, rx, fill_idle, rx_idle, same) = bind-words cfg k opened e in
      let v = (validate_iff cfg).0 valid in
      let fill_empty = ring_of-IsEmptyRing fill cfg.frames v.frames_power fill_idle in
      let rx_empty = ring_of-IsEmptyRing rx cfg.frames v.frames_power rx_idle in
      let p : Producer ℕ = new_producer (ring_of fill cfg.frames) in
      let c : Consumer XdpDesc = new_consumer (ring_of rx cfg.frames) in
      let fresh : IsFresh p c cfg.frames cfg.frame_size = record {
        fill_ring = record { shared = fill_empty.shared; published = refl };
        rx_ring = record { shared = rx_empty.shared; released = refl };
        fill_empty = fill_empty.empty;
        rx_empty = rx_empty.empty;
        fill_size = fill_empty.sized;
        rx_size = rx_empty.sized;
        some_bytes = omega (arith, v.large);
        frame_size_word = IsPower-word cfg.frame_size v.frame_size_power;
      } in
      let s : System = initial p c cfg.frames cfg.frame_size in
      let (on_ring, none_free, none_freed) = recycle_hands_all fresh start in
      let all_slots =
        ap (λ xs. xs ++ owed s.rings s.pool) fill_empty.empty
        ∙ ap (λ xs. map (λ slot. slot * cfg.frame_size) (reverse xs))
            (append-nil (upto cfg.frames)) in
      rw same (v, p, c, fresh, later start recycle, on_ring ∙ all_slots, none_free)
