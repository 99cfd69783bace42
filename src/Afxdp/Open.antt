-- ===== src/Afxdp/Open.antt =====
-- How `XskDriver` is opened: `XskDriver::open` and what it calls in crates/transports/afxdp/src/driver.rs, behind
-- `AfxdpL2::bind` of lib.rs. The kernel is a parameter, with a state on which each system call acts.
pub mod Mapped
pub mod Fresh
use Prim.Native.String.{String}
use polaris_trade.Base.{
  ℕ, ◌+◌, ◌-◌, ◌*◌, ◌^◌, ◌%◌, Bool, true, false, ◌&&◌, Option, none, some, List, ltb, leb, ◌==◌,
  if◌then◌else◌,
}
use polaris_trade.Base.Result.{Result, ok, err}
use polaris_trade.Transport.Error.{
  TransportError, IoErrorKind, other_kind, IoError, io, unavailable as unavailable_error,
}
use polaris_trade.Transport.IndexPool.{IndexPool, new_pool}
use polaris_trade.Afxdp.Ring.{Ring, new_producer, new_consumer}
use polaris_trade.Afxdp.Driver.{XdpDesc, Rings, new_rings, refill}
use polaris_trade.Afxdp.Xsk.{XskDriver}
use polaris_trade.Afxdp.Config.{AfxdpConfig, XdpRedirect, validate}

-- `xdp_ring_offset`: where the words and the entries of a ring lie in its mapping.
pub record RingOffset : Type 0 where
  pub producer : ℕ
  pub consumer : ℕ
  pub flags : ℕ
  pub desc : ℕ

pub record MmapOffsets : Type 0 where
  pub rx : RingOffset
  pub fr : RingOffset

-- `xdp_umem_reg` and `sockaddr_xdp`, as far as they are not constant.
pub record UmemReg : Type 0 where
  pub len : ℕ
  pub chunk_size : ℕ
  pub headroom : ℕ

pub record SockaddrXdp : Type 0 where
  pub zero_copy : Bool
  pub ifindex : ℕ
  pub queue : ℕ

-- The memory of a ring, at its offsets.
pub record RingWords (A : Type 0) : Type 0 where
  pub producer_word : ℕ
  pub consumer_word : ℕ
  pub flags_word : ℕ
  pub entries : ℕ → A

pub data RingOption : Type 0 where
  fill_ring completion_ring rx_ring : RingOption

-- What `open` asks of the kernel, of the allocator, and of the installation of the redirect.
pub record Kernel (K : Type 0) : Type 0 where
  pub if_nametoindex : K → List ℕ → Result IoError ℕ × K
  pub allocate : K → ℕ → Result TransportError (Unit {0}) × K
  pub new_socket : K → Result IoError (Unit {0}) × K
  pub set_umem : K → UmemReg → Result IoError (Unit {0}) × K
  pub set_ring : K → RingOption → ℕ → Result IoError (Unit {0}) × K
  pub get_offsets : K → Result IoError (ℕ × MmapOffsets) × K
  pub mmap_fill : K → ℕ → Result IoError (RingWords ℕ) × K
  pub mmap_rx : K → ℕ → Result IoError (RingWords XdpDesc) × K
  pub bind_socket : K → SockaddrXdp → Result IoError (Unit {0}) × K
  pub install : K → XdpRedirect → ℕ → ℕ → Result TransportError (Unit {0}) × K

-- Fallible steps on the kernel's state.
abbrev pub M : Type 0 → Type 0 → Type 0
M K A = K → Result TransportError A × K

infixl 5 ◌>>=◌ ◌>>◌
abbrev pub ◌>>=◌ : {K A B : Type 0} → M K A → (A → M K B) → M K B
◌>>=◌ m f k = elim (m k).0 [ err e ↦ (err e, (m k).1) | ok a ↦ f a (m k).1 ]

abbrev pub ◌>>◌ : {K B : Type 0} → M K (Unit {0}) → M K B → M K B
m >> n = m >>= λ u. n

abbrev pub pure : {K A : Type 0} → A → M K A
pure a k = (ok a, k)

abbrev pub lift : {K A : Type 0} → Result TransportError A → M K A
lift r k = (r, k)

-- `map_err` of a system call
abbrev pub map_err :
    {K A : Type 0} → (IoError → TransportError) → (K → Result IoError A × K) → M K A
map_err f call k = elim (call k).0 [ ok a ↦ (ok a, (call k).1) | err e ↦ (err (f e), (call k).1) ]

abbrev pub unavailable : String → Option IoErrorKind → TransportError
unavailable reason error = unavailable_error "afxdp" reason error

abbrev pub at_stage : String → IoError → TransportError
at_stage stage e = io stage e.kind

abbrev pub has_errno : IoError → ℕ → Bool
has_errno e errno = elim e.raw_os_error [ none ↦ false | some n ↦ n == errno ]

-- EPERM, EACCES and EAFNOSUPPORT
unfoldable pub socket_error : IoError → TransportError
socket_error e =
    if has_errno e 1
    then unavailable "needs CAP_NET_RAW" (some e.kind)
    else if has_errno e 13
    then unavailable "needs CAP_NET_RAW" (some e.kind)
    else if has_errno e 97
    then unavailable "kernel built without AF_XDP" (some e.kind)
    else io "socket(AF_XDP)" e.kind

-- ENOBUFS
unfoldable pub umem_error : IoError → TransportError
umem_error e =
    if has_errno e 105
    then unavailable "RLIMIT_MEMLOCK too low; grant CAP_IPC_LOCK" (some e.kind)
    else io "setsockopt(XDP_UMEM_REG)" e.kind

-- EBUSY
unfoldable pub bind_error : IoError → TransportError
bind_error e =
    if has_errno e 16
    then unavailable "queue busy or previous socket still releasing" (some e.kind)
    else io "bind(AF_XDP)" e.kind

-- `io::ErrorKind::InvalidData`, by its number among the other kinds.
abbrev pub bad_offsets : TransportError
bad_offsets = io "mmap(XDP ring)" (other_kind 21)

-- `word_ok` of `map_ring`, where `usize` has 64 bits.
abbrev pub is_word_at : ℕ → ℕ → Bool
is_word_at desc w = (w % 4 == 0) && (ltb (w + 4) (2 ^ 64) && leb (w + 4) desc)

-- The checks of `map_ring` before it maps: the length of the mapping, for `count` entries of `size` bytes.
unfoldable pub mapping_len : RingOffset → ℕ → ℕ → ℕ → Result TransportError ℕ
mapping_len off count size align =
    if is_word_at off.desc off.producer
      && (is_word_at off.desc off.consumer
          && (is_word_at off.desc off.flags && (off.desc % align == 0)))
    then if ltb (count * size) (2 ^ 64) && ltb (count * size + off.desc) (2 ^ 64)
      then ok (count * size + off.desc)
      else err bad_offsets
    else err bad_offsets

abbrev pub ring_of : {A : Type 0} → RingWords A → ℕ → Ring A
ring_of words size = record {
  producer = words.producer_word;
  consumer = words.consumer_word;
  flags = words.flags_word;
  desc = words.entries;
  mask = size - 1;
}

-- The rings and the pool, with every frame handed to the kernel.
unfoldable pub opened_rings : AfxdpConfig → RingWords ℕ → RingWords XdpDesc → Rings × IndexPool
opened_rings cfg fill rx =
    refill
      (new_rings (new_producer (ring_of fill cfg.frames)) (new_consumer (ring_of rx cfg.frames))
        cfg.frames cfg.frame_size)
      (new_pool cfg.frames cfg.frame_size)

module _ {K : Type 0} (kernel : Kernel K) where
  -- `map_ring`, for the fill ring of addresses and the receive ring of descriptors.
  unfoldable pub map_fill : RingOffset → ℕ → M K (RingWords ℕ)
  map_fill off count = do
    len ← lift (mapping_len off count 8 8)
    map_err (at_stage "mmap(XDP ring)") (λ k. kernel.mmap_fill k len)

  unfoldable pub map_rx : RingOffset → ℕ → M K (RingWords XdpDesc)
  map_rx off count = do
    len ← lift (mapping_len off count 16 8)
    map_err (at_stage "mmap(XDP ring)") (λ k. kernel.mmap_rx k len)

  -- The size of `xdp_mmap_offsets` is 128.
  unfoldable pub mmap_offsets : M K MmapOffsets
  mmap_offsets = do
    got ← map_err (at_stage "getsockopt(XDP_MMAP_OFFSETS)") kernel.get_offsets
    if ltb got.0 128
        then lift (err (unavailable "kernel predates AF_XDP ring flags (5.4)" none))
        else pure got.1

  unfoldable pub register_umem : AfxdpConfig → M K (Unit {0})
  register_umem cfg = map_err umem_error (λ k. kernel.set_umem k (record {
    len = cfg.frames * cfg.frame_size;
    chunk_size = cfg.frame_size;
    headroom = cfg.headroom;
  }))

  -- The loop over RING_SIZES.
  unfoldable pub set_rings : ℕ → M K (Unit {0})
  set_rings count = do
    map_err (at_stage "setsockopt(XDP_UMEM_FILL_RING)") (λ k. kernel.set_ring k fill_ring count)
    map_err (at_stage "setsockopt(XDP_UMEM_COMPLETION_RING)")
        (λ k. kernel.set_ring k completion_ring count)
    map_err (at_stage "setsockopt(XDP_RX_RING)") (λ k. kernel.set_ring k rx_ring count)

  -- `XskDriver::open`: what it does before the rings are mapped, what it does behind that, and all of it.
  unfoldable pub prepare : AfxdpConfig → M K MmapOffsets
  prepare cfg = do
    λ k. kernel.allocate k (cfg.frames * cfg.frame_size)
    map_err socket_error kernel.new_socket
    register_umem cfg
    set_rings cfg.frames
    mmap_offsets

  unfoldable pub attach : AfxdpConfig → ℕ → M K (Unit {0})
  attach cfg ifindex = do
    map_err bind_error (λ k.
        kernel.bind_socket k
          (record { zero_copy = cfg.zero_copy; ifindex = ifindex; queue = cfg.queue }))
    λ k. kernel.install k cfg.redirect ifindex cfg.queue

  unfoldable pub open_socket : AfxdpConfig → ℕ → M K (Rings × IndexPool)
  open_socket cfg ifindex = do
    off ← prepare cfg
    fill ← map_fill off.fr cfg.frames
    rx ← map_rx off.rx cfg.frames
    opened ← pure (opened_rings cfg fill rx)
    attach cfg ifindex
    pure opened

  -- `AfxdpL2::bind`, up to the driver that it wraps.
  unfoldable pub bind : AfxdpConfig → M K (Rings × IndexPool)
  bind cfg = do
    lift (validate cfg)
    ifindex ← map_err (at_stage "if_nametoindex") (λ k. kernel.if_nametoindex k cfg.ifname)
    open_socket cfg ifindex
