-- ===== src/Socket/Delivered.antt =====
-- The datagrams that a burst hands out, and the buffers that they are in.
use polaris_trade.Base.{
  ℕ, zero, suc, ◌≤◌, ◌≡◌, ◌⊎◌, ◌∙◌, refl, ap, Option, List, [], ◌∷◌, ◌++◌, min, ltb, if◌then◌else◌,
  length, take, drop, map, arith, Bool-cases, inl, inr, length-append, length-take, length-drop,
  take-append,
}
use mathlib.Core.List.{map-append}
use polaris_trade.Transport.Error.{SocketAddr}
use polaris_trade.Transport.VecPool.{VecSlab, slab_bytes}
use polaris_trade.Socket.{UdpFrame, no_peer, unwrap_or, overwrite, Burst, keep}

abbrev pub Datagram : Type 0
Datagram = List ℕ × Option SocketAddr

-- What the caller reads of a frame.
abbrev pub seen : UdpFrame → List ℕ × SocketAddr
seen f = (slab_bytes f.slab, f.peer)

-- The datagrams that fit a slab of `size` bytes, each whole, with its sender.
abbrev pub delivered : ℕ → List Datagram → List (List ℕ × SocketAddr)
delivered size [] = []
delivered size ((bytes, from) ∷ rest) =
    if ltb size (length bytes)
    then delivered size rest
    else (bytes, unwrap_or from no_peer) ∷ delivered size rest

pub delivered-cons :
    (size : ℕ) (d : Datagram) (ds : List Datagram)
    → delivered size (d ∷ ds) ≡ delivered size (d ∷ []) ++ delivered size ds
delivered-cons size (bytes, from) ds = elim (Bool-cases (ltb size (length bytes))) [
  | inl cut ↦ rw cut refl
  | inr fits ↦ rw fits refl
]

pub free-cases :
    (free : List (List ℕ))
    → (free ≡ []) ⊎ ((buf : List ℕ) × (rest : List (List ℕ)) × (free ≡ buf ∷ rest))
free-cases [] = inl refl
free-cases (buf ∷ rest) = inr (buf, rest, refl)

pub take_all : (n : ℕ) (bytes : List ℕ) → length bytes ≤ n → take n bytes ≡ bytes
take_all zero [] h = refl
take_all (suc n) [] h = refl
take_all zero (x ∷ xs) h = absurd (omega arith)
take_all (suc n) (x ∷ xs) h = ap (λ ys. x ∷ ys) (take_all n xs (omega arith))

pub take-overwrite :
    (buf bytes : List ℕ)
    → length bytes ≤ length buf
    → take (min (length bytes) (length buf)) (overwrite buf bytes) ≡ bytes
take-overwrite buf bytes fits =
    let e : min (length bytes) (length buf) ≡ length bytes = omega arith in
    rw (e, take_all (length buf) bytes fits) (take-append bytes (drop (length bytes) buf))

pub length-overwrite : (buf bytes : List ℕ) → length (overwrite buf bytes) ≡ length buf
length-overwrite buf bytes = ground (
  arith,
  length-append (take (length buf) bytes) (drop (length bytes) buf),
  length-take (length buf) bytes,
  length-drop (length bytes) buf,
)

pub seen-keep :
    {S : Type 0} (b : Burst S) (buf bytes : List ℕ) (from : Option SocketAddr)
    → length bytes ≤ length buf
    → let slab : VecSlab = record { buf = overwrite buf bytes; len = 0 } in
      map seen (keep b slab (min (length bytes) (length buf)) from).out.frames
      ≡ map seen b.out.frames ++ (bytes, unwrap_or from no_peer) ∷ []
seen-keep b buf bytes from fits =
    let e : min (min (length bytes) (length buf)) (length (overwrite buf bytes))
        ≡ min (length bytes) (length buf) =
      omega (arith, length-overwrite buf bytes) in
    map-append seen b.out.frames _
    ∙ ap (λ bs. map seen b.out.frames ++ (bs, unwrap_or from no_peer) ∷ [])
        (ap (λ n. take n (overwrite buf bytes)) e ∙ take-overwrite buf bytes fits)
