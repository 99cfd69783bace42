-- ===== src/Transport/Decap/Bounds.antt =====
-- The payload lies inside its frame, and padding behind the datagram is never part of it.
use polaris_trade.Base.{
  ℕ, ◌+◌, ◌-◌, ◌*◌, ◌%◌, ◌≤◌, ◌≡◌, ◌∙◌, refl, ap, Option, some, List, ◌++◌, arith, length, take,
  drop, get_or, from_be, slice, split_first_chunk, split_first_chunk-some, length-drop, length-take,
  length-append, Option-cases, inl, inr, take-append_left, drop-append_left,
}
use polaris_trade.Base.Result.{ok, Result-cases}
use polaris_trade.Transport.Error.{SocketAddr}
use polaris_trade.Transport.Decap.{
  behind_eth, behind_hdr, be16, be32, get_range, find_ip, find_segment, find_payload, parse_udp,
}

-- What `split_first_chunk` does once more bytes stand behind.
chunk-append :
    (n : ℕ) (xs pad ys zs : List ℕ)
    → split_first_chunk n xs ≡ some (ys, zs)
    → split_first_chunk n (xs ++ pad) ≡ some (ys, zs ++ pad)
unfolding split_first_chunk
chunk-append n xs pad ys zs e =
    ground (arith, length-append xs pad, take-append_left n xs pad, drop-append_left n xs pad)

behind_eth-bounds :
    (eth rest : List ℕ) (l3 : ℕ) (ip : List ℕ)
    → behind_eth eth rest ≡ ok (l3, ip)
    → (l3 + length ip ≡ 14 + length rest) × (14 ≤ l3)
unfolding behind_eth
behind_eth-bounds eth rest l3 ip e = elim (Option-cases (split_first_chunk 4 rest)) [
  | inl k ↦ ground arith
  | inr ((tag, inner), k) ↦
      ground (arith, split_first_chunk-some 4 rest tag inner k, length-drop 4 rest)
]

find_ip-bounds :
    (frame : List ℕ) (l3 : ℕ) (ip : List ℕ)
    → find_ip frame ≡ ok (l3, ip)
    → (l3 + length ip ≡ length frame) × (14 ≤ l3)
unfolding find_ip
find_ip-bounds frame l3 ip e = elim (Option-cases (split_first_chunk 14 frame)) [
  | inl k ↦ absurd (ground arith)
  | inr ((eth, rest), k) ↦
      let c = split_first_chunk-some 14 frame eth rest k in
      let b = behind_eth-bounds eth rest l3 ip (rw (k, find_ip) at e) in
      omega (arith, b.0, b.1, c.0, ap length c.2, length-drop 14 frame)
]

get_range-some :
    (bytes : List ℕ) (from to : ℕ) (s : List ℕ)
    → get_range bytes from to ≡ some s
    → (from ≤ to)
      × (to ≤ length bytes)
      × (length s ≡ to - from)
      × (s ≡ slice bytes from (to - from))
unfolding get_range
get_range-some bytes from to s e =
    ground (arith, length-take (to - from) (drop from bytes), length-drop from bytes)

behind_hdr-bounds :
    (hdr ip : List ℕ) (ihl : ℕ) (segment : List ℕ)
    → behind_hdr hdr ip ≡ ok (ihl, segment)
    → (ihl + length segment ≤ length ip) × (20 ≤ ihl)
unfolding behind_hdr
behind_hdr-bounds hdr ip ihl segment e =
    let start = get_or hdr 0 0 % 16 * 4 in
    elim (Option-cases (get_range ip start (be16 hdr 2))) [
      | inl k ↦ absurd (ground arith)
      | inr (s, k) ↦ ground (arith, get_range-some ip start (be16 hdr 2) s k)
    ]

find_segment-bounds :
    (ip : List ℕ) (ihl : ℕ) (segment : List ℕ)
    → find_segment ip ≡ ok (ihl, segment)
    → (ihl + length segment ≤ length ip) × (20 ≤ ihl)
unfolding find_segment
find_segment-bounds ip ihl segment e = elim (Option-cases (split_first_chunk 20 ip)) [
  | inl k ↦ absurd (ground arith)
  | inr ((hdr, rest), k) ↦ behind_hdr-bounds hdr ip ihl segment (rw (k, find_segment) at e)
]

find_payload-bounds :
    (ip segment : List ℕ) (dst_port : ℕ) (dst_ip : Option ℕ) (n : ℕ)
    → find_payload ip segment dst_port dst_ip ≡ ok n
    → (8 ≤ n) × (n ≤ length segment)
unfolding find_payload split_first_chunk
find_payload-bounds ip segment dst_port dst_ip n e = ground arith

-- The range that `parse_udp` answers lies inside the frame, behind at least an Ethernet, an IPv4 and a UDP
-- header, so that the payload is never the empty slice that stands for a range out of bounds.
pub parse_udp-bounds :
    (frame : List ℕ) (dst_port : ℕ) (dst_ip : Option ℕ) (start end : ℕ) (peer : SocketAddr)
    → parse_udp frame dst_port dst_ip ≡ ok (start, end, peer)
    → (42 ≤ start) × (start ≤ end) × (end ≤ length frame)
unfolding parse_udp
parse_udp-bounds frame dst_port dst_ip start end peer e = elim (Result-cases (find_ip frame)) [
  | inr (x, k) ↦ absurd (ground arith)
  | inl ((l3, ip), k) ↦ elim (Result-cases (find_segment ip)) [
    | inr (x, k') ↦ absurd (ground arith)
    | inl ((ihl, segment), k') ↦ elim (Result-cases (find_payload ip segment dst_port dst_ip)) [
      | inr (x, k'') ↦ absurd (ground arith)
      | inl (n, k'') ↦
          let a = find_ip-bounds frame l3 ip k in
          let b = find_segment-bounds ip ihl segment k' in
          let c = find_payload-bounds ip segment dst_port dst_ip n k'' in ground (arith, a, b, c)
    ]
  ]
]

be-append :
    (bytes pad : List ℕ) (i n : ℕ)
    → i + n ≤ length bytes
    → slice (bytes ++ pad) i n ≡ slice bytes i n
be-append bytes pad i n le =
    ap (take n) (drop-append_left i bytes pad (omega arith))
    ∙ take-append_left n (drop i bytes) pad (omega (arith, length-drop i bytes))

get_range-append :
    (bytes pad : List ℕ) (from to : ℕ) (s : List ℕ)
    → get_range bytes from to ≡ some s
    → get_range (bytes ++ pad) from to ≡ some s
unfolding get_range
get_range-append bytes pad from to s e =
    ground (arith, length-append bytes pad, be-append bytes pad from (to - from))

behind_eth-append :
    (eth rest pad : List ℕ) (l3 : ℕ) (ip : List ℕ)
    → behind_eth eth rest ≡ ok (l3, ip)
    → behind_eth eth (rest ++ pad) ≡ ok (l3, ip ++ pad)
unfolding behind_eth
behind_eth-append eth rest pad l3 ip e = elim (Option-cases (split_first_chunk 4 rest)) [
  | inl k ↦ ground arith
  | inr ((tag, inner), k) ↦ ground (arith, chunk-append 4 rest pad tag inner k)
]

find_ip-append :
    (frame pad : List ℕ) (l3 : ℕ) (ip : List ℕ)
    → find_ip frame ≡ ok (l3, ip)
    → find_ip (frame ++ pad) ≡ ok (l3, ip ++ pad)
unfolding find_ip
find_ip-append frame pad l3 ip e = elim (Option-cases (split_first_chunk 14 frame)) [
  | inl k ↦ absurd (ground arith)
  | inr ((eth, rest), k) ↦
      rw (chunk-append 14 frame pad eth rest k, find_ip)
        (behind_eth-append eth rest pad l3 ip (rw (k, find_ip) at e))
]

behind_hdr-append :
    (hdr ip pad : List ℕ) (ihl : ℕ) (segment : List ℕ)
    → behind_hdr hdr ip ≡ ok (ihl, segment)
    → behind_hdr hdr (ip ++ pad) ≡ ok (ihl, segment)
unfolding behind_hdr
behind_hdr-append hdr ip pad ihl segment e =
    let start = get_or hdr 0 0 % 16 * 4 in
    elim (Option-cases (get_range ip start (be16 hdr 2))) [
      | inl k ↦ absurd (ground arith)
      | inr (s, k) ↦
          ground (arith, get_range-append ip pad start (be16 hdr 2) s k, length-append ip pad)
    ]

find_segment-append :
    (ip pad : List ℕ) (ihl : ℕ) (segment : List ℕ)
    → find_segment ip ≡ ok (ihl, segment)
    → (find_segment (ip ++ pad) ≡ ok (ihl, segment)) × (20 ≤ length ip)
unfolding find_segment
find_segment-append ip pad ihl segment e = elim (Option-cases (split_first_chunk 20 ip)) [
  | inl k ↦ absurd (ground arith)
  | inr ((hdr, rest), k) ↦ (
    rw (chunk-append 20 ip pad hdr rest k, find_segment)
        (behind_hdr-append hdr ip pad ihl segment (rw (k, find_segment) at e)),
    (split_first_chunk-some 20 ip hdr rest k).0,
  )
]

be32-append :
    (bytes pad : List ℕ) (i : ℕ) → i + 4 ≤ length bytes → be32 (bytes ++ pad) i ≡ be32 bytes i
be32-append bytes pad i le = ap (from_be 0) (be-append bytes pad i 4 le)

find_payload-append :
    (ip pad segment : List ℕ) (dst_port : ℕ) (dst_ip : Option ℕ)
    → 20 ≤ length ip
    → find_payload (ip ++ pad) segment dst_port dst_ip ≡ find_payload ip segment dst_port dst_ip
unfolding find_payload
find_payload-append ip pad segment dst_port dst_ip le =
    let same = be32-append ip pad 16 (omega arith) in
    elim (Option-cases (split_first_chunk 8 segment)) [
      | inl k ↦ rw (k, find_payload) refl
      | inr ((udp, rest), k) ↦ rw (k, same, find_payload) refl
    ]

-- A frame that carries a datagram carries the same one, in the same place and from the same peer, when any
-- bytes are padded behind it.
pub parse_udp-append :
    (frame pad : List ℕ) (dst_port : ℕ) (dst_ip : Option ℕ) (start end : ℕ) (peer : SocketAddr)
    → parse_udp frame dst_port dst_ip ≡ ok (start, end, peer)
    → parse_udp (frame ++ pad) dst_port dst_ip ≡ ok (start, end, peer)
unfolding parse_udp
parse_udp-append frame pad dst_port dst_ip start end peer e = elim (Result-cases (find_ip frame)) [
  | inr (x, k) ↦ absurd (ground arith)
  | inl ((l3, ip), k) ↦ elim (Result-cases (find_segment ip)) [
    | inr (x, k') ↦ absurd (ground arith)
    | inl ((ihl, segment), k') ↦
        let a = find_ip-append frame pad l3 ip k in
        let b = find_segment-append ip pad ihl segment k' in
        ground (
          arith,
          e,
          k,
          k',
          a,
          b.0,
          find_payload-append ip pad segment dst_port dst_ip b.1,
          be32-append ip pad 12 (omega (arith, b.1)),
        )
  ]
]
