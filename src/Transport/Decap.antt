-- ===== src/Transport/Decap.antt =====
-- `parse_udp` and `UdpDecap` of crates/transports/core/src/decap.rs. A frame is its bytes; the source of
-- frames below is a parameter.
pub mod Bounds
pub mod Deliver
use polaris_trade.Base.{
  ℕ, zero, suc, ◌+◌, ◌-◌, ◌*◌, ◌/◌, ◌%◌, Bool, true, false, not, ◌&&◌, ◌||◌, Option, none, some,
  List, [], ◌∷◌, ◌++◌, ltb, leb, ◌==◌, if◌then◌else◌, length, take, drop, get_or, from_be, slice,
  split_first_chunk, add64,
}
use polaris_trade.Base.Result.{Result, ok, err, ◌>>=◌, ok_or}
use polaris_trade.Transport.Error.{SocketAddr, v4, TransportError}

pub data DecapDrop : Type 0 where
  not_ipv4 fragment wrong_dst truncated : DecapDrop

-- `DecapStats`
pub record DecapStats : Type 0 where
  pub not_ipv4_count : ℕ
  pub fragment_count : ℕ
  pub wrong_dst_count : ℕ
  pub truncated_count : ℕ

-- `DecapFrame`
pub record DecapFrame : Type 0 where
  pub frame : List ℕ
  pub start : ℕ
  pub end : ℕ
  pub peer : SocketAddr

-- `u16::from_be_bytes([bytes[i], bytes[i + 1]])`, and an address of four bytes as a number.
abbrev pub be16 : List ℕ → ℕ → ℕ
be16 bytes i = from_be 0 (slice bytes i 2)

abbrev pub be32 : List ℕ → ℕ → ℕ
be32 bytes i = from_be 0 (slice bytes i 4)

-- `slice.get(from..to)`
unfoldable pub get_range : List ℕ → ℕ → ℕ → Option (List ℕ)
get_range bytes from to =
    if leb from to && leb to (length bytes) then some (slice bytes from (to - from)) else none

-- Where the IPv4 packet begins, and its bytes: behind the Ethernet header `eth` and at most one tag.
unfoldable pub behind_eth : List ℕ → List ℕ → Result DecapDrop (ℕ × List ℕ)
behind_eth eth rest =
    if be16 eth 12 == 0x0800
    then ok (14, rest)
    else if be16 eth 12 == 0x8100
    then elim (split_first_chunk 4 rest) [
      | none ↦ err truncated
      | some (tag, ip) ↦ if be16 tag 2 == 0x0800 then ok (18, ip) else err not_ipv4
    ]
    else err not_ipv4

unfoldable pub find_ip : List ℕ → Result DecapDrop (ℕ × List ℕ)
find_ip frame = ok_or (split_first_chunk 14 frame) truncated >>= λ parts. behind_eth parts.0 parts.1

-- The length of the IPv4 header, whose first 20 bytes are `hdr`, and the UDP segment behind it.
unfoldable pub behind_hdr : List ℕ → List ℕ → Result DecapDrop (ℕ × List ℕ)
behind_hdr hdr ip =
    let ihl = get_or hdr 0 0 % 16 * 4 in
    if not (get_or hdr 0 0 / 16 == 4)
    then err not_ipv4
    else if ltb ihl 20 || ltb (length ip) ihl
    then err truncated
    else if not (be16 hdr 6 % 0x4000 == 0)
    then err fragment
    else if not (get_or hdr 9 0 == 17)
    then err wrong_dst
    else elim (get_range ip ihl (be16 hdr 2)) [ none ↦ err truncated | some s ↦ ok (ihl, s) ]

unfoldable pub find_segment : List ℕ → Result DecapDrop (ℕ × List ℕ)
find_segment ip = ok_or (split_first_chunk 20 ip) truncated >>= λ parts. behind_hdr parts.0 ip

-- `dst_ip.is_some_and(|want| want != dst)`
abbrev pub is_other : Option ℕ → ℕ → Bool
is_other none dst = false
is_other (some want) dst = not (want == dst)

-- The UDP header: the end of the payload within the segment.
unfoldable pub find_payload : List ℕ → List ℕ → ℕ → Option ℕ → Result DecapDrop ℕ
find_payload ip segment dst_port dst_ip = elim (split_first_chunk 8 segment) [
  | none ↦ err truncated
  | some (udp, rest) ↦
      if not (be16 udp 2 == dst_port) || is_other dst_ip (be32 ip 16)
      then err wrong_dst
      else if ltb (be16 udp 4) 8 || ltb (length segment) (be16 udp 4)
      then err truncated
      else ok (be16 udp 4)
]

-- `parse_udp`: the range of the payload, and the peer.
unfoldable pub parse_udp : List ℕ → ℕ → Option ℕ → Result DecapDrop (ℕ × ℕ × SocketAddr)
parse_udp frame dst_port dst_ip = do
  (l3, ip) ← find_ip frame
  (ihl, segment) ← find_segment ip
  udp_len ← find_payload ip segment dst_port dst_ip
  ok (l3 + ihl + 8, l3 + ihl + udp_len, record { ip = v4 (be32 ip 12); port = be16 segment 0 })

-- `DecapStats::count`
unfoldable pub count : DecapStats → DecapDrop → DecapStats
count s not_ipv4 = record s { not_ipv4_count = add64 s.not_ipv4_count 1 }
count s fragment = record s { fragment_count = add64 s.fragment_count 1 }
count s wrong_dst = record s { wrong_dst_count = add64 s.wrong_dst_count 1 }
count s truncated = record s { truncated_count = add64 s.truncated_count 1 }

-- `<DecapFrame as AsRef>::as_ref`
unfoldable pub payload_of : DecapFrame → List ℕ
payload_of f = elim (get_range f.frame f.start f.end) [ none ↦ [] | some bytes ↦ bytes ]

-- `UdpDecap` without the source below it.
pub record UdpDecap : Type 0 where
  pub dst_port : ℕ
  pub dst_ip : Option ℕ
  pub pending : List (List ℕ)
  pub stats : DecapStats

-- The loop of `deliver` over what is pending, with room for `spare` datagrams: what is pushed, what stays
-- pending, and the counters.
unfoldable pub deliver_from :
    ℕ → Option ℕ → ℕ → List (List ℕ) → DecapStats → List DecapFrame × List (List ℕ) × DecapStats
deliver_from dst_port dst_ip zero pending stats = ([], pending, stats)
deliver_from dst_port dst_ip (suc spare) [] stats = ([], [], stats)
deliver_from dst_port dst_ip (suc spare) (frame ∷ pending) stats =
    elim (parse_udp frame dst_port dst_ip) [
      | err reason ↦ deliver_from dst_port dst_ip (suc spare) pending (count stats reason)
      | ok (start, end, peer) ↦
          let (pushed, rest, stats') = deliver_from dst_port dst_ip spare pending stats in
          (record { frame = frame; start = start; end = end; peer = peer } ∷ pushed, rest, stats')
    ]

unfoldable pub deliver : UdpDecap → ℕ → List DecapFrame × UdpDecap
deliver d spare =
    let (pushed, rest, stats) = deliver_from d.dst_port d.dst_ip spare d.pending d.stats in
    (pushed, record d { pending = rest; stats = stats })

-- The loop of `fill`. `recv_burst` of the source answers the frames of a burst; on fuel, and `none` once
-- that is spent.
module _ {S : Type 0} (recv_burst : S → Result TransportError (List (List ℕ)) × S) where
  unfoldable pub fill_fuel :
      ℕ → S → UdpDecap → ℕ → Option (Result TransportError (List DecapFrame) × UdpDecap × S)
  fill_fuel zero s d spare = none
  fill_fuel (suc fuel) s d spare =
      let (pushed, d') = deliver d spare in
      let (answer, s') = recv_burst s in
      if ltb 0 (length pushed) || (spare == 0) then some (ok pushed, d', s) else elim answer [
        | err e ↦ some (err e, d', s')
        | ok [] ↦ some (ok [], d', s')
        | ok (frame ∷ frames) ↦
            fill_fuel fuel s' (record d' { pending = d'.pending ++ (frame ∷ frames) }) spare
      ]
