-- ===== src/Transport/Tests.antt =====
-- A padded Ethernet frame with one UDP datagram of two bytes.
use polaris_trade.Base.{
  ℕ, zero, suc, ◌≤◌, ◌<◌, ◌≡◌, ◌≢◌, refl, none, List, [], ◌∷◌, ◌++◌, arith, length, replicate,
  from_be, split_first_chunk,
}
use polaris_trade.Base.Result.{Result, ok}
use polaris_trade.Transport.Error.{TransportError, SocketAddr, v4}
use polaris_trade.Transport.Decap.{
  DecapStats, UdpDecap, parse_udp, find_ip, behind_eth, find_segment, behind_hdr, find_payload,
  get_range, deliver_from, fill_fuel,
}
use polaris_trade.Transport.Decap.Bounds.{parse_udp-bounds, parse_udp-append}
use polaris_trade.Transport.Decap.Deliver.{Delivered, deliver_from_lem, fill_fuel_ends}

abbrev frame : List ℕ
frame =
    replicate 12 0
    ++ (8 ∷ 0 ∷ 0x45 ∷ 0 ∷ 0 ∷ 30 ∷ 0 ∷ 0 ∷ 0x40 ∷ 0 ∷ 64 ∷ 17 ∷ 0 ∷ 0 ∷ 10 ∷ 0 ∷ 0 ∷ 1 ∷ 239 ∷ 1
        ∷ 1 ∷ 1 ∷ 0 ∷ 7 ∷ 0 ∷ 9 ∷ 0 ∷ 10 ∷ 0 ∷ 0 ∷ 0x41 ∷ 0x42 ∷ [])

abbrev sender : SocketAddr
sender = record { ip = v4 0x0a000001; port = 7 }

parse_udp_run : parse_udp frame 9 none ≡ ok (42, 44, sender)
unfolding parse_udp find_ip behind_eth find_segment behind_hdr find_payload get_range
    split_first_chunk from_be
parse_udp_run = refl

parse_udp-bounds_example : (42 ≤ 42) × (42 ≤ 44) × (44 ≤ length frame)
parse_udp-bounds_example = parse_udp-bounds frame 9 none 42 44 sender parse_udp_run

parse_udp-append_example : parse_udp (frame ++ replicate 16 0) 9 none ≡ ok (42, 44, sender)
parse_udp-append_example = parse_udp-append frame (replicate 16 0) 9 none 42 44 sender parse_udp_run

abbrev no_drops : DecapStats
no_drops = record {
  not_ipv4_count = 0;
  fragment_count = 0;
  wrong_dst_count = 0;
  truncated_count = 0;
}

deliver_from_example :
    Delivered 9 none 1
      ([] ∷ frame ∷ frame ∷ [])
      no_drops
      (deliver_from 9 none 1 ([] ∷ frame ∷ frame ∷ []) no_drops)
deliver_from_example = deliver_from_lem 9 none 1 ([] ∷ frame ∷ frame ∷ []) no_drops

-- A source that gives an empty frame as often as its number says.
abbrev bursts : ℕ → Result TransportError (List (List ℕ)) × ℕ
bursts zero = (ok [], zero)
bursts (suc n) = (ok ([] ∷ []), n)

bursts_fewer :
    (n : ℕ) (f : List ℕ) (fs : List (List ℕ)) → (bursts n).0 ≡ ok (f ∷ fs) → (bursts n).1 < n
bursts_fewer zero f fs e = absurd (cc e)
bursts_fewer (suc n) f fs e = omega arith

abbrev idle : UdpDecap
idle = record { dst_port = 9; dst_ip = none; pending = []; stats = no_drops }

fill_fuel_ends_example : fill_fuel bursts 4 3 idle 1 ≢ none
fill_fuel_ends_example = fill_fuel_ends bursts (λ n. n) bursts_fewer 4 3 idle 1 (omega arith)
