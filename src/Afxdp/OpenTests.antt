-- ===== src/Afxdp/OpenTests.antt =====
-- Opening a socket on a kernel that grants everything.
use polaris_trade.Base.{ℕ, ◌*◌, ◌≡◌, ◌↔◌, refl, subst, List, [], ◌∷◌, map, arith}
use mathlib.Core.List.{reverse}
use polaris_trade.Base.Weigh.{upto}
use polaris_trade.Base.Result.{Result, ok, err}
use polaris_trade.Transport.Error.{IoError, invalid_config}
use polaris_trade.Transport.IndexPool.{IndexPool}
use polaris_trade.Afxdp.Ring.{Producer, Consumer}
use polaris_trade.Afxdp.Ring.Contents.{contents}
use polaris_trade.Afxdp.Driver.{XdpDesc, Rings}
use polaris_trade.Afxdp.System.{System, initial, IsFresh, Reach}
use polaris_trade.Afxdp.Config.{
  AfxdpConfig, new_config, validate, is_power_below, check_redirect, pinned,
}
use polaris_trade.Afxdp.Config.Accepted.{IsAccepted, validate_iff}
use polaris_trade.Afxdp.Open.{
  Kernel, RingWords, RingOffset, mapping_len, map_fill, map_rx, mmap_offsets, register_umem,
  set_rings, opened_rings, prepare, attach, open_socket, bind,
}
use polaris_trade.Afxdp.Open.Mapped.{IsMapped, mapping_len-IsMapped}
use polaris_trade.Afxdp.Open.Fresh.{IsIdle, bind-Reach}

abbrev veth0 : List ℕ
veth0 = 0x76 ∷ 0x65 ∷ 0x74 ∷ 0x68 ∷ 0x30 ∷ []

abbrev config : AfxdpConfig
config = record (new_config veth0 0) { frames = 4 }

validate_results :
    (validate config ≡ ok tt)
    × (validate (record config { ifname = [] }) ≡ err (invalid_config "ifname" "empty"))
    × (validate (record config { frames = 3 }) ≡ err (invalid_config "frames" "not a power of two"))
    × (validate (record config { headroom = 1792 })
        ≡ err (invalid_config "headroom" "leaves no packet room in frame"))
    × (validate (record config { headroom = 1791 }) ≡ ok tt)
    × (validate (record config { queue = 4_294_967_295 })
        ≡ err (invalid_config "queue" "u32::MAX leaves no XSKMAP size"))
    × (validate (record config { redirect = pinned [] })
        ≡ err (invalid_config "redirect.path" "empty"))
unfolding validate is_power_below check_redirect
validate_results = (refl, refl, refl, refl, refl, refl, refl)

validate_iff_example : (validate config ≡ ok tt) ↔ IsAccepted config
validate_iff_example = validate_iff config

abbrev offsets : RingOffset
offsets = record { producer = 0; consumer = 64; flags = 128; desc = 320 }

mapping_len_result : mapping_len offsets 4 16 8 ≡ ok 384
unfolding mapping_len
mapping_len_result = refl

mapping_len-IsMapped_example : IsMapped offsets 4 16 8 384
mapping_len-IsMapped_example = mapping_len-IsMapped offsets 4 16 8 384 mapping_len_result

abbrev idle_words : {A : Type 0} → A → RingWords A
idle_words a = record { producer_word = 0; consumer_word = 0; flags_word = 1; entries = λ i. a }

abbrev blank : XdpDesc
blank = record { addr = 0; len = 0 }

abbrev granting : Kernel (Unit {0})
granting = record {
  if_nametoindex = λ k name. (ok 7, k);
  allocate = λ k len. (ok tt, k);
  new_socket = λ k. (ok tt, k);
  set_umem = λ k reg. (ok tt, k);
  set_ring = λ k option count. (ok tt, k);
  get_offsets = λ k. (ok (128, record { rx = offsets; fr = offsets }), k);
  mmap_fill = λ k len. (ok (idle_words 0), k);
  mmap_rx = λ k len. (ok (idle_words blank), k);
  bind_socket = λ k addr. (ok tt, k);
  install = λ k redirect ifindex queue. (ok tt, k);
}

idle_words-IsIdle : {A : Type 0} (a : A) → IsIdle (idle_words a)
idle_words-IsIdle a = record { level = refl; word = omega arith }

abbrev opened : Rings × IndexPool
opened = opened_rings config (idle_words 0) (idle_words blank)

bind_result : (bind granting config tt).0 ≡ ok opened
unfolding bind open_socket prepare attach map_fill map_rx mmap_offsets register_umem set_rings
    mapping_len validate is_power_below check_redirect
bind_result = refl

bind-Reach_example :
    let s : System = record { rings = opened.0; pool = opened.1; held = [] } in
    IsAccepted config
    × (fill : Producer ℕ) × (rx : Consumer XdpDesc) × IsFresh fill rx 4 2048
    × Reach (initial fill rx 4 2048) s
    × (contents s.rings.fill.ring ≡ map (λ slot. slot * 2048) (reverse (upto 4)))
    × (s.rings.free ≡ [])
bind-Reach_example =
    bind-Reach granting
      (λ k len w e.
        subst
          (λ (r : Result IoError (RingWords ℕ)). elim r as (λ q. Type 0) [
            | ok v ↦ IsIdle v
            | err x ↦ Unit {0}
          ])
          e (idle_words-IsIdle 0))
      (λ k len w e.
        subst
          (λ (r : Result IoError (RingWords XdpDesc)). elim r as (λ q. Type 0) [
            | ok v ↦ IsIdle v
            | err x ↦ Unit {0}
          ])
          e (idle_words-IsIdle blank))
      config tt opened bind_result
