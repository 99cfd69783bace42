-- ===== src/Afxdp/Config.antt =====
-- crates/transports/afxdp/src/config.rs: what a socket is asked for, and the checks before it is opened.
-- Texts are their bytes.
pub mod Accepted
use Prim.Native.String.{String}
use polaris_trade.Base.{
  ℕ, zero, suc, ◌-◌, ◌^◌, Bool, true, false, ◌||◌, not, List, [], ◌∷◌, ltb, leb, ◌==◌,
  if◌then◌else◌, length,
}
use polaris_trade.Base.Result.{Result, ok, err}
use polaris_trade.Transport.Error.{TransportError, invalid_config}

abbrev pub xdp_packet_headroom : ℕ
xdp_packet_headroom = 256

abbrev pub min_frame_size : ℕ
min_frame_size = 2048

-- IFNAMSIZ
abbrev pub ifnamsiz : ℕ
ifnamsiz = 16

pub data XdpMode : Type 0 where
  skb drv : XdpMode

pub data XdpRedirect : Type 0 where
  builtin : XdpMode → XdpRedirect
  pinned : List ℕ → XdpRedirect

pub record AfxdpConfig : Type 0 where
  pub ifname : List ℕ
  pub queue : ℕ
  pub frames : ℕ
  pub frame_size : ℕ
  pub headroom : ℕ
  pub zero_copy : Bool
  pub redirect : XdpRedirect

-- `AfxdpConfig::new`
abbrev pub new_config : List ℕ → ℕ → AfxdpConfig
new_config ifname queue = record {
  ifname = ifname;
  queue = queue;
  frames = 4096;
  frame_size = 2048;
  headroom = 0;
  zero_copy = false;
  redirect = builtin skb;
}

abbrev pub invalid : String → String → Result TransportError (Unit {0})
invalid field reason = err (invalid_config field reason)

abbrev pub has_nul : List ℕ → Bool
has_nul [] = false
has_nul (b ∷ bs) = (b == 0) || has_nul bs

abbrev pub is_blank : List ℕ → Bool
is_blank [] = true
is_blank (b ∷ bs) = false

-- `u32::is_power_of_two`: one of the powers below the exponent.
unfoldable pub is_power_below : ℕ → ℕ → Bool
is_power_below zero n = false
is_power_below (suc k) n = (n == 2 ^ k) || is_power_below k n

-- The last `match` of `validate`.
unfoldable pub check_redirect : ℕ → XdpRedirect → Result TransportError (Unit {0})
check_redirect queue (builtin mode) =
    if queue == 2 ^ 32 - 1 then invalid "queue" "u32::MAX leaves no XSKMAP size" else ok tt
check_redirect queue (pinned path) =
    if is_blank path
    then invalid "redirect.path" "empty"
    else if has_nul path
    then invalid "redirect.path" "contains NUL byte"
    else ok tt

unfoldable pub validate : AfxdpConfig → Result TransportError (Unit {0})
validate cfg =
    if is_blank cfg.ifname
    then invalid "ifname" "empty"
    else if leb ifnamsiz (length cfg.ifname)
    then invalid "ifname" "longer than 15 bytes"
    else if has_nul cfg.ifname
    then invalid "ifname" "contains NUL byte"
    else if not (is_power_below 32 cfg.frames)
    then invalid "frames" "not a power of two"
    else if not (is_power_below 32 cfg.frame_size) || ltb cfg.frame_size min_frame_size
    then invalid "frame_size" "not a power of two of at least 2048"
    else if leb (cfg.frame_size - xdp_packet_headroom) cfg.headroom
    then invalid "headroom" "leaves no packet room in frame"
    else check_redirect cfg.queue cfg.redirect
