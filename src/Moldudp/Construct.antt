-- ===== src/Moldudp/Construct.antt =====
-- crates/clients/moldudp/src/receiver/construct.rs: a receiver over legs that the caller has built.
pub mod Started
use polaris_trade.Base.{
  ℕ, suc, ◌-◌, ◌^◌, Bool, true, false, ◌||◌, Option, none, some, List, [], ◌∷◌, ltb, ◌==◌, length,
  if◌then◌else◌,
}
use polaris_trade.Base.Result.{Result, ok, err}
use polaris_trade.Transport.Error.{SocketAddr}
use polaris_trade.Moldudp.Error.{MoldUdpError, pool_too_small, leg_count}
use polaris_trade.Moldudp.Gap.{new_handler}
use polaris_trade.Moldudp.Emitter.{new_emitter}
use polaris_trade.Moldudp.Ab.{AbArbiter, rebase, new as new_arbiter}
use polaris_trade.Moldudp.Reassembly.{SequenceReassembler, reset_expected, new as new_reassembler}
use polaris_trade.Moldudp.Receiver.{MessageView, Inner, empty_backing}
use polaris_trade.Moldudp.Receive.{MoldUdpReceiver, Requester}

abbrev pub ring_capacity : ℕ
ring_capacity = 4096

-- `RING_CAPACITY + MAX_INFLIGHT_BURST`
abbrev pub min_leg_pool_capacity : ℕ
min_leg_pool_capacity = 4160

-- The window is in milliseconds.
pub record MoldUdpReceiverConfig : Type 0 where
  pub max_rerequests_per_gap_per_sec : ℕ
  pub gap_confirm_window : ℕ
  pub start_sequence : Option ℕ

-- An arbiter for two legs or more; `none` is a panic of `AbArbiter::new`.
unfoldable pub arbiter_for : MoldUdpReceiverConfig → ℕ → Option (Option AbArbiter)
arbiter_for cfg count =
    let window_ms =
      if ltb cfg.gap_confirm_window (2 ^ 64) then cfg.gap_confirm_window else 2 ^ 64 - 1 in
    if ltb 1 count
    then elim (new_arbiter count ring_capacity window_ms) [ none ↦ none | some a ↦ some (some a) ]
    else some none

-- A configured start anchors now.
abbrev pub started_ring :
    Option ℕ → SequenceReassembler MessageView → SequenceReassembler MessageView
started_ring none r = r
started_ring (some start) r = reset_expected r start

abbrev pub started_arbiter : Option ℕ → Option AbArbiter → Option AbArbiter
started_arbiter none a = a
started_arbiter (some start) none = none
started_arbiter (some start) (some a) = some (rebase a start)

abbrev pub is_configured : Option ℕ → Bool
is_configured none = false
is_configured (some start) = true

-- The `Inner` that `from_legs` returns.
unfoldable pub assemble : Option ℕ → ℕ → Option AbArbiter → SequenceReassembler MessageView → Inner
assemble start_sequence count arbiter reassembler = record {
  recovery_stream = count;
  session = none;
  reassembler = started_ring start_sequence reassembler;
  next_unseen = (started_ring start_sequence reassembler).expected_next;
  gap_handler = new_handler;
  arbiter = started_arbiter start_sequence arbiter;
  ready = [];
  current = none;
  pending_datagrams = [];
  backing = empty_backing;
  inline_pending = 0;
  seq_anchored = is_configured start_sequence;
}

-- `NoRecovery`
pub data NoRecovery : Type 0 where
  no_recovery : NoRecovery

module _ {T : Type 0} (pool_capacity : T → ℕ) where
  -- The loop over the legs, from leg `leg` on: the first whose pool is too small.
  unfoldable pub check_pools : ℕ → List T → Option MoldUdpError
  check_pools leg [] = none
  check_pools leg (t ∷ legs) =
      let rest = check_pools (suc leg) legs in
      if ltb (pool_capacity t) min_leg_pool_capacity
      then some (pool_too_small leg (pool_capacity t) min_leg_pool_capacity)
      else rest

  -- `none` is a panic.
  unfoldable pub from_legs :
      {C : Type 0}
      → MoldUdpReceiverConfig
      → List T
      → C
      → Option (Result MoldUdpError (MoldUdpReceiver T NoRecovery C))
  from_legs cfg legs clock =
      let count = length legs in
      if (count == 0) || ltb 255 count
      then some (err (leg_count count))
      else elim (check_pools 0 legs) [
        | some error ↦ some (err error)
        | none ↦ elim (arbiter_for cfg count) [
          | none ↦ none
          | some arbiter ↦ elim (new_reassembler ring_capacity) [
            | none ↦ none
            | some reassembler ↦ some (
                ok (record {
                  inner = assemble cfg.start_sequence count arbiter reassembler;
                  legs = legs;
                  recovery = no_recovery;
                  clock = clock;
                }))
          ]
        ]
      ]

-- The rate is the one that the receiver was configured with.
unfoldable pub with_requester :
    {T C Q : Type 0}
    → ℕ
    → MoldUdpReceiver T NoRecovery C
    → Q
    → SocketAddr
    → MoldUdpReceiver T (Requester Q) C
with_requester max_rerequests rx requester server = record {
  inner = rx.inner;
  legs = rx.legs;
  recovery = record { sock = requester; emitter = new_emitter server max_rerequests };
  clock = rx.clock;
}
