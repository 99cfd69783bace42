-- ===== src/Moldudp/Construct/Started.antt =====
-- A receiver that was built with a start sequence, and what it hands out from then on.
use polaris_trade.Base.{
  ℕ, ◌<◌, ◌≡◌, refl, sym, subst, false, ◌||◌, Option, none, some, List, [], ltb, ◌==◌, length, inl,
  inr, Option-cases, All, arith,
}
use polaris_trade.Base.Result.{ok}
use polaris_trade.Moldudp.Ab.{AbArbiter, new as new_arbiter}
use polaris_trade.Moldudp.Reassembly.{SequenceReassembler, reset_expected, new as new_reassembler}
use polaris_trade.Moldudp.Reassembly.View.{IsValid, held, new-IsValid}
use polaris_trade.Moldudp.Receiver.{MessageView, Inner}
use polaris_trade.Moldudp.Receiver.InOrder.{Emits, expected}
use polaris_trade.Moldudp.Receiver.Process.{InRange}
use polaris_trade.Moldudp.Receive.{MoldUdpReceiver, World}
use polaris_trade.Moldudp.Receive.Numbered.{IsRunning}
use polaris_trade.Moldudp.Receive.Polls.{Numbered, poll_all, poll_all-Emits}
use polaris_trade.Moldudp.Construct.{
  ring_capacity, MoldUdpReceiverConfig, arbiter_for, assemble, NoRecovery, no_recovery, check_pools,
  from_legs,
}

-- A receiver waits for `start`, with nothing to hand out.
pub record IsStarted (r : Inner) (start : ℕ) : Type 0 where
  pub running : IsRunning r
  pub idle : r.ready ≡ []
  pub first : expected r ≡ start

new_reassembler-some :
    (capacity : ℕ)
    → 0 < capacity
    → (r : SequenceReassembler MessageView) × (new_reassembler capacity ≡ some r)
unfolding new_reassembler
new_reassembler-some capacity h = elim (Option-cases (new_reassembler {A = MessageView} capacity)) [
  | inl e ↦ absurd (ground arith)
  | inr (r, e) ↦ (r, e)
]

arbiter_for-some :
    (cfg : MoldUdpReceiverConfig) (count : ℕ)
    → (a : Option AbArbiter) × (arbiter_for cfg count ≡ some a)
unfolding arbiter_for new_arbiter
arbiter_for-some cfg count = elim (Option-cases (arbiter_for cfg count)) [
  | inl e ↦ absurd (ground arith)
  | inr (a, e) ↦ (a, e)
]

assemble-IsStarted :
    (start count : ℕ) (a : Option AbArbiter) (r : SequenceReassembler MessageView)
    → IsValid r
    → ((s : ℕ) → held r s ≡ none)
    → IsStarted (assemble (some start) count a r) start
unfolding assemble reset_expected held
assemble-IsStarted start count a r v free = record {
  running = record {
    ready = record {
      valid = record { sized = v.sized; positive = v.positive; placed = v.placed };
      fits = λ s view h. ground (arith, free s);
      anchored = refl;
    };
    waiting = tt;
  };
  idle = refl;
  first = refl;
}

module _ {T C : Type 0} (pool_capacity : T → ℕ) where
  from_legs-IsStarted :
      (cfg : MoldUdpReceiverConfig) (legs : List T) (clock : C) (start : ℕ)
      → cfg.start_sequence ≡ some start
      → ((length legs == 0) || ltb 255 (length legs)) ≡ false
      → check_pools pool_capacity 0 legs ≡ none
      → (rx : MoldUdpReceiver T NoRecovery C) × (from_legs pool_capacity cfg legs clock
          ≡ some (ok rx))
        × IsStarted rx.inner start
  unfolding from_legs
  from_legs-IsStarted cfg legs clock start e counted enough =
      let (a, got_a) = arbiter_for-some cfg (length legs) in
      let (r, got_r) = new_reassembler-some ring_capacity (omega arith) in
      let (valid, free, one) = new-IsValid ring_capacity r got_r in
      (
        record {
          inner = assemble cfg.start_sequence (length legs) a r;
          legs = legs;
          recovery = no_recovery;
          clock = clock;
        },
        rw (counted, enough, got_a, got_r) refl,
        subst (λ q. IsStarted (assemble q (length legs) a r) start) (sym e)
            (assemble-IsStarted start (length legs) a r valid free),
      )

  -- A receiver that is built with a start sequence over 1 to 255 legs, each with pool enough, comes back,
  -- whatever the rest of the configuration; and with any recovery, over any number of polls, the frames that
  -- the polls answer, and behind them the messages that are ready, are numbered consecutively from the start
  -- sequence, up to a poll that panics because the bytes of the next message in turn lie outside of what holds
  -- them. Sequences that arrive stay below the last of u64.
  pub from_legs-Emits :
      {R : Type 0} (world : World T R C)
      (legs_InRange : (t : T) (frames : List (List ℕ))
        → (world.recv_burst t).0 ≡ ok frames
        → All InRange frames)
      (recovery_InRange : (q : R) (frames : List (List ℕ))
        → (world.recover q).0 ≡ ok frames
        → All InRange frames)
      (cfg : MoldUdpReceiverConfig) (legs : List T) (clock : C) (start : ℕ) (recovery : R)
      (fuels : List ℕ)
      → cfg.start_sequence ≡ some start
      → ((length legs == 0) || ltb 255 (length legs)) ≡ false
      → check_pools pool_capacity 0 legs ≡ none
      → (rx : MoldUdpReceiver T NoRecovery C) × (from_legs pool_capacity cfg legs clock
          ≡ some (ok rx))
        × (let (answers, rx') =
              poll_all world
                (record { inner = rx.inner; legs = rx.legs; recovery = recovery; clock = rx.clock })
                fuels in
            Numbered start answers rx'.inner)
  from_legs-Emits world legs_InRange recovery_InRange cfg legs clock start recovery fuels e counted
        enough =
      let (rx, built, started) = from_legs-IsStarted cfg legs clock start e counted enough in
      (
        rx,
        built,
        poll_all-Emits world legs_InRange recovery_InRange start
            (record { inner = rx.inner; legs = rx.legs; recovery = recovery; clock = rx.clock })
            fuels started.running
            (subst (λ xs. Emits start xs (expected rx.inner)) (sym started.idle)
              (sym started.first)),
      )
