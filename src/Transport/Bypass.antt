-- ===== src/Transport/Bypass.antt =====
-- `BypassTransport` of crates/transports/core/src/bypass/mod.rs, with the feature `observability`, over a driver that
-- is a parameter. What its telemetry records is a list of events.
pub mod Deferred
mod Tests
use Prim.Native.String.{String}
use polaris_trade.Base.{
  ℕ, ◌+◌, ◌-◌, ◌^◌, ◌%◌, Bool, true, false, not, ◌&&◌, Option, none, some, List, [], ◌∷◌, ◌++◌, ltb,
  ◌==◌, if◌then◌else◌, length, drop, add64,
}
use polaris_trade.Base.Result.{Result, ok, err}
use polaris_trade.Transport.Error.{TransportError, pool_exhausted}
use polaris_trade.Transport.Batch.{FrameBatch, PoolStats, len}

abbrev pub stats_every : ℕ
stats_every = 1024

pub data Polled : Type 0 where
  frames : ℕ → Polled
  idle exhausted : Polled

pub record DriverStats : Type 0 where
  pub no_buffer : ℕ
  pub nic_missed : ℕ
  pub truncated : ℕ
  pub syscalls : ℕ

-- `DropReason`, and what `record_recv_burst` and `record_drops` get.
pub data DropReason : Type 0 where
  no_buffer_drop nic_missed_drop truncated_drop : DropReason

pub data Metric : Type 0 where
  recv_burst : (frames bytes : ℕ) → Metric
  drops : DropReason → ℕ → Metric

-- `Driver`: `poll_frames`, `stats` and `pool_stats` of a driver whose state is `D`, and the bytes of
-- a frame. To read the counters may change what a driver remembers of them.
pub record Driver (D F : Type 0) : Type 0 where
  pub poll_frames : D → FrameBatch F → Result TransportError Polled × D × FrameBatch F
  pub stats : D → DriverStats × D
  pub pool_stats : D → PoolStats
  pub as_ref : D → F → List ℕ

pub record BypassTransport (D : Type 0) : Type 0 where
  pub driver : D
  pub deferred : Option TransportError
  pub last : DriverStats
  pub calls : ℕ

module _ {D F : Type 0} (drv : Driver D F) where
  -- `BypassTransport::new`
  abbrev pub new_bypass : D → BypassTransport D
  new_bypass driver = record {
    driver = (drv.stats driver).1;
    deferred = none;
    last = (drv.stats driver).0;
    calls = 0;
  }

  -- What `poll_frames` makes of the driver's outcome, when `pushed` frames were pushed.
  unfoldable pub settle :
      BypassTransport D
      → Result TransportError Polled
      → ℕ
      → Result TransportError ℕ × BypassTransport D
  settle t (ok exhausted) pushed =
      if pushed == 0
      then (
        err (pool_exhausted (drv.pool_stats t.driver).in_use (drv.pool_stats t.driver).capacity),
        t,
      )
      else (ok pushed, t)
  settle t (ok (frames n)) pushed = (ok pushed, t)
  settle t (ok idle) pushed = (ok pushed, t)
  settle t (err error) pushed =
      if ltb 0 pushed then (ok pushed, record t { deferred = some error }) else (err error, t)

  -- `poll_frames`
  unfoldable pub poll_bypass :
      BypassTransport D → FrameBatch F → Result TransportError ℕ × BypassTransport D × FrameBatch F
  poll_bypass t out =
      let (polled, driver, out') = drv.poll_frames t.driver out in
      let (answer, t') = settle (record t { driver = driver }) polled (len out' - len out) in
      elim t.deferred [
        | some error ↦ (err error, record t { deferred = none }, out)
        | none ↦ (answer, t', out')
      ]

  -- `report_drops`
  abbrev pub report_drops : BypassTransport D → BypassTransport D × List Metric
  report_drops t =
      let (now, driver) = drv.stats t.driver in
      let last = t.last in
      (
        record t { last = now; driver = driver },
        drops no_buffer_drop (now.no_buffer - last.no_buffer)
            ∷ drops nic_missed_drop (now.nic_missed - last.nic_missed)
            ∷ drops truncated_drop (now.truncated - last.truncated)
            ∷ [],
      )

  abbrev pub bytes_of : D → List F → ℕ
  bytes_of d [] = 0
  bytes_of d (f ∷ fs) = length (drv.as_ref d f) + bytes_of d fs

  -- `report`, where `enabled` is the gate of the metrics.
  unfoldable pub report : Bool → BypassTransport D → List F → BypassTransport D × List Metric
  report enabled t pushed =
      let t' : BypassTransport D = record t { calls = t.calls + 1 } in
      let burst : List Metric =
        if length pushed == 0
        then []
        else recv_burst (length pushed) (bytes_of t.driver pushed % 2 ^ 64) ∷ [] in
      let (reported, metrics) = report_drops (record t' { calls = 0 }) in
      if not enabled
      then (t, [])
      else if t'.calls == stats_every
      then (reported, burst ++ metrics)
      else (t', burst)

  -- `recv`, which `recv_burst` is on both layers.
  unfoldable pub recv :
      Bool
      → BypassTransport D
      → FrameBatch F
      → Result TransportError ℕ × BypassTransport D × FrameBatch F × List Metric
  recv enabled t out =
      let (answer, t', out') = poll_bypass t out in
      let (t'', metrics) = report enabled t' (drop (len out) out'.frames) in
      (answer, t'', out', metrics)
