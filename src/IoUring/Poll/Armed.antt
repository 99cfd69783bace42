-- ===== src/IoUring/Poll/Armed.antt =====
-- The fleet: how many requests are armed behind `poll_frames`.
use polaris_trade.Base.{ℕ, ◌<◌, ◌≡◌, ◌⊎◌, true, false}
use polaris_trade.Base.Result.{Result, ok, err}
use polaris_trade.Transport.Error.{TransportError}
use polaris_trade.Transport.Bypass.{Polled, frames, idle, exhausted}
use polaris_trade.IoUring.Driver.{Fleet}
use polaris_trade.IoUring.Poll.{IoUring, Answer}

abbrev Reached : Answer → ℕ → Fleet → Type 0
Reached (ok u) n f = f.armed ≡ n
Reached (err e) n f = Unit

-- Without an error, all requests are armed or none may be.
abbrev pub IsFull : Fleet → Type 0
IsFull f = (f.starved ≡ true) ⊎ (f.armed ≡ f.depth)

abbrev pub Full : Answer → Fleet → Type 0
Full (ok u) f = IsFull f
Full (err e) f = Unit

-- What the answer of `poll_frames` says of the fleet.
abbrev pub Says : Result TransportError Polled → Fleet → Type 0
Says (ok (frames n)) f = (0 < n) × IsFull f
Says (ok idle) f = (f.starved ≡ false) × (f.armed ≡ f.depth)
Says (ok exhausted) f = f.starved ≡ true
Says (err e) f = Unit
