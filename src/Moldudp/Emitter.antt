-- ===== src/Moldudp/Emitter.antt =====
-- `GapRequestEmitter` of crates/clients/moldudp/src/gap.rs: rate-limited re-requests. The socket is a
-- parameter: its state, and what `send_to` answers. Times are nanoseconds.
pub mod Limits
pub mod Disjoint
use polaris_trade.Base.{
  ℕ, ◌+◌, ◌-◌, ◌/◌, max, min, Bool, true, false, ◌&&◌, ◌||◌, List, [], ◌∷◌, ◌++◌, ltb, leb,
  if◌then◌else◌, add64, to_be,
}
use polaris_trade.Base.Result.{Result, ok, err}
use polaris_trade.Transport.Error.{
  SocketAddr, TransportError, io, would_block, IoErrorKind, other_kind,
}
use polaris_trade.Moldudp.Error.{MoldUdpError, transport}
use polaris_trade.Moldudp.Gap.{GapRequest}

-- A remembered range `[start, end)` and when it was last requested.
pub record Requested : Type 0 where
  pub start : ℕ
  pub stop : ℕ
  pub at : ℕ

pub record GapRequestEmitter : Type 0 where
  pub server_addr : SocketAddr
  pub requested : List Requested
  pub max_per_gap_per_sec : ℕ

-- `GapRequestEmitter::new`
abbrev pub new_emitter : SocketAddr → ℕ → GapRequestEmitter
new_emitter server_addr max_per_gap_per_sec = record {
  server_addr = server_addr;
  requested = [];
  max_per_gap_per_sec = max max_per_gap_per_sec 1;
}

-- `Duration::from_secs(1) / self.max_per_gap_per_sec`
abbrev pub interval : GapRequestEmitter → ℕ
interval e = 1_000_000_000 / e.max_per_gap_per_sec

-- `requested.retain(|at| now.duration_since(at) < interval)`; the difference of instants saturates.
unfoldable pub prune : ℕ → ℕ → List Requested → List Requested
prune now limit [] = []
prune now limit (r ∷ rs) =
    if ltb (now - r.at) limit then r ∷ prune now limit rs else prune now limit rs

-- `requested.iter().any(…)`: one remembered range holds all of `[start, end)`.
unfoldable pub is_covered : ℕ → ℕ → List Requested → Bool
is_covered start end [] = false
is_covered start end (r ∷ rs) = (leb r.start start && leb end r.stop) || is_covered start end rs

-- The `retain` of `mark_requested`: what it keeps, and the range as its closure has widened it.
unfoldable pub absorb_requested : ℕ → ℕ → List Requested → List Requested × ℕ × ℕ
absorb_requested start end [] = ([], start, end)
absorb_requested start end (r ∷ rs) =
    if ltb end r.start || ltb r.stop start
    then (let (kept, start', end') = absorb_requested start end rs in (r ∷ kept, start', end'))
    else absorb_requested (min start r.start) (max end r.stop) rs

unfoldable pub mark_requested : ℕ → ℕ → ℕ → List Requested → List Requested
mark_requested start end now rs =
    let (kept, start', end') = absorb_requested start end rs in
    kept ++ record { start = start'; stop = end'; at = now } ∷ []

unfoldable pub encode_request_packet : List ℕ → ℕ → ℕ → List ℕ
encode_request_packet session start_seq count = session ++ (to_be 8 start_seq ++ to_be 2 count)

-- `Err(TransportError::Io { error, .. })` with kind `WouldBlock`.
abbrev pub is_would_block : Result TransportError ℕ → Bool
is_would_block (ok n) = false
is_would_block (err (io stage would_block)) = true
is_would_block (err e) = false

module _ {ℓ} {Sock : Type ℓ}
    (send_to : Sock → List ℕ → SocketAddr → Result TransportError ℕ × Sock) where
  -- What the loop has changed when it stops: the emitter, the socket, and its result.
  abbrev pub Emitted : Type ℓ
  Emitted = GapRequestEmitter × Sock × Result MoldUdpError ℕ

  -- The `for` loop of `emit`.
  unfoldable pub emit_each : List ℕ → ℕ → GapRequestEmitter → Sock → ℕ → List GapRequest → Emitted
  emit_each session now e sock sent [] = (e, sock, ok sent)
  emit_each session now e sock sent (gap ∷ gaps) =
      let end = add64 gap.start_seq gap.count in
      let (result, sock') =
        send_to sock (encode_request_packet session gap.start_seq gap.count) e.server_addr in
      let e' : GapRequestEmitter = record e {
        requested = mark_requested gap.start_seq end now e.requested;
      } in
      let skip = emit_each session now e sock sent gaps in
      let next = emit_each session now e' sock' (sent + 1) gaps in
      if is_covered gap.start_seq end e.requested
      then skip
      else if is_would_block result
      then (e, sock', ok sent)
      else elim result [ err error ↦ (e', sock', err (transport error)) | ok n ↦ next ]

  unfoldable pub emit : GapRequestEmitter → List GapRequest → List ℕ → Sock → ℕ → Emitted
  emit e gaps session sock now =
      emit_each session now (record e { requested = prune now (interval e) e.requested }) sock 0
        gaps
