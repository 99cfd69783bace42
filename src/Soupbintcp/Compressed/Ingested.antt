-- ===== src/Soupbintcp/Compressed/Ingested.antt =====
-- What `ingest` does to a session, with the feature `compressed`.
use polaris_trade.Base.{ℕ, ◌≤◌, ◌≡◌, ◌≢◌, Bool, true, false, List, [], ◌++◌, length, drop}
use polaris_trade.Base.Result.{Result, ok, err}
use polaris_trade.Transport.Error.{TransportError}
use polaris_trade.Soupbintcp.Error.{SoupBinError, transport}
use polaris_trade.Soupbintcp.Compressed.{Inflator, inflated, Staging, staged}
use polaris_trade.Soupbintcp.Compressed.Fed.{Fed}

-- The bytes that a read gave.
abbrev landed : Result TransportError (List ℕ) → List ℕ
landed (err e) = []
landed (ok bytes) = bytes

module _ {Z T : Type 0} (flate : Inflator Z)
    (recv_into : T → ℕ → Result TransportError (List ℕ) × T) where
  -- A feed of `input`: its output goes behind the decode buffer, and the rest of the input stays staged.
  pub data Step (s : Staging Z) (now : ℕ) (input : List ℕ) (answer : Result SoupBinError Bool)
      (s' : Staging Z) : Type 0 where
    moved_on :
        (n : ℕ)
        → Fed flate s.inflate.inflator input (length s.inflate.out) (ok n) s'.inflate
        → length (inflated s'.inflate) ≤ length s.inflate.out
        → s'.session ≡ record s.session {
          decode_buf = s.session.decode_buf ++ inflated s'.inflate;
          last_recv = now;
        }
        → s'.recv_staging ≡ drop n input
        → answer ≡ ok true
        → Step s now input answer s'
    refused :
        (e : SoupBinError)
        → Fed flate s.inflate.inflator input (length s.inflate.out) (err e) s'.inflate
        → s'.session ≡ record s.session { last_recv = now }
        → s'.recv_staging ≡ input
        → answer ≡ err e
        → Step s now input answer s'

  -- The ways of an ingest.
  pub data Ingested (t : T) (s : Staging Z) (now : ℕ) (answer : Result SoupBinError Bool)
      (s' : Staging Z) (t' : T) : Type 0 where
    unread :
        staged s ≡ true
        → Step s s.session.last_recv s.recv_staging answer s'
        → t' ≡ t
        → Ingested t s now answer s' t'
    landing :
        (bytes : List ℕ)
        → staged s ≡ false
        → recv_into t s.session.cfg.decode_buf_capacity ≡ (ok bytes, t')
        → bytes ≢ []
        → Step s now bytes answer s'
        → Ingested t s now answer s' t'
    nothing :
        staged s ≡ false
        → recv_into t s.session.cfg.decode_buf_capacity ≡ (ok [], t')
        → answer ≡ ok false
        → s' ≡ s
        → Ingested t s now answer s' t'
    unreadable :
        (e : TransportError)
        → staged s ≡ false
        → recv_into t s.session.cfg.decode_buf_capacity ≡ (err e, t')
        → answer ≡ err (transport e)
        → s' ≡ s
        → Ingested t s now answer s' t'
