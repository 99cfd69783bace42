-- ===== src/Moldudp/Emitter/Limits.antt =====
-- The rate limit of `GapRequestEmitter`: what was requested is remembered, and not sent again.
use polaris_trade.Base.{
  ℕ, ◌≤◌, ◌≡◌, Bool, true, false, ◌&&◌, List, [], ◌∷◌, ◌++◌, arith, leb, All, add64, min, max,
}
use polaris_trade.Base.Result.{Result}
use polaris_trade.Transport.Error.{SocketAddr, TransportError}
use polaris_trade.Moldudp.Gap.{GapRequest}
use polaris_trade.Moldudp.Emitter.{
  Requested, GapRequestEmitter, is_covered, absorb_requested, mark_requested, encode_request_packet,
  is_would_block,
}

-- `[s, e)` lies inside `[start, end)`.
abbrev inside : ℕ → ℕ → ℕ → ℕ → Bool
inside start end s e = leb start s && leb e end

absorb_requested-grows :
    (start end : ℕ) (rs : List Requested)
    → ((absorb_requested start end rs).1 ≤ start) × (end ≤ (absorb_requested start end rs).2)
unfolding absorb_requested
absorb_requested-grows start end [] = (omega arith, omega arith)
absorb_requested-grows start end (r ∷ rs) = ground (
  arith,
  absorb_requested-grows start end rs,
  absorb_requested-grows (min start r.start) (max end r.stop) rs,
)

-- Every remembered range was requested at `t` or later.
abbrev pub Since : ℕ → List Requested → Type 0
Since t = All (λ r. t ≤ r.at)

-- One remembered range holds all of the gap.
abbrev pub Remembered : List Requested → GapRequest → Type 0
Remembered rs g = is_covered g.start_seq (add64 g.start_seq g.count) rs ≡ true

module _ {ℓ} {Sock : Type ℓ} (send_to : Sock → List ℕ → SocketAddr → Result TransportError ℕ × Sock)
    (session : List ℕ) where
  -- Why the loop left these gaps, with the socket at `sock'`.
  abbrev pub Stopped : Sock → List GapRequest → Type ℓ
  Stopped sock' [] = Unit
  Stopped sock' (g ∷ gs) =
      (sock : Sock) × (addr : SocketAddr) × (let (answer, s) =
          send_to sock (encode_request_packet session g.start_seq g.count) addr in
        (is_would_block answer ≡ true) × (s ≡ sock'))

module _ {ℓ} {Sock : Type ℓ} (send_to : Sock → List ℕ → SocketAddr → Result TransportError ℕ × Sock)
    (session : List ℕ) (now : ℕ) where
  module _ (e : GapRequestEmitter) (sock : Sock) (sent : ℕ) (g : GapRequest) (gs : List GapRequest)
      (new : is_covered g.start_seq (add64 g.start_seq g.count) e.requested ≡ false) where
    abbrev answer : Result TransportError ℕ × Sock
    answer = send_to sock (encode_request_packet session g.start_seq g.count) e.server_addr

    abbrev marked : GapRequestEmitter
    marked = record e {
      requested = mark_requested g.start_seq (add64 g.start_seq g.count) now e.requested;
    }

  -- What a loop without error has left behind: it has gone through `done`, and before `left` the socket blocked.
  record Marked (t : ℕ) (e e' : GapRequestEmitter) (sock' : Sock) (gaps : List GapRequest)
      : Type ℓ where
    pub done : List GapRequest
    pub left : List GapRequest
    pub split : gaps ≡ done ++ left
    pub remembered : All (Remembered e'.requested) done
    pub stopped : Stopped send_to session sock' left
    pub keeps : (s f : ℕ) → is_covered s f e.requested ≡ true → is_covered s f e'.requested ≡ true
    pub since : Since t e'.requested
    pub same_rate : e'.max_per_gap_per_sec ≡ e.max_per_gap_per_sec
