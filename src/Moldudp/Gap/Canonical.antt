-- ===== src/Moldudp/Gap/Canonical.antt =====
-- A valid handler is determined by the set of sequences that it holds: the order of the calls leaves
-- no trace in its map.
use polaris_trade.Base.{ℕ, ◌+◌, ◌<◌, ◌≡◌, refl, false, [], ◌∷◌, arith, u64_max}
use polaris_trade.Base.BTreeMap.{BTreeMap}
use polaris_trade.Moldudp.Gap.{GapRequestHandler, record_missing_range, mark_received}
use polaris_trade.Moldudp.Gap.Ranges.{within, missing, Separated, missing_below}
use polaris_trade.Moldudp.Gap.Record.{IsValid, is_missing, record_missing_range_lem}
use polaris_trade.Moldudp.Gap.Received.{mark_received_lem}

abbrev SameMissing : BTreeMap → BTreeMap → Type 0
SameMissing m n = (s : ℕ) → missing m s ≡ missing n s

tail_same :
    (a b : ℕ) (m n : BTreeMap)
    → Separated (b + 1) m
    → Separated (b + 1) n
    → SameMissing ((a, b) ∷ m) ((a, b) ∷ n)
    → SameMissing m n
tail_same a b m n w v h s =
    ground (arith, h s, missing_below (b + 1) s m w, missing_below (b + 1) s n v)

Separated-unique :
    (m n : BTreeMap) (lo lo' : ℕ) → Separated lo m → Separated lo' n → SameMissing m n → m ≡ n
Separated-unique [] [] lo lo' w v h = refl
Separated-unique [] ((x, y) ∷ n) lo lo' w v h = absurd (ground (arith, h x))
Separated-unique ((a, b) ∷ m) [] lo lo' w v h = absurd (ground (arith, h a))
Separated-unique ((a, b) ∷ m) ((x, y) ∷ n) lo lo' w v h =
    let e : a ≡ x =
      ground (arith, h a, h x, missing_below (b + 1) x m w.2, missing_below (y + 1) a n v.2) in
    let f : b ≡ y =
      ground (arith, h b, h y, e, missing_below (b + 1) b m w.2, missing_below (y + 1) y n v.2) in
    let rest = Separated-unique m n (b + 1) (y + 1) w.2 v.2 (λ s.
      ground (arith, e, f, h s, missing_below (b + 1) s m w.2, missing_below (y + 1) s n v.2)) in
    cc (e, f, rest)

-- Two valid handlers with the same missing sequences have the same map.
pub gaps_unique :
    (g h : GapRequestHandler)
    → IsValid g
    → IsValid h
    → ((s : ℕ) → is_missing g s ≡ is_missing h s)
    → g.gaps ≡ h.gaps
gaps_unique g h w v e = Separated-unique g.gaps h.gaps 0 0 w v e

-- On a valid handler, recording two ranges in either order leaves the same map.
pub record_missing_range_comm :
    (h : GapRequestHandler) (a b c d : ℕ)
    → IsValid h
    → (record_missing_range (record_missing_range h a b) c d).gaps
      ≡ (record_missing_range (record_missing_range h c d) a b).gaps
record_missing_range_comm h a b c d w =
    let r = λ (s : ℕ). record_missing_range_lem h a b s w in
    let q = λ (s : ℕ). record_missing_range_lem h c d s w in
    let rq = λ (s : ℕ). record_missing_range_lem (record_missing_range h a b) c d s (r 0).0 in
    let qr = λ (s : ℕ). record_missing_range_lem (record_missing_range h c d) a b s (q 0).0 in
    gaps_unique (record_missing_range (record_missing_range h a b) c d)
      (record_missing_range (record_missing_range h c d) a b) (rq 0).0 (qr 0).0
      (λ s. ground (arith, (r s).1, (q s).1, (rq s).1, (qr s).1))

-- Receiving a sequence outside `[start, end)` and recording that range commute: whether the arrival
-- is seen before or after the gap, a valid handler ends with the same map. The sequence is below the
-- last of u64.
record_missing_range-mark_received :
    (h : GapRequestHandler) (start end seq : ℕ)
    → seq < u64_max
    → within start end seq ≡ false
    → IsValid h
    → (record_missing_range (mark_received h seq) start end).gaps
      ≡ (mark_received (record_missing_range h start end) seq).gaps
record_missing_range-mark_received h start end seq lt out w =
    let m = λ (s : ℕ). mark_received_lem h seq s lt w in
    let r = λ (s : ℕ). record_missing_range_lem h start end s w in
    let rm = λ (s : ℕ). record_missing_range_lem (mark_received h seq) start end s (m 0).0 in
    let mr = λ (s : ℕ). mark_received_lem (record_missing_range h start end) seq s lt (r 0).0 in
    gaps_unique (record_missing_range (mark_received h seq) start end)
      (mark_received (record_missing_range h start end) seq) (rm 0).0 (mr 0).0
      (λ s. ground (arith, (m s).1, (r s).1, (rm s).1, (mr s).1))
