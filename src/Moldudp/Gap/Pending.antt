-- ===== src/Moldudp/Gap/Pending.antt =====
-- `pending_gaps`: the re-requests cut from the ranges.
use polaris_trade.Base.{
  All-append, inl, inr, ℕ, zero, suc, ◌+◌, ◌-◌, ◌≤◌, ◌<◌, min, ◌≡◌, refl, true, List, ◌++◌, [], ◌∷◌,
  arith, ltb, ltb→lt, if◌then◌else◌, Bool-cases, All, u64_max, u16_max, add64,
}
use polaris_trade.Base.BTreeMap.{BTreeMap}
use polaris_trade.Moldudp.Gap.{
  GapRequestHandler, GapRequest, chunk_range, pending_of, pending_gaps, record_missing_range,
  mark_received,
}
use polaris_trade.Moldudp.Gap.Ranges.{within, missing, Separated, missing_below}
use polaris_trade.Moldudp.Gap.Record.{IsValid, is_missing, record_missing_range_lem}
use polaris_trade.Moldudp.Gap.Received.{mark_received_lem}

-- Every missing sequence is one that a u64 range can hold.
abbrev pub FitsU64 : GapRequestHandler → Type 0
FitsU64 h = (s : ℕ) → is_missing h s ≡ true → s < u64_max

-- How many of the requests ask for `s`.
abbrev pub times_requested : List GapRequest → ℕ → ℕ
times_requested [] s = 0
times_requested (r ∷ rs) s =
    (if within r.start_seq (r.start_seq + r.count) s then 1 else 0) + times_requested rs s

-- The request's count fits its 16-bit field and is not empty.
abbrev pub IsSendable : GapRequest → Type 0
IsSendable r = (0 < r.count) × (r.count ≤ u16_max)

times_requested-append :
    (xs ys : List GapRequest) (s : ℕ)
    → times_requested (xs ++ ys) s ≡ times_requested xs s + times_requested ys s
times_requested-append [] ys s = omega arith
times_requested-append (x ∷ xs) ys s = omega (arith, times_requested-append xs ys s)

chunk_range_lem :
    (fuel cur end s : ℕ)
    → end - cur ≤ fuel
    → end ≤ u64_max
    → All IsSendable (chunk_range fuel cur end)
      × (times_requested (chunk_range fuel cur end) s ≡ (if within cur end s then 1 else 0))
unfolding chunk_range
chunk_range_lem zero cur end s h fits = (tt, ground arith)
chunk_range_lem (suc fuel) cur end s h fits = elim (Bool-cases (ltb cur end)) [
  | inl more ↦
      let plus : add64 cur (min (end - cur) u16_max) ≡ cur + min (end - cur) u16_max =
        omega (arith, ltb→lt cur end more) in
      let r =
        chunk_range_lem fuel (cur + min (end - cur) u16_max) end s
          (omega (arith, ltb→lt cur end more)) fits in
      rw (more, plus)
        (
          ((omega (arith, ltb→lt cur end more), omega arith), r.0),
          ground (arith, r.1, ltb→lt cur end more),
        )
  | inr done ↦ rw done (tt, ground arith)
]

pending_of_lem :
    (m : BTreeMap) (lo s : ℕ)
    → Separated lo m
    → ((s : ℕ) → missing m s ≡ true → s < u64_max)
    → All IsSendable (pending_of m)
      × (times_requested (pending_of m) s ≡ (if missing m s then 1 else 0))
unfolding pending_of
pending_of_lem [] lo s w fits = (tt, refl)
pending_of_lem ((a, b) ∷ m) lo s w fits =
    let last : b ≤ u64_max = ground (arith, fits (b - 1)) in
    let c = chunk_range_lem (b - a) a b s (omega arith) last in
    let r = pending_of_lem m (b + 1) s w.2 (λ t h. ground (arith, fits t)) in
    (
      All-append IsSendable (chunk_range (b - a) a b) (pending_of m) c.0 r.0,
      ground (
        arith,
        c.1,
        r.1,
        times_requested-append (chunk_range (b - a) a b) (pending_of m) s,
        missing_below (b + 1) s m w.2,
      ),
    )

-- The pending requests of a valid handler, whose missing sequences are below the last of u64, ask for
-- each missing sequence exactly once and for no other, and each asks for at least one and at most 65535 messages. The loops never run out of fuel.
pub pending_gaps_lem :
    (h : GapRequestHandler) (s : ℕ)
    → IsValid h
    → FitsU64 h
    → All IsSendable (pending_gaps h)
      × (times_requested (pending_gaps h) s ≡ (if is_missing h s then 1 else 0))
pending_gaps_lem h s w fits = pending_of_lem h.gaps 0 s w fits

pub record_missing_range-FitsU64 :
    (h : GapRequestHandler) (start end : ℕ)
    → end ≤ u64_max
    → IsValid h
    → FitsU64 h
    → FitsU64 (record_missing_range h start end)
record_missing_range-FitsU64 h start end le w fits s =
    ground (arith, (record_missing_range_lem h start end s w).1, fits s)

pub mark_received-FitsU64 :
    (h : GapRequestHandler) (seq : ℕ)
    → seq < u64_max
    → IsValid h
    → FitsU64 h
    → FitsU64 (mark_received h seq)
mark_received-FitsU64 h seq lt w fits s = ground (arith, (mark_received_lem h seq s lt w).1, fits s)
