-- ===== src/Moldudp/Gap.antt =====
-- `GapRequestHandler` of crates/clients/moldudp/src/gap.rs: the missing sequence ranges.
pub mod Ranges
pub mod Received
pub mod Pending
pub mod Record
pub mod Canonical
use polaris_trade.Base.{
  ℕ, zero, suc, ◌-◌, min, max, Bool, true, false, none, some, List, ◌++◌, [], ◌∷◌, ltb, leb,
  if◌then◌else◌, length, add64, u16_max,
}
use polaris_trade.Base.BTreeMap.{BTreeMap, insert, remove, last_below, last_upto, first_from}

-- `GapRequestHandler`: `start -> end (exclusive)`.
pub record GapRequestHandler : Type 0 where
  pub gaps : BTreeMap

-- `GapRequest`
pub record GapRequest : Type 0 where
  pub start_seq : ℕ
  pub count : ℕ

abbrev pub new_handler : GapRequestHandler
new_handler = record { gaps = [] }

-- The `while let` loop of `record_missing_range`: each round removes an entry, so the number of
-- entries is fuel enough.
unfoldable pub absorb_following : ℕ → ℕ → ℕ → BTreeMap → ℕ × BTreeMap
absorb_following zero start end m = (end, m)
absorb_following (suc fuel) start end m = elim (first_from start m) [
  | none ↦ (end, m)
  | some (next_start, next_end) ↦
      let rest = absorb_following fuel start (max end next_end) (remove next_start m) in
      if ltb end next_start then (end, m) else rest
]

-- The `if let` of `record_missing_range`: the range to insert, widened by its predecessor.
unfoldable pub widen_left : ℕ → ℕ → BTreeMap → ℕ × ℕ
widen_left start end m = elim (last_below start m) [
  | none ↦ (start, end)
  | some (prev_start, prev_end) ↦
      if leb start prev_end then (prev_start, max end prev_end) else (start, end)
]

unfoldable pub insert_merged : ℕ × ℕ → BTreeMap → BTreeMap
insert_merged (start, end) m =
    let (end', m') = absorb_following (length m) start end m in insert start end' m'

unfoldable pub record_missing_range : GapRequestHandler → ℕ → ℕ → GapRequestHandler
record_missing_range h start end_exclusive =
    if leb end_exclusive start
    then h
    else record h { gaps = insert_merged (widen_left start end_exclusive h.gaps) h.gaps }

unfoldable pub record_gap : GapRequestHandler → ℕ → GapRequestHandler
record_gap h seq = record_missing_range h seq (add64 seq 1)

-- `mark_received` on the range found: remove it, and put back what lies on either side.
unfoldable pub split_range : ℕ → ℕ → ℕ → BTreeMap → BTreeMap
split_range seq start end m =
    let m₁ = remove start m in
    let m₂ = if ltb start seq then insert start seq m₁ else m₁ in
    if ltb (add64 seq 1) end then insert (add64 seq 1) end m₂ else m₂

unfoldable pub mark_received : GapRequestHandler → ℕ → GapRequestHandler
mark_received h seq = elim (last_upto seq h.gaps) [
  | none ↦ h
  | some (start, end) ↦
      if leb end seq then h else record h { gaps = split_range seq start end h.gaps }
]

abbrev pub has_pending : GapRequestHandler → Bool
has_pending h = elim h.gaps [ [] ↦ false | _ ∷ _ ↦ true ]

-- The inner loop of `pending_gaps_into`: a range cut into counts that fit u16. Every round takes at
-- least one sequence, so `end - cur` rounds are enough.
unfoldable pub chunk_range : ℕ → ℕ → ℕ → List GapRequest
chunk_range zero cur end = []
chunk_range (suc fuel) cur end =
    let count = min (end - cur) u16_max in
    let rest = chunk_range fuel (add64 cur count) end in
    if ltb cur end then record { start_seq = cur; count = count } ∷ rest else []

-- `pending_gaps` and `pending_gaps_into`, which replaces the contents of its buffer.
unfoldable pub pending_of : BTreeMap → List GapRequest
pending_of [] = []
pending_of ((start, end) ∷ m) = chunk_range (end - start) start end ++ pending_of m

abbrev pub pending_gaps : GapRequestHandler → List GapRequest
pending_gaps h = pending_of h.gaps
