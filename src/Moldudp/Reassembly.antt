-- ===== src/Moldudp/Reassembly.antt =====
-- `SequenceReassembler` of crates/clients/moldudp/src/reassembly.rs, over any type of payload.
pub mod View
pub mod Drain
use polaris_trade.Base.{
  ℕ, zero, suc, ◌+◌, ◌%◌, Bool, true, false, ◌≡◌, Option, none, some, List, [], ◌∷◌, ltb, ◌==◌,
  if◌then◌else◌, length, get_or, set, replicate, add64,
}
use polaris_trade.Base.Result.{Result, ok, err}
use polaris_trade.Moldudp.Error.{MoldUdpError, reassembly_buffer_full}

pub record Slot (A : Type 0) : Type 0 where
  pub seq : ℕ
  pub payload : Option A

pub record SequenceReassembler (A : Type 0) : Type 0 where
  pub slots : List (Slot A)
  pub capacity : ℕ
  pub expected_next : ℕ

module _ {A : Type 0} where
  abbrev pub empty_slot : Slot A
  empty_slot = record { seq = 0; payload = none }

  -- `SequenceReassembler::new`; it panics on capacity 0.
  unfoldable pub new : ℕ → Option (SequenceReassembler A)
  new capacity =
      if capacity == 0
      then none
      else some
          (record { slots = replicate capacity empty_slot; capacity = capacity; expected_next = 1 })

  -- `&self.slots[self.slot_index(seq)]`; the index is below the number of slots.
  abbrev pub slot_at : SequenceReassembler A → ℕ → Slot A
  slot_at r seq = get_or r.slots (seq % r.capacity) empty_slot

  abbrev pub put_slot : SequenceReassembler A → ℕ → Slot A → SequenceReassembler A
  put_slot r seq slot = record r { slots = set r.slots (seq % r.capacity) slot }

  unfoldable pub advance_expected : SequenceReassembler A → ℕ → SequenceReassembler A
  advance_expected r n = record r { expected_next = add64 r.expected_next n }

  unfoldable pub reset_expected : SequenceReassembler A → ℕ → SequenceReassembler A
  reset_expected r expected = record r { expected_next = expected }

  -- `insert`: the answer (`ok true` for `Ok(Some(cursor))`, `ok false` for `Ok(None)`) and the ring.
  unfoldable pub insert :
      SequenceReassembler A → ℕ → A → Result MoldUdpError Bool × SequenceReassembler A
  insert r seq slab =
      if ltb seq r.expected_next then (ok false, r) else elim (slot_at r seq).payload [
        | some pending ↦
            if (slot_at r seq).seq == seq
            then (ok false, r)
            else (err (reassembly_buffer_full (length r.slots)), r)
        | none ↦ (
          ok (seq == r.expected_next),
          put_slot r seq (record { seq = seq; payload = some slab }),
        )
      ]

  -- `DrainCursor::next`: the payload taken, if any.
  unfoldable pub cursor_next : SequenceReassembler A → Option A × SequenceReassembler A
  cursor_next r =
      if (slot_at r r.expected_next).seq == r.expected_next
      then elim (slot_at r r.expected_next).payload [
        | none ↦ (none, r)
        | some payload ↦ (
          some payload,
          record (put_slot r r.expected_next
              (record { seq = (slot_at r r.expected_next).seq; payload = none })) {
                expected_next = add64 r.expected_next 1;
              },
        )
      ]
      else (none, r)

  -- A cursor used up, by its reader or by its `Drop`: `next` until it answers `None`. Each round
  -- empties a slot, so that one round more than there are slots is fuel enough.
  unfoldable pub drain_fuel : ℕ → SequenceReassembler A → List A × SequenceReassembler A
  drain_fuel zero r = ([], r)
  drain_fuel (suc fuel) r =
      let (item, r') = cursor_next r in
      let rest = drain_fuel fuel r' in elim item [ none ↦ ([], r') | some a ↦ (a ∷ rest.0, rest.1) ]

  -- `drain_ready`
  unfoldable pub drain : SequenceReassembler A → List A × SequenceReassembler A
  drain r = drain_fuel (suc (length r.slots)) r
