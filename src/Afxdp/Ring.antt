-- ===== src/Afxdp/Ring.antt =====
-- crates/transports/afxdp/src/ring.rs: the index protocol of a ring that the kernel and the process share.
-- The ring's memory is a value that both sides read and write; loads and stores of the words happen in
-- the order in which they stand, which is what their Acquire and Release promise.
pub mod Contents
pub mod Refine
pub mod Peer
use polaris_trade.Base.{
  ℕ, zero, suc, ◌+◌, ◌-◌, ◌%◌, ◌^◌, min, Bool, List, [], ◌∷◌, not, ltb, ◌==◌, if◌then◌else◌,
}

-- `u32::wrapping_add` and `u32::wrapping_sub`
abbrev pub add32 : ℕ → ℕ → ℕ
add32 a b = (a + b) % 2 ^ 32

abbrev pub sub32 : ℕ → ℕ → ℕ
sub32 a b = (a + (2 ^ 32 - b)) % 2 ^ 32

module _ (A : Type 0) where
  -- `Ring`, with the memory that its `ptrs` point at: `desc` is the array, by position.
  pub record Ring : Type 0 where
    pub producer : ℕ
    pub consumer : ℕ
    pub flags : ℕ
    pub desc : ℕ → A
    pub mask : ℕ

  -- The process's side of a ring that it fills, and of one that it drains.
  pub record Producer : Type 0 where
    pub ring : Ring
    pub prod : ℕ

  pub record Consumer : Type 0 where
    pub ring : Ring
    pub cons : ℕ

module _ {A : Type 0} where
  abbrev pub size : Ring A → ℕ
  size r = r.mask + 1

  -- The place of `index` in the array. `index & mask` is the remainder by the size, a power of two.
  abbrev pub entry : Ring A → ℕ → ℕ
  entry r index = index % size r

  -- `at.write(item)`
  abbrev pub write : (ℕ → A) → ℕ → A → ℕ → A
  write desc at item j = if j == at then item else desc j

  -- `Producer::new` and `Consumer::new`
  abbrev pub new_producer : Ring A → Producer A
  new_producer r = record { ring = r; prod = r.producer }

  abbrev pub new_consumer : Ring A → Consumer A
  new_consumer r = record { ring = r; cons = r.consumer }

  -- How many entries `produce` may write.
  abbrev pub room : Producer A → ℕ
  room p = min (sub32 (add32 p.ring.consumer (size p.ring)) p.prod) (size p.ring)

  -- The loop of `produce`, with `written` entries behind it: the array, and the count at its end.
  unfoldable pub write_items : Ring A → ℕ → ℕ → ℕ → List A → (ℕ → A) → (ℕ → A) × ℕ
  write_items r prod zero written items desc = (desc, written)
  write_items r prod (suc free) written [] desc = (desc, written)
  write_items r prod (suc free) written (item ∷ items) desc =
      write_items r prod free (written + 1) items (write desc (entry r (add32 prod written)) item)

  unfoldable pub produce : Producer A → List A → Producer A × ℕ
  produce p items =
      let (desc, written) = write_items p.ring p.prod (room p) 0 items p.ring.desc in
      let prod = add32 p.prod written in
      if ltb 0 written
      then (record { ring = record p.ring { desc = desc; producer = prod }; prod = prod }, written)
      else (p, written)

  -- `XDP_RING_NEED_WAKEUP` is bit 0.
  abbrev pub needs_wakeup : Producer A → Bool
  needs_wakeup p = not (p.ring.flags % 2 == 0)

  -- The entries that the loop of `consume` passes on, from `i` on.
  unfoldable pub read_entries : Ring A → ℕ → ℕ → ℕ → List A
  read_entries r cons i zero = []
  read_entries r cons i (suc n) = r.desc (entry r (add32 cons i)) ∷ read_entries r cons (i + 1) n

  -- How many entries `consume` passes on.
  abbrev pub taken : Consumer A → ℕ → ℕ
  taken c max = min (min (sub32 c.ring.producer c.cons) (size c.ring)) max

  -- `consume`: what `f` is called with, in order.
  unfoldable pub consume : Consumer A → ℕ → Consumer A × List A
  consume c max =
      let cons = add32 c.cons (taken c max) in
      let passed = read_entries c.ring c.cons 0 (taken c max) in
      if ltb 0 (taken c max)
      then (record { ring = record c.ring { consumer = cons }; cons = cons }, passed)
      else (c, passed)
