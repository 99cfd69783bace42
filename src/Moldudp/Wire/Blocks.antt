-- ===== src/Moldudp/Wire/Blocks.antt =====
-- The message blocks of a datagram: bounds on any input.
use polaris_trade.Base.{
  ℕ, zero, suc, ◌+◌, ◌≤◌, ◌≡◌, ◌∙◌, refl, sym, ap, inl, inr, false, none, some, List, ◌∷◌, arith,
  length, length-take, length-drop, All, from_be, add64, ◌==◌, ◌≢◌, split_first_chunk,
  split_first_chunk-some, Option-cases, Bool-cases,
}
use polaris_trade.Base.Result.{ok, ◌>>=◌, Result-cases}
use polaris_trade.Moldudp.Wire.{
  DownstreamHeader, MessageBlockIter, take_block, next, blocks, collect_blocks, header_len,
}

-- A block's entry lies inside a datagram of `n` bytes.
abbrev pub InBounds : ℕ → ℕ × ℕ × ℕ → Type 0
InBounds n (seq, offset, len) = offset + len ≤ n

-- What one call of the iterator has done when it yields a block.
record Yielded (it it' : MessageBlockIter) (offset : ℕ) (bytes : List ℕ) : Type 0 where
  pub counted : it.blocks_left ≡ suc it'.blocks_left
  pub behind_prefix : offset ≡ it.next_offset + 2
  pub advanced : it'.next_offset ≡ offset + length bytes
  pub total : it'.next_offset + length it'.remaining ≡ it.next_offset + length it.remaining
  pub intact : it'.truncated ≡ false

take_block-Yielded :
    (it : MessageBlockIter) (len : ℕ) (rest : List ℕ) (offset : ℕ) (bytes : List ℕ)
    → it.truncated ≡ false
    → it.blocks_left ≢ 0
    → length it.remaining ≡ 2 + length rest
    → (take_block it len rest).0 ≡ some (ok (offset, bytes))
    → Yielded it (take_block it len rest).1 offset bytes
unfolding take_block
take_block-Yielded it len rest offset bytes t ne le e =
    ground (arith, length-take len rest, length-drop len rest)

pub next-take_block :
    (it : MessageBlockIter) (len rest : List ℕ)
    → it.truncated ≡ false
    → (it.blocks_left == 0) ≡ false
    → split_first_chunk 2 it.remaining ≡ some (len, rest)
    → next it ≡ take_block it (from_be 0 len) rest
unfolding next
next-take_block it len rest t more split = ground arith

next-Yielded :
    (it : MessageBlockIter) (offset : ℕ) (bytes : List ℕ)
    → it.truncated ≡ false
    → (next it).0 ≡ some (ok (offset, bytes))
    → Yielded it (next it).1 offset bytes
unfolding next
next-Yielded it offset bytes t e = elim (Bool-cases (it.blocks_left == 0)) [
  | inl done ↦ absurd (ground arith)
  | inr more ↦ elim (Option-cases (split_first_chunk 2 it.remaining)) [
    | inl short ↦ absurd (ground arith)
    | inr ((len, rest), split) ↦
        let step = next-take_block it len rest t more split in
        rw step (
          take_block-Yielded it (from_be 0 len) rest offset bytes t (ground arith)
            (omega (
              arith,
              split_first_chunk-some 2 it.remaining len rest split,
              ap length (split_first_chunk-some 2 it.remaining len rest split).2,
              length-drop 2 it.remaining,
            ))
            (rw step at e))
  ]
]

next-none : (it : MessageBlockIter) → it.truncated ≡ false → (next it).0 ≡ none → it.blocks_left ≡ 0
unfolding next take_block
next-none it t e = ground arith

pub collect_blocks-cons :
    (fuel seq offset : ℕ) (bytes : List ℕ) (it : MessageBlockIter)
    → (next it).0 ≡ some (ok (offset, bytes))
    → collect_blocks (suc fuel) seq it ≡ (
        collect_blocks fuel (add64 seq 1) (next it).1 >>= λ bs.
        ok ((seq, offset, length bytes) ∷ bs))
unfolding collect_blocks
collect_blocks-cons fuel seq offset bytes it e = rw (e, collect_blocks)

-- From an iterator inside a datagram of `n` bytes every collected entry is a slice of the datagram,
-- and there are as many as the iterator announced.
pub collect_blocks-InBounds :
    (fuel seq n : ℕ) (it : MessageBlockIter) (bs : List (ℕ × ℕ × ℕ))
    → it.next_offset + length it.remaining ≤ n
    → it.blocks_left ≤ fuel
    → it.truncated ≡ false
    → collect_blocks fuel seq it ≡ ok bs
    → All (InBounds n) bs × (length bs ≡ it.blocks_left)
unfolding collect_blocks
collect_blocks-InBounds zero seq n it bs h le t e = ground arith
collect_blocks-InBounds (suc fuel) seq n it bs h le t e = elim (Option-cases (next it).0) [
  | inl done ↦ ground (arith, next-none it t done)
  | inr (item, more) ↦ elim (Result-cases item) [
    | inl ((offset, bytes), k) ↦
        let y = next-Yielded it offset bytes t (more ∙ ap some k) in
        let step = collect_blocks-cons fuel seq offset bytes it (more ∙ ap some k) in
        elim (Result-cases (collect_blocks fuel (add64 seq 1) (next it).1)) [
          | inl (bs', rest) ↦
              let ih =
                collect_blocks-InBounds fuel (add64 seq 1) n (next it).1 bs'
                  (omega (arith, y.total)) (omega (arith, y.counted)) y.intact rest in
              ground (arith, step, ih, y.counted, y.behind_prefix, y.advanced, y.total)
          | inr (x, rest) ↦ absurd (ground (arith, step))
        ]
    | inr (x, k) ↦ absurd (ground arith)
  ]
]

-- If all blocks of a datagram that holds its header are collected, every entry lies inside the
-- datagram, so that the slices taken of it later are in range, and there are as many as its header
-- announces. The fuel is the header's count.
pub blocks-InBounds :
    (h : DownstreamHeader) (datagram : List ℕ) (bs : List (ℕ × ℕ × ℕ))
    → header_len ≤ length datagram
    → collect_blocks h.message_count h.sequence (blocks h datagram) ≡ ok bs
    → All (InBounds (length datagram)) bs × (length bs ≡ h.message_count)
blocks-InBounds h datagram bs le e =
    collect_blocks-InBounds h.message_count h.sequence (length datagram) (blocks h datagram) bs
      (ground (arith, length-drop 20 datagram)) (omega arith) refl e

next-done : (it : MessageBlockIter) → it.blocks_left ≡ 0 → next it ≡ (none, it)
unfolding next
next-done it e = ground arith

-- On an iterator that is not truncated, more fuel than the blocks left changes nothing.
pub collect_blocks-fuel :
    (fuel seq : ℕ) (it : MessageBlockIter)
    → it.truncated ≡ false
    → it.blocks_left ≤ fuel
    → collect_blocks (suc fuel) seq it ≡ collect_blocks fuel seq it
unfolding collect_blocks
collect_blocks-fuel zero seq it t le = rw (next-done it (omega arith), collect_blocks) refl
collect_blocks-fuel (suc fuel) seq it t le = elim (Option-cases (next it).0) [
  | inl done ↦ rw (done, collect_blocks) refl
  | inr (item, more) ↦ elim (Result-cases item) [
    | inl ((offset, bytes), k) ↦
        let y = next-Yielded it offset bytes t (more ∙ ap some k) in
        let ih =
          collect_blocks-fuel fuel (add64 seq 1) (next it).1 y.intact (omega (arith, y.counted)) in
        collect_blocks-cons (suc fuel) seq offset bytes it (more ∙ ap some k)
        ∙ ap (λ r. r >>= λ bs. ok ((seq, offset, length bytes) ∷ bs)) ih
        ∙ sym (collect_blocks-cons fuel seq offset bytes it (more ∙ ap some k))
    | inr (x, k) ↦ rw (more ∙ ap some k, collect_blocks) refl
  ]
]
