-- ===== src/Afxdp/Ring/Refine.antt =====
-- A ring is a bounded queue: `produce` appends to what is on it, `consume` takes from its front.
use polaris_trade.Base.{
  ℕ, zero, suc, ◌+◌, ◌-◌, ◌^◌, ◌≤◌, min, ◌≡◌, ◌∙◌, refl, sym, ap, List, [], ◌∷◌, ◌++◌, arith, ltb,
  length, take, Bool-cases, inl, inr, length-take,
}
use Prim.Native.Nat.{◌∣◌}
use mathlib.Core.List.{append_assoc, append-nil}
use polaris_trade.Afxdp.Ring.{
  add32, sub32, Ring, Producer, Consumer, size, entry, write, read_entries, write_items, produce,
  consume, room, taken,
}
use polaris_trade.Afxdp.Ring.Contents.{
  pending, contents, IsRing, length-read_entries, read_entries-add, read_entries-ext,
  entry-add32_twice, read_entries-write,
}

module _ {A : Type 0} where
  pub length-contents : (r : Ring A) → length (contents r) ≡ pending r
  unfolding contents
  length-contents r = length-read_entries r r.consumer 0 (pending r)

  -- The loop of `produce` behind `n` entries from `c` on.
  write_items_lem :
      (r : Ring A) (c n prod free written : ℕ) (items : List A) (desc : ℕ → A)
      → size r ∣ 2 ^ 32
      → prod ≡ add32 c n
      → n + written + free ≤ size r
      → let (desc', written') = write_items r prod free written items desc in
        (written' ≡ written + length (take free items))
        × (read_entries (record r { desc = desc' }) c 0 (n + written')
            ≡ read_entries (record r { desc = desc }) c 0 (n + written) ++ take free items)
  unfolding write_items
  write_items_lem r c n prod zero written items desc v e le = (omega arith, sym (append-nil _))
  write_items_lem r c n prod (suc free) written [] desc v e le = (omega arith, sym (append-nil _))
  write_items_lem r c n prod (suc free) written (item ∷ items) desc v e le =
      let desc' = write desc (entry r (add32 prod written)) item in
      let ih = write_items_lem r c n prod free (written + 1) items desc' v e (omega arith) in
      let at : entry r (add32 prod written) ≡ entry r (add32 c (n + written)) =
        rw e (entry-add32_twice r c n written v) in
      let next : n + (written + 1) ≡ n + written + 1 = omega arith in
      let one : read_entries (record r { desc = desc' }) c 0 (n + (written + 1))
          ≡ read_entries (record r { desc = desc }) c 0 (n + written) ++ (item ∷ []) =
        rw (at, next) (read_entries-write r c (n + written) desc item v (omega arith)) in
      (
        omega (arith, ih.0),
        ih.1 ∙ ap (λ xs. xs ++ take free items) one ∙ append_assoc _ (item ∷ []) (take free items),
      )

  pub record IsProducer (p : Producer A) : Type 0 where
    pub shared : IsRing p.ring
    pub published : p.prod ≡ p.ring.producer

  pub record IsConsumer (c : Consumer A) : Type 0 where
    pub shared : IsRing c.ring
    pub released : c.cons ≡ c.ring.consumer

  room_lem : (p : Producer A) → IsProducer p → room p ≡ size p.ring - length (contents p.ring)
  room_lem p v = omega (
    arith,
    length-contents p.ring,
    v.published,
    v.shared.larger,
    v.shared.producer_word,
    v.shared.consumer_word,
    v.shared.fits,
  )

  take-min : (n : ℕ) (xs : List A) → take (length (take n xs)) xs ≡ take n xs
  take-min zero xs = refl
  take-min (suc n) [] = refl
  take-min (suc n) (x ∷ xs) = ap (◌∷◌ x) (take-min n xs)

  -- Publishing `k` entries behind those on the ring.
  IsRing-publish :
      (r : Ring A) (desc : ℕ → A) (k : ℕ)
      → IsRing r
      → pending r + k ≤ size r
      → let r' = record r { desc = desc; producer = add32 r.producer k } in
        IsRing r' × (pending r' ≡ pending r + k)
  IsRing-publish r desc k v le =
      let e : sub32 (add32 r.producer k) r.consumer ≡ pending r + k =
        omega (arith, v.larger, v.producer_word, v.consumer_word) in
      (
        record {
          divides = v.divides;
          larger = v.larger;
          producer_word = omega arith;
          consumer_word = v.consumer_word;
          fits = omega (arith, e);
        },
        e,
      )

  -- Releasing the `k` oldest entries.
  IsRing-release :
      (r : Ring A) (k : ℕ)
      → IsRing r
      → k ≤ pending r
      → let r' = record r { consumer = add32 r.consumer k } in
        IsRing r' × (pending r' ≡ pending r - k)
  IsRing-release r k v le =
      let e : sub32 r.producer (add32 r.consumer k) ≡ pending r - k =
        omega (arith, v.larger, v.producer_word, v.consumer_word) in
      (
        record {
          divides = v.divides;
          larger = v.larger;
          producer_word = v.producer_word;
          consumer_word = omega arith;
          fits = omega (arith, e, v.fits);
        },
        e,
      )

  pub publish :
      (p : Producer A) (desc : ℕ → A) (k : ℕ)
      → IsProducer p
      → pending p.ring + k ≤ size p.ring
      → let ring = record p.ring { desc = desc; producer = add32 p.prod k } in
        (contents ring
          ≡ read_entries (record p.ring { desc = desc }) p.ring.consumer 0 (pending p.ring + k))
        × IsProducer (record { ring = ring; prod = add32 p.prod k })
  unfolding contents
  publish p desc k v le =
      let (shared, len) = IsRing-publish p.ring desc k v.shared le in
      rw v.published (
        ap
              (λ (n : ℕ).
                read_entries (record p.ring { desc = desc; producer = add32 p.ring.producer k })
                  p.ring.consumer 0 n)
              len
            ∙ read_entries-ext (record p.ring { desc = desc; producer = add32 p.ring.producer k })
                (record p.ring { desc = desc }) p.ring.consumer p.ring.consumer 0 0
                (pending p.ring + k) (λ j lt. refl),
        record { shared = shared; published = refl },
      )

  pub release :
      (c : Consumer A) (k : ℕ)
      → IsConsumer c
      → k ≤ pending c.ring
      → let ring = record c.ring { consumer = add32 c.cons k } in
        (contents c.ring ≡ read_entries c.ring c.cons 0 k ++ contents ring)
        × IsConsumer (record { ring = ring; cons = add32 c.cons k })
  unfolding contents
  release c k v le =
      let (shared, len) = IsRing-release c.ring k v.shared le in
      let split : k + (pending c.ring - k) ≡ pending c.ring = omega arith in
      let ring = record c.ring { consumer = add32 c.ring.consumer k } in
      rw v.released (
        rw (split) at (read_entries-add c.ring c.ring.consumer 0 k (pending c.ring - k))
            ∙ ap (λ xs. read_entries c.ring c.ring.consumer 0 k ++ xs)
                (read_entries-ext c.ring ring c.ring.consumer (add32 c.ring.consumer k) (0 + k) 0
                    (pending c.ring - k) (λ j lt. ap c.ring.desc (shift j))
                  ∙ ap (λ (n : ℕ). read_entries ring (add32 c.ring.consumer k) 0 n) (sym len)),
        record { shared = shared; released = refl },
      )
    where
      shift :
          (j : ℕ)
          → entry c.ring (add32 c.ring.consumer (0 + k + j))
            ≡ entry c.ring (add32 (add32 c.ring.consumer k) (0 + j))
      shift j =
          let e : k + (0 + j) ≡ 0 + k + j = omega arith in
          rw e at (sym (entry-add32_twice c.ring c.ring.consumer k (0 + j) v.shared.divides))

  -- What the loop of `produce` leaves.
  writes :
      (p : Producer A) (items : List A)
      → IsProducer p
      → let (desc, written) = write_items p.ring p.prod (room p) 0 items p.ring.desc in
        (written ≡ min (length items) (size p.ring - length (contents p.ring)))
        × (read_entries (record p.ring { desc = desc }) p.ring.consumer 0 (pending p.ring + written)
            ≡ contents p.ring ++ take written items)
  unfolding contents
  writes p items v =
      let loop =
        write_items_lem p.ring p.ring.consumer (pending p.ring) p.prod (room p) 0 items p.ring.desc
          v.shared.divides
          (omega (arith, v.published, v.shared.producer_word, v.shared.consumer_word))
          (omega (arith, room_lem p v, length-contents p.ring, v.shared.fits)) in
      let none_yet : pending p.ring + 0 ≡ pending p.ring = omega arith in
      let count : length (take (room p) items)
          ≡ (write_items p.ring p.prod (room p) 0 items p.ring.desc).1 =
        omega (arith, loop.0) in
      (
        omega (arith, loop.0, length-take (room p) items, room_lem p v),
        rw none_yet at loop.1
            ∙ ap (λ xs. contents p.ring ++ xs)
                (sym (take-min (room p) items) ∙ ap (λ (k : ℕ). take k items) count),
      )

  -- `produce` appends the first of its items to what is on the ring: all of them, or as many as there
  -- are free entries if these are fewer. It overwrites no entry that is still on the ring, and keeps
  -- the ring's words and its own index in step.
  pub produce_lem :
      (p : Producer A) (items : List A)
      → IsProducer p
      → let (p', written) = produce p items in
        (written ≡ min (length items) (size p.ring - length (contents p.ring)))
        × (contents p'.ring ≡ contents p.ring ++ take written items)
        × (size p'.ring ≡ size p.ring)
        × IsProducer p'
  unfolding produce
  produce_lem p items v = elim (Bool-cases (ltb 0 out.1)) [
    | inl wrote ↦
        let done =
          publish p out.0 out.1 v (omega (arith, written, length-contents p.ring, v.shared.fits)) in
        rw (wrote, produce) (written, done.0 ∙ (writes p items v).1, refl, done.1)
    | inr idle ↦
        let nothing : out.1 ≡ 0 = ground arith in
        rw (idle, produce)
          (
            written,
            sym (append-nil _) ∙ ap (λ (k : ℕ). contents p.ring ++ take k items) (sym nothing),
            refl,
            v,
          )
  ]
    where
      out : (ℕ → A) × ℕ
      out = write_items p.ring p.prod (room p) 0 items p.ring.desc

      written : out.1 ≡ min (length items) (size p.ring - length (contents p.ring))
      written = (writes p items v).0

  -- `consume` passes on the oldest entries of the ring, in order, and takes just these off it: all
  -- there are, or `max` of them if that is fewer. It keeps the ring's words and its own index in step.
  pub consume_lem :
      (c : Consumer A) (max : ℕ)
      → IsConsumer c
      → let (c', passed) = consume c max in
        (length passed ≡ min (length (contents c.ring)) max)
        × (contents c.ring ≡ passed ++ contents c'.ring)
        × (size c'.ring ≡ size c.ring)
        × IsConsumer c'
  unfolding consume read_entries
  consume_lem c max v = elim (Bool-cases (ltb 0 (taken c max))) [
    | inl took ↦
        let done = release c (taken c max) v (omega (arith, count)) in
        rw (took, consume) (passed, done.0, refl, done.1)
    | inr idle ↦
        let nothing : taken c max ≡ 0 = ground arith in
        rw (idle, consume)
          (
            passed,
            ap (λ (k : ℕ). read_entries c.ring c.cons 0 k ++ contents c.ring) (sym nothing),
            refl,
            v,
          )
  ]
    where
      count : taken c max ≡ min (pending c.ring) max
      count = omega (arith, v.released, v.shared.fits)

      passed :
          length (read_entries c.ring c.cons 0 (taken c max)) ≡ min (length (contents c.ring)) max
      passed =
          omega (
            arith,
            count,
            length-contents c.ring,
            length-read_entries c.ring c.cons 0 (taken c max),
          )
