-- ===== src/Afxdp/Ring/Contents.antt =====
-- What is on a ring: the entries from its consumer word up to its producer word.
use Prim.Native.Nat.{◌∣◌}
use polaris_trade.Base.{
  ℕ, zero, suc, ◌+◌, ◌^◌, ◌≤◌, ◌<◌, ◌≡◌, ◌≢◌, ◌∙◌, refl, sym, ap, ap₂, List, [], ◌∷◌, ◌++◌, arith,
  length, idx-ne,
}
use native.Mathlib.Nat.{mod-mod_of_dvd}
use polaris_trade.Afxdp.Ring.{add32, sub32, Ring, size, entry, write, read_entries}

module _ {A : Type 0} where
  abbrev pub pending : Ring A → ℕ
  pending r = sub32 r.producer r.consumer

  unfoldable pub contents : Ring A → List A
  contents r = read_entries r r.consumer 0 (pending r)

  -- The size divides 2 ^ 32, and the words are at most the size apart.
  pub record IsRing (r : Ring A) : Type 0 where
    pub divides : size r ∣ 2 ^ 32
    pub larger : size r < 2 ^ 32
    pub producer_word : r.producer < 2 ^ 32
    pub consumer_word : r.consumer < 2 ^ 32
    pub fits : pending r ≤ size r

  pub length-read_entries : (r : Ring A) (c i n : ℕ) → length (read_entries r c i n) ≡ n
  unfolding read_entries
  length-read_entries r c i zero = refl
  length-read_entries r c i (suc n) = ap suc (length-read_entries r c (i + 1) n)

  pub read_entries-add :
      (r : Ring A) (c i m n : ℕ)
      → read_entries r c i (m + n) ≡ read_entries r c i m ++ read_entries r c (i + m) n
  unfolding read_entries
  read_entries-add r c i zero n =
      ap₂ (λ (j k : ℕ). read_entries r c j k) (omega arith) (omega arith)
  read_entries-add r c i (suc m) n =
      let e : suc m + n ≡ suc (m + n) = omega arith in
      let f : i + 1 + m ≡ i + suc m = omega arith in
      rw (e, ← f, read_entries)
        (ap (λ xs. r.desc (entry r (add32 c i)) ∷ xs) (read_entries-add r c (i + 1) m n))

  -- Reading the same entries, from wherever they are.
  pub read_entries-ext :
      (r r' : Ring A) (c c' i i' n : ℕ)
      → ((j : ℕ)
          → j < n
          → r.desc (entry r (add32 c (i + j))) ≡ r'.desc (entry r' (add32 c' (i' + j))))
      → read_entries r c i n ≡ read_entries r' c' i' n
  unfolding read_entries
  read_entries-ext r r' c c' i i' zero same = refl
  read_entries-ext r r' c c' i i' (suc n) same =
      let z : i + 0 ≡ i = omega arith in
      let z' : i' + 0 ≡ i' = omega arith in
      ap₂ ◌∷◌ (rw (z, z') at (same 0 (omega arith))) (
        read_entries-ext r r' c c' (i + 1) (i' + 1) n (λ j lt.
          let e : i + suc j ≡ i + 1 + j = omega arith in
          let e' : i' + suc j ≡ i' + 1 + j = omega arith in
          rw (e, e') at (same (suc j) (omega arith))))

  -- Wrapping the index does not move its place.
  pub entry-add32 : (r : Ring A) (a b : ℕ) → size r ∣ 2 ^ 32 → entry r (add32 a b) ≡ entry r (a + b)
  entry-add32 r a b v = mod-mod_of_dvd (size r) (a + b) v

  pub entry-add32_twice :
      (r : Ring A) (a b c : ℕ)
      → size r ∣ 2 ^ 32
      → entry r (add32 (add32 a b) c) ≡ entry r (add32 a (b + c))
  entry-add32_twice r a b c v =
      let e : add32 (add32 a b) c ≡ add32 a (b + c) = omega arith in ap (entry r) e

  -- A write behind the entries that are read.
  pub read_entries-write :
      (r : Ring A) (c n : ℕ) (desc : ℕ → A) (item : A)
      → size r ∣ 2 ^ 32
      → n < size r
      → read_entries (record r { desc = write desc (entry r (add32 c n)) item }) c 0 (n + 1)
        ≡ read_entries (record r { desc = desc }) c 0 n ++ (item ∷ [])
  unfolding read_entries
  read_entries-write r c n desc item v lt =
      read_entries-add (record r { desc = write desc (entry r (add32 c n)) item }) c 0 n 1
      ∙ ap₂ ◌++◌
          (read_entries-ext (record r { desc = write desc (entry r (add32 c n)) item })
            (record r { desc = desc }) c c 0 0 n (λ j less. ground (arith, apart j less)))
          (ap (λ x. x ∷ []) (ground arith))
    where
      apart : (j : ℕ) → j < n → entry r (add32 c (0 + j)) ≢ entry r (add32 c n)
      apart j less e =
          idx-ne (size r) (c + (0 + j)) (c + n) (omega arith) (omega arith)
            (sym (entry-add32 r c n v) ∙ sym e ∙ entry-add32 r c (0 + j) v)
