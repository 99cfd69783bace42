-- ===== src/Soupbintcp/Compressed/Splice.antt =====
-- Writes into the buffer of a `CompressedReader`, and what is left to read.
use polaris_trade.Base.{
  ℕ, ◌+◌, ◌≤◌, ◌≡◌, ◌≢◌, ◌⊎◌, ◌∙◌, refl, sym, ap, true, false, List, [], ◌∷◌, ◌++◌, length, take,
  drop, arith, inl, inr, length-append, length-take, length-drop, take-append,
}
use mathlib.Core.List.{append_assoc}
use polaris_trade.Soupbintcp.Compressed.{splice, is_none_left}

pub length-splice :
    (buf : List ℕ) (at : ℕ) (bytes : List ℕ)
    → at + length bytes ≤ length buf
    → length (splice buf at bytes) ≡ length buf
length-splice buf at bytes fits = omega (
  arith,
  length-append (take at buf) (bytes ++ drop (at + length bytes) buf),
  length-append bytes (drop (at + length bytes) buf),
  length-take at buf,
  length-drop (at + length bytes) buf,
)

pub length-zero : (xs : List ℕ) → length xs ≡ 0 → xs ≡ []
length-zero [] h = refl
length-zero (x ∷ xs) h = absurd (omega arith)

-- A write right behind `w` lengthens the front of the buffer that is known.
pub take-splice :
    (buf w bytes : List ℕ) (at n : ℕ)
    → take at buf ≡ w
    → n ≡ length w + length bytes
    → take n (splice buf at bytes) ≡ w ++ bytes
take-splice buf w bytes at n front e =
    let tail = drop (at + length bytes) buf in
    ap (λ k. take k (splice buf at bytes)) (e ∙ sym (length-append w bytes))
    ∙ ap (λ ys. take (length (w ++ bytes)) (ys ++ (bytes ++ tail))) front
    ∙ ap (take (length (w ++ bytes))) (sym (append_assoc w bytes tail))
    ∙ take-append (w ++ bytes) tail

pub is_none_left-cases :
    (xs : List ℕ) → ((is_none_left xs ≡ true) × (xs ≡ [])) ⊎ (is_none_left xs ≡ false)
is_none_left-cases [] = inl (refl, refl)
is_none_left-cases (x ∷ xs) = inr refl

pub is_none_left-ne : (xs : List ℕ) → is_none_left xs ≡ false → xs ≢ []
is_none_left-ne [] e = λ _. cc e
is_none_left-ne (x ∷ xs) e = λ w. cc w
