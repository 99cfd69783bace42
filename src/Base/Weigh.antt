-- ===== src/Base/Weigh.antt =====
-- Sums over a list, and how often an element is on it.
use Prim.Native.Nat.{ℕ, zero, suc, ◌+◌}
use mathlib.Core.Path.{◌≡◌, refl, ap}
use mathlib.Core.List.{List, [], ◌∷◌, ◌++◌, reverse, reverse-cons, map}
use native.Mathlib.Omega.{arith}
use polaris_trade.Base.Tests.{ltb, ◌==◌, if◌then◌else◌}
use polaris_trade.Base.Lists.{length, take, All}

module _ {ℓ} {A : Type ℓ} where
  abbrev pub weigh : (A → ℕ) → List A → ℕ
  weigh w [] = 0
  weigh w (x ∷ xs) = w x + weigh w xs

  pub weigh-append : (w : A → ℕ) (xs ys : List A) → weigh w (xs ++ ys) ≡ weigh w xs + weigh w ys
  weigh-append w [] ys = omega arith
  weigh-append w (x ∷ xs) ys = omega (arith, weigh-append w xs ys)

  pub weigh-ext : (w v : A → ℕ) → ((x : A) → w x ≡ v x) → (xs : List A) → weigh w xs ≡ weigh v xs
  weigh-ext w v e [] = refl
  weigh-ext w v e (x ∷ xs) = omega (arith, e x, weigh-ext w v e xs)

  pub weigh-reverse : (w : A → ℕ) (xs : List A) → weigh w (reverse xs) ≡ weigh w xs
  weigh-reverse w [] = refl
  weigh-reverse w (x ∷ xs) = omega (
    arith,
    ap (weigh w) (reverse-cons x xs),
    weigh-append w (reverse xs) (x ∷ []),
    weigh-reverse w xs,
  )

  pub weigh-one : (xs : List A) → weigh (λ _. 1) xs ≡ length xs
  weigh-one [] = refl
  weigh-one (x ∷ xs) = omega (arith, weigh-one xs)

  -- What weighs nothing is on the list at most.
  pub weigh-zero : (w : A → ℕ) (xs : List A) → weigh w xs ≡ 0 → All (λ x. w x ≡ 0) xs
  weigh-zero w [] e = tt
  weigh-zero w (x ∷ xs) e = (omega arith, weigh-zero w xs (omega arith))

pub weigh-map {ℓ κ} :
    {A : Type ℓ} {B : Type κ} (w : B → ℕ) (f : A → B) (xs : List A)
    → weigh w (map f xs) ≡ weigh (λ x. w (f x)) xs
weigh-map w f [] = refl
weigh-map w f (x ∷ xs) = ap (λ (n : ℕ). w (f x) + n) (weigh-map w f xs)

pub length-map {ℓ κ} :
    {A : Type ℓ} {B : Type κ} (f : A → B) (xs : List A) → length (map f xs) ≡ length xs
length-map f [] = refl
length-map f (x ∷ xs) = ap suc (length-map f xs)

module _ {ℓ} {A : Type ℓ} where
  pub length-reverse : (xs : List A) → length (reverse xs) ≡ length xs
  length-reverse xs =
      omega (arith, weigh-one (reverse xs), weigh-one xs, weigh-reverse (λ (x : A). 1) xs)

  pub take-all : (xs : List A) → take (length xs) xs ≡ xs
  take-all [] = refl
  take-all (x ∷ xs) = ap (◌∷◌ x) (take-all xs)

-- 1 at `k`, so that a weight is a count.
abbrev pub is : ℕ → ℕ → ℕ
is k j = if j == k then 1 else 0

-- `0..n`
abbrev pub upto : ℕ → List ℕ
upto zero = []
upto (suc n) = upto n ++ (n ∷ [])

pub weigh-upto_is : (k n : ℕ) → weigh (is k) (upto n) ≡ (if ltb k n then 1 else 0)
weigh-upto_is k zero = ground arith
weigh-upto_is k (suc n) = ground (arith, weigh-append (is k) (upto n) (n ∷ []), weigh-upto_is k n)

pub weigh-upto_one : (n : ℕ) → weigh (λ _. 1) (upto n) ≡ n
weigh-upto_one zero = refl
weigh-upto_one (suc n) =
    omega (arith, weigh-append (λ (k : ℕ). 1) (upto n) (n ∷ []), weigh-upto_one n)
