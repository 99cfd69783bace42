-- ===== src/Base/Words.antt =====
-- Unsigned machine words: sums that wrap round, and big-endian byte order.
use Prim.Native.Nat.{ℕ, zero, suc, ◌+◌, ◌*◌, ◌/◌, ◌%◌, ◌^◌, ◌<◌, min}
use mathlib.Core.Path.{◌≡◌, refl, ap, ◌∙◌}
use native.Mathlib.Nat.{div-add-mod, pow-suc, div-div-eq-div-mul}
use mathlib.Core.List.{List, [], ◌∷◌}
use native.Mathlib.Omega.{arith}
use polaris_trade.Base.Lists.{length, All}

abbrev pub u64_max : ℕ
u64_max = 0xffff_ffff_ffff_ffff

abbrev pub u16_max : ℕ
u16_max = 0xffff

-- `a + b` on u64 in a release build.
abbrev pub add64 : ℕ → ℕ → ℕ
add64 a b = (a + b) % 2 ^ 64

-- `u64::saturating_add`
abbrev pub saturating_add64 : ℕ → ℕ → ℕ
saturating_add64 a b = min (a + b) u64_max

-- `uN::from_be_bytes`
unfoldable pub from_be : ℕ → List ℕ → ℕ
from_be acc [] = acc
from_be acc (b ∷ bs) = from_be (acc * 256 + b) bs

abbrev pub IsByte : ℕ → Type 0
IsByte b = b < 256

-- `uN::to_be_bytes`, on `n` bytes.
unfoldable pub to_be : ℕ → ℕ → List ℕ
to_be zero v = []
to_be (suc n) v = v / 256 ^ n % 256 ∷ to_be n v

pub length-to_be : (n v : ℕ) → length (to_be n v) ≡ n
unfolding to_be
length-to_be zero v = refl
length-to_be (suc n) v = ap suc (length-to_be n v)

-- Reading back what was written gives the value, on as many bytes as it was written on.
pub to_be-IsByte : (n v : ℕ) → All IsByte (to_be n v)
unfolding to_be
to_be-IsByte zero v = tt
to_be-IsByte (suc n) v = (omega arith, to_be-IsByte n v)

pub from_be-to_be : (n acc v : ℕ) → from_be acc (to_be n v) ≡ acc * 256 ^ n + v % 256 ^ n
unfolding from_be to_be
from_be-to_be zero acc v = omega arith
from_be-to_be (suc n) acc v =
    from_be-to_be n (acc * 256 + v / 256 ^ n % 256) v
    ∙ digits (256 ^ n) (256 ^ suc n) (pow-suc 256 n)
  where
    -- A remainder by `w = p * 256` is its leading digit and the remainder by `p`.
    digits : (p w : ℕ) → w ≡ p * 256 → (acc * 256 + v / p % 256) * p + v % p ≡ acc * w + v % w
    digits p w e = rw e (
        omega (
          arith,
          div-add-mod v p,
          ap (λ (t : ℕ). p * t) (div-add-mod (v / p) 256),
          div-add-mod v (p * 256),
          ap (λ (t : ℕ). p * 256 * t) (div-div-eq-div-mul v p 256),
        ))
