-- ===== src/Base/Modulo.antt =====
-- Positions on a ring: remainders of indices that run on.
use Prim.Native.Nat.{ℕ, ◌+◌, ◌-◌, ◌%◌, ◌<◌}
use mathlib.Core.Path.{◌≡◌}
use mathlib.Core.Logic.{◌≢◌}
use native.Mathlib.Omega.{arith}
use native.Mathlib.Decide.{dec_lt}
use native.Mathlib.Nat.{mod-lt, mod-add-mod, mod-eq-sub-mod, mod-eq_of_lt}

-- Positions less than one turn apart have different indices.
mod-ne : (b d c : ℕ) → 0 < d → d < c → (b + d) % c ≢ b % c
mod-ne b d c pos lt = elim (dec_lt (b % c + d) c) [
  | yes p ↦ omega (arith, mod-add-mod b c d, mod-eq_of_lt p, mod-lt b {m = c} (omega arith))
  | no p ↦ omega (
    arith,
    mod-add-mod b c d,
    mod-eq-sub-mod {n = b % c + d} {m = c} (omega arith),
    mod-eq_of_lt {n = b % c + d - c} {m = c} (omega (arith, mod-lt b {m = c} (omega arith))),
    mod-lt b {m = c} (omega arith),
  )
]

pub idx-ne : (c b s : ℕ) → b < s → s < b + c → s % c ≢ b % c
idx-ne c b s h k =
    let e : b + (s - b) ≡ s = omega arith in
    rw e at (mod-ne b (s - b) c (omega arith) (omega arith))
