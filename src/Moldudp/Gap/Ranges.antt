-- ===== src/Moldudp/Gap/Ranges.antt =====
-- What the entries of the gap map mean: the sequences that they hold, and their separation.
use polaris_trade.Base.{
  ℕ, ◌+◌, ◌≤◌, ◌<◌, ◌≡◌, refl, ◌⊎◌, inr, Bool, false, ◌&&◌, ◌||◌, [], ◌∷◌, arith, ltb, leb,
}
use polaris_trade.Base.BTreeMap.{BTreeMap, insert, remove}

-- `s` lies in `[start, end)`.
abbrev pub within : ℕ → ℕ → ℕ → Bool
within start end s = leb start s && ltb s end

-- `s` is recorded as missing.
abbrev pub missing : BTreeMap → ℕ → Bool
missing [] s = false
missing ((a, b) ∷ m) s = within a b s || missing m s

-- The entries are in order from `lo` on, none is empty, and no two touch.
abbrev pub Separated : ℕ → BTreeMap → Type 0
Separated lo [] = Unit
Separated lo ((a, b) ∷ m) = (lo ≤ a) × (a < b) × Separated (b + 1) m

pub Separated-mono : (lo lo' : ℕ) (m : BTreeMap) → lo' ≤ lo → Separated lo m → Separated lo' m
Separated-mono lo lo' [] h w = tt
Separated-mono lo lo' ((a, b) ∷ m) h w = (omega arith, w.1, w.2)

-- Each entry ends before `start`, or begins at or behind `from`.
abbrev pub Clear : ℕ → ℕ → BTreeMap → Type 0
Clear start from [] = Unit
Clear start from ((a, b) ∷ m) = ((b < start) ⊎ (from ≤ a)) × Clear start from m

pub Clear-above :
    (start from lo : ℕ) (m : BTreeMap) → Separated lo m → from ≤ lo → Clear start from m
Clear-above start from lo [] w h = tt
Clear-above start from lo ((a, b) ∷ m) w h =
    (inr (omega arith), Clear-above start from (b + 1) m w.2 (omega arith))

pub missing_below : (lo s : ℕ) (m : BTreeMap) → Separated lo m → s < lo → missing m s ≡ false
missing_below lo s [] w h = refl
missing_below lo s ((a, b) ∷ m) w h = ground (arith, missing_below (b + 1) s m w.2)

pub remove-Separated : (k lo : ℕ) (m : BTreeMap) → Separated lo m → Separated lo (remove k m)
unfolding remove
remove-Separated k lo [] w = tt
remove-Separated k lo ((a, b) ∷ m) w =
    ground (arith, remove-Separated k (b + 1) m w.2, Separated-mono (b + 1) lo m)

pub remove-Clear :
    (k start from : ℕ) (m : BTreeMap) → Clear start from m → Clear start from (remove k m)
unfolding remove
remove-Clear k start from [] c = tt
remove-Clear k start from ((a, b) ∷ m) c = ground (arith, remove-Clear k start from m c.1)

-- A new entry that touches none keeps the map separated.
pub insert-Separated :
    (k v lo : ℕ) (m : BTreeMap)
    → lo ≤ k
    → k < v
    → Separated lo m
    → Clear k (v + 1) m
    → Separated lo (insert k v m)
unfolding insert
insert-Separated k v lo [] hlo hk w c = (hlo, hk, tt)
insert-Separated k v lo ((a, b) ∷ m) hlo hk w c =
    ground (arith, insert-Separated k v (b + 1) m, Separated-mono (b + 1) (v + 1) m)

pub missing-insert :
    (k v s : ℕ) (m : BTreeMap)
    → k < v
    → Clear k (v + 1) m
    → missing (insert k v m) s ≡ (within k v s || missing m s)
unfolding insert
missing-insert k v s [] hk c = refl
missing-insert k v s ((a, b) ∷ m) hk c = ground (arith, missing-insert k v s m hk c.1)
