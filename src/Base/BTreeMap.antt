-- ===== src/Base/BTreeMap.antt =====
-- `BTreeMap<u64, u64>` as the list of its entries in key order.
use Prim.Native.Nat.{ℕ}
use mathlib.Core.Option.{Option, none, some}
use mathlib.Core.List.{List, [], ◌∷◌}
use polaris_trade.Base.Tests.{ltb, leb, ◌==◌, if◌then◌else◌}

abbrev pub BTreeMap : Type 0
BTreeMap = List (ℕ × ℕ)

-- `insert`: a key that is there gets the new value.
unfoldable pub insert : ℕ → ℕ → BTreeMap → BTreeMap
insert k v [] = (k, v) ∷ []
insert k v ((a, b) ∷ m) =
    if ltb k a then (k, v) ∷ (a, b) ∷ m else if k == a then (k, v) ∷ m else (a, b) ∷ insert k v m

unfoldable pub remove : ℕ → BTreeMap → BTreeMap
remove k [] = []
remove k ((a, b) ∷ m) = if k == a then m else (a, b) ∷ remove k m

-- `range(..k).next_back()`
unfoldable pub last_below : ℕ → BTreeMap → Option (ℕ × ℕ)
last_below k [] = none
last_below k ((a, b) ∷ m) =
    if ltb a k then elim (last_below k m) [ none ↦ some (a, b) | some e ↦ some e ] else none

-- `range(..=k).next_back()`
unfoldable pub last_upto : ℕ → BTreeMap → Option (ℕ × ℕ)
last_upto k [] = none
last_upto k ((a, b) ∷ m) =
    if leb a k then elim (last_upto k m) [ none ↦ some (a, b) | some e ↦ some e ] else none

-- `range(k..).next()`
unfoldable pub first_from : ℕ → BTreeMap → Option (ℕ × ℕ)
first_from k [] = none
first_from k ((a, b) ∷ m) = if leb k a then some (a, b) else first_from k m
