-- ===== src/Moldudp/Ab.antt =====
-- `AbArbiter` of crates/clients/moldudp/src/ab.rs. Times are nanoseconds.
pub mod Window
pub mod Dedupe
use polaris_trade.Base.{
  ℕ, zero, suc, ◌+◌, ◌-◌, ◌*◌, ◌%◌, max, Bool, true, false, ◌&&◌, Option, none, some, List, [], ◌∷◌,
  map, ltb, leb, ◌==◌, if◌then◌else◌, length, get_elem?, get_or, set, replicate, add64,
}
use polaris_trade.Base.HashMap.{lookup, remove, or_insert}

pub data ArbiterVerdict : Type 0 where
  forward duplicate out_of_window : ArbiterVerdict

pub record StreamStats : Type 0 where
  pub packets_won : ℕ
  pub packets_lost_to_peer : ℕ
  pub last_recv_at : Option ℕ
  pub max_seq_seen : ℕ
  pub sequences_behind_leader : ℕ

pub record AbArbiter : Type 0 where
  pub window_base : ℕ
  pub window_bits : List Bool
  pub stream_stats : List StreamStats
  pub gap_confirm_window_ms : ℕ
  pub pending_gap_confirms : List (ℕ × ℕ)

abbrev pub default_stats : StreamStats
default_stats = record {
  packets_won = 0;
  packets_lost_to_peer = 0;
  last_recv_at = none;
  max_seq_seen = 0;
  sequences_behind_leader = 0;
}

-- `AbArbiter::new`; it panics on a window of capacity 0.
unfoldable pub new : ℕ → ℕ → ℕ → Option AbArbiter
new stream_count window_capacity gap_confirm_window_ms =
    if window_capacity == 0
    then none
    else some (record {
      window_base = 0;
      window_bits = replicate window_capacity false;
      stream_stats = replicate stream_count default_stats;
      gap_confirm_window_ms = gap_confirm_window_ms;
      pending_gap_confirms = [];
    })

abbrev pub capacity : AbArbiter → ℕ
capacity a = length a.window_bits

abbrev pub idx : AbArbiter → ℕ → ℕ
idx a seq = seq % capacity a

-- `self.window_bits[self.idx(seq)]`
abbrev pub bit_at : AbArbiter → ℕ → Bool
bit_at a seq = get_or a.window_bits (idx a seq) false

abbrev pub set_bit : AbArbiter → ℕ → Bool → AbArbiter
set_bit a seq b = record a { window_bits = set a.window_bits (idx a seq) b }

unfoldable pub rebase : AbArbiter → ℕ → AbArbiter
rebase a base = record a {
  window_base = base;
  window_bits = replicate (capacity a) false;
  pending_gap_confirms = [];
}

-- `pending_gap_confirms.entry(seq).or_insert(now)`
abbrev pub stage : AbArbiter → ℕ → ℕ → AbArbiter
stage a seq now = record a { pending_gap_confirms = or_insert seq now a.pending_gap_confirms }

-- The body of the `for` loop of `note_missing_range`.
unfoldable pub note_missing : AbArbiter → ℕ → ℕ → AbArbiter
note_missing a seq now =
    if leb a.window_base seq && ltb seq (add64 a.window_base (capacity a))
    then (if bit_at a seq then a else stage a seq now)
    else stage a seq now

-- `for seq in start..start + count`
unfoldable pub note_missing_from : ℕ → AbArbiter → ℕ → ℕ → AbArbiter
note_missing_from zero a seq now = a
note_missing_from (suc count) a seq now =
    note_missing_from count (note_missing a seq now) (seq + 1) now

unfoldable pub note_missing_range : AbArbiter → ℕ → ℕ → ℕ → AbArbiter
note_missing_range a start end_exclusive now = note_missing_from (end_exclusive - start) a start now

-- The body of the `while` loop of `observe`: the oldest position leaves the window.
unfoldable pub evict : ℕ → AbArbiter → AbArbiter
evict now a =
    let a' = if bit_at a a.window_base then a else stage a a.window_base now in
    record (set_bit a' a'.window_base false) { window_base = add64 a.window_base 1 }

-- The `while` loop of `observe`. Each round moves the base by one, so that the distance to the
-- target is fuel enough.
unfoldable pub slide : ℕ → ℕ → ℕ → AbArbiter → AbArbiter
slide zero target_base now a = a
slide (suc fuel) target_base now a =
    let rest = slide fuel target_base now (evict now a) in
    if ltb a.window_base target_base then rest else a

-- `recompute_leader_lag`
unfoldable pub leader : List StreamStats → ℕ
leader [] = 0
leader (s ∷ ss) = max s.max_seq_seen (leader ss)

abbrev pub with_lag : ℕ → StreamStats → StreamStats
with_lag lead s = record s { sequences_behind_leader = lead - s.max_seq_seen }

unfoldable pub recompute_leader_lag : List StreamStats → List StreamStats
recompute_leader_lag ss = map (with_lag (leader ss)) ss

-- The entry of the stream that delivered.
unfoldable pub delivered_stats : StreamStats → ℕ → ℕ → Bool → StreamStats
delivered_stats s seq now lost_race = record s {
  packets_won = if lost_race then s.packets_won else add64 s.packets_won 1;
  packets_lost_to_peer =
      if lost_race then add64 s.packets_lost_to_peer 1 else s.packets_lost_to_peer;
  last_recv_at = some now;
  max_seq_seen = max s.max_seq_seen seq;
}

unfoldable pub record_delivery : AbArbiter → ℕ → ℕ → ℕ → Bool → AbArbiter
record_delivery a stream_id seq now lost_race = elim (get_elem? a.stream_stats stream_id) [
  | none ↦ a
  | some s ↦ record a {
    stream_stats =
        recompute_leader_lag (set a.stream_stats stream_id (delivered_stats s seq now lost_race));
  }
]

-- `observe` once `seq` is not behind the window's end.
unfoldable pub observe_in_window : AbArbiter → ℕ → ℕ → ℕ → ArbiterVerdict × AbArbiter
observe_in_window a stream_id seq now =
    if bit_at a seq then (duplicate, record_delivery a stream_id seq now true) else (
      forward,
      record_delivery
          (record (set_bit a seq true) { pending_gap_confirms = remove seq a.pending_gap_confirms })
          stream_id seq now false,
    )

unfoldable pub observe_behind : AbArbiter → ℕ → ℕ → ℕ → ArbiterVerdict × AbArbiter
observe_behind a stream_id seq now = elim (lookup seq a.pending_gap_confirms) [
  | some first_seen ↦ (
    forward,
    record_delivery (record a { pending_gap_confirms = remove seq a.pending_gap_confirms })
        stream_id seq now false,
  )
  | none ↦ (out_of_window, a)
]

unfoldable pub slide_to : AbArbiter → ℕ → ℕ → AbArbiter
slide_to a seq now =
    if leb (add64 a.window_base (capacity a)) seq
    then slide (seq - capacity a + 1 - a.window_base) (seq - capacity a + 1) now a
    else a

unfoldable pub observe : AbArbiter → ℕ → ℕ → ℕ → ArbiterVerdict × AbArbiter
observe a stream_id seq now =
    if ltb seq a.window_base
    then observe_behind a stream_id seq now
    else observe_in_window (slide_to a seq now) stream_id seq now

-- `confirmed_gaps`: the candidates whose window has passed, sorted, and the arbiter without them.
unfoldable pub is_confirmed : ℕ → ℕ → ℕ → Bool
is_confirmed window now first_seen = leb window (now - first_seen)

unfoldable pub confirmed_of : ℕ → ℕ → List (ℕ × ℕ) → List ℕ
confirmed_of window now [] = []
confirmed_of window now ((seq, first_seen) ∷ m) =
    if is_confirmed window now first_seen
    then seq ∷ confirmed_of window now m
    else confirmed_of window now m

-- `sort_unstable`
unfoldable pub sort_insert : ℕ → List ℕ → List ℕ
sort_insert x [] = x ∷ []
sort_insert x (y ∷ ys) = if leb x y then x ∷ y ∷ ys else y ∷ sort_insert x ys

unfoldable pub sort : List ℕ → List ℕ
sort [] = []
sort (x ∷ xs) = sort_insert x (sort xs)

unfoldable pub remove_all : List ℕ → List (ℕ × ℕ) → List (ℕ × ℕ)
remove_all [] m = m
remove_all (seq ∷ seqs) m = remove_all seqs (remove seq m)

unfoldable pub confirmed_gaps : AbArbiter → ℕ → List ℕ × AbArbiter
confirmed_gaps a now =
    let confirmed =
      sort (confirmed_of (a.gap_confirm_window_ms * 1_000_000) now a.pending_gap_confirms) in
    (confirmed, record a { pending_gap_confirms = remove_all confirmed a.pending_gap_confirms })
