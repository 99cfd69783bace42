-- ===== src/Soupbintcp/Compressed/Inflated.antt =====
-- The calls that a `feed` of `CompressedReader` makes to the inflator, and its loop over them.
use polaris_trade.Base.{
  ℕ, zero, suc, ◌+◌, ◌-◌, ◌≤◌, ◌<◌, ◌≡◌, ◌∙◌, refl, sym, ap, ap₂, subst, ◌&&◌, some, List, [], ◌++◌,
  ltb, ◌==◌, length, take, drop, arith, Bool-cases, inl, inr, length-append, length-drop,
}
use mathlib.Core.List.{append-nil}
use polaris_trade.Base.Result.{Result, ok, err, Result-cases}
use polaris_trade.Soupbintcp.Error.{SoupBinError, protocol_violation, inflate_failed}
use polaris_trade.Soupbintcp.Compressed.{
  Status, stream_end, going_on, Inflator, CompressedReader, inflated, moved, splice, feed_fuel,
}
use polaris_trade.Soupbintcp.Compressed.Splice.{length-splice, take-splice, length-zero}

module _ {Z : Type 0} (flate : Inflator Z) (z₀ : Z) (compressed : List ℕ) (cap : ℕ) where
  -- The calls of a `feed` that gave `w` in all and left the inflator at `z`, with `c` bytes of the input consumed.
  pub data Run : ℕ → List ℕ → Z → Type 0 where
    begin : Run 0 [] z₀
    call :
        (c c' room : ℕ) (w bytes : List ℕ) (z z' : Z)
        → Run c w z
        → 0 < room
        → room + length w ≡ cap
        → flate.decompress z (drop c compressed) room ≡ (ok going_on, bytes, z')
        → c' + flate.total_in z₀ ≡ flate.total_in z'
        → Run c' (w ++ bytes) z'

  -- Why the calls end: the cap is reached, the stream is at its end, or a call moved nothing.
  pub data Finished : ℕ → List ℕ → Z → Type 0 where
    full : (c : ℕ) (w : List ℕ) (z : Z) → Run c w z → length w ≡ cap → Finished c w z
    ended :
        (c room : ℕ) (w bytes : List ℕ) (z z' : Z)
        → Run c w z
        → 0 < room
        → room + length w ≡ cap
        → flate.decompress z (drop c compressed) room ≡ (ok stream_end, bytes, z')
        → Finished (length compressed) (w ++ bytes) z'
    still :
        (c room : ℕ) (w : List ℕ) (z z' : Z)
        → Run c w z
        → 0 < room
        → room + length w ≡ cap
        → flate.decompress z (drop c compressed) room ≡ (ok going_on, [], z')
        → flate.total_in z' ≡ flate.total_in z
        → Finished c w z'

  -- A call found the stream corrupt.
  pub record Corrupt : Type 0 where
    pub c : ℕ
    pub room : ℕ
    pub w : List ℕ
    pub z : Z
    pub ran : Run c w z
    pub left : room + length w ≡ cap
    pub failed : (flate.decompress z (drop c compressed) room).0 ≡ err tt

  -- The loop, before a call.
  pub record At (c : ℕ) (r : CompressedReader Z) : Type 0 where
    pub w : List ℕ
    pub ran : Run c w r.inflator
    pub front : take r.produced r.out ≡ w
    pub made : r.produced ≡ length w
    pub sized : length r.out ≡ cap
    pub within : r.produced ≤ cap
    pub used : c ≤ length compressed
    pub eaten : c + flate.total_in z₀ ≡ flate.total_in r.inflator
    pub given : r.produced + flate.total_out z₀ ≡ flate.total_out r.inflator

  -- What the loop comes back with.
  pub data Back (answer : Result SoupBinError ℕ) (r : CompressedReader Z) : Type 0 where
    broken : Corrupt → answer ≡ err (protocol_violation inflate_failed) → Back answer r
    came :
        (n : ℕ)
        → answer ≡ ok n
        → Finished n (inflated r) r.inflator
        → r.produced ≡ length (inflated r)
        → Back answer r

  abbrev attempt : ℕ → CompressedReader Z → Result (Unit {0}) Status × List ℕ × Z
  attempt c r = flate.decompress r.inflator (drop c compressed) (length r.out - r.produced)

  -- The reader and the bytes consumed, after a call.
  abbrev reader_after : ℕ → CompressedReader Z → CompressedReader Z
  reader_after c r = record {
    inflator = (attempt c r).2;
    out = splice r.out r.produced (attempt c r).1;
    produced = moved (flate.total_out (attempt c r).2) (flate.total_out z₀) (length r.out);
  }

  abbrev consumed_after : ℕ → CompressedReader Z → ℕ
  consumed_after c r =
      moved (flate.total_in (attempt c r).2) (flate.total_in z₀) (length compressed)

  module _
      (law : (z : Z) (input : List ℕ) (room : ℕ)
        → let (status, bytes, z') = flate.decompress z input room in
          (used : ℕ) × (used ≤ length input)
          × (flate.total_in z' ≡ flate.total_in z + used)
          × (length bytes ≤ room)
          × (flate.total_out z' ≡ flate.total_out z + length bytes)) where
    -- A call moves what `moved` reports.
    At-step :
        (c : ℕ) (r : CompressedReader Z) (a : At c r)
        → r.produced < length r.out
        → let room = length r.out - r.produced in
          let (status, bytes, z') = attempt c r in
          let r' = reader_after c r in
          (r'.produced ≡ r.produced + length bytes)
          × (r.produced + length bytes ≤ cap)
          × (c ≤ consumed_after c r)
          × (consumed_after c r ≤ length compressed)
          × (consumed_after c r + flate.total_in z₀ ≡ flate.total_in z')
          × (r'.produced + flate.total_out z₀ ≡ flate.total_out z')
          × (room + length a.w ≡ cap)
          × (0 < room)
    At-step c r a fits =
        let room = length r.out - r.produced in
        let (used, some_used, in_lem, in_room, out_lem) = law r.inflator (drop c compressed) room in
        let eaten = a.eaten in
        let given = a.given in
        let sized = a.sized in
        let made = a.made in
        let usedc = a.used in
        let l = length-drop c compressed in
        (
          omega arith,
          omega arith,
          omega arith,
          omega arith,
          omega arith,
          omega arith,
          omega arith,
          omega arith,
        )

    -- The output behind a call.
    At-output :
        (c : ℕ) (r : CompressedReader Z) (a : At c r)
        → r.produced < length r.out
        → let w = a.w ++ (attempt c r).1 in
          let r' = reader_after c r in
          (inflated r' ≡ w) × (r'.produced ≡ length w) × (length r'.out ≡ cap)
    At-output c r a fits =
        let bytes = (attempt c r).1 in
        let (p, q, _, _, _, _, _, _) = At-step c r a fits in
        (
          take-splice r.out a.w bytes r.produced _ a.front (omega (arith, a.made)),
          omega (arith, a.made, length-append a.w bytes),
          length-splice r.out r.produced bytes (omega (arith, a.sized)) ∙ a.sized,
        )

    -- The loop after a call that went on.
    At-next :
        (c : ℕ) (r : CompressedReader Z) (a : At c r)
        → r.produced < length r.out
        → (attempt c r).0 ≡ ok going_on
        → At (consumed_after c r) (reader_after c r)
    At-next c r a fits going =
        let (status, bytes, z') = attempt c r in
        let (p, q, _, within, eaten, given, left, some_room) = At-step c r a fits in
        let (front, made, sized) = At-output c r a fits in
        record {
          w = a.w ++ bytes;
          ran =
              call c _ _ a.w bytes r.inflator z' a.ran some_room left
                (ap (λ st. (st, bytes, z')) going) eaten;
          front = front;
          made = made;
          sized = sized;
          within = omega arith;
          used = within;
          eaten = eaten;
          given = given;
        }

    -- The ends of the loop.
    full-Back :
        (c : ℕ) (r : CompressedReader Z) (a : At c r) → length r.out ≤ r.produced → Back (ok c) r
    full-Back c r a filled =
        let all : length a.w ≡ cap = omega (arith, a.made, a.sized, a.within) in
        came c refl (subst (λ w. Finished c w r.inflator) (sym a.front) (full c a.w _ a.ran all))
          (a.made ∙ ap length (sym a.front))

    ended-Back :
        (c : ℕ) (r : CompressedReader Z) (a : At c r)
        → r.produced < length r.out
        → (attempt c r).0 ≡ ok stream_end
        → Back (ok (length compressed)) (reader_after c r)
    ended-Back c r a fits end =
        let (status, bytes, z') = attempt c r in
        let (_, _, _, _, _, _, left, some_room) = At-step c r a fits in
        let (front, made, sized) = At-output c r a fits in
        came (length compressed) refl
          (subst (λ w. Finished (length compressed) w z') (sym front)
            (ended c _ a.w bytes r.inflator z' a.ran some_room left
              (ap (λ st. (st, bytes, z')) end)))
          (made ∙ ap length (sym front))

    still-Back :
        (c : ℕ) (r : CompressedReader Z) (a : At c r)
        → r.produced < length r.out
        → (attempt c r).0 ≡ ok going_on
        → consumed_after c r ≡ c
        → (reader_after c r).produced ≡ r.produced
        → Back (ok (consumed_after c r)) (reader_after c r)
    still-Back c r a fits going kept same =
        let (status, bytes, z') = attempt c r in
        let (p, _, _, _, eaten, _, left, some_room) = At-step c r a fits in
        let (front, made, sized) = At-output c r a fits in
        let nil = length-zero bytes (omega arith) in
        let whole = front ∙ ap (λ ys. a.w ++ ys) nil ∙ append-nil a.w in
        came (consumed_after c r) refl
          (subst (λ (n : ℕ). Finished n (inflated (reader_after c r)) z') (sym kept)
            (subst (λ w. Finished c w z') (sym whole)
              (still c _ a.w r.inflator z' a.ran some_room left
                (ap₂ (λ st bs. (st, bs, z')) going nil) (omega (arith, a.eaten)))))
          (made ∙ ap length (sym front))

    pub feed_fuel-Back :
        (fuel c : ℕ) (r : CompressedReader Z) (a : At c r)
        → (length compressed - c) + (cap - r.produced) < fuel
        → (answer : Result SoupBinError ℕ) × (r' : CompressedReader Z) × (feed_fuel flate fuel
              (flate.total_in z₀)
              (flate.total_out z₀)
              compressed
              c
              r
            ≡ some (answer, r'))
          × Back answer r'
          × (length r'.out ≡ cap)
    unfolding feed_fuel
    feed_fuel-Back zero c r a h = absurd (omega arith)
    feed_fuel-Back (suc fuel) c r a h =
        let (status, bytes, z') = attempt c r in
        let r' = reader_after c r in
        let c' = consumed_after c r in
        elim (Bool-cases (ltb r.produced (length r.out))) [
          | inr filled ↦
              (ok c, r, rw filled refl, full-Back c r a (ground (arith, filled)), a.sized)
          | inl below ↦
              let fits : r.produced < length r.out = ground (arith, below) in
              let (p, q, more, within, eaten, given, left, some_room) = At-step c r a fits in
              let (_, _, sized) = At-output c r a fits in
              elim (Result-cases status) [
                | inr (u, bad) ↦
                    let corrupt : Corrupt = record {
                      c = c;
                      room = length r.out - r.produced;
                      w = a.w;
                      z = r.inflator;
                      ran = a.ran;
                      left = left;
                      failed = bad;
                    } in
                    let after : CompressedReader Z = record r' { produced = r.produced } in
                    let failure = protocol_violation inflate_failed in
                    (err failure, after, rw (below, bad) refl, broken corrupt refl, sized)
                | inl (stream_end, end) ↦ (
                  ok (length compressed),
                  r',
                  rw (below, end) refl,
                  ended-Back c r a fits end,
                  sized,
                )
                | inl (going_on, going) ↦
                    elim (Bool-cases ((c' == c) && (r'.produced == r.produced))) [
                      | inl same ↦
                          let back = still-Back c r a fits going in
                          (
                            ok c',
                            r',
                            rw (below, going, same) refl,
                            back (ground (arith, same)) (ground (arith, same)),
                            sized,
                          )
                      | inr moving ↦
                          let (answer, last, run, back, len) =
                            feed_fuel-Back fuel c' r' (At-next c r a fits going)
                              (ground (arith, moving)) in
                          (answer, last, rw (below, going, moving) run, back, len)
                    ]
              ]
        ]
