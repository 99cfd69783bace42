-- ===== src/Soupbintcp/Compressed/Fed.antt =====
-- What a `feed` of `CompressedReader` answers and hands out.
use polaris_trade.Base.{
  ℕ, ◌+◌, ◌≤◌, ◌<◌, ◌≡◌, ◌≢◌, ◌⊎◌, refl, subst, ◌&&◌, not, some, List, [], ◌==◌, length, arith,
  Bool-cases, inl, inr, length-take,
}
use polaris_trade.Base.Result.{Result, ok, err}
use polaris_trade.Soupbintcp.Error.{
  SoupBinError, protocol_violation, inflate_failed, inflate_stalled,
}
use polaris_trade.Soupbintcp.Compressed.{
  Inflator, CompressedReader, inflated, is_none_left, feed_fuel, feed,
}
use polaris_trade.Soupbintcp.Compressed.Inflated.{
  begin, Finished, Corrupt, At, Back, broken, came, feed_fuel-Back,
}
use polaris_trade.Soupbintcp.Compressed.Splice.{length-zero, is_none_left-cases, is_none_left-ne}

module _ {Z : Type 0} (flate : Inflator Z) where
  -- The answers of `feed`, when the inflator was at `z₀`.
  pub data Fed (z₀ : Z) (compressed : List ℕ) (cap : ℕ) (answer : Result SoupBinError ℕ)
      (r : CompressedReader Z) : Type 0 where
    corrupt :
        Corrupt flate z₀ compressed cap
        → answer ≡ err (protocol_violation inflate_failed)
        → Fed z₀ compressed cap answer r
    stalled :
        Finished flate z₀ compressed cap 0 [] r.inflator
        → compressed ≢ []
        → inflated r ≡ []
        → answer ≡ err (protocol_violation inflate_stalled)
        → Fed z₀ compressed cap answer r
    fed :
        (n : ℕ)
        → Finished flate z₀ compressed cap n (inflated r) r.inflator
        → (0 < n + length (inflated r)) ⊎ (compressed ≡ [])
        → answer ≡ ok n
        → Fed z₀ compressed cap answer r

  -- The answer of the loop becomes that of `feed`.
  Back-Fed :
      (fuel : ℕ) (r : CompressedReader Z) (compressed : List ℕ) (answer : Result SoupBinError ℕ)
      (r' : CompressedReader Z)
      → feed_fuel flate fuel
          (flate.total_in r.inflator)
          (flate.total_out r.inflator)
          compressed
          0
          (record r { produced = 0 })
        ≡ some (answer, r')
      → Back flate r.inflator compressed (length r.out) answer r'
      → (answer' : Result SoupBinError ℕ) × (feed flate fuel r compressed ≡ some (answer', r'))
        × Fed r.inflator compressed (length r.out) answer' r'
  unfolding feed
  Back-Fed fuel r compressed answer r' run (broken c e) =
      (err (protocol_violation inflate_failed), rw (run, e, feed) refl, corrupt c refl)
  Back-Fed fuel r compressed answer r' run (came n e done count) =
      elim (Bool-cases ((n == 0) && ((r'.produced == 0) && not (is_none_left compressed)))) [
        | inl stuck ↦
            let zero_in : n ≡ 0 = ground (arith, stuck) in
            let nil = length-zero (inflated r') (ground (arith, stuck, count)) in
            (
              err (protocol_violation inflate_stalled),
              rw (run, e, stuck, feed) refl,
              stalled
                  (subst (λ w. Finished flate r.inflator compressed (length r.out) 0 w r'.inflator)
                    nil
                    (subst
                      (λ (k : ℕ).
                        Finished flate r.inflator compressed (length r.out) k (inflated r')
                          r'.inflator)
                      zero_in done))
                  (is_none_left-ne compressed (ground (arith, stuck))) nil refl,
            )
        | inr free ↦ (
          ok n,
          rw (run, e, free, feed) refl,
          fed n done
              (elim (is_none_left-cases compressed) [
                | inl (b, nil) ↦ inr nil
                | inr b ↦ inl (ground (arith, free, b, count))
              ])
              refl,
        )
      ]

  module _
      (law : (z : Z) (input : List ℕ) (room : ℕ)
        → let (status, bytes, z') = flate.decompress z input room in
          (used : ℕ) × (used ≤ length input)
          × (flate.total_in z' ≡ flate.total_in z + used)
          × (length bytes ≤ room)
          × (flate.total_out z' ≡ flate.total_out z + length bytes)) where
    -- A feed comes back, with one of these answers, and its output fits the reader.
    pub feed_lem :
        (fuel : ℕ) (r : CompressedReader Z) (compressed : List ℕ)
        → length compressed + length r.out < fuel
        → (answer : Result SoupBinError ℕ) × (r' : CompressedReader Z) × (feed flate fuel r
              compressed
            ≡ some (answer, r'))
          × Fed r.inflator compressed (length r.out) answer r'
          × (length r'.out ≡ length r.out)
          × (length (inflated r') ≤ length r.out)
    unfolding feed
    feed_lem fuel r compressed enough =
        let z₀ = r.inflator in
        let start : At flate z₀ compressed (length r.out) 0 (record r { produced = 0 }) = record {
          w = [];
          ran = begin;
          front = refl;
          made = refl;
          sized = refl;
          within = omega arith;
          used = omega arith;
          eaten = omega arith;
          given = omega arith;
        } in
        let (answer, r', run, back, len) =
          feed_fuel-Back flate z₀ compressed (length r.out) law fuel 0 _ start (omega arith) in
        let (answer', run', came') = Back-Fed fuel r compressed answer r' run back in
        (answer', r', run', came', len, omega (arith, len, length-take r'.produced r'.out))
