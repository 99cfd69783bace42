-- ===== src/Soupbintcp/Compressed.antt =====
-- `CompressedReader` of crates/clients/soupbintcp/src/compressed.rs, and `ingest` of session.rs with the feature
-- `compressed`. The inflator is a parameter.
pub mod Splice
pub mod Inflated
pub mod Fed
pub mod Ingested
use polaris_trade.Base.{
  ℕ, zero, suc, ◌+◌, ◌-◌, min, Bool, true, false, ◌&&◌, ◌||◌, not, Option, none, some, List, [],
  ◌∷◌, ◌++◌, ltb, ◌==◌, if◌then◌else◌, length, drop, take, replicate,
}
use polaris_trade.Base.Result.{Result, ok, err}
use polaris_trade.Transport.Error.{TransportError}
use polaris_trade.Soupbintcp.Error.{
  SoupBinError, transport, protocol_violation, inflate_failed, inflate_stalled,
}
use polaris_trade.Soupbintcp.Session.{Session}

-- `Status`; the code tells the end of the stream from the others.
pub data Status : Type 0 where
  stream_end going_on : Status

-- `Decompress`: the bytes that a call writes into the room that it is given, and its two counts of bytes.
pub record Inflator (Z : Type 0) : Type 0 where
  pub decompress : Z → List ℕ → ℕ → Result (Unit {0}) Status × List ℕ × Z
  pub total_in : Z → ℕ
  pub total_out : Z → ℕ

pub record CompressedReader (Z : Type 0) : Type 0 where
  pub inflator : Z
  pub out : List ℕ
  pub produced : ℕ

abbrev pub new_reader : {Z : Type 0} → Z → ℕ → CompressedReader Z
new_reader z capacity = record { inflator = z; out = replicate capacity 0; produced = 0 }

-- The bytes that the latest `feed` produced.
abbrev pub inflated : {Z : Type 0} → CompressedReader Z → List ℕ
inflated r = take r.produced r.out

abbrev pub capped : {Z : Type 0} → CompressedReader Z → Bool
capped r = not (r.produced == 0) && (r.produced == length r.out)

-- `usize` has 64 bits.
abbrev pub moved : ℕ → ℕ → ℕ → ℕ
moved total start limit = min (total - start) limit

-- A write of `bytes` into a buffer, from `at` on.
abbrev pub splice : List ℕ → ℕ → List ℕ → List ℕ
splice buf at bytes = take at buf ++ (bytes ++ drop (at + length bytes) buf)

abbrev pub is_none_left : List ℕ → Bool
is_none_left [] = true
is_none_left (b ∷ bs) = false

module _ {Z : Type 0} (flate : Inflator Z) where
  -- The loop of `feed`, from `consumed` on; `none` when the fuel is spent.
  unfoldable pub feed_fuel :
      (fuel start_in start_out : ℕ)
      → List ℕ
      → ℕ
      → CompressedReader Z
      → Option (Result SoupBinError ℕ × CompressedReader Z)
  feed_fuel zero start_in start_out compressed consumed r = none
  feed_fuel (suc fuel) start_in start_out compressed consumed r =
      let (status, bytes, z) =
        flate.decompress r.inflator (drop consumed compressed) (length r.out - r.produced) in
      let r₁ : CompressedReader Z = record r {
        inflator = z;
        out = splice r.out r.produced bytes;
      } in
      let consumed₁ = moved (flate.total_in z) start_in (length compressed) in
      let produced₁ = moved (flate.total_out z) start_out (length r.out) in
      let r₂ : CompressedReader Z = record r₁ { produced = produced₁ } in
      let rest = feed_fuel fuel start_in start_out compressed consumed₁ r₂ in
      if ltb r.produced (length r.out)
      then elim status [
        | err u ↦ some (err (protocol_violation inflate_failed), r₁)
        | ok s ↦ elim s [
          | stream_end ↦ some (ok (length compressed), r₂)
          | going_on ↦
              if (consumed₁ == consumed) && (produced₁ == r.produced)
              then some (ok consumed₁, r₂)
              else rest
        ]
      ]
      else some (ok consumed, r)

  unfoldable pub feed :
      ℕ → CompressedReader Z → List ℕ → Option (Result SoupBinError ℕ × CompressedReader Z)
  feed fuel r compressed =
      elim (feed_fuel fuel (flate.total_in r.inflator) (flate.total_out r.inflator) compressed 0
        (record r { produced = 0 })) [
          | none ↦ none
          | some (answer, r') ↦ elim answer [
            | err e ↦ some (err e, r')
            | ok consumed ↦
                if (consumed == 0) && ((r'.produced == 0) && not (is_none_left compressed))
                then some (err (protocol_violation inflate_stalled), r')
                else some (ok consumed, r')
          ]
        ]

-- The two fields that the feature adds to a session.
pub record Staging (Z : Type 0) : Type 0 where
  pub session : Session
  pub inflate : CompressedReader Z
  pub recv_staging : List ℕ

abbrev pub staged : {Z : Type 0} → Staging Z → Bool
staged s = not (is_none_left s.recv_staging) || capped s.inflate

module _ {Z T : Type 0} (flate : Inflator Z)
    (recv_into : T → ℕ → Result TransportError (List ℕ) × T) where
  -- What `ingest` does once compressed bytes are staged.
  unfoldable pub inflate_step : ℕ → Staging Z → Option (Result SoupBinError Bool × Staging Z)
  inflate_step fuel s = elim (feed flate fuel s.inflate s.recv_staging) [
    | none ↦ none
    | some (answer, reader) ↦ elim answer [
      | err e ↦ some (err e, record s { inflate = reader })
      | ok consumed ↦ some (
        ok true,
        record s {
          session = record s.session { decode_buf = s.session.decode_buf ++ inflated reader };
          inflate = reader;
          recv_staging = drop consumed s.recv_staging;
        },
      )
    ]
  ]

  unfoldable pub ingest_compressed :
      ℕ → T → Staging Z → ℕ → Option (Result SoupBinError Bool × Staging Z × T)
  ingest_compressed fuel t s now =
      let (read, t') = recv_into t s.session.cfg.decode_buf_capacity in
      if staged s
      then elim (inflate_step fuel s) [ none ↦ none | some (answer, s') ↦ some (answer, s', t) ]
      else elim read [
        | err e ↦ some (err (transport e), s, t')
        | ok bytes ↦
            let s₁ : Staging Z = record s {
              session = record s.session { last_recv = now };
              recv_staging = s.recv_staging ++ bytes;
            } in
            if is_none_left bytes then some (ok false, s, t') else elim (inflate_step fuel s₁) [
              | none ↦ none
              | some (answer, s') ↦ some (answer, s', t')
            ]
      ]
