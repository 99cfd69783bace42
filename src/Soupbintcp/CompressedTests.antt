-- ===== src/Soupbintcp/CompressedTests.antt =====
-- A compressed session on an inflator of stored bytes.
use polaris_trade.Base.{ℕ, ◌+◌, ◌≡◌, refl, some, List, [], ◌∷◌, length, take, zero, suc}
use polaris_trade.Base.Result.{Result, ok}
use polaris_trade.Transport.Error.{TransportError}
use polaris_trade.Soupbintcp.Error.{SoupBinError}
use polaris_trade.Soupbintcp.Session.{SoupBinClientConfig, new_session}
use polaris_trade.Soupbintcp.Compressed.{
  Status, stream_end, going_on, Inflator, CompressedReader, new_reader, feed, feed_fuel, Staging,
}
use polaris_trade.Soupbintcp.Compressed.Ingested.{Ingested}

-- Every byte stands for itself, and 0 ends the stream.
abbrev copy : ℕ × ℕ → List ℕ → ℕ → Result (Unit {0}) Status × List ℕ × (ℕ × ℕ)
copy (i, o) [] room = (ok going_on, [], (i + 0, o + 0))
copy (i, o) (zero ∷ input) room = (ok stream_end, [], (i, o))
copy (i, o) (suc n ∷ input) room =
    let bytes = take room (suc n ∷ input) in
    (ok going_on, bytes, (i + length bytes, o + length bytes))

abbrev stored : Inflator (ℕ × ℕ)
stored = record { decompress = copy; total_in = λ z. z.0; total_out = λ z. z.1 }

abbrev reader : CompressedReader (ℕ × ℕ)
reader = new_reader (0, 0) 2

abbrev message : List ℕ
message = 7 ∷ 8 ∷ 9 ∷ []

abbrev two : Result SoupBinError ℕ
two = ok 2

-- Two bytes fill the reader, the third waits.
feed_run :
    feed stored 10 reader message
    ≡ some (two, record { inflator = (2, 2); out = 7 ∷ 8 ∷ []; produced = 2 })
unfolding feed feed_fuel
feed_run = refl

abbrev config : SoupBinClientConfig
config = record {
  username = 0x75 ∷ [];
  password = 0x70 ∷ [];
  requested_session = [];
  requested_sequence_number = 1;
  login_timeout_after = 30;
  heartbeat_interval = 1;
  heartbeat_timeout = 15;
  max_frame_size = 65536;
  decode_buf_capacity = 16;
}

abbrev staging : Staging (ℕ × ℕ)
staging = record { session = new_session config 0; inflate = reader; recv_staging = [] }

-- A transport that reads what it holds, once.
abbrev read_all : List ℕ → ℕ → Result TransportError (List ℕ) × List ℕ
read_all t room = (ok t, [])
