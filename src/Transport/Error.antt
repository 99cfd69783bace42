-- ===== src/Transport/Error.antt =====
-- `TransportError` of crates/transports/core/src/error.rs. Of an `io::Error` only its kind is read.
use Prim.Native.String.{String}
use polaris_trade.Base.{ℕ, Option}

pub data IpAddr : Type 0 where
  v4 v6 : ℕ → IpAddr

pub record SocketAddr : Type 0 where
  pub ip : IpAddr
  pub port : ℕ

-- `io::ErrorKind`: the kinds that the code tells apart, and the others by number.
pub data IoErrorKind : Type 0 where
  would_block interrupted : IoErrorKind
  other_kind : ℕ → IoErrorKind

-- What the code reads of an `io::Error`: its kind, and the errno if it has one.
pub record IoError : Type 0 where
  pub kind : IoErrorKind
  pub raw_os_error : Option ℕ

pub data TransportError : Type 0 where
  bind connect : SocketAddr → IoErrorKind → TransportError
  invalid_config : String → String → TransportError
  io : String → IoErrorKind → TransportError
  pool_exhausted : ℕ → ℕ → TransportError
  peer_closed : TransportError
  unsupported : String → String → TransportError
  unavailable : String → String → Option IoErrorKind → TransportError
