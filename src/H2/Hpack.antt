-- ===== src/H2/Hpack.antt =====
-- crates/fingerprint-h2/src/hpack/mod.rs: the errors of HPACK. The children are its modules.
pub mod Integer
pub mod StaticTable
pub mod HuffmanTable
pub mod Table
pub mod Huffman
pub mod Encode
pub mod Decoder
pub mod RoundTrip
use flux_parsing_daemon.Base.{ℕ}

pub data HpackError : Type 0 where
  truncated bad_integer bad_huffman : HpackError
  bad_index : ℕ → HpackError
