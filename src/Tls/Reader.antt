-- ===== src/Tls/Reader.antt =====
-- crates/fingerprint-core/src/reader.rs: the bounds-checked cursor over untrusted bytes.
pub mod Laws
use flux_parsing_daemon.Base.{
  ℕ, ◌+◌, ◌-◌, List, [], ◌∷◌, Result, ok, ok_or, ◌>>=◌, length, get_elem?, get_range, String,
}
use flux_parsing_daemon.Base.Bytes.{be16, be32, checked_add}

-- `Malformed` carries a literal of the source.
pub data ParseError : Type 0 where
  truncated not_handshake not_client_hello : ParseError
  malformed : String → ParseError

-- The borrowed buffer and the offset of the next unread byte.
pub record Reader : Type 0 where
  pub buf : List ℕ
  pub pos : ℕ

-- A read returns its value and the reader after it. A read that fails leaves the reader alone.
abbrev pub Read {ℓ} : Type ℓ → Type ℓ
Read A = Result ParseError (A × Reader)

abbrev pub new : List ℕ → Reader
new buf = record { buf = buf; pos = 0 }

abbrev pub remaining : Reader → ℕ
remaining r = length r.buf - r.pos

abbrev pub position : Reader → ℕ
position r = r.pos

unfoldable pub take : ℕ → Reader → Read (List ℕ)
take n r = do
  end ← ok_or (checked_add r.pos n) truncated
  slice ← ok_or (get_range r.buf r.pos end) truncated
  ok (slice, record r { pos = end })

-- `b.first()` and `b.get(i)`, or the error `Truncated`.
byte_at : List ℕ → ℕ → Result ParseError ℕ
byte_at b i = ok_or (get_elem? b i) truncated

unfoldable pub u8 : Reader → Read ℕ
unfolding take byte_at
u8 r = do (b, r') ← take 1 r; v ← byte_at b 0; ok (v, r')

unfoldable pub u16 : Reader → Read ℕ
unfolding take byte_at
u16 r = do (b, r') ← take 2 r; b0 ← byte_at b 0; b1 ← byte_at b 1; ok (be16 b0 b1, r')

unfoldable pub u24 : Reader → Read ℕ
unfolding take byte_at
u24 r = do
  (b, r') ← take 3 r
  b0 ← byte_at b 0
  b1 ← byte_at b 1
  b2 ← byte_at b 2
  ok (be32 0 b0 b1 b2, r')
