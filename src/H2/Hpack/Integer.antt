-- ===== src/H2/Hpack/Integer.antt =====
-- crates/fingerprint-h2/src/hpack/integer.rs and `encode_integer` of hpack/encode.rs: integers with an
-- N-bit prefix, RFC 7541 section 5.1.
pub mod Bounds
pub mod RoundTrip
use flux_parsing_daemon.Base.{
  ℕ, zero, suc, ◌+◌, ◌-◌, ◌*◌, ◌/◌, ◌%◌, ◌^◌, bit_and, bit_or, ◌||◌, List, [], ◌∷◌, Option, none,
  some, Result, ok, err, ok_or, ◌>>=◌, ltb, leb, ◌==◌, if◌then◌else◌,
}
use flux_parsing_daemon.Base.Bytes.{checked_add}
use flux_parsing_daemon.H2.Hpack.{HpackError, truncated, bad_integer}

-- `u64::checked_shl`: a shift by the width or more is refused, any other drops the high bits.
unfoldable pub checked_shl : ℕ → ℕ → Option ℕ
checked_shl a shift = if ltb shift 64 then some (a * 2 ^ shift % 2 ^ 64) else none

-- The `loop` of `decode`. The list is `buf` from `consumed` on.
unfoldable pub decode_loop : List ℕ → ℕ → ℕ → ℕ → Result HpackError (ℕ × ℕ)
unfolding checked_shl
decode_loop [] value shift consumed = err truncated
decode_loop (byte ∷ rest) value shift consumed = if leb 63 shift then err bad_integer else (do
  add ← ok_or (checked_shl (bit_and byte 0x7f) shift) bad_integer
  value' ← ok_or (checked_add value add) bad_integer
  if bit_and byte 0x80 == 0
      then ok (value', consumed + 1)
      else decode_loop rest value' (shift + 7) (consumed + 1))

-- The lines of `decode` behind the test of `prefix_bits`.
unfoldable pub decode_first : ℕ → List ℕ → Result HpackError (ℕ × ℕ)
decode_first prefix_bits [] = err truncated
decode_first prefix_bits (first ∷ rest) =
    let mask = 2 ^ prefix_bits - 1 in
    let value = bit_and first mask in
    if ltb value mask then ok (value, 1) else decode_loop rest value 0 1

-- The value and how many octets were consumed.
unfoldable pub decode : List ℕ → ℕ → Result HpackError (ℕ × ℕ)
unfolding decode_first
decode buf prefix_bits =
    if prefix_bits == 0 || ltb 8 prefix_bits then err bad_integer else decode_first prefix_bits buf

-- `while rest >= 128`, and the last octet. Each round divides `rest`, so `rest` rounds are enough.
unfoldable pub encode_rest : ℕ → ℕ → List ℕ
encode_rest zero rest = rest % 256 ∷ []
encode_rest (suc fuel) rest =
    let more = encode_rest fuel (rest / 128) in
    if leb 128 rest then bit_or (rest % 128 % 256) 0x80 ∷ more else rest % 256 ∷ []

-- `prefix_value` is the high bits of the first octet.
unfoldable pub encode_integer : ℕ → ℕ → ℕ → List ℕ
encode_integer value prefix_bits prefix_value =
    let max = 2 ^ prefix_bits - 1 in
    if ltb value max
    then bit_or prefix_value (value % 256) ∷ []
    else bit_or prefix_value (max % 256) ∷ encode_rest (value - max) (value - max)
