-- ===== src/H2/Hpack/Decoder.antt =====
-- crates/fingerprint-h2/src/hpack/decoder.rs: header blocks.
pub mod Bounds
pub mod Total
use flux_parsing_daemon.Base.{
  ℕ, zero, suc, ◌+◌, ◌^◌, bit_and, not, List, [], ◌∷◌, ◌++◌, Result, ok, err, stuck, ok_or, ◌>>=◌,
  length, get_elem?, get_range, ltb, leb, ◌==◌, if◌then◌else◌,
}
use flux_parsing_daemon.Base.Bytes.{checked_add}
use flux_parsing_daemon.Base.Utf8.{from_utf8_lossy}
use flux_parsing_daemon.H2.Hpack.{HpackError, truncated, bad_integer}
use flux_parsing_daemon.H2.Hpack.Huffman
use flux_parsing_daemon.H2.Hpack.Integer
use flux_parsing_daemon.H2.Hpack.StaticTable.{Header}
use flux_parsing_daemon.H2.Hpack.Table.{DynamicTable, new, insert, set_max_size, lookup}

-- `1 << 16`
abbrev pub max_string : ℕ
max_string = 65536

abbrev pub max_headers : ℕ
max_headers = 512

-- The string and how many octets were consumed.
unfoldable pub string : List ℕ → Result HpackError (List ℕ × ℕ)
string buf = do
  first ← ok_or (get_elem? buf 0) truncated
  (len, prefix_used) ← Integer.decode buf 7
  if ltb max_string len then err bad_integer else (do
    end ← ok_or (checked_add prefix_used len) truncated
    raw ← ok_or (get_range buf prefix_used end) truncated
    bytes ← if not (bit_and first 0x80 == 0) then Huffman.decode raw else ok raw
    ok (from_utf8_lossy bytes, end))

-- The name of a literal and `used` behind it: inline, or in the tables.
unfoldable pub inline_name : List ℕ → ℕ → Result HpackError (List ℕ × ℕ)
inline_name buf used = do
  rest ← ok_or (get_range buf used (length buf)) truncated
  (s, n) ← string rest
  ok (s, used + n)

unfoldable pub indexed_name : ℕ → ℕ → DynamicTable → Result HpackError (List ℕ × ℕ)
indexed_name index used dynamic = do h ← lookup index dynamic; ok (h.0, used)

unfoldable pub literal_name : List ℕ → ℕ → ℕ → DynamicTable → Result HpackError (List ℕ × ℕ)
literal_name buf index used dynamic =
    if index == 0 then inline_name buf used else indexed_name index used dynamic

unfoldable pub literal : List ℕ → ℕ → DynamicTable → Result HpackError (Header × ℕ)
literal buf prefix_bits dynamic = do
  (index, used) ← Integer.decode buf prefix_bits
  (name, used') ← literal_name buf index used dynamic
  rest ← ok_or (get_range buf used' (length buf)) truncated
  (value, n) ← string rest
  ok ((name, value), used' + n)

-- What one round of the loop of `decode` does: how many octets it consumes, the table then, and the headers
-- that it pushes, at most one.
pub record Round : Type 0 where
  pub used : ℕ
  pub dynamic : DynamicTable
  pub fields : List Header

-- The bodies of the branches.
unfoldable pub indexed_field : List ℕ → DynamicTable → Result HpackError Round
indexed_field rest dynamic = do
  (index, used) ← Integer.decode rest 7
  h ← lookup index dynamic
  ok record { used = used; dynamic = dynamic; fields = h ∷ [] }

unfoldable pub indexed_literal : List ℕ → DynamicTable → Result HpackError Round
indexed_literal rest dynamic = do
  (h, used) ← literal rest 6 dynamic
  ok record { used = used; dynamic = insert dynamic h; fields = h ∷ [] }

unfoldable pub size_update : List ℕ → DynamicTable → Result HpackError Round
size_update rest dynamic = do
  (size, used) ← Integer.decode rest 5
  ok record { used = used; dynamic = set_max_size dynamic size; fields = [] }

-- Of a literal never indexed, and of one without indexing.
unfoldable pub plain_literal : List ℕ → DynamicTable → Result HpackError Round
plain_literal rest dynamic = do
  (h, used) ← literal rest 4 dynamic
  ok record { used = used; dynamic = dynamic; fields = h ∷ [] }

unfoldable pub representation : ℕ → List ℕ → DynamicTable → Result HpackError Round
representation first rest dynamic =
    if not (bit_and first 0x80 == 0)
    then indexed_field rest dynamic
    else if bit_and first 0xc0 == 0x40
    then indexed_literal rest dynamic
    else if bit_and first 0xe0 == 0x20
    then size_update rest dynamic
    else if bit_and first 0xf0 == 0x10
    then plain_literal rest dynamic
    else plain_literal rest dynamic

-- The loop of `decode`. Each round consumes at least one octet, so one round more than octets is enough.
unfoldable pub decode_rounds :
    ℕ → List ℕ → ℕ → DynamicTable → List Header → Result HpackError (List Header)
decode_rounds zero block pos dynamic out = stuck
decode_rounds (suc fuel) block pos dynamic out =
    if ltb pos (length block)
    then (if leb max_headers (length out) then err bad_integer else (do
      first ← ok_or (get_elem? block pos) truncated
      rest ← ok_or (get_range block pos (length block)) truncated
      r ← representation first rest dynamic
      decode_rounds fuel block (pos + r.used) r.dynamic (out ++ r.fields)))
    else ok out

unfoldable pub decode : List ℕ → Result HpackError (List Header)
decode block = decode_rounds (suc (length block)) block 0 new []
