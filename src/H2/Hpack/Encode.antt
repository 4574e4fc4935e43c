-- ===== src/H2/Hpack/Encode.antt =====
-- crates/fingerprint-h2/src/hpack/encode.rs: strings and header lists as HPACK octets. Its integers are
-- in Integer.antt.
use flux_parsing_daemon.Base.{
  ℕ, zero, suc, ◌+◌, ◌-◌, ◌*◌, ◌/◌, ◌%◌, ◌^◌, bit_and, bit_or, ◌&&◌, List, [], ◌∷◌, ◌++◌, Option,
  none, some, length, get_elem?, position_of, list_eq, ltb, leb, if◌then◌else◌,
}
use flux_parsing_daemon.Base.Options.{map_option}
use flux_parsing_daemon.H2.Hpack.HuffmanTable.{huffman}
use flux_parsing_daemon.H2.Hpack.Integer.{encode_integer}
use flux_parsing_daemon.H2.Hpack.StaticTable.{Header, static_table}

-- `while bits >= 8`: the octets and the bits left. Each round takes eight bits away.
unfoldable pub whole_octets : ℕ → ℕ → ℕ → List ℕ × ℕ
whole_octets zero acc bits = ([], bits)
whole_octets (suc fuel) acc bits =
    let (octets, left) = whole_octets fuel acc (bits - 8) in
    if leb 8 bits then (bit_and (acc / 2 ^ (bits - 8)) 0xff ∷ octets, left) else ([], bits)

-- The last octet, padded with ones.
unfoldable pub padded_octet : ℕ → ℕ → List ℕ
padded_octet acc zero = []
padded_octet acc (suc b) =
    let pad = 8 - suc b in bit_and (bit_or (acc * 2 ^ pad % 2 ^ 64) (2 ^ pad - 1)) 0xff ∷ []

-- The variables of `encode_huffman`: the low `bits` bits of the `u64` `acc` are still to be written.
pub record Pending : Type 0 where
  pub out : List ℕ
  pub acc : ℕ
  pub bits : ℕ

-- The body of the loop over the input, by the table's entry.
unfoldable pub add_symbol : Option (ℕ × ℕ) → Pending → Pending
add_symbol none p = p
add_symbol (some (code, len)) p =
    let acc = bit_or (p.acc * 2 ^ len % 2 ^ 64) code in
    let (octets, left) = whole_octets (p.bits + len) acc (p.bits + len) in
    record { out = p.out ++ octets; acc = acc; bits = left }

unfoldable pub add_symbols : List ℕ → Pending → Pending
add_symbols [] p = p
add_symbols (byte ∷ input) p = add_symbols input (add_symbol (get_elem? huffman byte) p)

unfoldable pub encode_huffman : List ℕ → List ℕ
encode_huffman input =
    let p = add_symbols input record { out = []; acc = 0; bits = 0 } in
    p.out ++ padded_octet p.acc p.bits

unfoldable pub encode_string : List ℕ → List ℕ
encode_string raw =
    let huff = encode_huffman raw in
    if ltb (length huff) (length raw)
    then encode_integer (length huff) 7 0x80 ++ huff
    else encode_integer (length raw) 7 0x00 ++ raw

unfoldable pub static_index_exact : Header → Option ℕ
static_index_exact (name, value) =
    map_option suc
      (position_of (λ (e : Header). list_eq e.0 name && list_eq e.1 value) static_table)

unfoldable pub static_index_name : List ℕ → Option ℕ
static_index_name name =
    map_option suc (position_of (λ (e : Header). list_eq e.0 name) static_table)

-- The branches of the loop body, by the two indices.
unfoldable pub encode_field : Option ℕ → Option ℕ → Header → List ℕ
encode_field (some idx) by_name h = encode_integer idx 7 0x80
encode_field none (some idx) (name, value) = encode_integer idx 6 0x40 ++ encode_string value
encode_field none none (name, value) = 0x40 ∷ (encode_string name ++ encode_string value)

unfoldable pub encode_headers : List Header → List ℕ
encode_headers [] = []
encode_headers (h ∷ headers) =
    encode_field (static_index_exact h) (static_index_name h.0) h ++ encode_headers headers
