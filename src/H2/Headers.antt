-- ===== src/H2/Headers.antt =====
-- crates/fingerprint-h2/src/headers.rs: HEADERS frames and the order of the pseudo-headers.
pub mod Fragment
use flux_parsing_daemon.Base.{
  ℕ, ◌-◌, bit_and, List, [], ◌∷◌, Option, none, some, Result, ok, err, stuck, length, take, drop,
  filter_map, list_eq, leb, ◌==◌, if◌then◌else◌,
}
use flux_parsing_daemon.Base.Bytes.{codes}
use flux_parsing_daemon.Base.Text.{join}
use flux_parsing_daemon.H2.Frame.{Frame}
use flux_parsing_daemon.H2.Hpack.StaticTable.{Header}
use flux_parsing_daemon.H2.Hpack.Decoder

abbrev pub flag_end_headers : ℕ
flag_end_headers = 0x04

abbrev pub flag_padded : ℕ
flag_padded = 0x08

abbrev pub flag_priority : ℕ
flag_priority = 0x20

-- The padding length and what follows it; `none` where the source returns an empty fragment.
unfoldable pub after_pad_length : ℕ → List ℕ → Option (ℕ × List ℕ)
after_pad_length flags body =
    if bit_and flags flag_padded == 0 then some (0, body) else split_first body
  where
    split_first : List ℕ → Option (ℕ × List ℕ)
    split_first [] = none
    split_first (n ∷ rest) = some (n, rest)

-- `body.get(5..)`
unfoldable pub after_priority : ℕ → List ℕ → Option (List ℕ)
after_priority flags body =
    if bit_and flags flag_priority == 0
    then some body
    else if leb 5 (length body)
    then some (drop 5 body)
    else none

-- The fragment before `pad_len` octets of padding.
unfoldable pub without_padding : ℕ → List ℕ → List ℕ
without_padding pad_len body =
    if leb pad_len (length body) then take (length body - pad_len) body else []

unfoldable pub without_padding_of : ℕ → Option (List ℕ) → List ℕ
without_padding_of pad_len none = []
without_padding_of pad_len (some body) = without_padding pad_len body

unfoldable pub fragment_of : ℕ → Option (ℕ × List ℕ) → List ℕ
fragment_of flags none = []
fragment_of flags (some (pad_len, body)) = without_padding_of pad_len (after_priority flags body)

unfoldable pub header_block_fragment : Frame → List ℕ
header_block_fragment f = fragment_of f.flags (after_pad_length f.flags f.payload)

-- `unwrap_or_default`
unfoldable pub or_empty {ℓ κ} : {E : Type κ} {A : Type ℓ} → Result E (List A) → List A
or_empty (ok xs) = xs
or_empty (err e) = []
or_empty stuck = []

unfoldable pub decode_fragment : List ℕ → List Header
decode_fragment fragment = or_empty (Decoder.decode fragment)

unfoldable pub decode_headers : Frame → List Header
decode_headers f =
    if bit_and f.flags flag_end_headers == 0 then [] else decode_fragment (header_block_fragment f)

unfoldable pub pseudo_letter : Header → Option (List ℕ)
pseudo_letter h =
    if list_eq h.0 (codes ":method")
    then some (codes "m")
    else if list_eq h.0 (codes ":authority")
    then some (codes "a")
    else if list_eq h.0 (codes ":scheme")
    then some (codes "s")
    else if list_eq h.0 (codes ":path")
    then some (codes "p")
    else none

unfoldable pub pseudo_header_order : List Header → List ℕ
pseudo_header_order headers = join (codes ",") (filter_map pseudo_letter headers)
