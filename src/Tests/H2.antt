-- ===== src/Tests/H2.antt =====
-- The theorems on crates/fingerprint-h2, applied to small preambles, tables and header blocks.
use flux_parsing_daemon.Base.{
  ℕ, ◌≤◌, ◌<◌, ◌^◌, ◌≡◌, ◌≢◌, refl, arith, List, [], ◌∷◌, ◌++◌, map, ok, stuck, ok_or, ◌>>=◌,
  length, get_range,
}
use flux_parsing_daemon.Base.Bytes.{codes, checked_add}
use flux_parsing_daemon.H2.Frame.{Frame, preface, parse_preamble}
use flux_parsing_daemon.H2.Frame.RoundTrip.{
  IsFrame, wire_frame, wire_frames, parse_preamble-wire_frames,
}
use flux_parsing_daemon.H2.Frame.Total.{parse_preamble-ne-stuck}
use flux_parsing_daemon.H2.Headers.{header_block_fragment}
use flux_parsing_daemon.H2.Headers.Fragment.{
  pad_field, priority_field, padding_field, headers_payload, header_block_fragment-payload,
}
use flux_parsing_daemon.H2.Http.{from_headers}
use flux_parsing_daemon.H2.Http.Laws.{with_value, from_headers-with_value}
use flux_parsing_daemon.H2.Hpack.Integer
use flux_parsing_daemon.H2.Hpack.Integer.{encode_integer}
use flux_parsing_daemon.H2.Hpack.Integer.Bounds.{decode_bounds}
use flux_parsing_daemon.H2.Hpack.Integer.RoundTrip.{decode-encode_integer}
use flux_parsing_daemon.H2.Hpack.StaticTable.{Header, header, static_table}
use flux_parsing_daemon.H2.Hpack.Table.{DynamicTable, new, insert, lookup}
use flux_parsing_daemon.H2.Hpack.Table.Sized.{
  table_of, fit, IsSized, new-IsSized, insert_lem, insert-IsSized,
}
use flux_parsing_daemon.H2.Hpack.Decoder.{
  Round, representation, indexed_field, decode_rounds, decode,
}
use flux_parsing_daemon.H2.Hpack.Decoder.Bounds.{IsRound, representation-IsRound}
use flux_parsing_daemon.H2.Hpack.Decoder.Total.{decode_block-ne-stuck}

abbrev settings : Frame
settings = record { kind = 4; flags = 0; stream_id = 0; payload = 0 ∷ 3 ∷ 0 ∷ 0 ∷ 0 ∷ 100 ∷ [] }

abbrev request : Frame
request = record { kind = 1; flags = 5; stream_id = 1; payload = 0x82 ∷ [] }

settings-IsFrame : IsFrame settings
settings-IsFrame = record { length_fits = omega arith; stream_id_fits = omega arith }

request-IsFrame : IsFrame request
request-IsFrame = record { length_fits = omega arith; stream_id_fits = omega arith }

parse_preamble-wire_frames_example :
    parse_preamble
      (preface ++ (wire_frames (settings ∷ []) ++ (wire_frame request ++ (1 ∷ 2 ∷ []))))
    ≡ ok (settings ∷ request ∷ [])
unfolding wire_frames wire_frame
parse_preamble-wire_frames_example =
    parse_preamble-wire_frames (settings ∷ []) request (1 ∷ 2 ∷ [])
      ((settings-IsFrame, (λ e. omega arith)), tt) request-IsFrame refl (omega arith)

parse_preamble-ne-stuck_example : parse_preamble (codes "GET / HTTP/1.1") ≢ stuck
parse_preamble-ne-stuck_example = parse_preamble-ne-stuck (codes "GET / HTTP/1.1")

-- PADDED and PRIORITY are set, with two octets of padding.
abbrev padded : Frame
padded = record {
  kind = 1;
  flags = 0x2d;
  stream_id = 1;
  payload = 2 ∷ 0 ∷ 0 ∷ 0 ∷ 0 ∷ 15 ∷ 0x82 ∷ 0x84 ∷ 0 ∷ 0 ∷ [];
}

header_block_fragment-payload_example : header_block_fragment padded ≡ 0x82 ∷ 0x84 ∷ []
unfolding headers_payload pad_field priority_field padding_field
header_block_fragment-payload_example =
    header_block_fragment-payload padded (0 ∷ 0 ∷ 0 ∷ 0 ∷ 15 ∷ []) (0x82 ∷ 0x84 ∷ []) (0 ∷ 0 ∷ [])
      refl refl

abbrev accept : Header
accept = header "accept" "text/html"

abbrev spoofed : Header
spoofed = header "X-FP-Verdict" "chrome-macos"

from_headers-with_value_example :
    from_headers (map (with_value (λ name value. [])) (header ":method" "GET" ∷ accept ∷ []))
    ≡ from_headers (header ":method" "GET" ∷ accept ∷ [])
from_headers-with_value_example =
    from_headers-with_value (λ name value. []) (header ":method" "GET" ∷ accept ∷ [])

decode-encode_integer_example :
    Integer.decode (encode_integer 1337 5 0 ++ (9 ∷ [])) 5
    ≡ ok (1337, length (encode_integer 1337 5 0))
decode-encode_integer_example =
    decode-encode_integer 5 0 1337 (9 ∷ []) (omega arith) (omega arith) (omega arith) (omega arith)

decoded_1337 : Integer.decode (0x1f ∷ 0x9a ∷ 0x0a ∷ []) 5 ≡ ok (1337, 3)
unfolding Integer.decode Integer.decode_first Integer.decode_loop Integer.checked_shl checked_add
    ok_or ◌>>=◌
decoded_1337 = refl

decode_bounds_example : (1337 < 2 ^ 64) × (1 ≤ 3) × (3 ≤ 3) × (3 ≤ 10)
decode_bounds_example = decode_bounds (0x1f ∷ 0x9a ∷ 0x0a ∷ []) 5 1337 3 decoded_1337

-- A table with one entry, of size 42.
abbrev one_entry : DynamicTable
one_entry = insert new (header "x-a" "1234567")

one_entry-IsSized : IsSized one_entry
one_entry-IsSized = insert-IsSized new (header "x-a" "1234567") new-IsSized

insert_lem_example :
    insert one_entry accept
    ≡ table_of one_entry.max_size (fit one_entry.max_size (accept ∷ one_entry.entries))
insert_lem_example = insert_lem one_entry accept one_entry-IsSized

-- Index 2 of the static table.
abbrev method_get : Round
method_get = record { used = 1; dynamic = new; fields = header ":method" "GET" ∷ [] }

abbrev get_block : List ℕ
get_block = 0x82 ∷ []

get_round : representation 0x82 get_block new ≡ ok method_get
unfolding representation indexed_field lookup static_table Integer.decode Integer.decode_first ok_or
    ◌>>=◌
get_round = refl

representation-IsRound_example : IsRound method_get
representation-IsRound_example =
    representation-IsRound 0x82 get_block new method_get new-IsSized get_round

get_decoded : decode get_block ≡ ok (header ":method" "GET" ∷ [])
unfolding decode decode_rounds representation indexed_field lookup static_table Integer.decode
    Integer.decode_first get_range ok_or ◌>>=◌
get_decoded = refl

decode_block-ne-stuck_example : decode (0x3f ∷ 0xff ∷ []) ≢ stuck
decode_block-ne-stuck_example = decode_block-ne-stuck (0x3f ∷ 0xff ∷ [])
