-- ===== src/Tests/Emulate.antt =====
-- The round trips of header lists and of emitted preambles, the cipher lists and the set-up of a client, on
-- a small profile.
use flux_parsing_daemon.Base.{
  ℕ, ◌≤◌, ◌<◌, ◌^◌, ◌≡◌, refl, sym, subst, filter_map, find, arith, true, false, List, [], ◌∷◌, All,
  all, none, some, ok, length, ltb, ltb→lt, leb, leb→le, position_of, next_place, any, ◌++◌, keep,
}
use flux_parsing_daemon.Base.Bytes.{codes}
use flux_parsing_daemon.Base.Text.{
  split, begin_with, trim, trim_front, front_width, starts_with, to_lower, join,
}
use flux_parsing_daemon.Base.Utf8.{from_utf8, is_utf8_from, lead}
use flux_parsing_daemon.H2.Akamai.{H2Fingerprint, fingerprint}
use flux_parsing_daemon.H2.Hpack.Encode.{
  whole_octets, padded_octet, add_symbol, add_symbols, encode_huffman, encode_string,
  static_index_exact, static_index_name, encode_field, encode_headers,
}
use flux_parsing_daemon.H2.Hpack.HuffmanTable.{huffman}
use flux_parsing_daemon.H2.Hpack.Integer.{encode_integer, encode_rest}
use flux_parsing_daemon.H2.Hpack.Decoder.{decode}
use flux_parsing_daemon.H2.Hpack.RoundTrip.{AreTexts, decode-encode_headers}
use flux_parsing_daemon.H2.Hpack.RoundTrip.Strings.{IsText}
use flux_parsing_daemon.H2.Hpack.StaticTable.{Header, header, static_table}
use flux_parsing_daemon.Probe.Profile.{Profile, H2Profile, permuted, fixed}
use flux_parsing_daemon.H2.Http.{is_pseudo}
use flux_parsing_daemon.Emulate.Preamble.{
  pseudo_header, pseudo_headers, value_of, regular_headers, request_headers, preamble_with_values,
}
use flux_parsing_daemon.Emulate.Preamble.Order.{method, path, IsRegular}
use flux_parsing_daemon.Emulate.Preamble.Reproduces.{IsEmittable, Reproduces, preamble-Reproduces}
use flux_parsing_daemon.Emulate.Ciphers.{
  names_for, names_or_first, unknown_ciphers, names_for-first, cipher_name, cipher_names,
}
use flux_parsing_daemon.Emulate.Build.{
  set_verify_none, set_min_tls12, set_max_tls13, set_cipher_list, set_grease_enabled,
  set_permute_extensions, set_alpn_protos, set_use_server_name_indication, Boring, build, configure,
}
use flux_parsing_daemon.Emulate.Build.SetUp.{
  told, connector_calls, connection_calls, has_grease, shuffles, alpn_bytes, lists, configure-build,
}
use flux_parsing_daemon.Base.Options.{some_injective}

below_256 : (raw : List ℕ) → all (λ b. ltb b 256) raw ≡ true → All (λ b. b < 256) raw
unfolding all
below_256 [] h = tt
below_256 (b ∷ raw) h = (ground (arith, h), below_256 raw (ground (arith, h)))

text :
    (raw : List ℕ)
    → all (λ b. ltb b 256) raw ≡ true
    → from_utf8 raw ≡ some raw
    → leb (length raw) 65536 ≡ true
    → IsText raw
text raw bytes valid short = record {
  bytes = below_256 raw bytes;
  valid = valid;
  short = leb→le _ _ short;
}

-- One field of each form.
abbrev request : List Header
request = header ":method" "GET" ∷ header ":authority" "aa.example" ∷ header "x-trace" "7" ∷ []

request-AreTexts : AreTexts request
unfolding all from_utf8 is_utf8_from lead
request-AreTexts = (
  (text (codes ":method") refl refl refl, text (codes "GET") refl refl refl),
  (
    (text (codes ":authority") refl refl refl, text (codes "aa.example") refl refl refl),
    ((text (codes "x-trace") refl refl refl, text (codes "7") refl refl refl), tt),
  ),
)

decode-encode_headers_example : decode (encode_headers request) ≡ ok request
decode-encode_headers_example = decode-encode_headers request (omega arith) request-AreTexts

abbrev h2 : H2Profile
h2 = record {
  akamai = codes "3:100;2:0|65536|0|m,p";
  settings = (3, 100) ∷ (2, 0) ∷ [];
  window_update = some 65536;
  pseudo_order = codes "m,p";
}

abbrev small_client : Profile
small_client = record {
  label = codes "small";
  family = codes "curl";
  captured = codes "2026-01-01";
  source = codes "manual";
  session = none;
  equivalence = record { cipher_order = fixed; extension_order = permuted };
  tls = record {
    ja4 = codes "t13d0201h2";
    ciphers = 0x1301 ∷ 0xc02b ∷ [];
    extensions = 16 ∷ [];
    grease_cipher_positions = [];
    grease_ext_positions = [];
    sig_algs = [];
    alpn = some (codes "h2");
    has_sni = true;
  };
  h2 = some h2;
  http =
      some record {
        header_names = codes "accept" ∷ [];
        header_count = 1;
        has_accept_language = false;
      };
}

abbrev accepts : List Header
accepts = header "Accept" "*/*" ∷ []

abbrev sent : List Header
sent = header ":method" "GET" ∷ header ":path" "/" ∷ header "accept" "*/*" ∷ []

sent_lem : request_headers small_client h2 (codes "a") accepts ≡ sent
unfolding request_headers pseudo_headers pseudo_header split begin_with trim trim_front front_width
    starts_with filter_map regular_headers value_of find to_lower
sent_lem = refl

sent-length : length (encode_headers sent) < 2 ^ 24
unfolding encode_headers encode_field encode_string encode_integer encode_rest encode_huffman
    add_symbols add_symbol huffman whole_octets padded_octet static_index_exact static_index_name
    static_table position_of next_place
sent-length = ltb→lt _ _ refl

sent-AreTexts : AreTexts sent
unfolding all from_utf8 is_utf8_from lead
sent-AreTexts = (
  (text (codes ":method") refl refl refl, text (codes "GET") refl refl refl),
  (
    (text (codes ":path") refl refl refl, text (codes "/") refl refl refl),
    ((text (codes "accept") refl refl refl, text (codes "*/*") refl refl refl), tt),
  ),
)

accept-IsRegular : IsRegular (codes "accept")
unfolding to_lower is_pseudo starts_with
accept-IsRegular = record { is_lower = refl; not_pseudo = refl; not_own = refl }

small_client-IsEmittable : IsEmittable small_client h2 (codes "a") accepts
unfolding join
small_client-IsEmittable = record {
  frames = record {
    settings = omega arith;
    window = omega arith;
    headers = subst (λ hs. length (encode_headers hs) < 2 ^ 24) (sym sent_lem) sent-length;
  };
  few = subst (λ hs. length hs ≤ 512) (sym sent_lem) (omega arith);
  texts = subst AreTexts (sym sent_lem) sent-AreTexts;
  order = method ∷ path ∷ [];
  order_stored = refl;
  regular = (accept-IsRegular, tt);
}

preamble-Reproduces_example :
    (raw : List ℕ) × (fp : H2Fingerprint) × (preamble_with_values small_client (codes "a") accepts
      ≡ ok raw)
    × (fingerprint raw ≡ ok fp)
    × Reproduces fp small_client h2
preamble-Reproduces_example =
    preamble-Reproduces small_client h2 (codes "a") accepts refl small_client-IsEmittable

names_for-first_example :
    names_for small_client false
    ≡ names_or_first false (0x1301 ∷ 0xc02b ∷ []) (unknown_ciphers (0x1301 ∷ 0xc02b ∷ []))
names_for-first_example = names_for-first small_client false

-- A BoringSSL that refuses no call.
abbrev willing : Boring
willing = record { no_builder = none; no_configuration = none; refusal = λ calls c. none }

small_client-known : unknown_ciphers small_client.tls.ciphers ≡ []
unfolding unknown_ciphers keep cipher_name cipher_names find
small_client-known = refl

small_client-short : (p : List ℕ) → small_client.tls.alpn ≡ some p → length p ≤ 255
small_client-short p h = subst (λ q. length q ≤ 255) (some_injective h) (omega arith)

configure-build_example :
    (tls12 : List ℕ) × (names_or_first false small_client.tls.ciphers [] ≡ ok tls12)
    × (build willing small_client ≡ ok (told (connector_calls small_client tls12)))
    × (configure willing small_client (told (connector_calls small_client tls12))
        ≡ ok (told (connector_calls small_client tls12) ++ told (connection_calls small_client)))
configure-build_example =
    configure-build willing (λ calls c. refl) small_client refl refl small_client-known
      small_client-short

-- The calls for the small client, on its connector and on a connection.
small_client-told :
    (told (connector_calls small_client (codes "ECDHE-ECDSA-AES128-GCM-SHA256"))
      ++ told (connection_calls small_client))
    ≡ set_verify_none
      ∷ set_min_tls12
      ∷ set_max_tls13
      ∷ set_cipher_list (codes "ECDHE-ECDSA-AES128-GCM-SHA256")
      ∷ set_grease_enabled false
      ∷ set_permute_extensions true
      ∷ set_alpn_protos (2 ∷ (codes "h2" ++ (8 ∷ codes "http/1.1")))
      ∷ set_use_server_name_indication true
      ∷ []
unfolding told connector_calls connection_calls has_grease shuffles alpn_bytes lists any
small_client-told = refl
