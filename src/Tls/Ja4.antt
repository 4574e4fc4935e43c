-- ===== src/Tls/Ja4.antt =====
-- crates/fingerprint-core/src/ja4.rs: JA4 and the whole TLS fingerprint. A `String` is the list of
-- its bytes.
pub mod Laws
pub mod Stability
use flux_parsing_daemon.Base.{
  ℕ, ◌/◌, ◌^◌, min, bit_and, Bool, not, ◌&&◌, ◌||◌, List, [], ◌∷◌, ◌++◌, map, Option, none, some,
  Result, ok, ◌>>=◌, length, get_elem?, get_range, is_empty, keep, all, ◌==◌, if◌then◌else◌,
}
use flux_parsing_daemon.Base.Bytes.{codes}
use flux_parsing_daemon.Base.Options.{unwrap_or}
use flux_parsing_daemon.Base.Sort.{sort}
use flux_parsing_daemon.Base.Text.{hex4, hex_digit, two_digits, join, is_digit, is_upper, is_lower}
use flux_parsing_daemon.Tls.Reader.{ParseError}
use flux_parsing_daemon.Tls.Grease.{strip, positions}
use flux_parsing_daemon.Tls.Hello.{Span, RawExt, RawHello, parse_hello}
use flux_parsing_daemon.Tls.Ext.{
  ext_server_name, ext_alpn, has_sni, first_alpn, sig_algs, supported_groups, ec_point_formats,
  negotiated_version,
}
use flux_parsing_daemon.Tls.Ja3.{ja3_string}

-- The crates `sha2` and `md-5`, with the digest printed in lower-case hexadecimal.
pub record Digests : Type 0 where
  pub sha256_hex : List ℕ → List ℕ
  pub md5_hex : List ℕ → List ℕ

abbrev pub empty_hash : List ℕ
empty_hash = codes "000000000000"

pub record Provenance : Type 0 where
  pub ciphers : Span
  pub extensions : Span
  pub per_extension : List (ℕ × Span)

pub record TlsFingerprint : Type 0 where
  pub ja3 : List ℕ
  pub ja3_string : List ℕ
  pub ja4 : List ℕ
  pub ja4_r : List ℕ
  pub ciphers : List ℕ
  pub extensions : List ℕ
  pub grease_cipher_positions : List ℕ
  pub grease_ext_positions : List ℕ
  pub alpn : Option (List ℕ)
  pub has_sni : Bool
  pub provenance : Provenance

-- Two-digit decimal, capped at 99.
unfoldable pub count2 : ℕ → List ℕ
count2 n = two_digits (min n 99)

unfoldable pub version_str : ℕ → List ℕ
version_str v =
    if v == 0x0304
    then codes "13"
    else if v == 0x0303
    then codes "12"
    else if v == 0x0302
    then codes "11"
    else if v == 0x0301
    then codes "10"
    else if v == 0x0300
    then codes "s3"
    else if v == 0x0002
    then codes "s2"
    else if v == 0xfeff
    then codes "d1"
    else if v == 0xfefd
    then codes "d2"
    else if v == 0xfefc
    then codes "d3"
    else codes "00"

unfoldable pub is_alnum : ℕ → Bool
is_alnum b = is_digit b || is_upper b || is_lower b

last? : List ℕ → Option ℕ
last? [] = none
last? (b ∷ []) = some b
last? (b ∷ c ∷ bs) = last? (c ∷ bs)

-- `{:x}` of a number below 16 is one digit.
first_and_last : Option ℕ → Option ℕ → List ℕ
first_and_last (some first) (some last) =
    if is_alnum first && is_alnum last
    then first ∷ last ∷ []
    else hex_digit (first / 2 ^ 4) ∷ hex_digit (bit_and last 0x0f) ∷ []
first_and_last _ _ = codes "00"

-- First and last characters of the first ALPN value; `00` when it is absent or empty.
unfoldable pub alpn_chars : Option (List ℕ) → List ℕ
unfolding last? first_and_last
alpn_chars none = codes "00"
alpn_chars (some s) = if is_empty s then codes "00" else first_and_last (get_elem? s 0) (last? s)

unfoldable pub hex_list : List ℕ → List ℕ
hex_list values = join (codes ",") (map hex4 values)

unfoldable pub ja4_b_string : List ℕ → List ℕ
ja4_b_string ciphers = hex_list (sort (strip ciphers))

-- `get(..12).unwrap_or(EMPTY_HASH)`
unfoldable pub truncated_hash : Digests → List ℕ → List ℕ
truncated_hash d s = unwrap_or (get_range (d.sha256_hex s) 0 12) empty_hash

unfoldable pub ja4_b : Digests → List ℕ → List ℕ
ja4_b d ciphers =
    let s = ja4_b_string ciphers in if is_empty s then empty_hash else truncated_hash d s

unfoldable pub in_segment_a : ℕ → Bool
in_segment_a id = id == ext_server_name || id == ext_alpn

unfoldable pub ja4_c_string : List ℕ → List ℕ → List ℕ
ja4_c_string extensions sig_algs =
    hex_list (sort (keep (λ id. not (in_segment_a id)) (strip extensions)))
    ++ (codes "_" ++ hex_list sig_algs)

unfoldable pub ja4_c : Digests → List ℕ → List ℕ → List ℕ
ja4_c d extensions sig_algs =
    if all in_segment_a (strip extensions) && is_empty sig_algs
    then empty_hash
    else truncated_hash d (ja4_c_string extensions sig_algs)

abbrev pub ext_ids : RawHello → List ℕ
ext_ids h = map (λ e. e.id) h.extensions

unfoldable pub ja4_a : RawHello → List ℕ
ja4_a h =
    codes "t"
    ++ (version_str (negotiated_version h.extensions h.legacy_version)
        ++ ((if has_sni h.extensions then codes "d" else codes "i")
            ++ (count2 (length (strip h.ciphers))
                ++ (count2 (length (strip (ext_ids h))) ++ alpn_chars (first_alpn h.extensions)))))

unfoldable pub ja4_from_hello : Digests → RawHello → List ℕ
ja4_from_hello d h =
    ja4_a h
    ++ (codes "_"
        ++ (ja4_b d h.ciphers ++ (codes "_" ++ ja4_c d (ext_ids h) (sig_algs h.extensions))))

ja4_r_of : RawHello → List ℕ
ja4_r_of h =
    ja4_a h
    ++ (codes "_"
        ++ (ja4_b_string h.ciphers
            ++ (codes "_" ++ ja4_c_string (ext_ids h) (sig_algs h.extensions))))

-- The part of `fingerprint` behind the parser.
unfoldable pub fingerprint_of : Digests → RawHello → TlsFingerprint
unfolding ja4_r_of
fingerprint_of d h =
    let ids = ext_ids h in
    let s =
      ja3_string h.legacy_version h.ciphers ids (supported_groups h.extensions)
        (ec_point_formats h.extensions) in
    record {
      ja3 = d.md5_hex s;
      ja3_string = s;
      ja4 = ja4_from_hello d h;
      ja4_r = ja4_r_of h;
      ciphers = h.ciphers;
      extensions = ids;
      grease_cipher_positions = positions h.ciphers;
      grease_ext_positions = positions ids;
      alpn = first_alpn h.extensions;
      has_sni = has_sni h.extensions;
      provenance = record {
        ciphers = h.cipher_span;
        extensions = h.extensions_span;
        per_extension = map (λ (e : RawExt). (e.id, e.span)) h.extensions;
      };
    }

unfoldable pub fingerprint : Digests → List ℕ → Result ParseError TlsFingerprint
unfolding fingerprint_of
fingerprint d raw = do h ← parse_hello raw; ok (fingerprint_of d h)
