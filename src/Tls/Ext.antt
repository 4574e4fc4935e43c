-- ===== src/Tls/Ext.antt =====
-- crates/fingerprint-core/src/ext.rs: what individual extensions mean.
pub mod Laws
use flux_parsing_daemon.Base.{
  ℕ, Bool, not, List, [], ◌∷◌, Option, none, some, to_option, find, any, keep, ◌==◌,
}
use flux_parsing_daemon.Base.Options.{◌>>=◌, unwrap_or, map_option, maximum}
use flux_parsing_daemon.Base.Utf8.{from_utf8}
use flux_parsing_daemon.Tls.Reader.{new, take, u8, u16}
use flux_parsing_daemon.Tls.Grease.{is_grease}
use flux_parsing_daemon.Tls.Hello.{RawExt, u16_chunks}

abbrev pub ext_server_name : ℕ
ext_server_name = 0x0000

abbrev pub ext_supported_groups : ℕ
ext_supported_groups = 0x000a

abbrev pub ext_ec_point_formats : ℕ
ext_ec_point_formats = 0x000b

abbrev pub ext_sig_algs : ℕ
ext_sig_algs = 0x000d

abbrev pub ext_alpn : ℕ
ext_alpn = 0x0010

abbrev pub ext_supported_versions : ℕ
ext_supported_versions = 0x002b

unfoldable pub body_of : List RawExt → ℕ → Option (List ℕ)
body_of exts id = map_option (λ e. e.body) (find (λ (e : RawExt). e.id == id) exts)

unfoldable pub has_sni : List RawExt → Bool
has_sni exts = any (λ (e : RawExt). e.id == ext_server_name) exts

-- The first protocol of the ALPN list, if it is UTF-8. `ok()?` is `to_option` and a bind.
unfoldable pub alpn_of : Option (List ℕ) → Option (List ℕ)
alpn_of found = do
  body ← found
  (list_len, r) ← to_option (u16 (new body))
  (items, r') ← to_option (take list_len r)
  (n, list) ← to_option (u8 (new items))
  (bytes, list') ← to_option (take n list)
  from_utf8 bytes

unfoldable pub first_alpn : List RawExt → Option (List ℕ)
unfolding alpn_of
first_alpn exts = alpn_of (body_of exts ext_alpn)

-- The numbers of a list behind a length of two bytes.
unfoldable pub prefixed_u16s : Option (List ℕ) → Option (List ℕ)
prefixed_u16s found = do
  body ← found
  (len, r) ← to_option (u16 (new body))
  (items, r') ← to_option (take len r)
  some (u16_chunks items)

-- A malformed list is read as an empty one.
unfoldable pub u16_list : Option (List ℕ) → List ℕ
unfolding prefixed_u16s
u16_list found = unwrap_or (prefixed_u16s found) []

unfoldable pub sig_algs : List RawExt → List ℕ
unfolding u16_list
sig_algs exts = u16_list (body_of exts ext_sig_algs)

unfoldable pub supported_groups : List RawExt → List ℕ
unfolding u16_list
supported_groups exts = u16_list (body_of exts ext_supported_groups)

-- The bytes behind a length of one byte.
prefixed_bytes : Option (List ℕ) → Option (List ℕ)
prefixed_bytes found = do
  body ← found
  (len, r) ← to_option (u8 (new body))
  (items, r') ← to_option (take len r)
  some items

unfoldable pub ec_point_formats : List RawExt → List ℕ
unfolding prefixed_bytes
ec_point_formats exts = unwrap_or (prefixed_bytes (body_of exts ext_ec_point_formats)) []

-- The highest value of a `supported_versions` body that is not GREASE.
unfoldable pub highest_version : Option (List ℕ) → Option ℕ
unfolding prefixed_bytes
highest_version found = do
  items ← prefixed_bytes found
  maximum (keep (λ v. not (is_grease v)) (u16_chunks items))

unfoldable pub negotiated_version : List RawExt → ℕ → ℕ
unfolding highest_version
negotiated_version exts legacy =
    unwrap_or (highest_version (body_of exts ext_supported_versions)) legacy
