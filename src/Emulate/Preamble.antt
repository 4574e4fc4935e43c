-- ===== src/Emulate/Preamble.antt =====
-- crates/fingerprint-emulate/src/h2.rs: the preamble that reproduces a profile.
pub mod Order
pub mod Wire
pub mod Reproduces
use flux_parsing_daemon.Base.{
  ℕ, ◌/◌, ◌^◌, bit_and, bit_or, Bool, List, [], ◌∷◌, ◌++◌, Option, none, some, Result, ok, err,
  length, filter_map, find, map, list_eq, if◌then◌else◌,
}
use flux_parsing_daemon.Base.Bytes.{codes, to_be16, to_be32}
use flux_parsing_daemon.Base.Options.{map_option, unwrap_or}
use flux_parsing_daemon.Base.Text.{eq_ignore_ascii_case, split, trim}
use flux_parsing_daemon.H2.Hpack.StaticTable.{Header}
use flux_parsing_daemon.H2.Hpack.Encode.{encode_headers}
use flux_parsing_daemon.Probe.Profile.{Profile, H2Profile, HttpProfileStored}
use flux_parsing_daemon.Emulate.{EmulateError, tls}

abbrev pub client_preface : List ℕ
client_preface =
    codes "PRI * HTTP/2.0" ++ (13 ∷ 10 ∷ 13 ∷ 10 ∷ (codes "SM" ++ (13 ∷ 10 ∷ 13 ∷ 10 ∷ [])))

abbrev pub kind_headers : ℕ
kind_headers = 1

abbrev pub kind_settings : ℕ
kind_settings = 4

abbrev pub kind_window_update : ℕ
kind_window_update = 8

abbrev pub end_stream : ℕ
end_stream = 1

abbrev pub end_headers : ℕ
end_headers = 4

unfoldable pub frame : ℕ → ℕ → ℕ → List ℕ → List ℕ
frame kind flags stream_id payload =
    let len = length payload in
    bit_and (len / 2 ^ 16) 0xff
    ∷ bit_and (len / 2 ^ 8) 0xff
    ∷ bit_and len 0xff
    ∷ kind
    ∷ flags
    ∷ (to_be32 (bit_and stream_id 0x7fffffff) ++ payload)

-- The `match` on a trimmed letter.
unfoldable pub pseudo_header : List ℕ → List ℕ → List ℕ → List ℕ → Option Header
pseudo_header authority scheme path letter =
    if list_eq letter (codes "m")
    then some (codes ":method", codes "GET")
    else if list_eq letter (codes "a")
    then some (codes ":authority", authority)
    else if list_eq letter (codes "s")
    then some (codes ":scheme", scheme)
    else if list_eq letter (codes "p")
    then some (codes ":path", path)
    else none

unfoldable pub pseudo_headers : List ℕ → List ℕ → List ℕ → List ℕ → List Header
pseudo_headers order authority scheme path =
    filter_map (λ letter. pseudo_header authority scheme path (trim letter)) (split b',' order)

-- The loop over the settings.
unfoldable pub settings_payload : List (ℕ × ℕ) → List ℕ
settings_payload [] = []
settings_payload ((id, value) ∷ settings) =
    to_be16 id ++ (to_be32 value ++ settings_payload settings)

unfoldable pub window_frame : Option ℕ → List ℕ
window_frame none = []
window_frame (some increment) =
    frame kind_window_update 0 0 (to_be32 (bit_and increment 0x7fffffff))

unfoldable pub value_of : List Header → List ℕ → List ℕ
value_of values name =
    unwrap_or
      (map_option (λ (v : Header). v.1)
        (find (λ (v : Header). eq_ignore_ascii_case v.0 name) values))
      []

-- The regular headers, in the profile's order.
unfoldable pub regular_headers : Option HttpProfileStored → List Header → List Header
regular_headers none values = []
regular_headers (some http) values = map (λ name. (name, value_of values name)) http.header_names

unfoldable pub request_headers : Profile → H2Profile → List ℕ → List Header → List Header
request_headers profile h2 authority values =
    pseudo_headers h2.pseudo_order authority (codes "https") (codes "/")
    ++ regular_headers profile.http values

-- The lines behind the test of `profile.h2`.
unfoldable pub preamble_of : Profile → H2Profile → List ℕ → List Header → List ℕ
preamble_of profile h2 authority values =
    client_preface
    ++ (frame kind_settings 0 0 (settings_payload h2.settings)
        ++ (window_frame h2.window_update
            ++ frame kind_headers (bit_or end_stream end_headers) 1
                (encode_headers (request_headers profile h2 authority values))))

unfoldable pub preamble_of_h2 :
    Option H2Profile → Profile → List ℕ → List Header → Result EmulateError (List ℕ)
preamble_of_h2 none profile authority values = err (tls (codes "profile has no HTTP/2 section"))
preamble_of_h2 (some h2) profile authority values = ok (preamble_of profile h2 authority values)

unfoldable pub preamble_with_values : Profile → List ℕ → List Header → Result EmulateError (List ℕ)
preamble_with_values profile authority values = preamble_of_h2 profile.h2 profile authority values

unfoldable pub preamble_for : Profile → List ℕ → Result EmulateError (List ℕ)
preamble_for profile authority = preamble_with_values profile authority []
