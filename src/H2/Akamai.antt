-- ===== src/H2/Akamai.antt =====
-- crates/fingerprint-h2/src/akamai.rs: the Akamai fingerprint and the whole view of a connection's preamble.
pub mod Laws
use flux_parsing_daemon.Base.{
  ℕ, Bool, true, false, List, [], ◌∷◌, ◌++◌, map, Option, none, some, Result, ok, ◌>>=◌, find,
  is_empty, ◌==◌, if◌then◌else◌,
}
use flux_parsing_daemon.Base.Bytes.{codes}
use flux_parsing_daemon.Base.Options.{map_option, unwrap_or}
use flux_parsing_daemon.Base.Text.{decimal, join}
use flux_parsing_daemon.H2.Frame.{Frame, H2Error, frame_headers, parse_preamble}
use flux_parsing_daemon.H2.Settings.{Priority, priorities, settings_pairs, window_update}
use flux_parsing_daemon.H2.Headers.{decode_headers, pseudo_header_order}
use flux_parsing_daemon.H2.Hpack.StaticTable.{Header}
use flux_parsing_daemon.H2.Http.{HttpProfile, from_headers}

pub record H2Fingerprint : Type 0 where
  pub settings : List (ℕ × ℕ)
  pub window_update : Option ℕ
  pub priorities : List Priority
  pub pseudo_order : List ℕ
  pub headers : List Header
  pub akamai : List ℕ
  pub http : HttpProfile

unfoldable pub render_settings : List (ℕ × ℕ) → List ℕ
render_settings pairs =
    join (codes ";") (map (λ (p : ℕ × ℕ). decimal p.0 ++ (codes ":" ++ decimal p.1)) pairs)

-- `u8::from`
abbrev pub flag : Bool → ℕ
flag true = 1
flag false = 0

unfoldable pub render_priorities : List Priority → List ℕ
render_priorities p =
    if is_empty p
    then codes "0"
    else join (codes ",") (
        map
          (λ (x : Priority). join (codes ":") (
            decimal x.stream_id
            ∷ decimal (flag x.exclusive)
            ∷ decimal x.depends_on
            ∷ decimal x.weight
            ∷ []))
          p)

-- The part of `fingerprint` behind `parse_preamble`.
unfoldable pub fingerprint_of : List Frame → H2Fingerprint
fingerprint_of frames =
    let headers =
      unwrap_or (map_option decode_headers (find (λ (f : Frame). f.kind == frame_headers) frames))
        [] in
    let settings = settings_pairs frames in
    let wu = window_update frames in
    let prio = priorities frames in
    let pseudo_order = pseudo_header_order headers in
    record {
      settings = settings;
      window_update = wu;
      priorities = prio;
      pseudo_order = pseudo_order;
      headers = headers;
      akamai =
          render_settings settings
          ++ (codes "|"
              ++ (decimal (unwrap_or wu 0)
                  ++ (codes "|" ++ (render_priorities prio ++ (codes "|" ++ pseudo_order)))));
      http = from_headers headers;
    }

unfoldable pub fingerprint : List ℕ → Result H2Error H2Fingerprint
fingerprint raw = do frames ← parse_preamble raw; ok (fingerprint_of frames)
