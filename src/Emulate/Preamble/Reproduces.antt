-- ===== src/Emulate/Preamble/Reproduces.antt =====
-- An emitted preamble under the fingerprinting of crates/fingerprint-h2.
use flux_parsing_daemon.Base.{
  ℕ, ◌≤◌, ◌≡◌, refl, sym, ap, ap₂, ◌∙◌, take, take-all, le→leb, arith, List, [], ◌∷◌, ◌++◌,
  append-nil, All, Option, none, some, ok, ◌>>=◌, length, find, keep, filter_map, ◌==◌,
}
use flux_parsing_daemon.Base.Bytes.{codes}
use flux_parsing_daemon.Base.Options.{map_option, unwrap_or}
use flux_parsing_daemon.H2.Frame.{Frame, frame_headers}
use flux_parsing_daemon.H2.Frame.RoundTrip.{stream_id_wire}
use flux_parsing_daemon.H2.Settings.{settings_pairs, payload_pairs, window_update, priorities}
use flux_parsing_daemon.H2.Settings.RoundTrip.{settings_frame, settings_pairs-settings_frame}
use flux_parsing_daemon.H2.Headers.{
  header_block_fragment, pseudo_header_order, decode_headers, decode_fragment, fragment_of,
  after_pad_length, after_priority, without_padding, without_padding_of, or_empty,
}
use flux_parsing_daemon.H2.Akamai.{H2Fingerprint, fingerprint, fingerprint_of}
use flux_parsing_daemon.H2.Hpack.Decoder.{max_headers}
use flux_parsing_daemon.H2.Hpack.Encode.{encode_headers}
use flux_parsing_daemon.H2.Hpack.RoundTrip.{AreTexts, decode-encode_headers}
use flux_parsing_daemon.H2.Hpack.StaticTable.{Header}
use flux_parsing_daemon.H2.Http.{from_headers}
use flux_parsing_daemon.Probe.Profile.{Profile, H2Profile, HttpProfileStored}
use flux_parsing_daemon.Emulate.Preamble.{
  pseudo_headers, regular_headers, request_headers, preamble_of, preamble_of_h2,
  preamble_with_values,
}
use flux_parsing_daemon.Emulate.Preamble.Order
use flux_parsing_daemon.Emulate.Preamble.Wire

-- No flag but END_STREAM and END_HEADERS: the payload is the fragment.
whole_fragment : (block : List ℕ) → header_block_fragment (Wire.headers_frame block) ≡ block
unfolding header_block_fragment fragment_of after_pad_length after_priority without_padding
    without_padding_of
whole_fragment block =
    rw (le→leb 0 (length block) (omega arith))
      (ap (λ n. take n block) (omega arith) ∙ take-all block)

headers_of_frame :
    (hs : List Header)
    → length hs ≤ max_headers
    → AreTexts hs
    → decode_headers (Wire.headers_frame (encode_headers hs)) ≡ hs
unfolding decode_headers decode_fragment or_empty
headers_of_frame hs few texts =
    ap decode_fragment (whole_fragment (encode_headers hs))
    ∙ ap or_empty (decode-encode_headers hs few texts)

no_settings :
    (w : Option ℕ) (block : List ℕ)
    → settings_pairs (Wire.window_frames w ++ (Wire.headers_frame block ∷ [])) ≡ []
unfolding settings_pairs payload_pairs keep
no_settings none block = refl
no_settings (some increment) block = refl

settings_of_frames :
    (settings : List (ℕ × ℕ)) (w : Option ℕ) (block : List ℕ)
    → settings_pairs
        (settings_frame settings ∷ (Wire.window_frames w ++ (Wire.headers_frame block ∷ [])))
      ≡ settings
settings_of_frames settings w block =
    settings_pairs-settings_frame settings _
    ∙ ap (◌++◌ settings) (no_settings w block)
    ∙ append-nil settings

window_of_frames :
    (settings : List (ℕ × ℕ)) (w : Option ℕ) (block : List ℕ)
    → Wire.FitsWindow w
    → window_update
        (settings_frame settings ∷ (Wire.window_frames w ++ (Wire.headers_frame block ∷ [])))
      ≡ w
unfolding window_update find
window_of_frames settings none block fits = refl
window_of_frames settings (some increment) block fits = ap some (stream_id_wire increment fits)

priorities_of_frames :
    (settings : List (ℕ × ℕ)) (w : Option ℕ) (block : List ℕ)
    → priorities
        (settings_frame settings ∷ (Wire.window_frames w ++ (Wire.headers_frame block ∷ [])))
      ≡ []
unfolding priorities filter_map keep
priorities_of_frames settings none block = refl
priorities_of_frames settings (some increment) block = refl

headers_found :
    (settings : List (ℕ × ℕ)) (w : Option ℕ) (block : List ℕ)
    → find
        (λ (f : Frame). f.kind == frame_headers)
        (settings_frame settings ∷ (Wire.window_frames w ++ (Wire.headers_frame block ∷ [])))
      ≡ some (Wire.headers_frame block)
unfolding find
headers_found settings none block = refl
headers_found settings (some increment) block = refl

abbrev pub stored_names : Option HttpProfileStored → List (List ℕ)
stored_names none = []
stored_names (some http) = http.header_names

-- What an emission needs: parts that fit the frames, headers that fit a block and are text, an order of
-- pseudo-headers as profiles store it, and regular names.
pub record IsEmittable (profile : Profile) (h2 : H2Profile) (authority : List ℕ)
    (values : List Header) : Type 0 where
  pub frames : Wire.FitsFrames profile h2 authority values
  pub few : length (request_headers profile h2 authority values) ≤ max_headers
  pub texts : AreTexts (request_headers profile h2 authority values)
  pub order : List Order.Pseudo
  pub order_stored : h2.pseudo_order ≡ Order.order_text order
  pub regular : All Order.IsRegular (stored_names profile.http)

-- What the fingerprint says of the profile.
pub record Reproduces (fp : H2Fingerprint) (profile : Profile) (h2 : H2Profile) : Type 0 where
  pub settings : fp.settings ≡ h2.settings
  pub window_update : fp.window_update ≡ h2.window_update
  pub priorities : fp.priorities ≡ []
  pub pseudo_order : fp.pseudo_order ≡ h2.pseudo_order
  pub header_names : fp.http.header_names ≡ stored_names profile.http

regular_headers_lem :
    (http : Option HttpProfileStored) (values : List Header)
    → regular_headers http values ≡ Order.with_values values (stored_names http)
unfolding regular_headers
regular_headers_lem none values = refl
regular_headers_lem (some http) values = refl

request_headers_lem :
    (profile : Profile) (h2 : H2Profile) (host : List ℕ) (values : List Header)
    (order : List Order.Pseudo)
    → h2.pseudo_order ≡ Order.order_text order
    → request_headers profile h2 host values
      ≡ pseudo_headers (Order.order_text order) host (codes "https") (codes "/")
        ++ Order.with_values values (stored_names profile.http)
unfolding request_headers
request_headers_lem profile h2 host values order stored =
    ap₂ (λ o hs. pseudo_headers o host (codes "https") (codes "/") ++ hs) stored
      (regular_headers_lem profile.http values)

fingerprint_of_frames :
    (profile : Profile) (h2 : H2Profile) (host : List ℕ) (values : List Header)
    → IsEmittable profile h2 host values
    → Reproduces
        (fingerprint_of (
          Wire.before_headers profile h2 host values
          ++ (Wire.headers_frame (Wire.block profile h2 host values) ∷ [])))
        profile
        h2
unfolding fingerprint_of
fingerprint_of_frames profile h2 host values e = record {
  settings = settings_of_frames h2.settings h2.window_update (encode_headers hs);
  window_update = window_of_frames h2.settings h2.window_update (encode_headers hs) e.frames.window;
  priorities = priorities_of_frames h2.settings h2.window_update (encode_headers hs);
  pseudo_order =
      ap pseudo_header_order headers
      ∙ Order.pseudo_header_order-order_text e.order host (codes "https") (codes "/") values
          (stored_names profile.http) e.regular
      ∙ sym e.order_stored;
  header_names =
      ap (λ seen. (from_headers seen).header_names) headers
      ∙ Order.header_names-order_text e.order host (codes "https") (codes "/") values
          (stored_names profile.http) e.regular;
}
  where
    hs : List Header
    hs = request_headers profile h2 host values

    headers :
        unwrap_or
          (map_option decode_headers (
            find
              (λ (f : Frame). f.kind == frame_headers)
              (Wire.before_headers profile h2 host values
                ++ (Wire.headers_frame (encode_headers hs) ∷ []))))
          []
        ≡ pseudo_headers (Order.order_text e.order) host (codes "https") (codes "/")
          ++ Order.with_values values (stored_names profile.http)
    headers =
        ap (λ found. unwrap_or (map_option decode_headers found) [])
          (headers_found h2.settings h2.window_update (encode_headers hs))
        ∙ headers_of_frame hs e.few e.texts
        ∙ request_headers_lem profile h2 host values e.order e.order_stored

-- The preamble emitted for an emittable profile parses, and its fingerprint has the settings, the window
-- update, the order of the pseudo-headers and the header names of the profile, and no priorities.
pub preamble-Reproduces :
    (profile : Profile) (h2 : H2Profile) (host : List ℕ) (values : List Header)
    → profile.h2 ≡ some h2
    → IsEmittable profile h2 host values
    → (raw : List ℕ) × (fp : H2Fingerprint) × (preamble_with_values profile host values ≡ ok raw)
      × (fingerprint raw ≡ ok fp)
      × Reproduces fp profile h2
unfolding preamble_with_values preamble_of_h2 fingerprint ◌>>=◌
preamble-Reproduces profile h2 host values has_h2 e = (
  preamble_of profile h2 host values,
  _,
  ap (λ o. preamble_of_h2 o profile host values) has_h2,
  ap (λ frames. frames >>= (λ fs. ok (fingerprint_of fs)))
      (Wire.parse_preamble-preamble_of profile h2 host values e.frames),
  fingerprint_of_frames profile h2 host values e,
)
