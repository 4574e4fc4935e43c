-- ===== src/Emulate/Preamble/Wire.antt =====
-- An emitted preamble as the wire form of frames.
use flux_parsing_daemon.Base.{
  ℕ, ◌*◌, ◌/◌, ◌^◌, ◌≤◌, ◌<◌, ◌≡◌, ◌≢◌, refl, sym, ap, ap₂, ◌∙◌, arith, bit_and, List, [], ◌∷◌,
  ◌++◌, append-nil, append_assoc, All, Option, none, some, ok, length, length-append,
}
use flux_parsing_daemon.Base.Bytes.{to_be16, to_be32, usize_mod}
use flux_parsing_daemon.Base.Masks.{and_ones_lem}
use flux_parsing_daemon.H2.Frame.{Frame, frame_headers, preface, parse_preamble}
use flux_parsing_daemon.H2.Frame.RoundTrip.{
  IsFrame, wire_frame, wire_frames, length-wire_frame, parse_preamble-wire_frames,
}
use flux_parsing_daemon.H2.Settings.RoundTrip.{settings_frame, wire_settings, length-wire_settings}
use flux_parsing_daemon.H2.Hpack.Encode.{encode_headers}
use flux_parsing_daemon.H2.Hpack.StaticTable.{Header}
use flux_parsing_daemon.Probe.Profile.{Profile, H2Profile}
use flux_parsing_daemon.Emulate.Preamble.{
  frame, settings_payload, window_frame, request_headers, preamble_of,
}

frame-wire_frame :
    (f : Frame) → IsFrame f → frame f.kind f.flags f.stream_id f.payload ≡ wire_frame f
unfolding frame wire_frame
frame-wire_frame f w =
    let len : ℕ = length f.payload in
    rw (high, and_ones_lem 8 (len / 2 ^ 8), and_ones_lem 8 len, same_stream) refl
  where
    high : bit_and (length f.payload / 2 ^ 16) 0xff ≡ length f.payload / 65536
    high = and_ones_lem 8 (length f.payload / 2 ^ 16) ∙ omega (arith, w.length_fits)

    same_stream : bit_and f.stream_id 0x7fffffff ≡ f.stream_id
    same_stream = and_ones_lem 31 f.stream_id ∙ omega (arith, w.stream_id_fits)

settings_payload-wire :
    (settings : List (ℕ × ℕ)) → settings_payload settings ≡ wire_settings settings
unfolding settings_payload wire_settings
settings_payload-wire [] = refl
settings_payload-wire ((id, value) ∷ settings) =
    ap (λ rest. to_be16 id ++ (to_be32 value ++ rest)) (settings_payload-wire settings)

-- The frames of a preamble before the HEADERS frame, and that frame.
abbrev pub window_frames : Option ℕ → List Frame
window_frames none = []
window_frames (some increment) =
    record { kind = 8; flags = 0; stream_id = 0; payload = to_be32 increment } ∷ []

abbrev pub headers_frame : List ℕ → Frame
headers_frame block = record { kind = 1; flags = 5; stream_id = 1; payload = block }

abbrev pub FitsWindow : Option ℕ → Type 0
FitsWindow none = Unit
FitsWindow (some increment) = increment < 2 ^ 31

window_frame-wire : (w : Option ℕ) → FitsWindow w → window_frame w ≡ wire_frames (window_frames w)
unfolding window_frame wire_frames
window_frame-wire none fits = refl
window_frame-wire (some increment) fits =
    ap (λ i. frame 8 0 0 (to_be32 i)) (and_ones_lem 31 increment ∙ omega (arith, fits))
    ∙ frame-wire_frame (record { kind = 8; flags = 0; stream_id = 0; payload = to_be32 increment })
        (record { length_fits = omega arith; stream_id_fits = omega arith })
    ∙ sym (append-nil _)

-- What holds of the frames before the HEADERS frame.
abbrev pub Precede : List Frame → Type 0
Precede frames = All (λ (f : Frame). IsFrame f × (f.kind ≢ frame_headers)) frames

window_frames-Precede : (w : Option ℕ) → FitsWindow w → Precede (window_frames w)
window_frames-Precede none fits = tt
window_frames-Precede (some increment) fits =
    ((record { length_fits = omega arith; stream_id_fits = omega arith }, (λ e. omega arith)), tt)

length-window_frames : (w : Option ℕ) → length (wire_frames (window_frames w)) ≤ 13
unfolding wire_frames wire_frame
length-window_frames none = omega arith
length-window_frames (some increment) = omega arith

settings-IsFrame :
    (settings : List (ℕ × ℕ)) → 6 * length settings < 2 ^ 24 → IsFrame (settings_frame settings)
settings-IsFrame settings h = record {
  length_fits = omega (arith, h, length-wire_settings settings);
  stream_id_fits = omega arith;
}

headers-IsFrame : (block : List ℕ) → length block < 2 ^ 24 → IsFrame (headers_frame block)
headers-IsFrame block h = record { length_fits = h; stream_id_fits = omega arith }

module _ (profile : Profile) (h2 : H2Profile) (authority : List ℕ) (values : List Header) where
  abbrev pub block : List ℕ
  block = encode_headers (request_headers profile h2 authority values)

  -- The lengths and the increment fit their fields.
  pub record FitsFrames : Type 0 where
    pub settings : 6 * length h2.settings < 2 ^ 24
    pub window : FitsWindow h2.window_update
    pub headers : length block < 2 ^ 24

  abbrev pub before_headers : List Frame
  before_headers = settings_frame h2.settings ∷ window_frames h2.window_update

  preamble_of-wire :
      FitsFrames
      → preamble_of profile h2 authority values
        ≡ preface ++ (wire_frames before_headers ++ (wire_frame (headers_frame block) ++ []))
  unfolding preamble_of wire_frames
  preamble_of-wire fits = ap (◌++◌ preface) (
      ap₂ ◌++◌
        (ap (frame 4 0 0) (settings_payload-wire h2.settings)
          ∙ frame-wire_frame (settings_frame h2.settings)
              (settings-IsFrame h2.settings fits.settings))
        (ap₂ ◌++◌ (window_frame-wire h2.window_update fits.window) (
          frame-wire_frame (headers_frame block) (headers-IsFrame block fits.headers)
          ∙ sym (append-nil _)))
      ∙ sym (append_assoc (wire_frame (settings_frame h2.settings)) _ _))

  pub parse_preamble-preamble_of :
      FitsFrames
      → parse_preamble (preamble_of profile h2 authority values)
        ≡ ok (before_headers ++ (headers_frame block ∷ []))
  unfolding wire_frames
  parse_preamble-preamble_of fits =
      ap parse_preamble (preamble_of-wire fits)
      ∙ parse_preamble-wire_frames before_headers (headers_frame block) []
          (
            (settings-IsFrame h2.settings fits.settings, (λ e. omega arith)),
            window_frames-Precede h2.window_update fits.window,
          )
          (headers-IsFrame block fits.headers) refl small
    where
      small :
          length (preface ++ (wire_frames before_headers ++ wire_frame (headers_frame block)))
          < usize_mod
      small = omega (
        arith,
        length-append
            (wire_frame (settings_frame h2.settings)
              ++ wire_frames (window_frames h2.window_update))
            (wire_frame (headers_frame block)),
        length-append (wire_frame (settings_frame h2.settings))
            (wire_frames (window_frames h2.window_update)),
        length-wire_frame (settings_frame h2.settings),
        length-wire_frame (headers_frame block),
        length-wire_settings h2.settings,
        length-window_frames h2.window_update,
        fits.settings,
        fits.headers,
      )
