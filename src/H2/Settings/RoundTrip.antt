-- ===== src/H2/Settings/RoundTrip.antt =====
-- The payloads of SETTINGS, WINDOW_UPDATE and PRIORITY frames read back.
use flux_parsing_daemon.Base.{
  ℕ, ◌*◌, ◌/◌, ◌%◌, ◌≡◌, refl, arith, true, List, [], ◌∷◌, ◌++◌, length, keep, ◌==◌,
}
use flux_parsing_daemon.Base.Bytes.{be32, to_be16, to_be32, be16_div_mod}
use flux_parsing_daemon.H2.Frame.{Frame, frame_settings}
use flux_parsing_daemon.H2.Settings.{setting_chunks, payload_pairs, settings_pairs}

-- A SETTINGS payload.
unfoldable pub wire_settings : List (ℕ × ℕ) → List ℕ
wire_settings [] = []
wire_settings ((id, value) ∷ pairs) = to_be16 id ++ (to_be32 value ++ wire_settings pairs)

pub be32_wire : (v : ℕ) → be32 (v / 16777216) (v / 65536 % 256) (v / 256 % 256) (v % 256) ≡ v
be32_wire v = omega arith

setting_chunks-wire_settings : (pairs : List (ℕ × ℕ)) → setting_chunks (wire_settings pairs) ≡ pairs
unfolding setting_chunks wire_settings
setting_chunks-wire_settings [] = refl
setting_chunks-wire_settings ((id, value) ∷ pairs) =
    cc (be16_div_mod id, be32_wire value, setting_chunks-wire_settings pairs)

pub length-wire_settings : (pairs : List (ℕ × ℕ)) → length (wire_settings pairs) ≡ 6 * length pairs
unfolding wire_settings
length-wire_settings [] = omega arith
length-wire_settings ((id, value) ∷ pairs) = omega (arith, length-wire_settings pairs)

-- A SETTINGS frame, with a list of pairs as its payload, and a frame of another kind.
abbrev pub settings_frame : List (ℕ × ℕ) → Frame
settings_frame pairs = record {
  kind = frame_settings;
  flags = 0;
  stream_id = 0;
  payload = wire_settings pairs;
}

-- The pairs of a SETTINGS frame come first, in wire order, before those of the frames behind it.
pub settings_pairs-settings_frame :
    (pairs : List (ℕ × ℕ)) (frames : List Frame)
    → settings_pairs (settings_frame pairs ∷ frames) ≡ pairs ++ settings_pairs frames
unfolding settings_pairs payload_pairs keep
settings_pairs-settings_frame pairs frames =
    rw (whole_chunks, setting_chunks-wire_settings pairs) refl
  where
    whole_chunks : (length (wire_settings pairs) % 6 == 0) ≡ true
    whole_chunks = ground (arith, length-wire_settings pairs)
