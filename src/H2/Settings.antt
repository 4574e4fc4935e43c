-- ===== src/H2/Settings.antt =====
-- crates/fingerprint-h2/src/settings.rs: SETTINGS, WINDOW_UPDATE and PRIORITY payloads.
pub mod RoundTrip
use flux_parsing_daemon.Base.{
  ℕ, zero, suc, ◌+◌, ◌%◌, bit_and, Bool, not, List, [], ◌∷◌, ◌++◌, Option, none, some, length,
  get_elem?, keep, filter_map, find, ◌==◌, if◌then◌else◌,
}
use flux_parsing_daemon.Base.Options.{◌>>=◌}
use flux_parsing_daemon.Base.Bytes.{be16, be32}
use flux_parsing_daemon.H2.Frame.{Frame, frame_priority, frame_settings, frame_window_update}

pub record Priority : Type 0 where
  pub stream_id : ℕ
  pub exclusive : Bool
  pub depends_on : ℕ
  pub weight : ℕ

-- `chunks_exact(6)`, each chunk read as an id and a value
unfoldable pub setting_chunks : List ℕ → List (ℕ × ℕ)
setting_chunks (a ∷ b ∷ x ∷ y ∷ z ∷ w ∷ rest) = (be16 a b, be32 x y z w) ∷ setting_chunks rest
setting_chunks _ = []

-- The loop over the SETTINGS frames.
unfoldable pub payload_pairs : List Frame → List (ℕ × ℕ)
payload_pairs [] = []
payload_pairs (f ∷ frames) =
    if length f.payload % 6 == 0
    then setting_chunks f.payload ++ payload_pairs frames
    else payload_pairs frames

unfoldable pub settings_pairs : List Frame → List (ℕ × ℕ)
settings_pairs frames = payload_pairs (keep (λ (f : Frame). f.kind == frame_settings) frames)

unfoldable pub window_update : List Frame → Option ℕ
window_update frames = do
  f ← find (λ (f : Frame). f.kind == frame_window_update) frames
  a ← get_elem? f.payload 0
  b ← get_elem? f.payload 1
  c ← get_elem? f.payload 2
  d ← get_elem? f.payload 3
  some (be32 (bit_and a 0x7f) b c d)

-- The wire weight is zero-based.
unfoldable pub priority_of : Frame → Option Priority
priority_of f = do
  b0 ← get_elem? f.payload 0
  b ← get_elem? f.payload 1
  c ← get_elem? f.payload 2
  d ← get_elem? f.payload 3
  w ← get_elem? f.payload 4
  some record {
    stream_id = f.stream_id;
    exclusive = not (bit_and b0 0x80 == 0);
    depends_on = be32 (bit_and b0 0x7f) b c d;
    weight = w + 1;
  }

unfoldable pub priorities : List Frame → List Priority
priorities frames = filter_map priority_of (keep (λ (f : Frame). f.kind == frame_priority) frames)
