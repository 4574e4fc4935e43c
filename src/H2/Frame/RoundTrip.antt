-- ===== src/H2/Frame/RoundTrip.antt =====
-- The preamble of a connection reads back as the frames that it was written from.
use flux_parsing_daemon.Base.{
  ℕ, zero, suc, ◌+◌, ◌/◌, ◌%◌, ◌^◌, ◌≤◌, ◌<◌, ◌≡◌, ◌≢◌, refl, ap, ◌∙◌, arith, true, bit_and, List,
  [], ◌∷◌, ◌++◌, ok, ok_or, ◌>>=◌, length, length-append, leb, le→leb, ◌==◌, ne→==, if◌then◌else◌,
  append_assoc, All,
}
use flux_parsing_daemon.Base.Bits.{and_0x7f}
use flux_parsing_daemon.Base.Bytes.{be32, to_be24, to_be32, be32_div_mod, usize_mod}
use flux_parsing_daemon.Tls.Reader.{remaining}
use flux_parsing_daemon.Tls.Reader.Laws.{reader_at, take_lem, u8_lem, u24_lem, remaining-reader_at}
use flux_parsing_daemon.H2.Frame.{
  Frame, preface, frame_headers, read, octet_at, frame_at, frames_from, parse_preamble,
}

unfoldable pub wire_frame : Frame → List ℕ
wire_frame f = to_be24 (length f.payload) ++ (f.kind ∷ f.flags ∷ (to_be32 f.stream_id ++ f.payload))

unfoldable pub wire_frames : List Frame → List ℕ
wire_frames [] = []
wire_frames (f ∷ frames) = wire_frame f ++ wire_frames frames

-- A frame whose parts fit their fields.
pub record IsFrame (f : Frame) : Type 0 where
  pub length_fits : length f.payload < 2 ^ 24
  pub stream_id_fits : f.stream_id < 2 ^ 31

pub length-wire_frame : (f : Frame) → length (wire_frame f) ≡ length f.payload + 9
unfolding wire_frame
length-wire_frame f = omega arith

pub stream_id_wire :
    (v : ℕ)
    → v < 2 ^ 31
    → be32 (bit_and (v / 16777216) 0x7f) (v / 65536 % 256) (v / 256 % 256) (v % 256) ≡ v
stream_id_wire v h = omega (arith, and_0x7f (v / 16777216) (omega arith))

frame_at-wire_frame :
    (front rest : List ℕ) (f : Frame)
    → IsFrame f
    → length front + length (wire_frame f) < usize_mod
    → frame_at (reader_at front (wire_frame f ++ rest))
      ≡ ok (f, reader_at (front ++ wire_frame f) rest)
unfolding frame_at wire_frame read octet_at ok_or ◌>>=◌
frame_at-wire_frame front rest f w h =
    let len : ℕ = length f.payload in
    let front₁ = front ++ to_be24 len in
    let front₂ = front₁ ++ f.kind ∷ [] in
    let front₃ = front₂ ++ f.flags ∷ [] in
    let front₄ = front₃ ++ to_be32 f.stream_id in
    let l₁ = length-append front (to_be24 len) in
    let l₂ = length-append front₁ (f.kind ∷ []) in
    let l₃ = length-append front₂ (f.flags ∷ []) in
    let l₄ = length-append front₃ (to_be32 f.stream_id) in
    rw
      (
        u24_lem front (f.kind ∷ f.flags ∷ (to_be32 f.stream_id ++ (f.payload ++ rest)))
            (len / 65536) (len / 256 % 256) (len % 256) (omega arith),
        be32_div_mod len,
        u8_lem front₁ (f.flags ∷ (to_be32 f.stream_id ++ (f.payload ++ rest))) f.kind (omega arith),
        u8_lem front₂ (to_be32 f.stream_id ++ (f.payload ++ rest)) f.flags (omega arith),
        take_lem front₃ (to_be32 f.stream_id) (f.payload ++ rest) 4 refl (omega arith),
        take_lem front₄ f.payload rest len refl (omega arith),
        stream_id_wire f.stream_id w.stream_id_fits,
      )
      (ap (λ fr. ok (f, reader_at fr rest))
        (append_assoc front₃ (to_be32 f.stream_id) f.payload
          ∙ (append_assoc front₂ (f.flags ∷ []) (to_be32 f.stream_id ++ f.payload)
              ∙ (append_assoc front₁ (f.kind ∷ []) (f.flags ∷ (to_be32 f.stream_id ++ f.payload))
                  ∙ append_assoc front (to_be24 len)
                      (f.kind ∷ f.flags ∷ (to_be32 f.stream_id ++ f.payload))))))

nine_left :
    (front rest : List ℕ) (f : Frame)
    → leb 9 (remaining (reader_at front (wire_frame f ++ rest))) ≡ true
nine_left front rest f = le→leb 9 _ (
    omega (
      arith,
      remaining-reader_at front (wire_frame f ++ rest),
      length-append (wire_frame f) rest,
      length-wire_frame f,
    ))

-- One round on a frame, whatever follows it.
frames_from-wire_frame :
    (fuel : ℕ) (front rest : List ℕ) (f : Frame) (out : List Frame)
    → IsFrame f
    → length front + length (wire_frame f) < usize_mod
    → frames_from (suc fuel) (reader_at front (wire_frame f ++ rest)) out ≡ (
        if f.kind == frame_headers
        then ok (out ++ (f ∷ []))
        else frames_from fuel (reader_at (front ++ wire_frame f) rest) (out ++ (f ∷ [])))
unfolding frames_from ◌>>=◌
frames_from-wire_frame fuel front rest f out w h =
    rw (nine_left front rest f, frame_at-wire_frame front rest f w h) refl

frames_from-wire_frames :
    (before : List Frame) (fuel : ℕ) (front rest : List ℕ) (h : Frame) (out : List Frame)
    → All (λ (f : Frame). IsFrame f × (f.kind ≢ frame_headers)) before
    → IsFrame h
    → h.kind ≡ frame_headers
    → length before < fuel
    → length front + length (wire_frames before ++ wire_frame h) < usize_mod
    → frames_from fuel (reader_at front (wire_frames before ++ (wire_frame h ++ rest))) out
      ≡ ok (out ++ (before ++ (h ∷ [])))
unfolding wire_frames
frames_from-wire_frames before zero front rest h out ws w k e fits = absurd (omega arith)
frames_from-wire_frames [] (suc fuel) front rest h out ws w k e fits =
    frames_from-wire_frame fuel front rest h out w fits ∙ rw k refl
frames_from-wire_frames (f ∷ before) (suc fuel) front rest h out ((wf, other), ws) w k e fits =
    let l₁ = length-append (wire_frame f) (wire_frames before) in
    let l₂ = length-append (wire_frame f ++ wire_frames before) (wire_frame h) in
    let l₃ = length-append (wire_frames before) (wire_frame h) in
    let l₄ = length-append front (wire_frame f) in
    rw (append_assoc (wire_frame f) (wire_frames before) (wire_frame h ++ rest)) (
      frames_from-wire_frame fuel front (wire_frames before ++ (wire_frame h ++ rest)) f out wf
        (omega arith)
      ∙ rw (ne→== f.kind frame_headers other) (
          frames_from-wire_frames before fuel (front ++ wire_frame f) rest h (out ++ (f ∷ [])) ws w
            k (omega arith) (omega arith)
          ∙ ap ok (append_assoc out (f ∷ []) (before ++ (h ∷ [])))))

pub length-wire_frames : (frames : List Frame) → length frames ≤ length (wire_frames frames)
unfolding wire_frames
length-wire_frames [] = omega arith
length-wire_frames (f ∷ frames) = omega (
  arith,
  length-wire_frames frames,
  length-append (wire_frame f) (wire_frames frames),
  length-wire_frame f,
)

-- The preface, then frames that fit their fields and of which only the last is a HEADERS frame, then any
-- bytes, parse to exactly those frames, where the bytes of the frames fit the address space.
pub parse_preamble-wire_frames :
    (before : List Frame) (h : Frame) (rest : List ℕ)
    → All (λ (f : Frame). IsFrame f × (f.kind ≢ frame_headers)) before
    → IsFrame h
    → h.kind ≡ frame_headers
    → length (preface ++ (wire_frames before ++ wire_frame h)) < usize_mod
    → parse_preamble (preface ++ (wire_frames before ++ (wire_frame h ++ rest)))
      ≡ ok (before ++ (h ∷ []))
unfolding parse_preamble read ◌>>=◌
parse_preamble-wire_frames before h rest ws w k fits =
    let tail : List ℕ = wire_frames before ++ (wire_frame h ++ rest) in
    rw (take_lem [] preface tail (length preface) refl (omega arith)) (
      frames_from-wire_frames before (suc (remaining (reader_at preface tail))) preface rest h [] ws
        w k
        (omega (
          arith,
          remaining-reader_at preface tail,
          length-append (wire_frames before) (wire_frame h ++ rest),
          length-wire_frames before,
        ))
        (omega (arith, length-append preface (wire_frames before ++ wire_frame h))))
