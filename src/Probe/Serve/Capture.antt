-- ===== src/Probe/Serve/Capture.antt =====
-- What the capture of a preamble takes from a connection.
use flux_parsing_daemon.Base.{
  ℕ, zero, suc, ◌≤◌, ◌<◌, ◌≡◌, ◌≢◌, refl, sym, ap, ap₂, subst, ◌∙◌, arith, inl, inr, List, [], ◌∷◌,
  ◌++◌, append-nil, append_assoc, All, Option, none, some, length, length-append, take-length,
  drop-length, take-append-drop, ltb, leb, le→leb, le→ltb, ◌==◌, ne→==, Bool-cases, if◌then◌else◌,
}
use flux_parsing_daemon.Base.Bytes.{to_be24, to_be32, be32_div_mod}
use flux_parsing_daemon.H2.Frame.{Frame, preface, frame_headers}
use flux_parsing_daemon.H2.Frame.RoundTrip.{wire_frame, wire_frames, length-wire_frames}
use flux_parsing_daemon.Probe.Serve.{
  max_frame, read_exact, Ending, complete, cut_short, frame_length, frame_kind, capture_payload,
  capture_frame, capture_frames, capture_behind_preface, capture_h2_preamble,
}

-- The captured bytes begin the stream, and what a complete capture left unread is the rest of it.
pub record Accounts (stream : List ℕ) (r : List ℕ × Ending) : Type 0 where
  pub unread : List ℕ
  pub in_order : r.0 ++ unread ≡ stream
  pub left : (rest : List ℕ) → r.1 ≡ complete rest → unread ≡ rest

Splits : List ℕ → Option (List ℕ × List ℕ) → Type 0
Splits stream none = Unit
Splits stream (some (a, b)) = a ++ b ≡ stream

read_exact-Splits : (n : ℕ) (stream : List ℕ) → Splits stream (read_exact n stream)
unfolding read_exact Splits
read_exact-Splits n stream = elim (Bool-cases (leb n (length stream))) [
  | inl e ↦ rw e (take-append-drop n stream)
  | inr e ↦ rw e tt
]

ended : (captured unread : List ℕ) → Accounts (captured ++ unread) (captured, cut_short)
ended captured unread = record { unread = unread; in_order = refl; left = λ rest e. cc e }

move : (c a b : List ℕ) {stream : List ℕ} → a ++ b ≡ stream → (c ++ a) ++ b ≡ c ++ stream
move c a b e = append_assoc c a b ∙ ap (◌++◌ c) e

abbrev Go : Type 0
Go = List ℕ → List ℕ → List ℕ × Ending

capture_payload-Accounts :
    (hdr captured stream : List ℕ) (r : Option (List ℕ × List ℕ)) (go : Go)
    → Splits stream r
    → ((c s : List ℕ) → Accounts (c ++ s) (go c s))
    → Accounts (captured ++ stream) (capture_payload hdr captured r go)
unfolding capture_payload Splits
capture_payload-Accounts hdr captured stream none go split rounds = ended captured stream
capture_payload-Accounts hdr captured stream (some (payload, rest)) go split rounds =
    elim (Bool-cases (frame_kind hdr == 1)) [
      | inl e ↦
          rw e record {
            unread = rest;
            in_order = move captured payload rest split;
            left = λ r h. cc h;
          }
      | inr e ↦ rw e (
          subst (λ w. Accounts w (go (captured ++ payload) rest)) (move captured payload rest split)
            (rounds (captured ++ payload) rest))
    ]

capture_frame-Accounts :
    (captured stream : List ℕ) (r : Option (List ℕ × List ℕ)) (go : Go)
    → Splits stream r
    → ((c s : List ℕ) → Accounts (c ++ s) (go c s))
    → Accounts (captured ++ stream) (capture_frame captured r go)
unfolding capture_frame Splits
capture_frame-Accounts captured stream none go split rounds = ended captured stream
capture_frame-Accounts captured stream (some (hdr, rest)) go split rounds =
    subst (λ w. Accounts w (capture_frame captured (some (hdr, rest)) go))
      (move captured hdr rest split) behind_header
  where
    behind_header :
        Accounts ((captured ++ hdr) ++ rest) (capture_frame captured (some (hdr, rest)) go)
    behind_header = elim (Bool-cases (ltb max_frame (frame_length hdr))) [
      | inl e ↦ rw e (ended (captured ++ hdr) rest)
      | inr e ↦ rw e (
          capture_payload-Accounts hdr (captured ++ hdr) rest _ go
            (read_exact-Splits (frame_length hdr) rest) rounds)
    ]

capture_frames-Accounts :
    (fuel : ℕ) (captured stream : List ℕ)
    → Accounts (captured ++ stream) (capture_frames fuel captured stream)
unfolding capture_frames
capture_frames-Accounts zero captured stream = ended captured stream
capture_frames-Accounts (suc fuel) captured stream =
    capture_frame-Accounts captured stream (read_exact 9 stream) (capture_frames fuel)
      (read_exact-Splits 9 stream) (capture_frames-Accounts fuel)

-- Whatever arrives, the captured bytes begin it, and a complete capture leaves exactly the rest unread.
pub capture_h2_preamble-Accounts : (stream : List ℕ) → Accounts stream (capture_h2_preamble stream)
unfolding capture_h2_preamble capture_behind_preface Splits
capture_h2_preamble-Accounts stream =
    by_preface (read_exact 24 stream) (read_exact-Splits 24 stream)
  where
    by_preface :
        (r : Option (List ℕ × List ℕ))
        → Splits stream r
        → Accounts stream (capture_behind_preface r)
    by_preface none split = ended [] stream
    by_preface (some (p, rest)) split =
        subst (λ w. Accounts w (capture_frames (suc (length rest)) p rest)) split
          (capture_frames-Accounts (suc (length rest)) p rest)

-- Frames on the wire.

read_exact-append : (a b : List ℕ) (n : ℕ) → length a ≡ n → read_exact n (a ++ b) ≡ some (a, b)
unfolding read_exact
read_exact-append a b n e =
    ap (λ k. read_exact k (a ++ b)) (sym e)
    ∙ rw (le→leb (length a) (length (a ++ b)) (omega (arith, length-append a b)))
        (ap₂ (λ x y. some (x, y)) (take-length a b) (drop-length a b))

header_of : Frame → List ℕ
header_of f = to_be24 (length f.payload) ++ (f.kind ∷ f.flags ∷ to_be32 f.stream_id)

frame_length-header_of : (f : Frame) → frame_length (header_of f) ≡ length f.payload
unfolding frame_length header_of
frame_length-header_of f = be32_div_mod (length f.payload)

frame_kind-header_of : (f : Frame) → frame_kind (header_of f) ≡ f.kind
unfolding frame_kind header_of
frame_kind-header_of f = refl

wire_frame-parts :
    (f : Frame) (rest : List ℕ) → wire_frame f ++ rest ≡ header_of f ++ (f.payload ++ rest)
unfolding wire_frame header_of
wire_frame-parts f rest = refl

-- One round on a frame that is not too long.
capture_frames-wire_frame :
    (fuel : ℕ) (captured rest : List ℕ) (f : Frame)
    → length f.payload ≤ max_frame
    → capture_frames (suc fuel) captured (wire_frame f ++ rest) ≡ (
        if f.kind == 1
        then (captured ++ wire_frame f, complete rest)
        else capture_frames fuel (captured ++ wire_frame f) rest)
unfolding capture_frames capture_frame capture_payload header_of
capture_frames-wire_frame fuel captured rest f small =
    ap (λ r. capture_frame captured r (capture_frames fuel))
      (ap (read_exact 9) (wire_frame-parts f rest)
        ∙ read_exact-append (header_of f) (f.payload ++ rest) 9 nine)
    ∙ rw
        (
          frame_length-header_of f,
          le→ltb max_frame (length f.payload) small,
          read_exact-append f.payload rest (length f.payload) refl,
          frame_kind-header_of f,
          whole,
        )
        refl
  where
    nine : length (header_of f) ≡ 9
    nine = refl

    whole : (captured ++ header_of f) ++ f.payload ≡ captured ++ wire_frame f
    whole =
        append_assoc captured (header_of f) f.payload
        ∙ ap (◌++◌ captured) (
            ap (◌++◌ (header_of f)) (sym (append-nil f.payload))
            ∙ sym (wire_frame-parts f [])
            ∙ append-nil (wire_frame f))

-- Frames that a capture takes.
abbrev pub AreTaken : List Frame → Type 0
AreTaken frames =
    All (λ (f : Frame). (length f.payload ≤ max_frame) × (f.kind ≢ frame_headers)) frames

capture_frames-wire_frames :
    (before : List Frame) (fuel : ℕ) (captured rest : List ℕ) (h : Frame)
    → AreTaken before
    → length h.payload ≤ max_frame
    → h.kind ≡ frame_headers
    → length before < fuel
    → capture_frames fuel captured (wire_frames before ++ (wire_frame h ++ rest))
      ≡ (captured ++ (wire_frames before ++ wire_frame h), complete rest)
unfolding wire_frames
capture_frames-wire_frames before zero captured rest h taken small kind enough =
    absurd (omega arith)
capture_frames-wire_frames [] (suc fuel) captured rest h taken small kind enough =
    capture_frames-wire_frame fuel captured rest h small ∙ rw kind refl
capture_frames-wire_frames (f ∷ before) (suc fuel) captured rest h ((fits, other), taken) small kind
      enough =
    ap (capture_frames (suc fuel) captured)
      (append_assoc (wire_frame f) (wire_frames before) (wire_frame h ++ rest))
    ∙ capture_frames-wire_frame fuel captured (wire_frames before ++ (wire_frame h ++ rest)) f fits
    ∙ rw (ne→== f.kind frame_headers other) (
        capture_frames-wire_frames before fuel (captured ++ wire_frame f) rest h taken small kind
          (omega arith)
        ∙ ap (λ c. (c, complete rest))
            (append_assoc captured (wire_frame f) (wire_frames before ++ wire_frame h)
              ∙ ap (◌++◌ captured)
                  (sym (append_assoc (wire_frame f) (wire_frames before) (wire_frame h)))))

-- A preface and frames of at most 2^20 bytes, of which only the last is a HEADERS frame, are captured as
-- they are, and what follows them is left unread.
pub capture_h2_preamble-wire_frames :
    (before : List Frame) (h : Frame) (rest : List ℕ)
    → AreTaken before
    → length h.payload ≤ max_frame
    → h.kind ≡ frame_headers
    → capture_h2_preamble (preface ++ (wire_frames before ++ (wire_frame h ++ rest)))
      ≡ (preface ++ (wire_frames before ++ wire_frame h), complete rest)
unfolding capture_h2_preamble capture_behind_preface
capture_h2_preamble-wire_frames before h rest taken small kind =
    let tail : List ℕ = wire_frames before ++ (wire_frame h ++ rest) in
    ap capture_behind_preface (read_exact-append preface tail 24 refl)
    ∙ capture_frames-wire_frames before (suc (length tail)) preface rest h taken small kind (
        omega (
          arith,
          length-append (wire_frames before) (wire_frame h ++ rest),
          length-wire_frames before,
        ))
