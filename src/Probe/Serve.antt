-- ===== src/Probe/Serve.antt =====
-- crates/fingerprint-probe/src/serve.rs, less its sockets: how an address is shown, the capture of the
-- preamble, and the report of a connection.
pub mod Capture
use flux_parsing_daemon.Base.{
  ℕ, zero, suc, ◌+◌, ◌^◌, ◌/◌, Bool, true, false, List, [], ◌∷◌, ◌++◌, Option, none, some, Result,
  to_option, length, take, drop, ltb, leb, ◌==◌, if◌then◌else◌,
}
use flux_parsing_daemon.Base.Bytes.{be32}
use flux_parsing_daemon.Base.Options.{◌>>=◌, map_option}
use flux_parsing_daemon.Tls.Ja4.{Digests, TlsFingerprint}
use flux_parsing_daemon.Tls.Ja4
use flux_parsing_daemon.H2.Akamai
use flux_parsing_daemon.Probe.Profile.{ClientReport}

-- `MAX_RETAINED_HELLO` and `retain` of probe.rs
abbrev pub max_retained_hello : ℕ
max_retained_hello = 8192

unfoldable pub retain : List ℕ → List ℕ
retain raw = take max_retained_hello raw

-- `None` where the ClientHello does not parse.
unfoldable pub build_report : Digests → List ℕ → List ℕ → Option (List ℕ) → Option ClientReport
build_report d raw preamble alpn = do
  tls ← to_option (Ja4.fingerprint d raw)
  some record {
    tls = tls;
    raw_hello = retain raw;
    h2 = to_option (Akamai.fingerprint preamble);
    alpn = alpn;
    handshake_failed = false;
  }

-- `1 << 20`
abbrev pub max_frame : ℕ
max_frame = 1048576

-- What `read_exact` takes of the bytes that arrive before the timeout: `n` bytes and the rest. Where there
-- are fewer, the reads that did arrive are lost, and the capture ends.
unfoldable pub read_exact : ℕ → List ℕ → Option (List ℕ × List ℕ)
read_exact n stream = if leb n (length stream) then some (take n stream, drop n stream) else none

-- How the capture ended: behind a HEADERS frame, with the bytes that it left unread; or before, by an error
-- or the timeout.
pub data Ending : Type 0 where
  complete : List ℕ → Ending
  cut_short : Ending

-- The length and the type in a frame header.
unfoldable pub frame_length : List ℕ → ℕ
frame_length (a ∷ b ∷ c ∷ rest) = be32 0 a b c
frame_length _ = 0

unfoldable pub frame_kind : List ℕ → ℕ
frame_kind (a ∷ b ∷ c ∷ kind ∷ rest) = kind
frame_kind _ = 0

-- The body of the loop behind the frame header `hdr`; `go` is the next round. A payload of no bytes is not
-- read.
unfoldable pub capture_payload :
    List ℕ
    → List ℕ
    → Option (List ℕ × List ℕ)
    → (List ℕ → List ℕ → List ℕ × Ending)
    → List ℕ × Ending
capture_payload hdr captured none go = (captured, cut_short)
capture_payload hdr captured (some (payload, stream)) go =
    let next = go (captured ++ payload) stream in
    if frame_kind hdr == 1 then (captured ++ payload, complete stream) else next

unfoldable pub capture_frame :
    List ℕ → Option (List ℕ × List ℕ) → (List ℕ → List ℕ → List ℕ × Ending) → List ℕ × Ending
capture_frame captured none go = (captured, cut_short)
capture_frame captured (some (hdr, stream)) go =
    let rest = capture_payload hdr (captured ++ hdr) (read_exact (frame_length hdr) stream) go in
    if ltb max_frame (frame_length hdr) then (captured ++ hdr, cut_short) else rest

-- The loop. Each round takes a frame header, so one round more than bytes is enough.
unfoldable pub capture_frames : ℕ → List ℕ → List ℕ → List ℕ × Ending
capture_frames zero captured stream = (captured, cut_short)
capture_frames (suc fuel) captured stream =
    capture_frame captured (read_exact 9 stream) (λ c s. capture_frames fuel c s)

unfoldable pub capture_behind_preface : Option (List ℕ × List ℕ) → List ℕ × Ending
capture_behind_preface none = ([], cut_short)
capture_behind_preface (some (preface, stream)) =
    capture_frames (suc (length stream)) preface stream

-- The captured bytes, for a connection on which `stream` arrives before the timeout.
unfoldable pub capture_h2_preamble : List ℕ → List ℕ × Ending
capture_h2_preamble stream = capture_behind_preface (read_exact 24 stream)
