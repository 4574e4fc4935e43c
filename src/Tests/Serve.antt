-- ===== src/Tests/Serve.antt =====
-- The streams, the capture, the gate and the viewer, on small inputs.
use flux_parsing_daemon.Base.{
  ℕ, ◌+◌, ◌/◌, inr, ◌≡◌, refl, arith, true, false, List, [], ◌∷◌, ◌++◌, none, length, take,
  get_elem?, some, suc, ◌-◌, ◌≤◌,
}
use flux_parsing_daemon.Base.Bytes.{codes}
use flux_parsing_daemon.H2.Frame.{Frame, preface}
use flux_parsing_daemon.H2.Frame.RoundTrip.{wire_frame, wire_frames}
use flux_parsing_daemon.Probe.Streams.{
  ready, pending, failed, RecordingStream, Replaying, with_cap, poll_recorded, keep_bytes, replay,
  poll_replaying, is_replaying,
}
use flux_parsing_daemon.Probe.Streams.Recorded.{Recorded, Recorded-take}
use flux_parsing_daemon.Probe.Streams.Replayed.{
  Replayed, live_bytes, reads, replay_finishes, received_in,
}
use flux_parsing_daemon.Tls.Hello.{Span}
use flux_parsing_daemon.Terms.{AcceptanceRecord, Terms}
use flux_parsing_daemon.Viewer.Draw.{
  render, footer, recede, bytes_per_row, hex_first, hex_last, times,
}
use flux_parsing_daemon.Viewer.Draw.Fits.{render_fits}
use flux_parsing_daemon.Viewer.Draw.Overflows.{render-overflows}
use flux_parsing_daemon.Viewer.{current, Row, State, key_down, visible, on_key}
use flux_parsing_daemon.Viewer.Window.{InView, on_key-InView}
use flux_parsing_daemon.Probe.Serve.{capture_h2_preamble, complete}
use flux_parsing_daemon.Probe.Serve.Capture.{capture_h2_preamble-wire_frames}

abbrev hello : RecordingStream
hello = record { seen = 1 ∷ 2 ∷ 3 ∷ []; cap = 3 }

-- Two reads, an empty poll between them, into a tee of three bytes.
hello-Recorded : Recorded (with_cap 3) (1 ∷ 2 ∷ 3 ∷ 4 ∷ []) hello
unfolding with_cap poll_recorded keep_bytes
hello-Recorded =
    Recorded.then_poll (ready (3 ∷ 4 ∷ []))
      (Recorded.then_poll pending (Recorded.then_poll (ready (1 ∷ 2 ∷ [])) Recorded.start))

Recorded-take_example : hello.seen ≡ take 3 (1 ∷ 2 ∷ 3 ∷ 4 ∷ [])
Recorded-take_example = Recorded-take 3 hello-Recorded

abbrev buffer : List ℕ
buffer = 1 ∷ 2 ∷ 3 ∷ []

abbrev live : List ℕ
live = 9 ∷ []

abbrev received : List ℕ
received = 1 ∷ 2 ∷ 3 ∷ 9 ∷ []

abbrev passed_on : Replaying
passed_on = record { buf = buffer; pos = 3 }

-- Two reads of the buffer, then one of the live stream.
passed_on-Replayed : Replayed (replay buffer) live received passed_on
unfolding replay poll_replaying live_bytes is_replaying
passed_on-Replayed =
    Replayed.then_poll 8 (ready live)
      (Replayed.then_poll 2 pending (Replayed.then_poll 2 pending Replayed.start))

replay_finishes_example :
    ((live : List ℕ) × (received_in ((1, failed) ∷ (1, pending) ∷ []) (replay (1 ∷ 2 ∷ []))
        ≡ (1 ∷ 2 ∷ []) ++ live))
    × (is_replaying (reads ((1, failed) ∷ (1, pending) ∷ []) (replay (1 ∷ 2 ∷ []))) ≡ false)
replay_finishes_example =
    replay_finishes (1 ∷ 2 ∷ []) ((1, failed) ∷ (1, pending) ∷ []) (omega arith, (omega arith, tt))
      (omega arith)

abbrev settings : Frame
settings = record { kind = 4; flags = 0; stream_id = 0; payload = 0 ∷ 3 ∷ 0 ∷ 0 ∷ 0 ∷ 100 ∷ [] }

abbrev headers : Frame
headers = record { kind = 1; flags = 5; stream_id = 1; payload = 0x82 ∷ [] }

capture_h2_preamble-wire_frames_example :
    capture_h2_preamble
      (preface ++ (wire_frames (settings ∷ []) ++ (wire_frame headers ++ (7 ∷ []))))
    ≡ (preface ++ (wire_frames (settings ∷ []) ++ wire_frame headers), complete (7 ∷ []))
capture_h2_preamble-wire_frames_example =
    capture_h2_preamble-wire_frames (settings ∷ []) headers (7 ∷ [])
      ((omega arith, (λ e. omega arith)), tt) (omega arith) refl

-- A digest of one octet stands for the HMAC.
abbrev pub terms : Terms
terms = record { terms_hash = codes "t1"; hmac_hex = λ text. length text ∷ [] }

abbrev accepted : AcceptanceRecord
accepted = record {
  terms_version = codes "t1";
  fpd_version = codes "0.1";
  accepted_at = codes "now";
  sig = codes "hmac-sha256:" ++ (10 ∷ []);
}

abbrev no_span : Span
no_span = record { start = 0; len = 0 }

abbrev row : Row
row = record {
  seq = 4;
  at_ms = 0;
  ip = codes "10.0.0.4";
  ja4 = codes "t13";
  verdict = codes "curl";
  mismatch = false;
  alpn = none;
  akamai = none;
  raw = [];
  ciphers = no_span;
  extensions = no_span;
  cipher_count = 0;
  ext_count = 0;
  grease_ext = [];
  score = 0;
}

abbrev two_rows : State
two_rows = record {
  rows = row ∷ row ∷ [];
  selected = 1;
  follow = true;
  search = [];
  searching = false;
  source_label = codes "fpd.sock";
  dropped = false;
  exported = none;
}

two_rows-InView : InView (λ text. text) two_rows
unfolding visible
two_rows-InView = omega arith

on_key-InView_example :
    InView (λ text. text) (on_key (λ text. text) key_down false false two_rows).1
on_key-InView_example = on_key-InView (λ text. text) key_down false false two_rows two_rows-InView

render_fits_example :
    (length (render (λ text. text) (λ r. codes "99") two_rows 120 24) ≡ 24)
    × (get_elem? (render (λ text. text) (λ r. codes "99") two_rows 120 24) (24 - 1)
        ≡ some ((footer two_rows, recede) ∷ []))
unfolding visible
render_fits_example =
    render_fits (λ text. text) (λ r. codes "99") two_rows 120 24 (omega arith) (inr (omega arith))

-- Ten connections of a client whose ClientHello is long, on a screen of 30 lines.
abbrev long_row : Row
long_row = record row {
  raw = times 260 7;
  ciphers = record { start = 20; len = 40 };
  extensions = record { start = 60; len = 200 };
}

abbrev ten_rows : State
ten_rows = record two_rows {
  rows =
      long_row ∷ long_row ∷ long_row ∷ long_row ∷ long_row ∷ long_row ∷ long_row ∷ long_row
      ∷ long_row ∷ long_row ∷ [];
}

render-overflows_example :
    (length (render (λ text. text) (λ r. codes "99") ten_rows 120 30) + 5 ≡ 30 + 30 / 3)
    × (n : ℕ) × (30 ≤ n)
    × (get_elem? (render (λ text. text) (λ r. codes "99") ten_rows 120 30) n
        ≡ some ((footer ten_rows, recede) ∷ []))
    × (suc n ≡ length (render (λ text. text) (λ r. codes "99") ten_rows 120 30))
unfolding visible current bytes_per_row hex_first hex_last times
render-overflows_example =
    render-overflows (λ text. text) (λ r. codes "99") ten_rows 120 30 16 long_row (omega arith)
      (omega arith) refl refl (omega arith) (omega arith)
