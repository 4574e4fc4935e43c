-- ===== src/Viewer/Source.antt =====
-- The frames of crates/fpd/src/tui/source.rs: the row of a line of the admin socket, and the row of a report
-- where the viewer listens itself; a score is the bits of its `f32`.
pub mod Reread
pub mod Attached
use flux_parsing_daemon.Base.{
  ℕ, ◌%◌, ◌^◌, Bool, false, List, [], ◌∷◌, map, Option, none, some, length, keep, list_eq,
  if◌then◌else◌,
}
use flux_parsing_daemon.Base.Bytes.{codes}
use flux_parsing_daemon.Base.Options.{◌>>=◌, map_option, unwrap_or, is_some}
use flux_parsing_daemon.Tls.Hello.{Span}
use flux_parsing_daemon.Tls.Grease.{is_grease}
use flux_parsing_daemon.H2.Akamai.{H2Fingerprint}
use flux_parsing_daemon.Probe.Profile.{ClientReport}
use flux_parsing_daemon.Probe.Base64.{decode_base64}
use flux_parsing_daemon.Probe.Json.{Json, epoch_ms}
use flux_parsing_daemon.Probe.Verdict.{Scores, Identification}
use flux_parsing_daemon.Probe.Log.{verdict_of}
use flux_parsing_daemon.Viewer.{Row}

pub data Frame : Type 0 where
  record_frame : Row → Frame
  snapshot_end : Frame

module _ {S : Type 0} (j : Json S) where
  open j use {index, elem, as_u64, as_bool, as_f32, as_str, as_array}

  unfoldable pub span_of : j.Value → Span
  span_of v = record {
    start = unwrap_or (as_u64 (index v (codes "start"))) 0;
    len = unwrap_or (as_u64 (index v (codes "len"))) 0;
  }

  -- `is_some_and(|id| is_grease(id as u16))`
  unfoldable pub is_grease_id : Option ℕ → Bool
  is_grease_id none = false
  is_grease_id (some id) = is_grease (id % 2 ^ 16)

  unfoldable pub grease_spans : List j.Value → List Span
  grease_spans items =
      map (λ e. span_of (elem e 1)) (keep (λ e. is_grease_id (as_u64 (elem e 0))) items)

  unfoldable pub row_of_value : j.Value → ℕ → Row
  row_of_value v seq =
      let prov = index v (codes "provenance") in
      let per_ext = as_array (index prov (codes "per_extension")) in
      record {
        seq = seq;
        at_ms = unwrap_or (as_u64 (index v (codes "at_ms"))) 0;
        ip = unwrap_or (as_str (index v (codes "ip"))) (codes "-");
        ja4 = unwrap_or (as_str (index v (codes "ja4"))) [];
        verdict = unwrap_or (as_str (index v (codes "verdict"))) (codes "unknown");
        score = unwrap_or (as_f32 (index v (codes "score"))) 0;
        mismatch = unwrap_or (as_bool (index v (codes "mismatch"))) false;
        alpn = as_str (index v (codes "alpn"));
        akamai = as_str (index v (codes "akamai"));
        raw = decode_base64 (unwrap_or (as_str (index v (codes "raw_hello"))) []);
        ciphers = span_of (index prov (codes "ciphers"));
        extensions = span_of (index prov (codes "extensions"));
        cipher_count = 0;
        ext_count = unwrap_or (map_option length per_ext) 0;
        grease_ext = unwrap_or (map_option grease_spans per_ext) [];
      }

  -- The `match` on the type of a frame.
  unfoldable pub frame_of : j.Value → List ℕ → Option Frame
  frame_of v kind =
      if list_eq kind (codes "snapshot_end")
      then some snapshot_end
      else if list_eq kind (codes "record")
      then map_option (λ seq. record_frame (row_of_value v seq)) (as_u64 (index v (codes "seq")))
      else none

  unfoldable pub parse_frame : j.Text → Option Frame
  parse_frame line = do v ← j.from_str line; kind ← as_str (index v (codes "type")); frame_of v kind

module _ (s : Scores) (bits : s.Score → ℕ) where
  -- `Row::from_report`, at the time `now`.
  unfoldable pub row_from_report : ℕ → List ℕ → ClientReport → Identification s → ℕ → Row
  row_from_report seq ip report id now = record {
    seq = seq;
    at_ms = epoch_ms now;
    ip = ip;
    ja4 = report.tls.ja4;
    verdict = (verdict_of s id.best).0;
    score = bits (verdict_of s id.best).1;
    mismatch = is_some id.mismatch;
    alpn = report.alpn;
    akamai = map_option (λ (h : H2Fingerprint). h.akamai) report.h2;
    raw = report.raw_hello;
    ciphers = report.tls.provenance.ciphers;
    extensions = report.tls.provenance.extensions;
    cipher_count = length report.tls.ciphers;
    ext_count = length report.tls.extensions;
    grease_ext =
        map (λ (e : ℕ × Span). e.1)
          (keep (λ (e : ℕ × Span). is_grease e.0) report.tls.provenance.per_extension);
  }
