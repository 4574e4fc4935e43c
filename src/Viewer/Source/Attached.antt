-- ===== src/Viewer/Source/Attached.antt =====
-- A viewer that attaches to the socket shows the row that one shows which listens itself.
use flux_parsing_daemon.Base.{
  ℕ, zero, suc, ◌/◌, ◌^◌, ◌<◌, ◌≡◌, refl, sym, ap, subst, ◌∙◌, arith, List, [], ◌∷◌, length-map,
  Option, some, true, All, length, Result, ok, err, stuck, to_option, take, slice, length-slice,
}
use flux_parsing_daemon.Base.Bytes.{codes, IsByte}
use flux_parsing_daemon.Base.Options.{>>=-eq-some, some_injective}
use flux_parsing_daemon.Tls.Hello.{Span, u16_chunks}
use flux_parsing_daemon.Tls.Ja4.{Provenance, Digests}
use flux_parsing_daemon.Tls.Ja4
use flux_parsing_daemon.Tls.Ja4.Laws.{fingerprint_provenance}
use flux_parsing_daemon.Probe.Serve.{build_report, retain, max_retained_hello}
use flux_parsing_daemon.Probe.Profile.{ClientReport}
use flux_parsing_daemon.Probe.Json.{Json, IsLawful, entry_of, record_fields, record_json}
use flux_parsing_daemon.Probe.Verdict.{Scores, Identification}
use flux_parsing_daemon.Probe.Log.{connection}
use flux_parsing_daemon.Viewer.{ciphers_len}
use flux_parsing_daemon.Viewer.Source.{record_frame, frame_of, parse_frame, row_from_report}
use flux_parsing_daemon.Viewer.Source.Reread.{text_field, number_field, record_value-row}

length-u16_chunks : (bytes : List ℕ) → length (u16_chunks bytes) ≡ length bytes / 2
unfolding u16_chunks
length-u16_chunks [] = omega arith
length-u16_chunks (a ∷ []) = omega arith
length-u16_chunks (a ∷ b ∷ bytes) = omega (arith, length-u16_chunks bytes)

All-take : (n : ℕ) (bytes : List ℕ) → All IsByte bytes → All IsByte (take n bytes)
All-take (suc n) (b ∷ bytes) h = (h.0, All-take n bytes h.1)
All-take zero bytes h = tt
All-take (suc n) [] h = tt

to_option-eq-some : {E A : Type 0} (r : Result E A) {a : A} → to_option r ≡ some a → r ≡ ok a
unfolding to_option
to_option-eq-some (ok b) h = ap ok (some_injective h)
to_option-eq-some (err e) h = cc
to_option-eq-some stuck h = cc

-- What is known of the report of a connection: its retained bytes are bytes, its ciphers are as many as its
-- cipher span has pairs of bytes, and it has a span for each extension.
build_report_lem :
    (d : Digests) (raw preamble : List ℕ) (alpn : Option (List ℕ)) {report : ClientReport}
    → build_report d raw preamble alpn ≡ some report
    → All IsByte raw
    → All IsByte report.raw_hello
      × (length report.tls.ciphers ≡ report.tls.provenance.ciphers.len / 2)
      × (length report.tls.provenance.per_extension ≡ length report.tls.extensions)
unfolding build_report retain
build_report_lem d raw preamble alpn {report} e h =
    let (tls, parsed, rest) = >>=-eq-some (to_option (Ja4.fingerprint d raw)) _ e in
    let (fit, ciphers, block, ids, located) =
      fingerprint_provenance d raw tls (to_option-eq-some (Ja4.fingerprint d raw) parsed) in
    let span = tls.provenance.ciphers in
    subst
      (λ (r : ClientReport).
        All IsByte r.raw_hello
        × (length r.tls.ciphers ≡ r.tls.provenance.ciphers.len / 2)
        × (length r.tls.provenance.per_extension ≡ length r.tls.extensions))
      (some_injective rest)
      (
        All-take max_retained_hello raw h,
        ap length (sym ciphers)
            ∙ length-u16_chunks (slice raw span.start span.len)
            ∙ ap (λ (n : ℕ). n / 2) (length-slice raw span.start span.len fit),
        sym (length-map (λ (x : ℕ × Span). x.0) tls.provenance.per_extension) ∙ ap length ids,
      )

-- For every connection whose ClientHello parses and whose score is a finite number, a viewer that attaches to
-- the socket reads the row that one shows which listens itself: the line parses to that row but for the count of its ciphers, which does not
-- travel, and the number shown for it is the same.
pub parse_frame-from_report :
    (s : Scores) (j : Json s.Score) (d : Digests) (seq now : ℕ) (ip raw preamble : List ℕ)
    (alpn : Option (List ℕ)) (report : ClientReport) (id : Identification s)
    → IsLawful j
    → j.is_finite (connection s report id ip now).score ≡ true
    → build_report d raw preamble alpn ≡ some report
    → All IsByte raw
    → All (λ (e : ℕ × Span). e.0 < 2 ^ 16) report.tls.provenance.per_extension
    → let row = row_from_report s j.bits seq ip report id now in
      (parse_frame j (record_json s j (record (connection s report id ip now) { seq = seq }))
        ≡ some (record_frame (record row { cipher_count = 0 })))
      × (ciphers_len (record row { cipher_count = 0 }) ≡ ciphers_len row)
unfolding parse_frame record_json frame_of row_from_report ciphers_len connection
parse_frame-from_report s j d seq now ip raw preamble alpn report id l finite e bytes ids =
    let (retained, ciphers, extensions) = build_report_lem d raw preamble alpn e bytes in
    let r = record (connection s report id ip now) { seq = seq } in
    let fields = record_fields s j r in
    (
      unfold record_fields entry_of in
          rw
            (
              l.from_str-to_string (j.object fields),
              text_field s j l fields (codes "type") (codes "record") refl,
              number_field s j l fields (codes "seq") seq refl,
              record_value-row s j l r finite retained ids,
              extensions,
            )
            refl,
      ground (arith, ciphers),
    )
