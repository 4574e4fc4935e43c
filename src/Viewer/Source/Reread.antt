-- ===== src/Viewer/Source/Reread.antt =====
-- The fields of a document that was printed and parsed, and the row that they make.
use flux_parsing_daemon.Base.{
  ℕ, ◌%◌, ◌^◌, ◌<◌, ◌≡◌, refl, ap, ap₂, ◌∙◌, arith, Bool, true, inl, inr, List, [], ◌∷◌, map,
  length-map, Option, none, some, All, length, keep, Bool-cases,
}
use flux_parsing_daemon.Base.Bytes.{codes, IsByte}
use flux_parsing_daemon.Tls.Hello.{Span}
use flux_parsing_daemon.Tls.Grease.{is_grease}
use flux_parsing_daemon.Probe.Base64.{base64}
use flux_parsing_daemon.Probe.Base64.RoundTrip.{decode_base64-base64}
use flux_parsing_daemon.Probe.Json.{
  Json, IsLawful, entry_of, epoch_ms, span_json, extension_json, optional, provenance_fields,
  record_fields,
}
use flux_parsing_daemon.Probe.Verdict.{Scores}
use flux_parsing_daemon.Probe.Log.{ConnectionRecord}
use flux_parsing_daemon.Viewer.Source.{span_of, is_grease_id, grease_spans, row_of_value}

module _ (s : Scores) (j : Json s.Score) (l : IsLawful j) where
  -- A field of a document that was printed and parsed.
  module _ (fields : List (List ℕ × j.Value)) (key : List ℕ) where
    field_reread :
        (v : j.Value)
        → entry_of j.null fields key ≡ v
        → j.index (l.reread (j.object fields)) key ≡ l.reread v
    field_reread v e =
        l.index-reread (j.object fields) key ∙ ap l.reread (l.index-object fields key ∙ e)

    pub text_field :
        (t : List ℕ)
        → entry_of j.null fields key ≡ j.string t
        → j.as_str (j.index (l.reread (j.object fields)) key) ≡ some t
    text_field t e =
        ap j.as_str (field_reread (j.string t) e) ∙ l.as_str-reread (j.string t) ∙ l.as_str-string t

    pub number_field :
        (n : ℕ)
        → entry_of j.null fields key ≡ j.number n
        → j.as_u64 (j.index (l.reread (j.object fields)) key) ≡ some n
    number_field n e =
        ap j.as_u64 (field_reread (j.number n) e) ∙ l.as_u64-reread (j.number n) ∙ l.as_u64-number n

    bool_field :
        (b : Bool)
        → entry_of j.null fields key ≡ j.bool b
        → j.as_bool (j.index (l.reread (j.object fields)) key) ≡ some b
    bool_field b e =
        ap j.as_bool (field_reread (j.bool b) e) ∙ l.as_bool-reread (j.bool b) ∙ l.as_bool-bool b

    score_field :
        (x : s.Score)
        → j.is_finite x ≡ true
        → entry_of j.null fields key ≡ j.float x
        → j.as_f32 (j.index (l.reread (j.object fields)) key) ≡ some (j.bits x)
    score_field x h e = ap j.as_f32 (field_reread (j.float x) e) ∙ l.as_f32-reread x h

    optional_field :
        (o : Option (List ℕ))
        → entry_of j.null fields key ≡ optional s j o
        → j.as_str (j.index (l.reread (j.object fields)) key) ≡ o
    unfolding optional
    optional_field none e =
        ap j.as_str (field_reread j.null e) ∙ l.as_str-reread j.null ∙ l.as_str-null
    optional_field (some t) e = text_field t e

  span_of-span_json : (span : Span) → span_of j (l.reread (span_json s j span)) ≡ span
  unfolding span_of span_json entry_of
  span_of-span_json span =
      rw
        (number_field _ (codes "start") span.start refl, number_field _ (codes "len") span.len refl)
        refl

  module _ (id : ℕ) (span : Span) where
    id-extension_json : j.as_u64 (j.elem (l.reread (extension_json s j (id, span))) 0) ≡ some id
    unfolding extension_json
    id-extension_json =
        ap j.as_u64 (l.elem-reread _ 0 ∙ ap l.reread (l.elem-array _ 0))
        ∙ l.as_u64-reread (j.number id)
        ∙ l.as_u64-number id

    span-extension_json : span_of j (j.elem (l.reread (extension_json s j (id, span))) 1) ≡ span
    unfolding extension_json
    span-extension_json =
        ap (span_of j) (l.elem-reread _ 1 ∙ ap l.reread (l.elem-array _ 1)) ∙ span_of-span_json span

  abbrev per_extension_json : List (ℕ × Span) → List j.Value
  per_extension_json items = map l.reread (map (extension_json s j) items)

  grease_spans-extension_json :
      (items : List (ℕ × Span))
      → All (λ (e : ℕ × Span). e.0 < 2 ^ 16) items
      → grease_spans j (per_extension_json items)
        ≡ map (λ (e : ℕ × Span). e.1) (keep (λ (e : ℕ × Span). is_grease e.0) items)
  unfolding grease_spans keep
  grease_spans-extension_json [] h = refl
  grease_spans-extension_json ((id, span) ∷ items) h =
      let same : is_grease_id j (some id) ≡ is_grease id =
        unfold is_grease_id in ap is_grease {x = id % 2 ^ 16} (omega (arith, h.0)) in
      rw (id-extension_json id span, same)
        (elim (Bool-cases (is_grease id)) [
          | inl e ↦
              rw e (ap₂ ◌∷◌ (span-extension_json id span) (grease_spans-extension_json items h.1))
          | inr e ↦ rw e (grease_spans-extension_json items h.1)
        ])

  pub record_value-row :
      (r : ConnectionRecord s)
      → j.is_finite r.score ≡ true
      → All IsByte r.raw_hello
      → All (λ (e : ℕ × Span). e.0 < 2 ^ 16) r.provenance.per_extension
      → row_of_value j (l.reread (j.object (record_fields s j r))) r.seq ≡ record {
        seq = r.seq;
        at_ms = epoch_ms r.at;
        ip = r.ip;
        ja4 = r.ja4;
        verdict = r.verdict;
        score = j.bits r.score;
        mismatch = r.mismatch;
        alpn = r.alpn;
        akamai = r.akamai;
        raw = r.raw_hello;
        ciphers = r.provenance.ciphers;
        extensions = r.provenance.extensions;
        cipher_count = 0;
        ext_count = length r.provenance.per_extension;
        grease_ext =
            map
              (λ (e : ℕ × Span). e.1)
              (keep (λ (e : ℕ × Span). is_grease e.0) r.provenance.per_extension);
      }
  unfolding row_of_value record_fields provenance_fields entry_of
  record_value-row r finite h k =
      let p = r.provenance in
      let fields = record_fields s j r in
      let spans = provenance_fields s j p in
      rw
        (
          field_reread fields (codes "provenance") (j.object spans) refl,
          field_reread spans (codes "per_extension")
              (j.array (map (extension_json s j) p.per_extension)) refl,
          field_reread spans (codes "ciphers") (span_json s j p.ciphers) refl,
          field_reread spans (codes "extensions") (span_json s j p.extensions) refl,
          span_of-span_json p.ciphers,
          span_of-span_json p.extensions,
          l.as_array-reread (j.array (map (extension_json s j) p.per_extension)),
          l.as_array-array (map (extension_json s j) p.per_extension),
          number_field fields (codes "at_ms") (epoch_ms r.at) refl,
          text_field fields (codes "ip") r.ip refl,
          text_field fields (codes "ja4") r.ja4 refl,
          text_field fields (codes "verdict") r.verdict refl,
          score_field fields (codes "score") r.score finite refl,
          bool_field fields (codes "mismatch") r.mismatch refl,
          optional_field fields (codes "alpn") r.alpn refl,
          optional_field fields (codes "akamai") r.akamai refl,
          text_field fields (codes "raw_hello") (base64 r.raw_hello) refl,
          decode_base64-base64 r.raw_hello h,
          grease_spans-extension_json p.per_extension k,
          length-map l.reread (map (extension_json s j) p.per_extension),
          length-map (extension_json s j) p.per_extension,
        )
        refl
