-- ===== src/Tls/Ja4/Laws.antt =====
-- The shape of a JA4 string, and the provenance that travels with a fingerprint.
use flux_parsing_daemon.Base.{
  ℕ, ◌+◌, ◌≤◌, ◌≡◌, refl, sym, ap, ap₂, append_assoc, ◌∙◌, inl, inr, arith, Bool, ◌&&◌, List, [],
  ◌∷◌, ◌++◌, map, Option, none, some, ok, on_ok, ok_injective, length, length-append, length-slice,
  get_elem?, get_range, slice, is_empty, all, le→leb, get_elem?-append, if◌then◌else◌, Bool-cases,
  All, subst,
}
use flux_parsing_daemon.Base.Bytes.{be16, codes}
use flux_parsing_daemon.Base.Text.{two_digits}
use flux_parsing_daemon.Tls.Grease.{strip}
use flux_parsing_daemon.Tls.Hello.{Span, RawExt, RawHello, u16_chunks}
use flux_parsing_daemon.Tls.Hello.Spans.{IsCovered}
use flux_parsing_daemon.Tls.Hello.Spans.Whole.{parse_hello-AreCovered}
use flux_parsing_daemon.Tls.Ext.{sig_algs}
use flux_parsing_daemon.Tls.Ja4.{
  Digests, TlsFingerprint, ext_ids, version_str, count2, last?, first_and_last, alpn_chars, ja4_a,
  ja4_b, ja4_b_string, ja4_c, in_segment_a, truncated_hash, ja4_from_hello, fingerprint,
}

length-version_str : (v : ℕ) → length (version_str v) ≡ 2
unfolding version_str
length-version_str v = ground arith

length-count2 : (n : ℕ) → length (count2 n) ≡ 2
unfolding count2 two_digits
length-count2 n = refl

length-first_and_last : (a b : Option ℕ) → length (first_and_last a b) ≡ 2
unfolding first_and_last
length-first_and_last (some a) (some b) = ground arith
length-first_and_last none b = refl
length-first_and_last (some a) none = refl

length-alpn_chars : (s : Option (List ℕ)) → length (alpn_chars s) ≡ 2
unfolding alpn_chars
length-alpn_chars none = refl
length-alpn_chars (some []) = refl
length-alpn_chars (some (b ∷ s)) = length-first_and_last (some b) (last? (b ∷ s))

length-flag : (b : Bool) → length (if b then codes "d" else codes "i") ≡ 1
length-flag b = ground arith

-- Segment (a) of JA4 has ten characters.
length-ja4_a : (h : RawHello) → length (ja4_a h) ≡ 10
unfolding ja4_a
length-ja4_a h =
    simp (length-append, length-version_str, length-flag, length-count2, length-alpn_chars) refl

-- The crate's digest in hexadecimal: 64 digits.
abbrev pub IsSha256 : Digests → Type 0
IsSha256 d = (s : List ℕ) → length (d.sha256_hex s) ≡ 64

length-truncated_hash : (d : Digests) → IsSha256 d → (s : List ℕ) → length (truncated_hash d s) ≡ 12
unfolding truncated_hash get_range
length-truncated_hash d w s =
    rw (le→leb 12 (length (d.sha256_hex s)) (omega (arith, w s)))
      (length-slice (d.sha256_hex s) 0 12 (omega (arith, w s)))

length-ja4_b : (d : Digests) → IsSha256 d → (cs : List ℕ) → length (ja4_b d cs) ≡ 12
unfolding ja4_b
length-ja4_b d w cs = elim (Bool-cases (is_empty (ja4_b_string cs))) [
  | inl e ↦ rw e refl
  | inr e ↦ rw e (length-truncated_hash d w _)
]

length-ja4_c : (d : Digests) → IsSha256 d → (es s : List ℕ) → length (ja4_c d es s) ≡ 12
unfolding ja4_c
length-ja4_c d w es s = elim (Bool-cases (all in_segment_a (strip es) && is_empty s)) [
  | inl e ↦ rw e refl
  | inr e ↦ rw e (length-truncated_hash d w _)
]

second_separator :
    (x y z : List ℕ) (s t : ℕ)
    → length x ≡ 10
    → length y ≡ 12
    → get_elem? (x ++ s ∷ (y ++ t ∷ z)) 23 ≡ some t
second_separator x y z s t hx hy =
    let n : 23 ≡ length (x ++ s ∷ y) = omega (arith, length-append x (s ∷ y)) in
    ap₂ get_elem? (sym (append_assoc x (s ∷ y) (t ∷ z))) n ∙ get_elem?-append (x ++ s ∷ y) t z

-- A JA4 string has ten, twelve and twelve characters with a separator between them, given that a
-- SHA-256 digest has 64 hexadecimal digits.
pub length-ja4_from_hello :
    (d : Digests) (h : RawHello)
    → IsSha256 d
    → (length (ja4_from_hello d h) ≡ 36)
      × (get_elem? (ja4_from_hello d h) 10 ≡ some b'_')
      × (get_elem? (ja4_from_hello d h) 23 ≡ some b'_')
unfolding ja4_from_hello
length-ja4_from_hello d h w =
    let b = ja4_b d h.ciphers in
    let c = ja4_c d (ext_ids h) (sig_algs h.extensions) in
    let lb = length-ja4_b d w h.ciphers in
    let lc = length-ja4_c d w (ext_ids h) (sig_algs h.extensions) in
    (
      simp (length-append, length-ja4_a) (simp (lb, lc) refl),
      ap (get_elem? (ja4_from_hello d h)) (sym (length-ja4_a h))
          ∙ get_elem?-append (ja4_a h) b'_' _,
      second_separator (ja4_a h) b c b'_' b'_' (length-ja4_a h) lb,
    )

-- The span `x.1` holds a two-byte id, which is `x.0`, a two-byte length and as many bytes, inside `block`.
abbrev pub IsLocated : List ℕ → Span → ℕ × Span → Type 0
IsLocated raw block x =
    (block.start ≤ x.1.start)
    × (x.1.start + x.1.len ≤ block.start + block.len)
    × ((a : ℕ) × (b : ℕ) × (c : ℕ) × (e : ℕ) × (body : List ℕ) × (slice raw x.1.start x.1.len
          ≡ a ∷ b ∷ c ∷ e ∷ body)
        × (x.0 ≡ be16 a b)
        × (length body ≡ be16 c e))

abbrev pub HasProvenance : List ℕ → TlsFingerprint → Type 0
HasProvenance raw fp =
    (fp.provenance.ciphers.start + fp.provenance.ciphers.len ≤ length raw)
    × (u16_chunks (slice raw fp.provenance.ciphers.start fp.provenance.ciphers.len) ≡ fp.ciphers)
    × (fp.provenance.extensions.start + fp.provenance.extensions.len ≤ length raw)
    × (map (λ (x : ℕ × Span). x.0) fp.provenance.per_extension ≡ fp.extensions)
    × All (IsLocated raw fp.provenance.extensions) fp.provenance.per_extension

located :
    (raw : List ℕ) (block : Span) (es : List RawExt)
    → All (IsCovered raw block) es
    → All (IsLocated raw block) (map (λ (e : RawExt). (e.id, e.span)) es)
located raw block [] h = tt
located raw block (x ∷ es) (h, hs) =
    let (a, b, c, e, p, q, l) = h.whole in
    ((h.from, h.upto, (a, b, c, e, x.body, p, q, l)), located raw block es hs)

map-map_ids :
    (es : List RawExt)
    → map (λ (x : ℕ × Span). x.0) (map (λ (e : RawExt). (e.id, e.span)) es)
      ≡ map (λ (e : RawExt). e.id) es
map-map_ids [] = refl
map-map_ids (e ∷ es) = ap (◌∷◌ e.id) (map-map_ids es)

-- Where a buffer has a fingerprint, its provenance indexes the buffer: the cipher span reads as the ciphers, and each extension's span lies in the block and covers the
-- header and body of the extension at the same place of the list, which has the reported id.
pub fingerprint_provenance :
    (d : Digests) (raw : List ℕ) (fp : TlsFingerprint)
    → fingerprint d raw ≡ ok fp
    → (fp.provenance.ciphers.start + fp.provenance.ciphers.len ≤ length raw)
      × (u16_chunks (slice raw fp.provenance.ciphers.start fp.provenance.ciphers.len) ≡ fp.ciphers)
      × (fp.provenance.extensions.start + fp.provenance.extensions.len ≤ length raw)
      × (map (λ (x : ℕ × Span). x.0) fp.provenance.per_extension ≡ fp.extensions)
      × All (IsLocated raw fp.provenance.extensions) fp.provenance.per_extension
unfolding fingerprint
fingerprint_provenance d raw fp e = on_ok _ _ e λ h p q.
    let w = parse_hello-AreCovered raw h p in
    subst (HasProvenance raw) (ok_injective q) (
      w.ciphers_fit,
      w.ciphers,
      w.block_fits,
      map-map_ids h.extensions,
      located raw h.extensions_span h.extensions w.extensions,
    )
