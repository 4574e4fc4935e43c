-- ===== src/Tests/Tls.antt =====
-- The theorems on crates/fingerprint-core, applied to one ClientHello and to parts of it.
use flux_parsing_daemon.Base.{
  ℕ, zero, suc, ◌≡◌, ◌≢◌, refl, arith, List, [], ◌∷◌, ok, stuck, ◌∙◌, ◌>>=◌, ok_or, get_range, some,
}
use flux_parsing_daemon.Base.Bytes.{checked_add, codes}
use flux_parsing_daemon.Tls.Reader.{Reader, new, take}
use flux_parsing_daemon.Tls.Grease.{is_grease}
use flux_parsing_daemon.Tls.Hello.{Span, RawExt, RawHello, parse_hello}
use flux_parsing_daemon.Tls.Hello.Spans.Whole.{AreCovered, parse_hello-AreCovered}
use flux_parsing_daemon.Tls.Hello.Total.{parse_hello-ne-stuck}
use flux_parsing_daemon.Tls.Hello.Wire.{Fields, IsWellFormed, wire_record, expected}
use flux_parsing_daemon.Tls.Hello.RoundTrip.{parse_hello-wire_record}
use flux_parsing_daemon.Tls.Ja4.{
  Digests, TlsFingerprint, ja4_from_hello, fingerprint, fingerprint_of,
}
use flux_parsing_daemon.Tls.Ja4.Stability.{ja4-perm, ja4-grease}
use flux_parsing_daemon.Tls.Ja4.Laws.{HasProvenance, fingerprint_provenance}
use mathlib.Core.List.Memᴰ
use mathlib.Core.List.{Perm, Permᴰ, Nodup, Pairwise, not-mem-nil}
use mathlib.Core.Logic.{∥∥₁_elim}
use mathlib.Core.HLevel.{⊥_prop}

abbrev pub repeated : ℕ → ℕ → List ℕ
repeated zero b = []
repeated (suc n) b = b ∷ repeated n b

-- Three ciphers, one of them GREASE, and the extensions ALPN, signature_algorithms and supported_versions.
abbrev pub sample : Fields
sample = record {
  version = 0x0303;
  random = repeated 32 7;
  session_id = 1 ∷ 2 ∷ [];
  ciphers = 0x1302 ∷ 0x0a0a ∷ 0x1301 ∷ [];
  compression = 0 ∷ [];
  extensions = some (
      (16, 0 ∷ 3 ∷ 2 ∷ codes "h2")
      ∷ (13, 0 ∷ 4 ∷ 4 ∷ 3 ∷ 8 ∷ 4 ∷ [])
      ∷ (43, 4 ∷ 0x0a ∷ 0x0a ∷ 3 ∷ 4 ∷ [])
      ∷ []);
}

sample-IsWellFormed : IsWellFormed sample
sample-IsWellFormed = record {
  random_size = refl;
  session_id_size = omega arith;
  compression_size = omega arith;
  bodies = (omega arith, (omega arith, (omega arith, tt)));
  record_size = omega arith;
}

abbrev pub sample_record : List ℕ
sample_record = wire_record 3 1 sample (9 ∷ [])

parse_hello-wire_record_example : parse_hello sample_record ≡ ok (expected sample)
parse_hello-wire_record_example = parse_hello-wire_record sample 3 1 (9 ∷ []) sample-IsWellFormed

pub sample_parsed : parse_hello sample_record ≡ ok (expected sample)
sample_parsed = parse_hello-wire_record sample 3 1 (9 ∷ []) sample-IsWellFormed

parse_hello-AreCovered_example : AreCovered sample_record (expected sample)
parse_hello-AreCovered_example =
    parse_hello-AreCovered sample_record (expected sample) sample_parsed

parse_hello-ne-stuck_example : parse_hello (0x16 ∷ 3 ∷ 1 ∷ 0 ∷ []) ≢ stuck
parse_hello-ne-stuck_example = parse_hello-ne-stuck (0x16 ∷ 3 ∷ 1 ∷ 0 ∷ [])

-- Digests of the right lengths.
abbrev pub digests : Digests
digests = record { sha256_hex = λ s. repeated 64 b'a'; md5_hex = λ s. repeated 32 b'b' }

two_distinct : (a b : ℕ) → a ≢ b → Nodup (a ∷ b ∷ [])
two_distinct a b h =
    Pairwise.cons (λ c m e. ∥∥₁_elim m ⊥_prop (λ d. h (e ∙ Memᴰ.eq_of_singleton d)))
      (Pairwise.cons (λ c m. absurd (not-mem-nil m)) Pairwise.nil)

abbrev no_span : Span
no_span = record { start = 0; len = 0 }

abbrev alpn_ext : RawExt
alpn_ext = record { id = 16; body = 0 ∷ 3 ∷ 2 ∷ codes "h2"; span = no_span }

abbrev versions_ext : RawExt
versions_ext = record { id = 43; body = 4 ∷ 0x0a ∷ 0x0a ∷ 3 ∷ 4 ∷ []; span = no_span }

abbrev grease_ext : RawExt
grease_ext = record { id = 0x1a1a; body = []; span = no_span }

abbrev hello_of : List ℕ → List RawExt → RawHello
hello_of ciphers exts = record {
  legacy_version = 0x0303;
  ciphers = ciphers;
  extensions = exts;
  cipher_span = no_span;
  extensions_span = no_span;
}

abbrev hello : RawHello
hello = hello_of (0x1302 ∷ 0x1301 ∷ []) (alpn_ext ∷ versions_ext ∷ [])

abbrev permuted_hello : RawHello
permuted_hello = hello_of (0x1301 ∷ 0x1302 ∷ []) (versions_ext ∷ alpn_ext ∷ [])

two_swapped {ℓ} : {A : Type ℓ} {a b : A} → Perm (a ∷ b ∷ []) (b ∷ a ∷ [])
two_swapped = ∣ Permᴰ.swap refl refl ∣₁

ja4-perm_example : ja4_from_hello digests hello ≡ ja4_from_hello digests permuted_hello
ja4-perm_example =
    ja4-perm digests hello permuted_hello refl two_swapped two_swapped
      (two_distinct 16 43 (λ e. omega arith))

ja4-grease_example :
    ja4_from_hello digests
      (hello_of (0x1302 ∷ 0x0a0a ∷ 0x1301 ∷ []) (alpn_ext ∷ grease_ext ∷ versions_ext ∷ []))
    ≡ ja4_from_hello digests hello
unfolding is_grease
ja4-grease_example =
    ja4-grease digests hello (0x1302 ∷ []) (0x1301 ∷ []) 0x0a0a (alpn_ext ∷ []) (versions_ext ∷ [])
      grease_ext refl refl

abbrev sample_fingerprint : TlsFingerprint
sample_fingerprint = fingerprint_of digests (expected sample)

sample_fingerprinted : fingerprint digests sample_record ≡ ok sample_fingerprint
unfolding fingerprint ◌>>=◌
sample_fingerprinted = rw sample_parsed refl

fingerprint_provenance_example : HasProvenance sample_record sample_fingerprint
fingerprint_provenance_example =
    fingerprint_provenance digests sample_record sample_fingerprint sample_fingerprinted

abbrev one_ext : ℕ → List ℕ → List RawExt
one_ext id body = record { id = id; body = body; span = no_span } ∷ []

abbrev two : List ℕ
two = 1 ∷ 2 ∷ []

abbrev three : Reader
three = new (1 ∷ 2 ∷ 3 ∷ [])

take_two : take 2 three ≡ ok (1 ∷ 2 ∷ [], record { buf = 1 ∷ 2 ∷ 3 ∷ []; pos = 2 })
unfolding take checked_add get_range ◌>>=◌ ok_or
take_two = refl
