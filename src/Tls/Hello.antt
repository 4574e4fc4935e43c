-- ===== src/Tls/Hello.antt =====
-- crates/fingerprint-core/src/hello.rs: the walk over one ClientHello record.
pub mod Spans
pub mod Total
pub mod Wire
pub mod RoundTrip
use flux_parsing_daemon.Base.{
  ℕ, zero, suc, ◌+◌, ◌%◌, List, [], ◌∷◌, ◌++◌, Result, ok, err, stuck, ◌>>=◌, length, leb, ◌==◌,
  if◌then◌else◌,
}
use flux_parsing_daemon.Base.Bytes.{be16}
use flux_parsing_daemon.Tls.Reader.{
  ParseError, not_handshake, not_client_hello, malformed, Reader, new, remaining, position, take,
  u8, u16, u24,
}

-- A byte range within the buffer passed to `parse_hello`.
pub record Span : Type 0 where
  pub start : ℕ
  pub len : ℕ

pub record RawExt : Type 0 where
  pub id : ℕ
  pub body : List ℕ
  pub span : Span

pub record RawHello : Type 0 where
  pub legacy_version : ℕ
  pub ciphers : List ℕ
  pub extensions : List RawExt
  pub cipher_span : Span
  pub extensions_span : Span

-- `chunks_exact(2)`, each chunk read as a big-endian number.
unfoldable pub u16_chunks : List ℕ → List ℕ
u16_chunks (a ∷ b ∷ rest) = be16 a b ∷ u16_chunks rest
u16_chunks _ = []

-- `while e.remaining() >= 4`, with fuel. `out` holds the extensions pushed so far.
unfoldable pub ext_loop : ℕ → ℕ → Reader → List RawExt → Result ParseError (List RawExt)
ext_loop zero ext_base e out = stuck
ext_loop (suc fuel) ext_base e out =
    if leb 4 (remaining e)
    then (do
      let start = ext_base + position e
      (id, e₁) ← u16 e
      (len, e₂) ← u16 e₁
      (body, e₃) ← take len e₂
      let ext : RawExt = record {
        id = id;
        body = body;
        span = record { start = start; len = len + 4 };
      }
      ext_loop fuel ext_base e₃ (out ++ ext ∷ []))
    else ok out

-- The extensions block, which may be missing, and its span.
unfoldable pub extensions_block : ℕ → Reader → Result ParseError (List RawExt × Span)
extensions_block hs_base c =
    if leb 2 (remaining c)
    then (do
      (ext_total, c₁) ← u16 c
      let ext_base = hs_base + position c₁
      (bytes, c₂) ← take ext_total c₁
      exts ← ext_loop (suc (length bytes)) ext_base (new bytes) []
      ok (exts, record { start = ext_base; len = ext_total }))
    else ok ([], record { start = hs_base + position c; len = 0 })

-- The ClientHello message: the lines of `parse_hello` that read from `c`.
unfoldable pub hello_body : ℕ → Reader → Result ParseError RawHello
hello_body hs_base c = do
  (legacy_version, c₁) ← u16 c
  (random, c₂) ← take 32 c₁
  (sid_len, c₃) ← u8 c₂
  (session_id, c₄) ← take sid_len c₃
  (cs_len, c₅) ← u16 c₄
  if cs_len % 2 == 0
      then (do
        (cs_bytes, c₆) ← take cs_len c₅
        (comp_len, c₇) ← u8 c₆
        (compression, c₈) ← take comp_len c₇
        (extensions, extensions_span) ← extensions_block hs_base c₈
        ok (record {
          legacy_version = legacy_version;
          ciphers = u16_chunks cs_bytes;
          extensions = extensions;
          cipher_span = record { start = hs_base + position c₅; len = cs_len };
          extensions_span = extensions_span;
        }))
      else err (malformed "cipher_suites length")

-- The handshake header: the lines of `parse_hello` that read from `h`.
unfoldable pub handshake : ℕ → Reader → Result ParseError RawHello
handshake record_base h = do
  (kind, h₁) ← u8 h
  if kind == 0x01
      then (do
        (hs_len, h₂) ← u24 h₁
        (body, h₃) ← take hs_len h₂
        hello_body (record_base + position h₂) (new body))
      else err not_client_hello

-- The record header, and all that follows it.
unfoldable pub parse_hello : List ℕ → Result ParseError RawHello
parse_hello raw = do
  (kind, r₁) ← u8 (new raw)
  if kind == 0x16
      then (do
        (record_version, r₂) ← u16 r₁
        (record_len, r₃) ← u16 r₂
        (record_body, r₄) ← take record_len r₃
        handshake (position r₃) (new record_body))
      else err not_handshake
