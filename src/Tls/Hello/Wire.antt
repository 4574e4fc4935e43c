-- ===== src/Tls/Hello/Wire.antt =====
-- The wire form of a ClientHello, as the comment on `parse_hello` lays it out, and where each
-- extension of it stands. This is an independent description: the program never writes a ClientHello.
use flux_parsing_daemon.Base.{
  ℕ, ◌+◌, ◌*◌, ◌<◌, ◌≡◌, arith, List, [], ◌∷◌, ◌++◌, length, length-append, All, Option, none, some,
}
use flux_parsing_daemon.Base.Bytes.{to_be16, to_be24}
use flux_parsing_daemon.Base.Options.{unwrap_or}
use flux_parsing_daemon.Tls.Hello.{Span, RawExt, RawHello}

pub record Fields : Type 0 where
  pub version : ℕ
  pub random : List ℕ
  pub session_id : List ℕ
  pub ciphers : List ℕ
  pub compression : List ℕ
  pub extensions : Option (List (ℕ × List ℕ))

abbrev pub wire_u16s : List ℕ → List ℕ
wire_u16s [] = []
wire_u16s (v ∷ vs) = to_be16 v ++ wire_u16s vs

-- `id(2) length(2) body`
abbrev pub wire_ext : ℕ → List ℕ → List ℕ
wire_ext id body = to_be16 id ++ (to_be16 (length body) ++ body)

abbrev pub wire_exts : List (ℕ × List ℕ) → List ℕ
wire_exts [] = []
wire_exts ((id, body) ∷ es) = wire_ext id body ++ wire_exts es

-- The extensions block with its length, which may be left out.
abbrev pub wire_block : Option (List (ℕ × List ℕ)) → List ℕ
wire_block none = []
wire_block (some es) = to_be16 (length (wire_exts es)) ++ wire_exts es

-- `legacy_version(2) random(32) session_id cipher_suites compression extensions`
abbrev pub message : Fields → List ℕ
message f =
    to_be16 f.version
    ++ (f.random
        ++ (length f.session_id
            ∷ (f.session_id
                ++ (to_be16 (2 * length f.ciphers)
                    ++ (wire_u16s f.ciphers
                        ++ (length f.compression ∷ (f.compression ++ wire_block f.extensions)))))))

-- `type(1) length(3)`
abbrev pub handshake_message : Fields → List ℕ
handshake_message f = 0x01 ∷ (to_be24 (length (message f)) ++ message f)

-- `type(1) version(2) length(2)`, and whatever follows the record.
abbrev pub wire_record : ℕ → ℕ → Fields → List ℕ → List ℕ
wire_record v₀ v₁ f trailing =
    0x16 ∷ v₀ ∷ v₁ ∷ (to_be16 (length (handshake_message f)) ++ (handshake_message f ++ trailing))

-- The fields fit the widths of their length prefixes, and the message fits one record.
pub record IsWellFormed (f : Fields) : Type 0 where
  pub random_size : length f.random ≡ 32
  pub session_id_size : length f.session_id < 256
  pub compression_size : length f.compression < 256
  pub bodies : All (λ (e : ℕ × List ℕ). length e.1 < 65536) (unwrap_or f.extensions [])
  pub record_size : length (message f) + 4 < 65536

-- The extensions, with the spans that they have when the first stands at `start`.
abbrev pub exts_at : ℕ → List (ℕ × List ℕ) → List RawExt
exts_at start [] = []
exts_at start ((id, body) ∷ es) =
    record { id = id; body = body; span = record { start = start; len = length body + 4 } }
    ∷ exts_at (start + (length body + 4)) es

-- Where the message, the cipher list and the extensions begin, in bytes from the record's start.
abbrev pub message_start : ℕ
message_start = 9

abbrev pub ciphers_start : Fields → ℕ
ciphers_start f = message_start + (37 + length f.session_id)

abbrev pub block_start : Fields → ℕ
block_start f = ciphers_start f + (2 * length f.ciphers + (1 + length f.compression))

-- The extensions and their span, in a message whose block would begin at `start`.
abbrev pub block_at : ℕ → Option (List (ℕ × List ℕ)) → List RawExt × Span
block_at start none = ([], record { start = start; len = 0 })
block_at start (some es) =
    (exts_at (start + 2) es, record { start = start + 2; len = length (wire_exts es) })

abbrev pub expected : Fields → RawHello
expected f = record {
  legacy_version = f.version;
  ciphers = f.ciphers;
  extensions = (block_at (block_start f) f.extensions).0;
  cipher_span = record { start = ciphers_start f; len = 2 * length f.ciphers };
  extensions_span = (block_at (block_start f) f.extensions).1;
}

pub length-wire_u16s : (vs : List ℕ) → length (wire_u16s vs) ≡ 2 * length vs
length-wire_u16s [] = omega arith
length-wire_u16s (v ∷ vs) = omega (arith, length-wire_u16s vs)

pub length-wire_exts :
    (id : ℕ) (body : List ℕ) (es : List (ℕ × List ℕ))
    → length (wire_exts ((id, body) ∷ es)) ≡ 4 + (length body + length (wire_exts es))
length-wire_exts id body es = omega (arith, length-append body (wire_exts es))
