-- ===== src/Tls/Hello/RoundTrip.antt =====
-- `parse_hello` reads back every well-formed ClientHello, with the spans where its parts stand.
use flux_parsing_daemon.Base.{
  ℕ, zero, suc, ◌+◌, ◌*◌, ◌/◌, ◌%◌, ◌<◌, ◌≡◌, refl, sym, ap, ◌∙◌, arith, true, false, List, [], ◌∷◌,
  ◌++◌, ok, ◌>>=◌, length, length-append, leb, le→leb, gt→leb, eq→==, append-nil, append_assoc, All,
  Option, none, some,
}
use flux_parsing_daemon.Base.Options.{unwrap_or}
use flux_parsing_daemon.Base.Bytes.{to_be16, to_be24, be16_div_mod, be32_div_mod, usize_mod}
use flux_parsing_daemon.Tls.Reader.{new, remaining, take, u16, u24}
use flux_parsing_daemon.Tls.Reader.Laws.{
  reader_at, take_lem, u8_lem, u16_lem, u24_lem, remaining-reader_at,
}
use flux_parsing_daemon.Tls.Hello.{
  RawExt, RawHello, u16_chunks, ext_loop, extensions_block, hello_body, handshake, parse_hello,
}
use flux_parsing_daemon.Tls.Hello.Wire.{
  Fields, wire_u16s, wire_ext, wire_exts, message, handshake_message, wire_record, message_start,
  IsWellFormed, exts_at, ciphers_start, block_start, block_at, wire_block, expected,
  length-wire_u16s,
}

pub u16_chunks-wire_u16s : (vs : List ℕ) → u16_chunks (wire_u16s vs) ≡ vs
unfolding u16_chunks
u16_chunks-wire_u16s [] = refl
u16_chunks-wire_u16s (v ∷ vs) = cc (be16_div_mod v, u16_chunks-wire_u16s vs)

-- The reader over a two-byte length or id.
pub u16_wire :
    (front rest : List ℕ) (v : ℕ)
    → length front + 2 < usize_mod
    → u16 (reader_at front (to_be16 v ++ rest)) ≡ ok (v, reader_at (front ++ to_be16 v) rest)
u16_wire front rest v h =
    u16_lem front rest (v / 256) (v % 256) h
    ∙ ap (λ k. ok (k, reader_at (front ++ to_be16 v) rest)) (be16_div_mod v)

ext_from : ℕ → ℕ → List ℕ → RawExt
ext_from start id body = record {
  id = id;
  body = body;
  span = record { start = start; len = length body + 4 };
}

-- The loop reads the extensions that follow `front`, one in each round.
ext_loop-wire :
    (es : List (ℕ × List ℕ)) (fuel ext_base start : ℕ) (front : List ℕ) (out : List RawExt)
    → start ≡ ext_base + length front
    → length (wire_exts es) < fuel
    → length front + length (wire_exts es) < 65536
    → All (λ (e : ℕ × List ℕ). length e.1 < 65536) es
    → ext_loop fuel ext_base (reader_at front (wire_exts es)) out ≡ ok (out ++ exts_at start es)
unfolding ext_loop ◌>>=◌ ext_from
ext_loop-wire es zero ext_base start front out e h s b = absurd (omega arith)
ext_loop-wire [] (suc fuel) ext_base start front out e h s b =
    let e' : leb 4 (remaining (reader_at front [])) ≡ false =
      gt→leb 4 _ (omega (arith, remaining-reader_at front [])) in
    rw e' (ap ok (sym (append-nil out)))
ext_loop-wire ((id, body) ∷ es) (suc fuel) ext_base start front out e h s (b, bs) =
    let len : ℕ = length body in
    let rest : List ℕ = wire_exts es in
    let front₁ = front ++ to_be16 id in
    let front₂ = front₁ ++ to_be16 len in
    let l₁ = length-append front (to_be16 id) in
    let l₂ = length-append front₁ (to_be16 len) in
    let l₃ = length-append front₂ body in
    let l₄ = length-append body rest in
    let test : leb 4 (remaining (reader_at front (wire_ext id body ++ rest))) ≡ true =
      le→leb 4 _ (omega (arith, remaining-reader_at front (wire_ext id body ++ rest))) in
    rw
      (
        test,
        u16_wire front (to_be16 len ++ (body ++ rest)) id (omega arith),
        u16_wire front₁ (body ++ rest) len (omega arith),
        take_lem front₂ body rest len refl (omega arith),
      )
      (ext_loop-wire es fuel ext_base (start + (len + 4)) (front₂ ++ body) _ (omega arith)
          (omega arith) (omega arith) bs
        ∙ ap ok (
            append_assoc out _ _
            ∙ ap (λ k. out ++ ext_from k id body ∷ exts_at (start + (len + 4)) es) (sym e)))

extensions_block-wire :
    (es : List (ℕ × List ℕ)) (hs_base start : ℕ) (front : List ℕ)
    → start ≡ hs_base + (length front + 2)
    → length front + 2 + length (wire_exts es) < 65536
    → All (λ (e : ℕ × List ℕ). length e.1 < 65536) es
    → extensions_block hs_base (reader_at front (to_be16 (length (wire_exts es)) ++ wire_exts es))
      ≡ ok (exts_at start es, record { start = start; len = length (wire_exts es) })
unfolding extensions_block ◌>>=◌
extensions_block-wire es hs_base start front e s b =
    let block : List ℕ = wire_exts es in
    let total : ℕ = length block in
    let front₁ = front ++ to_be16 total in
    let l₁ = length-append front (to_be16 total) in
    let test : leb 2 (remaining (reader_at front (to_be16 total ++ block))) ≡ true =
      le→leb 2 _ (omega (arith, remaining-reader_at front (to_be16 total ++ block))) in
    let all_of = append-nil block in
    let taken : take total (reader_at front₁ block) ≡ ok (block, reader_at (front₁ ++ block) []) =
      ap (λ k. take total (reader_at front₁ k)) (sym all_of)
      ∙ take_lem front₁ block [] total refl (omega arith) in
    rw (test, u16_wire front block total (omega arith), taken)
      (rw
        (ext_loop-wire es (suc total) (hs_base + length front₁) start [] [] (omega arith)
          (omega arith) (omega arith) b)
        (ap (λ k. ok (exts_at start es, record { start = k; len = total })) (omega arith)))

-- The block, or its absence, at the end of a message.
block-wire :
    (block : Option (List (ℕ × List ℕ))) (hs_base start : ℕ) (front : List ℕ)
    → start ≡ hs_base + length front
    → length front + length (wire_block block) < 65536
    → All (λ (e : ℕ × List ℕ). length e.1 < 65536) (unwrap_or block [])
    → extensions_block hs_base (reader_at front (wire_block block)) ≡ ok (block_at start block)
block-wire none hs_base start front e s b =
    let test : leb 2 (remaining (reader_at front [])) ≡ false =
      gt→leb 2 _ (omega (arith, remaining-reader_at front [])) in
    unfold extensions_block in rw test (ap (λ k. ok ([], record { start = k; len = 0 })) (sym e))
block-wire (some es) hs_base start front e s b =
    extensions_block-wire es hs_base (start + 2) front (omega arith) (omega arith) b

length-message :
    (f : Fields)
    → length (message f)
      ≡ 6
        + length f.random
        + length f.session_id
        + 2 * length f.ciphers
        + length f.compression
        + length (wire_block f.extensions)
length-message f = omega (arith, length-append {0}, length-wire_u16s f.ciphers)

-- The expected hello, its ciphers standing at `start`.
with_ciphers_at : Fields → ℕ → RawHello
with_ciphers_at f start = record (expected f) {
  cipher_span = record { start = start; len = 2 * length f.ciphers };
}

-- The message, read from a reader of its own whose buffer begins at byte `message_start`.
hello_body-wire :
    (f : Fields) → IsWellFormed f → hello_body message_start (new (message f)) ≡ ok (expected f)
unfolding hello_body ◌>>=◌ with_ciphers_at
hello_body-wire f w =
    let m₈ : List ℕ = wire_block f.extensions in
    let n : ℕ = 2 * length f.ciphers in
    let m₇ = f.compression ++ m₈ in
    let m₆ : List ℕ = length f.compression ∷ m₇ in
    let m₅ = wire_u16s f.ciphers ++ m₆ in
    let m₄ = to_be16 n ++ m₅ in
    let m₃ = f.session_id ++ m₄ in
    let m₂ : List ℕ = length f.session_id ∷ m₃ in
    let f₁ = to_be16 f.version in
    let f₂ = f₁ ++ f.random in
    let f₃ = f₂ ++ length f.session_id ∷ [] in
    let f₄ = f₃ ++ f.session_id in
    let f₅ = f₄ ++ to_be16 n in
    let f₆ = f₅ ++ wire_u16s f.ciphers in
    let f₇ = f₆ ++ length f.compression ∷ [] in
    let f₈ = f₇ ++ f.compression in
    let size = length-message f in
    let l₂ = length-append f₁ f.random in
    let l₃ = length-append f₂ (length f.session_id ∷ []) in
    let l₄ = length-append f₃ f.session_id in
    let l₅ = length-append f₄ (to_be16 n) in
    let c = length-wire_u16s f.ciphers in
    let l₆ = length-append f₅ (wire_u16s f.ciphers) in
    let l₇ = length-append f₆ (length f.compression ∷ []) in
    let l₈ = length-append f₇ f.compression in
    rw
      (
        u16_wire [] (f.random ++ m₂) f.version (omega arith),
        take_lem f₁ f.random m₂ 32 w.random_size (omega arith),
        u8_lem f₂ m₃ (length f.session_id) (omega arith),
        take_lem f₃ f.session_id m₄ (length f.session_id) refl (omega arith),
        u16_wire f₄ m₅ n (omega arith),
        eq→== (n % 2) 0 (omega arith),
        take_lem f₅ (wire_u16s f.ciphers) m₆ n c (omega arith),
        u8_lem f₆ m₇ (length f.compression) (omega arith),
        take_lem f₇ f.compression m₈ (length f.compression) refl (omega arith),
        block-wire f.extensions message_start (block_start f) f₈ (omega arith) (omega arith)
            w.bodies,
      )
      (rw (u16_chunks-wire_u16s f.ciphers)
        (ap (λ k. ok (with_ciphers_at f k)) {y = ciphers_start f} (omega arith)))

handshake-wire :
    (f : Fields) → IsWellFormed f → handshake 5 (new (handshake_message f)) ≡ ok (expected f)
unfolding handshake ◌>>=◌
handshake-wire f w =
    let m : List ℕ = message f in
    let size = length m in
    let front = 0x01 ∷ to_be24 size in
    let whole = append-nil m in
    let taken : take size (reader_at front m) ≡ ok (m, reader_at (front ++ m) []) =
      ap (λ k. take size (reader_at front k)) (sym whole)
      ∙ take_lem front m [] size refl (omega arith) in
    let read : u24 (reader_at (0x01 ∷ []) (to_be24 size ++ m)) ≡ ok (size, reader_at front m) =
      u24_lem (0x01 ∷ []) m (size / 65536) (size / 256 % 256) (size % 256) (omega arith)
      ∙ ap (λ k. ok (k, reader_at front m)) (be32_div_mod size) in
    rw (u8_lem [] (to_be24 size ++ m) 0x01 (omega arith), read, taken) (hello_body-wire f w)

-- `parse_hello` reads back the fields of every well-formed ClientHello record, with an extensions block or
-- without one, whatever its two version bytes and whatever follows it in the buffer, with every span where
-- the part stands.
pub parse_hello-wire_record :
    (f : Fields) (v₀ v₁ : ℕ) (trailing : List ℕ)
    → IsWellFormed f
    → parse_hello (wire_record v₀ v₁ f trailing) ≡ ok (expected f)
unfolding parse_hello ◌>>=◌
parse_hello-wire_record f v₀ v₁ trailing w =
    let h : List ℕ = handshake_message f in
    let size = length h in
    let front : List ℕ = 0x16 ∷ v₀ ∷ v₁ ∷ [] in
    let small : size < 65536 = omega (arith, w.record_size) in
    rw
      (
        u8_lem [] (v₀ ∷ v₁ ∷ (to_be16 size ++ (h ++ trailing))) 0x16 (omega arith),
        u16_lem (0x16 ∷ []) (to_be16 size ++ (h ++ trailing)) v₀ v₁ (omega arith),
        u16_wire front (h ++ trailing) size (omega arith),
        take_lem (front ++ to_be16 size) h trailing size refl (omega arith),
      )
      (handshake-wire f w)
