-- ===== src/H2/Hpack/Huffman/RoundTrip.antt =====
-- Huffman strings of the encoder under the decoder.
use flux_parsing_daemon.Base.{
  ℕ, ◌<◌, ◌≡◌, refl, sym, ap, ◌∙◌, arith, true, not, ◌||◌, List, [], ◌∷◌, ◌++◌, append_assoc,
  append-nil, All, Option, none, some, Result, ok, err, ◌>>=◌, get_elem?, ltb, if◌then◌else◌,
}
use flux_parsing_daemon.Base.Masks.{bits_of}
use flux_parsing_daemon.H2.Hpack.{HpackError, bad_huffman}
use flux_parsing_daemon.H2.Hpack.HuffmanTable.{huffman}
use flux_parsing_daemon.H2.Hpack.Huffman.{Walk, start, decode}
use flux_parsing_daemon.H2.Hpack.Huffman.Bits.{
  walk, walk-append, walk_bytes-walk, octet_bits, octet_bits-append, pending_bits, add_symbol-bits,
  padding, padded_octet-bits, entry_bits, entry_fits,
}
use flux_parsing_daemon.H2.Hpack.Huffman.Codes.{
  symbol_fits, walk_symbol, walk-padding, length-padding,
}
use flux_parsing_daemon.H2.Hpack.Encode.{
  Pending, padded_octet, add_symbol, add_symbols, encode_huffman,
}

-- The digits of a string's symbols.
unfoldable code_bits : List ℕ → List ℕ
code_bits [] = []
code_bits (c ∷ cs) = entry_bits (get_elem? huffman c) ++ code_bits cs

add_entry-bits :
    (entry : Option (ℕ × ℕ)) (p : Pending)
    → p.bits < 8
    → entry_fits entry ≡ true
    → (pending_bits (add_symbol entry p) ≡ pending_bits p ++ entry_bits entry)
      × ((add_symbol entry p).bits < 8)
unfolding entry_fits entry_bits
add_entry-bits none p h fits = cc
add_entry-bits (some (code, len)) p h fits =
    add_symbol-bits code len p h (ground (arith, fits)) (ground (arith, fits))

add_symbols-bits :
    (cs : List ℕ) (p : Pending)
    → All (λ c. c < 256) cs
    → p.bits < 8
    → (pending_bits (add_symbols cs p) ≡ pending_bits p ++ code_bits cs)
      × ((add_symbols cs p).bits < 8)
unfolding add_symbols code_bits
add_symbols-bits [] p small h = (sym (append-nil (pending_bits p)), h)
add_symbols-bits (c ∷ cs) p small h =
    let (one, few) = add_entry-bits (get_elem? huffman c) p h (symbol_fits c small.0) in
    let (rest, few') = add_symbols-bits cs (add_symbol (get_elem? huffman c) p) small.1 few in
    (rest ∙ ap (λ bs. bs ++ code_bits cs) one ∙ append_assoc (pending_bits p) _ _, few')

encode_huffman-bits :
    (cs : List ℕ)
    → All (λ c. c < 256) cs
    → (b : ℕ) × (b < 8) × (octet_bits (encode_huffman cs) ≡ code_bits cs ++ padding b)
unfolding encode_huffman pending_bits octet_bits code_bits bits_of
encode_huffman-bits cs small =
    let p = add_symbols cs record { out = []; acc = 0; bits = 0 } in
    let (same, few) =
      add_symbols-bits cs record { out = []; acc = 0; bits = 0 } small (omega arith) in
    (
      p.bits,
      few,
      octet_bits-append p.out (padded_octet p.acc p.bits)
          ∙ ap (◌++◌ (octet_bits p.out)) (padded_octet-bits p.acc p.bits few)
          ∙ sym (append_assoc (octet_bits p.out) _ _)
          ∙ ap (λ bs. bs ++ padding p.bits) same,
    )

fresh : List ℕ → Walk
fresh out = record { at = 0; bits_since_symbol = 0; padding_is_all_ones = true; out = out }

walk_codes :
    (cs out : List ℕ)
    → All (λ c. c < 256) cs
    → walk (code_bits cs) (fresh out) ≡ ok (fresh (out ++ cs))
unfolding walk code_bits fresh ◌>>=◌
walk_codes [] out small = ap (λ o. ok (fresh o)) (sym (append-nil out))
walk_codes (c ∷ cs) out small =
    walk-append (entry_bits (get_elem? huffman c)) (code_bits cs) (fresh out)
    ∙ ap (λ m. m >>= walk (code_bits cs)) (walk_symbol c (fresh out) small.0 refl)
    ∙ walk_codes cs (out ++ (c ∷ [])) small.1
    ∙ ap (λ o. ok (fresh o)) (append_assoc out (c ∷ []) cs)

-- The check at the end of `decode`.
finish : Walk → Result HpackError (List ℕ)
finish w =
    if ltb 7 w.bits_since_symbol || not w.padding_is_all_ones then err bad_huffman else ok w.out

finish_padded :
    (w : Walk) → w.bits_since_symbol < 8 → w.padding_is_all_ones ≡ true → finish w ≡ ok w.out
unfolding finish
finish_padded w h clean = ground (arith, h, clean)

-- A string of octets, coded and padded, is decoded to itself.
pub decode-encode_huffman :
    (cs : List ℕ) → All (λ c. c < 256) cs → decode (encode_huffman cs) ≡ ok cs
unfolding decode ◌>>=◌ finish fresh
decode-encode_huffman cs small =
    let (b, few, digits) = encode_huffman-bits cs small in
    let (v, walked, count, ones, out) = walk-padding b (fresh cs) few refl refl in
    ap (λ m. m >>= finish)
      (walk_bytes-walk (encode_huffman cs) start
        ∙ ap (λ ds. walk ds start) digits
        ∙ walk-append (code_bits cs) (padding b) start
        ∙ ap (λ m. m >>= walk (padding b)) (walk_codes cs [] small)
        ∙ walked)
    ∙ finish_padded v (omega (arith, count, length-padding b)) ones
    ∙ ap ok out
