-- ===== src/H2/Hpack/RoundTrip.antt =====
-- Header lists of the encoder under the decoder. The children have the strings and the fields.
pub mod Strings
pub mod Fields
use flux_parsing_daemon.Base.{
  ℕ, zero, suc, ◌+◌, ◌≤◌, ◌<◌, ◌≡◌, refl, sym, ap, ap₂, ◌∙◌, arith, true, false, List, [], ◌∷◌,
  ◌++◌, append_assoc, append-nil, All, Option, some, Result, ok, ok_or, ◌>>=◌, length,
  length-append, get_elem?, get_elem?-append, get_range, get_range-rest, ltb, leb, lt→ltb, le→ltb,
  gt→leb, if◌then◌else◌,
}
use flux_parsing_daemon.H2.Hpack.StaticTable.{Header}
use flux_parsing_daemon.H2.Hpack.Table.{DynamicTable, new}
use flux_parsing_daemon.H2.Hpack.Encode.{
  encode_field, encode_headers, static_index_exact, static_index_name,
}
use flux_parsing_daemon.H2.Hpack.Decoder.{max_headers, decode, decode_rounds, representation}

-- Headers whose names and values are text that the decoder takes.
abbrev pub AreTexts : List Header → Type 0
AreTexts hs = All (λ (h : Header). Strings.IsText h.0 × Strings.IsText h.1) hs

-- One round of the loop, on the octets of a field.
round-field :
    (fuel : ℕ) (done field more : List ℕ) (h : Header) (t : DynamicTable) (out : List Header)
    → length out < max_headers
    → (d : Fields.Decodes field h more t)
    → decode_rounds (suc fuel) (done ++ (field ++ more)) (length done) t out
      ≡ decode_rounds fuel ((done ++ field) ++ more) (length (done ++ field)) d.2 (out ++ (h ∷ []))
unfolding decode_rounds ok_or ◌>>=◌
round-field fuel done field more h t out room (first, tail, after, octets, read) =
    rw
      (
        lt→ltb (length done) (length (done ++ (field ++ more))) inside,
        gt→leb max_headers (length out) room,
        first_octet,
        get_range-rest done (field ++ more),
        read,
      )
      (ap₂ (λ b n. decode_rounds fuel b n after (out ++ (h ∷ [])))
        (sym (append_assoc done field more)) (sym (length-append done field)))
  where
    first_octet : get_elem? (done ++ (field ++ more)) (length done) ≡ some first
    first_octet =
        ap (λ f. get_elem? (done ++ (f ++ more)) (length done)) octets
        ∙ get_elem?-append done first (tail ++ more)

    inside : length done < length (done ++ (field ++ more))
    inside =
        omega
          (arith, length-append done (field ++ more), length-append field more, ap length octets)

rounds-encode_headers :
    (fuel : ℕ) (done : List ℕ) (hs : List Header) (t : DynamicTable) (out : List Header)
    → length (encode_headers hs) < fuel
    → length out + length hs ≤ max_headers
    → AreTexts hs
    → decode_rounds fuel (done ++ encode_headers hs) (length done) t out ≡ ok (out ++ hs)
unfolding encode_headers decode_rounds
rounds-encode_headers zero done hs t out enough few texts = absurd (omega arith)
rounds-encode_headers (suc fuel) done [] t out enough few texts = at_the_end
  where
    at_the_end : decode_rounds (suc fuel) (done ++ []) (length done) t out ≡ ok (out ++ [])
    at_the_end =
        rw (append-nil done, le→ltb (length done) (length done) (omega arith))
          (ap ok (sym (append-nil out)))
rounds-encode_headers (suc fuel) done (h ∷ hs) t out enough few texts =
    let field : List ℕ = encode_field (static_index_exact h) (static_index_name h.0) h in
    let d : Fields.Decodes field h (encode_headers hs) t =
      Fields.Decodes-field h.0 h.1 (encode_headers hs) t texts.0.0 texts.0.1 in
    round-field fuel done field (encode_headers hs) h t out (omega arith) d
    ∙ rounds-encode_headers fuel (done ++ field) hs d.2 (out ++ (h ∷ []))
        (omega (arith, length-append field (encode_headers hs), ap length d.3))
        (omega (arith, length-append out (h ∷ []))) texts.1
    ∙ ap ok (append_assoc out (h ∷ []) hs)

-- At most 512 headers, each of whose names and values is a list of octets that is valid UTF-8 and of at most
-- 65536 octets, encode to a block that decodes to them, in their order, with as many rounds as the decoder
-- has.
pub decode-encode_headers :
    (hs : List Header) → length hs ≤ max_headers → AreTexts hs → decode (encode_headers hs) ≡ ok hs
unfolding decode
decode-encode_headers hs few texts =
    rounds-encode_headers (suc (length (encode_headers hs))) [] hs new [] (omega arith)
      (omega arith) texts
