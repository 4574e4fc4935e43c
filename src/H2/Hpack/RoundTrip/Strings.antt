-- ===== src/H2/Hpack/RoundTrip/Strings.antt =====
-- Strings of the encoder under the decoder, in both of their forms.
use flux_parsing_daemon.Base.{
  ℕ, zero, suc, ◌+◌, ◌-◌, ◌*◌, ◌^◌, ◌≤◌, ◌<◌, ◌≡◌, inl, inr, refl, sym, ap, ap₂, ◌∙◌, arith, not,
  bit_and, bit_or, List, [], ◌∷◌, ◌++◌, append_assoc, All, some, Result, ok, ok_or, ◌>>=◌, length,
  length-append, get_elem?, get_range-append, ltb→lt, lt→ltb, le→ltb, ◌/◌, ltb, ◌==◌, if◌then◌else◌,
  Bool-cases,
}
use flux_parsing_daemon.Base.Bits.{and_0x80, pow_le_256}
use flux_parsing_daemon.Base.Bytes.{checked_add}
use flux_parsing_daemon.Base.Masks.{pow_pos, or_shifted_lem}
use flux_parsing_daemon.Base.Utf8.{from_utf8, from_utf8_lossy, from_utf8_lossy_valid}
use flux_parsing_daemon.H2.Hpack.{HpackError}
use flux_parsing_daemon.H2.Hpack.Huffman
use flux_parsing_daemon.H2.Hpack.Huffman.RoundTrip.{decode-encode_huffman}
use flux_parsing_daemon.H2.Hpack.Integer.{encode_rest, encode_integer}
use flux_parsing_daemon.H2.Hpack.Integer.RoundTrip.{decode-encode_integer}
use flux_parsing_daemon.H2.Hpack.Encode.{encode_huffman, encode_string}
use flux_parsing_daemon.H2.Hpack.Decoder.{max_string, string}
use native.Mathlib.Nat.{mod-eq_of_lt}

-- An encoded integer begins with an octet that holds the type above the prefix.
abbrev pub FirstOctet : ℕ → ℕ → List ℕ → Type 0
FirstOctet p t octets = (x : ℕ) × (more : List ℕ) × (octets ≡ (t * 2 ^ p + x) ∷ more) × (x < 2 ^ p)

pub encode_integer-first : (p t v : ℕ) → p ≤ 8 → FirstOctet p t (encode_integer v p (t * 2 ^ p))
unfolding encode_integer
encode_integer-first p t v h = elim (Bool-cases (ltb v (2 ^ p - 1))) [
  | inl e ↦
      let less : v < 2 ^ p - 1 = ltb→lt v (2 ^ p - 1) e in
      rw e (
        v,
        [],
        ap (λ o. o ∷ [])
            (ap (bit_or (t * 2 ^ p))
                (mod-eq_of_lt (omega (arith, less, pow_le_256 p (omega arith))))
              ∙ or_shifted_lem p t v (omega (arith, less))),
        omega (arith, less),
      )
  | inr e ↦ rw e (
    2 ^ p - 1,
    encode_rest (v - (2 ^ p - 1)) (v - (2 ^ p - 1)),
    ap (λ o. o ∷ encode_rest (v - (2 ^ p - 1)) (v - (2 ^ p - 1)))
        (ap (bit_or (t * 2 ^ p))
            (mod-eq_of_lt (omega (arith, pow_pos p, pow_le_256 p (omega arith))))
          ∙ or_shifted_lem p t (2 ^ p - 1) (omega (arith, pow_pos p))),
    omega (arith, pow_pos p),
  )
]

length-encode_rest-le : (fuel rest : ℕ) → length (encode_rest fuel rest) ≤ suc fuel
unfolding encode_rest
length-encode_rest-le zero rest = omega arith
length-encode_rest-le (suc fuel) rest = ground (arith, length-encode_rest-le fuel (rest / 128))

pub length-encode_integer-le : (v p t : ℕ) → length (encode_integer v p t) ≤ suc (suc v)
unfolding encode_integer
length-encode_integer-le v p t =
    ground (arith, length-encode_rest-le (v - (2 ^ p - 1)) (v - (2 ^ p - 1)))

-- What the decoder makes of a string's octets under the bit `t`.
payload : ℕ → List ℕ → Result HpackError (List ℕ)
payload t body = if not (t == 0) then Huffman.decode body else ok body

top_bit : (t x : ℕ) → t < 2 → x < 2 ^ 7 → (bit_and (t * 2 ^ 7 + x) 0x80 == 0) ≡ (t == 0)
top_bit zero x h hx = ground (arith, and_0x80 x)
top_bit (suc zero) x h hx = ground (arith, and_0x80 (1 * 2 ^ 7 + x))
top_bit (suc (suc t)) x h hx = absurd (omega arith)

string-wire :
    (t : ℕ) (body bytes rest : List ℕ)
    → t < 2
    → length body ≤ max_string
    → payload t body ≡ ok bytes
    → string (encode_integer (length body) 7 (t * 2 ^ 7) ++ (body ++ rest))
      ≡ ok
          (from_utf8_lossy bytes, length (encode_integer (length body) 7 (t * 2 ^ 7)) + length body)
unfolding string checked_add ok_or ◌>>=◌ payload
string-wire t body bytes rest ht hl read =
    rw
      (
        first,
        decode-encode_integer 7 t (length body) (body ++ rest) (omega arith) (omega arith)
            (omega (arith, ht)) (omega (arith, hl)),
        le→ltb max_string (length body) hl,
        lt→ltb (length prefix + length body) (2 ^ 64)
            (omega (arith, hl, length-encode_integer-le (length body) 7 (t * 2 ^ 7))),
        get_range-append prefix body rest (length body) _ refl refl,
        top_bit t octet.0 ht octet.3,
        read,
      )
      refl
  where
    prefix : List ℕ
    prefix = encode_integer (length body) 7 (t * 2 ^ 7)

    octet : FirstOctet 7 t (encode_integer (length body) 7 (t * 2 ^ 7))
    octet = encode_integer-first 7 t (length body) (omega arith)

    first :
        get_elem? (encode_integer (length body) 7 (t * 2 ^ 7) ++ (body ++ rest)) 0
        ≡ some (t * 2 ^ 7 + octet.0)
    first = ap (λ o. get_elem? (o ++ (body ++ rest)) 0) octet.2

-- A name or a value that is its own bytes: valid UTF-8, no longer than the decoder takes.
pub record IsText (raw : List ℕ) : Type 0 where
  pub bytes : All (λ b. b < 256) raw
  pub valid : from_utf8 raw ≡ some raw
  pub short : length raw ≤ max_string

pub string-encode_string :
    (raw rest : List ℕ)
    → IsText raw
    → string (encode_string raw ++ rest) ≡ ok (raw, length (encode_string raw))
unfolding encode_string payload
string-encode_string raw rest text =
    elim (Bool-cases (ltb (length (encode_huffman raw)) (length raw))) [
      | inl e ↦ rw e (
          as_string 1 (encode_huffman raw) (omega arith) (omega (arith, text.short, ltb→lt _ _ e))
            (decode-encode_huffman raw text.bytes))
      | inr e ↦ rw e (as_string 0 raw (omega arith) text.short refl)
    ]
  where
    as_string :
        (t : ℕ) (body : List ℕ)
        → t < 2
        → length body ≤ max_string
        → payload t body ≡ ok raw
        → string ((encode_integer (length body) 7 (t * 2 ^ 7) ++ body) ++ rest)
          ≡ ok (raw, length (encode_integer (length body) 7 (t * 2 ^ 7) ++ body))
    as_string t body ht hl read =
        ap string (append_assoc (encode_integer (length body) 7 (t * 2 ^ 7)) body rest)
        ∙ string-wire t body raw rest ht hl read
        ∙ ap₂ (λ r n. ok (r, n)) (from_utf8_lossy_valid raw text.valid) (sym (length-append _ body))
