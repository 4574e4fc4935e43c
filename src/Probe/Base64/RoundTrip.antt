-- ===== src/Probe/Base64/RoundTrip.antt =====
-- What the viewer decodes is what the socket encoded.
use flux_parsing_daemon.Base.{
  ℕ, zero, suc, ◌+◌, ◌-◌, ◌*◌, ◌/◌, ◌%◌, ◌^◌, ◌<◌, ◌≡◌, refl, sym, ap, ◌∙◌, arith, Bool, true,
  false, not, not-true, List, [], ◌∷◌, ◌++◌, append_assoc, append-nil, Option, none, some, All,
  position_of, ==→eq, ◌==◌,
}
use flux_parsing_daemon.Base.Bytes.{IsByte}
use flux_parsing_daemon.Base.Bits.{holds_below, holds_below_lem}
use flux_parsing_daemon.Probe.Base64.{
  b64, b64_at, group, sextet, chunk_chars, base64, Decoding, shifted_in, add_sextet, read_char,
  read_chars, decode_base64,
}

-- The place of the character `v` is `v`.
abbrev is_at : ℕ → Option ℕ → Bool
is_at v none = false
is_at v (some i) = i == v

is_at→eq : (v : ℕ) (o : Option ℕ) → is_at v o ≡ true → o ≡ some v
is_at→eq v none h = cc
is_at→eq v (some i) h = ap some (==→eq i v h)

position_of-b64_at : (v : ℕ) → v < 64 → position_of (λ a. a == b64_at v) b64 ≡ some v
unfolding holds_below position_of b64 b64_at
position_of-b64_at v h =
    is_at→eq v (position_of (λ a. a == b64_at v) b64)
      (holds_below_lem (λ i. is_at i (position_of (λ a. a == b64_at i) b64)) 64 refl v h)

b64_at-ne-pad : (v : ℕ) → v < 64 → not (b64_at v == b'=') ≡ true
unfolding holds_below b64 b64_at
b64_at-ne-pad v h = holds_below_lem (λ i. not (b64_at i == b'=')) 64 refl v h

read_char-b64_at : (d : Decoding) (v : ℕ) → v < 64 → read_char d (b64_at v) ≡ add_sextet d v
unfolding read_char
read_char-b64_at d v h = rw (not-true _ (b64_at-ne-pad v h), position_of-b64_at v h) refl

-- What is left of the accumulator behind each of the four characters, and the octets that they give.
module _ (a u v : ℕ) (h : v < 64) where
  first_left : shifted_in a v % 64 ≡ v
  unfolding shifted_in
  first_left = omega arith

  second_octet : a % 64 ≡ u → shifted_in a v / 2 ^ 4 % 256 ≡ u * 4 + v / 16
  unfolding shifted_in
  second_octet e = omega arith

  second_left : shifted_in a v % 16 ≡ v % 16
  unfolding shifted_in
  second_left = omega arith

  third_octet : a % 16 ≡ u → shifted_in a v / 2 ^ 2 % 256 ≡ u * 16 + v / 4
  unfolding shifted_in
  third_octet e = omega arith

  third_left : shifted_in a v % 4 ≡ v % 4
  unfolding shifted_in
  third_left = omega arith

  fourth_octet : a % 4 ≡ u → shifted_in a v / 2 ^ 0 % 256 ≡ u * 64 + v
  unfolding shifted_in
  fourth_octet e = omega arith

-- The octets of a chunk in its sextets.
module _ (b0 b1 b2 : ℕ) (h0 : IsByte b0) (h1 : IsByte b1) (h2 : IsByte b2) where
  sextet_18 : sextet (group b0 b1 b2) 18 ≡ b0 / 4
  unfolding sextet group
  sextet_18 = omega arith

  sextet_12 : sextet (group b0 b1 b2) 12 ≡ b0 % 4 * 16 + b1 / 16
  unfolding sextet group
  sextet_12 = omega arith

  sextet_6 : sextet (group b0 b1 b2) 6 ≡ b1 % 16 * 4 + b2 / 64
  unfolding sextet group
  sextet_6 = omega arith

  sextet_0 : sextet (group b0 b1 b2) 0 ≡ b2 % 64
  unfolding sextet group
  sextet_0 = omega arith

sextet-lt : (n shift : ℕ) → sextet n shift < 64
unfolding sextet
sextet-lt n shift = omega arith

-- A character read in each of the four states of the decoder.
module _ (a : ℕ) (o s : List ℕ) (v : ℕ) (h : v < 64) where
  at_0 :
      read_chars (record { acc = a; bits = 0; out = o }) (b64_at v ∷ s)
      ≡ read_chars (record { acc = shifted_in a v; bits = 6; out = o }) s
  unfolding read_chars add_sextet
  at_0 = ap (λ d. read_chars d s) (read_char-b64_at _ v h)

  at_6 :
      (b : ℕ)
      → shifted_in a v / 2 ^ 4 % 256 ≡ b
      → read_chars (record { acc = a; bits = 6; out = o }) (b64_at v ∷ s)
        ≡ read_chars (record { acc = shifted_in a v; bits = 4; out = o ++ (b ∷ []) }) s
  unfolding read_chars add_sextet
  at_6 b e = rw (sym e) (ap (λ d. read_chars d s) (read_char-b64_at _ v h))

  at_4 :
      (b : ℕ)
      → shifted_in a v / 2 ^ 2 % 256 ≡ b
      → read_chars (record { acc = a; bits = 4; out = o }) (b64_at v ∷ s)
        ≡ read_chars (record { acc = shifted_in a v; bits = 2; out = o ++ (b ∷ []) }) s
  unfolding read_chars add_sextet
  at_4 b e = rw (sym e) (ap (λ d. read_chars d s) (read_char-b64_at _ v h))

  at_2 :
      (b : ℕ)
      → shifted_in a v / 2 ^ 0 % 256 ≡ b
      → read_chars (record { acc = a; bits = 2; out = o }) (b64_at v ∷ s)
        ≡ read_chars (record { acc = shifted_in a v; bits = 0; out = o ++ (b ∷ []) }) s
  unfolding read_chars add_sextet
  at_2 b e = rw (sym e) (ap (λ d. read_chars d s) (read_char-b64_at _ v h))

-- The characters of a chunk, as far as they carry octets.
module _ (b0 b1 b2 : ℕ) (h0 : IsByte b0) (h1 : IsByte b1) (h2 : IsByte b2) where
  chunk_acc : ℕ → ℕ → ℕ
  chunk_acc a zero = a
  chunk_acc a (suc k) = shifted_in (chunk_acc a k) (sextet (group b0 b1 b2) (18 - 6 * k))

  module _ (a : ℕ) (o s : List ℕ) where
    one_octet :
        read_chars
          (record { acc = a; bits = 0; out = o })
          (b64_at (sextet (group b0 b1 b2) 18) ∷ b64_at (sextet (group b0 b1 b2) 12) ∷ s)
        ≡ read_chars (record { acc = chunk_acc a 2; bits = 4; out = o ++ (b0 ∷ []) }) s
    unfolding chunk_acc
    one_octet =
        at_0 a o _ _ (sextet-lt (group b0 b1 b2) 18)
        ∙ at_6 _ o s _ (sextet-lt (group b0 b1 b2) 12) b0 (
            second_octet _ _ _ (sextet-lt (group b0 b1 b2) 12)
              (first_left a 0 _ (sextet-lt (group b0 b1 b2) 18))
            ∙ omega (arith, sextet_18 b0 b1 b2 h0 h1 h2, sextet_12 b0 b1 b2 h0 h1 h2))

    two_octets :
        read_chars
          (record { acc = chunk_acc a 2; bits = 4; out = o })
          (b64_at (sextet (group b0 b1 b2) 6) ∷ s)
        ≡ read_chars (record { acc = chunk_acc a 3; bits = 2; out = o ++ (b1 ∷ []) }) s
    unfolding chunk_acc
    two_octets = at_4 _ o s _ (sextet-lt (group b0 b1 b2) 6) b1 (
        third_octet _ _ _ (sextet-lt (group b0 b1 b2) 6)
          (second_left _ 0 _ (sextet-lt (group b0 b1 b2) 12))
        ∙ omega (arith, sextet_12 b0 b1 b2 h0 h1 h2, sextet_6 b0 b1 b2 h0 h1 h2))

    three_octets :
        read_chars
          (record { acc = chunk_acc a 3; bits = 2; out = o })
          (b64_at (sextet (group b0 b1 b2) 0) ∷ s)
        ≡ read_chars (record { acc = chunk_acc a 4; bits = 0; out = o ++ (b2 ∷ []) }) s
    unfolding chunk_acc
    three_octets = at_2 _ o s _ (sextet-lt (group b0 b1 b2) 0) b2 (
        fourth_octet _ _ _ (sextet-lt (group b0 b1 b2) 0)
          (third_left _ 0 _ (sextet-lt (group b0 b1 b2) 6))
        ∙ omega (arith, sextet_6 b0 b1 b2 h0 h1 h2, sextet_0 b0 b1 b2 h0 h1 h2))

-- The decoder between two chunks, whatever is left in its accumulator.
decodes :
    (a : ℕ) (o bytes : List ℕ)
    → All IsByte bytes
    → (read_chars (record { acc = a; bits = 0; out = o }) (base64 bytes)).out ≡ o ++ bytes
unfolding base64 chunk_chars
decodes a o [] h = unfold read_chars in sym (append-nil o)
decodes a o (b0 ∷ []) h =
    ap (λ (d : Decoding). d.out) (one_octet b0 0 0 h.0 (omega arith) (omega arith) a o _)
    ∙ unfold read_chars read_char in refl
decodes a o (b0 ∷ b1 ∷ []) h =
    ap (λ (d : Decoding). d.out)
      (one_octet b0 b1 0 h.0 h.1.0 (omega arith) a o _
        ∙ two_octets b0 b1 0 h.0 h.1.0 (omega arith) a (o ++ (b0 ∷ [])) _)
    ∙ unfold read_chars read_char in append_assoc o (b0 ∷ []) (b1 ∷ [])
decodes a o (b0 ∷ b1 ∷ b2 ∷ rest) h =
    ap (λ (d : Decoding). d.out)
      (one_octet b0 b1 b2 h.0 h.1.0 h.1.1.0 a o _
        ∙ two_octets b0 b1 b2 h.0 h.1.0 h.1.1.0 a (o ++ (b0 ∷ [])) _
        ∙ three_octets b0 b1 b2 h.0 h.1.0 h.1.1.0 a ((o ++ (b0 ∷ [])) ++ (b1 ∷ [])) _)
    ∙ decodes (chunk_acc b0 b1 b2 h.0 h.1.0 h.1.1.0 a 4)
        (((o ++ (b0 ∷ [])) ++ (b1 ∷ [])) ++ (b2 ∷ [])) rest h.1.1.1
    ∙ append_assoc ((o ++ (b0 ∷ [])) ++ (b1 ∷ [])) (b2 ∷ []) rest
    ∙ append_assoc (o ++ (b0 ∷ [])) (b1 ∷ []) (b2 ∷ rest)
    ∙ append_assoc o (b0 ∷ []) (b1 ∷ b2 ∷ rest)

-- The viewer decodes whatever bytes the socket encodes to themselves.
pub decode_base64-base64 :
    (bytes : List ℕ) → All IsByte bytes → decode_base64 (base64 bytes) ≡ bytes
unfolding decode_base64
decode_base64-base64 bytes h = decodes 0 [] bytes h
