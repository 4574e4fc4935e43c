-- ===== src/H2/Hpack/Integer/RoundTrip.antt =====
-- Encoded integers decode to themselves, up to the values that the decoder refuses.
use flux_parsing_daemon.Base.{
  ℕ, zero, suc, ◌+◌, ◌-◌, ◌*◌, ◌/◌, ◌%◌, ◌^◌, ◌≤◌, ◌<◌, ◌≡◌, refl, ap, ap₂, ◌∙◌, ◌⊎◌, inl, inr,
  arith, true, false, bit_or, List, [], ◌∷◌, ◌++◌, Result, ok, ok_or, ◌>>=◌, length, ltb, ltb→lt,
  ltb-false→le, if◌then◌else◌, Bool-cases,
}
use flux_parsing_daemon.Base.Bits.{and_0x7f, and_0x80, or_0x80, and_or_prefix, pow_le_256}
use flux_parsing_daemon.Base.Bytes.{checked_add}
use flux_parsing_daemon.H2.Hpack.{HpackError}
use flux_parsing_daemon.H2.Hpack.Integer.{
  decode_loop, decode_first, decode, encode_rest, encode_integer,
}
use native.Mathlib.Nat.{div-add-mod'}
use native.Mathlib.Numerals.{towards_suc}

-- One round on a last octet `w`, and on an octet with the top bit set over the group `g`.
last_octet :
    (w value shift consumed : ℕ) (rest : List ℕ)
    → w < 128
    → shift < 63
    → value + w * 2 ^ shift < 2 ^ 64
    → decode_loop (w ∷ rest) value shift consumed ≡ ok (value + w * 2 ^ shift, consumed + 1)
unfolding decode_loop checked_add ok_or ◌>>=◌
last_octet w value shift consumed rest hw hs fits = ground (arith, and_0x7f w, and_0x80 w)

inner_octet :
    (g value shift consumed : ℕ) (rest : List ℕ)
    → g < 128
    → shift < 63
    → value + g * 2 ^ shift < 2 ^ 64
    → decode_loop ((g + 128) ∷ rest) value shift consumed
      ≡ decode_loop rest (value + g * 2 ^ shift) (shift + 7) (consumed + 1)
unfolding decode_loop checked_add ok_or ◌>>=◌
inner_octet g value shift consumed rest hg hs fits =
    ground (arith, and_0x7f (g + 128), and_0x80 (g + 128))

next_group : (k : ℕ) → 2 ^ (k + 7) ≡ 2 ^ k * 128
next_group k = simp towards_suc (omega arith)

-- The value read so far, the lowest group of `w` and the rest make the value with all of `w`.
groups_add_up :
    (value w k : ℕ) → value + w % 128 * 2 ^ k + w / 128 * 2 ^ (k + 7) ≡ value + w * 2 ^ k
groups_add_up value w k =
    omega (arith, ap (◌*◌ (w / 128)) (next_group k), ap (λ (n : ℕ). n * 2 ^ k) (div-add-mod' w 128))

encode_rest_small : (fuel w : ℕ) → w < 128 → encode_rest fuel w ≡ w ∷ []
unfolding encode_rest
encode_rest_small zero w h = ground arith
encode_rest_small (suc fuel) w h = ground arith

encode_rest_large :
    (fuel w : ℕ) → 128 ≤ w → encode_rest (suc fuel) w ≡ (w % 128 + 128) ∷ encode_rest fuel (w / 128)
unfolding encode_rest
encode_rest_large fuel w h = ground (arith, or_0x80 (w % 128))

abbrev Reads : List ℕ → ℕ → ℕ → ℕ → List ℕ → ℕ → Type 0
Reads octets value shift consumed rest total =
    decode_loop (octets ++ rest) value shift consumed ≡ ok (total, consumed + length octets)

group_fits : (w s value : ℕ) → value + w * 2 ^ s < 2 ^ 64 → value + w % 128 * 2 ^ s < 2 ^ 64
group_fits w s value fits = omega (arith, groups_add_up value w s, fits)

rest_fits :
    (w s value : ℕ)
    → value + w * 2 ^ s < 2 ^ 64
    → value + w % 128 * 2 ^ s + w / 128 * 2 ^ (s + 7) < 2 ^ 64
rest_fits w s value fits = omega (arith, groups_add_up value w s, fits)

-- From a group and the reading of the rest to the reading of both.
Reads-suc :
    (w value shift consumed : ℕ) (octets rest : List ℕ)
    → shift < 63
    → value + w * 2 ^ shift < 2 ^ 64
    → Reads octets
        (value + w % 128 * 2 ^ shift)
        (shift + 7)
        (consumed + 1)
        rest
        (value + w % 128 * 2 ^ shift + w / 128 * 2 ^ (shift + 7))
    → Reads ((w % 128 + 128) ∷ octets) value shift consumed rest (value + w * 2 ^ shift)
Reads-suc w value shift consumed octets rest hs fits h =
    inner_octet (w % 128) value shift consumed (octets ++ rest) (omega arith) hs
      (group_fits w shift value fits)
    ∙ (h ∙ ap₂ (λ t n. ok (t, n)) (omega (arith, groups_add_up value w shift)) (omega arith))

read_small :
    (fuel w value shift consumed : ℕ) (rest : List ℕ)
    → w < 128
    → shift < 63
    → value + w * 2 ^ shift < 2 ^ 64
    → Reads (encode_rest fuel w) value shift consumed rest (value + w * 2 ^ shift)
read_small fuel w value shift consumed rest hw hs fits =
    rw (encode_rest_small fuel w hw) (last_octet w value shift consumed rest hw hs fits)

quotient_lt : (w k : ℕ) → w < 128 ^ suc (suc k) → w / 128 < 128 ^ suc k
quotient_lt w k h = omega (arith, h)

quotient_le : (w fuel : ℕ) → 128 ≤ w → w ≤ suc fuel → w / 128 ≤ fuel
quotient_le w fuel h k = omega arith

-- `k` more octets may follow the next; `w` counts from bit `shift` on.
decode_loop-encode_rest :
    (k fuel w value shift consumed : ℕ) (rest : List ℕ)
    → w < 128 ^ suc k
    → shift + 7 * k ≤ 56
    → w ≤ fuel
    → value + w * 2 ^ shift < 2 ^ 64
    → Reads (encode_rest fuel w) value shift consumed rest (value + w * 2 ^ shift)
decode_loop-encode_rest zero fuel w value shift consumed rest hw hs hf fits =
    read_small fuel w value shift consumed rest hw (omega arith) fits
decode_loop-encode_rest (suc k) zero w value shift consumed rest hw hs hf fits =
    read_small zero w value shift consumed rest (omega arith) (omega arith) fits
decode_loop-encode_rest (suc k) (suc fuel) w value shift consumed rest hw hs hf fits =
    elim (Bool-cases (ltb w 128)) [
      | inl small ↦
          read_small (suc fuel) w value shift consumed rest (ltb→lt w 128 small) (omega arith) fits
      | inr large ↦ rw (encode_rest_large fuel w (ltb-false→le w 128 large)) (
          Reads-suc w value shift consumed (encode_rest fuel (w / 128)) rest (omega arith) fits (
            decode_loop-encode_rest k fuel (w / 128) (value + w % 128 * 2 ^ shift) (shift + 7)
              (consumed + 1) rest (quotient_lt w k hw) (omega arith)
              (quotient_le w fuel (ltb-false→le w 128 large) hf) (rest_fits w shift value fits)))
    ]

pow_pos : (p : ℕ) → 1 ≤ 2 ^ p
pow_pos zero = omega arith
pow_pos (suc p) = omega (arith, pow_pos p)

decode-prefix : (buf : List ℕ) (p : ℕ) → 1 ≤ p → p ≤ 8 → decode buf p ≡ decode_first p buf
unfolding decode
decode-prefix buf p h1 h8 = ground arith

-- A first octet that holds `u` in its prefix.
decode_first-octet :
    (p t u : ℕ) (rest : List ℕ)
    → p ≤ 8
    → t * 2 ^ p < 256
    → u < 2 ^ p
    → decode_first p (bit_or (t * 2 ^ p) (u % 256) ∷ rest)
      ≡ (if ltb u (2 ^ p - 1) then ok (u, 1) else decode_loop rest u 0 1)
unfolding decode_first
decode_first-octet p t u rest h8 ht hu =
    let small : u % 256 ≡ u = ground (arith, pow_le_256 p (omega arith)) in
    rw (small, and_or_prefix p t u (omega arith) ht hu) refl

-- A full prefix, then the octets of the rest.
decode_first-full :
    (p t w : ℕ) (rest : List ℕ)
    → p ≤ 8
    → t * 2 ^ p < 256
    → w < 2 ^ 63
    → decode_first p (bit_or (t * 2 ^ p) ((2 ^ p - 1) % 256) ∷ (encode_rest w w ++ rest))
      ≡ ok (2 ^ p - 1 + w, suc (length (encode_rest w w)))
decode_first-full p t w rest h8 ht hw =
    decode_first-octet p t (2 ^ p - 1) (encode_rest w w ++ rest) h8 ht (omega (arith, pow_pos p))
    ∙ (second_branch (2 ^ p - 1) (decode_loop (encode_rest w w ++ rest) (2 ^ p - 1) 0 1)
        ∙ (decode_loop-encode_rest 8 w w (2 ^ p - 1) 0 1 rest hw (omega arith) (omega arith)
              (omega (arith, hw, pow_le_256 p (omega arith)))
            ∙ ap₂ (λ v n. ok (v, n)) (omega arith) (omega arith)))
  where
    second_branch : (n : ℕ) (e : Result HpackError (ℕ × ℕ)) → (if ltb n n then ok (n, 1) else e) ≡ e
    second_branch n e = ground arith

-- A value below 2^63 + 2^p - 1, encoded under a prefix of `p` bits, from 1 to 8, with the bits `t` above it
-- and with any octets behind it, decodes to itself and to its encoded length.
pub decode-encode_integer :
    (p t v : ℕ) (rest : List ℕ)
    → 1 ≤ p
    → p ≤ 8
    → t * 2 ^ p < 256
    → v < 2 ^ 63 + 2 ^ p - 1
    → decode (encode_integer v p (t * 2 ^ p) ++ rest) p
      ≡ ok (v, length (encode_integer v p (t * 2 ^ p)))
unfolding encode_integer
decode-encode_integer p t v rest h1 h8 ht hv =
    decode-prefix _ p h1 h8 ∙ body (Bool-cases (ltb v (2 ^ p - 1)))
  where
    body :
        (ltb v (2 ^ p - 1) ≡ true) ⊎ (ltb v (2 ^ p - 1) ≡ false)
        → decode_first p (encode_integer v p (t * 2 ^ p) ++ rest)
          ≡ ok (v, length (encode_integer v p (t * 2 ^ p)))
    body (inl small) = rw small (decode_first-octet p t v rest h8 ht (ground arith) ∙ rw small refl)
    body (inr large) = rw large (
        decode_first-full p t (v - (2 ^ p - 1)) rest h8 ht (omega (arith, hv, pow_pos p))
        ∙ ap (λ u. ok (u, suc (length (encode_rest (v - (2 ^ p - 1)) (v - (2 ^ p - 1))))))
            (omega (arith, ltb-false→le v (2 ^ p - 1) large)))
