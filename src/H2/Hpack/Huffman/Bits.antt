-- ===== src/H2/Hpack/Huffman/Bits.antt =====
-- The decoder and the encoder of Huffman strings as lists of binary digits.
use flux_parsing_daemon.Base.{
  ℕ, zero, suc, ◌+◌, ◌-◌, ◌*◌, ◌/◌, ◌%◌, ◌^◌, ◌≤◌, ◌<◌, ◌≡◌, refl, sym, ap, ap₂, ◌∙◌, arith, Bool,
  false, bit_and, bit_or, ◌&&◌, List, [], ◌∷◌, ◌++◌, append_assoc, append-nil, Option, none, some,
  Result, ok, ◌>>=◌, >>=_cong, >>=_assoc, leb, leb→le, ltb, Bool-cases, inl, inr,
}
use flux_parsing_daemon.Base.Masks.{
  pow_pos, pow_add, or_shifted_lem, and_ones_lem, bits_of, bits_of-add, bits_of-mod,
  bits_of-multiple,
}
use flux_parsing_daemon.H2.Hpack.{HpackError}
use flux_parsing_daemon.H2.Hpack.Huffman.{Walk, step, walk_bits, walk_bytes}
use flux_parsing_daemon.H2.Hpack.Encode.{Pending, whole_octets, padded_octet, add_symbol}
use native.Mathlib.Nat.{
  mod-lt, div-add-mod, mul-add-mod_self_right, mod-eq_of_lt, mul-lt-mul_of_pos_right, div-eq_of_lt,
  mul-add-div_right,
}

-- The walk over digits.
unfoldable pub walk : List ℕ → Walk → Result HpackError Walk
walk [] w = ok w
walk (bit ∷ bits) w = do w' ← step bit w; walk bits w'

-- The digits of octets.
unfoldable pub octet_bits : List ℕ → List ℕ
octet_bits [] = []
octet_bits (b ∷ bs) = bits_of 8 b ++ octet_bits bs

pub walk-append : (xs ys : List ℕ) (w : Walk) → walk (xs ++ ys) w ≡ (walk xs w >>= walk ys)
unfolding walk ◌>>=◌
walk-append [] ys w = refl
walk-append (x ∷ xs) ys w =
    >>=_cong (step x w) _ (λ w'. walk xs w' >>= walk ys) (λ w'. walk-append xs ys w')
    ∙ sym (>>=_assoc (step x w) (walk xs) (walk ys))

walk_bits-walk : (i b : ℕ) (w : Walk) → walk_bits i b w ≡ walk (bits_of i b) w
unfolding walk_bits walk bits_of
walk_bits-walk zero b w = refl
walk_bits-walk (suc i) b w = >>=_cong (step (b / 2 ^ i % 2) w) _ _ (walk_bits-walk i b)

pub walk_bytes-walk : (input : List ℕ) (w : Walk) → walk_bytes input w ≡ walk (octet_bits input) w
unfolding walk_bytes octet_bits walk
walk_bytes-walk [] w = refl
walk_bytes-walk (b ∷ input) w =
    ap (λ m. m >>= walk_bytes input) (walk_bits-walk 8 b w)
    ∙ >>=_cong (walk (bits_of 8 b) w) _ _ (walk_bytes-walk input)
    ∙ sym (walk-append (bits_of 8 b) (octet_bits input) w)

pub octet_bits-append : (xs ys : List ℕ) → octet_bits (xs ++ ys) ≡ octet_bits xs ++ octet_bits ys
unfolding octet_bits
octet_bits-append [] ys = refl
octet_bits-append (x ∷ xs) ys =
    ap (◌++◌ (bits_of 8 x)) (octet_bits-append xs ys)
    ∙ sym (append_assoc (bits_of 8 x) (octet_bits xs) (octet_bits ys))

low_octet : (x : ℕ) → bits_of 8 (bit_and x 0xff) ≡ bits_of 8 x
low_octet x = ap (bits_of 8) (and_ones_lem 8 x) ∙ bits_of-mod 8 8 x (omega arith)

regroup : (m q r l : ℕ) → (m * q + r) * l ≡ q * (m * l) + r * l
regroup m q r l = grind arith

mul-mod-mul : (a m l : ℕ) → 0 < m → 0 < l → a * l % (m * l) ≡ a % m * l
mul-mod-mul a m l hm hl =
    ap (λ n. n * l % (m * l)) (sym (div-add-mod a m))
    ∙ ap (λ n. n % (m * l)) (regroup m (a / m) (a % m) l)
    ∙ mul-add-mod_self_right (a / m) (m * l) (a % m * l)
    ∙ mod-eq_of_lt (mul-lt-mul_of_pos_right (mod-lt a hm) hl)

mod_shifted : (acc len : ℕ) → len ≤ 64 → acc * 2 ^ len % 2 ^ 64 ≡ acc % 2 ^ (64 - len) * 2 ^ len
mod_shifted acc len h =
    ap (λ n. acc * 2 ^ len % n)
      (ap (λ n. 2 ^ n) {x = 64} (omega (arith, h)) ∙ pow_add (64 - len) len)
    ∙ mul-mod-mul acc (2 ^ (64 - len)) (2 ^ len) (pow_pos (64 - len)) (pow_pos len)

-- The octets taken off `acc` and the bits left of it are its digits.
whole_octets-bits :
    (fuel acc bits : ℕ)
    → bits ≤ fuel
    → (octet_bits (whole_octets fuel acc bits).0 ++ bits_of (whole_octets fuel acc bits).1 acc
        ≡ bits_of bits acc)
      × ((whole_octets fuel acc bits).1 < 8)
unfolding whole_octets octet_bits
whole_octets-bits zero acc bits h = (refl, omega arith)
whole_octets-bits (suc fuel) acc bits h = elim (Bool-cases (leb 8 bits)) [
  | inl e ↦
      let (same, small) = whole_octets-bits fuel acc (bits - 8) (omega arith) in
      rw e (pieces (leb→le 8 bits e) same, small)
  | inr e ↦ rw e (refl, ground (arith, e))
]
  where
    pieces :
        8 ≤ bits
        → octet_bits (whole_octets fuel acc (bits - 8)).0
            ++ bits_of (whole_octets fuel acc (bits - 8)).1 acc
          ≡ bits_of (bits - 8) acc
        → octet_bits (bit_and (acc / 2 ^ (bits - 8)) 0xff ∷ (whole_octets fuel acc (bits - 8)).0)
            ++ bits_of (whole_octets fuel acc (bits - 8)).1 acc
          ≡ bits_of bits acc
    pieces many same =
        append_assoc (bits_of 8 (bit_and (acc / 2 ^ (bits - 8)) 0xff)) _ _
        ∙ ap₂ ◌++◌ (low_octet (acc / 2 ^ (bits - 8))) same
        ∙ sym (bits_of-add 8 (bits - 8) acc)
        ∙ ap (λ n. bits_of n acc) (omega (arith, many))

-- The digits written and those pending.
unfoldable pub pending_bits : Pending → List ℕ
pending_bits p = octet_bits p.out ++ bits_of p.bits p.acc

-- An accumulator after a shift by `len` and an entry below it.
shifted :
    (acc len code : ℕ)
    → len ≤ 64
    → code < 2 ^ len
    → bit_or (acc * 2 ^ len % 2 ^ 64) code ≡ acc % 2 ^ (64 - len) * 2 ^ len + code
shifted acc len code h small =
    ap (λ n. bit_or n code) (mod_shifted acc len h)
    ∙ or_shifted_lem len (acc % 2 ^ (64 - len)) code small

shifted-bits :
    (bits acc len code : ℕ)
    → bits + len ≤ 64
    → code < 2 ^ len
    → bits_of (bits + len) (bit_or (acc * 2 ^ len % 2 ^ 64) code)
      ≡ bits_of bits acc ++ bits_of len code
shifted-bits bits acc len code h small =
    ap (bits_of (bits + len)) (shifted acc len code (omega arith) small)
    ∙ bits_of-add bits len _
    ∙ ap₂ ◌++◌ high low
  where
    a : ℕ
    a = acc % 2 ^ (64 - len)

    high : bits_of bits ((a * 2 ^ len + code) / 2 ^ len) ≡ bits_of bits acc
    high =
        ap (bits_of bits)
          (mul-add-div_right (pow_pos len) a code ∙ ap (◌+◌ a) (div-eq_of_lt small) ∙ omega arith)
        ∙ bits_of-mod bits (64 - len) acc (omega arith)

    low : bits_of len (a * 2 ^ len + code) ≡ bits_of len code
    low = ap (bits_of len) (grind arith) ∙ bits_of-multiple len len a code (omega arith)

pub add_symbol-bits :
    (code len : ℕ) (p : Pending)
    → p.bits < 8
    → len ≤ 56
    → code < 2 ^ len
    → (pending_bits (add_symbol (some (code, len)) p) ≡ pending_bits p ++ bits_of len code)
      × ((add_symbol (some (code, len)) p).bits < 8)
unfolding pending_bits add_symbol
add_symbol-bits code len p h hl small =
    let total = p.bits + len in
    let acc = bit_or (p.acc * 2 ^ len % 2 ^ 64) code in
    let (same, few) = whole_octets-bits total acc total (omega arith) in
    (
      ap (λ os. os ++ bits_of (whole_octets total acc total).1 acc)
            (octet_bits-append p.out (whole_octets total acc total).0)
          ∙ append_assoc (octet_bits p.out) _ _
          ∙ ap (◌++◌ (octet_bits p.out))
              (same ∙ shifted-bits p.bits p.acc len code (omega (arith, h, hl)) small)
          ∙ sym (append_assoc (octet_bits p.out) _ _),
      few,
    )

-- The padding behind `b` pending digits.
unfoldable pub padding : ℕ → List ℕ
padding zero = []
padding (suc b) = bits_of (8 - suc b) (2 ^ (8 - suc b) - 1)

pub padded_octet-bits :
    (acc b : ℕ) → b < 8 → octet_bits (padded_octet acc b) ≡ bits_of b acc ++ padding b
unfolding octet_bits padded_octet padding bits_of
padded_octet-bits acc zero h = refl
padded_octet-bits acc (suc b) h =
    append-nil _
    ∙ low_octet _
    ∙ ap (λ n. bits_of n (bit_or (acc * 2 ^ (8 - suc b) % 2 ^ 64) (2 ^ (8 - suc b) - 1))) {x = 8}
        (omega (arith, h))
    ∙ shifted-bits (suc b) acc (8 - suc b) (2 ^ (8 - suc b) - 1) (omega (arith, h))
        (omega (arith, pow_pos (8 - suc b)))

-- The digits of an entry of the code table.
unfoldable pub entry_bits : Option (ℕ × ℕ) → List ℕ
entry_bits none = []
entry_bits (some (code, len)) = bits_of len code

unfoldable pub entry_fits : Option (ℕ × ℕ) → Bool
entry_fits none = false
entry_fits (some (code, len)) = leb len 56 && ltb code (2 ^ len)
