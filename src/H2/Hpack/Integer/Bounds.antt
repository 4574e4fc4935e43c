-- ===== src/H2/Hpack/Integer/Bounds.antt =====
-- What a decoded integer can be, on any input.
use flux_parsing_daemon.Base.{
  ℕ, ◌+◌, ◌-◌, ◌*◌, ◌%◌, ◌^◌, ◌≤◌, ◌<◌, ◌≡◌, arith, bit_and, List, [], ◌∷◌, ok, ok_or, ◌>>=◌,
  length, ◌≢◌, stuck,
}
use flux_parsing_daemon.Base.Bits.{pow_le_256}
use flux_parsing_daemon.Base.Bytes.{checked_add}
use flux_parsing_daemon.H2.Hpack.Integer.{decode_loop, decode_first, decode}

-- After `j` octets the shift is 7 * j, and it never reaches 63.
decode_loop_bounds :
    (buf : List ℕ) (value shift consumed j v n : ℕ)
    → shift ≡ 7 * j
    → decode_loop buf value shift consumed ≡ ok (v, n)
    → (v < 2 ^ 64) × (consumed < n) × (n ≤ consumed + length buf) × (n + j ≤ consumed + 9)
unfolding decode_loop checked_add ok_or ◌>>=◌
decode_loop_bounds [] value shift consumed j v n s e = cc
decode_loop_bounds (b ∷ buf) value shift consumed j v n s e = ground (
  arith,
  decode_loop_bounds buf (value + bit_and b 0x7f * 2 ^ shift % 2 ^ 64) (shift + 7) (consumed + 1)
      (j + 1) v n,
)

decode_first_bounds :
    (p : ℕ) (buf : List ℕ) (v n : ℕ)
    → p < 9
    → decode_first p buf ≡ ok (v, n)
    → (v < 2 ^ 64) × (1 ≤ n) × (n ≤ length buf) × (n ≤ 10)
unfolding decode_first
decode_first_bounds p [] v n h e = cc
decode_first_bounds p (b ∷ buf) v n h e =
    ground (arith, pow_le_256 p, decode_loop_bounds buf (bit_and b (2 ^ p - 1)) 0 1 0 v n)

-- A decoded integer fits 64 bits, and it took between one and ten octets, all of them in the buffer.
pub decode_bounds :
    (buf : List ℕ) (p v n : ℕ)
    → decode buf p ≡ ok (v, n)
    → (v < 2 ^ 64) × (1 ≤ n) × (n ≤ length buf) × (n ≤ 10)
unfolding decode
decode_bounds buf p v n e = ground (arith, decode_first_bounds p buf v n)

decode_loop-ne-stuck :
    (buf : List ℕ) (value shift consumed : ℕ) → decode_loop buf value shift consumed ≢ stuck
unfolding decode_loop checked_add ok_or ◌>>=◌
decode_loop-ne-stuck [] value shift consumed e = cc
decode_loop-ne-stuck (b ∷ buf) value shift consumed e = ground (
  arith,
  decode_loop-ne-stuck buf (value + bit_and b 0x7f * 2 ^ shift % 2 ^ 64) (shift + 7) (consumed + 1),
)

decode_first-ne-stuck : (p : ℕ) (buf : List ℕ) → decode_first p buf ≢ stuck
unfolding decode_first
decode_first-ne-stuck p [] e = cc
decode_first-ne-stuck p (b ∷ buf) e =
    ground (arith, decode_loop-ne-stuck buf (bit_and b (2 ^ p - 1)) 0 1)

pub decode-ne-stuck : (buf : List ℕ) (p : ℕ) → decode buf p ≢ stuck
unfolding decode
decode-ne-stuck buf p e = ground (arith, decode_first-ne-stuck p buf)
