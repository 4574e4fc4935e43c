-- ===== src/Probe/Base64.antt =====
-- `base64` of crates/fingerprint-probe/src/admin.rs, by which the admin socket sends the bytes of a
-- ClientHello, and `decode_base64` of crates/fpd/src/tui/source.rs, by which a viewer reads them.
pub mod RoundTrip
use flux_parsing_daemon.Base.{
  ℕ, ◌+◌, ◌-◌, ◌*◌, ◌/◌, ◌%◌, ◌^◌, List, [], ◌∷◌, ◌++◌, none, some, get_elem?, position_of, ltb,
  leb, ◌==◌, if◌then◌else◌,
}
use flux_parsing_daemon.Base.Bytes.{codes}
use flux_parsing_daemon.Base.Options.{unwrap_or}

-- `B64`, and `A` of the decoder.
unfoldable pub b64 : List ℕ
b64 = codes "ABCDEFGHIJKLMNOPQRSTUVWXYZabcdefghijklmnopqrstuvwxyz0123456789+/"

-- `B64[i]`; every index of the program is a remainder by 64.
unfoldable pub b64_at : ℕ → ℕ
unfolding b64
b64_at i = unwrap_or (get_elem? b64 i) 0

-- `n` of a chunk: the three octets lie in disjoint bits.
unfoldable pub group : ℕ → ℕ → ℕ → ℕ
group b0 b1 b2 = b0 * 65536 + b1 * 256 + b2

-- `idx(shift)`
unfoldable pub sextet : ℕ → ℕ → ℕ
sextet n shift = n / 2 ^ shift % 64

-- The four characters of a chunk of `len` octets; an octet that it has not is 0.
unfoldable pub chunk_chars : ℕ → ℕ → ℕ → ℕ → List ℕ
unfolding group sextet b64_at
chunk_chars len b0 b1 b2 =
    let n = group b0 b1 b2 in
    b64_at (sextet n 18)
    ∷ b64_at (sextet n 12)
    ∷ (if ltb 1 len then b64_at (sextet n 6) else b'=')
    ∷ (if ltb 2 len then b64_at (sextet n 0) else b'=')
    ∷ []

-- The loop over `chunks(3)`.
unfoldable pub base64 : List ℕ → List ℕ
unfolding chunk_chars
base64 [] = []
base64 (b0 ∷ []) = chunk_chars 1 b0 0 0
base64 (b0 ∷ b1 ∷ []) = chunk_chars 2 b0 b1 0
base64 (b0 ∷ b1 ∷ b2 ∷ rest) = chunk_chars 3 b0 b1 b2 ++ base64 rest

-- The variables of the loop of the decoder.
pub record Decoding : Type 0 where
  pub acc : ℕ
  pub bits : ℕ
  pub out : List ℕ

-- `(acc << 6) | v` on a `u32`.
unfoldable pub shifted_in : ℕ → ℕ → ℕ
shifted_in acc v = acc * 64 % 2 ^ 32 + v

-- The rest of a round, for a character with the value `v`.
unfoldable pub add_sextet : Decoding → ℕ → Decoding
unfolding shifted_in
add_sextet d v =
    let acc = shifted_in d.acc v in
    let bits = d.bits + 6 in
    if leb 8 bits
    then record { acc = acc; bits = bits - 8; out = d.out ++ (acc / 2 ^ (bits - 8) % 256 ∷ []) }
    else record { acc = acc; bits = bits; out = d.out }

-- A round: `=` is filtered out, and a character outside the alphabet is passed over.
unfoldable pub read_char : Decoding → ℕ → Decoding
unfolding add_sextet position_of b64
read_char d c =
    if c == b'='
    then d
    else elim (position_of (λ a. a == c) b64) [ none ↦ d | some v ↦ add_sextet d v ]

unfoldable pub read_chars : Decoding → List ℕ → Decoding
unfolding read_char
read_chars d [] = d
read_chars d (c ∷ s) = read_chars (read_char d c) s

unfoldable pub decode_base64 : List ℕ → List ℕ
unfolding read_chars
decode_base64 s = (read_chars (record { acc = 0; bits = 0; out = [] }) s).out
