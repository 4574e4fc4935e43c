-- ===== src/H2/Hpack/Huffman.antt =====
-- crates/fingerprint-h2/src/hpack/huffman.rs: the decode tree and the decoder of Huffman strings.
pub mod Bits
pub mod Codes
pub mod RoundTrip
use flux_parsing_daemon.Base.{
  ℕ, zero, suc, ◌+◌, ◌/◌, ◌%◌, ◌^◌, Bool, true, false, not, ◌||◌, List, [], ◌∷◌, ◌++◌, Option, none,
  some, Result, ok, err, ◌>>=◌, length, ltb, ◌==◌, if◌then◌else◌,
}
use flux_parsing_daemon.H2.Hpack.{HpackError, bad_huffman}
use flux_parsing_daemon.H2.Hpack.HuffmanTable.{huffman}

abbrev pub eos : ℕ
eos = 256

-- A slot is an `i32`; `negsuc n` is -(n + 1).
pub data ℤ : Type 0 where
  pos negsuc : ℕ → ℤ

-- `[i32; 2]`: the slots of the bits 0 and 1.
pub record Node : Type 0 where
  pub zero_slot : ℤ
  pub one_slot : ℤ

abbrev pub empty_node : Node
empty_node = record { zero_slot = pos 0; one_slot = pos 0 }

abbrev pub slot : Node → ℕ → ℤ
slot n zero = n.zero_slot
slot n (suc bit) = n.one_slot

abbrev pub with_slot : ℕ → ℤ → Node → Node
with_slot zero v n = record n { zero_slot = v }
with_slot (suc bit) v n = record n { one_slot = v }

-- `nodes.get(at).and_then(|n| n.get(bit).copied())`, for a bit
unfoldable pub slot_at : List Node → ℕ → ℕ → Option ℤ
slot_at [] at bit = none
slot_at (n ∷ nodes) zero bit = some (slot n bit)
slot_at (n ∷ nodes) (suc at) bit = slot_at nodes at bit

unfoldable pub set_slot : List Node → ℕ → ℕ → ℤ → List Node
set_slot [] at bit v = []
set_slot (n ∷ nodes) zero bit v = with_slot bit v n ∷ nodes
set_slot (n ∷ nodes) (suc at) bit v = n ∷ set_slot nodes at bit v

-- The child behind a slot, pushed where there is none, with the nodes then.
unfoldable pub child_of : Option ℤ → List Node → ℕ → ℕ → List Node × ℕ
child_of (some (pos (suc next))) nodes at bit = (nodes, suc next)
child_of (some (pos zero)) nodes at bit =
    (set_slot (nodes ++ (empty_node ∷ [])) at bit (pos (length nodes)), length nodes)
child_of (some (negsuc s)) nodes at bit =
    (set_slot (nodes ++ (empty_node ∷ [])) at bit (pos (length nodes)), length nodes)
child_of none nodes at bit =
    (set_slot (nodes ++ (empty_node ∷ [])) at bit (pos (length nodes)), length nodes)

-- The inner loop of `Tree::build`: the bits of `code` below `bits`, from the node `at` on.
unfoldable pub add_code : ℕ → ℕ → ℕ → List Node → ℕ → List Node
add_code zero code symbol nodes at = nodes
add_code (suc zero) code symbol nodes at = set_slot nodes at (code % 2) (negsuc symbol)
add_code (suc (suc i)) code symbol nodes at =
    let bit = code / 2 ^ suc i % 2 in
    let (nodes', at') = child_of (slot_at nodes at bit) nodes at bit in
    add_code (suc i) code symbol nodes' at'

unfoldable pub add_codes : List (ℕ × ℕ) → ℕ → List Node → List Node
add_codes [] symbol nodes = nodes
add_codes ((code, bits) ∷ table) symbol nodes =
    add_codes table (suc symbol) (add_code bits code symbol nodes 0)

-- `Tree::build`
unfoldable pub tree : List Node
tree = add_codes huffman 0 (empty_node ∷ [])

-- The variables of `decode`.
pub record Walk : Type 0 where
  pub at : ℕ
  pub bits_since_symbol : ℕ
  pub padding_is_all_ones : Bool
  pub out : List ℕ

-- What a slot does to the walk.
unfoldable pub follow : Option ℤ → Walk → Result HpackError Walk
follow none w = err bad_huffman
follow (some (pos zero)) w = err bad_huffman
follow (some (pos (suc next))) w = ok (record w { at = suc next })
follow (some (negsuc symbol)) w =
    if symbol == eos
    then err bad_huffman
    else ok record {
      at = 0;
      bits_since_symbol = 0;
      padding_is_all_ones = true;
      out = w.out ++ (symbol % 256 ∷ []);
    }

-- The body of the loops of `decode`, for one bit.
unfoldable pub step : ℕ → Walk → Result HpackError Walk
step bit w = follow (slot_at tree w.at bit) (record w {
  bits_since_symbol = w.bits_since_symbol + 1;
  padding_is_all_ones = if bit == 0 then false else w.padding_is_all_ones;
})

-- The low `i` bits of a byte, the highest first.
unfoldable pub walk_bits : ℕ → ℕ → Walk → Result HpackError Walk
walk_bits zero byte w = ok w
walk_bits (suc i) byte w = do w' ← step (byte / 2 ^ i % 2) w; walk_bits i byte w'

unfoldable pub walk_bytes : List ℕ → Walk → Result HpackError Walk
walk_bytes [] w = ok w
walk_bytes (byte ∷ input) w = do w' ← walk_bits 8 byte w; walk_bytes input w'

abbrev pub start : Walk
start = record { at = 0; bits_since_symbol = 0; padding_is_all_ones = true; out = [] }

unfoldable pub decode : List ℕ → Result HpackError (List ℕ)
decode input = do
  w ← walk_bytes input start
  if ltb 7 w.bits_since_symbol || not w.padding_is_all_ones then err bad_huffman else ok w.out
