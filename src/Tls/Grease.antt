-- ===== src/Tls/Grease.antt =====
-- crates/fingerprint-core/src/grease.rs: GREASE values, RFC 8701.
pub mod Laws
use flux_parsing_daemon.Base.{
  ℕ, ◌+◌, ◌/◌, ◌%◌, ◌^◌, bit_and, Bool, not, ◌&&◌, List, [], ◌∷◌, keep, ◌==◌, if◌then◌else◌,
}

-- Both bytes equal, low nibble 0xA.
unfoldable pub is_grease : ℕ → Bool
is_grease v =
    let hi = v / 2 ^ 8 % 256 in let lo = bit_and v 0xff % 256 in hi == lo && bit_and lo 0x0f == 0x0a

-- Removes GREASE, preserving the order of what remains.
unfoldable pub strip : List ℕ → List ℕ
strip values = keep (λ v. not (is_grease v)) values

-- `enumerate` and `filter_map` from index `i` on.
unfoldable pub positions_from : ℕ → List ℕ → List ℕ
positions_from i [] = []
positions_from i (v ∷ vs) =
    let rest = positions_from (i + 1) vs in if is_grease v then i ∷ rest else rest

-- Where GREASE sat.
unfoldable pub positions : List ℕ → List ℕ
positions values = positions_from 0 values
