-- ===== src/Base/Bytes.antt =====
-- Big-endian words, byte strings and machine widths.
use Prim.Native.Nat.{ℕ, ◌+◌, ◌*◌, ◌/◌, ◌%◌, ◌^◌, ◌<◌}
use Prim.Native.Char.{code}
use Prim.Native.String.{String}
use mathlib.Core.Path.{◌≡◌}
use mathlib.Core.Option.{Option, none, some}
use mathlib.Core.List.{List, [], ◌∷◌}
use native.Mathlib.Omega.{arith}
use flux_parsing_daemon.Base.Tests.{ltb, if◌then◌else◌}

abbrev pub IsByte : ℕ → Type 0
IsByte b = b < 256

abbrev pub IsU16 : ℕ → Type 0
IsU16 v = v < 2 ^ 16

-- A 64-bit `usize`.
abbrev pub usize_mod : ℕ
usize_mod = 2 ^ 64

-- `usize::checked_add`, `u64::checked_add`
unfoldable pub checked_add : ℕ → ℕ → Option ℕ
checked_add a b = if ltb (a + b) usize_mod then some (a + b) else none

-- `u16::from_be_bytes`, `u32::from_be_bytes`
abbrev pub be16 : ℕ → ℕ → ℕ
be16 a b = a * 256 + b

abbrev pub be32 : ℕ → ℕ → ℕ → ℕ → ℕ
be32 a b c d = ((a * 256 + b) * 256 + c) * 256 + d

-- The bytes of a literal: its code points, since every literal of the program is ASCII.
abbrev pub codes : String → List ℕ
codes String.[] = []
codes (String.◌∷◌ c s) = code c ∷ codes s

-- The wire form of a 16-bit, a 24-bit and a 32-bit number.
abbrev pub to_be16 : ℕ → List ℕ
to_be16 v = v / 256 ∷ v % 256 ∷ []

abbrev pub to_be24 : ℕ → List ℕ
to_be24 v = v / 65536 ∷ v / 256 % 256 ∷ v % 256 ∷ []

abbrev pub to_be32 : ℕ → List ℕ
to_be32 v = v / 16777216 ∷ v / 65536 % 256 ∷ v / 256 % 256 ∷ v % 256 ∷ []

pub be16_div_mod : (v : ℕ) → be16 (v / 256) (v % 256) ≡ v
be16_div_mod v = omega arith

pub be32_div_mod : (v : ℕ) → be32 0 (v / 65536) (v / 256 % 256) (v % 256) ≡ v
be32_div_mod v = omega arith
