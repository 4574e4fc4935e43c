-- ===== src/Base/Bits.antt =====
-- Masks on a byte as arithmetic; each is a table of at most 256 entries, checked by evaluation.
use Prim.Native.Nat.{ℕ, zero, suc, ◌+◌, ◌-◌, ◌*◌, ◌/◌, ◌%◌, ◌^◌, ◌≤◌, ◌<◌, bit_and, bit_or}
use mathlib.Core.Path.{◌≡◌, refl}
use mathlib.Core.Bool.{Bool, true, false}
use native.Mathlib.Omega.{arith}
use native.Mathlib.Decide.{dec_lt}
use native.Mathlib.Nat.{lt_of_mul-lt-mul_right}
use flux_parsing_daemon.Base.Tests.{if◌then◌else◌, ◌==◌, ==→eq, leb, leb→le}

-- A test holds at every number below a bound; the tables of this library are such facts.
unfoldable pub holds_below : (ℕ → Bool) → ℕ → Bool
holds_below test zero = true
holds_below test (suc bound) = if test bound then holds_below test bound else false

pub holds_below_lem :
    (test : ℕ → Bool) (bound : ℕ)
    → holds_below test bound ≡ true
    → (v : ℕ) → v < bound
    → test v ≡ true
unfolding holds_below
holds_below_lem test zero table v small = absurd (omega arith)
holds_below_lem test (suc bound) table v small = elim (dec_lt v bound) [
  | yes less ↦ holds_below_lem test bound (ground (arith, table)) v less
  | no last ↦ ground (arith, table, at_the_end last)
]
  where
    at_the_end : ¬ (v < bound) → v ≡ bound
    at_the_end last = omega arith

-- Two functions that agree on a table agree below its end.
table_lem :
    (f g : ℕ → ℕ) (n : ℕ) → holds_below (λ x. f x == g x) n ≡ true → (v : ℕ) → v < n → f v ≡ g v
table_lem f g n table v small =
    ==→eq (f v) (g v) (holds_below_lem (λ x. f x == g x) n table v small)

pub and_0x7f : (b : ℕ) → b < 256 → bit_and b 0x7f ≡ b % 128
unfolding holds_below
and_0x7f = table_lem (λ b. bit_and b 0x7f) (λ b. b % 128) 256 refl

pub and_0x80 : (b : ℕ) → b < 256 → bit_and b 0x80 ≡ b / 128 * 128
unfolding holds_below
and_0x80 = table_lem (λ b. bit_and b 0x80) (λ b. b / 128 * 128) 256 refl

pub or_0x80 : (b : ℕ) → b < 128 → bit_or b 0x80 ≡ b + 128
unfolding holds_below
or_0x80 = table_lem (λ b. bit_or b 0x80) (λ b. b + 128) 128 refl

pub pow_le_256 : (p : ℕ) → p < 9 → 2 ^ p ≤ 256
unfolding holds_below
pow_le_256 p h = leb→le _ _ (holds_below_lem (λ q. leb (2 ^ q) 256) 9 refl p h)

prefix_widths : (p : ℕ) → p < 9 → 2 ^ (8 - p) * 2 ^ p ≡ 256
unfolding holds_below
prefix_widths = table_lem (λ q. 2 ^ (8 - q) * 2 ^ q) (λ q. 256) 9 refl

-- For one width, for one value above the prefix, for one value in it.
abbrev low_bits_kept : ℕ → ℕ → ℕ → Bool
low_bits_kept p t u = bit_and (bit_or (t * 2 ^ p) u) (2 ^ p - 1) == u

abbrev kept_under : ℕ → ℕ → Bool
kept_under p t = holds_below (low_bits_kept p t) (2 ^ p)

abbrev kept_at_width : ℕ → Bool
kept_at_width p = holds_below (kept_under p) (2 ^ (8 - p))

every_width : holds_below kept_at_width 9 ≡ true
unfolding holds_below
every_width = refl

-- A value under a prefix, with other bits above it.
pub and_or_prefix :
    (p t u : ℕ)
    → p < 9
    → t * 2 ^ p < 256
    → u < 2 ^ p
    → bit_and (bit_or (t * 2 ^ p) u) (2 ^ p - 1) ≡ u
and_or_prefix p t u hp ht hu =
    let above : t < 2 ^ (8 - p) =
      lt_of_mul-lt-mul_right (2 ^ p) (omega (arith, ht, prefix_widths p hp)) in
    let width : kept_at_width p ≡ true = holds_below_lem kept_at_width 9 every_width p hp in
    let under : kept_under p t ≡ true =
      holds_below_lem (kept_under p) (2 ^ (8 - p)) width t above in
    ==→eq _ _ (holds_below_lem (low_bits_kept p t) (2 ^ p) under u hu)
