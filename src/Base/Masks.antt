-- ===== src/Base/Masks.antt =====
-- `|` and `&` on numbers of any size, and their binary digits.
use Prim.Native.Nat.{
  ℕ, zero, suc, ◌+◌, ◌-◌, ◌*◌, ◌/◌, ◌%◌, ◌^◌, ◌≤◌, ◌<◌, min, max, bit_and, bit_or, digits,
  bit_and-bitwise, bit_or-bitwise,
}
use mathlib.Core.Path.{◌≡◌, refl, sym, ap, ap₂, ◌∙◌, subst}
use mathlib.Core.List.{List, [], ◌∷◌, ◌++◌}
use native.Mathlib.Omega.{arith}
use native.Mathlib.Nat.{
  zero-mod, mod-eq_of_lt, mod-lt, add-mul-mod_self_left, div-add-mod, div-div-eq-div-mul,
  add-mul-div_left, two-pow-succ, add-zero, add-suc, zero-add, suc-add, mul_comm,
}
use flux_parsing_daemon.Base.Lists.{length}

pub pow_pos : (k : ℕ) → 0 < 2 ^ k
pow_pos zero = omega arith
pow_pos (suc k) = omega (arith, pow_pos k)

pub shift_suc : (a k : ℕ) → a * 2 ^ suc k ≡ a * 2 ^ k * 2
shift_suc a k = omega (arith, ap (◌*◌ a) (two-pow-succ k))

pub pow_add : (j k : ℕ) → 2 ^ (j + k) ≡ 2 ^ j * 2 ^ k
pow_add j zero = simp (add-zero) (omega arith)
pow_add j (suc k) = rw add-suc (omega (arith, pow_add j k, shift_suc (2 ^ j) k))

-- The native `|`, with the number of digits to go as fuel.
or_none : (fuel x : ℕ) → x ≤ fuel → digits (λ b. b) max fuel x 0 ≡ x
or_none zero x h = omega arith
or_none (suc fuel) zero h = refl
or_none (suc fuel) (suc x) h = omega (arith, or_none fuel (suc x / 2) (omega arith))

or_shifted :
    (fuel k a b x : ℕ) → x ≡ a * 2 ^ k → b < 2 ^ k → x ≤ fuel → digits (λ b. b) max fuel x b ≡ x + b
or_shifted zero k a b x e hb h = omega arith
or_shifted (suc fuel) k a b zero e hb h = omega arith
or_shifted (suc fuel) zero a b (suc x) e hb h =
    subst (λ (c : ℕ). digits (λ b. b) max (suc fuel) (suc x) c ≡ suc x + c) (sym b_zero)
      (or_none (suc fuel) (suc x) h ∙ omega arith)
  where
    b_zero : b ≡ 0
    b_zero = omega (arith, hb)
or_shifted (suc fuel) (suc k) a b (suc x) e hb h = omega (
  arith,
  or_shifted fuel k a (b / 2) (suc x / 2) (omega (arith, e, shift_suc a k)) (omega (arith, hb))
      (omega arith),
  e,
  shift_suc a k,
)

-- A number shifted left, and another below the bits freed.
pub or_shifted_lem : (k a b : ℕ) → b < 2 ^ k → bit_or (a * 2 ^ k) b ≡ a * 2 ^ k + b
or_shifted_lem k a b hb =
    bit_or-bitwise (a * 2 ^ k) b ∙ or_shifted (a * 2 ^ k) k a b (a * 2 ^ k) refl hb (omega arith)

half_mod : (x k : ℕ) → x % 2 ^ suc k ≡ x / 2 % 2 ^ k * 2 + x % 2
half_mod x k =
    ap (λ (n : ℕ). n % 2 ^ suc k) decomposed
    ∙ (add-mul-mod_self_left (r * 2 + x % 2) (2 ^ suc k) (x / 2 / 2 ^ k) ∙ mod-eq_of_lt small)
  where
    r : ℕ
    r = x / 2 % 2 ^ k

    decomposed : x ≡ (r * 2 + x % 2) + 2 ^ suc k * (x / 2 / 2 ^ k)
    decomposed =
        omega
          (arith, div-add-mod (x / 2) (2 ^ k), ap (λ (n : ℕ). n * (x / 2 / 2 ^ k)) (two-pow-succ k))

    small : r * 2 + x % 2 < 2 ^ suc k
    small = omega (arith, mod-lt (x / 2) (pow_pos k), two-pow-succ k)

and_none : (fuel x : ℕ) → digits (λ b. 0) min fuel x 0 ≡ 0
and_none zero x = refl
and_none (suc fuel) zero = refl
and_none (suc fuel) (suc x) = omega (arith, and_none fuel (suc x / 2))

and_ones : (fuel k x : ℕ) → x ≤ fuel → digits (λ b. 0) min fuel x (2 ^ k - 1) ≡ x % 2 ^ k
and_ones fuel zero x h = and_none fuel x ∙ omega arith
and_ones zero (suc k) x h = sym (ap (λ (n : ℕ). n % 2 ^ suc k) (x_zero h) ∙ zero-mod (2 ^ suc k))
  where
    x_zero : x ≤ 0 → x ≡ 0
    x_zero h = omega arith
and_ones (suc fuel) (suc k) zero h = sym (zero-mod (2 ^ suc k))
and_ones (suc fuel) (suc k) (suc x) h =
    let mask : (2 ^ suc k - 1) / 2 ≡ 2 ^ k - 1 = omega (arith, pow_pos k, two-pow-succ k) in
    let bit : (2 ^ suc k - 1) % 2 ≡ 1 = omega (arith, pow_pos k, two-pow-succ k) in
    rw (mask, bit, and_ones fuel k (suc x / 2) (omega arith), half_mod (suc x) k) (omega arith)

-- A mask of ones.
pub and_ones_lem : (k x : ℕ) → bit_and x (2 ^ k - 1) ≡ x % 2 ^ k
and_ones_lem k x = bit_and-bitwise x (2 ^ k - 1) ∙ and_ones x k x (omega arith)

-- The `k` low binary digits, the highest first.
unfoldable pub bits_of : ℕ → ℕ → List ℕ
bits_of zero n = []
bits_of (suc k) n = n / 2 ^ k % 2 ∷ bits_of k n

pub length-bits_of : (k n : ℕ) → length (bits_of k n) ≡ k
unfolding bits_of
length-bits_of zero n = refl
length-bits_of (suc k) n = omega (arith, length-bits_of k n)

pub bits_of-add : (j k n : ℕ) → bits_of (j + k) n ≡ bits_of j (n / 2 ^ k) ++ bits_of k n
unfolding bits_of
bits_of-add zero k n = rw zero-add refl
bits_of-add (suc j) k n = rw suc-add (ap₂ (λ h t. h % 2 ∷ t) shifted (bits_of-add j k n))
  where
    shifted : n / 2 ^ (j + k) ≡ n / 2 ^ k / 2 ^ j
    shifted =
        ap (λ (p : ℕ). n / p) (pow_add j k ∙ mul_comm (2 ^ j) (2 ^ k))
        ∙ sym (div-div-eq-div-mul n (2 ^ k) (2 ^ j))

regroup : (a b c : ℕ) → a * b * 2 * c ≡ a * (2 * (b * c))
regroup a b c = grind arith

-- A digit below the `m`-th does not change when a multiple of `2 ^ m` is added.
digit_lem : (i m q r : ℕ) → suc i ≤ m → (r + 2 ^ m * q) / 2 ^ i % 2 ≡ r / 2 ^ i % 2
digit_lem i m q r h =
    ap (λ (n : ℕ). (r + n) / 2 ^ i % 2) multiple
    ∙ (ap (λ (n : ℕ). n % 2) (add-mul-div_left r (2 * (2 ^ (m - suc i) * q)) (pow_pos i))
        ∙ omega arith)
  where
    exponent : m ≡ i + suc (m - suc i)
    exponent = omega (arith, h)

    multiple : 2 ^ m * q ≡ 2 ^ i * (2 * (2 ^ (m - suc i) * q))
    multiple =
        ap (λ (n : ℕ). 2 ^ n * q) exponent
        ∙ (ap (λ (n : ℕ). n * q) (pow_add i (suc (m - suc i)) ∙ shift_suc (2 ^ i) (m - suc i))
            ∙ regroup (2 ^ i) (2 ^ (m - suc i)) q)

pub bits_of-multiple : (k m q r : ℕ) → k ≤ m → bits_of k (r + 2 ^ m * q) ≡ bits_of k r
unfolding bits_of
bits_of-multiple zero m q r h = refl
bits_of-multiple (suc i) m q r h =
    ap₂ ◌∷◌ (digit_lem i m q r h) (bits_of-multiple i m q r (omega arith))

pub bits_of-mod : (k m n : ℕ) → k ≤ m → bits_of k (n % 2 ^ m) ≡ bits_of k n
bits_of-mod k m n h =
    sym (bits_of-multiple k m (n / 2 ^ m) (n % 2 ^ m) h)
    ∙ ap (bits_of k) (omega (arith, div-add-mod n (2 ^ m)))
