-- ===== src/Base/Options.antt =====
-- `?` on an `Option`, and the defaults of the standard library.
use mathlib.Core.Path.{◌≡◌, refl}
use mathlib.Core.Option.{Option, none, some}
use mathlib.Core.List.{List, [], ◌∷◌}
use Prim.Native.Nat.{ℕ, max, ◌≤◌}
use native.Mathlib.Omega.{arith}
use native.Mathlib.Decide.{dec_le}
use flux_parsing_daemon.Base.Tests.{◌==◌}
use flux_parsing_daemon.Base.Lists.{All, any}
use mathlib.Core.Bool.{Bool, true, false}

infixl 5 ◌>>=◌
abbrev pub ◌>>=◌ {ℓ κ} : {A : Type ℓ} {B : Type κ} → Option A → (A → Option B) → Option B
some a >>= f = f a
none >>= f = none

pub some_injective {ℓ} : {A : Type ℓ} {a b : A} → some a ≡ some b → a ≡ b
some_injective h = cc

-- Inversion of a successful bind.
pub >>=-eq-some {ℓ κ} :
    {A : Type ℓ} {B : Type κ} (m : Option A) (f : A → Option B) {b : B}
    → (m >>= f) ≡ some b
    → (a : A) × (m ≡ some a) × (f a ≡ some b)
>>=-eq-some (some a) f h = (a, refl, h)
>>=-eq-some none f h = cc

-- `unwrap_or`
abbrev pub unwrap_or {ℓ} : {A : Type ℓ} → Option A → A → A
unwrap_or (some a) d = a
unwrap_or none d = d

abbrev pub map_option {ℓ κ} : {A : Type ℓ} {B : Type κ} → (A → B) → Option A → Option B
map_option f (some a) = some (f a)
map_option f none = none

abbrev pub is_some {ℓ} : {A : Type ℓ} → Option A → Bool
is_some (some a) = true
is_some none = false

-- `Iterator::max`
unfoldable pub maximum : List ℕ → Option ℕ
maximum [] = none
maximum (x ∷ xs) = some (unwrap_or (map_option (max x) (maximum xs)) x)

unwrap_or-max : (o : Option ℕ) (x : ℕ) → x ≤ unwrap_or (map_option (max x) o) x
unwrap_or-max (some m) x = omega arith
unwrap_or-max none x = omega arith

All-le_trans : (a b : ℕ) (xs : List ℕ) → a ≤ b → All (λ v. v ≤ a) xs → All (λ v. v ≤ b) xs
All-le_trans a b [] h k = tt
All-le_trans a b (x ∷ xs) h k = (omega arith, All-le_trans a b xs h k.1)

at_most :
    (x k : ℕ) (ys : List ℕ) {m : ℕ}
    → max x k ≡ m
    → any (λ v. v == k) ys ≡ true
    → any (λ v. v == m) (x ∷ ys) ≡ true
unfolding any
at_most x k ys {m} e found = elim (dec_le x k) [
  | yes p ↦ ground (arith, k_is_m p)
  | no p ↦ ground (arith, m_is_x p)
]
  where
    k_is_m : x ≤ k → k ≡ m
    k_is_m p = omega arith

    m_is_x : ¬ (x ≤ k) → x ≡ m
    m_is_x p = omega arith

-- The maximum of a list is an upper bound and an element of it.
pub maximum-eq-some :
    (xs : List ℕ) {m : ℕ}
    → maximum xs ≡ some m
    → All (λ v. v ≤ m) xs × (any (λ v. v == m) xs ≡ true)
unfolding maximum any
maximum-eq-some [] h = cc
maximum-eq-some (x ∷ []) {m} h = ((ground arith, tt), ground arith)
maximum-eq-some (x ∷ y ∷ ys) {m} h =
    let k : ℕ = unwrap_or (map_option (max y) (maximum ys)) y in
    let (bound, found) = maximum-eq-some (y ∷ ys) {m = k} refl in
    let e : max x k ≡ m = cc h in
    ((omega arith, All-le_trans k m (y ∷ ys) (omega arith) bound), at_most x k (y ∷ ys) e found)

pub maximum-eq-none : (xs : List ℕ) → maximum xs ≡ none → xs ≡ []
unfolding maximum
maximum-eq-none [] h = refl
maximum-eq-none (x ∷ xs) h = cc
