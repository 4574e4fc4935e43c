-- ===== src/Tls/Grease/Laws.antt =====
-- Which values are GREASE, and what `strip` and `positions` keep of a list.
use flux_parsing_daemon.Base.{
  ℕ, zero, suc, ◌+◌, ◌%◌, ◌<◌, ◌≡◌, refl, ap, ◌∙◌, Bool, true, false, not, List, [], ◌∷◌, ◌==◌, ltb,
  ◌&&◌, arith, length, keep, any, All, Bool-cases, eq→==, ne→==, inl, inr,
}
use flux_parsing_daemon.Base.Bits.{holds_below, holds_below_lem}
use flux_parsing_daemon.Base.Bytes.{IsU16}
use flux_parsing_daemon.Tls.Grease.{is_grease, strip, positions_from, positions}

-- The sixteen values of RFC 8701: 0x0a0a, 0x1a1a, up to 0xfafa.
abbrev pub is_rfc8701 : ℕ → Bool
is_rfc8701 v = v % 0x1010 == 0x0a0a && ltb v 65536

same : Bool → Bool → Bool
same true b = b
same false b = not b

same→eq : (a b : Bool) → same a b ≡ true → a ≡ b
unfolding same
same→eq a b h = ground arith

grease_table : holds_below (λ v. same (is_grease v) (is_rfc8701 v)) 65536 ≡ true
unfolding holds_below same is_grease
grease_table = refl

-- On 16-bit values the bit test accepts exactly the sixteen values of RFC 8701.
pub is_grease-rfc8701 : (v : ℕ) → IsU16 v → is_grease v ≡ is_rfc8701 v
is_grease-rfc8701 v h =
    same→eq (is_grease v) (is_rfc8701 v)
      (holds_below_lem (λ x. same (is_grease x) (is_rfc8701 x)) 65536 grease_table v h)

-- Whether the value at an index is GREASE; none is where the list has ended.
abbrev pub grease_at : List ℕ → ℕ → Bool
grease_at [] i = false
grease_at (v ∷ vs) zero = is_grease v
grease_at (v ∷ vs) (suc i) = grease_at vs i

positions_from-below :
    (k : ℕ) (vs : List ℕ) (i : ℕ) → i < k → any (λ j. j == i) (positions_from k vs) ≡ false
unfolding positions_from any
positions_from-below k [] i h = refl
positions_from-below k (v ∷ vs) i h = ground (arith, positions_from-below (k + 1) vs i)

positions_from-any :
    (k : ℕ) (vs : List ℕ) (i : ℕ) → any (λ j. j == k + i) (positions_from k vs) ≡ grease_at vs i
unfolding positions_from any
positions_from-any k [] i = refl
positions_from-any k (v ∷ vs) zero =
    let below = positions_from-below (k + 1) vs (k + 0) (omega arith) in
    elim (Bool-cases (is_grease v)) [
      | inl e ↦ rw (e, eq→== k (k + 0) (omega arith)) refl
      | inr e ↦ rw (e, below) refl
    ]
positions_from-any k (v ∷ vs) (suc i) =
    let shift : k + suc i ≡ k + 1 + i = omega arith in
    let rest =
      ap (λ n. any (λ j. j == n) (positions_from (k + 1) vs)) shift
      ∙ positions_from-any (k + 1) vs i in
    elim (Bool-cases (is_grease v)) [
      | inl e ↦ rw (e, ne→== k (k + suc i) (λ q. absurd (omega arith))) rest
      | inr e ↦ rw e rest
    ]

length-positions_from :
    (k : ℕ) (vs : List ℕ) → length (strip vs) + length (positions_from k vs) ≡ length vs
unfolding strip keep positions_from
length-positions_from k [] = omega arith
length-positions_from k (v ∷ vs) = ground (arith, length-positions_from (k + 1) vs)

-- `positions` lists exactly the indices that hold GREASE, and `strip` keeps all the other values.
pub positions_exact :
    (vs : List ℕ)
    → ((i : ℕ) → any (λ j. j == i) (positions vs) ≡ grease_at vs i)
      × (length (strip vs) + length (positions vs) ≡ length vs)
unfolding positions
positions_exact vs = (
  λ i.
      ap (λ n. any (λ j. j == n) (positions_from 0 vs)) {x = i} (omega arith)
      ∙ positions_from-any 0 vs i,
  length-positions_from 0 vs,
)

strip-clean : (vs : List ℕ) → All (λ v. is_grease v ≡ false) (strip vs)
unfolding strip keep
strip-clean [] = tt
strip-clean (v ∷ vs) = elim (Bool-cases (is_grease v)) [
  | inl e ↦ rw e (strip-clean vs)
  | inr e ↦ rw e (e, strip-clean vs)
]

strip-All_clean : (vs : List ℕ) → All (λ v. is_grease v ≡ false) vs → strip vs ≡ vs
unfolding strip keep
strip-All_clean [] h = refl
strip-All_clean (v ∷ vs) (h, hs) = rw h (ap (◌∷◌ v) (strip-All_clean vs hs))

-- What `strip` returns holds no GREASE, and a second `strip` changes nothing.
pub strip_clean :
    (vs : List ℕ) → All (λ v. is_grease v ≡ false) (strip vs) × (strip (strip vs) ≡ strip vs)
strip_clean vs = (strip-clean vs, strip-All_clean (strip vs) (strip-clean vs))
