-- ===== src/Base/Sort.antt =====
-- `sort_unstable` on numbers, and that its result does not depend on the order of its input.
use Prim.Native.Nat.{ℕ, ◌≤◌}
use mathlib.Core.Path.{◌≡◌, refl, ◌∙◌}
use mathlib.Core.List.{List, [], ◌∷◌, Perm, Permᴰ}
use mathlib.Core.List.Perm
use mathlib.Core.Logic.{∥∥₁_elim, inl, inr}
use native.Mathlib.Omega.{arith}
use flux_parsing_daemon.Base.Tests.{leb, leb→le, Bool-cases, if◌then◌else◌}
use flux_parsing_daemon.Base.Lists.{All}

unfoldable pub insert_sorted : ℕ → List ℕ → List ℕ
insert_sorted x [] = x ∷ []
insert_sorted x (y ∷ ys) = let rest = insert_sorted x ys in if leb x y then x ∷ y ∷ ys else y ∷ rest

unfoldable pub sort : List ℕ → List ℕ
unfolding insert_sorted
sort [] = []
sort (x ∷ xs) = insert_sorted x (sort xs)

insert_sorted_comm :
    (x y : ℕ) (l : List ℕ)
    → insert_sorted x (insert_sorted y l) ≡ insert_sorted y (insert_sorted x l)
unfolding insert_sorted
insert_sorted_comm x y [] = ground arith
insert_sorted_comm x y (z ∷ l) = ground (arith, insert_sorted_comm x y l)

sort-permᴰ : {xs ys : List ℕ} → Permᴰ xs ys → sort xs ≡ sort ys
unfolding sort
sort-permᴰ Permᴰ.nil = refl
sort-permᴰ (Permᴰ.cons e p) = cc (e, sort-permᴰ p)
sort-permᴰ (Permᴰ.swap {a = a} {b = b} {l = l} e f) = cc (e, f, insert_sorted_comm a b (sort l))
sort-permᴰ (Permᴰ.trans p q) = sort-permᴰ p ∙ sort-permᴰ q

list_set : IsSet (List ℕ)
list_set = hlevel

-- Lists with the same elements, as often, sort to one list.
pub sort-eq_of_perm : {xs ys : List ℕ} → Perm xs ys → sort xs ≡ sort ys
sort-eq_of_perm {xs} {ys} p = ∥∥₁_elim p (list_set (sort xs) (sort ys)) sort-permᴰ

insert_sorted-perm : (x : ℕ) (l : List ℕ) → Perm (insert_sorted x l) (x ∷ l)
unfolding insert_sorted
insert_sorted-perm x [] = Perm.refl (x ∷ [])
insert_sorted-perm x (y ∷ ys) = elim (Bool-cases (leb x y)) [
  | inl e ↦ rw e (Perm.refl (x ∷ y ∷ ys))
  | inr e ↦ rw e (Perm.trans (Perm.cons y (insert_sorted-perm x ys)) (Perm.swap x y ys))
]

pub sort-perm : (l : List ℕ) → Perm (sort l) l
unfolding sort
sort-perm [] = Perm.refl []
sort-perm (x ∷ xs) = Perm.trans (insert_sorted-perm x (sort xs)) (Perm.cons x (sort-perm xs))

-- Ascending order.
abbrev pub IsSorted : List ℕ → Type 0
IsSorted [] = Unit
IsSorted (x ∷ xs) = All (λ y. x ≤ y) xs × IsSorted xs

insert_sorted-All :
    (P : ℕ → Type 0) (x : ℕ) (l : List ℕ) → P x → All P l → All P (insert_sorted x l)
unfolding insert_sorted
insert_sorted-All P x [] h k = (h, tt)
insert_sorted-All P x (y ∷ ys) h k = elim (Bool-cases (leb x y)) [
  | inl e ↦ rw e (h, k)
  | inr e ↦ rw e (k.0, insert_sorted-All P x ys h k.1)
]

All-le_trans : (x y : ℕ) (l : List ℕ) → x ≤ y → All (λ z. y ≤ z) l → All (λ z. x ≤ z) l
All-le_trans x y [] h k = tt
All-le_trans x y (z ∷ l) h k = (omega arith, All-le_trans x y l h k.1)

insert_sorted-IsSorted : (x : ℕ) (l : List ℕ) → IsSorted l → IsSorted (insert_sorted x l)
unfolding insert_sorted
insert_sorted-IsSorted x [] h = (tt, tt)
insert_sorted-IsSorted x (y ∷ ys) h = elim (Bool-cases (leb x y)) [
  | inl e ↦ rw e ((leb→le x y e, All-le_trans x y ys (leb→le x y e) h.0), h)
  | inr e ↦
      rw e (insert_sorted-All (λ z. y ≤ z) x ys (ground arith) h.0, insert_sorted-IsSorted x ys h.1)
]

pub sort-IsSorted : (l : List ℕ) → IsSorted (sort l)
unfolding sort
sort-IsSorted [] = tt
sort-IsSorted (x ∷ xs) = insert_sorted-IsSorted x (sort xs) (sort-IsSorted xs)
