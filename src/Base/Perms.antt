-- ===== src/Base/Perms.antt =====
-- Permutations under the list functions of `Lists`.
use mathlib.Core.Path.{◌≡◌, refl, ap, ◌∙◌}
use mathlib.Core.Logic.{∥∥₁_elim, inl, inr, ◌≢◌}
use mathlib.Core.Bool.{Bool, true, false}
use mathlib.Core.Logic.Or
use mathlib.Core.Option.{some}
use Prim.Native.Nat.{ℕ}
use mathlib.Core.List.{List, ◌∷◌, map, Perm, Permᴰ, Perm-prop, Nodup, Nodup-cons, mem-cons}
use mathlib.Core.List.Perm
use native.Mathlib.Omega.{arith}
use native.Mathlib.Nat.{ℕ_set}
use flux_parsing_daemon.Base.Tests.{Bool-cases, ◌==◌, if◌then◌else◌}
use flux_parsing_daemon.Base.Lists.{keep, any, all, find, length}

module _ {ℓ} {A : Type ℓ} (p : A → Bool) where
  keep_yes : (x : A) (l : List A) → p x ≡ true → keep p (x ∷ l) ≡ x ∷ keep p l
  unfolding keep
  keep_yes x l e = rw e

  keep_no : (x : A) (l : List A) → p x ≡ false → keep p (x ∷ l) ≡ keep p l
  unfolding keep
  keep_no x l e = rw e

  keep_cons :
      (x : A) (l m : List A) → Perm (keep p l) (keep p m) → Perm (keep p (x ∷ l)) (keep p (x ∷ m))
  keep_cons x l m h = elim (Bool-cases (p x)) [
    | inl e ↦ rw (keep_yes x l e, keep_yes x m e) (Perm.cons x h)
    | inr e ↦ rw (keep_no x l e, keep_no x m e) h
  ]

  keep_swap : (x y : A) (l : List A) → Perm (keep p (x ∷ y ∷ l)) (keep p (y ∷ x ∷ l))
  keep_swap x y l = elim (Bool-cases (p x)) [
    | inl e ↦ elim (Bool-cases (p y)) [
      | inl f ↦
          rw (keep_yes x (y ∷ l) e, keep_yes y l f, keep_yes y (x ∷ l) f, keep_yes x l e)
            (Perm.swap y x (keep p l))
      | inr f ↦
          rw (keep_yes x (y ∷ l) e, keep_no y l f, keep_no y (x ∷ l) f, keep_yes x l e)
            (Perm.refl _)
    ]
    | inr e ↦ rw (keep_no x (y ∷ l) e) (keep_cons y l (x ∷ l) (rw (keep_no x l e) (Perm.refl _)))
  ]

  keep-permᴰ : {l m : List A} → Permᴰ l m → Perm (keep p l) (keep p m)
  keep-permᴰ Permᴰ.nil = Perm.refl _
  keep-permᴰ (Permᴰ.cons {a = a} {l₁ = l} {l₂ = m} e h) = rw (← e) (keep_cons a l m (keep-permᴰ h))
  keep-permᴰ (Permᴰ.swap {a = a} {b = b} {l = l} e f) = rw (← e, ← f) (keep_swap a b l)
  keep-permᴰ (Permᴰ.trans h k) = Perm.trans (keep-permᴰ h) (keep-permᴰ k)

  pub keep-perm : {l m : List A} → Perm l m → Perm (keep p l) (keep p m)
  keep-perm h = ∥∥₁_elim h Perm-prop keep-permᴰ

  any-permᴰ : {l m : List A} → Permᴰ l m → any p l ≡ any p m
  unfolding any
  any-permᴰ Permᴰ.nil = refl
  any-permᴰ (Permᴰ.cons e h) = cc (e, any-permᴰ h)
  any-permᴰ (Permᴰ.swap {a = a} {b = b} {l = l} e f) = rw (← e, ← f) (ground arith)
  any-permᴰ (Permᴰ.trans h k) = any-permᴰ h ∙ any-permᴰ k

  all-permᴰ : {l m : List A} → Permᴰ l m → all p l ≡ all p m
  unfolding all
  all-permᴰ Permᴰ.nil = refl
  all-permᴰ (Permᴰ.cons e h) = cc (e, all-permᴰ h)
  all-permᴰ (Permᴰ.swap {a = a} {b = b} {l = l} e f) = rw (← e, ← f) (ground arith)
  all-permᴰ (Permᴰ.trans h k) = all-permᴰ h ∙ all-permᴰ k

Bool_set : IsSet Bool
Bool_set = hlevel

module _ {ℓ} {A : Type ℓ} where
  pub any-perm : (p : A → Bool) {l m : List A} → Perm l m → any p l ≡ any p m
  any-perm p h = ∥∥₁_elim h (Bool_set _ _) (any-permᴰ p)

  pub all-perm : (p : A → Bool) {l m : List A} → Perm l m → all p l ≡ all p m
  all-perm p h = ∥∥₁_elim h (Bool_set _ _) (all-permᴰ p)

  length-permᴰ : {l m : List A} → Permᴰ l m → length l ≡ length m
  length-permᴰ Permᴰ.nil = refl
  length-permᴰ (Permᴰ.cons e h) = omega (arith, length-permᴰ h)
  length-permᴰ (Permᴰ.swap e f) = refl
  length-permᴰ (Permᴰ.trans h k) = length-permᴰ h ∙ length-permᴰ k

  pub length-perm : {l m : List A} → Perm l m → length l ≡ length m
  length-perm h = ∥∥₁_elim h (ℕ_set _ _) length-permᴰ

-- A search for a key finds the same element in every order, where the keys are distinct.
module _ {ℓ} {A : Type ℓ} (key : A → ℕ) (k : ℕ) where
  find_swap :
      (a b : A) (l : List A)
      → key a ≢ key b
      → find (λ e. key e == k) (a ∷ b ∷ l) ≡ find (λ e. key e == k) (b ∷ a ∷ l)
  unfolding find
  find_swap a b l ne = ground arith

  pub find-permᴰ :
      {l m : List A}
      → Permᴰ l m
      → Nodup (map key l)
      → find (λ e. key e == k) l ≡ find (λ e. key e == k) m
  find-permᴰ Permᴰ.nil d = refl
  find-permᴰ (Permᴰ.cons {a = a} {l₁ = l} {l₂ = m} e h) d =
      rw (← e) (find_cons a l m (find-permᴰ h (Nodup-cons.0 d).1))
    where
      find_cons :
          (a : A) (l m : List A)
          → find (λ e. key e == k) l ≡ find (λ e. key e == k) m
          → find (λ e. key e == k) (a ∷ l) ≡ find (λ e. key e == k) (a ∷ m)
      find_cons a l m h = unfold find in ap (λ t. if key a == k then some a else t) h
  find-permᴰ (Permᴰ.swap {a = a} {b = b} {l = l} e f) d =
      rw (← e, ← f) (find_swap a b l (λ q. (Nodup-cons.0 d).0 (mem-cons.1 (Or.inl q))))
  find-permᴰ (Permᴰ.trans h k) d =
      find-permᴰ h d ∙ find-permᴰ k (Perm.nodup (Perm.map key ∣ h ∣₁) d)
