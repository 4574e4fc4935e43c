-- ===== src/Base/Lists.antt =====
-- Lists measured by native numbers: lengths, indices, prefixes, suffixes and ranges.
use Prim.Native.Nat.{ℕ, zero, suc, ◌+◌, ◌-◌, ◌≤◌, ◌<◌}
use mathlib.Core.Path.{◌≡◌, refl, ap, ◌∙◌, sym, subst}
use mathlib.Core.Logic.{inl, inr}
use mathlib.Core.Bool.{Bool, true, false, ◌&&◌}
use mathlib.Core.Option.{Option, none, some}
use mathlib.Core.List.{List, [], ◌∷◌, ◌++◌, map, append-nil}
use native.Mathlib.Omega.{arith}
use flux_parsing_daemon.Base.Tests.{
  leb, ltb, ltb→lt, ltb-false→le, le→leb, if◌then◌else◌, Bool-cases,
}

module _ {ℓ} {A : Type ℓ} where
  abbrev pub length : List A → ℕ
  length [] = 0
  length (x ∷ xs) = suc (length xs)

  abbrev pub get_elem? : List A → ℕ → Option A
  get_elem? [] i = none
  get_elem? (x ∷ xs) zero = some x
  get_elem? (x ∷ xs) (suc i) = get_elem? xs i

  abbrev pub take : ℕ → List A → List A
  take (suc n) (x ∷ xs) = x ∷ take n xs
  take zero xs = []
  take (suc n) [] = []

  abbrev pub drop : ℕ → List A → List A
  drop (suc n) (x ∷ xs) = drop n xs
  drop zero xs = xs
  drop (suc n) [] = []

  -- `xs[start .. start + n]`
  abbrev pub slice : List A → ℕ → ℕ → List A
  slice xs start n = take n (drop start xs)

  abbrev pub is_empty : List A → Bool
  is_empty [] = true
  is_empty (x ∷ xs) = false

  -- `get(start..end)` of a Rust slice: `None` where the range is not inside the slice.
  unfoldable pub get_range : List A → ℕ → ℕ → Option (List A)
  get_range xs start end =
      if leb start end && leb end (length xs) then some (slice xs start (end - start)) else none

  abbrev pub All {κ} : (A → Type κ) → List A → Type κ
  All P [] = Unit {κ}
  All P (x ∷ xs) = P x × All P xs

  unfoldable pub find : (A → Bool) → List A → Option A
  find p [] = none
  find p (x ∷ xs) = if p x then some x else find p xs

  unfoldable pub any : (A → Bool) → List A → Bool
  any p [] = false
  any p (x ∷ xs) = if p x then true else any p xs

  unfoldable pub all : (A → Bool) → List A → Bool
  all p [] = true
  all p (x ∷ xs) = if p x then all p xs else false

  unfoldable pub keep : (A → Bool) → List A → List A
  keep p [] = []
  keep p (x ∷ xs) = let rest = keep p xs in if p x then x ∷ rest else rest

  pub length-append : (xs ys : List A) → length (xs ++ ys) ≡ length xs + length ys
  length-append [] ys = omega arith
  length-append (x ∷ xs) ys = omega (arith, length-append xs ys)

  pub get_elem?-append :
      (xs : List A) (y : A) (ys : List A) → get_elem? (xs ++ y ∷ ys) (length xs) ≡ some y
  get_elem?-append [] y ys = refl
  get_elem?-append (x ∷ xs) y ys = get_elem?-append xs y ys

  pub length-take : (n : ℕ) (xs : List A) → n ≤ length xs → length (take n xs) ≡ n
  length-take (suc n) (x ∷ xs) h = omega (arith, length-take n xs)
  length-take zero xs h = refl
  length-take (suc n) [] h = omega arith

  pub length-take-le : (n : ℕ) (xs : List A) → length (take n xs) ≤ n
  length-take-le (suc n) (x ∷ xs) = omega (arith, length-take-le n xs)
  length-take-le zero xs = omega arith
  length-take-le (suc n) [] = omega arith

  pub length-drop : (n : ℕ) (xs : List A) → length (drop n xs) ≡ length xs - n
  length-drop (suc n) (x ∷ xs) = omega (arith, length-drop n xs)
  length-drop zero xs = omega arith
  length-drop (suc n) [] = omega arith

  pub length-slice : (xs : List A) (a n : ℕ) → a + n ≤ length xs → length (slice xs a n) ≡ n
  length-slice xs a n h = length-take n (drop a xs) (omega (arith, length-drop a xs))

  pub take-append-drop : (n : ℕ) (xs : List A) → take n xs ++ drop n xs ≡ xs
  take-append-drop (suc n) (x ∷ xs) = ap (◌∷◌ x) (take-append-drop n xs)
  take-append-drop zero xs = refl
  take-append-drop (suc n) [] = refl

  pub take-length : (xs ys : List A) → take (length xs) (xs ++ ys) ≡ xs
  take-length [] ys = refl
  take-length (x ∷ xs) ys = ap (◌∷◌ x) (take-length xs ys)

  pub drop-length : (xs ys : List A) → drop (length xs) (xs ++ ys) ≡ ys
  drop-length [] ys = refl
  drop-length (x ∷ xs) ys = drop-length xs ys

  pub take-all : (xs : List A) → take (length xs) xs ≡ xs
  take-all [] = refl
  take-all (x ∷ xs) = ap (◌∷◌ x) (take-all xs)

  pub drop-nil : (n : ℕ) → drop n [] ≡ []
  drop-nil zero = refl
  drop-nil (suc n) = refl

  pub take-nil : (n : ℕ) → take n [] ≡ []
  take-nil zero = refl
  take-nil (suc n) = refl

  pub drop-drop : (a b : ℕ) (xs : List A) → drop a (drop b xs) ≡ drop (b + a) xs
  drop-drop a (suc b) (x ∷ xs) =
      drop-drop a b xs ∙ ap (λ k. drop k (x ∷ xs)) {x = suc (b + a)} (omega arith)
  drop-drop a zero xs = ap (λ k. drop k xs) (omega arith)
  drop-drop a (suc b) [] = drop-nil a ∙ sym (drop-nil _)

  pub drop-take : (a n : ℕ) (xs : List A) → drop a (take n xs) ≡ take (n - a) (drop a xs)
  drop-take (suc a) (suc n) (x ∷ xs) = drop-take a n xs ∙ ap (λ k. take k (drop a xs)) (omega arith)
  drop-take zero n xs = ap (λ k. take k xs) (omega arith)
  drop-take (suc a) zero xs = sym (ap (λ k. take k (drop (suc a) xs)) {y = 0} (omega arith))
  drop-take (suc a) (suc n) [] = sym (take-nil _)

  pub take-take : (a n : ℕ) (xs : List A) → a ≤ n → take a (take n xs) ≡ take a xs
  take-take (suc a) (suc n) (x ∷ xs) h = ap (◌∷◌ x) (take-take a n xs (omega arith))
  take-take zero n xs h = refl
  take-take (suc a) zero xs h = absurd (omega arith)
  take-take (suc a) (suc n) [] h = refl

  -- A range of a range is a range of the whole.
  pub slice-slice :
      (xs : List A) (a n b m : ℕ) → b + m ≤ n → slice (slice xs a n) b m ≡ slice xs (a + b) m
  slice-slice xs a n b m h =
      ap (take m) (drop-take b n (drop a xs))
      ∙ take-take m (n - b) (drop b (drop a xs)) (omega arith)
      ∙ ap (take m) (drop-drop b a xs)

  pub slice-split :
      (xs : List A) (a n m : ℕ) → slice xs a (n + m) ≡ slice xs a n ++ slice xs (a + n) m
  slice-split xs a n m =
      split (drop a xs) n ∙ ap (λ ys. take n (drop a xs) ++ take m ys) (drop-drop n a xs)
    where
      split : (ys : List A) (k : ℕ) → take (k + m) ys ≡ take k ys ++ take m (drop k ys)
      split (y ∷ ys) (suc k) =
          ap (λ j. take j (y ∷ ys)) {y = suc (k + m)} (omega arith) ∙ ap (◌∷◌ y) (split ys k)
      split ys zero = ap (λ j. take j ys) (omega arith)
      split [] (suc k) = take-nil _ ∙ sym (take-nil m)

  -- The range behind `front` that covers `xs`.
  pub slice-append :
      (front xs rest : List A) → slice (front ++ (xs ++ rest)) (length front) (length xs) ≡ xs
  slice-append front xs rest =
      ap (take (length xs)) (drop-length front (xs ++ rest)) ∙ take-length xs rest

  -- The range behind `front`, with its ends as numbers.
  pub get_range-append :
      (front xs rest : List A) (n end : ℕ)
      → length xs ≡ n
      → end ≡ length front + n
      → get_range (front ++ (xs ++ rest)) (length front) end ≡ some xs
  unfolding get_range
  get_range-append front xs rest n end h e =
      let w : end - length front ≡ length xs = omega arith in
      rw
        (
          le→leb (length front) end (omega arith),
          le→leb end (length (front ++ (xs ++ rest)))
              (omega (arith, length-append front (xs ++ rest), length-append xs rest)),
          w,
        )
        (ap some (slice-append front xs rest))

  pub get_range-rest :
      (front rest : List A)
      → get_range (front ++ rest) (length front) (length (front ++ rest)) ≡ some rest
  get_range-rest front rest =
      ap (λ r. get_range (front ++ r) (length front) (length (front ++ rest)))
        (sym (append-nil rest))
      ∙ get_range-append front rest [] (length rest) _ refl (length-append front rest)

  pub All-append {κ} : (P : A → Type κ) (xs ys : List A) → All P xs → All P ys → All P (xs ++ ys)
  All-append P [] ys h k = k
  All-append P (x ∷ xs) ys h k = (h.0, All-append P xs ys h.1 k)

module _ {ℓ κ} {A : Type ℓ} {B : Type κ} where
  unfoldable pub filter_map : (A → Option B) → List A → List B
  filter_map f [] = []
  filter_map f (x ∷ xs) =
      let rest = filter_map f xs in elim (f x) [ none ↦ rest | some y ↦ y ∷ rest ]

  pub length-map : (f : A → B) (xs : List A) → length (map f xs) ≡ length xs
  length-map f [] = refl
  length-map f (x ∷ xs) = omega (arith, length-map f xs)

-- An element that fails the test, put anywhere into the list, changes no search and no selection.
module _ {ℓ} {A : Type ℓ} (p : A → Bool) where
  pub find-insert_no :
      (xs : List A) (x : A) (ys : List A) → p x ≡ false → find p (xs ++ x ∷ ys) ≡ find p (xs ++ ys)
  unfolding find
  find-insert_no [] x ys h = rw h
  find-insert_no (z ∷ xs) x ys h = ap (λ t. if p z then some z else t) (find-insert_no xs x ys h)

  pub any-insert_no :
      (xs : List A) (x : A) (ys : List A) → p x ≡ false → any p (xs ++ x ∷ ys) ≡ any p (xs ++ ys)
  unfolding any
  any-insert_no [] x ys h = rw h
  any-insert_no (z ∷ xs) x ys h = ap (λ t. if p z then true else t) (any-insert_no xs x ys h)

  pub keep-insert_no :
      (xs : List A) (x : A) (ys : List A) → p x ≡ false → keep p (xs ++ x ∷ ys) ≡ keep p (xs ++ ys)
  unfolding keep
  keep-insert_no [] x ys h = rw h
  keep-insert_no (z ∷ xs) x ys h = ap (λ t. if p z then z ∷ t else t) (keep-insert_no xs x ys h)

unfoldable pub next_place : Option ℕ → Option ℕ
next_place none = none
next_place (some i) = some (suc i)

-- `Iterator::position`
unfoldable pub position_of {ℓ} : {A : Type ℓ} → (A → Bool) → List A → Option ℕ
unfolding next_place
position_of p [] = none
position_of p (x ∷ xs) = if p x then some 0 else next_place (position_of p xs)

next_place-some :
    (o : Option ℕ) {i : ℕ} → next_place o ≡ some i → (j : ℕ) × (o ≡ some j) × (suc j ≡ i)
unfolding next_place
next_place-some none h = cc
next_place-some (some j) h = (j, refl, cc h)

-- Where a position is found, the element there passes the test.
pub position_of-some {ℓ} :
    {A : Type ℓ} (p : A → Bool) (xs : List A) {i : ℕ}
    → position_of p xs ≡ some i
    → (x : A) × (get_elem? xs i ≡ some x) × (p x ≡ true) × (i < length xs)
unfolding position_of
position_of-some p [] h = cc
position_of-some p (x ∷ xs) {i} h = elim (Bool-cases (p x)) [
  | inl e ↦
      let here : 0 ≡ i = cc (rw e at h) in
      (x, subst (λ k. get_elem? (x ∷ xs) k ≡ some x) here refl, e, omega (arith, here))
  | inr e ↦
      let (j, found, next) = next_place-some (position_of p xs) (rw e at h) in
      let (y, at, passes, inside) = position_of-some p xs found in
      (y, subst (λ k. get_elem? (x ∷ xs) k ≡ some y) next at, passes, omega (arith, next, inside))
]

-- Assignment at an index; out of range it changes nothing.
unfoldable pub set_elem {ℓ} : {A : Type ℓ} → List A → ℕ → A → List A
set_elem [] i y = []
set_elem (x ∷ xs) zero y = y ∷ xs
set_elem (x ∷ xs) (suc i) y = x ∷ set_elem xs i y

-- The last `n` elements.
abbrev pub last {ℓ} : {A : Type ℓ} → ℕ → List A → List A
last n xs = drop (length xs - n) xs

-- `while xs.len() > n { xs.pop_front(); }`. Each round drops an element, so as many rounds as elements are
-- enough.
unfoldable pub pop_front_to {ℓ} : {A : Type ℓ} → ℕ → ℕ → List A → List A
pop_front_to zero n xs = xs
pop_front_to (suc fuel) n xs =
    let rest = pop_front_to fuel n (drop 1 xs) in if ltb n (length xs) then rest else xs

module _ {ℓ} {A : Type ℓ} where
  pub pop_front_to-last :
      (fuel n : ℕ) (xs : List A) → length xs ≤ fuel → pop_front_to fuel n xs ≡ last n xs
  unfolding pop_front_to
  pop_front_to-last zero n xs h = ap (λ k. drop k xs) {x = 0} {y = length xs - n} (omega arith)
  pop_front_to-last (suc fuel) n xs h = elim (Bool-cases (ltb n (length xs))) [
    | inl e ↦ rw e (
        pop_front_to-last fuel n (drop 1 xs)
          (omega (arith, h, length-drop 1 xs, ltb→lt n (length xs) e))
        ∙ drop-drop _ 1 xs
        ∙ ap (λ k. drop k xs) {x = 1 + (length (drop 1 xs) - n)}
            (omega (arith, length-drop 1 xs, ltb→lt n (length xs) e)))
    | inr e ↦ rw e (
        ap (λ k. drop k xs) {x = 0} {y = length xs - n}
          (omega (arith, ltb-false→le n (length xs) e)))
  ]

  pub drop-append_front :
      (n : ℕ) (xs ys : List A) → n ≤ length xs → drop n (xs ++ ys) ≡ drop n xs ++ ys
  drop-append_front zero xs ys h = refl
  drop-append_front (suc n) [] ys h = absurd (omega arith)
  drop-append_front (suc n) (x ∷ xs) ys h = drop-append_front n xs ys (omega arith)

  -- Cutting before an element is added does not change what is left after it.
  pub last-last :
      (n : ℕ) (xs : List A) (y : A) → last n (last n xs ++ (y ∷ [])) ≡ last n (xs ++ (y ∷ []))
  last-last n xs y =
      ap (last n) (sym (drop-append_front front xs (y ∷ []) (omega arith)))
      ∙ drop-drop _ front (xs ++ (y ∷ []))
      ∙ ap (λ k. drop k (xs ++ (y ∷ [])))
          (omega (arith, length-drop front (xs ++ (y ∷ [])), length-append xs (y ∷ [])))
    where
      front : ℕ
      front = length xs - n
