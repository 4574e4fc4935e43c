-- ===== src/Commands/Rules.antt =====
-- The rules on order that `fpd capture` infers from its samples.
use flux_parsing_daemon.Base.{
  ℕ, ◌≤◌, ◌≡◌, refl, sym, arith, true, false, inl, inr, ◌⊎◌, List, [], ◌∷◌, map, length-map, subst,
  some, All, length, all, list_eq, list_eq→eq, list_eq_refl, ltb, ltb→lt, ltb-false→le, Bool-cases,
}
use flux_parsing_daemon.Base.Options.{some_injective}
use flux_parsing_daemon.Probe.Profile.{ClientReport, Order, fixed, permuted, unknown}
use flux_parsing_daemon.Commands.{infer_order, last_report}

-- A rule `fixed` stands for two samples at least, and each is the first.
all_equal :
    (first : List ℕ) (xs : List (List ℕ))
    → all (λ s. list_eq s first) xs ≡ true
    → All (λ v. v ≡ first) xs
unfolding all
all_equal first [] h = tt
all_equal first (x ∷ xs) h = elim (Bool-cases (list_eq x first)) [
  | inl e ↦ (list_eq→eq x first e, all_equal first xs (rw e at h))
  | inr e ↦ cc (rw e at h)
]

infer_order-fixed :
    (first : List ℕ) (samples : List (List ℕ))
    → infer_order (first ∷ samples) ≡ fixed
    → (1 ≤ length samples) × All (λ v. v ≡ first) (first ∷ samples)
unfolding infer_order
infer_order-fixed first samples h = elim (Bool-cases (ltb (length (first ∷ samples)) 2)) [
  | inl e ↦ cc (rw e at h)
  | inr e ↦ elim (Bool-cases (all (λ s. list_eq s first) (first ∷ samples))) [
    | inl f ↦ (
      omega (arith, ltb-false→le (length (first ∷ samples)) 2 e),
      all_equal first (first ∷ samples) f,
    )
    | inr f ↦ cc (rw (e, f) at h)
  ]
]

infer_order-permuted :
    (first : List ℕ) (samples : List (List ℕ))
    → infer_order (first ∷ samples) ≡ permuted
    → (1 ≤ length samples) × (all (λ s. list_eq s first) (first ∷ samples) ≡ false)
unfolding infer_order
infer_order-permuted first samples h = elim (Bool-cases (ltb (length (first ∷ samples)) 2)) [
  | inl e ↦ cc (rw e at h)
  | inr e ↦ elim (Bool-cases (all (λ s. list_eq s first) (first ∷ samples))) [
    | inl f ↦ cc (rw (e, f) at h)
    | inr f ↦ (omega (arith, ltb-false→le (length (first ∷ samples)) 2 e), f)
  ]
]

infer_order-unknown :
    (first : List ℕ) (samples : List (List ℕ))
    → infer_order (first ∷ samples) ≡ unknown
    → length samples ≤ 0
unfolding infer_order
infer_order-unknown first samples h = elim (Bool-cases (ltb (length (first ∷ samples)) 2)) [
  | inl e ↦ omega (arith, ltb→lt (length (first ∷ samples)) 2 e)
  | inr e ↦ elim (Bool-cases (all (λ s. list_eq s first) (first ∷ samples))) [
    | inl f ↦ cc (rw (e, f) at h)
    | inr f ↦ cc (rw (e, f) at h)
  ]
]

last_report-All :
    (P : ClientReport → Type 0) (reports : List ClientReport) {last : ClientReport}
    → All P reports
    → last_report reports ≡ some last
    → P last
unfolding last_report
last_report-All P [] h e = cc
last_report-All P (r ∷ []) h e = subst P (some_injective e) h.0
last_report-All P (r ∷ q ∷ rs) h e = last_report-All P (q ∷ rs) h.1 e

module _ (f : ClientReport → List ℕ) where
  All-map :
      (v : List ℕ) (reports : List ClientReport)
      → All (λ w. w ≡ v) (map f reports)
      → All (λ r. f r ≡ v) reports
  All-map v [] h = tt
  All-map v (r ∷ rs) h = (h.0, All-map v rs h.1)

  -- Under a rule `fixed` each of two samples at least shows what the last does.
  fixed_lem :
      (reports : List ClientReport) {last : ClientReport}
      → last_report reports ≡ some last
      → infer_order (map f reports) ≡ fixed
      → (2 ≤ length reports) × All (λ r. f r ≡ f last) reports
  fixed_lem [] e h = unfold last_report in cc
  fixed_lem (r ∷ rs) {last} e h =
      let (several, same) = infer_order-fixed (f r) (map f rs) h in
      let each : All (λ q. f q ≡ f r) (r ∷ rs) = All-map (f r) (r ∷ rs) same in
      let shown : f last ≡ f r = last_report-All (λ q. f q ≡ f r) (r ∷ rs) each e in
      (
        omega (arith, several, length-map f rs),
        subst (λ (v : List ℕ). All (λ q. f q ≡ v) (r ∷ rs)) (sym shown) each,
      )

  -- The rule for a list that the samples show: none is known from one sample; it is `fixed` where each sample
  -- shows the same, and `permuted` where one differs.
  unfoldable pub IsRule : List ClientReport → List ℕ → Order → Type 0
  IsRule reports v order =
      ((order ≡ unknown) × (length reports ≤ 1))
      ⊎ (((order ≡ fixed) × (2 ≤ length reports) × All (λ r. f r ≡ v) reports)
          ⊎ ((order ≡ permuted) × (2 ≤ length reports) × ¬ (All (λ r. f r ≡ v) reports)))

  matches_first :
      (first : List ℕ) (reports : List ClientReport)
      → All (λ r. f r ≡ first) reports
      → all (λ s. list_eq s first) (map f reports) ≡ true
  unfolding all
  matches_first first [] h = refl
  matches_first first (r ∷ rs) h = rw (h.0, list_eq_refl first) (matches_first first rs h.1)

  All-trans :
      (v w : List ℕ) (reports : List ClientReport)
      → v ≡ w
      → All (λ r. f r ≡ v) reports
      → All (λ r. f r ≡ w) reports
  All-trans v w reports e h = subst (λ (x : List ℕ). All (λ r. f r ≡ x) reports) e h

  pub infer_order-IsRule :
      (reports : List ClientReport) {last : ClientReport}
      → last_report reports ≡ some last
      → IsRule reports (f last) (infer_order (map f reports))
  unfolding IsRule
  infer_order-IsRule [] e = unfold last_report in cc
  infer_order-IsRule (r ∷ rs) {last} e = by_order (infer_order (map f (r ∷ rs))) refl
    where
      by_order : (o : Order) → infer_order (map f (r ∷ rs)) ≡ o → IsRule (r ∷ rs) (f last) o
      by_order unknown h =
          inl (refl, omega (arith, infer_order-unknown (f r) (map f rs) h, length-map f rs))
      by_order fixed h =
          let (several, same) = fixed_lem (r ∷ rs) e h in inr (inl (refl, several, same))
      by_order permuted h =
          let (several, differ) = infer_order-permuted (f r) (map f rs) h in
          inr (
            inr (
              refl,
              omega (arith, several, length-map f rs),
              λ same.
                  let first : f last ≡ f r = sym same.0 in
                  cc (
                    differ,
                    matches_first (f r) (r ∷ rs) (All-trans (f last) (f r) (r ∷ rs) first same),
                  ),
            ))
