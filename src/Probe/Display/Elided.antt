-- ===== src/Probe/Display/Elided.antt =====
-- A list that is shortened for display keeps whole items, as many as fit.
use flux_parsing_daemon.Base.{
  ℕ, suc, ◌+◌, ◌-◌, ◌≤◌, ◌<◌, ◌≡◌, refl, sym, ap, ap₂, subst, ◌∙◌, arith, false, ◌&&◌, ◌||◌,
  and_true, inl, inr, ◌⊎◌, List, [], ◌∷◌, ◌++◌, length, take, keep, ltb, leb, ltb→lt, ==→eq, eq→==,
  lt→ltb, ltb-false→le, ◌==◌, Bool-cases, All,
}
use native.Mathlib.Decide.{dec_lt}
use flux_parsing_daemon.Base.Bytes.{codes}
use flux_parsing_daemon.Base.Text.{decimal, begin_with, join, split}
use flux_parsing_daemon.Probe.Display.{value_budget, char_count, next_width, kept_items, elide_list}

-- The width of items with commas between them, behind `kept` items of `width`.
unfoldable pub width_of : ℕ → ℕ → List (List ℕ) → ℕ
width_of kept width [] = width
width_of kept width (item ∷ items) = width_of (kept + 1) (next_width kept width item) items

-- `k` of the items are kept: they fit, or there is one alone, and the next one would not fit.
record IsKept (kept width : ℕ) (items : List (List ℕ)) (total : ℕ) : Type 0 where
  pub k : ℕ
  pub total_lem : total ≡ kept + k
  pub inside : k ≤ length items
  pub fits : (width_of kept width (take k items) ≤ value_budget) ⊎ (total ≤ 1)
  pub full :
      k < length items → (value_budget < width_of kept width (take (suc k) items)) × (0 < total)

kept_items-IsKept :
    (items : List (List ℕ)) (kept width : ℕ)
    → (width ≤ value_budget) ⊎ (kept ≤ 1)
    → IsKept kept width items (kept_items items kept width)
unfolding kept_items width_of
kept_items-IsKept [] kept width h = record {
  k = 0;
  total_lem = omega arith;
  inside = omega arith;
  fits = h;
  full = λ more. absurd (omega arith);
}
kept_items-IsKept (item ∷ items) kept width h =
    elim (Bool-cases (ltb value_budget (next_width kept width item) && ltb 0 kept)) [
      | inl e ↦
          let (wide, some_kept) =
            and_true (ltb value_budget (next_width kept width item)) (ltb 0 kept) e in
          rw e record {
            k = 0;
            total_lem = omega arith;
            inside = omega arith;
            fits = h;
            full = λ more. (ltb→lt value_budget _ wide, ltb→lt 0 kept some_kept);
          }
      | inr e ↦
          let rest = kept_items-IsKept items (kept + 1) (next_width kept width item) (goes_on e) in
          rw e record {
            k = suc rest.k;
            total_lem = omega (arith, rest.total_lem);
            inside = omega (arith, rest.inside);
            fits = rest.fits;
            full = λ more. rest.full (omega arith);
          }
    ]
  where
    goes_on :
        (ltb value_budget (next_width kept width item) && ltb 0 kept) ≡ false
        → (next_width kept width item ≤ value_budget) ⊎ (kept + 1 ≤ 1)
    goes_on e = elim (Bool-cases (ltb value_budget (next_width kept width item))) [
      | inl f ↦ inr (omega (arith, ltb-false→le 0 kept (rw f at e)))
      | inr f ↦ inl (ltb-false→le value_budget _ f)
    ]

char_count-append : (a b : List ℕ) → char_count (a ++ b) ≡ char_count a + char_count b
unfolding char_count keep
char_count-append [] b = omega arith
char_count-append (c ∷ a) b = elim (Bool-cases (ltb c 0x80 || leb 0xc0 c)) [
  | inl e ↦ rw e (omega (arith, char_count-append a b))
  | inr e ↦ rw e (char_count-append a b)
]

-- The width of the items behind the first.
tail_width : List (List ℕ) → ℕ
tail_width [] = 0
tail_width (item ∷ items) = 1 + char_count item + tail_width items

width_of-tail_width :
    (items : List (List ℕ)) (kept width : ℕ)
    → 0 < kept
    → width_of kept width items ≡ width + tail_width items
unfolding width_of tail_width next_width
width_of-tail_width [] kept width h = omega arith
width_of-tail_width (item ∷ items) kept width h =
    rw (lt→ltb 0 kept h) (
      width_of-tail_width items (kept + 1) (width + char_count item + 1) (omega arith)
      ∙ omega arith)

char_count-join :
    (item : List ℕ) (items : List (List ℕ))
    → char_count (join (codes ",") (item ∷ items)) ≡ char_count item + tail_width items
unfolding join tail_width char_count keep
char_count-join item [] = omega arith
char_count-join item (next ∷ items) =
    char_count-append item (codes "," ++ join (codes ",") (next ∷ items))
    ∙ omega (
      arith,
      char_count-append (codes ",") (join (codes ",") (next ∷ items)),
      comma,
      char_count-join next items,
    )
  where
    comma : char_count (codes ",") ≡ 1
    comma = refl

width_of-join : (items : List (List ℕ)) → width_of 0 0 items ≡ char_count (join (codes ",") items)
unfolding width_of next_width char_count keep join
width_of-join [] = refl
width_of-join (item ∷ items) =
    width_of-tail_width items 1 (0 + char_count item + 0) (omega arith)
    ∙ omega (arith, char_count-join item items)

-- The parts of a split text, joined again, are the text.
begin_with-join :
    (sep : List ℕ) (b : ℕ) (parts : List (List ℕ))
    → join sep (begin_with b parts) ≡ b ∷ join sep parts
unfolding join begin_with
begin_with-join sep b [] = refl
begin_with-join sep b (part ∷ []) = refl
begin_with-join sep b (part ∷ next ∷ parts) = refl

begin_with-some : (b : ℕ) (parts : List (List ℕ)) → 1 ≤ length (begin_with b parts)
unfolding begin_with
begin_with-some b [] = omega arith
begin_with-some b (part ∷ parts) = omega arith

split-some : (sep : ℕ) (s : List ℕ) → 1 ≤ length (split sep s)
unfolding split
split-some sep [] = omega arith
split-some sep (b ∷ s) = elim (Bool-cases (b == sep)) [
  | inl e ↦ rw e (omega arith)
  | inr e ↦ rw e (begin_with-some b (split sep s))
]

join-nil_front :
    (sep : List ℕ) (parts : List (List ℕ))
    → 1 ≤ length parts
    → join sep ([] ∷ parts) ≡ sep ++ join sep parts
unfolding join
join-nil_front sep [] h = absurd (omega arith)
join-nil_front sep (part ∷ parts) h = refl

join-split : (sep : ℕ) (s : List ℕ) → join (sep ∷ []) (split sep s) ≡ s
unfolding split
join-split sep [] = unfold join in refl
join-split sep (b ∷ s) = elim (Bool-cases (b == sep)) [
  | inl e ↦ rw e (
      join-nil_front (sep ∷ []) (split sep s) (split-some sep s)
      ∙ ap₂ ◌∷◌ (sym (==→eq b sep e)) (join-split sep s))
  | inr e ↦ rw e (begin_with-join (sep ∷ []) b (split sep s) ∙ ap (◌∷◌ b) (join-split sep s))
]

-- No part of a split text has the separator.
split-apart :
    (sep : ℕ) (s : List ℕ)
    → All (λ (part : List ℕ). All (λ b. (b == sep) ≡ false) part) (split sep s)
unfolding split begin_with
split-apart sep [] = (tt, tt)
split-apart sep (b ∷ s) = elim (Bool-cases (b == sep)) [
  | inl e ↦ rw e (tt, split-apart sep s)
  | inr e ↦ rw e (begin_with-apart e (split sep s) (split-apart sep s))
]
  where
    begin_with-apart :
        (b == sep) ≡ false
        → (parts : List (List ℕ))
        → All (λ (part : List ℕ). All (λ c. (c == sep) ≡ false) part) parts
        → All (λ (part : List ℕ). All (λ c. (c == sep) ≡ false) part) (begin_with b parts)
    begin_with-apart e [] h = ((e, tt), tt)
    begin_with-apart e (part ∷ parts) h = ((e, h.0), h.1)

-- A shortened list, `k` of whose items, which have no commas, are kept.
pub record IsElided (value shown : List ℕ) : Type 0 where
  pub items : List (List ℕ)
  pub k : ℕ
  pub whole : join (codes ",") items ≡ value
  pub apart : All (λ (item : List ℕ). All (λ b. (b == b',') ≡ false) item) items
  pub some_kept : (1 ≤ k) × (k ≤ length items)
  pub fits : (char_count (join (codes ",") (take k items)) ≤ value_budget) ⊎ (k ≡ 1)
  pub shows :
      ((k ≡ length items) × (shown ≡ value))
      ⊎ ((k < length items)
          × (value_budget < char_count (join (codes ",") (take (suc k) items)))
          × (shown
              ≡ join (codes ",") (take k items)
                ++ (codes " +" ++ (decimal (length items - k) ++ codes " more"))))

-- A list is shortened to its first items between commas, as many as fit the budget with their commas, one
-- at least, and the number of those left out; where all fit it is left as it is.
pub elide_list-IsElided : (value : List ℕ) → IsElided value (elide_list value)
unfolding elide_list
elide_list-IsElided value =
    let items = split b',' value in
    let kept = kept_items-IsKept items 0 0 (inr (omega arith)) in
    let total : kept_items items 0 0 ≡ kept.k = kept.total_lem ∙ omega arith in
    record {
      items = items;
      k = kept.k;
      whole = join-split b',' value;
      apart = split-apart b',' value;
      some_kept = (at_least_one kept, kept.inside);
      fits = elim kept.fits [
        | inl h ↦ inl (subst (λ n. n ≤ value_budget) (width_of-join (take kept.k items)) h)
        | inr h ↦ inr (omega (arith, at_least_one kept, total))
      ];
      shows = elim (Bool-cases (length items - kept_items items 0 0 == 0)) [
        | inl e ↦ inl (omega (arith, ==→eq _ 0 e, kept.inside, total), rw e refl)
        | inr e ↦
            let more : kept.k < length items = left_out (total) e in
            inr (
              more,
              subst (λ n. value_budget < n) (width_of-join (take (suc kept.k) items))
                  (kept.full more).0,
              rw (e, total) refl,
            )
      ];
    }
  where
    at_least_one :
        (kept : IsKept 0 0 (split b',' value) (kept_items (split b',' value) 0 0)) → 1 ≤ kept.k
    at_least_one kept = elim (dec_lt kept.k (length (split b',' value))) [
      | yes more ↦ omega (arith, (kept.full more).1, kept.total_lem)
      | no all_kept ↦ omega (arith, all_kept, kept.inside, split-some b',' value)
    ]

    left_out : {k total n : ℕ} → total ≡ k → (n - total == 0) ≡ false → k < n
    left_out {k} {total} {n} e h = elim (dec_lt k n) [
      | yes more ↦ more
      | no none_left ↦ cc (eq→== (n - total) 0 (omega (arith, none_left)))
    ]
