-- ===== src/H2/Hpack/Table/Sized.antt =====
-- What the dynamic table holds: the newest entries that fit.
use flux_parsing_daemon.Base.{
  ℕ, zero, suc, ◌+◌, ◌-◌, ◌≤◌, ◌<◌, ◌≡◌, refl, sym, ap, ◌∙◌, subst, arith, true, false, min, List,
  [], ◌∷◌, ◌++◌, some, inl, inr, length, length-append, ltb, leb, if◌then◌else◌, Bool-cases, lt→ltb,
  ltb→lt,
}
use flux_parsing_daemon.Base.Options.{map_option}
use flux_parsing_daemon.H2.Hpack.StaticTable.{Header}
use flux_parsing_daemon.H2.Hpack.Table.{
  DynamicTable, new, entry_size, pop_back, without_back, evict, evict_to_fit, set_max_size, insert,
  absolute_max_size,
}

unfoldable pub total : List Header → ℕ
total [] = 0
total (e ∷ es) = entry_size e + total es

-- The longest beginning whose sizes sum to at most `max`.
unfoldable pub fit : ℕ → List Header → List Header
fit max [] = []
fit max (e ∷ es) = if leb (entry_size e) max then e ∷ fit (max - entry_size e) es else []

-- The table of a list of entries.
unfoldable pub table_of : ℕ → List Header → DynamicTable
table_of max es = record { entries = es; size = total es; max_size = max }

fit_all : (max : ℕ) (es : List Header) → total es ≤ max → fit max es ≡ es
unfolding fit total
fit_all max [] h = refl
fit_all max (e ∷ es) h = ground (arith, fit_all (max - entry_size e) es)

fit_back :
    (max : ℕ) (es : List Header) (e : Header)
    → max < total (es ++ (e ∷ []))
    → fit max (es ++ (e ∷ [])) ≡ fit max es
unfolding fit total
fit_back max [] e h = ground arith
fit_back max (x ∷ es) e h = ground (arith, fit_back (max - entry_size x) es e)

total_back : (es : List Header) (e : Header) → total (es ++ (e ∷ [])) ≡ total es + entry_size e
unfolding total
total_back [] e = omega arith
total_back (x ∷ es) e = omega (arith, total_back es e)

total-fit : (max : ℕ) (es : List Header) → total (fit max es) ≤ max
unfolding fit total
total-fit max [] = omega arith
total-fit max (e ∷ es) = ground (arith, total-fit (max - entry_size e) es)

pop_back_lem : (es : List Header) (e : Header) → pop_back (es ++ (e ∷ [])) ≡ some (e, es)
unfolding pop_back
pop_back_lem [] e = refl
pop_back_lem (x ∷ []) e = refl
pop_back_lem (x ∷ y ∷ es) e = ap (map_option (λ r. (r.0, x ∷ r.1))) (pop_back_lem (y ∷ es) e)

data Back : List Header → Type 0 where
  empty : Back []
  back : (es : List Header) (e : Header) → Back (es ++ (e ∷ []))

push_Back : (x : Header) {es : List Header} → Back es → Back (x ∷ es)
push_Back x empty = back [] x
push_Back x (back es e) = back (x ∷ es) e

Back-of : (es : List Header) → Back es
Back-of [] = empty
Back-of (x ∷ es) = push_Back x (Back-of es)

evict_stops :
    (fuel max : ℕ) (es : List Header)
    → total es ≤ max
    → evict fuel (table_of max es) ≡ table_of max es
unfolding evict table_of
evict_stops zero max es h = refl
evict_stops (suc fuel) max es h = ground arith

evict_goes :
    (fuel max : ℕ) (es : List Header) (e : Header)
    → max < total (es ++ (e ∷ []))
    → evict (suc fuel) (table_of max (es ++ (e ∷ []))) ≡ evict fuel (table_of max es)
unfolding evict without_back table_of
evict_goes fuel max es e h =
    rw (lt→ltb max (total (es ++ (e ∷ []))) h, pop_back_lem es e)
      (ap (λ n. evict fuel record { entries = es; size = n; max_size = max })
        (omega (arith, total_back es e)))

evict-table_of :
    (fuel max : ℕ) {es : List Header}
    → Back es
    → length es < fuel
    → evict fuel (table_of max es) ≡ table_of max (fit max es)
unfolding fit
evict-table_of zero max b h = absurd (omega arith)
evict-table_of (suc fuel) max empty h = evict_stops (suc fuel) max [] (unfold total in omega arith)
evict-table_of (suc fuel) max (back es e) h = elim (Bool-cases (ltb max (total (es ++ (e ∷ []))))) [
  | inl big ↦
      evict_goes fuel max es e (ltb→lt _ _ big)
      ∙ (evict-table_of fuel max (Back-of es) (omega (arith, length-append es (e ∷ [])))
          ∙ ap (table_of max) (sym (fit_back max es e (ltb→lt _ _ big))))
  | inr fits ↦
      evict_stops (suc fuel) max (es ++ (e ∷ [])) (ground arith)
      ∙ ap (table_of max) (sym (fit_all max (es ++ (e ∷ [])) (ground arith)))
]

-- Eviction leaves the newest entries that fit, and the size is their sum.
pub evict_to_fit-fit :
    (max : ℕ) (es : List Header) → evict_to_fit (table_of max es) ≡ table_of max (fit max es)
unfolding evict_to_fit table_of
evict_to_fit-fit max es = evict-table_of (suc (length es)) max (Back-of es) (omega arith)

insert_big :
    (max : ℕ) (es : List Header) (e : Header)
    → ltb max (entry_size e) ≡ true
    → insert (table_of max es) e ≡ table_of max (fit max (e ∷ es))
unfolding insert table_of fit total
insert_big max es e big = ground arith

insert_small :
    (max : ℕ) (es : List Header) (e : Header)
    → ltb max (entry_size e) ≡ false
    → insert (table_of max es) e ≡ evict_to_fit (table_of max (e ∷ es))
unfolding insert table_of total
insert_small max es e fits =
    rw fits
      (ap (λ n. evict_to_fit record { entries = e ∷ es; size = n; max_size = max }) (omega arith))

insert-fit :
    (max : ℕ) (es : List Header) (e : Header)
    → insert (table_of max es) e ≡ table_of max (fit max (e ∷ es))
insert-fit max es e = elim (Bool-cases (ltb max (entry_size e))) [
  | inl big ↦ insert_big max es e big
  | inr fits ↦ insert_small max es e fits ∙ evict_to_fit-fit max (e ∷ es)
]

set_max_size-fit :
    (max size : ℕ) (es : List Header)
    → set_max_size (table_of max es) size
      ≡ table_of (min size absolute_max_size) (fit (min size absolute_max_size) es)
unfolding set_max_size table_of
set_max_size-fit max size es = evict_to_fit-fit (min size absolute_max_size) es

-- The size is the sum of the entries, within the maximum, which is within the ceiling.
pub record IsSized (t : DynamicTable) : Type 0 where
  pub sum : t.size ≡ total t.entries
  pub within : t.size ≤ t.max_size
  pub ceiling : t.max_size ≤ absolute_max_size

as_table_of : (t : DynamicTable) → t.size ≡ total t.entries → t ≡ table_of t.max_size t.entries
unfolding table_of
as_table_of t h = ap (λ n. record { entries = t.entries; size = n; max_size = t.max_size }) h

fit-IsSized :
    (max : ℕ) (es : List Header) → max ≤ absolute_max_size → IsSized (table_of max (fit max es))
unfolding table_of
fit-IsSized max es h = record { sum = refl; within = total-fit max es; ceiling = h }

-- An insertion into a sized table gives the table of the new entry and the old ones, cut to the longest
-- newest-first beginning that fits the maximum.
pub insert_lem :
    (t : DynamicTable) (e : Header)
    → IsSized t
    → insert t e ≡ table_of t.max_size (fit t.max_size (e ∷ t.entries))
insert_lem t e s = ap (λ u. insert u e) (as_table_of t s.sum) ∙ insert-fit t.max_size t.entries e

-- A size update of a sized table cuts its entries to the longest newest-first beginning that fits the
-- requested size, clamped to the ceiling.
pub set_max_size_lem :
    (t : DynamicTable) (size : ℕ)
    → IsSized t
    → set_max_size t size
      ≡ table_of (min size absolute_max_size) (fit (min size absolute_max_size) t.entries)
set_max_size_lem t size s =
    ap (λ u. set_max_size u size) (as_table_of t s.sum) ∙ set_max_size-fit t.max_size size t.entries

pub new-IsSized : IsSized new
unfolding new total
new-IsSized = record { sum = refl; within = omega arith; ceiling = omega arith }

-- An insertion keeps a table sized.
pub insert-IsSized : (t : DynamicTable) (e : Header) → IsSized t → IsSized (insert t e)
insert-IsSized t e s = subst IsSized (sym (insert_lem t e s)) (fit-IsSized _ _ s.ceiling)

-- A size update, whatever the size, keeps a table sized.
pub set_max_size-IsSized : (t : DynamicTable) (size : ℕ) → IsSized t → IsSized (set_max_size t size)
set_max_size-IsSized t size s =
    subst IsSized (sym (set_max_size_lem t size s)) (fit-IsSized _ _ (omega arith))
