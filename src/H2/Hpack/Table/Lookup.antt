-- ===== src/H2/Hpack/Table/Lookup.antt =====
-- The two tables as one index space.
use flux_parsing_daemon.Base.{
  ℕ, zero, suc, ◌-◌, ◌≤◌, ◌<◌, ◌≡◌, refl, ap, ◌∙◌, arith, List, [], ◌∷◌, ◌++◌, ok_or, length,
  get_elem?,
}
use flux_parsing_daemon.H2.Hpack.{bad_index}
use flux_parsing_daemon.H2.Hpack.StaticTable.{Header, static_table}
use flux_parsing_daemon.H2.Hpack.Table.{DynamicTable, lookup}

get_elem?-front :
    (xs ys : List Header) (i : ℕ) → i < length xs → get_elem? (xs ++ ys) i ≡ get_elem? xs i
get_elem?-front [] ys i h = absurd (omega arith)
get_elem?-front (x ∷ xs) ys zero h = refl
get_elem?-front (x ∷ xs) ys (suc i) h = get_elem?-front xs ys i (omega arith)

get_elem?-back :
    (xs ys : List Header) (i : ℕ)
    → length xs ≤ i
    → get_elem? (xs ++ ys) i ≡ get_elem? ys (i - length xs)
get_elem?-back [] ys i h = ap (get_elem? ys) (omega arith)
get_elem?-back (x ∷ xs) ys zero h = absurd (omega arith)
get_elem?-back (x ∷ xs) ys (suc i) h =
    get_elem?-back xs ys i (omega arith) ∙ ap (get_elem? ys) (omega arith)

-- At every index from 1 on, the lookup is the place in the static entries followed by the dynamic ones,
-- or the error `bad_index` where there is none.
pub lookup-append :
    (t : DynamicTable) (i : ℕ)
    → lookup (suc i) t ≡ ok_or (get_elem? (static_table ++ t.entries) i) (bad_index (suc i))
unfolding lookup
lookup-append t i = ground (
  arith,
  get_elem?-front static_table t.entries i,
  get_elem?-back static_table t.entries i,
  same_place,
)
  where
    same_place : suc i - length static_table - 1 ≡ i - length static_table
    same_place = omega arith
