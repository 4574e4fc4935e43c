-- ===== src/H2/Hpack/Decoder/Bounds.antt =====
-- The loop over a header block ends, and what it returns is bounded.
use flux_parsing_daemon.Base.{
  ℕ, ◌≤◌, ◌≡◌, arith, List, ok, on_ok, ok_snd, ok_injective, subst, length,
}
use flux_parsing_daemon.H2.Hpack.Integer.Bounds.{decode_bounds}
use flux_parsing_daemon.H2.Hpack.StaticTable.{Header}
use flux_parsing_daemon.H2.Hpack.Table.{DynamicTable}
use flux_parsing_daemon.H2.Hpack.Table.Sized.{IsSized, insert-IsSized, set_max_size-IsSized}
use flux_parsing_daemon.H2.Hpack.Decoder.{
  Round, literal, inline_name, indexed_name, literal_name, indexed_field, indexed_literal,
  size_update, plain_literal, representation,
}

-- A round consumes an octet at least, keeps the table sized and pushes a header at most.
pub record IsRound (r : Round) : Type 0 where
  pub consumes : 1 ≤ r.used
  pub sized : IsSized r.dynamic
  pub pushes : length r.fields ≤ 1

inline_name-used :
    (buf : List ℕ) (used : ℕ) (s : List ℕ) (n : ℕ) → inline_name buf used ≡ ok (s, n) → used ≤ n
unfolding inline_name
inline_name-used buf used s n e =
    on_ok _ _ e λ rest _ e₁. on_ok _ _ e₁ λ p _ e₂. omega (arith, ok_snd e₂)

indexed_name-used :
    (index used : ℕ) (t : DynamicTable) (s : List ℕ) (n : ℕ)
    → indexed_name index used t ≡ ok (s, n)
    → used ≤ n
unfolding indexed_name
indexed_name-used index used t s n e = on_ok _ _ e λ p _ e₁. omega (arith, ok_snd e₁)

literal_name-used :
    (buf : List ℕ) (index used : ℕ) (t : DynamicTable) (s : List ℕ) (n : ℕ)
    → literal_name buf index used t ≡ ok (s, n)
    → used ≤ n
unfolding literal_name
literal_name-used buf index used t s n e =
    ground (arith, inline_name-used buf used s n, indexed_name-used index used t s n)

literal-used :
    (buf : List ℕ) (bits : ℕ) (t : DynamicTable) (h : Header) (n : ℕ)
    → literal buf bits t ≡ ok (h, n)
    → 1 ≤ n
unfolding literal
literal-used buf bits t h n e = on_ok _ _ e λ p e₁ rest₁. on_ok _ _ rest₁ λ q e₂ rest₂.
    on_ok _ _ rest₂ λ r e₃ rest₃. on_ok _ _ rest₃ λ u e₄ last. omega (
      arith,
      ok_snd last,
      literal_name-used buf p.0 p.1 t q.0 q.1 e₂,
      (decode_bounds buf bits p.0 p.1 e₁).1,
    )

-- What the branches push, where they succeed.
indexed_field-IsRound :
    (rest : List ℕ) (t : DynamicTable) (r : Round)
    → IsSized t
    → indexed_field rest t ≡ ok r
    → IsRound r
unfolding indexed_field
indexed_field-IsRound rest t r s e = on_ok _ _ e λ p e₁ rest₁. on_ok _ _ rest₁ λ h e₂ last.
    subst IsRound (ok_injective last)
      record { consumes = (decode_bounds rest 7 p.0 p.1 e₁).1; sized = s; pushes = omega arith }

indexed_literal-IsRound :
    (rest : List ℕ) (t : DynamicTable) (r : Round)
    → IsSized t
    → indexed_literal rest t ≡ ok r
    → IsRound r
unfolding indexed_literal
indexed_literal-IsRound rest t r s e = on_ok _ _ e λ p e₁ last.
    subst IsRound (ok_injective last) record {
      consumes = literal-used rest 6 t p.0 p.1 e₁;
      sized = insert-IsSized t p.0 s;
      pushes = omega arith;
    }

size_update-IsRound :
    (rest : List ℕ) (t : DynamicTable) (r : Round)
    → IsSized t
    → size_update rest t ≡ ok r
    → IsRound r
unfolding size_update
size_update-IsRound rest t r s e = on_ok _ _ e λ p e₁ last.
    subst IsRound (ok_injective last) record {
      consumes = (decode_bounds rest 5 p.0 p.1 e₁).1;
      sized = set_max_size-IsSized t p.0 s;
      pushes = omega arith;
    }

plain_literal-IsRound :
    (rest : List ℕ) (t : DynamicTable) (r : Round)
    → IsSized t
    → plain_literal rest t ≡ ok r
    → IsRound r
unfolding plain_literal
plain_literal-IsRound rest t r s e = on_ok _ _ e λ p e₁ last.
    subst IsRound (ok_injective last)
      record { consumes = literal-used rest 4 t p.0 p.1 e₁; sized = s; pushes = omega arith }

-- A round that succeeds on a sized table consumes an octet at least, keeps the table sized and pushes one
-- header at most, whatever its branch.
pub representation-IsRound :
    (first : ℕ) (rest : List ℕ) (t : DynamicTable) (r : Round)
    → IsSized t
    → representation first rest t ≡ ok r
    → IsRound r
unfolding representation
representation-IsRound first rest t r s e = ground (
  arith,
  indexed_field-IsRound rest t r s,
  indexed_literal-IsRound rest t r s,
  size_update-IsRound rest t r s,
  plain_literal-IsRound rest t r s,
)
