-- ===== src/H2/Hpack/RoundTrip/Fields.antt =====
-- The three forms of a field that the encoder writes, under the decoder.
use flux_parsing_daemon.Base.{
  ℕ, suc, ◌+◌, ◌-◌, ◌*◌, ◌^◌, ◌≤◌, ◌<◌, ◌≡◌, refl, sym, ap, ap₂, ◌∙◌, subst, arith, Bool, true, not,
  ◌&&◌, bit_and, List, [], ◌∷◌, ◌++◌, append_assoc, Option, none, some, ok, ok_or, ◌>>=◌, length,
  length-append, get_range, get_range-rest, position_of, position_of-some, list_eq, list_eq→eq,
  le→leb, ◌==◌, ne→==, and_true, not-true,
}
use flux_parsing_daemon.Base.Bits.{holds_below, holds_below_lem}
use flux_parsing_daemon.Base.Options.{map_option}
use flux_parsing_daemon.H2.Hpack.Integer.{encode_integer}
use flux_parsing_daemon.H2.Hpack.Integer.RoundTrip.{decode-encode_integer}
use flux_parsing_daemon.H2.Hpack.StaticTable.{Header, static_table}
use flux_parsing_daemon.H2.Hpack.Table.{DynamicTable, lookup, insert}
use flux_parsing_daemon.H2.Hpack.Encode.{
  encode_string, encode_field, static_index_exact, static_index_name,
}
use flux_parsing_daemon.H2.Hpack.Decoder.{
  inline_name, indexed_name, literal_name, literal, indexed_field, indexed_literal, representation,
}
use flux_parsing_daemon.H2.Hpack.RoundTrip.Strings.{
  encode_integer-first, IsText, string-encode_string,
}

-- The static table by its indices.

length_static : length static_table ≡ 61
unfolding static_table
length_static = refl

-- The entry behind a successful search: its index, and what a lookup finds there.
abbrev pub StaticEntry : (Header → Bool) → ℕ → Type 0
StaticEntry p idx =
    (e : Header) × (p e ≡ true)
    × (1 ≤ idx)
    × (idx ≤ 61)
    × ((t : DynamicTable) → lookup idx t ≡ ok e)

static_entry :
    (p : Header → Bool) (found : Option ℕ) {idx : ℕ}
    → position_of p static_table ≡ found
    → map_option suc found ≡ some idx
    → StaticEntry p idx
unfolding lookup ok_or
static_entry p none e h = cc
static_entry p (some i) {idx} e h =
    let (x, at, holds, inside) = position_of-some p static_table e in
    let next : suc i ≡ idx = cc h in
    let back : suc i - 1 ≡ i = omega arith in
    let small : i < 61 = omega (arith, inside, length_static) in
    (
      x,
      holds,
      omega (arith, next),
      omega (arith, next, small),
      λ t.
          subst (λ k. lookup k t ≡ ok x) next
            (rw
              (
                ne→== (suc i) 0 (λ e. omega (arith, e)),
                le→leb (suc i) (length static_table) (omega (arith, inside)),
                back,
                at,
              )
              refl),
    )

static_index_exact-some :
    (h : Header) {idx : ℕ}
    → static_index_exact h ≡ some idx
    → (1 ≤ idx) × (idx ≤ 61) × ((t : DynamicTable) → lookup idx t ≡ ok h)
unfolding static_index_exact
static_index_exact-some (name, value) e =
    let (found, same, low, high, at) = static_entry _ _ refl e in
    let (names, values) = and_true (list_eq found.0 name) (list_eq found.1 value) same in
    (
      low,
      high,
      λ t.
          at t
          ∙ ap₂ (λ n v. ok (n, v)) (list_eq→eq found.0 name names)
              (list_eq→eq found.1 value values),
    )

static_index_name-some :
    (name : List ℕ) {idx : ℕ}
    → static_index_name name ≡ some idx
    → (1 ≤ idx)
      × (idx ≤ 61)
      × (value : List ℕ) × ((t : DynamicTable) → lookup idx t ≡ ok (name, value))
unfolding static_index_name
static_index_name-some name e =
    let (found, same, low, high, at) = static_entry _ _ refl e in
    (low, high, found.1, λ t. at t ∙ ap (λ n. ok (n, found.1)) (list_eq→eq found.0 name same))

table6 :
    holds_below
      (λ x. (bit_and (1 * 2 ^ 6 + x) 0x80 == 0) && (bit_and (1 * 2 ^ 6 + x) 0xc0 == 0x40))
      (2 ^ 6)
    ≡ true
unfolding holds_below
table6 = refl

table7 : holds_below (λ x. not (bit_and (1 * 2 ^ 7 + x) 0x80 == 0)) (2 ^ 7) ≡ true
unfolding holds_below
table7 = refl

first_octet6 :
    (x : ℕ)
    → x < 2 ^ 6
    → ((bit_and (1 * 2 ^ 6 + x) 0x80 == 0) ≡ true) × ((bit_and (1 * 2 ^ 6 + x) 0xc0 == 0x40) ≡ true)
first_octet6 x h = and_true _ _ (
    holds_below_lem
      (λ y. (bit_and (1 * 2 ^ 6 + y) 0x80 == 0) && (bit_and (1 * 2 ^ 6 + y) 0xc0 == 0x40)) (2 ^ 6)
      table6 x h)

-- What the decoder does with the octets of a field: they are not empty, and the round pushes the field.
abbrev pub Decodes : List ℕ → Header → List ℕ → DynamicTable → Type 0
Decodes field h more t =
    (first : ℕ) × (tail : List ℕ) × (after : DynamicTable) × (field ≡ first ∷ tail)
    × (representation first (field ++ more) t
        ≡ ok record { used = length field; dynamic = after; fields = h ∷ [] })

Decodes-indexed :
    (h : Header) (idx : ℕ) (more : List ℕ) (t : DynamicTable)
    → idx ≤ 61
    → lookup idx t ≡ ok h
    → Decodes (encode_integer idx 7 0x80) h more t
unfolding representation indexed_field ◌>>=◌
Decodes-indexed h idx more t small at =
    let (x, tail, octets, below) = encode_integer-first 7 1 idx (omega arith) in
    (
      1 * 2 ^ 7 + x,
      tail,
      t,
      octets,
      rw
          (
            not-true (bit_and (1 * 2 ^ 7 + x) 0x80 == 0) (holds_below_lem _ (2 ^ 7) table7 x below),
            decode-encode_integer 7 1 idx more (omega arith) (omega arith) (omega arith)
                (omega (arith, small)),
            at,
          )
          refl,
    )

-- A name that stands in `front`, behind the index, or in a table, where `front` is empty.
abbrev pub Named : ℕ → List ℕ → List ℕ → List ℕ → DynamicTable → Type 0
Named idx front rest name t =
    literal_name (encode_integer idx 6 0x40 ++ (front ++ rest)) idx
      (length (encode_integer idx 6 0x40)) t
    ≡ ok (name, length (encode_integer idx 6 0x40) + length front)

literal-wire :
    (idx : ℕ) (front value more : List ℕ) {name : List ℕ} (t : DynamicTable)
    → idx ≤ 61
    → IsText value
    → Named idx front (encode_string value ++ more) name t
    → literal (encode_integer idx 6 0x40 ++ (front ++ (encode_string value ++ more))) 6 t
      ≡ ok (
        (name, value),
        length (encode_integer idx 6 0x40) + length front + length (encode_string value),
      )
unfolding literal ok_or ◌>>=◌
literal-wire idx front value more t small text named =
    rw
      (
        decode-encode_integer 6 1 idx (front ++ rest) (omega arith) (omega arith) (omega arith)
            (omega (arith, small)),
        named,
        behind,
        string-encode_string value more text,
      )
      refl
  where
    prefix : List ℕ
    prefix = encode_integer idx 6 0x40

    rest : List ℕ
    rest = encode_string value ++ more

    behind :
        get_range
          (encode_integer idx 6 0x40 ++ (front ++ (encode_string value ++ more)))
          (length (encode_integer idx 6 0x40) + length front)
          (length (encode_integer idx 6 0x40 ++ (front ++ (encode_string value ++ more))))
        ≡ some (encode_string value ++ more)
    behind =
        ap₂ (λ b u. get_range b u (length b)) (sym (append_assoc prefix front rest))
          (sym (length-append prefix front))
        ∙ get_range-rest (prefix ++ front) rest

Decodes-literal :
    (idx : ℕ) (front value more : List ℕ) {name : List ℕ} (t : DynamicTable)
    → idx ≤ 61
    → IsText value
    → Named idx front (encode_string value ++ more) name t
    → Decodes (encode_integer idx 6 0x40 ++ (front ++ encode_string value)) (name, value) more t
unfolding representation indexed_literal ◌>>=◌
Decodes-literal idx front value more {name} t small text named =
    let (x, tail, octets, below) = encode_integer-first 6 1 idx (omega arith) in
    let (low, high) = first_octet6 x below in
    let prefix : List ℕ = encode_integer idx 6 0x40 in
    let es : List ℕ = encode_string value in
    (
      1 * 2 ^ 6 + x,
      tail ++ (front ++ es),
      insert t (name, value),
      ap (λ o. o ++ (front ++ es)) octets,
      ap (λ b. representation (1 * 2 ^ 6 + x) b t)
            (append_assoc prefix (front ++ es) more ∙ ap (◌++◌ prefix) (append_assoc front es more))
          ∙ rw (low, high, literal-wire idx front value more t small text named) refl
          ∙ ap
              (λ n.
                ok record {
                  used = n;
                  dynamic = insert t (name, value);
                  fields = (name, value) ∷ [];
                })
              {x = length prefix + length front + length es}
              (omega (arith, length-append prefix (front ++ es), length-append front es)),
    )

Named-indexed :
    (idx : ℕ) (rest name v : List ℕ) (t : DynamicTable)
    → 1 ≤ idx
    → lookup idx t ≡ ok (name, v)
    → Named idx [] rest name t
unfolding literal_name indexed_name ◌>>=◌
Named-indexed idx rest name v t low at =
    rw (ne→== idx 0 (λ e. omega (arith, e, low)), at) (ap (λ n. ok (name, n)) (omega arith))

Named-inline :
    (name rest : List ℕ) (t : DynamicTable) → IsText name → Named 0 (encode_string name) rest name t
unfolding literal_name inline_name ok_or ◌>>=◌
Named-inline name rest t text =
    rw
      (
        get_range-rest (encode_integer 0 6 0x40) (encode_string name ++ rest),
        string-encode_string name rest text,
      )
      refl

-- Every form, for the indices found.
pub Decodes-field :
    (name value more : List ℕ) (t : DynamicTable)
    → IsText name
    → IsText value
    → Decodes
        (encode_field (static_index_exact (name, value)) (static_index_name name) (name, value))
        (name, value)
        more
        t
unfolding encode_field encode_integer
Decodes-field name value more t n v =
    by_indices (static_index_exact (name, value)) (static_index_name name) refl refl
  where
    by_indices :
        (exact by_name : Option ℕ)
        → static_index_exact (name, value) ≡ exact
        → static_index_name name ≡ by_name
        → Decodes (encode_field exact by_name (name, value)) (name, value) more t
    by_indices (some idx) by_name e f =
        let (low, high, at) = static_index_exact-some (name, value) e in
        Decodes-indexed (name, value) idx more t high (at t)
    by_indices none (some idx) e f =
        let (low, high, other, at) = static_index_name-some name f in
        Decodes-literal idx [] value more t high v (Named-indexed idx _ name other t low (at t))
    by_indices none none e f =
        Decodes-literal 0 (encode_string name) value more t (omega arith) v
          (Named-inline name _ t n)
