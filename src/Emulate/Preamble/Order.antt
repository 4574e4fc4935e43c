-- ===== src/Emulate/Preamble/Order.antt =====
-- The headers that an emitted preamble carries: their order, and the HTTP profile seen in them.
use flux_parsing_daemon.Base.{
  ℕ, ◌≡◌, refl, sym, ap, ◌∙◌, true, false, inl, inr, List, [], ◌∷◌, ◌++◌, map, append-nil,
  append_assoc, All, none, filter_map, list_eq, list_eq→eq, Bool-cases,
}
use flux_parsing_daemon.Base.Bytes.{codes}
use flux_parsing_daemon.Base.Text.{
  join, split, begin_with, trim, trim_front, front_width, starts_with, to_lower,
}
use flux_parsing_daemon.H2.Headers.{pseudo_letter, pseudo_header_order}
use flux_parsing_daemon.H2.Http.{
  Seen, fp_prefix, is_pseudo, see_regular, see_header, see_headers, nothing_seen, from_headers,
}
use flux_parsing_daemon.H2.Hpack.StaticTable.{Header}
use flux_parsing_daemon.Emulate.Preamble.{pseudo_header, pseudo_headers, value_of}

pub data Pseudo : Type 0 where
  method authority scheme path : Pseudo

abbrev pub letter : Pseudo → List ℕ
letter method = codes "m"
letter authority = codes "a"
letter scheme = codes "s"
letter path = codes "p"

-- An order as profiles store it.
abbrev pub order_text : List Pseudo → List ℕ
order_text order = join (codes ",") (map letter order)

header_of : List ℕ → List ℕ → List ℕ → Pseudo → Header
header_of host sch p method = (codes ":method", codes "GET")
header_of host sch p authority = (codes ":authority", host)
header_of host sch p scheme = (codes ":scheme", sch)
header_of host sch p path = (codes ":path", p)

pseudo_headers-order_text :
    (order : List Pseudo) (host sch p : List ℕ)
    → pseudo_headers (order_text order) host sch p ≡ map (header_of host sch p) order
unfolding pseudo_headers pseudo_header split begin_with trim trim_front front_width starts_with join
    header_of filter_map
pseudo_headers-order_text [] host sch p = refl
pseudo_headers-order_text (method ∷ []) host sch p = refl
pseudo_headers-order_text (authority ∷ []) host sch p = refl
pseudo_headers-order_text (scheme ∷ []) host sch p = refl
pseudo_headers-order_text (path ∷ []) host sch p = refl
pseudo_headers-order_text (method ∷ x ∷ order) host sch p =
    ap (◌∷◌ (codes ":method", codes "GET")) (pseudo_headers-order_text (x ∷ order) host sch p)
pseudo_headers-order_text (authority ∷ x ∷ order) host sch p =
    ap (◌∷◌ (codes ":authority", host)) (pseudo_headers-order_text (x ∷ order) host sch p)
pseudo_headers-order_text (scheme ∷ x ∷ order) host sch p =
    ap (◌∷◌ (codes ":scheme", sch)) (pseudo_headers-order_text (x ∷ order) host sch p)
pseudo_headers-order_text (path ∷ x ∷ order) host sch p =
    ap (◌∷◌ (codes ":path", p)) (pseudo_headers-order_text (x ∷ order) host sch p)

-- A stored header name: lower case, no pseudo-header, and not of the program's own namespace.
pub record IsRegular (name : List ℕ) : Type 0 where
  pub is_lower : to_lower name ≡ name
  pub not_pseudo : is_pseudo name ≡ false
  pub not_own : starts_with fp_prefix name ≡ false

not_eq :
    (name : List ℕ) (other : List ℕ)
    → is_pseudo name ≡ false
    → is_pseudo other ≡ true
    → list_eq name other ≡ false
not_eq name other h k = elim (Bool-cases (list_eq name other)) [
  | inl e ↦ cc (list_eq→eq name other e, h, k)
  | inr e ↦ e
]

pseudo_letter-regular :
    (name value : List ℕ) → is_pseudo name ≡ false → pseudo_letter (name, value) ≡ none
unfolding pseudo_letter is_pseudo starts_with
pseudo_letter-regular name value h =
    rw
      (
        not_eq name (codes ":method") h refl,
        not_eq name (codes ":authority") h refl,
        not_eq name (codes ":scheme") h refl,
        not_eq name (codes ":path") h refl,
      )
      refl

-- The headers of the names, with the values given for them.
abbrev pub with_values : List Header → List (List ℕ) → List Header
with_values values names = map (λ name. (name, value_of values name)) names

letters_regular :
    (values : List Header) (names : List (List ℕ))
    → All IsRegular names
    → filter_map pseudo_letter (with_values values names) ≡ []
unfolding filter_map
letters_regular values [] regular = refl
letters_regular values (name ∷ names) (r, regular) =
    rw (filter_map, pseudo_letter-regular name (value_of values name) r.not_pseudo)
      (letters_regular values names regular)

letters_order :
    (order : List Pseudo) (host sch p : List ℕ) (rest : List Header)
    → filter_map pseudo_letter rest ≡ []
    → filter_map pseudo_letter (map (header_of host sch p) order ++ rest) ≡ map letter order
unfolding filter_map pseudo_letter header_of
letters_order [] host sch p rest none_left = none_left
letters_order (method ∷ order) host sch p rest none_left =
    ap (◌∷◌ (codes "m")) (letters_order order host sch p rest none_left)
letters_order (authority ∷ order) host sch p rest none_left =
    ap (◌∷◌ (codes "a")) (letters_order order host sch p rest none_left)
letters_order (scheme ∷ order) host sch p rest none_left =
    ap (◌∷◌ (codes "s")) (letters_order order host sch p rest none_left)
letters_order (path ∷ order) host sch p rest none_left =
    ap (◌∷◌ (codes "p")) (letters_order order host sch p rest none_left)

pub pseudo_header_order-order_text :
    (order : List Pseudo) (host sch p : List ℕ) (values : List Header) (names : List (List ℕ))
    → All IsRegular names
    → pseudo_header_order (pseudo_headers (order_text order) host sch p ++ with_values values names)
      ≡ order_text order
unfolding pseudo_header_order
pseudo_header_order-order_text order host sch p values names regular =
    ap (λ hs. join (codes ",") (filter_map pseudo_letter (hs ++ with_values values names)))
      (pseudo_headers-order_text order host sch p)
    ∙ ap (join (codes ","))
        (letters_order order host sch p _ (letters_regular values names regular))

-- What the walk over the headers sees.

see_header-pseudo :
    (x : Pseudo) (host sch p : List ℕ) (s : Seen)
    → (see_header (header_of host sch p x) s).header_names ≡ s.header_names
unfolding see_header is_pseudo starts_with to_lower header_of
see_header-pseudo method host sch p s = refl
see_header-pseudo authority host sch p s = refl
see_header-pseudo scheme host sch p s = refl
see_header-pseudo path host sch p s = refl

see_header-regular :
    (name value : List ℕ) (s : Seen)
    → IsRegular name
    → (see_header (name, value) s).header_names ≡ s.header_names ++ (name ∷ [])
unfolding see_header see_regular
see_header-regular name value s r = rw (r.is_lower, r.not_pseudo, r.not_own) refl

see_headers-regular :
    (values : List Header) (names : List (List ℕ)) (s : Seen)
    → All IsRegular names
    → (see_headers (with_values values names) s).header_names ≡ s.header_names ++ names
unfolding see_headers
see_headers-regular values [] s regular = sym (append-nil s.header_names)
see_headers-regular values (name ∷ names) s (r, regular) =
    see_headers-regular values names (see_header (name, value_of values name) s) regular
    ∙ ap (λ seen. seen ++ names) (see_header-regular name (value_of values name) s r)
    ∙ append_assoc s.header_names (name ∷ []) names

see_headers-order :
    (order : List Pseudo) (host sch p : List ℕ) (values : List Header) (names : List (List ℕ))
    (s : Seen)
    → All IsRegular names
    → (see_headers (map (header_of host sch p) order ++ with_values values names) s).header_names
      ≡ s.header_names ++ names
unfolding see_headers
see_headers-order [] host sch p values names s regular = see_headers-regular values names s regular
see_headers-order (x ∷ order) host sch p values names s regular =
    see_headers-order order host sch p values names (see_header (header_of host sch p x) s) regular
    ∙ ap (λ seen. seen ++ names) (see_header-pseudo x host sch p s)

pub header_names-order_text :
    (order : List Pseudo) (host sch p : List ℕ) (values : List Header) (names : List (List ℕ))
    → All IsRegular names
    → (from_headers
        (pseudo_headers (order_text order) host sch p ++ with_values values names)).header_names
      ≡ names
unfolding from_headers
header_names-order_text order host sch p values names regular =
    ap (λ hs. (see_headers (hs ++ with_values values names) nothing_seen).header_names)
      (pseudo_headers-order_text order host sch p)
    ∙ see_headers-order order host sch p values names nothing_seen regular
