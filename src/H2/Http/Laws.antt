-- ===== src/H2/Http/Laws.antt =====
-- What the HTTP profile reads of the headers, and what it does not.
use flux_parsing_daemon.Base.{
  ℕ, ◌≡◌, refl, ap, ◌∙◌, arith, true, inl, inr, List, [], ◌∷◌, ◌++◌, map, length, keep, list_eq,
  if◌then◌else◌, Bool-cases,
}
use flux_parsing_daemon.Base.Bytes.{codes}
use flux_parsing_daemon.Base.Text.{to_lower, starts_with}
use flux_parsing_daemon.H2.Hpack.StaticTable.{Header}
use flux_parsing_daemon.H2.Http.{
  HttpProfile, Seen, fp_prefix, is_pseudo, see_header, see_headers, nothing_seen, is_comparable,
  from_headers,
}

-- A header that leaves every state alone can be put anywhere.
see_headers-insert :
    (before : List Header) (h : Header) (after : List Header) (s : Seen)
    → ((t : Seen) → see_header h t ≡ t)
    → see_headers (before ++ (h ∷ after)) s ≡ see_headers (before ++ after) s
unfolding see_headers
see_headers-insert [] h after s same = ap (see_headers after) (same s)
see_headers-insert (x ∷ before) h after s same =
    see_headers-insert before h after (see_header x s) same

pub see_header-prefixed :
    (h : Header) (s : Seen) → starts_with fp_prefix (to_lower h.0) ≡ true → see_header h s ≡ s
unfolding see_header is_pseudo
see_header-prefixed h s p = elim (Bool-cases (starts_with (codes ":") (to_lower h.0))) [
  | inl pseudo ↦ absurd (clash (to_lower h.0) p pseudo)
  | inr regular ↦ rw (regular, p) refl
]
  where
    clash : (n : List ℕ) → starts_with fp_prefix n ≡ true → starts_with (codes ":") n ≡ true → ⊥
    clash [] p q = unfold starts_with in cc
    clash (b ∷ n) p q = unfold starts_with in ground arith

-- The profile of what was seen.
abbrev pub profile_of : Seen → HttpProfile
profile_of s = record {
  header_names = s.header_names;
  header_count = length (keep is_comparable s.header_names);
  has_accept_language = s.has_accept_language;
  method = s.method;
  cookie_header_count = s.cookie_header_count;
  has_referer = s.has_referer;
}

-- A header in the program's own namespace changes no field of the profile, wherever it stands.
pub from_headers-prefixed :
    (before : List Header) (h : Header) (after : List Header)
    → starts_with fp_prefix (to_lower h.0) ≡ true
    → from_headers (before ++ (h ∷ after)) ≡ from_headers (before ++ after)
unfolding from_headers
from_headers-prefixed before h after p =
    ap profile_of (see_headers-insert before h after nothing_seen λ t. see_header-prefixed h t p)

-- The same header with another value, unless it is `:method`.
unfoldable pub with_value : (List ℕ → List ℕ → List ℕ) → Header → Header
with_value g h = (h.0, if list_eq (to_lower h.0) (codes ":method") then h.1 else g h.0 h.1)

see_header-with_value :
    (g : List ℕ → List ℕ → List ℕ) (h : Header) (s : Seen)
    → see_header (with_value g h) s ≡ see_header h s
unfolding see_header with_value
see_header-with_value g h s = elim (Bool-cases (list_eq (to_lower h.0) (codes ":method"))) [
  | inl method ↦ rw method refl
  | inr other ↦ rw other refl
]

see_headers-with_value :
    (g : List ℕ → List ℕ → List ℕ) (headers : List Header) (s : Seen)
    → see_headers (map (with_value g) headers) s ≡ see_headers headers s
unfolding see_headers
see_headers-with_value g [] s = refl
see_headers-with_value g (h ∷ headers) s =
    ap (see_headers (map (with_value g) headers)) (see_header-with_value g h s)
    ∙ see_headers-with_value g headers (see_header h s)

-- The profile reads no header value but that of `:method`.
pub from_headers-with_value :
    (g : List ℕ → List ℕ → List ℕ) (headers : List Header)
    → from_headers (map (with_value g) headers) ≡ from_headers headers
unfolding from_headers
from_headers-with_value g headers = ap profile_of (see_headers-with_value g headers nothing_seen)
