-- ===== src/H2/Http.antt =====
-- crates/fingerprint-h2/src/http.rs: the HTTP layer of a client's identity.
pub mod Laws
use flux_parsing_daemon.Base.{
  ℕ, zero, suc, ◌+◌, Bool, true, false, not, ◌||◌, List, [], ◌∷◌, ◌++◌, Option, none, some, length,
  keep, any, list_eq, if◌then◌else◌,
}
use flux_parsing_daemon.Base.Bytes.{codes}
use flux_parsing_daemon.Base.Text.{to_lower, starts_with}
use flux_parsing_daemon.H2.Hpack.StaticTable.{Header}

abbrev pub request_scoped : List (List ℕ)
request_scoped = codes "cookie" ∷ codes "referer" ∷ []

abbrev pub fp_prefix : List ℕ
fp_prefix = codes "x-fp-"

pub record HttpProfile : Type 0 where
  pub header_names : List (List ℕ)
  pub header_count : ℕ
  pub has_accept_language : Bool
  pub method : Option (List ℕ)
  pub cookie_header_count : ℕ
  pub has_referer : Bool

unfoldable pub is_pseudo : List ℕ → Bool
is_pseudo name = starts_with (codes ":") name

-- The variables of the loop of `from_headers`.
pub record Seen : Type 0 where
  pub header_names : List (List ℕ)
  pub cookie_header_count : ℕ
  pub has_referer : Bool
  pub has_accept_language : Bool
  pub method : Option (List ℕ)

-- The `match` and the push at the end of the body.
unfoldable pub see_regular : List ℕ → Seen → Seen
see_regular lower s = record {
  header_names = s.header_names ++ (lower ∷ []);
  cookie_header_count =
      if list_eq lower (codes "cookie") then suc s.cookie_header_count else s.cookie_header_count;
  has_referer = if list_eq lower (codes "referer") then true else s.has_referer;
  has_accept_language =
      if list_eq lower (codes "accept-language") then true else s.has_accept_language;
  method = s.method;
}

-- The body of the loop.
unfoldable pub see_header : Header → Seen → Seen
see_header (name, value) s =
    let lower = to_lower name in
    if is_pseudo lower
    then (if list_eq lower (codes ":method") then record s { method = some value } else s)
    else if starts_with fp_prefix lower
    then s
    else see_regular lower s

unfoldable pub see_headers : List Header → Seen → Seen
see_headers [] s = s
see_headers (h ∷ headers) s = see_headers headers (see_header h s)

abbrev pub nothing_seen : Seen
nothing_seen = record {
  header_names = [];
  cookie_header_count = 0;
  has_referer = false;
  has_accept_language = false;
  method = none;
}

unfoldable pub is_comparable : List ℕ → Bool
is_comparable name = not (any (λ r. list_eq r name) request_scoped)

unfoldable pub from_headers : List Header → HttpProfile
from_headers headers =
    let s = see_headers headers nothing_seen in
    record {
      header_names = s.header_names;
      header_count = length (keep is_comparable s.header_names);
      has_accept_language = s.has_accept_language;
      method = s.method;
      cookie_header_count = s.cookie_header_count;
      has_referer = s.has_referer;
    }

unfoldable pub comparable_headers : HttpProfile → List (List ℕ)
comparable_headers p = keep is_comparable p.header_names
