-- ===== src/Probe/Inject.antt =====
-- crates/fingerprint-probe/src/inject.rs: inbound headers in the program's own namespace are removed.
pub mod Attach
use flux_parsing_daemon.Base.{
  ◌≡◌, refl, ap, Bool, true, not, inl, inr, List, [], ◌∷◌, keep, all, Bool-cases, arith, ◌≤◌, leb,
  ℕ, ◌+◌, ◌||◌, ◌&&◌, ◌==◌, false,
}
use flux_parsing_daemon.Base.Bytes.{codes}
use flux_parsing_daemon.Base.Text.{lower, is_upper, to_lower, starts_with}
use flux_parsing_daemon.H2.Hpack.StaticTable.{Header}
use flux_parsing_daemon.H2.Http.{
  Seen, fp_prefix, see_header, see_headers, nothing_seen, from_headers,
}
use flux_parsing_daemon.H2.Http.Laws.{see_header-prefixed, profile_of}

-- `FP_PREFIX` of inject.rs
abbrev pub own_prefix : List ℕ
own_prefix = codes "x-fp-"

unfoldable pub is_own : Header → Bool
is_own h = starts_with own_prefix (to_lower h.0)

unfoldable pub strip_inbound : List Header → List Header
strip_inbound headers = keep (λ h. not (is_own h)) headers

pub all-keep : (headers : List Header) → all (λ h. not (is_own h)) (strip_inbound headers) ≡ true
unfolding all keep strip_inbound
all-keep [] = refl
all-keep (h ∷ headers) = elim (Bool-cases (is_own h)) [
  | inl own ↦ rw own (all-keep headers)
  | inr other ↦ rw (other, other) (all-keep headers)
]

see_headers-strip_inbound :
    (headers : List Header) (s : Seen)
    → see_headers (strip_inbound headers) s ≡ see_headers headers s
unfolding see_headers strip_inbound keep
see_headers-strip_inbound [] s = refl
see_headers-strip_inbound (h ∷ headers) s = elim (Bool-cases (is_own h)) [
  | inl own ↦
      rw (own, see_header-prefixed h s (unfold is_own in own)) (see_headers-strip_inbound headers s)
  | inr other ↦ rw other (see_headers-strip_inbound headers (see_header h s))
]

-- A letter in either case.
unfoldable pub is_letter : ℕ → ℕ → Bool
is_letter upper b = b == upper || (b == upper + 32)

-- The names of the namespace, in whatever case they are written.
unfoldable pub is_x_fp : List ℕ → Bool
is_x_fp (x ∷ d ∷ f ∷ p ∷ e ∷ rest) =
    is_letter b'X' x && (d == b'-' && (is_letter b'F' f && (is_letter b'P' p && e == b'-')))
is_x_fp _ = false

letter_lem : (upper b : ℕ) → 65 ≤ upper → upper ≤ 90 → (upper + 32 == lower b) ≡ is_letter upper b
unfolding is_letter lower is_upper
letter_lem upper b h k = ground arith

dash_lem : (b : ℕ) → (b'-' == lower b) ≡ (b == b'-')
unfolding lower is_upper
dash_lem b = ground arith

and_unit : (b : Bool) → b && true ≡ b
and_unit true = refl
and_unit false = refl

and_false : (b : Bool) → b && false ≡ false
and_false true = refl
and_false false = refl

starts_with-is_x_fp : (name : List ℕ) → starts_with own_prefix (to_lower name) ≡ is_x_fp name
unfolding is_x_fp to_lower starts_with
starts_with-is_x_fp [] = refl
starts_with-is_x_fp (x ∷ []) = and_false _
starts_with-is_x_fp (x ∷ d ∷ []) = rw (and_false (b'-' == lower d)) (and_false _)
starts_with-is_x_fp (x ∷ d ∷ f ∷ []) =
    rw (and_false (b'f' == lower f), and_false (b'-' == lower d)) (and_false _)
starts_with-is_x_fp (x ∷ d ∷ f ∷ p ∷ []) =
    rw (and_false (b'p' == lower p), and_false (b'f' == lower f), and_false (b'-' == lower d))
      (and_false _)
starts_with-is_x_fp (x ∷ d ∷ f ∷ p ∷ e ∷ rest) =
    rw
      (
        letter_lem b'X' x (omega arith) (omega arith),
        dash_lem d,
        letter_lem b'F' f (omega arith) (omega arith),
        letter_lem b'P' p (omega arith) (omega arith),
        dash_lem e,
        and_unit (e == b'-'),
      )
      refl

pub is_own-is_x_fp : (h : Header) → is_own h ≡ is_x_fp h.0
unfolding is_own
is_own-is_x_fp h = starts_with-is_x_fp h.0

keep-is_x_fp :
    (headers : List Header) → strip_inbound headers ≡ keep (λ h. not (is_x_fp h.0)) headers
unfolding keep strip_inbound
keep-is_x_fp [] = refl
keep-is_x_fp (h ∷ headers) = rw (is_own-is_x_fp h, keep-is_x_fp headers) refl

pub keep-own : (headers : List Header) → keep is_own headers ≡ keep (λ h. is_x_fp h.0) headers
unfolding keep
keep-own [] = refl
keep-own (h ∷ headers) = rw (is_own-is_x_fp h, keep-own headers) refl

pub keep-other :
    (headers : List Header)
    → keep (λ h. not (is_own h)) headers ≡ keep (λ h. not (is_x_fp h.0)) headers
unfolding strip_inbound
keep-other headers = keep-is_x_fp headers

-- What is left are the headers outside the x-fp- namespace, in whatever case that is written, in their
-- order; and the HTTP profile of them is that of the headers as they came.
pub strip_inbound_lem :
    (headers : List Header)
    → (strip_inbound headers ≡ keep (λ h. not (is_x_fp h.0)) headers)
      × (from_headers (strip_inbound headers) ≡ from_headers headers)
unfolding from_headers
strip_inbound_lem headers =
    (keep-is_x_fp headers, ap profile_of (see_headers-strip_inbound headers nothing_seen))
