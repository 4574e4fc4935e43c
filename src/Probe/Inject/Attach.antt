-- ===== src/Probe/Inject/Attach.antt =====
-- `fp_headers` of crates/fingerprint-probe/src/inject.rs, and the headers that `forward` of serve.rs sends
-- on.
use flux_parsing_daemon.Base.{
  ◌≡◌, refl, ap, ap₂, ◌∙◌, Bool, true, not, inl, inr, List, [], ◌∷◌, ◌++◌, keep, all, Option, none,
  some, Bool-cases,
}
use flux_parsing_daemon.Base.Bytes.{codes}
use flux_parsing_daemon.Base.Text.{join, to_lower, starts_with}
use flux_parsing_daemon.H2.Akamai.{H2Fingerprint}
use flux_parsing_daemon.H2.Hpack.StaticTable.{Header}
use flux_parsing_daemon.H2.Http.{comparable_headers}
use flux_parsing_daemon.Probe.Inject.{is_own, strip_inbound, all-keep}
use flux_parsing_daemon.Probe.Profile.{ClientReport}
use flux_parsing_daemon.Probe.UserAgent.{as_str}
use flux_parsing_daemon.Probe.Verdict.{Scores, Candidate, ClaimMismatch, Identification}

unfoldable pub h2_headers : Option H2Fingerprint → List Header
h2_headers (some h2) =
    (codes "x-fp-h2", h2.akamai)
    ∷ (codes "x-fp-http-headers", join (codes ",") (comparable_headers h2.http))
    ∷ []
h2_headers none = (codes "x-fp-h2", codes "none") ∷ (codes "x-fp-http-headers", []) ∷ []

unfoldable pub mismatch_headers : Option ClaimMismatch → List Header
mismatch_headers (some m) =
    (codes "x-fp-mismatch", codes "true") ∷ (codes "x-fp-claimed", as_str m.claimed) ∷ []
mismatch_headers none = (codes "x-fp-mismatch", codes "false") ∷ []

-- The headers where no report could be built, in `handle` of serve.rs.
abbrev pub unparsed_headers : List Header
unparsed_headers =
    (codes "x-fp-verdict", codes "unparsed")
    ∷ (codes "x-fp-confidence", codes "0.00")
    ∷ (codes "x-fp-mismatch", codes "false")
    ∷ []

-- `forward`: the inbound headers without the own ones, then those attached. `parses` says which of them the
-- HTTP library takes as a header name and value.
unfoldable pub forwarded : (Header → Bool) → List Header → List Header → List Header
forwarded parses inbound fp = keep parses (strip_inbound inbound ++ fp)

module _ (s : Scores) where
  unfoldable pub verdict_headers : Option (Candidate s) → List Header
  verdict_headers (some best) =
      (codes "x-fp-verdict", best.label) ∷ (codes "x-fp-confidence", s.two_places best.value) ∷ []
  verdict_headers none =
      (codes "x-fp-verdict", codes "unknown") ∷ (codes "x-fp-confidence", codes "0.00") ∷ []

  unfoldable pub fp_headers : ClientReport → Identification s → List Header
  fp_headers report id =
      (codes "x-fp-ja4", report.tls.ja4)
      ∷ (codes "x-fp-ja3", report.tls.ja3)
      ∷ (h2_headers report.h2 ++ (verdict_headers id.best ++ mismatch_headers id.mismatch))

  pub fp_headers-own :
      (report : ClientReport) (id : Identification s) → all is_own (fp_headers report id) ≡ true
  unfolding fp_headers all is_own h2_headers verdict_headers mismatch_headers to_lower starts_with
  fp_headers-own report id = by_parts report.h2 id.best id.mismatch
    where
      by_parts :
          (h2 : Option H2Fingerprint) (best : Option (Candidate s)) (m : Option ClaimMismatch)
          → all is_own (h2_headers h2 ++ (verdict_headers best ++ mismatch_headers m)) ≡ true
      by_parts (some h) (some b) (some m) = refl
      by_parts (some h) (some b) none = refl
      by_parts (some h) none (some m) = refl
      by_parts (some h) none none = refl
      by_parts none (some b) (some m) = refl
      by_parts none (some b) none = refl
      by_parts none none (some m) = refl
      by_parts none none none = refl

pub keep-append :
    (p : Header → Bool) (xs ys : List Header) → keep p (xs ++ ys) ≡ keep p xs ++ keep p ys
unfolding keep
keep-append p [] ys = refl
keep-append p (x ∷ xs) ys = elim (Bool-cases (p x)) [
  | inl e ↦ rw e (ap (◌∷◌ x) (keep-append p xs ys))
  | inr e ↦ rw e (keep-append p xs ys)
]

pub keep-keep : (p q : Header → Bool) (xs : List Header) → keep p (keep q xs) ≡ keep q (keep p xs)
unfolding keep
keep-keep p q [] = refl
keep-keep p q (x ∷ xs) = elim (Bool-cases (p x)) [
  | inl e ↦ elim (Bool-cases (q x)) [
    | inl f ↦ rw (e, f, e) (ap (◌∷◌ x) (keep-keep p q xs))
    | inr f ↦ rw (e, f) (keep-keep p q xs)
  ]
  | inr e ↦ elim (Bool-cases (q x)) [
    | inl f ↦ rw (e, f, e) (keep-keep p q xs)
    | inr f ↦ rw (e, f) (keep-keep p q xs)
  ]
]

pub keep-none :
    (p : Header → Bool) (xs : List Header) → all (λ h. not (p h)) xs ≡ true → keep p xs ≡ []
unfolding keep all
keep-none p [] h = refl
keep-none p (x ∷ xs) h = elim (Bool-cases (p x)) [
  | inl e ↦ cc (rw e at h)
  | inr e ↦ rw e (keep-none p xs (rw e at h))
]

pub keep-every : (p : Header → Bool) (xs : List Header) → all p xs ≡ true → keep p xs ≡ xs
unfolding keep all
keep-every p [] h = refl
keep-every p (x ∷ xs) h = elim (Bool-cases (p x)) [
  | inl e ↦ rw e (ap (◌∷◌ x) (keep-every p xs (rw e at h)))
  | inr e ↦ cc (rw e at h)
]

pub forwarded-own :
    (parses : Header → Bool) (inbound fp : List Header)
    → all is_own fp ≡ true
    → keep is_own (forwarded parses inbound fp) ≡ keep parses fp
unfolding forwarded
forwarded-own parses inbound fp h =
    keep-keep is_own parses (strip_inbound inbound ++ fp)
    ∙ ap (keep parses) (
        keep-append is_own (strip_inbound inbound) fp
        ∙ ap₂ ◌++◌ (keep-none is_own (strip_inbound inbound) (all-keep inbound))
            (keep-every is_own fp h))

-- Whatever a client sends, the headers of the x-fp- namespace that are sent on are those attached for the
-- report, less what the HTTP library does not take.
pub forwarded-fp_headers :
    (s : Scores) (parses : Header → Bool) (inbound : List Header) (report : ClientReport)
    (id : Identification s)
    → keep is_own (forwarded parses inbound (fp_headers s report id))
      ≡ keep parses (fp_headers s report id)
forwarded-fp_headers s parses inbound report id =
    forwarded-own parses inbound (fp_headers s report id) (fp_headers-own s report id)
