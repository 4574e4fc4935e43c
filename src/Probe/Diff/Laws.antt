-- ===== src/Probe/Diff/Laws.antt =====
-- A client matches the profile that was made from it, in whatever order a permuted rule leaves free.
use flux_parsing_daemon.Base.{
  ℕ, ◌≡◌, refl, sym, ap, ◌∙◌, arith, Bool, true, false, List, [], ◌∷◌, ◌++◌, Option, none, some,
  keep, all, list_eq, list_eq_refl, ◌==◌, if◌then◌else◌, Bool-cases, inl, inr,
}
use flux_parsing_daemon.Base.Bytes.{codes}
use flux_parsing_daemon.Base.Options.{map_option, unwrap_or}
use flux_parsing_daemon.Base.Sort.{sort, sort-eq_of_perm}
use flux_parsing_daemon.Tls.Grease.{strip}
use flux_parsing_daemon.Tls.Grease.Laws.{strip_clean}
use flux_parsing_daemon.H2.Akamai.{H2Fingerprint}
use flux_parsing_daemon.H2.Http.{comparable_headers}
use flux_parsing_daemon.Probe.Profile.{
  ClientReport, Profile, Equivalence, Order, fixed, permuted, unknown, h2_profile, http_profile,
  from_report,
}
use flux_parsing_daemon.Probe.Diff.{
  FieldDiff, is_clean, option_eq, strings_eq, bool_eq, compare_ordered, field, list_field,
  strip_psk, grease_field, presence_field, text_field, settings_str, settings_field, h2_fields,
  header_order_field, http_fields, diff,
}
use flux_parsing_daemon.Base.Perms.{keep-perm}
use mathlib.Core.List.{Perm}
use mathlib.Core.List.Perm

compare_ordered_refl : (v : List ℕ) (order : Order) → compare_ordered v v order ≡ true
unfolding compare_ordered
compare_ordered_refl v fixed = list_eq_refl v
compare_ordered_refl v permuted = list_eq_refl (sort v)
compare_ordered_refl v unknown = list_eq_refl (sort v)

-- An unchecked order: any permutation of what is expected agrees.
pub compare_ordered-perm : {v w : List ℕ} → Perm v w → compare_ordered v w permuted ≡ true
unfolding compare_ordered
compare_ordered-perm {v} {w} h = rw (sort-eq_of_perm h) (list_eq_refl (sort w))

list_field_ok :
    (name noun v w : List ℕ) (order : Order)
    → compare_ordered v w order ≡ true
    → (list_field name noun v w order).is_ok ≡ true
unfolding list_field field
list_field_ok name noun v w order h = rw h refl

==_refl : (n : ℕ) → (n == n) ≡ true
==_refl n = ground arith

grease_field_ok : (gc ge : ℕ) → (grease_field gc ge gc ge).is_ok ≡ true
unfolding grease_field
grease_field_ok gc ge = rw (==_refl gc, ==_refl ge) refl

bool_eq_refl : (b : Bool) → bool_eq b b ≡ true
bool_eq_refl true = refl
bool_eq_refl false = refl

option_eq_refl : (o : Option ℕ) → option_eq o o ≡ true
unfolding option_eq
option_eq_refl none = refl
option_eq_refl (some a) = ==_refl a

strings_eq_refl : (v : List (List ℕ)) → strings_eq v v ≡ true
unfolding strings_eq
strings_eq_refl [] = refl
strings_eq_refl (x ∷ xs) = rw (list_eq_refl x, strings_eq_refl xs) refl

abbrev fields_ok : List FieldDiff → Bool
fields_ok fields = all (λ (f : FieldDiff). f.is_ok) fields

all-cons :
    (f : FieldDiff) (fs : List FieldDiff)
    → f.is_ok ≡ true
    → fields_ok fs ≡ true
    → fields_ok (f ∷ fs) ≡ true
unfolding all
all-cons f fs h k = rw h k

all-append :
    (fs gs : List FieldDiff)
    → fields_ok fs ≡ true
    → fields_ok gs ≡ true
    → fields_ok (fs ++ gs) ≡ true
unfolding all
all-append [] gs h k = k
all-append (f ∷ fs) gs h k = ground (arith, all-append fs gs)

all-nil : fields_ok [] ≡ true
unfolding all
all-nil = refl

h2_fields_ok : (h : Option H2Fingerprint) → fields_ok (h2_fields h (map_option h2_profile h)) ≡ true
unfolding h2_fields h2_profile settings_field text_field field
h2_fields_ok none = all-nil
h2_fields_ok (some h) = all-cons _ _ (list_eq_refl (settings_str h.settings)) (
    all-cons _ _ (option_eq_refl h.window_update)
      (all-cons _ _ (list_eq_refl h.pseudo_order) all-nil))

header_order_field_ok : (names : List (List ℕ)) → (header_order_field names names).is_ok ≡ true
unfolding header_order_field field
header_order_field_ok names = rw (strings_eq_refl names) refl

http_fields_ok :
    (h : Option H2Fingerprint) → fields_ok (http_fields h (map_option http_profile h)) ≡ true
unfolding http_fields http_profile presence_field field
http_fields_ok none = all-nil
http_fields_ok (some h) =
    all-cons _ _ (header_order_field_ok (comparable_headers h.http))
      (all-cons _ _ (bool_eq_refl h.http.has_accept_language) all-nil)

strip_psk-strip : (v : List ℕ) → strip_psk (strip v) ≡ strip_psk v
unfolding strip_psk
strip_psk-strip v = ap (keep _) (strip_clean v).1

-- A client agrees in every field with the profile made from it, whatever ordering rules that is given.
pub diff-with_rules :
    (report : ClientReport) (label captured source : List ℕ) (rules : Equivalence)
    → is_clean (
        diff report
          (record (from_report report label captured) { equivalence = rules; source = source }))
      ≡ true
unfolding is_clean diff from_report text_field presence_field field
diff-with_rules report label captured source rules =
    all-cons _ _
      (list_field_ok _ _ _ _ rules.cipher_order
        (compare_ordered_refl (strip report.tls.ciphers) rules.cipher_order))
      (all-cons _ _ (list_field_ok _ _ _ _ rules.extension_order extensions_agree) (
        all-cons _ _ (grease_field_ok _ _) (
          all-cons _ _ (list_eq_refl (unwrap_or report.tls.alpn (codes "none"))) (
            all-cons _ _ (bool_eq_refl report.tls.has_sni)
              (all-append _ _ (h2_fields_ok report.h2) (http_fields_ok report.h2))))))
  where
    extensions_agree :
        compare_ordered
          (strip_psk report.tls.extensions)
          (strip_psk (strip report.tls.extensions))
          rules.extension_order
        ≡ true
    extensions_agree =
        rw (strip_psk-strip report.tls.extensions)
          (compare_ordered_refl (strip_psk report.tls.extensions) rules.extension_order)

-- The comparison of a client with the profile made from it agrees in every field.
pub diff-from_report :
    (report : ClientReport) (label captured : List ℕ)
    → is_clean (diff report (from_report report label captured)) ≡ true
unfolding from_report
diff-from_report report label captured =
    diff-with_rules report label captured (codes "manual")
      (record { cipher_order = unknown; extension_order = unknown })

list_field_is_ok :
    (name noun v w : List ℕ) (order : Order)
    → (list_field name noun v w order).is_ok ≡ compare_ordered v w order
unfolding list_field field
list_field_is_ok name noun v w order = elim (Bool-cases (compare_ordered v w order)) [
  | inl agree ↦ rw agree refl
  | inr differ ↦ rw differ refl
]

strip_psk-perm : {v w : List ℕ} → Perm v w → Perm (strip_psk v) (strip_psk w)
unfolding strip_psk strip
strip_psk-perm h = keep-perm _ (keep-perm _ h)

compare_ordered-cong :
    {v w : List ℕ} (expected : List ℕ)
    → Perm v w
    → compare_ordered v expected permuted ≡ compare_ordered w expected permuted
unfolding compare_ordered
compare_ordered-cong expected h = ap (λ s. list_eq s (sort expected)) (sort-eq_of_perm h)

all-second :
    (a b c : FieldDiff) (fs : List FieldDiff)
    → b.is_ok ≡ c.is_ok
    → fields_ok (a ∷ b ∷ fs) ≡ fields_ok (a ∷ c ∷ fs)
unfolding all
all-second a b c fs h = ap (λ ok. if a.is_ok then (if ok then fields_ok fs else false) else false) h

list_field-perm :
    (name noun : List ℕ) {v w : List ℕ} (expected : List ℕ) (order : Order)
    → Perm v w
    → order ≡ permuted
    → (list_field name noun v expected order).is_ok ≡ (list_field name noun w expected order).is_ok
list_field-perm name noun {v} {w} expected order h k =
    list_field_is_ok name noun v expected order
    ∙ (ap (compare_ordered v expected) k
        ∙ (compare_ordered-cong expected h
            ∙ (ap (compare_ordered w expected) (sym k)
                ∙ sym (list_field_is_ok name noun w expected order))))

-- A report with other extensions.
abbrev pub with_extensions : ClientReport → List ℕ → ClientReport
with_extensions report exts = record report { tls = record report.tls { extensions = exts } }

-- Under a permuted rule, the order of the extensions does not matter to whether a diff is clean.
pub diff-perm :
    (report : ClientReport) (profile : Profile) (exts : List ℕ)
    → Perm report.tls.extensions exts
    → profile.equivalence.extension_order ≡ permuted
    → is_clean (diff (with_extensions report exts) profile) ≡ is_clean (diff report profile)
unfolding is_clean diff
diff-perm report profile exts h k =
    all-second _ _ _ _
      (list_field-perm _ _ _ profile.equivalence.extension_order (strip_psk-perm (Perm.symm h)) k)
