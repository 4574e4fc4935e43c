-- ===== src/Commands.antt =====
-- crates/fpd/src/commands/capture.rs: `fpd capture`, which records a profile from live handshakes. A sample
-- is what `accept_one` gives; `serialises` and `writes` say whether the profile becomes JSON and whether the
-- file is written.
pub mod Rules
pub mod Recorded
use flux_parsing_daemon.Base.{
  ℕ, zero, suc, ◌+◌, ◌≤◌, ◌<◌, ◌≡◌, ◌≢◌, refl, sym, ap, ◌∙◌, arith, Bool, true, false, inl, inr,
  List, [], ◌∷◌, ◌++◌, map, length-map, take, subst, Option, none, some, All, length, all, list_eq,
  list_eq→eq, list_eq_refl, ltb, ltb→lt, ltb-false→le, ◌==◌, if◌then◌else◌, Bool-cases,
}
use flux_parsing_daemon.Base.Bytes.{codes}
use flux_parsing_daemon.Base.Options.{◌>>=◌, >>=-eq-some, map_option, some_injective}
use flux_parsing_daemon.Base.Text.{decimal}
use flux_parsing_daemon.Tls.Grease.{strip}
use flux_parsing_daemon.Probe.Profile.{
  ClientReport, Profile, Equivalence, Order, fixed, permuted, unknown, from_report,
}

unfoldable pub infer_order : List (List ℕ) → Order
infer_order [] = unknown
infer_order (first ∷ samples) =
    if ltb (length (first ∷ samples)) 2
    then unknown
    else if all (λ s. list_eq s first) (first ∷ samples)
    then fixed
    else permuted

pub record Args : Type 0 where
  pub label : List ℕ
  pub samples : ℕ
  pub out : List ℕ
  pub timeout_secs : ℕ

-- The loop over the samples; it ends at the first that fails.
unfoldable pub accept_samples : ℕ → List (Option ClientReport) → Option (List ClientReport)
accept_samples zero incoming = some []
accept_samples (suc n) [] = none
accept_samples (suc n) (none ∷ incoming) = none
accept_samples (suc n) (some r ∷ incoming) =
    map_option (λ (rs : List ClientReport). r ∷ rs) (accept_samples n incoming)

unfoldable pub last_report : List ClientReport → Option ClientReport
last_report [] = none
last_report (r ∷ []) = some r
last_report (r ∷ q ∷ rs) = last_report (q ∷ rs)

unfoldable pub cipher_samples : List ClientReport → List (List ℕ)
cipher_samples reports = map (λ (r : ClientReport). strip r.tls.ciphers) reports

unfoldable pub ext_samples : List ClientReport → List (List ℕ)
ext_samples reports = map (λ (r : ClientReport). strip r.tls.extensions) reports

-- The profile of the last report under the rules that all of them show.
unfoldable pub captured_profile : Args → List ClientReport → Option Profile
captured_profile args reports =
    map_option
      (λ (last : ClientReport). record (from_report last args.label (codes "unknown")) {
        equivalence = record {
          cipher_order = infer_order (cipher_samples reports);
          extension_order = infer_order (ext_samples reports);
        };
        source = codes "capture/" ++ decimal args.samples;
      })
      (last_report reports)

-- The file's directory, its name, and the profile in it.
abbrev pub WrittenProfile : Type 0
WrittenProfile = List ℕ × List ℕ × Profile

unfoldable pub write_profile :
    (Profile → Bool) → Bool → Args → Option Profile → ℕ × Option WrittenProfile
write_profile serialises writes args none = (2, none)
write_profile serialises writes args (some profile) =
    if serialises profile
    then (if writes then (0, some (args.out, args.label ++ codes ".json", profile)) else (2, none))
    else (2, none)

-- The exit code and the file written. `starts` says whether the runtime and the probe start.
unfoldable pub run :
    (Profile → Bool) → Bool → Bool → Args → List (Option ClientReport) → ℕ × Option WrittenProfile
run serialises writes starts args incoming =
    if args.samples == 0
    then (2, none)
    else if starts
    then write_profile serialises writes args
        (accept_samples args.samples incoming >>= captured_profile args)
    else (2, none)
