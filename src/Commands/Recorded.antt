-- ===== src/Commands/Recorded.antt =====
-- What a profile that `fpd capture` writes is worth.
use flux_parsing_daemon.Base.{◌≡◌, true, List, [], ◌∷◌, ◌++◌, map, take, Option, some, length}
use flux_parsing_daemon.Tls.Grease.{strip}
use flux_parsing_daemon.Probe.Profile.{ClientReport, Profile, Equivalence}
use flux_parsing_daemon.Probe.Diff.{diff, is_clean}
use flux_parsing_daemon.Commands.Rules.{IsRule}
use flux_parsing_daemon.Commands.{infer_order, Args, cipher_samples, ext_samples}

-- A profile that was recorded of the samples asked for, which were taken from the first incoming ones: it
-- holds what the last of them shows, that agrees with it in every field, and its rules are those that the
-- samples show.
pub record IsRecorded (args : Args) (incoming : List (Option ClientReport)) (profile : Profile)
    : Type 0 where
  pub reports : List ClientReport
  pub last : ClientReport
  pub taken : take args.samples incoming ≡ map (λ (r : ClientReport). some r) reports
  pub counted : length reports ≡ args.samples
  pub is_last : (front : List ClientReport) × (reports ≡ front ++ (last ∷ []))
  pub label : profile.label ≡ args.label
  pub ja4 : profile.tls.ja4 ≡ last.tls.ja4
  pub cipher_list : profile.tls.ciphers ≡ strip last.tls.ciphers
  pub extension_list : profile.tls.extensions ≡ strip last.tls.extensions
  pub agrees : is_clean (diff last profile) ≡ true
  pub ciphers :
      IsRule
        (λ (r : ClientReport). strip r.tls.ciphers)
        reports
        profile.tls.ciphers
        profile.equivalence.cipher_order
  pub extensions :
      IsRule
        (λ (r : ClientReport). strip r.tls.extensions)
        reports
        profile.tls.extensions
        profile.equivalence.extension_order

rules_of : List ClientReport → Equivalence
rules_of reports = record {
  cipher_order = infer_order (cipher_samples reports);
  extension_order = infer_order (ext_samples reports);
}
