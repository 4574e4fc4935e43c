-- ===== src/Tests/Program.antt =====
-- A run of `terms accept`, and then one of `serve`.
use flux_parsing_daemon.Base.{
  ◌≡◌, refl, ◌⊎◌, true, false, List, [], ◌∷◌, Option, none, some, ◌>>=◌, any, list_eq,
  if◌then◌else◌,
}
use Prim.Native.Nat.{ℕ}
use flux_parsing_daemon.Base.Bytes.{codes}
use flux_parsing_daemon.Terms.{
  accept, applies_to, command_applies, has, check_with, load, loaded_or_refused, verify,
  compute_sig, payload,
}
use flux_parsing_daemon.Terms.Program.{
  ConfigDir, Run, Command, terms_accept, serve, ran, config_dir, save, append, record_acceptance,
  saved_or_failed, accept_terms, dispatch, audited, checked, gate, behind_gate, main,
}
use flux_parsing_daemon.Terms.Program.Steps.{Extends, HasAccepted, run_all}
use flux_parsing_daemon.Terms.Program.Audit.{IsExempt, IsEntered, main-HasAccepted}
use flux_parsing_daemon.Tests.Serve.{terms}

abbrev parse : List (List ℕ) → Option Command
parse [] = none
parse (name ∷ args) =
    if list_eq name (codes "terms")
    then some terms_accept
    else if list_eq name (codes "serve")
    then some serve
    else none

abbrev run_of : List (List ℕ) → Run
run_of argv = record {
  argv = argv;
  has_dir = true;
  saves = true;
  torn = false;
  appends = true;
  env_accepted = false;
  now = codes "now";
}

abbrev accepting : Run
accepting = run_of (codes "terms" ∷ codes "accept" ∷ [])

abbrev serving : Run
serving = run_of (codes "serve" ∷ [])

abbrev no_record : ConfigDir
no_record = record { stored = none; history = [] }

abbrev recorded : ConfigDir
recorded = run_all terms (codes "0.1") parse (accepting ∷ []) no_record

serves : (main terms (codes "0.1") parse serving recorded).0 ≡ ran serve
unfolding main run_all gate behind_gate dispatch accept_terms saved_or_failed record_acceptance save
    append config_dir applies_to command_applies has any check_with load loaded_or_refused verify
    accept compute_sig payload checked audited ◌>>=◌
serves = refl

main-HasAccepted_example :
    ((false ≡ true)
      ⊎ (HasAccepted terms (codes "0.1") parse (accepting ∷ []) no_record ⊎ IsExempt serving.argv))
    × Extends recorded (main terms (codes "0.1") parse serving recorded).1
    × IsEntered terms
        (codes "0.1")
        parse
        serving
        recorded
        (main terms (codes "0.1") parse serving recorded).1
main-HasAccepted_example =
    main-HasAccepted terms (codes "0.1") parse (accepting ∷ []) serving no_record serve refl serves
