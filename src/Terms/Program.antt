-- ===== src/Terms/Program.antt =====
-- How a run of the program meets the gate: `main` of crates/fpd/src/main.rs, `accept` of commands/terms.rs,
-- `save` of crates/fingerprint-terms/src/store.rs and `append` of history.rs, over the configuration
-- directory as a state. clap is the parameter `parse`; what the file system allows is part of a run.
pub mod Steps
pub mod Audit
use flux_parsing_daemon.Base.{
  Bool, true, false, not, ◌&&◌, List, [], ◌∷◌, ◌++◌, Option, none, some, Result, ok, err, stuck,
  ◌>>=◌, if◌then◌else◌,
}
use flux_parsing_daemon.Base.Bytes.{codes}
use flux_parsing_daemon.Base.Options.{is_some}
use flux_parsing_daemon.Terms.{
  AcceptanceRecord, Terms, GateRefusal, accept, applies_to, check_with, load,
}
use Prim.Native.Nat.{ℕ}

-- The record's file, `none` where it cannot be read as a record, and the lines of the history: a record and
-- how acceptance was given.
pub record ConfigDir : Type 0 where
  pub stored : Option AcceptanceRecord
  pub history : List (AcceptanceRecord × List ℕ)

pub data TermsError : Type 0 where
  no_config_dir io : TermsError

-- A run: its arguments, whether there is a configuration directory, whether its file and its history can be
-- written, whether a write of the record's file that fails has emptied the file or cut it off, whether the
-- environment accepts, and the clock's text.
pub record Run : Type 0 where
  pub argv : List (List ℕ)
  pub has_dir : Bool
  pub saves : Bool
  pub torn : Bool
  pub appends : Bool
  pub env_accepted : Bool
  pub now : List ℕ

pub data Command : Type 0 where
  terms_show terms_accept : Command
  serve tui check capture emulate : Command

-- What a run did: it was refused by the gate, ended by clap, or it ran a command, which for `terms accept` ended
-- well or not.
pub data Outcome : Type 0 where
  refused bad_usage : Outcome
  ran : Command → Outcome
  accept_failed : TermsError → Outcome

unfoldable pub config_dir : Run → Result TermsError (Unit {0})
config_dir run = if run.has_dir then ok tt else err no_config_dir

-- What an error of `save` leaves is in `after_save`.
unfoldable pub save : Run → AcceptanceRecord → ConfigDir → Result TermsError ConfigDir
save run r dir = if run.saves then ok record dir { stored = some r } else err io

unfoldable pub append : Run → AcceptanceRecord → List ℕ → ConfigDir → Result TermsError ConfigDir
append run r source dir =
    if run.appends then ok record dir { history = dir.history ++ ((r, source) ∷ []) } else err io

-- The directory behind a save that failed: `write` truncates the file before it writes.
unfoldable pub after_save : Run → TermsError → ConfigDir → ConfigDir
after_save run no_config_dir dir = dir
after_save run io dir = if run.torn then record dir { stored = none } else dir

module _ (t : Terms) (version : List ℕ) (parse : List (List ℕ) → Option Command) where
  -- The end of `accept`, behind the record that was saved.
  unfoldable pub record_acceptance : Run → AcceptanceRecord → ConfigDir → Outcome × ConfigDir
  record_acceptance run r saved = elim (append run r (codes "interactive") saved) [
    | ok dir ↦ (ran terms_accept, dir)
    | err e ↦ (accept_failed e, saved)
    | stuck ↦ (accept_failed io, saved)
  ]

  unfoldable pub saved_or_failed :
      Run → AcceptanceRecord → ConfigDir → Result TermsError ConfigDir → Outcome × ConfigDir
  saved_or_failed run r dir (ok saved) = record_acceptance run r saved
  saved_or_failed run r dir (err e) = (accept_failed e, after_save run e dir)
  saved_or_failed run r dir stuck = (accept_failed io, dir)

  unfoldable pub accept_terms : Run → ConfigDir → Outcome × ConfigDir
  accept_terms run dir =
      let r = accept t version run.now in
      saved_or_failed run r dir (config_dir run >>= λ found. save run r dir)

  unfoldable pub dispatch : Run → Option Command → ConfigDir → Outcome × ConfigDir
  dispatch run none dir = (bad_usage, dir)
  dispatch run (some terms_accept) dir = accept_terms run dir
  dispatch run (some terms_show) dir = (ran terms_show, dir)
  dispatch run (some serve) dir = (ran serve, dir)
  dispatch run (some tui) dir = (ran tui, dir)
  dispatch run (some check) dir = (ran check, dir)
  dispatch run (some capture) dir = (ran capture, dir)
  dispatch run (some emulate) dir = (ran emulate, dir)

  -- The entry of an acceptance by the environment; an error is passed over.
  unfoldable pub audited : Run → ConfigDir → ConfigDir
  audited run dir =
      if run.env_accepted && not (is_some (load t dir.stored))
      then elim (append run (accept t version run.now) (codes "env") dir) [
        | ok next ↦ next
        | err e ↦ dir
        | stuck ↦ dir
      ]
      else dir

  unfoldable pub checked : Run → ConfigDir → Result GateRefusal (Unit {0}) → Option ConfigDir
  checked run dir (ok passed) = some (audited run dir)
  checked run dir (err e) = none
  checked run dir stuck = none

  -- The gate: the state behind it, or a refusal.
  unfoldable pub gate : Run → ConfigDir → Option ConfigDir
  gate run dir =
      if applies_to run.argv
      then (if run.has_dir
          then checked run dir (check_with t dir.stored run.env_accepted)
          else none)
      else some dir

  unfoldable pub behind_gate : Run → ConfigDir → Option ConfigDir → Outcome × ConfigDir
  behind_gate run dir none = (refused, dir)
  behind_gate run dir (some passed) = dispatch run (parse run.argv) passed

  unfoldable pub main : Run → ConfigDir → Outcome × ConfigDir
  main run dir = behind_gate run dir (gate run dir)
