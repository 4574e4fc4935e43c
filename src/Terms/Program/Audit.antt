-- ===== src/Terms/Program/Audit.antt =====
-- No command under the gate runs unaccepted, and what the environment accepts is entered in the history.
use flux_parsing_daemon.Base.{
  ◌≡◌, refl, sym, ap, ◌∙◌, ◌⊎◌, inl, inr, true, not, ◌&&◌, List, [], ◌∷◌, ◌++◌, append_assoc,
  Option, none, some, false, any, list_eq, list_eq→eq, Bool-cases,
}
use Prim.Native.Nat.{ℕ}
use flux_parsing_daemon.Base.Bytes.{codes}
use flux_parsing_daemon.Base.Options.{is_some}
use flux_parsing_daemon.Terms.{
  AcceptanceRecord, Terms, accept, applies_to, load, has, carve_out_flags, carve_out_commands,
  command_applies,
}
use flux_parsing_daemon.Terms.Gate.{IsGenuine, check_with-ok}
use flux_parsing_daemon.Terms.Program.{
  ConfigDir, Run, Command, ran, append, audited, gate, behind_gate, main,
}
use flux_parsing_daemon.Terms.Program.Steps.{
  Extends, Keeps, Steps, HasAccepted, run_all, dispatch-Steps, gate-eq-some, gate-Keeps,
  run_all-stored,
}

-- The exempt arguments: a flag at any place, or `terms` at the first.
unfoldable pub HasFlag : List (List ℕ) → Type 0
HasFlag [] = ⊥
HasFlag (a ∷ argv) =
    ((a ≡ codes "--help") ⊎ ((a ≡ codes "-h") ⊎ ((a ≡ codes "--version") ⊎ (a ≡ codes "-V"))))
    ⊎ HasFlag argv

unfoldable pub BeginsTerms : List (List ℕ) → Type 0
BeginsTerms [] = ⊥
BeginsTerms (a ∷ argv) = a ≡ codes "terms"

abbrev pub IsExempt : List (List ℕ) → Type 0
IsExempt argv = HasFlag argv ⊎ BeginsTerms argv

has-cons :
    (text t : List ℕ) (texts : List (List ℕ))
    → has (t ∷ texts) text ≡ true
    → (text ≡ t) ⊎ (has texts text ≡ true)
unfolding has any
has-cons text t texts h = elim (Bool-cases (list_eq t text)) [
  | inl e ↦ inl (sym (list_eq→eq t text e))
  | inr e ↦ inr (rw e at h)
]

no_text : (text : List ℕ) → has [] text ≡ true → ⊥
unfolding has any
no_text text h = cc

flag_lem :
    (a : List ℕ)
    → has carve_out_flags a ≡ true
    → (a ≡ codes "--help") ⊎ ((a ≡ codes "-h") ⊎ ((a ≡ codes "--version") ⊎ (a ≡ codes "-V")))
flag_lem a h = elim (has-cons a _ _ h) [
  | inl e ↦ inl e
  | inr h₁ ↦ elim (has-cons a _ _ h₁) [
    | inl e ↦ inr (inl e)
    | inr h₂ ↦ elim (has-cons a _ _ h₂) [
      | inl e ↦ inr (inr (inl e))
      | inr h₃ ↦ elim (has-cons a _ _ h₃) [
        | inl e ↦ inr (inr (inr e))
        | inr h₄ ↦ absurd (no_text a h₄)
      ]
    ]
  ]
]

any-HasFlag : (argv : List (List ℕ)) → any (λ a. has carve_out_flags a) argv ≡ true → HasFlag argv
unfolding any HasFlag
any-HasFlag [] h = cc
any-HasFlag (a ∷ argv) h = elim (Bool-cases (has carve_out_flags a)) [
  | inl e ↦ inl (flag_lem a e)
  | inr e ↦ inr (any-HasFlag argv (rw e at h))
]

command_lem : (argv : List (List ℕ)) → command_applies argv ≡ false → BeginsTerms argv
unfolding command_applies BeginsTerms
command_lem [] h = cc
command_lem (a ∷ argv) h = elim (Bool-cases (has carve_out_commands a)) [
  | inl e ↦ elim (has-cons a _ _ e) [ inl f ↦ f | inr f ↦ absurd (no_text a f) ]
  | inr e ↦ cc (rw e at h)
]

exempt_lem : (argv : List (List ℕ)) → applies_to argv ≡ false → IsExempt argv
unfolding applies_to
exempt_lem argv h = elim (Bool-cases (any (λ a. has carve_out_flags a) argv)) [
  | inl e ↦ inl (any-HasFlag argv e)
  | inr e ↦ inr (command_lem argv (rw e at h))
]

module _ (t : Terms) (version : List ℕ) (parse : List (List ℕ) → Option Command) where
  entered_lem :
      (run : Run) (dir : ConfigDir)
      → (run.env_accepted && not (is_some (load t dir.stored))) ≡ true
      → run.appends ≡ true
      → (audited t version parse run dir).history
        ≡ dir.history ++ ((accept t version run.now, codes "env") ∷ [])
  unfolding audited append
  entered_lem run dir e f = rw (e, f) refl

  -- What is known of a run that passed the gate with a command that is not carved out.
  passed_lem :
      (run : Run) (dir passed : ConfigDir)
      → gate t version parse run dir ≡ some passed
      → applies_to run.argv ≡ true
      → ((run.env_accepted ≡ true)
          ⊎ ((r : AcceptanceRecord) × (dir.stored ≡ some r) × IsGenuine t r))
        × (audited t version parse run dir ≡ passed)
  passed_lem run dir passed h applies = elim (gate-eq-some t version parse run dir h) [
    | inl (e, same) ↦ cc
    | inr (e, same) ↦ ((check_with-ok t dir.stored run.env_accepted).0 e, same)
  ]

  -- What is entered of a run that the environment accepted.
  unfoldable pub IsEntered : Run → ConfigDir → ConfigDir → Type 0
  IsEntered run before after =
      ((rest : List (AcceptanceRecord × List ℕ)) × (after.history
          ≡ before.history ++ ((accept t version run.now, codes "env") ∷ rest)))
      ⊎ (IsExempt run.argv
          ⊎ (((run.env_accepted && not (is_some (load t before.stored))) ≡ false)
              ⊎ (run.appends ≡ false)))

  audit_lem :
      (run : Run) (before passed after : ConfigDir)
      → gate t version parse run before ≡ some passed
      → Extends passed after
      → IsEntered run before after
  unfolding IsEntered Extends
  audit_lem run before passed after e (rest, follows) = elim (Bool-cases (applies_to run.argv)) [
    | inr f ↦ inr (inl (exempt_lem run.argv f))
    | inl f ↦ elim (Bool-cases (run.env_accepted && not (is_some (load t before.stored)))) [
      | inr g ↦ inr (inr (inl g))
      | inl g ↦ elim (Bool-cases run.appends) [
        | inr k ↦ inr (inr (inr k))
        | inl k ↦
            let (way, same) = passed_lem run before passed e f in
            inl (
              rest,
              follows
                  ∙ ap (λ (d : ConfigDir). d.history ++ rest) (sym same)
                  ∙ ap (λ l. l ++ rest) (entered_lem run before g k)
                  ∙ append_assoc before.history ((accept t version run.now, codes "env") ∷ []) rest,
            )
      ]
    ]
  ]

  -- How a run that passed the gate was accepted.
  way_lem :
      (runs : List Run) (run : Run) (dir passed : ConfigDir)
      → dir.stored ≡ none
      → gate t version parse run (run_all t version parse runs dir) ≡ some passed
      → (run.env_accepted ≡ true) ⊎ (HasAccepted t version parse runs dir ⊎ IsExempt run.argv)
  way_lem runs run dir passed empty e = elim (Bool-cases (applies_to run.argv)) [
    | inr f ↦ inr (inr (exempt_lem run.argv f))
    | inl f ↦ elim (passed_lem run (run_all t version parse runs dir) passed e f).0 [
      | inl env ↦ inl env
      | inr (r, stored, genuine) ↦ elim (run_all-stored t version parse runs dir empty) [
        | inl gone ↦ cc (sym stored ∙ gone)
        | inr earlier ↦ inr (inl earlier)
      ]
    ]
  ]

  -- From a directory without a record on, and after any runs: a run that executes a command was accepted by
  -- its environment, or an earlier run of `terms accept` saved a record that it made, or the arguments of the
  -- run are exempt, which begin with `terms` or hold a flag for help or the version at any place, be it an
  -- argument of the client that `check` runs. What the history held it holds after the run. The run is entered
  -- behind that, unless its arguments are exempt, the environment did not accept, a valid record is stored, or
  -- the history cannot be written.
  pub main-HasAccepted :
      (runs : List Run) (run : Run) (dir : ConfigDir) (c : Command)
      → dir.stored ≡ none
      → (main t version parse run (run_all t version parse runs dir)).0 ≡ ran c
      → let before = run_all t version parse runs dir in
        let after = (main t version parse run before).1 in
        ((run.env_accepted ≡ true) ⊎ (HasAccepted t version parse runs dir ⊎ IsExempt run.argv))
        × Extends before after
        × IsEntered run before after
  unfolding main behind_gate Steps Extends Keeps
  main-HasAccepted runs run dir c empty done =
      by_gate (gate t version parse run (run_all t version parse runs dir)) refl done
    where
      by_gate :
          (o : Option ConfigDir)
          → gate t version parse run (run_all t version parse runs dir) ≡ o
          → (behind_gate t version parse run (run_all t version parse runs dir) o).0 ≡ ran c
          → ((run.env_accepted ≡ true) ⊎ (HasAccepted t version parse runs dir ⊎ IsExempt run.argv))
            × Extends
                (run_all t version parse runs dir)
                (behind_gate t version parse run (run_all t version parse runs dir) o).1
            × IsEntered run
                (run_all t version parse runs dir)
                (behind_gate t version parse run (run_all t version parse runs dir) o).1
      by_gate none e h = cc
      by_gate (some passed) e h =
          let before = run_all t version parse runs dir in
          let (kept, (more, extends)) = gate-Keeps t version parse run before e in
          let (step, (rest, follows)) =
            dispatch-Steps t version parse run (parse run.argv) passed refl in
          (
            way_lem runs run dir passed empty e,
            (
              more ++ rest,
              follows ∙ ap (λ l. l ++ rest) extends ∙ append_assoc before.history more rest,
            ),
            audit_lem run before passed _ e (rest, follows),
          )
