-- ===== src/Terms/Program/Steps.antt =====
-- What a run changes of the configuration directory: the record is kept, lost, or saved by `terms
-- accept`, and the history only grows.
use flux_parsing_daemon.Base.{
  ◌≡◌, refl, sym, ap, subst, ◌∙◌, ◌⊎◌, inl, inr, false, not, ◌&&◌, List, [], ◌∷◌, ◌++◌, append-nil,
  append_assoc, Option, none, some, Result, ok, err, stuck, ◌>>=◌, >>=-eq-ok, ok_injective,
  Bool-cases,
}
use Prim.Native.Nat.{ℕ}
use flux_parsing_daemon.Base.Bytes.{codes}
use flux_parsing_daemon.Base.Options.{is_some, some_injective}
use flux_parsing_daemon.Terms.{
  AcceptanceRecord, Terms, accept, GateRefusal, applies_to, check_with, load,
}
use flux_parsing_daemon.Terms.Program.{
  ConfigDir, TermsError, saved_or_failed, Run, Command, terms_show, terms_accept, serve, tui, check,
  capture, emulate, config_dir, save, append, record_acceptance, after_save, no_config_dir, io,
  accept_terms, dispatch, audited, checked, gate, behind_gate, main,
}

-- The history of `after` is that of `before` with more behind it.
unfoldable pub Extends : ConfigDir → ConfigDir → Type 0
Extends before after =
    (rest : List (AcceptanceRecord × List ℕ)) × (after.history ≡ before.history ++ rest)

Extends-refl : (dir : ConfigDir) → Extends dir dir
unfolding Extends
Extends-refl dir = ([], sym (append-nil dir.history))

Extends-trans : (a b c : ConfigDir) → Extends a b → Extends b c → Extends a c
unfolding Extends
Extends-trans a b c (p, e) (q, f) = (p ++ q, f ∙ ap (λ h. h ++ q) e ∙ append_assoc a.history p q)

module _ (t : Terms) (version : List ℕ) (parse : List (List ℕ) → Option Command) where
  unfoldable pub run_all : List Run → ConfigDir → ConfigDir
  run_all [] dir = dir
  run_all (run ∷ runs) dir = run_all runs (main t version parse run dir).1

  -- A run of `terms accept` behind which the record is stored that it made.
  unfoldable pub Saves : Run → ConfigDir → Type 0
  Saves run after =
      (parse run.argv ≡ some terms_accept) × (after.stored ≡ some (accept t version run.now))

  -- One of the runs, from the directory on, does so.
  unfoldable pub HasAccepted : List Run → ConfigDir → Type 0
  HasAccepted [] dir = ⊥
  HasAccepted (run ∷ runs) dir =
      Saves run (main t version parse run dir).1 ⊎ HasAccepted runs (main t version parse run dir).1

  -- A step that keeps the record and extends the history.
  unfoldable pub Keeps : ConfigDir → ConfigDir → Type 0
  Keeps before after = (after.stored ≡ before.stored) × Extends before after

  pub audited-Keeps : (run : Run) (dir : ConfigDir) → Keeps dir (audited t version parse run dir)
  unfolding audited Keeps Extends append
  audited-Keeps run dir =
      elim (Bool-cases (run.env_accepted && not (is_some (load t dir.stored)))) [
        | inl e ↦ elim (Bool-cases run.appends) [
          | inl f ↦ rw (e, f) (refl, ((accept t version run.now, codes "env") ∷ [], refl))
          | inr f ↦ rw (e, f) (refl, Extends-refl dir)
        ]
        | inr e ↦ rw e (refl, Extends-refl dir)
      ]

  record_acceptance-Keeps :
      (run : Run) (r : AcceptanceRecord) (saved : ConfigDir)
      → Keeps saved (record_acceptance t version parse run r saved).1
  unfolding record_acceptance append Extends Keeps
  record_acceptance-Keeps run r saved = elim (Bool-cases run.appends) [
    | inl f ↦ rw f (refl, ((r, codes "interactive") ∷ [], refl))
    | inr f ↦ rw f (refl, Extends-refl saved)
  ]

  -- A step that keeps the record, loses it, or is a run that saves one, and extends the history.
  unfoldable pub Steps : Run → ConfigDir → ConfigDir → Type 0
  Steps run before after =
      ((after.stored ≡ before.stored) ⊎ ((after.stored ≡ none) ⊎ Saves run after))
      × Extends before after

  after_save-Steps :
      (run : Run) (e : TermsError) (dir : ConfigDir) → Steps run dir (after_save run e dir)
  unfolding after_save Steps Extends
  after_save-Steps run no_config_dir dir = (inl refl, Extends-refl dir)
  after_save-Steps run io dir = elim (Bool-cases run.torn) [
    | inl f ↦ rw f (inr (inl refl), Extends-refl dir)
    | inr f ↦ rw f (inl refl, Extends-refl dir)
  ]

  saved_lem :
      (run : Run) (r : AcceptanceRecord) (dir : ConfigDir) {saved : ConfigDir}
      → (config_dir run >>= λ found. save run r dir) ≡ ok saved
      → (saved.stored ≡ some r) × Extends dir saved
  unfolding save Extends
  saved_lem run r dir {saved} h =
      let (found, a, e) = >>=-eq-ok (config_dir run) (λ x. save run r dir) h in
      elim (Bool-cases run.saves) [
        | inl f ↦
            let same : record dir { stored = some r } ≡ saved = ok_injective (rw f at e) in
            (
              ap (λ (d : ConfigDir). d.stored) (sym same),
              ([], ap (λ (d : ConfigDir). d.history) (sym same) ∙ sym (append-nil dir.history)),
            )
        | inr f ↦ cc (rw f at e)
      ]

  saved_or_failed-Steps :
      (run : Run) (dir : ConfigDir) (m : Result TermsError ConfigDir)
      → parse run.argv ≡ some terms_accept
      → ((saved : ConfigDir)
          → m ≡ ok saved
          → (saved.stored ≡ some (accept t version run.now)) × Extends dir saved)
      → Steps run dir (saved_or_failed t version parse run (accept t version run.now) dir m).1
  unfolding saved_or_failed Steps Saves Keeps
  saved_or_failed-Steps run dir (ok saved) h k =
      let (stored, extends) = k saved refl in
      let (same, more) = record_acceptance-Keeps run (accept t version run.now) saved in
      (inr (inr (h, same ∙ stored)), Extends-trans dir saved _ extends more)
  saved_or_failed-Steps run dir (err e) h k = unfold Steps in after_save-Steps run e dir
  saved_or_failed-Steps run dir stuck h k = (inl refl, Extends-refl dir)

  accept_terms-Steps :
      (run : Run) (dir : ConfigDir)
      → parse run.argv ≡ some terms_accept
      → Steps run dir (accept_terms t version parse run dir).1
  unfolding accept_terms
  accept_terms-Steps run dir h =
      saved_or_failed-Steps run dir _ h (λ saved e. saved_lem run (accept t version run.now) dir e)

  pub dispatch-Steps :
      (run : Run) (c : Option Command) (dir : ConfigDir)
      → parse run.argv ≡ c
      → Steps run dir (dispatch t version parse run c dir).1
  unfolding dispatch Steps
  dispatch-Steps run none dir h = (inl refl, Extends-refl dir)
  dispatch-Steps run (some terms_accept) dir h = unfold Steps in accept_terms-Steps run dir h
  dispatch-Steps run (some terms_show) dir h = (inl refl, Extends-refl dir)
  dispatch-Steps run (some serve) dir h = (inl refl, Extends-refl dir)
  dispatch-Steps run (some tui) dir h = (inl refl, Extends-refl dir)
  dispatch-Steps run (some check) dir h = (inl refl, Extends-refl dir)
  dispatch-Steps run (some capture) dir h = (inl refl, Extends-refl dir)
  dispatch-Steps run (some emulate) dir h = (inl refl, Extends-refl dir)

  checked-eq-some :
      (run : Run) (dir : ConfigDir) (m : Result GateRefusal (Unit {0})) {passed : ConfigDir}
      → checked t version parse run dir m ≡ some passed
      → (m ≡ ok tt) × (audited t version parse run dir ≡ passed)
  unfolding checked
  checked-eq-some run dir (ok done) h = (refl, some_injective h)
  checked-eq-some run dir (err e) h = cc
  checked-eq-some run dir stuck h = cc

  -- What passed the gate: a command that is carved out, or a run that was accepted and entered.
  pub gate-eq-some :
      (run : Run) (dir : ConfigDir) {passed : ConfigDir}
      → gate t version parse run dir ≡ some passed
      → ((applies_to run.argv ≡ false) × (dir ≡ passed))
        ⊎ ((check_with t dir.stored run.env_accepted ≡ ok tt)
            × (audited t version parse run dir ≡ passed))
  unfolding gate checked audited append
  gate-eq-some run dir {passed} h = elim (Bool-cases (applies_to run.argv)) [
    | inl e ↦ elim (Bool-cases run.has_dir) [
      | inl f ↦ inr (checked-eq-some run dir _ (rw (e, f) at h))
      | inr f ↦ cc (rw (e, f) at h)
    ]
    | inr e ↦ inl (e, some_injective (rw e at h))
  ]

  pub gate-Keeps :
      (run : Run) (dir : ConfigDir) {passed : ConfigDir}
      → gate t version parse run dir ≡ some passed
      → Keeps dir passed
  gate-Keeps run dir h = elim (gate-eq-some run dir h) [
    | inl (e, same) ↦ subst (Keeps dir) same (unfold Keeps in (refl, Extends-refl dir))
    | inr (e, same) ↦ subst (Keeps dir) same (audited-Keeps run dir)
  ]

  pub main-Steps : (run : Run) (dir : ConfigDir) → Steps run dir (main t version parse run dir).1
  unfolding main behind_gate Keeps Steps
  main-Steps run dir = by_gate (gate t version parse run dir) refl
    where
      after :
          (passed last : ConfigDir) → Keeps dir passed → Steps run passed last → Steps run dir last
      after passed last (same, extends) (step, more) = (
        elim step [ inl e ↦ inl (e ∙ same) | inr s ↦ inr s ],
        Extends-trans dir passed last extends more,
      )

      by_gate :
          (o : Option ConfigDir)
          → gate t version parse run dir ≡ o
          → Steps run dir (behind_gate t version parse run dir o).1
      by_gate none e = unfold Steps in (inl refl, Extends-refl dir)
      by_gate (some passed) e =
          after passed _ (gate-Keeps run dir e) (dispatch-Steps run (parse run.argv) passed refl)

  run_all-Stays :
      (runs : List Run) (dir : ConfigDir)
      → ((run_all runs dir).stored ≡ dir.stored)
        ⊎ (((run_all runs dir).stored ≡ none) ⊎ HasAccepted runs dir)
  unfolding run_all HasAccepted Steps
  run_all-Stays [] dir = inl refl
  run_all-Stays (run ∷ runs) dir =
      let step : Steps run dir (main t version parse run dir).1 = main-Steps run dir in
      elim (run_all-Stays runs (main t version parse run dir).1) [
        | inl e ↦ elim step.0 [
          | inl f ↦ inl (e ∙ f)
          | inr (inl f) ↦ inr (inl (e ∙ f))
          | inr (inr s) ↦ inr (inr (inl s))
        ]
        | inr (inl e) ↦ inr (inl e)
        | inr (inr accepted) ↦ inr (inr (inr accepted))
      ]

  -- Where none was stored at first, a record that is stored is one that a run has saved.
  pub run_all-stored :
      (runs : List Run) (dir : ConfigDir)
      → dir.stored ≡ none
      → ((run_all runs dir).stored ≡ none) ⊎ HasAccepted runs dir
  run_all-stored runs dir empty = elim (run_all-Stays runs dir) [
    | inl e ↦ inl (e ∙ empty)
    | inr (inl e) ↦ inl e
    | inr (inr accepted) ↦ inr accepted
  ]
