-- ===== src/Terms/Gate.antt =====
-- What the gate lets pass.
use flux_parsing_daemon.Base.{
  ◌≡◌, refl, ◌↔◌, ◌⊎◌, inl, inr, Bool, true, false, and_true, Option, none, some, ok, list_eq→eq,
  list_eq_refl, Bool-cases,
}
use flux_parsing_daemon.Base.Options.{some_injective}
use flux_parsing_daemon.Terms.{
  AcceptanceRecord, Terms, payload, compute_sig, verify, load, loaded_or_refused, check_with,
}

-- A record that grants access: signed over what it says, for the terms of this binary.
pub record IsGenuine (t : Terms) (r : AcceptanceRecord) : Type 0 where
  pub signed : r.sig ≡ compute_sig t r
  pub current : r.terms_version ≡ t.terms_hash

module _ (t : Terms) where
  verify→IsGenuine : (r : AcceptanceRecord) → verify t r ≡ true → IsGenuine t r
  unfolding verify
  verify→IsGenuine r h =
      let (filled, rest) = and_true _ _ h in
      let (same_sig, same_terms) = and_true _ _ rest in
      record {
        signed = list_eq→eq r.sig (compute_sig t r) same_sig;
        current = list_eq→eq r.terms_version t.terms_hash same_terms;
      }

  IsGenuine→verify : (r : AcceptanceRecord) → IsGenuine t r → verify t r ≡ true
  unfolding verify compute_sig payload
  IsGenuine→verify r g =
      rw (g.signed, list_eq_refl (compute_sig t r), g.current, list_eq_refl t.terms_hash) refl

  -- The gate lets a command run exactly if the environment accepts, or a record is stored that is signed over
  -- its own text for the terms of this binary.
  pub check_with-ok :
      (stored : Option AcceptanceRecord) (env_accepted : Bool)
      → (check_with t stored env_accepted ≡ ok tt)
        ↔ ((env_accepted ≡ true) ⊎ ((r : AcceptanceRecord) × (stored ≡ some r) × IsGenuine t r))
  unfolding check_with load loaded_or_refused
  check_with-ok stored true = (λ h. inl refl, λ h. refl)
  check_with-ok none false = (λ h. cc, λ h. elim h [ inl e ↦ cc e | inr (r, e, g) ↦ cc e ])
  check_with-ok (some r) false = elim (Bool-cases (verify t r)) [
    | inl e ↦ rw e (λ h. inr (r, refl, verify→IsGenuine r e), λ h. refl)
    | inr e ↦ rw e (
      λ h. cc,
      λ h. elim h [ inl f ↦ cc f | inr (q, f, g) ↦ cc (e, IsGenuine→verify q g, some_injective f) ],
    )
  ]
