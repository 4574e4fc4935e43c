-- ===== src/Probe/Verdict/Laws.antt =====
-- What an identification and a reported mismatch say.
use flux_parsing_daemon.Base.{
  ℕ, zero, suc, ◌≡◌, ◌≢◌, refl, sym, ap, subst, ◌∙◌, Bool, true, false, ◌&&◌, and_true, inl, inr,
  List, [], ◌∷◌, map, All, Option, none, some, Result, ok, err, stuck, to_option, get_elem?,
  list_eq_refl, Bool-cases, if◌then◌else◌,
}
use flux_parsing_daemon.Base.Options.{>>=-eq-some, some_injective}
use flux_parsing_daemon.H2.Akamai.{H2Fingerprint}
use flux_parsing_daemon.Probe.Profile.{ClientReport, Profile}
use flux_parsing_daemon.Probe.UserAgent.{
  Family, unknown_family, as_str, claimed_family, user_agent_of,
}
use flux_parsing_daemon.Probe.Verdict.{
  Scores, ProfileDb, ProfileError, get, Candidate, candidate, insert_ranked, rank, named, best_of,
  tls_layer_agrees, family_eq, family_from_name, ClaimMismatch, mismatch_of, contradiction,
  detect_mismatch, identify,
}

-- What `partial_cmp` does on scores that are numbers.
pub record IsOrdered (s : Scores) : Type 0 where
  pub asymmetric : (a b : s.Score) → s.is_less a b ≡ true → s.is_less b a ≡ false
  pub transitive :
      (a b c : s.Score) → s.is_less a b ≡ false → s.is_less b c ≡ false → s.is_less a c ≡ false

module _ (s : Scores) where
  -- No candidate of the list has a higher score.
  abbrev pub IsTop : s.Score → List (Candidate s) → Type 0
  IsTop v cs = All (λ (d : Candidate s). s.is_less v d.value ≡ false) cs

  module _ (o : IsOrdered s) where
    irreflexive : (a : s.Score) → s.is_less a a ≡ false
    irreflexive a = elim (Bool-cases (s.is_less a a)) [ inl e ↦ o.asymmetric a a e | inr e ↦ e ]

    IsTop-trans :
        (a b : s.Score) (cs : List (Candidate s)) → s.is_less a b ≡ false → IsTop b cs → IsTop a cs
    IsTop-trans a b [] h t = tt
    IsTop-trans a b (c ∷ cs) h t = (o.transitive a b c.value h t.0, IsTop-trans a b cs h t.1)

    insert_ranked-IsTop :
        (v : s.Score) (c : Candidate s) (cs : List (Candidate s))
        → s.is_less v c.value ≡ false
        → IsTop v cs
        → IsTop v (insert_ranked s c cs)
    unfolding insert_ranked
    insert_ranked-IsTop v c [] h t = (h, tt)
    insert_ranked-IsTop v c (d ∷ ds) h t = elim (Bool-cases (s.is_less c.value d.value)) [
      | inl e ↦ rw e (t.0, insert_ranked-IsTop v c ds h t.1)
      | inr e ↦ rw e (h, t)
    ]

    -- Of a ranked list, nothing behind its head has a higher score.
    IsRanked : List (Candidate s) → Type 0
    IsRanked [] = Unit
    IsRanked (c ∷ cs) = IsTop c.value cs × IsRanked cs

    insert_ranked-IsRanked :
        (c : Candidate s) (cs : List (Candidate s)) → IsRanked cs → IsRanked (insert_ranked s c cs)
    unfolding insert_ranked IsRanked
    insert_ranked-IsRanked c [] r = (tt, tt)
    insert_ranked-IsRanked c (d ∷ ds) (top, r) = elim (Bool-cases (s.is_less c.value d.value)) [
      | inl e ↦ rw e (
        insert_ranked-IsTop d.value c ds (o.asymmetric c.value d.value e) top,
        insert_ranked-IsRanked c ds r,
      )
      | inr e ↦ rw e ((e, IsTop-trans c.value d.value ds e top), (top, r))
    ]

    rank-IsRanked : (cs : List (Candidate s)) → IsRanked (rank s cs)
    unfolding rank IsRanked
    rank-IsRanked [] = tt
    rank-IsRanked (c ∷ cs) = insert_ranked-IsRanked c (rank s cs) (rank-IsRanked cs)

  -- Ranking loses and adds nothing.
  module _ (P : Candidate s → Type 0) where
    insert_ranked-All :
        (c : Candidate s) (cs : List (Candidate s)) → P c → All P cs → All P (insert_ranked s c cs)
    unfolding insert_ranked
    insert_ranked-All c [] p ps = (p, tt)
    insert_ranked-All c (d ∷ ds) p ps = elim (Bool-cases (s.is_less c.value d.value)) [
      | inl e ↦ rw e (ps.0, insert_ranked-All c ds p ps.1)
      | inr e ↦ rw e (p, ps)
    ]

    rank-All : (cs : List (Candidate s)) → All P cs → All P (rank s cs)
    unfolding rank
    rank-All [] ps = tt
    rank-All (c ∷ cs) ps = insert_ranked-All c (rank s cs) ps.0 (rank-All cs ps.1)

    All-insert_ranked :
        (c : Candidate s) (cs : List (Candidate s)) → All P (insert_ranked s c cs) → P c × All P cs
    unfolding insert_ranked
    All-insert_ranked c [] ps = (ps.0, tt)
    All-insert_ranked c (d ∷ ds) ps = elim (Bool-cases (s.is_less c.value d.value)) [
      | inl e ↦
          let qs = rw e at ps in let (p, rest) = All-insert_ranked c ds qs.1 in (p, (qs.0, rest))
      | inr e ↦ let qs = rw e at ps in (qs.0, qs.1)
    ]

    All-rank : (cs : List (Candidate s)) → All P (rank s cs) → All P cs
    unfolding rank
    All-rank [] ps = tt
    All-rank (c ∷ cs) ps =
        let (p, rest) = All-insert_ranked c (rank s cs) ps in (p, All-rank cs rest)

  -- The candidate of a profile of the database.
  abbrev pub IsOf : ClientReport → ProfileDb → Candidate s → Type 0
  IsOf report db c =
      (i : ℕ) × (p : Profile) × (get_elem? db i ≡ some p) × (c ≡ candidate s report p)

  All-candidates :
      (report : ClientReport) (db : ProfileDb) (P : Candidate s → Type 0)
      → ((i : ℕ) (p : Profile) → get_elem? db i ≡ some p → P (candidate s report p))
      → All P (map (candidate s report) db)
  All-candidates report [] P h = tt
  All-candidates report (p ∷ db) P h = (h 0 p refl, All-candidates report db P (λ i. h (suc i)))

  candidates-All :
      (report : ClientReport) (db : ProfileDb) (P : Candidate s → Type 0)
      → All P (map (candidate s report) db)
      → (i : ℕ) (p : Profile) → get_elem? db i ≡ some p
      → P (candidate s report p)
  candidates-All report [] P ps i p h = cc
  candidates-All report (q ∷ db) P ps zero p h =
      subst (λ r. P (candidate s report r)) (some_injective h) ps.0
  candidates-All report (q ∷ db) P ps (suc i) p h = candidates-All report db P ps.1 i p h

  named-some :
      (c : Candidate s) {best : Candidate s}
      → named s c ≡ some best
      → (c ≡ best)
        × (s.is_at_least c.value s.match_floor ≡ true)
        × (tls_layer_agrees c.comparison ≡ true)
  unfolding named
  named-some c h =
      elim (Bool-cases (s.is_at_least c.value s.match_floor && tls_layer_agrees c.comparison)) [
        | inl e ↦ let (high, agrees) = and_true _ _ e in (some_injective (rw e at h), high, agrees)
        | inr e ↦ cc (rw e at h)
      ]

  best_of-some :
      (o : IsOrdered s) (cs : List (Candidate s)) {best : Candidate s} (P : Candidate s → Type 0)
      → All P cs
      → IsRanked o cs
      → best_of s cs ≡ some best
      → P best
        × IsTop best.value cs
        × (s.is_at_least best.value s.match_floor ≡ true)
        × (tls_layer_agrees best.comparison ≡ true)
  unfolding best_of IsRanked
  best_of-some o [] P ps r h = cc
  best_of-some o (c ∷ cs) P ps r h =
      let (same, high, agrees) = named-some c h in
      subst
        (λ b.
          P b
          × IsTop b.value (c ∷ cs)
          × (s.is_at_least b.value s.match_floor ≡ true)
          × (tls_layer_agrees b.comparison ≡ true))
        same (ps.0, (irreflexive o c.value, r.0), high, agrees)

  -- Where scores are ordered as numbers are: the profile named is one of the database, its score is at least
  -- the floor, the three TLS fields agree, and no profile of the database has a higher score.
  pub identify-best :
      (report : ClientReport) (db : ProfileDb) (best : Candidate s)
      → IsOrdered s
      → (identify s report db).best ≡ some best
      → IsOf report db best
        × (s.is_at_least best.value s.match_floor ≡ true)
        × (tls_layer_agrees best.comparison ≡ true)
        × ((i : ℕ) (p : Profile)
            → get_elem? db i ≡ some p
            → s.is_less best.value (candidate s report p).value ≡ false)
  unfolding identify
  identify-best report db best o h =
      let cs = map (candidate s report) db in
      let every =
        rank-All (IsOf report db) cs
          (All-candidates report db (IsOf report db) (λ i p at. (i, p, at, refl))) in
      let (of_db, top, high, agrees) =
        best_of-some o (rank s cs) (IsOf report db) every (rank-IsRanked o cs) h in
      (
        of_db,
        high,
        agrees,
        candidates-All report db _ (All-rank (λ d. s.is_less best.value d.value ≡ false) cs top),
      )

  -- What a mismatch rests on: a User-Agent with a known family, a profile named with a known family, and
  -- that the two differ.
  pub record IsContradiction (report : ClientReport) (db : ProfileDb) (m : ClaimMismatch)
      : Type 0 where
    pub h2 : H2Fingerprint
    pub user_agent : List ℕ
    pub best : Candidate s
    pub profile : Profile
    pub seen : report.h2 ≡ some h2
    pub claim : user_agent_of h2.headers ≡ some user_agent
    pub identified : (identify s report db).best ≡ some best
    pub stored : get db best.label ≡ ok profile
    pub is_claimed : m.claimed ≡ claimed_family user_agent
    pub is_observed : m.observed ≡ family_from_name profile.family
    pub claimed_known : m.claimed ≢ unknown_family
    pub observed_known : m.observed ≢ unknown_family
    pub differ : m.claimed ≢ m.observed

  family_ne : (a b : Family) → family_eq a b ≡ false → a ≢ b
  family_ne a b h e = cc (h, list_eq_refl (as_str b), e)

  unless :
      {A : Type 0} (b : Bool) (o : Option A) {a : A}
      → (if b then none else o) ≡ some a
      → (b ≡ false) × (o ≡ some a)
  unless true o h = cc
  unless false o h = (refl, h)

  mismatch_of-some :
      (c o : Family) {m : ClaimMismatch}
      → mismatch_of c o ≡ some m
      → (family_eq c o ≡ false) × (m.claimed ≡ c) × (m.observed ≡ o)
  unfolding mismatch_of
  mismatch_of-some c o h =
      let (other, same) = unless (family_eq c o) (some record { claimed = c; observed = o }) h in
      let e = some_injective same in
      (
        other,
        ap (λ (m : ClaimMismatch). m.claimed) (sym e),
        ap (λ (m : ClaimMismatch). m.observed) (sym e),
      )

  to_option-some : (r : Result ProfileError Profile) {p : Profile} → to_option r ≡ some p → r ≡ ok p
  unfolding to_option
  to_option-some (ok q) h = ap ok (some_injective h)
  to_option-some (err e) h = cc
  to_option-some stuck h = cc

  -- A mismatch is reported only where both sides are known and differ.
  pub identify-mismatch :
      (report : ClientReport) (db : ProfileDb) (m : ClaimMismatch)
      → (identify s report db).mismatch ≡ some m
      → IsContradiction report db m
  unfolding identify detect_mismatch contradiction
  identify-mismatch report db m h =
      let best = best_of s (rank s (map (candidate s report) db)) in
      let (h2, seen, h₁) = >>=-eq-some report.h2 _ h in
      let (ua, claim, h₂) = >>=-eq-some (user_agent_of h2.headers) _ h₁ in
      let (known, h₃) = unless (family_eq (claimed_family ua) unknown_family) _ h₂ in
      let (c, identified, h₄) = >>=-eq-some best _ h₃ in
      let (p, stored, h₅) = >>=-eq-some (to_option (get db c.label)) _ h₄ in
      let (observed, h₆) = unless (family_eq (family_from_name p.family) unknown_family) _ h₅ in
      let (differ, is_claimed, is_observed) =
        mismatch_of-some (claimed_family ua) (family_from_name p.family) h₆ in
      record {
        h2 = h2;
        user_agent = ua;
        best = c;
        profile = p;
        seen = seen;
        claim = claim;
        identified = identified;
        stored = to_option-some (get db c.label) stored;
        is_claimed = is_claimed;
        is_observed = is_observed;
        claimed_known = λ e. family_ne _ _ known (sym is_claimed ∙ e);
        observed_known = λ e. family_ne _ _ observed (sym is_observed ∙ e);
        differ = λ e. family_ne _ _ differ (sym is_claimed ∙ e ∙ is_observed);
      }
