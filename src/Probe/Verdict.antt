-- ===== src/Probe/Verdict.antt =====
-- crates/fingerprint-probe/src/verdict.rs, with `ProfileDb` of profile.rs and `Diff::score` of diff.rs: the
-- profile that a client matches, and a claim that contradicts it. A score is an `f32`; its operations are
-- the parameter `Scores`.
pub mod Laws
use flux_parsing_daemon.Base.{
  ℕ, Bool, true, false, not, ◌&&◌, List, [], ◌∷◌, map, Option, none, some, Result, ok, err,
  to_option, length, keep, find, all, is_empty, list_eq, if◌then◌else◌,
}
use flux_parsing_daemon.Base.Bytes.{codes}
use flux_parsing_daemon.Base.Options.{◌>>=◌, map_option, unwrap_or}
use flux_parsing_daemon.Base.Text.{join}
use flux_parsing_daemon.H2.Akamai.{H2Fingerprint}
use flux_parsing_daemon.Probe.Profile.{ClientReport, Profile}
use flux_parsing_daemon.Probe.Diff.{Diff, FieldDiff, diff}
use flux_parsing_daemon.Probe.UserAgent.{
  Family, chrome, firefox, safari, edge, curl, python, go, node, unknown_family, as_str,
  claimed_family, user_agent_of,
}

-- The operations of `f32` that the program uses.
pub record Scores : Type 1 where
  pub Score : Type 0
  -- `a as f32 / b as f32`
  pub ratio : ℕ → ℕ → Score
  pub zero_score : Score
  -- 0.60
  pub match_floor : Score
  -- `a >= b`
  pub is_at_least : Score → Score → Bool
  -- `a.partial_cmp(&b) == Some(Less)`
  pub is_less : Score → Score → Bool
  -- `{:.2}`
  pub two_places : Score → List ℕ
  -- `{:.0}` of a hundred times the score
  pub percent : Score → List ℕ

-- `ProfileError::Unknown`, with the label and the labels there are. The other errors come from files.
pub data ProfileError : Type 0 where
  unknown_profile : List ℕ → List ℕ → ProfileError

-- The profiles of a `ProfileDb`.
abbrev pub ProfileDb : Type 0
ProfileDb = List Profile

unfoldable pub labels : ProfileDb → List (List ℕ)
labels db = map (λ (p : Profile). p.label) db

unfoldable pub found_or : Option Profile → ProfileError → Result ProfileError Profile
found_or (some p) e = ok p
found_or none e = err e

unfoldable pub get : ProfileDb → List ℕ → Result ProfileError Profile
get db label =
    found_or (find (λ (p : Profile). list_eq p.label label) db)
      (unknown_profile label (join (codes ", ") (labels db)))

abbrev pub required_tls_fields : List (List ℕ)
required_tls_fields = codes "ciphers" ∷ codes "extensions" ∷ codes "GREASE" ∷ []

unfoldable pub tls_layer_agrees : Diff → Bool
tls_layer_agrees d =
    all
      (λ name.
        unwrap_or
          (map_option (λ (f : FieldDiff). f.is_ok)
            (find (λ (f : FieldDiff). list_eq f.name name) d.fields))
          false)
      required_tls_fields

unfoldable pub family_from_name : List ℕ → Family
family_from_name name =
    if list_eq name (codes "chrome")
    then chrome
    else if list_eq name (codes "firefox")
    then firefox
    else if list_eq name (codes "safari")
    then safari
    else if list_eq name (codes "edge")
    then edge
    else if list_eq name (codes "curl")
    then curl
    else if list_eq name (codes "python")
    then python
    else if list_eq name (codes "go")
    then go
    else if list_eq name (codes "node")
    then node
    else unknown_family

-- `==` on families, which have different names
abbrev pub family_eq : Family → Family → Bool
family_eq a b = list_eq (as_str a) (as_str b)

pub record ClaimMismatch : Type 0 where
  pub claimed : Family
  pub observed : Family

unfoldable pub mismatch_of : Family → Family → Option ClaimMismatch
mismatch_of claimed observed =
    if family_eq claimed observed
    then none
    else some record { claimed = claimed; observed = observed }

module _ (s : Scores) where
  unfoldable pub score : Diff → s.Score
  score d =
      if is_empty d.fields
      then s.zero_score
      else s.ratio (length (keep (λ (f : FieldDiff). f.is_ok) d.fields)) (length d.fields)

  pub record Candidate : Type 0 where
    pub label : List ℕ
    pub value : s.Score
    pub comparison : Diff

  unfoldable pub candidate : ClientReport → Profile → Candidate
  candidate report p =
      let d = diff report p in record { label = p.label; value = score d; comparison = d }

  -- `sort_by`, which is stable, on `b.score.partial_cmp(&a.score)` with a failed comparison as equal: the
  -- higher score first.
  unfoldable pub insert_ranked : Candidate → List Candidate → List Candidate
  insert_ranked c [] = c ∷ []
  insert_ranked c (d ∷ ds) =
      let rest = insert_ranked c ds in if s.is_less c.value d.value then d ∷ rest else c ∷ d ∷ ds

  unfoldable pub rank : List Candidate → List Candidate
  rank [] = []
  rank (c ∷ cs) = insert_ranked c (rank cs)

  unfoldable pub named : Candidate → Option Candidate
  named c =
      if s.is_at_least c.value s.match_floor && tls_layer_agrees c.comparison then some c else none

  -- `first().filter(..)`
  unfoldable pub best_of : List Candidate → Option Candidate
  best_of [] = none
  best_of (c ∷ cs) = named c

  -- The lines of `detect_mismatch` behind the claim.
  unfoldable pub contradiction : Family → Option Candidate → ProfileDb → Option ClaimMismatch
  contradiction claimed best db = do
    c ← best
    profile ← to_option (get db c.label)
    if family_eq (family_from_name profile.family) unknown_family
        then none
        else mismatch_of claimed (family_from_name profile.family)

  unfoldable pub detect_mismatch :
      ClientReport → Option Candidate → ProfileDb → Option ClaimMismatch
  detect_mismatch report best db = do
    h2 ← report.h2
    ua ← user_agent_of h2.headers
    if family_eq (claimed_family ua) unknown_family
        then none
        else contradiction (claimed_family ua) best db

  pub record Identification : Type 0 where
    pub best : Option Candidate
    pub ranked : List Candidate
    pub mismatch : Option ClaimMismatch

  unfoldable pub identify : ClientReport → ProfileDb → Identification
  identify report db =
      let ranked = rank (map (candidate report) db) in
      record {
        best = best_of ranked;
        ranked = ranked;
        mismatch = detect_mismatch report (best_of ranked) db;
      }
