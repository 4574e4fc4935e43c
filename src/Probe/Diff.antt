-- ===== src/Probe/Diff.antt =====
-- crates/fingerprint-probe/src/diff.rs: the comparison of an observed client with a profile. The display of
-- a diff is in Display.antt, and its score in Verdict.antt.
pub mod Laws
use flux_parsing_daemon.Base.{
  ℕ, Bool, true, false, not, ◌&&◌, List, [], ◌∷◌, ◌++◌, map, Option, none, some, length, keep, any,
  all, is_empty, list_eq, ◌==◌, if◌then◌else◌,
}
use flux_parsing_daemon.Base.Bytes.{codes}
use flux_parsing_daemon.Base.Options.{map_option, unwrap_or}
use flux_parsing_daemon.Base.Sort.{sort}
use flux_parsing_daemon.Base.Text.{decimal, join}
use flux_parsing_daemon.Tls.Grease.{strip}
use flux_parsing_daemon.H2.Akamai.{H2Fingerprint}
use flux_parsing_daemon.H2.Http.{comparable_headers}
use flux_parsing_daemon.Probe.Profile.{
  ClientReport, Profile, H2Profile, HttpProfileStored, Order, fixed, permuted, unknown,
  ext_pre_shared_key,
}

pub data Verdict : Type 0 where
  exact partial_match : Verdict

pub record FieldDiff : Type 0 where
  pub name : List ℕ
  pub is_ok : Bool
  pub observed : List ℕ
  pub expected : List ℕ
  pub note : Option (List ℕ)

pub record Diff : Type 0 where
  pub label : List ℕ
  pub fields : List FieldDiff

unfoldable pub is_clean : Diff → Bool
is_clean d = all (λ (f : FieldDiff). f.is_ok) d.fields

unfoldable pub verdict : Diff → Verdict
verdict d = if is_clean d then exact else partial_match

-- `==` on options and lists of strings
unfoldable pub option_eq : Option ℕ → Option ℕ → Bool
option_eq none none = true
option_eq (some a) (some b) = a == b
option_eq _ _ = false

unfoldable pub strings_eq : List (List ℕ) → List (List ℕ) → Bool
strings_eq [] [] = true
strings_eq (x ∷ xs) (y ∷ ys) = list_eq x y && strings_eq xs ys
strings_eq _ _ = false

abbrev pub bool_eq : Bool → Bool → Bool
bool_eq true b = b
bool_eq false b = not b

unfoldable pub list : List ℕ → List ℕ
list v = join (codes ",") (map decimal v)

-- `{:?}` of an order
abbrev pub order_name : Order → List ℕ
order_name fixed = codes "Fixed"
order_name permuted = codes "Permuted"
order_name unknown = codes "Unknown"

-- `sort_unstable` on numbers gives the sorted list.
unfoldable pub compare_ordered : List ℕ → List ℕ → Order → Bool
compare_ordered observed expected fixed = list_eq observed expected
compare_ordered observed expected permuted = list_eq (sort observed) (sort expected)
compare_ordered observed expected unknown = list_eq (sort observed) (sort expected)

unfoldable pub field : List ℕ → Bool → List ℕ → List ℕ → FieldDiff
field name is_ok observed expected = record {
  name = name;
  is_ok = is_ok;
  observed = observed;
  expected = expected;
  note = none;
}

-- A list under an ordering rule: counts where it agrees, the lists and the rule where it does not.
unfoldable pub list_field : List ℕ → List ℕ → List ℕ → List ℕ → Order → FieldDiff
list_field name noun observed expected order =
    if compare_ordered observed expected order
    then field name true (decimal (length observed) ++ noun) (decimal (length expected) ++ noun)
    else record {
      name = name;
      is_ok = false;
      observed = list observed;
      expected = list expected;
      note = some (codes "order rule: " ++ order_name order);
    }

unfoldable pub strip_psk : List ℕ → List ℕ
strip_psk v = keep (λ e. not (e == ext_pre_shared_key)) (strip v)

unfoldable pub grease_counts : ℕ → ℕ → List ℕ
grease_counts ciphers exts =
    decimal ciphers ++ (codes " cipher, " ++ (decimal exts ++ codes " extension"))

unfoldable pub grease_field : ℕ → ℕ → ℕ → ℕ → FieldDiff
grease_field obs_gc obs_ge exp_gc exp_ge =
    let agree = (obs_gc == exp_gc) && (obs_ge == exp_ge) in
    record {
      name = codes "GREASE";
      is_ok = agree;
      observed = grease_counts obs_gc obs_ge;
      expected = grease_counts exp_gc exp_ge;
      note =
          if not agree && ((obs_gc == 0) && (obs_ge == 0))
          then some (codes "absent entirely, no browser omits GREASE")
          else none;
    }

abbrev pub presence : Bool → List ℕ
presence b = if b then codes "present" else codes "absent"

unfoldable pub presence_field : List ℕ → Bool → Bool → FieldDiff
presence_field name obs exp = field name (bool_eq obs exp) (presence obs) (presence exp)

unfoldable pub text_field : List ℕ → List ℕ → List ℕ → FieldDiff
text_field name obs exp = field name (list_eq obs exp) obs exp

unfoldable pub settings_str : List (ℕ × ℕ) → List ℕ
settings_str s = join (codes ";") (map (λ (p : ℕ × ℕ). decimal p.0 ++ (codes ":" ++ decimal p.1)) s)

abbrev pub has_id_3 : List (ℕ × ℕ) → Bool
has_id_3 s = any (λ (p : ℕ × ℕ). p.0 == 3) s

unfoldable pub settings_field : List (ℕ × ℕ) → List (ℕ × ℕ) → FieldDiff
settings_field obs exp =
    let agree = list_eq (settings_str obs) (settings_str exp) in
    record {
      name = codes "SETTINGS";
      is_ok = agree;
      observed = settings_str obs;
      expected = settings_str exp;
      note =
          if not agree && (has_id_3 obs && not (has_id_3 exp))
          then some (codes "sends id 3, which no browser does")
          else none;
    }

unfoldable pub window_text : Option ℕ → List ℕ
window_text v = unwrap_or (map_option decimal v) []

unfoldable pub h2_fields : Option H2Fingerprint → Option H2Profile → List FieldDiff
h2_fields (some obs) (some exp) =
    settings_field obs.settings exp.settings
    ∷ field (codes "WINDOW_UPDATE") (option_eq obs.window_update exp.window_update)
        (window_text obs.window_update) (window_text exp.window_update)
    ∷ text_field (codes "pseudo-header") obs.pseudo_order exp.pseudo_order
    ∷ []
h2_fields none (some exp) =
    field (codes "HTTP/2") false (codes "not captured") (codes "expected") ∷ []
h2_fields _ none = []

unfoldable pub missing_note : List (List ℕ) → Option (List ℕ)
missing_note missing =
    if is_empty missing then none else some (codes "missing: " ++ join (codes ",") missing)

unfoldable pub header_order_field : List (List ℕ) → List (List ℕ) → FieldDiff
header_order_field obs exp =
    if strings_eq obs exp
    then field (codes "header order") true (decimal (length obs) ++ codes " headers")
        (decimal (length exp) ++ codes " headers")
    else record {
      name = codes "header order";
      is_ok = false;
      observed = join (codes ",") obs;
      expected = join (codes ",") exp;
      note = missing_note (keep (λ h. not (any (λ o. list_eq o h) obs)) exp);
    }

unfoldable pub http_fields : Option H2Fingerprint → Option HttpProfileStored → List FieldDiff
http_fields (some obs) (some exp) =
    header_order_field (comparable_headers obs.http) exp.header_names
    ∷ presence_field (codes "accept-language") obs.http.has_accept_language exp.has_accept_language
    ∷ []
http_fields _ _ = []

unfoldable pub diff : ClientReport → Profile → Diff
diff report profile = record {
  label = profile.label;
  fields =
      list_field (codes "ciphers") (codes " ciphers") (strip report.tls.ciphers) profile.tls.ciphers
        profile.equivalence.cipher_order
      ∷ list_field (codes "extensions") (codes " extensions") (strip_psk report.tls.extensions)
          (strip_psk profile.tls.extensions) profile.equivalence.extension_order
      ∷ grease_field (length report.tls.grease_cipher_positions)
          (length report.tls.grease_ext_positions) (length profile.tls.grease_cipher_positions)
          (length profile.tls.grease_ext_positions)
      ∷ text_field (codes "ALPN") (unwrap_or report.tls.alpn (codes "none"))
          (unwrap_or profile.tls.alpn (codes "none"))
      ∷ presence_field (codes "SNI") report.tls.has_sni profile.tls.has_sni
      ∷ (h2_fields report.h2 profile.h2 ++ http_fields report.h2 profile.http);
}
