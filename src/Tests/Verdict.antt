-- ===== src/Tests/Verdict.antt =====
-- The verdict, the headers attached and the log, for a client that claims to be curl and that matches a
-- profile of another family.
use flux_parsing_daemon.Base.{
  ℕ, ◌*◌, ◌/◌, ◌≡◌, refl, arith, true, false, List, [], ◌∷◌, some, keep, find, any, all, to_option,
  get_elem?, ltb, leb,
}
use flux_parsing_daemon.Base.Bytes.{codes}
use flux_parsing_daemon.Base.Text.{
  decimal, digits, has_substring, is_upper, join, lower, starts_with, to_lower,
}
use flux_parsing_daemon.Base.Sort.{sort, insert_sorted}
use flux_parsing_daemon.Tls.Grease.{strip, is_grease}
use flux_parsing_daemon.H2.Http.{
  from_headers, see_headers, see_header, see_regular, is_pseudo, comparable_headers, is_comparable,
}
use flux_parsing_daemon.H2.Hpack.StaticTable.{Header, header}
use flux_parsing_daemon.Probe.Profile.{ClientReport, Profile, from_report, h2_profile, http_profile}
use flux_parsing_daemon.Probe.Diff.{
  diff, list_field, compare_ordered, field, strip_psk, grease_field, grease_counts, h2_fields,
  header_order_field, http_fields, list, missing_note, option_eq, presence_field, settings_field,
  settings_str, strings_eq, text_field, window_text,
}
use flux_parsing_daemon.Probe.UserAgent.{
  chrome, curl, user_agent_of, claimed_family, claimed_of_lower, claimed_browser,
}
use flux_parsing_daemon.Probe.Verdict.{
  Scores, Candidate, candidate, ClaimMismatch, identify, tls_layer_agrees, best_of, rank,
  insert_ranked, named, score, detect_mismatch, contradiction, family_from_name, found_or, get,
  mismatch_of,
}
use flux_parsing_daemon.Probe.Verdict.Laws.{
  IsOrdered, IsOf, IsContradiction, identify-best, identify-mismatch,
}
use flux_parsing_daemon.Probe.Log.{ConnectionRecord, connection}
use flux_parsing_daemon.Tests.Probe.{tls, label, captured}

-- Percents in place of the floating-point ratios.
abbrev pub percents : Scores
percents = record {
  Score = ℕ;
  ratio = λ a b. a * 100 / b;
  zero_score = 0;
  match_floor = 60;
  is_at_least = λ a b. leb b a;
  is_less = ltb;
  two_places = decimal;
  percent = decimal;
}

percents-IsOrdered : IsOrdered percents
percents-IsOrdered = record {
  asymmetric = λ a b h. ground (arith, h);
  transitive = λ a b c h k. ground (arith, h, k);
}

abbrev pub headers : List Header
headers =
    header ":method" "GET" ∷ header "User-Agent" "curl/8.7.1" ∷ header "X-FP-Verdict" "safari" ∷ []

abbrev pub report : ClientReport
report = record {
  tls = tls;
  raw_hello = [];
  h2 = some record {
    settings = (3, 100) ∷ [];
    window_update = some 10;
    priorities = [];
    pseudo_order = codes "m,a,s,p";
    headers = headers;
    akamai = codes "3:100|10|0|m,a,s,p";
    http = from_headers headers;
  };
  alpn = some (codes "h2");
  handshake_failed = false;
}

abbrev pub chrome_profile : Profile
chrome_profile = record (from_report report label captured) { family = codes "chrome" }

abbrev best : Candidate percents
best = candidate percents report chrome_profile

best-named : (identify percents report (chrome_profile ∷ [])).best ≡ some best
unfolding identify best_of rank insert_ranked named candidate score diff tls_layer_agrees keep
    list_field compare_ordered from_report sort strip is_grease field strip_psk grease_field all any
    find insert_sorted decimal digits has_substring is_upper join lower starts_with to_lower
    comparable_headers is_comparable grease_counts h2_fields header_order_field http_fields list
    missing_note option_eq presence_field settings_field settings_str strings_eq text_field
    window_text h2_profile http_profile from_headers see_headers see_header see_regular is_pseudo
best-named = refl

identify-best_example :
    IsOf percents report (chrome_profile ∷ []) best
    × (leb 60 best.value ≡ true)
    × (tls_layer_agrees best.comparison ≡ true)
    × ((i : ℕ) (p : Profile)
        → get_elem? (chrome_profile ∷ []) i ≡ some p
        → ltb best.value (candidate percents report p).value ≡ false)
identify-best_example =
    identify-best percents report (chrome_profile ∷ []) best percents-IsOrdered best-named

abbrev claims_curl : ClaimMismatch
claims_curl = record { claimed = curl; observed = chrome }

curl-flagged : (identify percents report (chrome_profile ∷ [])).mismatch ≡ some claims_curl
unfolding identify detect_mismatch contradiction user_agent_of claimed_family claimed_of_lower
    claimed_browser family_from_name found_or get mismatch_of to_option best_of rank insert_ranked
    named candidate score diff tls_layer_agrees keep list_field compare_ordered from_report sort
    strip is_grease field strip_psk grease_field all any find insert_sorted decimal digits
    has_substring is_upper join lower starts_with to_lower comparable_headers is_comparable
    grease_counts h2_fields header_order_field http_fields list missing_note option_eq
    presence_field settings_field settings_str strings_eq text_field window_text h2_profile
    http_profile from_headers see_headers see_header see_regular is_pseudo
curl-flagged = refl

identify-mismatch_example : IsContradiction percents report (chrome_profile ∷ []) claims_curl
identify-mismatch_example =
    identify-mismatch percents report (chrome_profile ∷ []) claims_curl curl-flagged

abbrev pub connections : List (ConnectionRecord percents)
connections =
    connection percents report (identify percents report (chrome_profile ∷ [])) (codes "10.0.0.0") 5
    ∷ connection percents report (identify percents report []) (codes "-") 6
    ∷ []
