-- ===== src/Tests/Attached.antt =====
-- The line of the admin socket that a viewer reads, over a small model of JSON, and a captured profile.
use flux_parsing_daemon.Base.{
  ℕ, zero, suc, ◌≡◌, refl, sym, ap, arith, Bool, true, List, [], ◌∷◌, map, Option, none, some, All,
  length, get_elem?, ◌<◌, ◌^◌,
}
use flux_parsing_daemon.Base.Bytes.{codes, IsByte}
use flux_parsing_daemon.Base.Options.{map_option, unwrap_or}
use flux_parsing_daemon.Tls.Hello.{Span}
use flux_parsing_daemon.Probe.Json.{Json, IsLawful, entry_of, record_json}
use flux_parsing_daemon.Probe.Log.{connection}
use flux_parsing_daemon.Probe.Verdict.{identify}
use flux_parsing_daemon.Probe.Profile.{Profile, fixed, from_report}
use flux_parsing_daemon.Viewer.{ciphers_len}
use flux_parsing_daemon.Viewer.Source.{record_frame, parse_frame, row_from_report}
use flux_parsing_daemon.Viewer.Source.Attached.{parse_frame-from_report}
use flux_parsing_daemon.Tls.Ja4.{fingerprint_of}
use flux_parsing_daemon.Commands.{Args}
use flux_parsing_daemon.Tests.Tls.{digests, sample_record}
use flux_parsing_daemon.Tests.Verdict.{percents}
use flux_parsing_daemon.Tests.Connection.{preamble, client_report, client-built}

-- An array is its length and its elements, an object the value of each key.
data Tree : Type 0 where
  null : Tree
  number float : ℕ → Tree
  bool : Bool → Tree
  string : List ℕ → Tree
  array : ℕ → (ℕ → Tree) → Tree
  object : (List ℕ → Tree) → Tree

abbrev index : Tree → List ℕ → Tree
index (object f) key = f key
index null key = null
index (number n) key = null
index (float x) key = null
index (bool b) key = null
index (string s) key = null
index (array n f) key = null

abbrev elem_at : Tree → ℕ → Tree
elem_at (array n f) i = f i
elem_at null i = null
elem_at (number n) i = null
elem_at (float x) i = null
elem_at (bool b) i = null
elem_at (string s) i = null
elem_at (object f) i = null

abbrev as_u64 : Tree → Option ℕ
as_u64 (number n) = some n
as_u64 _ = none

abbrev as_bool : Tree → Option Bool
as_bool (bool b) = some b
as_bool _ = none

abbrev as_f32 : Tree → Option ℕ
as_f32 (float x) = some x
as_f32 _ = none

abbrev as_str : Tree → Option (List ℕ)
as_str (string s) = some s
as_str _ = none

abbrev listed : ℕ → (ℕ → Tree) → List Tree
listed zero f = []
listed (suc n) f = f zero ∷ listed n (λ i. f (suc i))

abbrev as_array : Tree → Option (List Tree)
as_array (array n f) = some (listed n f)
as_array _ = none

abbrev tree_json : Json ℕ
tree_json = record {
  Value = Tree;
  Text = Tree;
  null = null;
  number = λ n. number n;
  float = λ x. float x;
  bool = λ b. bool b;
  string = λ s. string s;
  array = λ vs. array (length vs) (λ i. unwrap_or (get_elem? vs i) null);
  object = λ fields. object (entry_of null fields);
  index = index;
  elem = elem_at;
  as_u64 = as_u64;
  as_bool = as_bool;
  as_f32 = as_f32;
  bits = λ x. x;
  is_finite = λ x. true;
  as_str = as_str;
  as_array = as_array;
  to_string = λ v. v;
  from_str = λ v. some v;
}

listed-get_elem? : (vs : List Tree) → listed (length vs) (λ i. unwrap_or (get_elem? vs i) null) ≡ vs
listed-get_elem? [] = refl
listed-get_elem? (v ∷ vs) = ap (◌∷◌ v) (listed-get_elem? vs)

map-same : (vs : List Tree) → map (λ v. v) vs ≡ vs
map-same [] = refl
map-same (v ∷ vs) = ap (◌∷◌ v) (map-same vs)

as_array-same : (v : Tree) → as_array v ≡ map_option (map (λ w. w)) (as_array v)
as_array-same (array n f) = ap some (sym (map-same (listed n f)))
as_array-same null = refl
as_array-same (number n) = refl
as_array-same (float x) = refl
as_array-same (bool b) = refl
as_array-same (string s) = refl
as_array-same (object f) = refl

tree_json-IsLawful : IsLawful tree_json
tree_json-IsLawful = record {
  index-object = λ fields key. refl;
  elem-array = λ vs i. refl;
  as_u64-number = λ n. refl;
  as_bool-bool = λ b. refl;
  as_str-string = λ s. refl;
  as_str-null = refl;
  as_array-array = λ vs. ap some (listed-get_elem? vs);
  reread = λ v. v;
  from_str-to_string = λ v. refl;
  index-reread = λ v key. refl;
  elem-reread = λ v i. refl;
  as_u64-reread = λ v. refl;
  as_bool-reread = λ v. refl;
  as_f32-reread = λ x h. refl;
  as_str-reread = λ v. refl;
  as_array-reread = as_array-same;
}

sample_record-IsByte : All IsByte sample_record
sample_record-IsByte = omega arith

parse_frame-from_report_example :
    let id = identify percents client_report [] in
    let row = row_from_report percents (λ x. x) 9 (codes "10.0.0.0") client_report id 5 in
    (parse_frame tree_json (
        record_json percents tree_json
          (record (connection percents client_report id (codes "10.0.0.0") 5) { seq = 9 }))
      ≡ some (record_frame (record row { cipher_count = 0 })))
    × (ciphers_len (record row { cipher_count = 0 }) ≡ ciphers_len row)
unfolding fingerprint_of
parse_frame-from_report_example =
    parse_frame-from_report percents tree_json digests 9 5 (codes "10.0.0.0") sample_record preamble
      (some (codes "h2")) client_report (identify percents client_report []) tree_json-IsLawful refl
      client-built sample_record-IsByte ids
  where
    ids : All (λ (e : ℕ × Span). e.0 < 2 ^ 16) client_report.tls.provenance.per_extension
    ids = omega arith

abbrev args : Args
args = record { label = codes "curl"; samples = 2; out = codes "profiles"; timeout_secs = 30 }

abbrev captured : Profile
captured = record (from_report client_report (codes "curl") (codes "unknown")) {
  equivalence = record { cipher_order = fixed; extension_order = fixed };
  source = codes "capture/2";
}
