-- ===== src/Tests/Probe.antt =====
-- The theorems on crates/fingerprint-probe, applied to a small report.
use flux_parsing_daemon.Base.{ℕ, ◌≡◌, refl, true, false, not, List, [], ◌∷◌, some, keep}
use flux_parsing_daemon.Base.Bytes.{codes}
use flux_parsing_daemon.Tls.Ja4.{TlsFingerprint}
use flux_parsing_daemon.Tls.Hello.{Span}
use flux_parsing_daemon.H2.Http.{from_headers}
use flux_parsing_daemon.H2.Akamai.{H2Fingerprint}
use flux_parsing_daemon.H2.Hpack.StaticTable.{Header, header}
use flux_parsing_daemon.Probe.Profile.{ClientReport, Profile, permuted, from_report}
use flux_parsing_daemon.Probe.Diff.{is_clean, diff}
use flux_parsing_daemon.Probe.Diff.Laws.{diff-from_report, diff-perm, with_extensions}
use flux_parsing_daemon.Probe.Inject.{is_x_fp, strip_inbound, strip_inbound_lem}
use mathlib.Core.List.{Permᴰ}

abbrev no_span : Span
no_span = record { start = 0; len = 0 }

abbrev pub tls : TlsFingerprint
tls = record {
  ja3 = codes "a";
  ja3_string = codes "b";
  ja4 = codes "c";
  ja4_r = codes "d";
  ciphers = 0x0a0a ∷ 0x1301 ∷ [];
  extensions = 16 ∷ 41 ∷ [];
  grease_cipher_positions = 0 ∷ [];
  grease_ext_positions = [];
  alpn = some (codes "h2");
  has_sni = true;
  provenance = record { ciphers = no_span; extensions = no_span; per_extension = [] };
}

abbrev headers : List Header
headers = header ":method" "GET" ∷ header "X-FP-Verdict" "chrome" ∷ header "accept" "text/html" ∷ []

abbrev h2 : H2Fingerprint
h2 = record {
  settings = (3, 100) ∷ [];
  window_update = some 10;
  priorities = [];
  pseudo_order = codes "m,a,s,p";
  headers = headers;
  akamai = codes "3:100|10|0|m,a,s,p";
  http = from_headers headers;
}

abbrev pub report : ClientReport
report = record {
  tls = tls;
  raw_hello = [];
  h2 = some h2;
  alpn = some (codes "h2");
  handshake_failed = false;
}

abbrev pub label : List ℕ
label = codes "curl"

abbrev pub captured : List ℕ
captured = codes "2026"

diff-from_report_example : is_clean (diff report (from_report report label captured)) ≡ true
diff-from_report_example = diff-from_report report label captured

-- The profile of the report, with orders that are known to be permuted.
abbrev profile : Profile
profile = record (from_report report label captured) {
  equivalence = record { cipher_order = permuted; extension_order = permuted };
}

diff-perm_example :
    is_clean (diff (with_extensions report (41 ∷ 16 ∷ [])) profile) ≡ is_clean (diff report profile)
diff-perm_example = diff-perm report profile (41 ∷ 16 ∷ []) ∣ Permᴰ.swap refl refl ∣₁ refl

strip_inbound_lem_example :
    (strip_inbound headers ≡ keep (λ h. not (is_x_fp h.0)) headers)
    × (from_headers (strip_inbound headers) ≡ from_headers headers)
strip_inbound_lem_example = strip_inbound_lem headers
