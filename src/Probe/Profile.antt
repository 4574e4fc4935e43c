-- ===== src/Probe/Profile.antt =====
-- crates/fingerprint-probe/src/profile.rs: the profile format and a profile from one observation;
-- `ClientReport` is the record of probe.rs.
use flux_parsing_daemon.Base.{ℕ, Bool, List, [], Option, none, some, any, ◌==◌, if◌then◌else◌}
use flux_parsing_daemon.Base.Bytes.{codes}
use flux_parsing_daemon.Base.Options.{map_option}
use flux_parsing_daemon.Tls.Grease.{strip}
use flux_parsing_daemon.Tls.Ja4.{TlsFingerprint}
use flux_parsing_daemon.H2.Akamai.{H2Fingerprint}
use flux_parsing_daemon.H2.Http.{comparable_headers}

pub record ClientReport : Type 0 where
  pub tls : TlsFingerprint
  pub raw_hello : List ℕ
  pub h2 : Option H2Fingerprint
  pub alpn : Option (List ℕ)
  pub handshake_failed : Bool

pub data Order : Type 0 where
  fixed permuted unknown : Order

pub record Equivalence : Type 0 where
  pub cipher_order : Order
  pub extension_order : Order

pub record TlsProfile : Type 0 where
  pub ja4 : List ℕ
  pub ciphers : List ℕ
  pub extensions : List ℕ
  pub grease_cipher_positions : List ℕ
  pub grease_ext_positions : List ℕ
  pub sig_algs : List ℕ
  pub alpn : Option (List ℕ)
  pub has_sni : Bool

pub record H2Profile : Type 0 where
  pub akamai : List ℕ
  pub settings : List (ℕ × ℕ)
  pub window_update : Option ℕ
  pub pseudo_order : List ℕ

pub record HttpProfileStored : Type 0 where
  pub header_names : List (List ℕ)
  pub header_count : ℕ
  pub has_accept_language : Bool

pub record Profile : Type 0 where
  pub label : List ℕ
  pub family : List ℕ
  pub captured : List ℕ
  pub source : List ℕ
  pub session : Option (List ℕ)
  pub equivalence : Equivalence
  pub tls : TlsProfile
  pub h2 : Option H2Profile
  pub http : Option HttpProfileStored

abbrev pub ext_pre_shared_key : ℕ
ext_pre_shared_key = 41

unfoldable pub h2_profile : H2Fingerprint → H2Profile
h2_profile h = record {
  akamai = h.akamai;
  settings = h.settings;
  window_update = h.window_update;
  pseudo_order = h.pseudo_order;
}

unfoldable pub http_profile : H2Fingerprint → HttpProfileStored
http_profile h = record {
  header_names = comparable_headers h.http;
  header_count = h.http.header_count;
  has_accept_language = h.http.has_accept_language;
}

-- `Profile::from_report`
unfoldable pub from_report : ClientReport → List ℕ → List ℕ → Profile
from_report report label captured = record {
  label = label;
  family = [];
  captured = captured;
  source = codes "manual";
  session =
      if any (λ e. e == ext_pre_shared_key) report.tls.extensions
      then some (codes "resumed")
      else none;
  equivalence = record { cipher_order = unknown; extension_order = unknown };
  tls = record {
    ja4 = report.tls.ja4;
    ciphers = strip report.tls.ciphers;
    extensions = strip report.tls.extensions;
    grease_cipher_positions = report.tls.grease_cipher_positions;
    grease_ext_positions = report.tls.grease_ext_positions;
    sig_algs = [];
    alpn = report.tls.alpn;
    has_sni = report.tls.has_sni;
  };
  h2 = map_option h2_profile report.h2;
  http = map_option http_profile report.h2;
}
