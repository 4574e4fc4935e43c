-- ===== src/Tls/Ja3.antt =====
-- crates/fingerprint-core/src/ja3.rs: the JA3 string. A `String` is the list of its bytes.
use flux_parsing_daemon.Base.{ℕ, List, [], ◌∷◌, map}
use flux_parsing_daemon.Base.Bytes.{codes}
use flux_parsing_daemon.Base.Text.{decimal, join}
use flux_parsing_daemon.Tls.Grease.{strip}

unfoldable pub join_u16 : List ℕ → List ℕ
join_u16 values = join (codes "-") (map decimal (strip values))

-- `version,ciphers,extensions,curves,point_formats`
unfoldable pub ja3_string : ℕ → List ℕ → List ℕ → List ℕ → List ℕ → List ℕ
unfolding join_u16
ja3_string legacy_version ciphers extensions curves point_formats =
    let pf = join (codes "-") (map decimal point_formats) in
    join (codes ",")
      (decimal legacy_version ∷ join_u16 ciphers ∷ join_u16 extensions ∷ join_u16 curves ∷ pf ∷ [])
