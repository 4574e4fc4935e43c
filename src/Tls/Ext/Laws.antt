-- ===== src/Tls/Ext/Laws.antt =====
-- Reading back the extension bodies that a client writes.
use flux_parsing_daemon.Base.{
  ℕ, suc, ◌+◌, ◌*◌, ◌≤◌, ◌<◌, ◌≡◌, refl, ◌⊎◌, inl, inr, arith, true, not, List, [], ◌∷◌, ◌++◌,
  Option, none, some, to_option, length, length-append, keep, any, ◌==◌, All,
}
use flux_parsing_daemon.Base.Bytes.{to_be16}
use flux_parsing_daemon.Base.Options.{unwrap_or, maximum, maximum-eq-some, maximum-eq-none}
use flux_parsing_daemon.Base.Utf8.{from_utf8}
use flux_parsing_daemon.Tls.Grease.{is_grease, strip}
use flux_parsing_daemon.Tls.Reader.Laws.{take_lem, u8_lem}
use flux_parsing_daemon.Tls.Hello.{RawExt}
use flux_parsing_daemon.Tls.Hello.Wire.{wire_u16s, length-wire_u16s}
use flux_parsing_daemon.Tls.Hello.RoundTrip.{u16_wire, u16_chunks-wire_u16s}
use flux_parsing_daemon.Tls.Ext.{
  body_of, ext_sig_algs, ext_supported_versions, ext_alpn, sig_algs, first_alpn, negotiated_version,
}

-- A signature_algorithms body is read back in wire order, whatever follows the list inside the body.
pub sig_algs-wire :
    (exts : List RawExt) (vs more : List ℕ)
    → body_of exts ext_sig_algs ≡ some (to_be16 (2 * length vs) ++ (wire_u16s vs ++ more))
    → length vs < 32768
    → sig_algs exts ≡ vs
unfolding sig_algs to_option
sig_algs-wire exts vs more e h =
    rw
      (
        e,
        u16_wire [] (wire_u16s vs ++ more) (2 * length vs) (omega arith),
        take_lem (to_be16 (2 * length vs)) (wire_u16s vs) more (2 * length vs) (length-wire_u16s vs)
            (omega arith),
      )
      (u16_chunks-wire_u16s vs)

-- The protocol named first in an ALPN body is the one reported, where it is UTF-8: whatever protocols are
-- listed behind it, and whatever follows the list.
pub first_alpn-wire :
    (exts : List RawExt) (name others more : List ℕ)
    → body_of exts ext_alpn
      ≡ some (
          to_be16 (suc (length name) + length others) ++ ((length name ∷ (name ++ others)) ++ more))
    → length name < 256
    → suc (length name) + length others < 65536
    → first_alpn exts ≡ from_utf8 name
unfolding first_alpn to_option
first_alpn-wire exts name others more e h s =
    let n : ℕ = suc (length name) + length others in
    let items : List ℕ = length name ∷ (name ++ others) in
    rw (
      e,
      u16_wire [] (items ++ more) n (omega arith),
      take_lem (to_be16 n) items more n (omega (arith, length-append name others)) (omega arith),
      u8_lem [] (name ++ others) (length name) (omega arith),
      take_lem (length name ∷ []) name others (length name) refl (omega arith),
    )

-- The version reported for a supported_versions body is the highest of the listed values that are not GREASE,
-- and the legacy version where there is no such value.
pub negotiated_version-wire :
    (exts : List RawExt) (legacy : ℕ) (vs more : List ℕ)
    → body_of exts ext_supported_versions ≡ some (2 * length vs ∷ (wire_u16s vs ++ more))
    → length vs < 128
    → ((strip vs ≡ []) × (negotiated_version exts legacy ≡ legacy))
      ⊎ (All (λ v. v ≤ negotiated_version exts legacy) (strip vs)
          × (any (λ v. v == negotiated_version exts legacy) (strip vs) ≡ true))
unfolding negotiated_version to_option strip
negotiated_version-wire exts legacy vs more e h =
    rw
      (
        e,
        u8_lem [] (wire_u16s vs ++ more) (2 * length vs) (omega arith),
        take_lem (2 * length vs ∷ []) (wire_u16s vs) more (2 * length vs) (length-wire_u16s vs)
            (omega arith),
        u16_chunks-wire_u16s vs,
      )
      (highest (keep (λ v. not (is_grease v)) vs) (maximum (keep (λ v. not (is_grease v)) vs)) refl)
  where
    highest :
        (ws : List ℕ) (o : Option ℕ)
        → maximum ws ≡ o
        → ((ws ≡ []) × (unwrap_or o legacy ≡ legacy))
          ⊎ (All (λ v. v ≤ unwrap_or o legacy) ws × (any (λ v. v == unwrap_or o legacy) ws ≡ true))
    highest ws (some m) e = inr (maximum-eq-some ws e)
    highest ws none e = inl (maximum-eq-none ws e, refl)
