-- ===== src/Emulate/Build.antt =====
-- crates/fingerprint-emulate/src/build.rs: the calls by which a BoringSSL client is set up for a profile.
-- BoringSSL is known by the calls that it refuses; a builder is the list of the calls made on it.
pub mod SetUp
use flux_parsing_daemon.Base.{
  ℕ, Bool, true, false, ◌||◌, List, [], ◌∷◌, ◌++◌, Option, none, some, Result, ok, err, ◌>>=◌, any,
  ◌==◌, if◌then◌else◌, not, is_empty,
}
use flux_parsing_daemon.Probe.Profile.{Profile, Order, fixed, permuted, unknown}
use flux_parsing_daemon.Emulate.{EmulateError, tls}
use flux_parsing_daemon.Emulate.Ciphers.{cipher_list_for, encode_alpn}

abbrev pub ext_status_request : ℕ
ext_status_request = 5

abbrev pub ext_sct : ℕ
ext_sct = 18

abbrev pub ext_compress_certificate : ℕ
ext_compress_certificate = 27

abbrev pub ext_alps : ℕ
ext_alps = 17613

abbrev pub ext_ech : ℕ
ext_ech = 65037

-- The methods of `SslConnectorBuilder` and `ConnectConfiguration` that are called.
pub data Call : Type 0 where
  set_verify_none : Call
  set_min_tls12 set_max_tls13 : Call
  set_cipher_list : List ℕ → Call
  set_grease_enabled set_permute_extensions : Bool → Call
  set_alpn_protos : List ℕ → Call
  enable_ocsp_stapling enable_signed_cert_timestamps add_brotli : Call
  set_enable_ech_grease : Bool → Call
  add_application_settings : List ℕ → Call
  set_use_server_name_indication : Bool → Call

-- The error, where a builder or a configuration is not given, and where a call is refused behind others.
pub record Boring : Type 0 where
  pub no_builder : Option (List ℕ)
  pub no_configuration : Option (List ℕ)
  pub refusal : List Call → Call → Option (List ℕ)

unfoldable pub given : Option (List ℕ) → List Call → Result EmulateError (List Call)
given none calls = ok calls
given (some e) calls = err (tls e)

unfoldable pub is_permuted : Order → Bool
is_permuted permuted = true
is_permuted fixed = false
is_permuted unknown = false

unfoldable pub contains : List ℕ → ℕ → Bool
contains ext id = any (λ e. e == id) ext

unfoldable pub wants_grease : Profile → Bool
wants_grease profile =
    not (is_empty profile.tls.grease_cipher_positions)
    || not (is_empty profile.tls.grease_ext_positions)

-- A call that BoringSSL takes without an answer, where the condition holds.
unfoldable pub call_if : Bool → Call → List Call → List Call
call_if b c calls = if b then calls ++ (c ∷ []) else calls

module _ (boring : Boring) where
  -- A call that may be refused.
  unfoldable pub call : Call → List Call → Result EmulateError (List Call)
  call c calls = given (boring.refusal calls c) (calls ++ (c ∷ []))

  unfoldable pub call_alpn : Option (List ℕ) → List Call → Result EmulateError (List Call)
  call_alpn none calls = ok calls
  call_alpn (some alpn) calls = call (set_alpn_protos (encode_alpn alpn)) calls

  unfoldable pub call_ciphers : List ℕ → List Call → Result EmulateError (List Call)
  call_ciphers tls12 calls = elim (is_empty tls12) [
    | true ↦ ok calls
    | false ↦ call (set_cipher_list tls12) calls
  ]

  unfoldable pub call_compression : List ℕ → List Call → Result EmulateError (List Call)
  call_compression ext calls = elim (contains ext ext_compress_certificate) [
    | true ↦ call add_brotli calls
    | false ↦ ok calls
  ]

  unfoldable pub build : Profile → Result EmulateError (List Call)
  build profile = do
    b ← given boring.no_builder []
    b ← call set_min_tls12 (call_if true set_verify_none b)
    b ← call set_max_tls13 b
    tls12 ← cipher_list_for profile
    b ← call_ciphers tls12 b
    b ← call_alpn profile.tls.alpn (
        call_if true (set_permute_extensions (is_permuted profile.equivalence.extension_order))
          (call_if true (set_grease_enabled (wants_grease profile)) b))
    call_compression profile.tls.extensions (
        call_if (contains profile.tls.extensions ext_sct) enable_signed_cert_timestamps
          (call_if (contains profile.tls.extensions ext_status_request) enable_ocsp_stapling b))

  -- `enable_alps`, for the protocol where there is one.
  unfoldable pub call_alps : List ℕ → Option (List ℕ) → List Call → Result EmulateError (List Call)
  call_alps ext none calls = ok calls
  call_alps ext (some alpn) calls = elim (contains ext ext_alps) [
    | true ↦ call (add_application_settings alpn) calls
    | false ↦ ok calls
  ]

  -- The calls on the configuration, behind those on its connector.
  unfoldable pub configure : Profile → List Call → Result EmulateError (List Call)
  configure profile connector = do
    cfg ← given boring.no_configuration connector
    cfg ←
        call_alps profile.tls.extensions profile.tls.alpn
          (call_if (contains profile.tls.extensions ext_ech) (set_enable_ech_grease true) cfg)
    ok (call_if true (set_use_server_name_indication profile.tls.has_sni) cfg)
