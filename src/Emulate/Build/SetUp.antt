-- ===== src/Emulate/Build/SetUp.antt =====
-- The set-up of a client where BoringSSL refuses no call: the calls are those of its profile.
use flux_parsing_daemon.Base.{
  ℕ, ◌≤◌, ◌≡◌, refl, sym, ap, ◌∙◌, Bool, true, false, ◌||◌, ◌&&◌, not, inl, inr, List, [], ◌∷◌,
  ◌++◌, append-nil, append_assoc, Option, none, some, ok, ◌>>=◌, any, ◌==◌, Bool-cases, is_empty,
  length, le→leb,
}
use flux_parsing_daemon.Base.Bytes.{codes}
use flux_parsing_daemon.Base.Options.{is_some, unwrap_or}
use flux_parsing_daemon.Probe.Profile.{Profile, Order, fixed, permuted, unknown}
use flux_parsing_daemon.Emulate.Ciphers.{
  cipher_list_for, names_or_first, unknown_ciphers, names_for-first, encode_alpn, encode_protos,
}
use flux_parsing_daemon.Emulate.Build.{
  Call, set_verify_none, set_min_tls12, set_max_tls13, set_cipher_list, set_grease_enabled,
  set_permute_extensions, set_alpn_protos, enable_ocsp_stapling, enable_signed_cert_timestamps,
  add_brotli, set_enable_ech_grease, add_application_settings, set_use_server_name_indication,
  Boring, given, is_permuted, contains, wants_grease, call_if, call, call_alpn, call_ciphers,
  call_compression, build, call_alps, configure,
}

-- The calls whose condition holds, in their order.
unfoldable pub told : List (Bool × Call) → List Call
told [] = []
told ((true, c) ∷ rest) = c ∷ told rest
told ((false, c) ∷ rest) = told rest

-- Whether a GREASE value was recorded, of the ciphers or of the extensions.
unfoldable pub has_grease : List ℕ → List ℕ → Bool
has_grease [] [] = false
has_grease (c ∷ ciphers) extensions = true
has_grease [] (e ∷ extensions) = true

unfoldable pub shuffles : Order → Bool
shuffles fixed = false
shuffles permuted = true
shuffles unknown = false

-- The two protocols that are offered, each behind its length.
unfoldable pub alpn_bytes : Option (List ℕ) → List ℕ
alpn_bytes none = []
alpn_bytes (some p) = length p ∷ (p ++ (8 ∷ codes "http/1.1"))

unfoldable pub lists : Profile → ℕ → Bool
lists profile id = any (λ e. e == id) profile.tls.extensions

-- What a connector is told, with the cipher list `tls12`: of the extensions those of OCSP stapling (5), of
-- signed timestamps (18) and of compressed certificates (27).
unfoldable pub connector_calls : Profile → List ℕ → List (Bool × Call)
connector_calls profile tls12 =
    (true, set_verify_none)
    ∷ (true, set_min_tls12)
    ∷ (true, set_max_tls13)
    ∷ (not (is_empty tls12), set_cipher_list tls12)
    ∷ (
      true,
      set_grease_enabled
          (has_grease profile.tls.grease_cipher_positions profile.tls.grease_ext_positions),
    )
    ∷ (true, set_permute_extensions (shuffles profile.equivalence.extension_order))
    ∷ (is_some profile.tls.alpn, set_alpn_protos (alpn_bytes profile.tls.alpn))
    ∷ (lists profile 5, enable_ocsp_stapling)
    ∷ (lists profile 18, enable_signed_cert_timestamps)
    ∷ (lists profile 27, add_brotli)
    ∷ []

-- What a connection of it is told: of the extensions those of ECH (65037) and of ALPS (17613).
unfoldable pub connection_calls : Profile → List (Bool × Call)
connection_calls profile =
    (lists profile 65037, set_enable_ech_grease true)
    ∷ (
      lists profile 17613 && is_some profile.tls.alpn,
      add_application_settings (unwrap_or profile.tls.alpn []),
    )
    ∷ (true, set_use_server_name_indication profile.tls.has_sni)
    ∷ []

call_if-told :
    (b : Bool) (c : Call) (calls : List Call) (rest : List (Bool × Call))
    → call_if b c calls ++ told rest ≡ calls ++ told ((b, c) ∷ rest)
unfolding call_if told
call_if-told true c calls rest = append_assoc calls (c ∷ []) (told rest)
call_if-told false c calls rest = refl

-- The calls behind others, each as it is made.
unfoldable tell : List Call → List (Bool × Call) → List Call
tell calls [] = calls
tell calls ((b, c) ∷ rest) = tell (call_if b c calls) rest

tell-told : (cs : List (Bool × Call)) (calls : List Call) → tell calls cs ≡ calls ++ told cs
unfolding tell
tell-told [] calls = unfold told in sym (append-nil calls)
tell-told ((b, c) ∷ rest) calls = tell-told rest (call_if b c calls) ∙ call_if-told b c calls rest

wants_grease-has_grease :
    (profile : Profile)
    → wants_grease profile
      ≡ has_grease profile.tls.grease_cipher_positions profile.tls.grease_ext_positions
unfolding wants_grease
wants_grease-has_grease profile =
    by_lists profile.tls.grease_cipher_positions profile.tls.grease_ext_positions
  where
    by_lists : (cs es : List ℕ) → (not (is_empty cs) || not (is_empty es)) ≡ has_grease cs es
    by_lists [] [] = unfold has_grease in refl
    by_lists (c ∷ cs) es = unfold has_grease in refl
    by_lists [] (e ∷ es) = unfold has_grease in refl

is_permuted-shuffles : (o : Order) → is_permuted o ≡ shuffles o
unfolding is_permuted shuffles
is_permuted-shuffles fixed = refl
is_permuted-shuffles permuted = refl
is_permuted-shuffles unknown = refl

encode_alpn-alpn_bytes : (p : List ℕ) → length p ≤ 255 → encode_alpn p ≡ alpn_bytes (some p)
unfolding encode_alpn encode_protos alpn_bytes
encode_alpn-alpn_bytes p h = rw (le→leb (length p) 255 h) refl

given-none : (o : Option (List ℕ)) (calls : List Call) → o ≡ none → given o calls ≡ ok calls
unfolding given
given-none none calls h = refl
given-none (some e) calls h = cc

module _ (boring : Boring)
    (willing : (calls : List Call) (c : Call) → boring.refusal calls c ≡ none) where
  call_lem : (c : Call) (calls : List Call) → call boring c calls ≡ ok (call_if true c calls)
  unfolding call given call_if
  call_lem c calls = rw (willing calls c) refl

  call_ciphers_lem :
      (tls12 : List ℕ) (calls : List Call)
      → call_ciphers boring tls12 calls
        ≡ ok (call_if (not (is_empty tls12)) (set_cipher_list tls12) calls)
  unfolding call_ciphers call_if
  call_ciphers_lem [] calls = refl
  call_ciphers_lem (x ∷ xs) calls = call_lem (set_cipher_list (x ∷ xs)) calls

  call_alpn_lem :
      (alpn : Option (List ℕ)) (calls : List Call)
      → ((p : List ℕ) → alpn ≡ some p → length p ≤ 255)
      → call_alpn boring alpn calls
        ≡ ok (call_if (is_some alpn) (set_alpn_protos (alpn_bytes alpn)) calls)
  unfolding call_alpn call_if
  call_alpn_lem none calls h = refl
  call_alpn_lem (some p) calls h =
      rw (encode_alpn-alpn_bytes p (h p refl))
        (call_lem (set_alpn_protos (alpn_bytes (some p))) calls)

  call_compression_lem :
      (ext : List ℕ) (calls : List Call)
      → call_compression boring ext calls ≡ ok (call_if (any (λ e. e == 27) ext) add_brotli calls)
  unfolding call_compression contains call_if
  call_compression_lem ext calls = elim (Bool-cases (any (λ e. e == 27) ext)) [
    | inl e ↦ rw (call_compression, e) (call_lem add_brotli calls)
    | inr e ↦ rw (call_compression, e) refl
  ]

  call_alps_lem :
      (ext : List ℕ) (alpn : Option (List ℕ)) (calls : List Call)
      → call_alps boring ext alpn calls
        ≡ ok (
            call_if
              (any (λ e. e == 17613) ext && is_some alpn)
              (add_application_settings (unwrap_or alpn []))
              calls)
  unfolding call_alps contains call_if
  call_alps_lem ext none calls = elim (Bool-cases (any (λ e. e == 17613) ext)) [
    | inl e ↦ rw (call_alps, e) refl
    | inr e ↦ rw (call_alps, e) refl
  ]
  call_alps_lem ext (some p) calls = elim (Bool-cases (any (λ e. e == 17613) ext)) [
    | inl e ↦ rw (call_alps, e) (call_lem (add_application_settings p) calls)
    | inr e ↦ rw (call_alps, e) refl
  ]

  build-told :
      (profile : Profile) (tls12 : List ℕ)
      → boring.no_builder ≡ none
      → cipher_list_for profile ≡ ok tls12
      → ((p : List ℕ) → profile.tls.alpn ≡ some p → length p ≤ 255)
      → build boring profile ≡ ok (told (connector_calls profile tls12))
  unfolding build contains lists tell connector_calls ◌>>=◌
  build-told profile tls12 starts named short =
      rw
        (
          given-none boring.no_builder [] starts,
          call_lem set_min_tls12,
          call_lem set_max_tls13,
          named,
          call_ciphers_lem tls12,
          wants_grease-has_grease profile,
          is_permuted-shuffles profile.equivalence.extension_order,
          call_alpn_lem profile.tls.alpn _ short,
          call_compression_lem profile.tls.extensions,
        )
        (ap ok (tell-told (connector_calls profile tls12) []))

  configure-told :
      (profile : Profile) (connector : List Call)
      → boring.no_configuration ≡ none
      → configure boring profile connector ≡ ok (connector ++ told (connection_calls profile))
  unfolding configure contains lists tell connection_calls ◌>>=◌
  configure-told profile connector starts =
      rw
        (
          given-none boring.no_configuration connector starts,
          call_alps_lem profile.tls.extensions profile.tls.alpn,
        )
        (ap ok (tell-told (connection_calls profile) connector))

  -- Where BoringSSL gives a builder and a configuration and refuses no call, each cipher of the profile has a
  -- name, and its ALPN protocol fits a length byte: a client is set up, and the calls made are those for the
  -- profile, with the names of its ciphers of TLS 1.2, first on the connector and then on the connection.
  pub configure-build :
      (profile : Profile)
      → boring.no_builder ≡ none
      → boring.no_configuration ≡ none
      → unknown_ciphers profile.tls.ciphers ≡ []
      → ((p : List ℕ) → profile.tls.alpn ≡ some p → length p ≤ 255)
      → (tls12 : List ℕ) × (names_or_first false profile.tls.ciphers [] ≡ ok tls12)
        × (build boring profile ≡ ok (told (connector_calls profile tls12)))
        × (configure boring profile (told (connector_calls profile tls12))
            ≡ ok (told (connector_calls profile tls12) ++ told (connection_calls profile)))
  unfolding cipher_list_for names_or_first
  configure-build profile starts goes_on known short =
      let listed : (tls12 : List ℕ) × (names_or_first false profile.tls.ciphers [] ≡ ok tls12) =
        (_, refl) in
      let named : cipher_list_for profile ≡ ok listed.0 =
        names_for-first profile false
        ∙ ap (names_or_first false profile.tls.ciphers) known
        ∙ listed.1 in
      (
        listed.0,
        listed.1,
        build-told profile listed.0 starts named short,
        configure-told profile (told (connector_calls profile listed.0)) goes_on,
      )
