-- ===== src/Emulate/Ciphers.antt =====
-- crates/fingerprint-emulate/src/ciphers.rs, and the cipher lists and the ALPN bytes of build.rs.
use flux_parsing_daemon.Base.{
  ℕ, ◌≡◌, refl, sym, ap, ◌∙◌, append_assoc, append-nil, Bool, true, false, ◌&&◌, not, inl, inr,
  List, [], ◌∷◌, ◌++◌, Option, none, some, Result, ok, err, ok_or, ◌>>=◌, find, keep, length,
  filter_map, leb, ◌==◌, if◌then◌else◌, Bool-cases,
}
use flux_parsing_daemon.Base.Bytes.{codes}
use flux_parsing_daemon.Base.Options.{map_option, is_some}
use flux_parsing_daemon.Base.Text.{join}
use flux_parsing_daemon.Probe.Profile.{Profile}
use flux_parsing_daemon.Emulate.{EmulateError, unknown_cipher}

-- The arms of the `match`.
unfoldable pub cipher_names : List (ℕ × List ℕ)
cipher_names =
    (0x1301, codes "TLS_AES_128_GCM_SHA256")
    ∷ (0x1302, codes "TLS_AES_256_GCM_SHA384")
    ∷ (0x1303, codes "TLS_CHACHA20_POLY1305_SHA256")
    ∷ (0xc02b, codes "ECDHE-ECDSA-AES128-GCM-SHA256")
    ∷ (0xc02c, codes "ECDHE-ECDSA-AES256-GCM-SHA384")
    ∷ (0xc02f, codes "ECDHE-RSA-AES128-GCM-SHA256")
    ∷ (0xc030, codes "ECDHE-RSA-AES256-GCM-SHA384")
    ∷ (0xcca8, codes "ECDHE-RSA-CHACHA20-POLY1305")
    ∷ (0xcca9, codes "ECDHE-ECDSA-CHACHA20-POLY1305")
    ∷ (0xc009, codes "ECDHE-ECDSA-AES128-SHA")
    ∷ (0xc00a, codes "ECDHE-ECDSA-AES256-SHA")
    ∷ (0xc013, codes "ECDHE-RSA-AES128-SHA")
    ∷ (0xc014, codes "ECDHE-RSA-AES256-SHA")
    ∷ (0x009c, codes "AES128-GCM-SHA256")
    ∷ (0x009d, codes "AES256-GCM-SHA384")
    ∷ (0x002f, codes "AES128-SHA")
    ∷ (0x0035, codes "AES256-SHA")
    ∷ (0x000a, codes "DES-CBC3-SHA")
    ∷ []

unfoldable pub cipher_name : ℕ → Option (List ℕ)
cipher_name id =
    map_option (λ (e : ℕ × List ℕ). e.1) (find (λ (e : ℕ × List ℕ). e.0 == id) cipher_names)

unfoldable pub is_tls13 : ℕ → Bool
is_tls13 id = leb 0x1301 id && leb id 0x1303

-- `==` on `bool`
abbrev pub same : Bool → Bool → Bool
same true b = b
same false b = not b

-- The loop of `names_for`.
unfoldable pub names_loop : Bool → List ℕ → List (List ℕ) → Result EmulateError (List (List ℕ))
names_loop tls13 [] out = ok out
names_loop tls13 (id ∷ ciphers) out = do
  name ← ok_or (cipher_name id) (unknown_cipher id)
  names_loop tls13 ciphers (if same (is_tls13 id) tls13 then out ++ (name ∷ []) else out)

unfoldable pub names_for : Profile → Bool → Result EmulateError (List ℕ)
names_for profile tls13 = do
  out ← names_loop tls13 profile.tls.ciphers []
  ok (join (codes ":") out)

unfoldable pub cipher_list_for : Profile → Result EmulateError (List ℕ)
cipher_list_for profile = names_for profile false

unfoldable pub ciphersuites_for : Profile → Result EmulateError (List ℕ)
ciphersuites_for profile = names_for profile true

abbrev pub boringssl_tls13_order : List ℕ
boringssl_tls13_order = 0x1301 ∷ 0x1302 ∷ 0x1303 ∷ []

-- The loop over the two protocols: one whose length does not fit a byte is left out.
unfoldable pub encode_protos : List (List ℕ) → List ℕ
encode_protos [] = []
encode_protos (p ∷ protos) =
    let rest = encode_protos protos in if leb (length p) 255 then length p ∷ (p ++ rest) else rest

unfoldable pub encode_alpn : List ℕ → List ℕ
encode_alpn proto = encode_protos (proto ∷ codes "http/1.1" ∷ [])

-- The description: the first cipher without a name is the error, and where each has one, the names of the
-- half asked for.
unfoldable pub unknown_ciphers : List ℕ → List ℕ
unknown_ciphers ciphers = keep (λ id. not (is_some (cipher_name id))) ciphers

unfoldable pub names_or_first : Bool → List ℕ → List ℕ → Result EmulateError (List ℕ)
names_or_first tls13 ciphers [] =
    ok (join (codes ":") (filter_map cipher_name (keep (λ id. same (is_tls13 id) tls13) ciphers)))
names_or_first tls13 ciphers (id ∷ rest) = err (unknown_cipher id)

-- The loop against the description, for the names so far.
unfoldable loop_described :
    Bool → List ℕ → List (List ℕ) → List ℕ → Result EmulateError (List (List ℕ))
loop_described tls13 ciphers out [] =
    ok (out ++ filter_map cipher_name (keep (λ id. same (is_tls13 id) tls13) ciphers))
loop_described tls13 ciphers out (id ∷ rest) = err (unknown_cipher id)

next_described :
    (tls13 : Bool) (id : ℕ) (ciphers : List ℕ) (out : List (List ℕ)) (name : List ℕ)
    (unknown : List ℕ)
    → cipher_name id ≡ some name
    → loop_described tls13 ciphers
        (if same (is_tls13 id) tls13 then out ++ (name ∷ []) else out)
        unknown
      ≡ loop_described tls13 (id ∷ ciphers) out unknown
unfolding loop_described keep filter_map
next_described tls13 id ciphers out name [] e = elim (Bool-cases (same (is_tls13 id) tls13)) [
  | inl f ↦ rw (f, filter_map, e) (ap ok (append_assoc out (name ∷ []) _))
  | inr f ↦ rw f refl
]
next_described tls13 id ciphers out name (u ∷ unknown) e = refl

names_loop_lem :
    (tls13 : Bool) (ciphers : List ℕ) (out : List (List ℕ))
    → names_loop tls13 ciphers out ≡ loop_described tls13 ciphers out (unknown_ciphers ciphers)
unfolding names_loop loop_described unknown_ciphers keep filter_map ok_or ◌>>=◌
names_loop_lem tls13 [] out = ap ok (sym (append-nil out))
names_loop_lem tls13 (id ∷ ciphers) out = by_name (cipher_name id) refl (
    names_loop_lem tls13 ciphers
      (if same (is_tls13 id) tls13 then out ++ (name_of (cipher_name id) ∷ []) else out))
  where
    name_of : Option (List ℕ) → List ℕ
    name_of none = []
    name_of (some name) = name

    by_name :
        (n : Option (List ℕ))
        → cipher_name id ≡ n
        → names_loop tls13 ciphers
            (if same (is_tls13 id) tls13 then out ++ (name_of n ∷ []) else out)
          ≡ loop_described tls13 ciphers
              (if same (is_tls13 id) tls13 then out ++ (name_of n ∷ []) else out)
              (unknown_ciphers ciphers)
        → names_loop tls13 (id ∷ ciphers) out
          ≡ loop_described tls13 (id ∷ ciphers) out (unknown_ciphers (id ∷ ciphers))
    by_name none e rest = rw e refl
    by_name (some name) e rest =
        rw e (rest ∙ next_described tls13 id ciphers out name (unknown_ciphers ciphers) e)

-- The list of a profile is the names of its ciphers of the half asked for, in its order, where each of its
-- ciphers has a name, and else the error with the first that has none, whatever its half.
pub names_for-first :
    (profile : Profile) (tls13 : Bool)
    → names_for profile tls13
      ≡ names_or_first tls13 profile.tls.ciphers (unknown_ciphers profile.tls.ciphers)
unfolding names_for loop_described names_or_first ◌>>=◌
names_for-first profile tls13 =
    ap (λ r. r >>= (λ out. ok (join (codes ":") out))) (names_loop_lem tls13 profile.tls.ciphers [])
    ∙ joined (unknown_ciphers profile.tls.ciphers)
  where
    joined :
        (unknown : List ℕ)
        → (loop_described tls13 profile.tls.ciphers [] unknown
            >>= (λ out. ok (join (codes ":") out)))
          ≡ names_or_first tls13 profile.tls.ciphers unknown
    joined [] = refl
    joined (u ∷ unknown) = refl
