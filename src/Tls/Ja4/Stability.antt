-- ===== src/Tls/Ja4/Stability.antt =====
-- What JA4 does not depend on: the order of ciphers and extensions, and GREASE.
use flux_parsing_daemon.Base.{
  ℕ, ◌≡◌, refl, sym, ap, ◌∙◌, arith, true, false, not, List, ◌∷◌, ◌++◌, map, Option, length,
  is_empty, ◌==◌, if◌then◌else◌, ==→eq, find-insert_no, any-insert_no, keep-insert_no,
}
use flux_parsing_daemon.Base.Bytes.{codes}
use flux_parsing_daemon.Base.Options.{map_option}
use flux_parsing_daemon.Base.Sort.{sort-eq_of_perm}
use flux_parsing_daemon.Base.Perms.{keep-perm, any-perm, all-perm, length-perm, find-permᴰ}
use flux_parsing_daemon.Tls.Grease.{is_grease, strip}
use flux_parsing_daemon.Tls.Hello.{RawExt, RawHello}
use flux_parsing_daemon.Tls.Ext.{
  ext_server_name, ext_alpn, ext_sig_algs, ext_supported_versions, body_of, has_sni, first_alpn,
  sig_algs, negotiated_version,
}
use flux_parsing_daemon.Tls.Ja4.{
  Digests, ext_ids, hex_list, in_segment_a, ja4_a, ja4_b, ja4_b_string, ja4_c, ja4_c_string,
  ja4_from_hello, truncated_hash, empty_hash,
}
use mathlib.Core.List.{Perm, Nodup, map-append}
use mathlib.Core.List.Perm
use mathlib.Core.Logic.{∥∥₁_elim}

strip-perm : {l m : List ℕ} → Perm l m → Perm (strip l) (strip m)
unfolding strip
strip-perm h = keep-perm _ h

-- The cipher segment does not depend on the order in which the ciphers are offered.
pub ja4_b-perm : (d : Digests) {l m : List ℕ} → Perm l m → ja4_b d l ≡ ja4_b d m
unfolding ja4_b ja4_b_string
ja4_b-perm d h =
    ap (λ s. if is_empty (hex_list s) then empty_hash else truncated_hash d (hex_list s))
      (sort-eq_of_perm (strip-perm h))

ja4_c_string-perm :
    {l m : List ℕ} (sigs : List ℕ) → Perm l m → ja4_c_string l sigs ≡ ja4_c_string m sigs
unfolding ja4_c_string
ja4_c_string-perm sigs h =
    ap (λ s. hex_list s ++ (codes "_" ++ hex_list sigs))
      (sort-eq_of_perm (keep-perm (λ id. not (in_segment_a id)) (strip-perm h)))

pub ja4_c-perm :
    (d : Digests) {l m : List ℕ} (sigs : List ℕ) → Perm l m → ja4_c d l sigs ≡ ja4_c d m sigs
unfolding ja4_c
ja4_c-perm d sigs h = cc (all-perm in_segment_a (strip-perm h), ja4_c_string-perm sigs h)

option_set : IsSet (Option (List ℕ))
option_set = hlevel

body_of-perm :
    (id : ℕ) {l m : List RawExt}
    → Perm l m
    → Nodup (map (λ (e : RawExt). e.id) l)
    → body_of l id ≡ body_of m id
unfolding body_of
body_of-perm id h d =
    ∥∥₁_elim h (option_set _ _)
      (λ k. ap (map_option (λ e. e.body)) (find-permᴰ (λ (e : RawExt). e.id) id k d))

-- All that JA4 reads of a hello.
record AgreeForJa4 (d : Digests) (h h' : RawHello) : Type 0 where
  version : h.legacy_version ≡ h'.legacy_version
  sni : has_sni h.extensions ≡ has_sni h'.extensions
  alpn : body_of h.extensions ext_alpn ≡ body_of h'.extensions ext_alpn
  sigs : body_of h.extensions ext_sig_algs ≡ body_of h'.extensions ext_sig_algs
  versions :
      body_of h.extensions ext_supported_versions ≡ body_of h'.extensions ext_supported_versions
  cipher_count : length (strip h.ciphers) ≡ length (strip h'.ciphers)
  ext_count : length (strip (ext_ids h)) ≡ length (strip (ext_ids h'))
  segment_b : ja4_b d h.ciphers ≡ ja4_b d h'.ciphers
  segment_c : (s : List ℕ) → ja4_c d (ext_ids h) s ≡ ja4_c d (ext_ids h') s

module _ (d : Digests) {h h' : RawHello} (a : AgreeForJa4 d h h') where
  sig_algs-agree : sig_algs h.extensions ≡ sig_algs h'.extensions
  unfolding sig_algs
  sig_algs-agree = cc (a.sigs)

  ja4_a-agree : ja4_a h ≡ ja4_a h'
  unfolding ja4_a first_alpn negotiated_version
  ja4_a-agree = cc (a.version, a.sni, a.alpn, a.versions, a.cipher_count, a.ext_count)

  ja4-agree : ja4_from_hello d h ≡ ja4_from_hello d h'
  unfolding ja4_from_hello
  ja4-agree = cc (ja4_a-agree, a.segment_b, sig_algs-agree, a.segment_c (sig_algs h.extensions))

-- JA4 does not change when a client permutes its ciphers and its extensions, where the version is the same
-- and no extension occurs twice.
pub ja4-perm :
    (d : Digests) (h h' : RawHello)
    → h.legacy_version ≡ h'.legacy_version
    → Perm h.ciphers h'.ciphers
    → Perm h.extensions h'.extensions
    → Nodup (ext_ids h)
    → ja4_from_hello d h ≡ ja4_from_hello d h'
ja4-perm d h h' v c e n =
    let ids : Perm (ext_ids h) (ext_ids h') = Perm.map (λ (x : RawExt). x.id) e in
    ja4-agree d {h = h} {h' = h'} (record {
      version = v;
      sni = unfold has_sni in any-perm _ e;
      alpn = body_of-perm ext_alpn e n;
      sigs = body_of-perm ext_sig_algs e n;
      versions = body_of-perm ext_supported_versions e n;
      cipher_count = length-perm (strip-perm c);
      ext_count = length-perm (strip-perm ids);
      segment_b = ja4_b-perm d c;
      segment_c = λ s. ja4_c-perm d s ids;
    })

strip-insert :
    (xs : List ℕ) (v : ℕ) (ys : List ℕ)
    → is_grease v ≡ true
    → strip (xs ++ v ∷ ys) ≡ strip (xs ++ ys)
unfolding strip
strip-insert xs v ys g = keep-insert_no (λ v. not (is_grease v)) xs v ys (ap not g)

-- No extension that JA4 reads has a GREASE id.
grease-ne : (v id : ℕ) → is_grease v ≡ true → is_grease id ≡ false → (v == id) ≡ false
grease-ne v id g k = ground (arith, ==→eq v id)

body_of-insert :
    (xs : List RawExt) (e : RawExt) (ys : List RawExt) (id : ℕ)
    → is_grease e.id ≡ true
    → is_grease id ≡ false
    → body_of (xs ++ e ∷ ys) id ≡ body_of (xs ++ ys) id
unfolding body_of
body_of-insert xs e ys id g k =
    ap (map_option (λ e. e.body))
      (find-insert_no (λ (x : RawExt). x.id == id) xs e ys (grease-ne e.id id g k))

map_ids-insert :
    (xs : List RawExt) (e : RawExt) (ys : List RawExt)
    → map (λ (x : RawExt). x.id) (xs ++ e ∷ ys)
      ≡ map (λ (x : RawExt). x.id) xs ++ e.id ∷ map (λ (x : RawExt). x.id) ys
map_ids-insert xs e ys = map-append _ xs (e ∷ ys)

strip_ids-insert :
    (xs : List RawExt) (e : RawExt) (ys : List RawExt)
    → is_grease e.id ≡ true
    → strip (map (λ (x : RawExt). x.id) (xs ++ e ∷ ys))
      ≡ strip (map (λ (x : RawExt). x.id) (xs ++ ys))
strip_ids-insert xs e ys g =
    ap strip (map_ids-insert xs e ys)
    ∙ strip-insert _ e.id _ g
    ∙ ap strip (sym (map-append _ xs ys))

-- JA4 does not change when a GREASE cipher and a GREASE extension are put anywhere into a ClientHello.
pub ja4-grease :
    (d : Digests) (h : RawHello) (cs cs' : List ℕ) (c : ℕ) (xs ys : List RawExt) (e : RawExt)
    → is_grease c ≡ true
    → is_grease e.id ≡ true
    → ja4_from_hello d (record h { ciphers = cs ++ c ∷ cs'; extensions = xs ++ e ∷ ys })
      ≡ ja4_from_hello d (record h { ciphers = cs ++ cs'; extensions = xs ++ ys })
unfolding is_grease
ja4-grease d h cs cs' c xs ys e gc ge =
    let ids = strip_ids-insert xs e ys ge in
    let ciphers = strip-insert cs c cs' gc in
    ja4-agree d (record {
      version = refl;
      sni = sni_same;
      alpn = body_of-insert xs e ys ext_alpn ge refl;
      sigs = body_of-insert xs e ys ext_sig_algs ge refl;
      versions = body_of-insert xs e ys ext_supported_versions ge refl;
      cipher_count = ap length ciphers;
      ext_count = ap length ids;
      segment_b = unfold ja4_b ja4_b_string in cc ciphers;
      segment_c = λ s. unfold ja4_c ja4_c_string in cc ids;
    })
  where
    sni_same : has_sni (xs ++ e ∷ ys) ≡ has_sni (xs ++ ys)
    sni_same =
        unfold has_sni in
        any-insert_no (λ (x : RawExt). x.id == ext_server_name) xs e ys
          (grease-ne e.id ext_server_name ge refl)
