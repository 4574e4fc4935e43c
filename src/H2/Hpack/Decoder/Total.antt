-- ===== src/H2/Hpack/Decoder/Total.antt =====
-- A header block is decoded or refused, and the headers of one block are bounded.
use flux_parsing_daemon.Base.{
  ℕ, zero, suc, ◌+◌, ◌-◌, ◌≤◌, ◌<◌, ◌≡◌, ◌≢◌, arith, Bool, true, false, inl, inr, List, [], ◌∷◌,
  ◌++◌, Result, ok, err, stuck, on_ok, >>=-ne-stuck, ok_or-ne-stuck, ok-ne-stuck, Option, none,
  some, length, length-append, ltb, leb, if◌then◌else◌, Bool-cases,
}
use flux_parsing_daemon.H2.Hpack.Huffman
use flux_parsing_daemon.H2.Hpack.Integer.Bounds.{decode-ne-stuck}
use flux_parsing_daemon.H2.Hpack.StaticTable.{Header}
use flux_parsing_daemon.H2.Hpack.Table.{DynamicTable, new, lookup}
use flux_parsing_daemon.H2.Hpack.Table.Sized.{IsSized, new-IsSized}
use flux_parsing_daemon.H2.Hpack.Decoder.{
  string, inline_name, indexed_name, literal, literal_name, indexed_field, indexed_literal,
  size_update, plain_literal, representation, decode_rounds, decode, max_headers,
}
use flux_parsing_daemon.H2.Hpack.Decoder.Bounds.{representation-IsRound}

follow-ne-stuck : (s : Option Huffman.ℤ) (w : Huffman.Walk) → Huffman.follow s w ≢ stuck
unfolding Huffman.follow
follow-ne-stuck none w e = cc
follow-ne-stuck (some (Huffman.pos zero)) w e = cc
follow-ne-stuck (some (Huffman.pos (suc n))) w e = cc
follow-ne-stuck (some (Huffman.negsuc s)) w e = ground arith

walk_bits-ne-stuck : (i b : ℕ) (w : Huffman.Walk) → Huffman.walk_bits i b w ≢ stuck
unfolding Huffman.walk_bits Huffman.step
walk_bits-ne-stuck zero b w = ok-ne-stuck
walk_bits-ne-stuck (suc i) b w =
    >>=-ne-stuck _ _ (follow-ne-stuck _ _) λ w' _. walk_bits-ne-stuck i b w'

walk_bytes-ne-stuck : (input : List ℕ) (w : Huffman.Walk) → Huffman.walk_bytes input w ≢ stuck
unfolding Huffman.walk_bytes
walk_bytes-ne-stuck [] w = ok-ne-stuck
walk_bytes-ne-stuck (b ∷ input) w =
    >>=-ne-stuck _ _ (walk_bits-ne-stuck 8 b w) λ w' _. walk_bytes-ne-stuck input w'

if-ne-stuck {ℓ κ} :
    {E : Type κ} {A : Type ℓ} (b : Bool) (x y : Result E A)
    → x ≢ stuck
    → y ≢ stuck
    → (if b then x else y) ≢ stuck
if-ne-stuck true x y h k = h
if-ne-stuck false x y h k = k

err-ne-stuck {ℓ κ} : {E : Type κ} {A : Type ℓ} {e : E} → ◌≢◌ {A = Result E A} (err e) stuck
err-ne-stuck = λ p. cc

huffman-ne-stuck : (input : List ℕ) → Huffman.decode input ≢ stuck
unfolding Huffman.decode
huffman-ne-stuck input =
    >>=-ne-stuck _ _ (walk_bytes-ne-stuck input Huffman.start)
      λ w _. if-ne-stuck _ _ _ err-ne-stuck ok-ne-stuck

lookup-ne-stuck : (i : ℕ) (t : DynamicTable) → lookup i t ≢ stuck
unfolding lookup
lookup-ne-stuck i t =
    if-ne-stuck _ _ _ err-ne-stuck (if-ne-stuck _ _ _ (ok_or-ne-stuck _ _) (ok_or-ne-stuck _ _))

string-ne-stuck : (buf : List ℕ) → string buf ≢ stuck
unfolding string
string-ne-stuck buf = >>=-ne-stuck _ _ (ok_or-ne-stuck _ _) λ first _.
    >>=-ne-stuck _ _ (decode-ne-stuck buf 7) λ p _. if-ne-stuck _ _ _ err-ne-stuck (
      >>=-ne-stuck _ _ (ok_or-ne-stuck _ _) λ end _. >>=-ne-stuck _ _ (ok_or-ne-stuck _ _) λ raw _.
        >>=-ne-stuck _ _ (if-ne-stuck _ _ _ (huffman-ne-stuck raw) ok-ne-stuck)
          λ bytes _. ok-ne-stuck)

inline_name-ne-stuck : (buf : List ℕ) (used : ℕ) → inline_name buf used ≢ stuck
unfolding inline_name
inline_name-ne-stuck buf used =
    >>=-ne-stuck _ _ (ok_or-ne-stuck _ _)
      λ rest _. >>=-ne-stuck _ _ (string-ne-stuck rest) λ p _. ok-ne-stuck

indexed_name-ne-stuck : (i used : ℕ) (t : DynamicTable) → indexed_name i used t ≢ stuck
unfolding indexed_name
indexed_name-ne-stuck i used t = >>=-ne-stuck _ _ (lookup-ne-stuck i t) λ p _. ok-ne-stuck

literal-ne-stuck : (buf : List ℕ) (bits : ℕ) (t : DynamicTable) → literal buf bits t ≢ stuck
unfolding literal literal_name
literal-ne-stuck buf bits t = >>=-ne-stuck _ _ (decode-ne-stuck buf bits) λ p _.
    >>=-ne-stuck _ _
      (if-ne-stuck _ _ _ (inline_name-ne-stuck buf p.1) (indexed_name-ne-stuck p.0 p.1 t))
      λ q _.
        >>=-ne-stuck _ _ (ok_or-ne-stuck _ _)
          λ rest _. >>=-ne-stuck _ _ (string-ne-stuck rest) λ r _. ok-ne-stuck

representation-ne-stuck :
    (first : ℕ) (rest : List ℕ) (t : DynamicTable) → representation first rest t ≢ stuck
unfolding representation indexed_field indexed_literal size_update plain_literal
representation-ne-stuck first rest t =
    if-ne-stuck _ _ _
      (>>=-ne-stuck _ _ (decode-ne-stuck rest 7)
        λ p _. >>=-ne-stuck _ _ (lookup-ne-stuck p.0 t) λ h _. ok-ne-stuck)
      (if-ne-stuck _ _ _ (>>=-ne-stuck _ _ (literal-ne-stuck rest 6 t) λ p _. ok-ne-stuck) (
        if-ne-stuck _ _ _ (>>=-ne-stuck _ _ (decode-ne-stuck rest 5) λ p _. ok-ne-stuck) (
          if-ne-stuck _ _ _ (>>=-ne-stuck _ _ (literal-ne-stuck rest 4 t) λ p _. ok-ne-stuck)
            (>>=-ne-stuck _ _ (literal-ne-stuck rest 4 t) λ p _. ok-ne-stuck))))

decode_rounds-ne-stuck :
    (fuel : ℕ) (block : List ℕ) (pos : ℕ) (t : DynamicTable) (out : List Header)
    → IsSized t
    → length block - pos < fuel
    → decode_rounds fuel block pos t out ≢ stuck
unfolding decode_rounds
decode_rounds-ne-stuck zero block pos t out s h = absurd (omega arith)
decode_rounds-ne-stuck (suc fuel) block pos t out s h = elim (Bool-cases (ltb pos (length block))) [
  | inr done ↦ rw done ok-ne-stuck
  | inl more ↦ rw more (
      if-ne-stuck _ _ _ err-ne-stuck (
        >>=-ne-stuck _ _ (ok_or-ne-stuck _ _) λ first _.
          >>=-ne-stuck _ _ (ok_or-ne-stuck _ _) λ rest _.
            >>=-ne-stuck _ _ (representation-ne-stuck first rest t) λ r e.
              let k = representation-IsRound first rest t r s e in
              let lt : pos < length block = ground arith in
              decode_rounds-ne-stuck fuel block (pos + r.used) r.dynamic (out ++ r.fields) k.sized
                (omega (arith, k.consumes, h, lt))))
]

-- Decoding a header block ends: the fuel given is enough for any block.
pub decode_block-ne-stuck : (block : List ℕ) → decode block ≢ stuck
unfolding decode
decode_block-ne-stuck block =
    decode_rounds-ne-stuck (suc (length block)) block 0 new [] new-IsSized (omega arith)

decode_rounds-length :
    (fuel : ℕ) (block : List ℕ) (pos : ℕ) (t : DynamicTable) (out headers : List Header)
    → IsSized t
    → length out ≤ max_headers
    → decode_rounds fuel block pos t out ≡ ok headers
    → length headers ≤ max_headers
unfolding decode_rounds
decode_rounds-length zero block pos t out headers s h e = cc
decode_rounds-length (suc fuel) block pos t out headers s h e =
    elim (Bool-cases (ltb pos (length block))) [
      | inr done ↦ ground arith
      | inl more ↦ elim (Bool-cases (leb max_headers (length out))) [
        | inl full ↦ absurd (cc (rw full at (rw more at e)))
        | inr room ↦ on_ok _ _ (rw room at (rw more at e)) λ first _ e₁. on_ok _ _ e₁ λ rest _ e₂.
            on_ok _ _ e₂ λ r e₃ e₄.
              let k = representation-IsRound first rest t r s e₃ in
              decode_rounds-length fuel block (pos + r.used) r.dynamic (out ++ r.fields) headers
                k.sized (omega (arith, length-append out r.fields, k.pushes, gt_of room)) e₄
      ]
    ]
  where
    gt_of : leb max_headers (length out) ≡ false → length out < max_headers
    gt_of h = ground arith

-- A block decodes to at most 512 headers.
pub decode_block-length :
    (block : List ℕ) (headers : List Header)
    → decode block ≡ ok headers
    → length headers ≤ max_headers
unfolding decode
decode_block-length block headers e =
    decode_rounds-length (suc (length block)) block 0 new [] headers new-IsSized (omega arith) e
