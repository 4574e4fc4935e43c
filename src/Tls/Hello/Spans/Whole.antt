-- ===== src/Tls/Hello/Spans/Whole.antt =====
-- The spans of a parsed ClientHello: the extensions block, the message and the record around it.
use flux_parsing_daemon.Base.{
  ℕ, suc, ◌+◌, ◌%◌, ◌≤◌, ◌≡◌, refl, sym, ap, ◌∙◌, inl, inr, arith, List, [], Result, ok, on_ok,
  ok_injective, take-all, length, leb, ◌==◌, slice, All, Bool-cases, subst,
}
use flux_parsing_daemon.Tls.Reader.{ParseError, Reader, new, remaining, take}
use flux_parsing_daemon.Tls.Reader.Laws.{Advanced, take-eq-ok, u8-eq-ok, u16-eq-ok, u24-eq-ok}
use flux_parsing_daemon.Tls.Hello.{
  Span, RawExt, RawHello, u16_chunks, extensions_block, hello_body, handshake, parse_hello,
}
use flux_parsing_daemon.Tls.Hello.Spans.{Inner, Inner-take, IsCovered, ext_loop-IsCovered}

-- Every span of `h` lies in `raw`, and the bytes there are those that `h` was read from.
pub record AreCovered (raw : List ℕ) (h : RawHello) : Type 0 where
  pub ciphers_fit : h.cipher_span.start + h.cipher_span.len ≤ length raw
  pub ciphers : u16_chunks (slice raw h.cipher_span.start h.cipher_span.len) ≡ h.ciphers
  pub block_fits : h.extensions_span.start + h.extensions_span.len ≤ length raw
  pub extensions : All (IsCovered raw h.extensions_span) h.extensions

-- A nested reader, its buffer being the part of `raw` from `base` on.
record Nested (raw : List ℕ) (base : ℕ) (r : Reader) : Type 0 where
  inner : Inner raw base r.buf
  inside : r.pos ≤ length r.buf

module _ {raw : List ℕ} {base n : ℕ} {r r' : Reader} where
  Nested-Advanced : Nested raw base r → Advanced n r r' → Nested raw base r'
  Nested-Advanced v a = record {
    inner = subst (Inner raw base) (sym a.same_buf) v.inner;
    inside = rw (a.moved, ap length a.same_buf) a.fits;
  }

-- The bytes that `take` returns, as the buffer of a reader of their own.
Nested-take :
    {raw : List ℕ} {base : ℕ} (n : ℕ) {r r' : Reader} {bs : List ℕ}
    → Nested raw base r
    → take n r ≡ ok (bs, r')
    → Inner raw (base + r.pos) bs × (length bs ≡ n) × Nested raw base r'
Nested-take n {r = r} v t =
    let (s, l, a) = take-eq-ok n r t in
    (Inner-take v.inner r.pos n _ s l a.fits, l, Nested-Advanced {n = n} v a)

Nested-new : {raw : List ℕ} {base : ℕ} {bs : List ℕ} → Inner raw base bs → Nested raw base (new bs)
Nested-new i = record { inner = i; inside = omega arith }

Inner-whole : (raw : List ℕ) → Inner raw 0 raw
Inner-whole raw = record { room = omega arith; same = take-all raw }

-- A predicate on the value of a result that is known.
transport_ok :
    {A : Type 0} (P : A → Type 0) {a b : A}
    → ◌≡◌ {A = Result ParseError A} (ok a) (ok b)
    → P a
    → P b
transport_ok P h p = subst P (ok_injective h) p

-- What is claimed of the extensions block.
abbrev BlockIsCovered : List ℕ → List RawExt × Span → Type 0
BlockIsCovered raw x = (x.1.start + x.1.len ≤ length raw) × All (IsCovered raw x.1) x.0

module _ (raw : List ℕ) (hs_base : ℕ) where
  block_covered :
      (c : Reader) {x : List RawExt × Span}
      → Nested raw hs_base c
      → extensions_block hs_base c ≡ ok x
      → BlockIsCovered raw x
  unfolding extensions_block
  block_covered c v h = elim (Bool-cases (leb 2 (remaining c))) [
    | inr none_left ↦
        transport_ok (BlockIsCovered raw) (rw none_left at h)
          (omega (arith, v.inside, v.inner.room), tt)
    | inl some_left ↦ on_ok _ _ (rw some_left at h) λ x₁ p h₁. on_ok _ _ h₁ λ x₂ q h₂.
        on_ok _ _ h₂ λ out t h₃.
          let v₁ = Nested-Advanced {n = 2} v (u16-eq-ok c p).1 in
          let (i, l, v₂) = Nested-take x₁.0 v₁ q in
          transport_ok (BlockIsCovered raw) h₃ (
            omega (arith, i.room, l),
            subst (λ k. All (IsCovered raw (record { start = hs_base + x₁.1.pos; len = k })) out) l
                (ext_loop-IsCovered raw (hs_base + x₁.1.pos) x₂.0 i (suc (length x₂.0)) (new x₂.0)
                  [] refl tt t),
          )
  ]

  body_covered :
      (c : Reader) {h : RawHello}
      → Nested raw hs_base c
      → hello_body hs_base c ≡ ok h
      → AreCovered raw h
  unfolding hello_body
  body_covered c v e = on_ok _ _ e λ x₁ p₁ e₁. on_ok _ _ e₁ λ x₂ p₂ e₂. on_ok _ _ e₂ λ x₃ p₃ e₃.
      on_ok _ _ e₃ λ x₄ p₄ e₄. on_ok _ _ e₄ λ x₅ p₅ e₅.
        let v₁ = Nested-Advanced {n = 2} v (u16-eq-ok c p₁).1 in
        let v₂ = (Nested-take 32 v₁ p₂).2 in
        let v₃ = Nested-Advanced {n = 1} v₂ (u8-eq-ok x₂.1 p₃).1 in
        let v₄ = (Nested-take x₃.0 v₃ p₄).2 in
        let v₅ = Nested-Advanced {n = 2} v₄ (u16-eq-ok x₄.1 p₅).1 in
        elim (Bool-cases (x₅.0 % 2 == 0)) [
          | inr odd ↦ cc (rw odd at e₅)
          | inl even ↦ on_ok _ _ (rw even at e₅) λ x₆ p₆ e₆. on_ok _ _ e₆ λ x₇ p₇ e₇.
              on_ok _ _ e₇ λ x₈ p₈ e₈. on_ok _ _ e₈ λ x₉ p₉ e₉.
                let (i, l, v₆) = Nested-take x₅.0 v₅ p₆ in
                let v₇ = Nested-Advanced {n = 1} v₆ (u8-eq-ok x₆.1 p₇).1 in
                let v₈ = (Nested-take x₇.0 v₇ p₈).2 in
                let (fits, covered) = block_covered x₈.1 v₈ p₉ in
                transport_ok (AreCovered raw) e₉ (record {
                  ciphers_fit = omega (arith, i.room, l);
                  ciphers = ap u16_chunks (ap (slice raw (hs_base + x₅.1.pos)) (sym l) ∙ i.same);
                  block_fits = fits;
                  extensions = covered;
                })
        ]

handshake_covered :
    (raw : List ℕ) (record_base : ℕ) (r : Reader) {h : RawHello}
    → Nested raw record_base r
    → handshake record_base r ≡ ok h
    → AreCovered raw h
unfolding handshake
handshake_covered raw record_base r v e = on_ok _ _ e λ x₁ p₁ e₁.
    let v₁ = Nested-Advanced {n = 1} v (u8-eq-ok r p₁).1 in
    elim (Bool-cases (x₁.0 == 0x01)) [
      | inr other ↦ cc (rw other at e₁)
      | inl client_hello ↦ on_ok _ _ (rw client_hello at e₁) λ x₂ p₂ e₂. on_ok _ _ e₂ λ x₃ p₃ e₃.
          let v₂ = Nested-Advanced {n = 3} v₁ (u24-eq-ok x₁.1 p₂).1 in
          body_covered raw (record_base + x₂.1.pos) (new x₃.0)
            (Nested-new (Nested-take x₂.0 v₂ p₃).0) e₃
    ]

-- Every span that a successful `parse_hello` returns lies inside the buffer that was given, the bytes
-- under the cipher span read as the ciphers, and the bytes under an extension's span are its id, the
-- length of its body and its body, inside the span of the extensions block.
pub parse_hello-AreCovered :
    (raw : List ℕ) (h : RawHello) → parse_hello raw ≡ ok h → AreCovered raw h
unfolding parse_hello
parse_hello-AreCovered raw h e =
    let v = Nested-new (Inner-whole raw) in
    on_ok _ _ e λ x₁ p₁ e₁.
      let v₁ = Nested-Advanced {n = 1} v (u8-eq-ok (new raw) p₁).1 in
      elim (Bool-cases (x₁.0 == 0x16)) [
        | inr other ↦ cc (rw other at e₁)
        | inl record_type ↦ on_ok _ _ (rw record_type at e₁) λ x₂ p₂ e₂. on_ok _ _ e₂ λ x₃ p₃ e₃.
            on_ok _ _ e₃ λ x₄ p₄ e₄.
              let v₂ = Nested-Advanced {n = 2} v₁ (u16-eq-ok x₁.1 p₂).1 in
              let v₃ = Nested-Advanced {n = 2} v₂ (u16-eq-ok x₂.1 p₃).1 in
              handshake_covered raw x₃.1.pos (new x₄.0)
                (subst (λ k. Nested raw k (new x₄.0)) (omega arith)
                  (Nested-new (Nested-take x₃.0 v₃ p₄).0))
                e₄
      ]
