-- ===== src/Tls/Hello/Spans.antt =====
-- The spans of a parsed ClientHello index the bytes that the values were read from: the extension
-- loop. `Whole` has the rest of the message.
pub mod Whole
use flux_parsing_daemon.Base.{
  ℕ, zero, suc, ◌+◌, ◌-◌, ◌*◌, ◌%◌, ◌≤◌, ◌<◌, ◌≡◌, refl, sym, ap, ◌∙◌, inl, inr, arith, Bool, true,
  false, List, [], ◌∷◌, ◌++◌, Result, ok, err, stuck, ◌>>=◌, on_ok, length, leb, ◌==◌,
  if◌then◌else◌, slice, slice-slice, slice-split, length-slice, All, All-append, Bool-cases, subst,
  ap₂, ok_injective,
}
use flux_parsing_daemon.Base.Bytes.{be16}
use flux_parsing_daemon.Tls.Reader.{Reader, new, remaining, position, take, u8, u16, u24}
use flux_parsing_daemon.Tls.Reader.Laws.{Advanced, take-eq-ok, u8-eq-ok, u16-eq-ok, u24-eq-ok}
use flux_parsing_daemon.Tls.Hello.{
  Span, RawExt, RawHello, u16_chunks, ext_loop, extensions_block, hello_body, handshake,
  parse_hello,
}

-- The buffer `buf` of a nested reader is the part of `raw` that begins at `base`.
pub record Inner (raw : List ℕ) (base : ℕ) (buf : List ℕ) : Type 0 where
  pub room : base + length buf ≤ length raw
  pub same : slice raw base (length buf) ≡ buf

module _ {raw : List ℕ} {base : ℕ} {buf : List ℕ} (i : Inner raw base buf) where
  pub Inner-slice : (a n : ℕ) → a + n ≤ length buf → slice raw (base + a) n ≡ slice buf a n
  Inner-slice a n h = sym (slice-slice raw base (length buf) a n h) ∙ ap (λ b. slice b a n) i.same

  -- What `take` returns from a nested reader is nested again.
  pub Inner-take :
      (a n : ℕ) (bs : List ℕ)
      → bs ≡ slice buf a n
      → length bs ≡ n
      → a + n ≤ length buf
      → Inner raw (base + a) bs
  Inner-take a n bs e l h = record {
    room = omega (arith, i.room);
    same = ap (slice raw (base + a)) l ∙ Inner-slice a n h ∙ sym e;
  }

-- The span covers the four header bytes and the body of the extension, inside the block.
pub record IsCovered (raw : List ℕ) (block : Span) (e : RawExt) : Type 0 where
  pub from : block.start ≤ e.span.start
  pub upto : e.span.start + e.span.len ≤ block.start + block.len
  pub whole :
      (a : ℕ) × (b : ℕ) × (c : ℕ) × (d : ℕ) × (slice raw e.span.start e.span.len
        ≡ a ∷ b ∷ c ∷ d ∷ e.body)
      × (e.id ≡ be16 a b)
      × (length e.body ≡ be16 c d)

module _ (raw : List ℕ) (ext_base : ℕ) (buf : List ℕ) (i : Inner raw ext_base buf) where
  ext_bytes :
      (pos len : ℕ) (p₂ p₄ body : List ℕ)
      → slice buf pos 2 ≡ p₂
      → slice buf (pos + 2) 2 ≡ p₄
      → body ≡ slice buf (pos + 2 + 2) len
      → pos + 2 + 2 + len ≤ length buf
      → slice raw (ext_base + pos) (len + 4) ≡ p₂ ++ (p₄ ++ body)
  ext_bytes pos len p₂ p₄ body p s e h =
      Inner-slice i pos (len + 4) (omega arith)
      ∙ ap (slice buf pos) {y = 2 + (2 + len)} (omega arith)
      ∙ slice-split buf pos 2 (2 + len)
      ∙ cc (p, s, e, slice-split buf (pos + 2) 2 len)

  ext-IsCovered :
      (pos id len : ℕ) (body : List ℕ)
      → ((a : ℕ) × (b : ℕ) × (slice buf pos 2 ≡ a ∷ b ∷ []) × (id ≡ be16 a b))
      → ((a : ℕ) × (b : ℕ) × (slice buf (pos + 2) 2 ≡ a ∷ b ∷ []) × (len ≡ be16 a b))
      → body ≡ slice buf (pos + 2 + 2) len
      → length body ≡ len
      → pos + 2 + 2 + len ≤ length buf
      → IsCovered raw
          (record { start = ext_base; len = length buf })
          (record { id = id; body = body; span = record { start = ext_base + pos; len = len + 4 } })
  ext-IsCovered pos id len body (a, b, p, q) (c, d, s, t) e l h = record {
    from = omega arith;
    upto = omega arith;
    whole = (a, b, c, d, ext_bytes pos len _ _ body p s e h, q, l ∙ t);
  }

  abbrev block : Span
  block = record { start = ext_base; len = length buf }

  -- One round of the loop.
  ext_read :
      (e e₁ e₂ e₃ : Reader) (id len : ℕ) (body : List ℕ)
      → e.buf ≡ buf
      → u16 e ≡ ok (id, e₁)
      → u16 e₁ ≡ ok (len, e₂)
      → take len e₂ ≡ ok (body, e₃)
      → (e₃.buf ≡ buf)
        × IsCovered raw block (record {
          id = id;
          body = body;
          span = record { start = ext_base + e.pos; len = len + 4 };
        })
  ext_read e e₁ e₂ e₃ id len body same p q t =
      let ((a, b, s₁, v₁), adv₁) = u16-eq-ok e p in
      let ((c, d, s₂, v₂), adv₂) = u16-eq-ok e₁ q in
      let (s₃, l, adv₃) = take-eq-ok len e₂ t in
      let b₁ : e₁.buf ≡ buf = adv₁.same_buf ∙ same in
      let b₂ : e₂.buf ≡ buf = adv₂.same_buf ∙ b₁ in
      let m₁ : e₁.pos ≡ e.pos + 2 = adv₁.moved in
      let m₂ : e₂.pos ≡ e.pos + 2 + 2 = adv₂.moved ∙ ap (λ k. k + 2) m₁ in
      let fits : e₂.pos + len ≤ length buf = rw (ap length b₂) at adv₃.fits in
      (
        adv₃.same_buf ∙ b₂,
        ext-IsCovered e.pos id len body (a, b, ap (λ k. slice k e.pos 2) (sym same) ∙ s₁, v₁)
            (c, d, ap₂ (λ k n. slice k n 2) (sym b₁) (sym m₁) ∙ s₂, v₂)
            (s₃ ∙ ap₂ (λ k n. slice k n len) b₂ m₂) l (omega arith),
      )

  -- The loop keeps the buffer of its reader, and each extension that it pushes is covered.
  ext_loop-IsCovered :
      (fuel : ℕ) (e : Reader) (out : List RawExt) {exts : List RawExt}
      → e.buf ≡ buf
      → All (IsCovered raw block) out
      → ext_loop fuel ext_base e out ≡ ok exts
      → All (IsCovered raw block) exts
  unfolding ext_loop
  ext_loop-IsCovered zero e out b k h = cc
  ext_loop-IsCovered (suc fuel) e out b k h = elim (Bool-cases (leb 4 (remaining e))) [
    | inr done ↦ subst (All (IsCovered raw block)) (ok_injective (rw done at h)) k
    | inl more ↦ on_ok _ _ (rw more at h) λ x₁ p h₁. on_ok _ _ h₁ λ x₂ q h₂. on_ok _ _ h₂ λ x₃ t h₃.
        let (b', cov) = ext_read e x₁.1 x₂.1 x₃.1 x₁.0 x₂.0 x₃.0 b p q t in
        ext_loop-IsCovered fuel x₃.1 _ b' (All-append (IsCovered raw block) out _ k (cov, tt)) h₃
  ]
