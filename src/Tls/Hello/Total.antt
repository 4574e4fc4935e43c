-- ===== src/Tls/Hello/Total.antt =====
-- The walk over a ClientHello ends on every input.
use flux_parsing_daemon.Base.{
  ℕ, zero, suc, ◌+◌, ◌%◌, ◌<◌, ◌≡◌, ◌≢◌, ap, inl, inr, arith, List, [], Result, err, stuck,
  >>=-ne-stuck, ok-ne-stuck, length, leb, leb→le, ◌==◌, Bool-cases,
}
use flux_parsing_daemon.Tls.Reader.{ParseError, Reader, new, remaining}
use flux_parsing_daemon.Tls.Reader.Laws.{
  Advanced, take-eq-ok, u16-eq-ok, take-ne-stuck, u8-ne-stuck, u16-ne-stuck, u24-ne-stuck,
}
use flux_parsing_daemon.Tls.Hello.{
  RawExt, ext_loop, extensions_block, hello_body, handshake, parse_hello,
}

remaining-Advanced : {n : ℕ} {r r' : Reader} → Advanced n r r' → remaining r' + n ≡ remaining r
remaining-Advanced a = omega (arith, ap length a.same_buf, a.moved, a.fits)

err-ne-stuck : {A : Type 0} {x : ParseError} → ◌≢◌ {A = Result ParseError A} (err x) stuck
err-ne-stuck p = cc

-- Each round reads four bytes at least, so fuel above the bytes left is enough.
ext_loop-ne-stuck :
    (fuel ext_base : ℕ) (e : Reader) (out : List RawExt)
    → remaining e < fuel
    → ext_loop fuel ext_base e out ≢ stuck
unfolding ext_loop
ext_loop-ne-stuck zero ext_base e out h = absurd (omega arith)
ext_loop-ne-stuck (suc fuel) ext_base e out h = elim (Bool-cases (leb 4 (remaining e))) [
  | inr done ↦ rw done ok-ne-stuck
  | inl more ↦ rw more (
      >>=-ne-stuck _ _ (u16-ne-stuck e) λ x₁ p. >>=-ne-stuck _ _ (u16-ne-stuck x₁.1) λ x₂ q.
        >>=-ne-stuck _ _ (take-ne-stuck x₂.0 x₂.1) λ x₃ t. ext_loop-ne-stuck fuel ext_base x₃.1 _ (
          omega (
            arith,
            remaining-Advanced {n = 2} (u16-eq-ok e p).1,
            remaining-Advanced {n = 2} (u16-eq-ok x₁.1 q).1,
            remaining-Advanced {n = x₂.0} (take-eq-ok x₂.0 x₂.1 t).2,
            leb→le 4 (remaining e) more,
          )))
]

extensions_block-ne-stuck : (hs_base : ℕ) (c : Reader) → extensions_block hs_base c ≢ stuck
unfolding extensions_block
extensions_block-ne-stuck hs_base c = elim (Bool-cases (leb 2 (remaining c))) [
  | inr e ↦ rw e ok-ne-stuck
  | inl e ↦ rw e (
      >>=-ne-stuck _ _ (u16-ne-stuck c) λ x₁ p. >>=-ne-stuck _ _ (take-ne-stuck x₁.0 x₁.1) λ x₂ q.
        >>=-ne-stuck _ _ (ext_loop-ne-stuck _ _ (new x₂.0) [] (omega arith)) λ x₃ t. ok-ne-stuck)
]

hello_body-ne-stuck : (hs_base : ℕ) (c : Reader) → hello_body hs_base c ≢ stuck
unfolding hello_body
hello_body-ne-stuck hs_base c = >>=-ne-stuck _ _ (u16-ne-stuck c) λ x₁ _.
    >>=-ne-stuck _ _ (take-ne-stuck 32 x₁.1) λ x₂ _. >>=-ne-stuck _ _ (u8-ne-stuck x₂.1) λ x₃ _.
      >>=-ne-stuck _ _ (take-ne-stuck x₃.0 x₃.1) λ x₄ _.
        >>=-ne-stuck _ _ (u16-ne-stuck x₄.1) λ x₅ _. elim (Bool-cases (x₅.0 % 2 == 0)) [
          | inr odd ↦ rw odd err-ne-stuck
          | inl even ↦ rw even (
              >>=-ne-stuck _ _ (take-ne-stuck x₅.0 x₅.1) λ x₆ _.
                >>=-ne-stuck _ _ (u8-ne-stuck x₆.1) λ x₇ _.
                  >>=-ne-stuck _ _ (take-ne-stuck x₇.0 x₇.1) λ x₈ _.
                    >>=-ne-stuck _ _ (extensions_block-ne-stuck hs_base x₈.1) λ x₉ _. ok-ne-stuck)
        ]

handshake-ne-stuck : (record_base : ℕ) (h : Reader) → handshake record_base h ≢ stuck
unfolding handshake
handshake-ne-stuck record_base h = >>=-ne-stuck _ _ (u8-ne-stuck h) λ x₁ _.
    elim (Bool-cases (x₁.0 == 0x01)) [
      | inr other ↦ rw other err-ne-stuck
      | inl client_hello ↦ rw client_hello (
          >>=-ne-stuck _ _ (u24-ne-stuck x₁.1) λ x₂ _.
            >>=-ne-stuck _ _ (take-ne-stuck x₂.0 x₂.1) λ x₃ _. hello_body-ne-stuck _ (new x₃.0))
    ]

-- `parse_hello` returns a hello or an error on every input: the loop over the extensions ends.
pub parse_hello-ne-stuck : (raw : List ℕ) → parse_hello raw ≢ stuck
unfolding parse_hello
parse_hello-ne-stuck raw = >>=-ne-stuck _ _ (u8-ne-stuck (new raw)) λ x₁ _.
    elim (Bool-cases (x₁.0 == 0x16)) [
      | inr other ↦ rw other err-ne-stuck
      | inl record_type ↦ rw record_type (
          >>=-ne-stuck _ _ (u16-ne-stuck x₁.1) λ x₂ _. >>=-ne-stuck _ _ (u16-ne-stuck x₂.1) λ x₃ _.
            >>=-ne-stuck _ _ (take-ne-stuck x₃.0 x₃.1) λ x₄ _. handshake-ne-stuck _ (new x₄.0))
    ]
