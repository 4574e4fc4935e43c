-- ===== src/H2/Frame/Total.antt =====
-- The walk over the frames ends.
use flux_parsing_daemon.Base.{
  ℕ, zero, suc, ◌+◌, ◌≤◌, ◌<◌, ◌≡◌, ◌≢◌, refl, ap, arith, Bool, true, false, inl, inr, not, List,
  [], ◌∷◌, ◌++◌, Result, ok, err, stuck, on_ok, ok_snd, >>=-ne-stuck, ok_or-ne-stuck, ok-ne-stuck,
  length, list_eq, leb, ◌==◌, if◌then◌else◌, Bool-cases,
}
use flux_parsing_daemon.Tls.Reader.{ParseError, Reader, new, remaining}
use flux_parsing_daemon.Tls.Reader.Laws.{
  Advanced, take-eq-ok, u8-eq-ok, u24-eq-ok, take-ne-stuck, u8-ne-stuck, u24-ne-stuck,
}
use flux_parsing_daemon.H2.Frame.{
  Frame, H2Error, no_preface, preface, frame_headers, read, octet_at, frame_at, frames_from,
  parse_preamble,
}

read-ne-stuck {ℓ} : {A : Type ℓ} (m : Result ParseError A) → m ≢ stuck → read m ≢ stuck
unfolding read
read-ne-stuck (ok a) h = ok-ne-stuck
read-ne-stuck (err e) h = λ p. cc
read-ne-stuck stuck h = absurd (h refl)

read-eq-ok {ℓ} : {A : Type ℓ} (m : Result ParseError A) {a : A} → read m ≡ ok a → m ≡ ok a
unfolding read
read-eq-ok (ok a) h = cc
read-eq-ok (err e) h = cc
read-eq-ok stuck h = cc

octet_at-ne-stuck : (sid : List ℕ) (i : ℕ) → octet_at sid i ≢ stuck
unfolding octet_at
octet_at-ne-stuck sid i = ok_or-ne-stuck _ _

frame_at-ne-stuck : (r : Reader) → frame_at r ≢ stuck
unfolding frame_at
frame_at-ne-stuck r = >>=-ne-stuck _ _ (read-ne-stuck _ (u24-ne-stuck r)) λ x₁ _.
    >>=-ne-stuck _ _ (read-ne-stuck _ (u8-ne-stuck x₁.1)) λ x₂ _.
      >>=-ne-stuck _ _ (read-ne-stuck _ (u8-ne-stuck x₂.1)) λ x₃ _.
        >>=-ne-stuck _ _ (read-ne-stuck _ (take-ne-stuck 4 x₃.1)) λ x₄ _.
          >>=-ne-stuck _ _ (octet_at-ne-stuck x₄.0 0) λ a _.
            >>=-ne-stuck _ _ (octet_at-ne-stuck x₄.0 1) λ b _.
              >>=-ne-stuck _ _ (octet_at-ne-stuck x₄.0 2) λ c _.
                >>=-ne-stuck _ _ (octet_at-ne-stuck x₄.0 3) λ d _.
                  >>=-ne-stuck _ _ (read-ne-stuck _ (take-ne-stuck x₁.0 x₄.1)) λ x₅ _. ok-ne-stuck

remaining-Advanced : {n : ℕ} {r r' : Reader} → Advanced n r r' → remaining r' + n ≡ remaining r
remaining-Advanced a = omega (arith, ap length a.same_buf, a.moved, a.fits)

-- A frame takes nine bytes and its payload.
frame_at-remaining :
    (r r' : Reader) (f : Frame) → frame_at r ≡ ok (f, r') → remaining r' + 9 ≤ remaining r
unfolding frame_at
frame_at-remaining r r' f e = on_ok _ _ e λ x₁ e₁ s₁. on_ok _ _ s₁ λ x₂ e₂ s₂.
    on_ok _ _ s₂ λ x₃ e₃ s₃. on_ok _ _ s₃ λ x₄ e₄ s₄. on_ok _ _ s₄ λ a _ s₅. on_ok _ _ s₅ λ b _ s₆.
      on_ok _ _ s₆ λ c _ s₇. on_ok _ _ s₇ λ d _ s₈. on_ok _ _ s₈ λ x₅ e₅ s₉. omega (
        arith,
        ap remaining (ok_snd s₉),
        remaining-Advanced {n = 3} (u24-eq-ok r (read-eq-ok _ e₁)).1,
        remaining-Advanced {n = 1} (u8-eq-ok x₁.1 (read-eq-ok _ e₂)).1,
        remaining-Advanced {n = 1} (u8-eq-ok x₂.1 (read-eq-ok _ e₃)).1,
        remaining-Advanced {n = 4} (take-eq-ok 4 x₃.1 (read-eq-ok _ e₄)).2,
        remaining-Advanced {n = x₁.0} (take-eq-ok x₁.0 x₄.1 (read-eq-ok _ e₅)).2,
      )

frames_from-ne-stuck :
    (fuel : ℕ) (r : Reader) (out : List Frame) → remaining r < fuel → frames_from fuel r out ≢ stuck
unfolding frames_from
frames_from-ne-stuck zero r out h = absurd (omega arith)
frames_from-ne-stuck (suc fuel) r out h = elim (Bool-cases (leb 9 (remaining r))) [
  | inr done ↦ rw done ok-ne-stuck
  | inl more ↦ rw more (
      >>=-ne-stuck _ _ (frame_at-ne-stuck r) λ x e.
        if-ne-stuck (x.0.kind == frame_headers) (out ++ (x.0 ∷ [])) (
          frames_from-ne-stuck fuel x.1 (out ++ (x.0 ∷ []))
            (omega (arith, h, frame_at-remaining r x.1 x.0 e))))
]
  where
    if-ne-stuck :
        (b : Bool) (fs : List Frame) {y : Result H2Error (List Frame)}
        → y ≢ stuck
        → (if b then ok fs else y) ≢ stuck
    if-ne-stuck true fs h = ok-ne-stuck
    if-ne-stuck false fs h = h

-- Parsing a preamble ends: the fuel given is enough for any bytes.
pub parse_preamble-ne-stuck : (raw : List ℕ) → parse_preamble raw ≢ stuck
unfolding parse_preamble
parse_preamble-ne-stuck raw =
    >>=-ne-stuck _ _ (read-ne-stuck _ (take-ne-stuck (length preface) (new raw))) λ x _.
      err-or (not (list_eq x.0 preface))
        (frames_from-ne-stuck (suc (remaining x.1)) x.1 [] (omega arith))
  where
    err-or :
        (b : Bool) {y : Result H2Error (List Frame)}
        → y ≢ stuck
        → (if b then err no_preface else y) ≢ stuck
    err-or true h = λ p. cc
    err-or false h = h
