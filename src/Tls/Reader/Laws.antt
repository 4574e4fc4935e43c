-- ===== src/Tls/Reader/Laws.antt =====
-- What a read returns: exactly the next bytes inside the buffer, or `Truncated`.
use flux_parsing_daemon.Base.{
  ℕ, ◌+◌, ◌-◌, ◌≤◌, ◌<◌, List, [], ◌∷◌, ◌++◌, ◌≡◌, refl, sym, ap, ◌∙◌, ◌≢◌, arith, some, Result, ok,
  err, stuck, ok_or, ◌>>=◌, >>=-eq-ok, >>=-ne-stuck, ok_or-ne-stuck, ok_or-eq-ok, ok-ne-stuck,
  ok_fst, ok_snd, subst, length, length-append, get_range, get_range-append, get_elem?, slice,
  length-slice, append_assoc, lt→ltb,
}
use flux_parsing_daemon.Base.Bytes.{be16, be32, checked_add, usize_mod}
use flux_parsing_daemon.Tls.Reader.{ParseError, truncated, Reader, remaining, take, u8, u16, u24}

-- What holds of the reader after a read of `n` bytes.
pub record Advanced (n : ℕ) (r r' : Reader) : Type 0 where
  pub same_buf : r'.buf ≡ r.buf
  pub moved : r'.pos ≡ r.pos + n
  pub fits : r.pos + n ≤ length r.buf

checked_add-eq-some : (a b c : ℕ) → checked_add a b ≡ some c → c ≡ a + b
unfolding checked_add
checked_add-eq-some a b c h = ground arith

get_range-eq-some :
    (xs : List ℕ) (a b : ℕ) {ys : List ℕ}
    → get_range xs a b ≡ some ys
    → (a ≤ b) × (b ≤ length xs) × (ys ≡ slice xs a (b - a))
unfolding get_range
get_range-eq-some xs a b h = ground arith

-- A successful `take` returns the `n` bytes at the cursor, moves past them, and stays inside.
pub take-eq-ok :
    (n : ℕ) (r : Reader) {bs : List ℕ} {r' : Reader}
    → take n r ≡ ok (bs, r')
    → (bs ≡ slice r.buf r.pos n) × (length bs ≡ n) × Advanced n r r'
unfolding take
take-eq-ok n r {bs} {r'} h =
    let (end, p, h₁) = >>=-eq-ok _ _ h in
    let (bytes, q, h₂) = >>=-eq-ok _ _ h₁ in
    done end bytes (checked_add-eq-some r.pos n end (ok_or-eq-ok _ _ p))
      (get_range-eq-some r.buf r.pos end (ok_or-eq-ok _ _ q)) (cc h₂) (cc h₂)
  where
    done :
        (end : ℕ) (bytes : List ℕ)
        → end ≡ r.pos + n
        → (r.pos ≤ end) × (end ≤ length r.buf) × (bytes ≡ slice r.buf r.pos (end - r.pos))
        → bytes ≡ bs
        → record r { pos = end } ≡ r'
        → (bs ≡ slice r.buf r.pos n) × (length bs ≡ n) × Advanced n r r'
    done end bytes e (lo, hi, s) same after =
        let w : end - r.pos ≡ n = omega arith in
        let b : bs ≡ slice r.buf r.pos n = cc (w, s) in
        (
          b,
          ap length b ∙ length-slice r.buf r.pos n (omega arith),
          record { same_buf = cc; moved = cc; fits = omega arith },
        )

one_byte : (b : List ℕ) {v : ℕ} → length b ≡ 1 → get_elem? b 0 ≡ some v → b ≡ v ∷ []
one_byte (x ∷ []) h e = cc
one_byte [] h e = cc
one_byte (x ∷ y ∷ b) h e = absurd (omega arith)

two_bytes :
    (b : List ℕ) {v w : ℕ}
    → length b ≡ 2
    → get_elem? b 0 ≡ some v
    → get_elem? b 1 ≡ some w
    → b ≡ v ∷ w ∷ []
two_bytes (x ∷ y ∷ []) h e f = cc
two_bytes [] h e f = cc
two_bytes (x ∷ []) h e f = cc
two_bytes (x ∷ y ∷ z ∷ b) h e f = absurd (omega arith)

three_bytes :
    (b : List ℕ) {u v w : ℕ}
    → length b ≡ 3
    → get_elem? b 0 ≡ some u
    → get_elem? b 1 ≡ some v
    → get_elem? b 2 ≡ some w
    → b ≡ u ∷ v ∷ w ∷ []
three_bytes (x ∷ y ∷ z ∷ []) h e f g = cc
three_bytes [] h e f g = cc
three_bytes (x ∷ []) h e f g = cc
three_bytes (x ∷ y ∷ []) h e f g = cc
three_bytes (x ∷ y ∷ z ∷ t ∷ b) h e f g = absurd (omega arith)

-- The reads of one, two and three bytes put together the bytes that `take` returns.
pub u8-eq-ok :
    (r : Reader) {v : ℕ} {r' : Reader}
    → u8 r ≡ ok (v, r')
    → (slice r.buf r.pos 1 ≡ v ∷ []) × Advanced 1 r r'
unfolding u8
u8-eq-ok r {v} {r'} h =
    let (x, p, h₁) = >>=-eq-ok _ _ h in
    let (v', q, h₂) = >>=-eq-ok _ _ h₁ in
    let (s, l, a) = take-eq-ok 1 r {bs = x.0} {r' = x.1} p in
    (
      sym s ∙ one_byte x.0 l (ok_or-eq-ok _ _ q) ∙ ap (λ w. w ∷ []) (ok_fst h₂),
      subst (Advanced 1 r) (ok_snd h₂) a,
    )

pub u16-eq-ok :
    (r : Reader) {v : ℕ} {r' : Reader}
    → u16 r ≡ ok (v, r')
    → ((a : ℕ) × (b : ℕ) × (slice r.buf r.pos 2 ≡ a ∷ b ∷ []) × (v ≡ be16 a b)) × Advanced 2 r r'
unfolding u16
u16-eq-ok r {v} {r'} h =
    let (x, p, h₁) = >>=-eq-ok _ _ h in
    let (a, q, h₂) = >>=-eq-ok _ _ h₁ in
    let (b, t, h₃) = >>=-eq-ok _ _ h₂ in
    let (s, l, adv) = take-eq-ok 2 r {bs = x.0} {r' = x.1} p in
    (
      (a, b, sym s ∙ two_bytes x.0 l (ok_or-eq-ok _ _ q) (ok_or-eq-ok _ _ t), sym (ok_fst h₃)),
      subst (Advanced 2 r) (ok_snd h₃) adv,
    )

pub u24-eq-ok :
    (r : Reader) {v : ℕ} {r' : Reader}
    → u24 r ≡ ok (v, r')
    → ((a : ℕ) × (b : ℕ) × (c : ℕ) × (slice r.buf r.pos 3 ≡ a ∷ b ∷ c ∷ []) × (v ≡ be32 0 a b c))
      × Advanced 3 r r'
unfolding u24
u24-eq-ok r {v} {r'} h =
    let (x, p, h₁) = >>=-eq-ok _ _ h in
    let (a, q, h₂) = >>=-eq-ok _ _ h₁ in
    let (b, t, h₃) = >>=-eq-ok _ _ h₂ in
    let (c, u, h₄) = >>=-eq-ok _ _ h₃ in
    let (s, l, adv) = take-eq-ok 3 r {bs = x.0} {r' = x.1} p in
    (
      (
        a,
        b,
        c,
        sym s ∙ three_bytes x.0 l (ok_or-eq-ok _ _ q) (ok_or-eq-ok _ _ t) (ok_or-eq-ok _ _ u),
        sym (ok_fst h₄),
      ),
      subst (Advanced 3 r) (ok_snd h₄) adv,
    )

-- A read never runs out of fuel: it has none.
pub take-ne-stuck : (n : ℕ) (r : Reader) → take n r ≢ stuck
unfolding take
take-ne-stuck n r =
    >>=-ne-stuck _ _ (ok_or-ne-stuck _ _)
      (λ end _. >>=-ne-stuck _ _ (ok_or-ne-stuck _ _) (λ slice _. ok-ne-stuck))

pub u8-ne-stuck : (r : Reader) → u8 r ≢ stuck
unfolding u8
u8-ne-stuck r =
    >>=-ne-stuck _ _ (take-ne-stuck 1 r)
      (λ b _. >>=-ne-stuck _ _ (ok_or-ne-stuck _ _) (λ v _. ok-ne-stuck))

pub u16-ne-stuck : (r : Reader) → u16 r ≢ stuck
unfolding u16
u16-ne-stuck r = >>=-ne-stuck _ _ (take-ne-stuck 2 r) (λ b _.
    >>=-ne-stuck _ _ (ok_or-ne-stuck _ _)
      (λ v _. >>=-ne-stuck _ _ (ok_or-ne-stuck _ _) (λ w _. ok-ne-stuck)))

pub u24-ne-stuck : (r : Reader) → u24 r ≢ stuck
unfolding u24
u24-ne-stuck r = >>=-ne-stuck _ _ (take-ne-stuck 3 r) (λ b _.
    >>=-ne-stuck _ _ (ok_or-ne-stuck _ _) (λ u _.
      >>=-ne-stuck _ _ (ok_or-ne-stuck _ _)
        (λ v _. >>=-ne-stuck _ _ (ok_or-ne-stuck _ _) (λ w _. ok-ne-stuck))))

-- A reader over `front ++ rest` whose cursor stands behind `front`.
abbrev pub reader_at : List ℕ → List ℕ → Reader
reader_at front rest = record { buf = front ++ rest; pos = length front }

-- A read of bytes that are there.
pub take_lem :
    (front bs rest : List ℕ) (n : ℕ)
    → length bs ≡ n
    → length front + n < usize_mod
    → take n (reader_at front (bs ++ rest)) ≡ ok (bs, reader_at (front ++ bs) rest)
unfolding take checked_add ◌>>=◌ ok_or
take_lem front bs rest n h fits =
    rw
      (
        lt→ltb (length front + n) usize_mod fits,
        get_range-append front bs rest n (length front + n) h refl,
      )
      (ap ok_at (cc (append_assoc front bs rest, length-append front bs)))
  where
    ok_at : Reader → Result ParseError (List ℕ × Reader)
    ok_at s = ok (bs, s)

pub u8_lem :
    (front rest : List ℕ) (a : ℕ)
    → length front + 1 < usize_mod
    → u8 (reader_at front (a ∷ rest)) ≡ ok (a, reader_at (front ++ a ∷ []) rest)
unfolding u8 ◌>>=◌ ok_or
u8_lem front rest a fits = rw (take_lem front (a ∷ []) rest 1 refl fits)

pub u16_lem :
    (front rest : List ℕ) (a b : ℕ)
    → length front + 2 < usize_mod
    → u16 (reader_at front (a ∷ b ∷ rest)) ≡ ok (be16 a b, reader_at (front ++ a ∷ b ∷ []) rest)
unfolding u16 ◌>>=◌ ok_or
u16_lem front rest a b fits = rw (take_lem front (a ∷ b ∷ []) rest 2 refl fits)

pub u24_lem :
    (front rest : List ℕ) (a b c : ℕ)
    → length front + 3 < usize_mod
    → u24 (reader_at front (a ∷ b ∷ c ∷ rest))
      ≡ ok (be32 0 a b c, reader_at (front ++ a ∷ b ∷ c ∷ []) rest)
unfolding u24 ◌>>=◌ ok_or
u24_lem front rest a b c fits = rw (take_lem front (a ∷ b ∷ c ∷ []) rest 3 refl fits)

pub remaining-reader_at : (front rest : List ℕ) → remaining (reader_at front rest) ≡ length rest
remaining-reader_at front rest = omega (arith, length-append front rest)

-- A read past the end is refused, whatever its length: also where `pos + n` would wrap.
pub take-past_end : (n : ℕ) (r : Reader) → length r.buf < r.pos + n → take n r ≡ err truncated
unfolding take checked_add get_range ◌>>=◌ ok_or
take-past_end n r h = ground arith
