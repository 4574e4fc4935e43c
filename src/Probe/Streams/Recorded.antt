-- ===== src/Probe/Streams/Recorded.antt =====
-- The tee keeps a prefix of what the caller received.
use flux_parsing_daemon.Base.{
  ℕ, zero, suc, ◌-◌, ◌≡◌, refl, sym, ap, ap₂, ◌∙◌, arith, min, List, [], ◌∷◌, ◌++◌, append-nil,
  length, take-nil, take, is_empty, ltb, lt→ltb, if◌then◌else◌,
}
use flux_parsing_daemon.Probe.Streams.{
  Poll, ready, failed, pending, RecordingStream, with_cap, keep_bytes, poll_recorded,
}

-- Reads in a row: what the caller received from `s` on, and the tee then.
pub data Recorded : RecordingStream → List ℕ → RecordingStream → Type 0 where
  start : {s : RecordingStream} → Recorded s [] s
  then_poll :
      {s t : RecordingStream} {out : List ℕ} (p : Poll)
      → Recorded s out t
      → Recorded s (out ++ (poll_recorded p t).0) (poll_recorded p t).1

take-append : (n : ℕ) (xs ys : List ℕ) → take n (xs ++ ys) ≡ take n xs ++ take (n - length xs) ys
take-append zero [] ys = refl
take-append (suc n) [] ys = ap (λ k. take k ys) {x = suc n} {y = suc n - 0} (omega arith)
take-append zero (x ∷ xs) ys =
    sym (ap (λ k. take k ys) {x = 0 - suc (length xs)} {y = 0} (omega arith))
take-append (suc n) (x ∷ xs) ys = ap (◌∷◌ x) (
    take-append n xs ys
    ∙ ap (λ k. take n xs ++ take k ys) {x = n - length xs} {y = suc n - suc (length xs)}
        (omega arith))

take-min : (n : ℕ) (xs : List ℕ) → take (min n (length xs)) xs ≡ take n xs
take-min zero xs = ap (λ k. take k xs) {x = min 0 (length xs)} {y = 0} (omega arith)
take-min (suc n) [] = ap (λ k. take k []) {x = min (suc n) 0} {y = 0} (omega arith)
take-min (suc n) (x ∷ xs) =
    ap (λ k. take k (x ∷ xs)) {x = min (suc n) (suc (length xs))} {y = suc (min n (length xs))}
      (omega arith)
    ∙ ap (◌∷◌ x) (take-min n xs)

length-take-min : (n : ℕ) (xs : List ℕ) → length (take n xs) ≡ min n (length xs)
length-take-min zero xs = omega arith
length-take-min (suc n) [] = omega arith
length-take-min (suc n) (x ∷ xs) = omega (arith, length-take-min n xs)

-- The guards of the tee only avoid empty copies.
guarded :
    (seen bytes : List ℕ) (room : ℕ)
    → (if is_empty bytes
        then seen
        else if ltb 0 room
        then seen ++ take (min room (length bytes)) bytes
        else seen)
      ≡ seen ++ take room bytes
guarded seen [] zero = sym (append-nil seen)
guarded seen [] (suc room) = sym (append-nil seen)
guarded seen (b ∷ bytes) zero = sym (append-nil seen)
guarded seen (b ∷ bytes) (suc room) =
    rw (lt→ltb 0 (suc room) (omega arith)) (ap (◌++◌ seen) (take-min (suc room) (b ∷ bytes)))

keep_bytes-take :
    (out bytes : List ℕ) (cap : ℕ) → keep_bytes (take cap out) cap bytes ≡ take cap (out ++ bytes)
unfolding keep_bytes
keep_bytes-take out bytes cap =
    guarded (take cap out) bytes (cap - length (take cap out))
    ∙ ap (λ k. take cap out ++ take k bytes) {x = cap - length (take cap out)}
        {y = cap - length out} (omega (arith, length-take-min cap out))
    ∙ sym (take-append cap out bytes)

from_start :
    (cap : ℕ) {s t : RecordingStream} {out : List ℕ}
    → (s.seen ≡ []) × (s.cap ≡ cap)
    → Recorded s out t
    → (t.seen ≡ take cap out) × (t.cap ≡ cap)
unfolding poll_recorded
from_start cap (none_seen, same) start = (none_seen ∙ sym (take-nil cap), same)
from_start cap empty (then_poll {t = t} {out = out} (ready bytes) r) =
    let (seen, same) = from_start cap empty r in
    (ap₂ (λ kept c. keep_bytes kept c bytes) seen same ∙ keep_bytes-take out bytes cap, same)
from_start cap empty (then_poll {t = t} {out = out} failed r) =
    let (seen, same) = from_start cap empty r in (seen ∙ ap (take cap) (sym (append-nil out)), same)
from_start cap empty (then_poll {t = t} {out = out} pending r) =
    let (seen, same) = from_start cap empty r in (seen ∙ ap (take cap) (sym (append-nil out)), same)

-- After any reads, with errors and empty polls among them, the tee holds the first `cap` bytes that the
-- caller received.
pub Recorded-take :
    (cap : ℕ) {t : RecordingStream} {out : List ℕ}
    → Recorded (with_cap cap) out t
    → t.seen ≡ take cap out
unfolding with_cap
Recorded-take cap r = (from_start cap (refl, refl) r).0
