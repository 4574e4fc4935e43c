-- ===== src/Base/Utf8.antt =====
-- UTF-8 validation as in the standard library, and the lossy conversion.
use Prim.Native.Nat.{ℕ}
use mathlib.Core.Path.{◌≡◌, refl, ap, ◌∙◌}
use mathlib.Core.Bool.{Bool, true, false, ◌&&◌}
use mathlib.Core.Option.{Option, none, some}
use mathlib.Core.List.{List, [], ◌∷◌, ◌++◌, append_assoc}
use native.Mathlib.Omega.{arith}
use flux_parsing_daemon.Base.Tests.{leb, ◌==◌, if◌then◌else◌, Bool-cases}
use mathlib.Core.Logic.{inl, inr}
use flux_parsing_daemon.Base.Lists.{is_empty}

-- The ranges of the continuation bytes that are still to come.
abbrev pub Tail : Type 0
Tail = List (ℕ × ℕ)

abbrev any_tail : ℕ × ℕ
any_tail = (0x80, 0xbf)

abbrev within : ℕ → ℕ → ℕ → Bool
within lo hi b = leb lo b && leb b hi

-- What follows a first byte; `none` where no character begins so.
unfoldable pub lead : ℕ → Option Tail
lead b =
    if leb b 0x7f
    then some []
    else if within 0xc2 0xdf b
    then some (any_tail ∷ [])
    else if b == 0xe0
    then some ((0xa0, 0xbf) ∷ any_tail ∷ [])
    else if b == 0xed
    then some ((0x80, 0x9f) ∷ any_tail ∷ [])
    else if within 0xe1 0xef b
    then some (any_tail ∷ any_tail ∷ [])
    else if b == 0xf0
    then some ((0x90, 0xbf) ∷ any_tail ∷ any_tail ∷ [])
    else if within 0xf1 0xf3 b
    then some (any_tail ∷ any_tail ∷ any_tail ∷ [])
    else if b == 0xf4
    then some ((0x80, 0x8f) ∷ any_tail ∷ any_tail ∷ [])
    else none

-- The bytes finish the open character and are well formed behind it.
unfoldable pub is_utf8_from : Tail → List ℕ → Bool
unfolding lead
is_utf8_from need [] = is_empty need
is_utf8_from [] (b ∷ bs) = elim (lead b) [ none ↦ false | some need ↦ is_utf8_from need bs ]
is_utf8_from ((lo, hi) ∷ need) (b ∷ bs) =
    let rest = is_utf8_from need bs in if within lo hi b then rest else false

-- `String::from_utf8(bytes).ok()`
unfoldable pub from_utf8 : List ℕ → Option (List ℕ)
unfolding is_utf8_from
from_utf8 bytes = if is_utf8_from [] bytes then some bytes else none

-- U+FFFD
abbrev replacement : List ℕ
replacement = 0xef ∷ 0xbf ∷ 0xbd ∷ []

-- The first byte `b` of a character; `go` reads on with the bytes kept and the ranges to come.
opened : Option Tail → ℕ → (List ℕ → Tail → List ℕ) → List ℕ
opened none b go = replacement ++ go [] []
opened (some []) b go = b ∷ go [] []
opened (some (r ∷ rs)) b go = go (b ∷ []) (r ∷ rs)

-- A continuation byte in range, the last one or not.
continued : List ℕ → Tail → ℕ → (List ℕ → Tail → List ℕ) → List ℕ
continued kept [] b go = (kept ++ b ∷ []) ++ go [] []
continued kept (r ∷ rs) b go = go (kept ++ b ∷ []) (r ∷ rs)

-- `kept` holds the bytes of the open character. Each maximal part that is no character becomes one
-- U+FFFD.
unfoldable pub lossy_from : List ℕ → Tail → List ℕ → List ℕ
unfolding lead opened continued
lossy_from kept need [] = if is_empty kept then [] else replacement
lossy_from kept [] (b ∷ bs) = opened (lead b) b (λ k n. lossy_from k n bs)
lossy_from kept ((lo, hi) ∷ need) (b ∷ bs) =
    let go = λ (k : List ℕ) (n : Tail). lossy_from k n bs in
    if within lo hi b then continued kept need b go else replacement ++ opened (lead b) b go

-- `String::from_utf8_lossy`
unfoldable pub from_utf8_lossy : List ℕ → List ℕ
unfolding lossy_from
from_utf8_lossy bytes = lossy_from [] [] bytes

-- Where no character is open, no byte is kept.
abbrev Fits : List ℕ → Tail → Type 0
Fits kept need = need ≡ [] → kept ≡ []

-- The claim below for the bytes that follow.
abbrev Continues : List ℕ → Type 0
Continues bs =
    (kept : List ℕ) (need : Tail)
    → Fits kept need
    → is_utf8_from need bs ≡ true
    → lossy_from kept need bs ≡ kept ++ bs

opened_valid :
    (o : Option Tail) (b : ℕ) (bs : List ℕ)
    → Continues bs
    → (elim o [ none ↦ false | some need ↦ is_utf8_from need bs ]) ≡ true
    → opened o b (λ k n. lossy_from k n bs) ≡ b ∷ bs
unfolding opened
opened_valid none b bs ih h = cc
opened_valid (some []) b bs ih h = ap (◌∷◌ b) (ih [] [] (λ _. refl) h)
opened_valid (some (r ∷ rs)) b bs ih h = ih (b ∷ []) (r ∷ rs) (λ e. cc) h

continued_valid :
    (kept : List ℕ) (rs : Tail) (b : ℕ) (bs : List ℕ)
    → Continues bs
    → is_utf8_from rs bs ≡ true
    → continued kept rs b (λ k n. lossy_from k n bs) ≡ kept ++ b ∷ bs
unfolding continued
continued_valid kept [] b bs ih h =
    ap (λ t. (kept ++ b ∷ []) ++ t) (ih [] [] (λ _. refl) h) ∙ append_assoc kept (b ∷ []) bs
continued_valid kept (r ∷ rs) b bs ih h =
    ih (kept ++ b ∷ []) (r ∷ rs) (λ e. cc) h ∙ append_assoc kept (b ∷ []) bs

lossy_valid : (bs : List ℕ) → Continues bs
unfolding is_utf8_from lossy_from
lossy_valid [] kept [] fits h = rw (fits refl)
lossy_valid [] kept (r ∷ rs) fits h = cc
lossy_valid (b ∷ bs) kept [] fits h = rw (fits refl) (opened_valid (lead b) b bs (lossy_valid bs) h)
lossy_valid (b ∷ bs) kept ((lo, hi) ∷ rs) fits h = elim (Bool-cases (within lo hi b)) [
  | inl e ↦ rw e (continued_valid kept rs b bs (lossy_valid bs) (rw e at h))
  | inr e ↦ cc (rw e at h)
]

-- The lossy conversion leaves valid UTF-8 as it is.
pub from_utf8_lossy_valid :
    (bytes : List ℕ) → from_utf8 bytes ≡ some bytes → from_utf8_lossy bytes ≡ bytes
unfolding from_utf8 from_utf8_lossy
from_utf8_lossy_valid bytes h = lossy_valid bytes [] [] (λ _. refl) (ground arith)
