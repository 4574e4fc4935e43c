-- ===== src/Base/Text.antt =====
-- The formatting that the program takes from the standard library: decimal, hexadecimal and `join`.
use Prim.Native.Nat.{ℕ, zero, suc, ◌+◌, ◌/◌, ◌%◌}
use mathlib.Core.Bool.{Bool, true, false, ◌&&◌, ◌||◌}
use mathlib.Core.List.{List, [], ◌∷◌, ◌++◌, map, reverse}
use flux_parsing_daemon.Base.Tests.{ltb, leb, ◌==◌, list_eq, if◌then◌else◌}
use flux_parsing_daemon.Base.Lists.{length, drop}

-- The decimal digits of `n` in front of `tail`, with fuel.
unfoldable pub digits : ℕ → ℕ → List ℕ → List ℕ
digits zero n tail = tail
digits (suc fuel) n tail = elim (ltb n 10) [
  | true ↦ (48 + n) ∷ tail
  | false ↦ digits fuel (n / 10) ((48 + n % 10) ∷ tail)
]

-- `to_string` of an unsigned number. It has at most `n + 1` digits.
unfoldable pub decimal : ℕ → List ℕ
unfolding digits
decimal n = digits (suc n) n []

-- One hexadecimal digit, lower case.
unfoldable pub hex_digit : ℕ → ℕ
hex_digit d = if ltb d 10 then 48 + d else 87 + d

-- `{:04x}` of a 16-bit number.
unfoldable pub hex4 : ℕ → List ℕ
unfolding hex_digit
hex4 v =
    hex_digit (v / 4096 % 16)
    ∷ hex_digit (v / 256 % 16)
    ∷ hex_digit (v / 16 % 16)
    ∷ hex_digit (v % 16)
    ∷ []

-- The hexadecimal digits of `n` in front of `tail`, with fuel, and `{:x}`.
unfoldable pub hex_digits : ℕ → ℕ → List ℕ → List ℕ
hex_digits zero n tail = tail
hex_digits (suc fuel) n tail = elim (ltb n 16) [
  | true ↦ hex_digit n ∷ tail
  | false ↦ hex_digits fuel (n / 16) (hex_digit (n % 16) ∷ tail)
]

unfoldable pub hex : ℕ → List ℕ
unfolding hex_digits hex_digit
hex n = hex_digits (suc n) n []

-- `{:02}` of a number below 100.
unfoldable pub two_digits : ℕ → List ℕ
two_digits n = (48 + n / 10) ∷ (48 + n % 10) ∷ []

-- `join`
unfoldable pub join : List ℕ → List (List ℕ) → List ℕ
join sep [] = []
join sep (x ∷ []) = x
join sep (x ∷ y ∷ rest) = x ++ (sep ++ join sep (y ∷ rest))

-- `is_ascii_digit`, `is_ascii_uppercase`, `is_ascii_lowercase`
unfoldable pub is_digit : ℕ → Bool
is_digit b = leb b'0' b && leb b b'9'

unfoldable pub is_upper : ℕ → Bool
is_upper b = leb b'A' b && leb b b'Z'

unfoldable pub is_lower : ℕ → Bool
is_lower b = leb b'a' b && leb b b'z'

-- `to_ascii_lowercase`, on a byte and on a string.
unfoldable pub lower : ℕ → ℕ
unfolding is_upper
lower b = if is_upper b then b + 32 else b

unfoldable pub to_lower : List ℕ → List ℕ
unfolding lower
to_lower [] = []
to_lower (b ∷ bs) = lower b ∷ to_lower bs

-- `starts_with`
unfoldable pub starts_with : List ℕ → List ℕ → Bool
starts_with [] s = true
starts_with (p ∷ ps) [] = false
starts_with (p ∷ ps) (b ∷ s) = (p == b) && starts_with ps s

-- `contains` on strings: the pattern starts somewhere.
unfoldable pub has_substring : List ℕ → List ℕ → Bool
unfolding starts_with
has_substring p [] = starts_with p []
has_substring p (b ∷ s) = starts_with p (b ∷ s) || has_substring p s

-- `eq_ignore_ascii_case`
abbrev pub eq_ignore_ascii_case : List ℕ → List ℕ → Bool
eq_ignore_ascii_case a b = list_eq (to_lower a) (to_lower b)

-- A byte at the front of the first part.
unfoldable pub begin_with : ℕ → List (List ℕ) → List (List ℕ)
begin_with b [] = (b ∷ []) ∷ []
begin_with b (part ∷ parts) = (b ∷ part) ∷ parts

-- `split` at a byte: the parts between its occurrences, one more than there are.
unfoldable pub split : ℕ → List ℕ → List (List ℕ)
split sep [] = [] ∷ []
split sep (b ∷ s) = if b == sep then [] ∷ split sep s else begin_with b (split sep s)

-- The characters of `char::is_whitespace`, in UTF-8.
abbrev pub white_space : List (List ℕ)
white_space =
    (9 ∷ [])
    ∷ (10 ∷ [])
    ∷ (11 ∷ [])
    ∷ (12 ∷ [])
    ∷ (13 ∷ [])
    ∷ (32 ∷ [])
    ∷ (0xc2 ∷ 0x85 ∷ [])
    ∷ (0xc2 ∷ 0xa0 ∷ [])
    ∷ (0xe1 ∷ 0x9a ∷ 0x80 ∷ [])
    ∷ (0xe2 ∷ 0x80 ∷ 0x80 ∷ [])
    ∷ (0xe2 ∷ 0x80 ∷ 0x81 ∷ [])
    ∷ (0xe2 ∷ 0x80 ∷ 0x82 ∷ [])
    ∷ (0xe2 ∷ 0x80 ∷ 0x83 ∷ [])
    ∷ (0xe2 ∷ 0x80 ∷ 0x84 ∷ [])
    ∷ (0xe2 ∷ 0x80 ∷ 0x85 ∷ [])
    ∷ (0xe2 ∷ 0x80 ∷ 0x86 ∷ [])
    ∷ (0xe2 ∷ 0x80 ∷ 0x87 ∷ [])
    ∷ (0xe2 ∷ 0x80 ∷ 0x88 ∷ [])
    ∷ (0xe2 ∷ 0x80 ∷ 0x89 ∷ [])
    ∷ (0xe2 ∷ 0x80 ∷ 0x8a ∷ [])
    ∷ (0xe2 ∷ 0x80 ∷ 0xa8 ∷ [])
    ∷ (0xe2 ∷ 0x80 ∷ 0xa9 ∷ [])
    ∷ (0xe2 ∷ 0x80 ∷ 0xaf ∷ [])
    ∷ (0xe2 ∷ 0x81 ∷ 0x9f ∷ [])
    ∷ (0xe3 ∷ 0x80 ∷ 0x80 ∷ [])
    ∷ []

-- How many bytes the character of `chars` at the front of `s` has, 0 where there is none.
unfoldable pub front_width : List (List ℕ) → List ℕ → ℕ
front_width [] s = 0
front_width (c ∷ chars) s = if starts_with c s then length c else front_width chars s

-- Each round but the last takes a character away, so as many rounds as bytes are enough.
unfoldable pub trim_front : ℕ → List (List ℕ) → List ℕ → List ℕ
trim_front zero chars s = s
trim_front (suc fuel) chars s =
    let n = front_width chars s in
    let rest = trim_front fuel chars (drop n s) in if n == 0 then s else rest

-- `str::trim`: white space is taken from the front, and from the front of the reversed text.
unfoldable pub trim : List ℕ → List ℕ
trim s =
    let front = trim_front (length s) white_space s in
    reverse (trim_front (length front) (map reverse white_space) (reverse front))
