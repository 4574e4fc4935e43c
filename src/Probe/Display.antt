-- ===== src/Probe/Display.antt =====
-- The display of a diff, in crates/fingerprint-probe/src/diff.rs. A text is the list of its bytes, so its
-- characters are counted by the bytes that begin one.
pub mod Elided
use flux_parsing_daemon.Base.{
  ℕ, zero, suc, ◌+◌, ◌-◌, Bool, true, false, not, ◌&&◌, ◌||◌, List, [], ◌∷◌, ◌++◌, Option, none,
  some, length, take, drop, keep, any, all, is_empty, leb, ltb, ◌==◌, if◌then◌else◌,
}
use flux_parsing_daemon.Base.Bytes.{codes}
use flux_parsing_daemon.Base.Options.{map_option, unwrap_or}
use flux_parsing_daemon.Base.Text.{decimal, join, split, starts_with}
use flux_parsing_daemon.Probe.Diff.{Diff, FieldDiff, is_clean}
use flux_parsing_daemon.Probe.Verdict.{Scores, score}

abbrev pub value_budget : ℕ
value_budget = 30

abbrev pub field_column : ℕ
field_column = 20

-- `chars().count()`: of a text in UTF-8 the bytes that do not continue a character.
unfoldable pub char_count : List ℕ → ℕ
char_count s = length (keep (λ b. ltb b 0x80 || leb 0xc0 b) s)

unfoldable pub is_list : List ℕ → Bool
is_list value =
    let items = split b',' value in
    leb 2 (length items) && all (λ i. not (is_empty i) && not (any (λ b. b == b' ') i)) items

-- `split_once`: the parts before and behind the first occurrence.
unfoldable pub split_once : List ℕ → List ℕ → Option (List ℕ × List ℕ)
split_once sep [] = if starts_with sep [] then some ([], []) else none
split_once sep (b ∷ s) =
    let rest = map_option (λ (p : List ℕ × List ℕ). (b ∷ p.0, p.1)) (split_once sep s) in
    if starts_with sep (b ∷ s) then some ([], drop (length sep) (b ∷ s)) else rest

-- The width of the items kept, with the next one.
unfoldable pub next_width : ℕ → ℕ → List ℕ → ℕ
next_width kept width item = width + char_count item + (if ltb 0 kept then 1 else 0)

-- The loop over the items: how many are kept.
unfoldable pub kept_items : List (List ℕ) → ℕ → ℕ → ℕ
unfolding next_width
kept_items [] kept width = kept
kept_items (item ∷ items) kept width =
    let next = next_width kept width item in
    let rest = kept_items items (kept + 1) next in
    if ltb value_budget next && ltb 0 kept then kept else rest

unfoldable pub elide_list : List ℕ → List ℕ
unfolding kept_items
elide_list value =
    let items = split b',' value in
    let kept = kept_items items 0 0 in
    let dropped = length items - kept in
    if dropped == 0
    then value
    else join (codes ",") (take kept items) ++ (codes " +" ++ (decimal dropped ++ codes " more"))

unfoldable pub elide_plain : List ℕ → List ℕ
elide_plain value = if is_list value then elide_list value else value

unfoldable pub elide_labelled : List ℕ → Option (List ℕ × List ℕ) → List ℕ
elide_labelled value none = elide_plain value
elide_labelled value (some (label, rest)) =
    if is_list rest then label ++ (codes ": " ++ elide_list rest) else elide_plain value

unfoldable pub elide : List ℕ → List ℕ
elide value =
    if leb (char_count value) value_budget
    then value
    else elide_labelled value (split_once (codes ": ") value)

-- `n` spaces, and `{:<n}`.
unfoldable pub spaces : ℕ → List ℕ
spaces zero = []
spaces (suc n) = b' ' ∷ spaces n

unfoldable pub padded : ℕ → List ℕ → List ℕ
padded n s = s ++ spaces (n - char_count s)

abbrev pub newline : List ℕ
newline = 10 ∷ []

-- The marks, in UTF-8.
abbrev pub mark : Bool → List ℕ
mark true = 0xe2 ∷ 0x9c ∷ 0x93 ∷ []
mark false = 0xe2 ∷ 0x9c ∷ 0x97 ∷ []

-- What a field that differs shows of the profile, and its note.
unfoldable pub expected_text : List ℕ → FieldDiff → List ℕ
expected_text label d =
    if is_empty d.expected
    then []
    else codes "  (" ++ (label ++ (codes ": " ++ (elide d.expected ++ codes ")")))

unfoldable pub note_text : Option (List ℕ) → List ℕ
note_text none = []
note_text (some n) = spaces field_column ++ (elide n ++ newline)

unfoldable pub field_text : List ℕ → FieldDiff → List ℕ
field_text label d =
    codes "  "
    ++ (mark d.is_ok
        ++ (codes " "
            ++ (padded 16 d.name
                ++ (elide d.observed
                    ++ (if d.is_ok
                        then newline
                        else expected_text label d ++ (newline ++ note_text d.note))))))

unfoldable pub fields_text : List ℕ → List FieldDiff → List ℕ
fields_text label [] = []
fields_text label (d ∷ ds) = field_text label d ++ fields_text label ds

module _ (s : Scores) where
  unfoldable pub verdict_text : Diff → List ℕ
  verdict_text d =
      if is_clean d
      then codes "  verdict: matches " ++ (d.label ++ newline)
      else codes "  verdict: NOT "
        ++ (d.label ++ (codes " (" ++ (s.percent (score s d) ++ (codes "% match)" ++ newline))))

  unfoldable pub display : Diff → List ℕ
  display d = fields_text d.label d.fields ++ verdict_text d
