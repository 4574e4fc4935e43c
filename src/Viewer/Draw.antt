-- ===== src/Viewer/Draw.antt =====
-- The drawing of crates/fpd/src/tui/render.rs, with the inks and breakpoints of theme.rs: the lines that are
-- handed to the widget, each a list of texts with their inks. `lowercase` is the case table of Unicode, and
-- `percent` the text of a score.
pub mod Fits
pub mod Overflows
use flux_parsing_daemon.Base.{
  ℕ, zero, suc, ◌+◌, ◌-◌, ◌*◌, ◌/◌, ◌%◌, min, Bool, true, false, ◌||◌, List, [], ◌∷◌, ◌++◌, Option,
  none, some, length, any, drop, get_elem?, is_empty, ltb, leb, ◌==◌, if◌then◌else◌,
}
use Prim.Native.Nat.{max}
use flux_parsing_daemon.Base.Bytes.{codes}
use flux_parsing_daemon.Base.Text.{decimal, hex, hex_digit}
use flux_parsing_daemon.Tls.Hello.{Span}
use flux_parsing_daemon.Viewer.{
  Row, State, alerts, visible, current, ciphers_len, feeds_fingerprint, hhmmss, truncate,
  within_row,
}

pub data Ink : Type 0 where
  recede normal advance demand : Ink

-- A text without a style has that of `normal`.
abbrev pub Line : Type 0
Line = List (List ℕ × Ink)

unfoldable pub bytes_per_row : ℕ → Option ℕ
bytes_per_row width = if leb 100 width then some 16 else if leb 72 width then some 8 else none

abbrev pub narrow : ℕ
narrow = 40

abbrev pub short : ℕ
short = 20

unfoldable pub times : ℕ → ℕ → List ℕ
times zero c = []
times (suc n) c = c ∷ times n c

-- `{:<n}`, `{:04x}` and `{:02x}`
unfoldable pub left : ℕ → List ℕ → List ℕ
left n text = text ++ times (n - length text) b' '

unfoldable pub hex_offset : ℕ → List ℕ
hex_offset n = times (4 - length (hex n)) b'0' ++ hex n

unfoldable pub hex_byte : ℕ → List ℕ
hex_byte b = hex_digit (b / 16) ∷ hex_digit (b % 16) ∷ []

abbrev pub blank : Line
blank = ([], normal) ∷ []

-- 0x2500 is the horizontal line.
unfoldable pub rule : ℕ → Line
rule width = (times (width - 2) 0x2500, recede) ∷ []

-- A row of the table; 0x2717 is the cross.
unfoldable pub table_text : ℕ → Row → List ℕ
table_text width r =
    let ja4 = if leb 100 width then r.ja4 else truncate r.ja4 18 in
    if ltb width narrow
    then ja4 ++ (codes "  " ++ truncate r.verdict 12)
    else hhmmss r.at_ms
      ++ (codes "   "
          ++ (left 15 (truncate r.ip 15)
              ++ (codes "  "
                  ++ (left 38 ja4
                      ++ (codes "  "
                          ++ (truncate r.verdict 18
                              ++ (if r.mismatch then codes "  " ++ (0x2717 ∷ []) else [])))))))

-- The rows from the place `i` on; `chosen` is the place of the selected one.
unfoldable pub table_rows : ℕ → ℕ → ℕ → List Row → List Line
table_rows width chosen i [] = []
table_rows width chosen i (r ∷ rows) =
    ((table_text width r, if i == chosen then demand else normal) ∷ [])
    ∷ table_rows width chosen (i + 1) rows

module _ (lowercase : List ℕ → List ℕ) where
  unfoldable pub table_lines : State → ℕ → ℕ → List Line
  table_lines s width height =
      let rows = visible lowercase s in
      let start = length rows - height in
      table_rows width (min s.selected (length rows - 1)) start (drop start rows)

-- A byte of the dump; 0xb7 is the middle dot.
unfoldable pub hex_cell : Row → ℕ → ℕ → List ℕ × Ink
hex_cell row at byte =
    if feeds_fingerprint row at
    then (hex_byte byte ++ codes " ", normal)
    else (0xb7 ∷ 0xb7 ∷ codes " ", recede)

-- The loop over the bytes of a row from `i` on, `n` of which are left; it ends at the end of the bytes.
unfoldable pub hex_cells : Row → ℕ → ℕ → ℕ → ℕ → Line
hex_cells row bpr offset zero i = []
hex_cells row bpr offset (suc n) i =
    let rest = hex_cells row bpr offset n (i + 1) in
    elim (get_elem? row.raw (offset + i)) [
      | none ↦ []
      | some byte ↦
          hex_cell row (offset + i) byte
          ∷ (if i == bpr / 2 - 1 then (codes " ", normal) ∷ rest else rest)
    ]

-- The label in the margin of the row at `offset`.
unfoldable pub margin : Row → ℕ → ℕ → Line
margin row offset bpr =
    if within_row row.ciphers.start offset bpr
    then (codes "  ciphers " ++ decimal (ciphers_len row), recede) ∷ []
    else if within_row row.extensions.start offset bpr
    then (codes "  extensions " ++ decimal row.ext_count, recede) ∷ []
    else if any (λ (g : Span). within_row g.start offset bpr) row.grease_ext
    then (codes "  grease", recede) ∷ []
    else []

unfoldable pub hex_line : Row → ℕ → ℕ → Line
hex_line row bpr offset =
    (hex_offset offset ++ codes "   ", recede)
    ∷ (hex_cells row bpr offset bpr 0 ++ margin row offset bpr)

-- The loop over the rows of the dump, where `room` lines are left.
unfoldable pub hex_rows : Row → ℕ → ℕ → ℕ → ℕ → List Line
hex_rows row bpr last zero offset = []
hex_rows row bpr last (suc room) offset =
    let rest = hex_rows row bpr last room (offset + bpr) in
    if ltb offset last then hex_line row bpr offset ∷ rest else []

-- Where the dump begins and where it ends.
unfoldable pub hex_first : Row → ℕ → ℕ
hex_first row bpr = (row.ciphers.start / bpr - 1) * bpr

unfoldable pub hex_last : Row → ℕ
hex_last row = min (row.extensions.start + row.extensions.len) (length row.raw)

unfoldable pub hex_lines : Row → ℕ → ℕ → List Line
hex_lines row width max_lines = elim (bytes_per_row width) [
  | none ↦ []
  | some bpr ↦
      if is_empty row.raw || (max_lines == 0)
      then []
      else hex_rows row bpr (hex_last row) max_lines (hex_first row bpr)
]

unfoldable pub alpn_text : Option (List ℕ) → List ℕ
alpn_text none = []
alpn_text (some a) = codes ", alpn " ++ a

unfoldable pub akamai_lines : Option (List ℕ) → List Line
akamai_lines none = []
akamai_lines (some a) = ((codes "h2     ", recede) ∷ (truncate a 60, normal) ∷ []) ∷ []

unfoldable pub alert_lines : Bool → List Line
alert_lines false = []
alert_lines true =
    ((codes "  the user-agent claims a browser this fingerprint contradicts  ", demand) ∷ []) ∷ []

module _ (percent : ℕ → List ℕ) where
  -- The lines that a short terminal shows too.
  unfoldable pub summary_lines : Row → List Line
  summary_lines row =
      ((left 20 row.ip, advance)
        ∷ (row.verdict ++ (codes "  " ++ (percent row.score ++ codes "%")), normal)
        ∷ [])
      ∷ (alert_lines row.mismatch
          ++ (((codes "ja4    ", recede) ∷ (row.ja4, advance) ∷ [])
              ∷ ((
                codes "       "
                    ++ (decimal (ciphers_len row)
                        ++ (codes " ciphers, "
                            ++ (decimal row.ext_count
                                ++ (codes " extensions" ++ alpn_text row.alpn)))),
                recede,
              )
                  ∷ [])
              ∷ akamai_lines row.akamai))

  unfoldable pub hello_lines : Row → List Line
  hello_lines row =
      blank
      ∷ ((codes "clienthello   " ++ (decimal (length row.raw) ++ codes " bytes"), recede) ∷ [])
      ∷ blank
      ∷ []

  unfoldable pub detail_lines : Row → ℕ → ℕ → List Line
  detail_lines row width height =
      let out = summary_lines row ++ hello_lines row in
      let taken = length out + 10 in
      if ltb height short then summary_lines row else out ++ hex_lines row width (height - taken)

unfoldable pub header_line : State → Line
header_line s =
    let n = alerts s in
    (codes "fpd   ", advance)
    ∷ (s.source_label, recede)
    ∷ (codes "   " ++ (decimal (length s.rows) ++ codes " conn"), recede)
    ∷ (if ltb 0 n
        then (
          codes "   " ++ (decimal n ++ (codes " alert" ++ (if n == 1 then [] else codes "s"))),
          advance,
        )
        else ([], recede))
    ∷ ((if s.dropped then codes "   records dropped" else []), advance)
    ∷ []

unfoldable pub exported_text : Option (List ℕ) → List ℕ
exported_text none = codes "/  search       f  follow       e  export       q  quit"
exported_text (some path) = codes "wrote " ++ path

unfoldable pub footer : State → List ℕ
footer s = if s.searching then codes "/" ++ s.search else exported_text s.exported

-- `while lines.len() + 2 < height`; as many rounds as the height has lines are enough.
unfoldable pub pad_lines : ℕ → ℕ → List Line → List Line
pad_lines zero height lines = lines
pad_lines (suc fuel) height lines =
    let rest = pad_lines fuel height (lines ++ (blank ∷ [])) in
    if ltb (length lines + 2) height then rest else lines

module _ (lowercase : List ℕ → List ℕ) (percent : ℕ → List ℕ) where
  unfoldable pub pane_lines : Option Row → ℕ → ℕ → List Line
  pane_lines none width height = ((codes "waiting for a connection", recede) ∷ []) ∷ []
  pane_lines (some row) width height = detail_lines percent row width height

  unfoldable pub body_lines : State → ℕ → ℕ → List Line
  body_lines s width height =
      header_line s
      ∷ blank
      ∷ (table_lines lowercase s width (max (height / 3) 1)
          ++ (rule width ∷ pane_lines (current lowercase s) width height))

  unfoldable pub render : State → ℕ → ℕ → List Line
  render s width height =
      pad_lines height height (body_lines s width height)
      ++ (rule width ∷ ((footer s, recede) ∷ []) ∷ [])
