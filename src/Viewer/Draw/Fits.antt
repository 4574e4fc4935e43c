-- ===== src/Viewer/Draw/Fits.antt =====
-- How many lines are drawn. The footer is the last of them, so it is on the screen where they are as many as
-- the screen has.
use flux_parsing_daemon.Base.{
  ℕ, zero, suc, ◌+◌, ◌-◌, ◌*◌, ◌/◌, ◌≤◌, ◌<◌, ◌≡◌, ◌⊎◌, refl, ap, ◌∙◌, arith, min, Bool, true,
  false, inl, inr, List, [], ◌∷◌, ◌++◌, Option, none, some, length, length-append, length-drop,
  get_elem?, append_assoc, sym, drop, is_empty, ltb, ltb→lt, lt→ltb, le→ltb, ltb-false→le,
  Bool-cases, if◌then◌else◌, ◌==◌, ◌||◌,
}
use Prim.Native.Nat.{max}
use native.Mathlib.Nat.{suc-mul}
use native.Mathlib.Decide.{dec_lt}
use flux_parsing_daemon.Viewer.{Row, State, visible, current}
use flux_parsing_daemon.Viewer.Draw.{
  Line, blank, short, bytes_per_row, table_rows, table_lines, hex_rows, hex_first, hex_last,
  hex_lines, akamai_lines, alert_lines, summary_lines, hello_lines, detail_lines, pad_lines,
  pane_lines, body_lines, render, rule, footer, recede,
}

length-table_rows :
    (width chosen i : ℕ) (rows : List Row) → length (table_rows width chosen i rows) ≡ length rows
unfolding table_rows
length-table_rows width chosen i [] = refl
length-table_rows width chosen i (r ∷ rows) =
    omega (arith, length-table_rows width chosen (i + 1) rows)

length-pad_lines :
    (fuel height : ℕ) (lines : List Line)
    → height ≤ fuel + length lines + 2
    → length (pad_lines fuel height lines) ≡ max (length lines) (height - 2)
unfolding pad_lines
length-pad_lines zero height lines h = omega arith
length-pad_lines (suc fuel) height lines h = elim (Bool-cases (ltb (length lines + 2) height)) [
  | inl e ↦ rw e (
      length-pad_lines fuel height (lines ++ (blank ∷ []))
        (omega (arith, length-append lines (blank ∷ [])))
      ∙ omega (arith, length-append lines (blank ∷ []), ltb→lt (length lines + 2) height e))
  | inr e ↦ rw e (omega (arith, ltb-false→le (length lines + 2) height e))
]

length-hex_rows-le :
    (row : Row) (bpr last room offset : ℕ) → length (hex_rows row bpr last room offset) ≤ room
unfolding hex_rows
length-hex_rows-le row bpr last zero offset = omega arith
length-hex_rows-le row bpr last (suc room) offset = elim (Bool-cases (ltb offset last)) [
  | inl e ↦ rw e (omega (arith, length-hex_rows-le row bpr last room (offset + bpr)))
  | inr e ↦ rw e (omega arith)
]

-- Where there are bytes enough, every line there is room for is drawn.
pub length-hex_rows :
    (row : Row) (bpr last n room offset : ℕ)
    → 0 < bpr
    → room ≤ n
    → offset + n * bpr ≤ last
    → length (hex_rows row bpr last room offset) ≡ room
unfolding hex_rows
length-hex_rows row bpr last n zero offset p h k = refl
length-hex_rows row bpr last zero (suc room) offset p h k = absurd (omega arith)
length-hex_rows row bpr last (suc n) (suc room) offset p h k =
    let step : suc n * bpr ≡ n * bpr + bpr = suc-mul n bpr in
    rw (lt→ltb offset last (omega (arith, step))) (
      ap suc
        (length-hex_rows row bpr last n room (offset + bpr) p (omega arith) (omega (arith, step))))

length-alert_lines : (b : Bool) → length (alert_lines b) ≤ 1
unfolding alert_lines
length-alert_lines true = omega arith
length-alert_lines false = omega arith

length-akamai_lines : (o : Option (List ℕ)) → length (akamai_lines o) ≤ 1
unfolding akamai_lines
length-akamai_lines none = omega arith
length-akamai_lines (some a) = omega arith

length-hex_lines-le : (row : Row) (width room : ℕ) → length (hex_lines row width room) ≤ room
unfolding hex_lines
length-hex_lines-le row width room = by_width (bytes_per_row width)
  where
    by_width :
        (o : Option ℕ)
        → length (elim o as (λ x. List Line) [
          | none ↦ []
          | some bpr ↦
              if is_empty row.raw || (room == 0)
              then []
              else hex_rows row bpr (hex_last row) room (hex_first row bpr)
        ])
          ≤ room
    by_width none = omega arith
    by_width (some bpr) = elim (Bool-cases (is_empty row.raw || (room == 0))) [
      | inl e ↦ rw e (omega arith)
      | inr e ↦ rw e (length-hex_rows-le row bpr (hex_last row) room (hex_first row bpr))
    ]

module _ (percent : ℕ → List ℕ) where
  pub length-summary_lines :
      (row : Row)
      → (3 ≤ length (summary_lines percent row)) × (length (summary_lines percent row) ≤ 5)
  unfolding summary_lines
  length-summary_lines row = (
    rw (length-append (alert_lines row.mismatch)) (omega arith),
    rw (length-append (alert_lines row.mismatch))
        (omega (arith, length-alert_lines row.mismatch, length-akamai_lines row.akamai)),
  )

  -- The lines above the dump, on a screen that is not short.
  pub length-above :
      (row : Row)
      → length (summary_lines percent row ++ hello_lines percent row)
        ≡ length (summary_lines percent row) + 3
  length-above row =
      length-append (summary_lines percent row) (hello_lines percent row)
      ∙ (unfold hello_lines in refl)

  length-detail_lines-short :
      (row : Row) (width height : ℕ)
      → height < 20
      → length (detail_lines percent row width height) ≤ 5
  unfolding detail_lines
  length-detail_lines-short row width height h =
      rw (lt→ltb height short h) (length-summary_lines row).1

  length-detail_lines-le :
      (row : Row) (width height : ℕ)
      → 20 ≤ height
      → length (detail_lines percent row width height) ≤ height - 10
  unfolding detail_lines
  length-detail_lines-le row width height h =
      let out = summary_lines percent row ++ hello_lines percent row in
      let dump = hex_lines row width (height - (length out + 10)) in
      rw (le→ltb height short h) (
        omega (
          arith,
          length-append out dump,
          length-hex_lines-le row width (height - (length out + 10)),
          length-above row,
          (length-summary_lines row).1,
        ))

module _ (lowercase : List ℕ → List ℕ) (percent : ℕ → List ℕ) where
  length-table_lines :
      (s : State) (width height : ℕ)
      → length (table_lines lowercase s width height) ≡ min height (length (visible lowercase s))
  unfolding table_lines
  length-table_lines s width height =
      length-table_rows width _ _
        (drop (length (visible lowercase s) - height) (visible lowercase s))
      ∙ length-drop (length (visible lowercase s) - height) (visible lowercase s)
      ∙ omega arith

  pub length-body_lines :
      (s : State) (width height : ℕ)
      → length (body_lines lowercase percent s width height)
        ≡ min (max (height / 3) 1) (length (visible lowercase s))
          + length (pane_lines lowercase percent (current lowercase s) width height)
          + 3
  unfolding body_lines
  length-body_lines s width height =
      let table = table_lines lowercase s width (max (height / 3) 1) in
      let pane = pane_lines lowercase percent (current lowercase s) width height in
      omega (
        arith,
        length-append table (rule width ∷ pane),
        length-table_lines s width (max (height / 3) 1),
      )

  pub length-render :
      (s : State) (width height : ℕ)
      → length (render lowercase percent s width height)
        ≡ max (length (body_lines lowercase percent s width height)) (height - 2) + 2
  unfolding render
  length-render s width height =
      let body = body_lines lowercase percent s width height in
      length-append (pad_lines height height body) (rule width ∷ ((footer s, recede) ∷ []) ∷ [])
      ∙ omega (arith, length-pad_lines height height body (omega arith))

  pane_fits :
      (row : Option Row) (width height : ℕ)
      → 15 ≤ height
      → ((height < 20) × (length (pane_lines lowercase percent row width height) ≤ 5))
        ⊎ ((20 ≤ height) × (length (pane_lines lowercase percent row width height) ≤ height - 10))
  unfolding pane_lines
  pane_fits none width height h = elim (dec_lt height 20) [
    | yes p ↦ inl (p, omega arith)
    | no p ↦ inr (omega arith, omega arith)
  ]
  pane_fits (some row) width height h = elim (dec_lt height 20) [
    | yes p ↦ inl (p, length-detail_lines-short percent row width height p)
    | no p ↦ inr (omega arith, length-detail_lines-le percent row width height (omega arith))
  ]

  -- The footer is the last line drawn, and the only one behind these.
  unfoldable pub above_footer : State → ℕ → ℕ → List Line
  above_footer s width height =
      pad_lines height height (body_lines lowercase percent s width height) ++ (rule width ∷ [])

  unfoldable pub footer_line : State → Line
  footer_line s = (footer s, recede) ∷ []

  pub render-footer :
      (s : State) (width height : ℕ)
      → render lowercase percent s width height
        ≡ above_footer s width height ++ (footer_line s ∷ [])
  unfolding render above_footer footer_line
  render-footer s width height = sym (
      append_assoc (pad_lines height height (body_lines lowercase percent s width height))
        (rule width ∷ []) _)

  -- The footer is at the last place, where places are counted from 0.
  pub footer_at :
      (s : State) (width height n : ℕ)
      → length (render lowercase percent s width height) ≡ suc n
      → get_elem? (render lowercase percent s width height) n ≡ some (footer_line s)
  footer_at s width height n h =
      let front = above_footer s width height in
      let size : length front ≡ n = omega (
        arith,
        h,
        ap length (render-footer s width height),
        length-append front (footer_line s ∷ []),
      ) in
      rw (render-footer s width height, sym size) (at_end front (footer_line s))
    where
      at_end :
          (front : List Line) (x : Line) → get_elem? (front ++ (x ∷ [])) (length front) ≡ some x
      at_end [] x = refl
      at_end (y ∷ front) x = at_end front x

  length-render_fits :
      (s : State) (width height : ℕ)
      → 15 ≤ height
      → (height < 20) ⊎ (length (visible lowercase s) ≤ 5)
      → length (render lowercase percent s width height) ≡ height
  length-render_fits s width height h few = length-render s width height ∙ (elim few [
    | inl low ↦ elim (pane_fits (current lowercase s) width height h) [
      | inl (p, q) ↦ omega (arith, p, q, length-body_lines s width height)
      | inr (p, q) ↦ absurd (omega (arith, p, low))
    ]
    | inr five ↦ elim (pane_fits (current lowercase s) width height h) [
      | inl (p, q) ↦ omega (arith, p, q, five, length-body_lines s width height)
      | inr (p, q) ↦ omega (arith, p, q, five, length-body_lines s width height)
    ]
  ])

  -- The lines drawn fill the screen exactly, and the footer stands on its last line, where the screen has at
  -- least 15 lines and, if it has 20 or more, at most five connections are visible.
  pub render_fits :
      (s : State) (width height : ℕ)
      → 15 ≤ height
      → (height < 20) ⊎ (length (visible lowercase s) ≤ 5)
      → (length (render lowercase percent s width height) ≡ height)
        × (get_elem? (render lowercase percent s width height) (height - 1)
            ≡ some ((footer s, recede) ∷ []))
  unfolding footer_line
  render_fits s width height h few =
      let filled = length-render_fits s width height h few in
      (filled, footer_at s width height (height - 1) (omega (arith, filled, h)))
