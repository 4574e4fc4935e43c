-- ===== src/Viewer/Draw/Overflows.antt =====
-- Where the table and the dump of the bytes both use the room that they are given, more lines are drawn than
-- the screen has, and the footer is not on it.
use flux_parsing_daemon.Base.{
  ℕ, ◌+◌, ◌-◌, ◌*◌, ◌/◌, ◌≤◌, ◌<◌, ◌≡◌, refl, sym, subst, ◌∙◌, arith, false, inl, inr, List, [],
  ◌∷◌, ◌++◌, some, length, length-append, is_empty, leb, le→ltb, ==→eq, Bool-cases, ◌==◌, get_elem?,
  suc,
}
use flux_parsing_daemon.Base.Options.{some_injective}
use flux_parsing_daemon.Viewer.{Row, State, visible, current}
use flux_parsing_daemon.Viewer.Draw.{
  short, bytes_per_row, hex_first, hex_last, hex_lines, summary_lines, hello_lines, detail_lines,
  pane_lines, render, footer, recede,
}
use flux_parsing_daemon.Viewer.Draw.Fits.{
  length-hex_rows, length-summary_lines, length-above, length-body_lines, length-render,
  footer_line, footer_at,
}

bytes_per_row-pos : (width : ℕ) {bpr : ℕ} → bytes_per_row width ≡ some bpr → 0 < bpr
unfolding bytes_per_row
bytes_per_row-pos width {bpr} h = elim (Bool-cases (leb 100 width)) [
  | inl e ↦ subst (λ n. 0 < n) (some_injective (rw e at h)) (omega arith)
  | inr e ↦ elim (Bool-cases (leb 72 width)) [
    | inl f ↦ subst (λ n. 0 < n) (some_injective (rw (e, f) at h)) (omega arith)
    | inr f ↦ cc (rw (e, f) at h)
  ]
]

not_empty : (raw : List ℕ) → 0 < length raw → is_empty raw ≡ false
not_empty [] h = absurd (omega arith)
not_empty (b ∷ raw) h = refl

length-hex_lines :
    (row : Row) (width bpr n room : ℕ)
    → bytes_per_row width ≡ some bpr
    → 0 < length row.raw
    → room ≤ n
    → hex_first row bpr + n * bpr ≤ hex_last row
    → length (hex_lines row width room) ≡ room
unfolding hex_lines
length-hex_lines row width bpr n room e some_raw h k =
    rw (hex_lines, e, not_empty row.raw some_raw)
      (elim (Bool-cases (room == 0)) [
        | inl z ↦ rw z (sym (==→eq room 0 z))
        | inr z ↦ rw z (
            length-hex_rows row bpr (hex_last row) n room (hex_first row bpr)
              (bytes_per_row-pos width e) h k)
      ])

module _ (lowercase : List ℕ → List ℕ) (percent : ℕ → List ℕ) where
  length-detail_lines :
      (row : Row) (width height bpr : ℕ)
      → 20 ≤ height
      → bytes_per_row width ≡ some bpr
      → 0 < length row.raw
      → hex_first row bpr + (height - 16) * bpr ≤ hex_last row
      → length (detail_lines percent row width height) ≡ height - 10
  unfolding detail_lines
  length-detail_lines row width height bpr h e some_raw long =
      let out = summary_lines percent row ++ hello_lines percent row in
      let room = height - (length out + 10) in
      let (at_least, at_most) = length-summary_lines percent row in
      let above : length out ≡ length (summary_lines percent row) + 3 = length-above percent row in
      rw (le→ltb height short h) (
        length-append out (hex_lines row width room)
        ∙ omega (
          arith,
          length-hex_lines row width bpr (height - 16) room e some_raw
              (omega (arith, above, at_least)) long,
          above,
          at_most,
        ))

  -- On a screen of 20 lines or more, where as many connections are visible as the table takes, and the bytes
  -- of the selected one fill the dump, a third of the height, less five lines, is drawn below the screen, and
  -- the footer is the last of them.
  pub render-overflows :
      (s : State) (width height bpr : ℕ) (row : Row)
      → 20 ≤ height
      → height / 3 ≤ length (visible lowercase s)
      → current lowercase s ≡ some row
      → bytes_per_row width ≡ some bpr
      → 0 < length row.raw
      → hex_first row bpr + (height - 16) * bpr ≤ hex_last row
      → (length (render lowercase percent s width height) + 5 ≡ height + height / 3)
        × (n : ℕ) × (height ≤ n)
        × (get_elem? (render lowercase percent s width height) n ≡ some ((footer s, recede) ∷ []))
        × (suc n ≡ length (render lowercase percent s width height))
  unfolding footer_line
  render-overflows s width height bpr row h many shown e some_raw long =
      let pane : length (pane_lines lowercase percent (current lowercase s) width height)
          ≡ height - 10 =
        rw shown
          (unfold pane_lines in length-detail_lines row width height bpr h e some_raw long) in
      let lines : length (render lowercase percent s width height) + 5 ≡ height + height / 3 =
        omega (
          arith,
          length-render lowercase percent s width height,
          length-body_lines lowercase percent s width height,
          pane,
          many,
        ) in
      let n = length (render lowercase percent s width height) - 1 in
      let last : suc n ≡ length (render lowercase percent s width height) =
        omega (arith, lines, h) in
      (
        lines,
        n,
        omega (arith, lines, h, last),
        footer_at lowercase percent s width height n (sym last),
        last,
      )
