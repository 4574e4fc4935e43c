-- ===== src/Viewer/Window.antt =====
-- The viewer's list and its selection.
use flux_parsing_daemon.Base.{
  ℕ, ◌-◌, ◌≤◌, ◌≡◌, refl, arith, Bool, true, false, not, inl, inr, List, [], ◌∷◌, ◌++◌, Option,
  none, some, length, keep, last, pop_front_to-last, ◌&&◌, ◌==◌, is_empty, Bool-cases,
  if◌then◌else◌,
}
use flux_parsing_daemon.Viewer.{
  Row, State, Key, key_esc, key_enter, key_backspace, key_up, key_down, key_char, other_key, Action,
  redraw, ignore, quit, exported_row, view_capacity, search_key, visible, export, current, move_up,
  move_down, char_key, list_key, on_key, receive,
}

length-keep-le : (p : Row → Bool) (rows : List Row) → length (keep p rows) ≤ length rows
unfolding keep
length-keep-le p [] = omega arith
length-keep-le p (r ∷ rows) = ground (arith, length-keep-le p rows)

if_true : (b : Bool) (x y : ℕ) → b ≡ true → (if b then x else y) ≡ x
if_true true x y h = refl
if_true false x y h = cc

if_false : (b : Bool) (x y : ℕ) → b ≡ false → (if b then x else y) ≡ y
if_false true x y h = cc
if_false false x y h = refl

module _ (lowercase : List ℕ → List ℕ) where
  -- The selection is a visible row, or the first place where none is visible.
  abbrev pub InView : State → Type 0
  InView s = s.selected ≤ length (visible lowercase s) - 1

  length-visible-le : (s : State) → length (visible lowercase s) ≤ length s.rows
  unfolding visible
  length-visible-le s = elim (Bool-cases (is_empty s.search)) [
    | inl e ↦ rw e (omega arith)
    | inr e ↦ rw e (length-keep-le _ s.rows)
  ]

  search_key-InView : (key : Key) (s : State) → InView s → InView (search_key key s).1
  unfolding search_key
  search_key-InView key_esc s h = omega arith
  search_key-InView key_enter s h = omega arith
  search_key-InView key_backspace s h = omega arith
  search_key-InView (key_char c) s h = omega arith
  search_key-InView key_up s h = h
  search_key-InView key_down s h = h
  search_key-InView other_key s h = h

  move_up-InView : (s : State) → InView s → InView (move_up lowercase s)
  unfolding move_up visible
  move_up-InView s h = omega (arith, h)

  move_down-InView : (s : State) → InView (move_down lowercase s)
  unfolding move_down visible
  move_down-InView s = omega arith

  exported_row-InView :
      (writes : Bool) (s : State) (r : Option Row) → InView s → InView (exported_row writes s r)
  unfolding exported_row visible
  exported_row-InView writes s none h = h
  exported_row-InView true s (some r) h = h
  exported_row-InView false s (some r) h = h

  no_search-InView : (s : State) → InView s → InView (record s { searching = true; search = [] })
  unfolding visible
  no_search-InView s h = omega (arith, h, length-visible-le s)

  -- The same of what a key gives.
  record Keeps (r : Action × State) : Type 0 where
    in_view : InView r.1

  kept : (a : Action) (s : State) → InView s → Keeps (a, s)
  kept a s h = record { in_view = h }

  either : (b : Bool) (x y : Action × State) → Keeps x → Keeps y → Keeps (if b then x else y)
  either true x y h k = h
  either false x y h k = k

  follow-InView : (s : State) (b : Bool) → InView s → InView (record s { follow = b })
  unfolding visible
  follow-InView s b h = h

  char_key-Keeps :
      (c : ℕ) (control writes : Bool) (s : State)
      → InView s
      → Keeps (char_key lowercase c control writes s)
  unfolding char_key export
  char_key-Keeps c control writes s h = either (c == b'q') _ _ (kept quit s h) (
      either ((c == b'c') && control) _ _ (kept quit s h) (
        either (c == b'/') _ _ (kept redraw _ (no_search-InView s h)) (
          either (c == b'f') _ _ (kept redraw _ (follow-InView s (not s.follow) h)) (
            either (c == b'e') _ _
              (kept redraw _ (exported_row-InView writes s (current lowercase s) h))
              (either (c == b'k') _ _ (kept redraw _ (move_up-InView s h))
                (either (c == b'j') _ _ (kept redraw _ (move_down-InView s)) (kept ignore s h)))))))

  list_key-InView :
      (key : Key) (control writes : Bool) (s : State)
      → InView s
      → InView (list_key lowercase key control writes s).1
  unfolding list_key
  list_key-InView key_esc control writes s h = h
  list_key-InView key_up control writes s h = move_up-InView s h
  list_key-InView key_down control writes s h = move_down-InView s
  list_key-InView (key_char c) control writes s h = (char_key-Keeps c control writes s h).in_view
  list_key-InView key_enter control writes s h = h
  list_key-InView key_backspace control writes s h = h
  list_key-InView other_key control writes s h = h

  -- Where the selection is among the visible rows, or at 0 if none is visible, it is so after a key.
  pub on_key-InView :
      (key : Key) (control writes : Bool) (s : State)
      → InView s
      → InView (on_key lowercase key control writes s).1
  unfolding on_key
  on_key-InView key control writes s h =
      (either s.searching _ _ (record { in_view = search_key-InView key s h })
        (record { in_view = list_key-InView key control writes s h })).in_view

  -- A row that arrives is the last of the rows, of which the latest 2000 are kept; the selection moves to
  -- the last visible row where the viewer follows, and stays where it does not.
  pub receive-last :
      (row : Row) (s : State)
      → ((receive lowercase row s).rows ≡ last view_capacity (s.rows ++ (row ∷ [])))
        × (s.follow ≡ true
            → (receive lowercase row s).selected
              ≡ length (visible lowercase (receive lowercase row s)) - 1)
        × (s.follow ≡ false → (receive lowercase row s).selected ≡ s.selected)
  unfolding receive visible
  receive-last row s = (
    pop_front_to-last _ view_capacity (s.rows ++ (row ∷ [])) (omega arith),
    (λ h. if_true s.follow _ _ h),
    (λ h. if_false s.follow _ _ h),
  )
