-- ===== src/Viewer.antt =====
-- crates/fpd/src/tui: the state of the viewer, its keys, and the rows that arrive; render.rs, app.rs and the
-- rows of source.rs. A text is the list of its characters here.
-- `lowercase` stands for the case table of Unicode.
pub mod Window
pub mod Source
pub mod Draw
use flux_parsing_daemon.Base.{
  ℕ, zero, suc, ◌+◌, ◌-◌, ◌*◌, ◌/◌, ◌%◌, ◌^◌, min, Bool, true, false, not, ◌&&◌, ◌||◌, List, [],
  ◌∷◌, ◌++◌, Option, none, some, length, keep, get_elem?, take, pop_front_to, is_empty, ltb, leb,
  ◌==◌, if◌then◌else◌,
}
use flux_parsing_daemon.Base.Bytes.{codes}
use flux_parsing_daemon.Base.Options.{map_option}
use flux_parsing_daemon.Base.Text.{decimal, two_digits, has_substring}
use flux_parsing_daemon.Tls.Hello.{Span}

pub record Row : Type 0 where
  pub seq : ℕ
  pub at_ms : ℕ
  pub ip : List ℕ
  pub ja4 : List ℕ
  pub verdict : List ℕ
  -- the bits of the `f32`
  pub score : ℕ
  pub mismatch : Bool
  pub alpn : Option (List ℕ)
  pub akamai : Option (List ℕ)
  pub raw : List ℕ
  pub ciphers : Span
  pub extensions : Span
  pub cipher_count : ℕ
  pub ext_count : ℕ
  pub grease_ext : List Span

unfoldable pub ciphers_len : Row → ℕ
ciphers_len row = if ltb 0 row.cipher_count then row.cipher_count else row.ciphers.len / 2

pub record State : Type 0 where
  pub rows : List Row
  pub selected : ℕ
  pub follow : Bool
  pub search : List ℕ
  pub searching : Bool
  pub source_label : List ℕ
  pub dropped : Bool
  pub exported : Option (List ℕ)

unfoldable pub new : List ℕ → State
new source_label = record {
  rows = [];
  selected = 0;
  follow = true;
  search = [];
  searching = false;
  source_label = source_label;
  dropped = false;
  exported = none;
}

unfoldable pub alerts : State → ℕ
alerts s = length (keep (λ (r : Row). r.mismatch) s.rows)

unfoldable pub within : Span → ℕ → Bool
within span offset = leb span.start offset && ltb offset (span.start + span.len)

unfoldable pub feeds_fingerprint : Row → ℕ → Bool
feeds_fingerprint row offset = within row.ciphers offset || within row.extensions offset

unfoldable pub hhmmss : ℕ → List ℕ
hhmmss at_ms =
    let secs = at_ms / 1000 in
    two_digits (secs / 3600 % 24)
    ++ (codes ":" ++ (two_digits (secs / 60 % 60) ++ (codes ":" ++ two_digits (secs % 60))))

unfoldable pub truncate : List ℕ → ℕ → List ℕ
truncate s n = if leb (length s) n then s else take n s

unfoldable pub within_row : ℕ → ℕ → ℕ → Bool
within_row target row_start bpr = leb row_start target && ltb target (row_start + bpr)

pub data Action : Type 0 where
  redraw ignore quit : Action

-- `KeyCode`, with its other keys as one.
pub data Key : Type 0 where
  key_esc key_enter key_backspace key_up key_down other_key : Key
  key_char : ℕ → Key

-- `String::pop`
unfoldable pub without_last : List ℕ → List ℕ
without_last [] = []
without_last (c ∷ []) = []
without_last (c ∷ d ∷ cs) = c ∷ without_last (d ∷ cs)

-- The `match` of the search line, and the reset behind it.
unfoldable pub search_key : Key → State → Action × State
search_key key_esc s = (redraw, record s { searching = false; search = []; selected = 0 })
search_key key_enter s = (redraw, record s { searching = false; selected = 0 })
search_key key_backspace s = (redraw, record s { search = without_last s.search; selected = 0 })
search_key (key_char c) s = (redraw, record s { search = s.search ++ (c ∷ []); selected = 0 })
search_key key_up s = (ignore, s)
search_key key_down s = (ignore, s)
search_key other_key s = (ignore, s)

abbrev pub view_capacity : ℕ
view_capacity = 2000

unfoldable pub last_seq : List Row → Option ℕ
last_seq [] = none
last_seq (r ∷ []) = some r.seq
last_seq (r ∷ q ∷ rows) = last_seq (q ∷ rows)

-- `if row.seq > last.seq + 1`
unfoldable pub is_jump : Option ℕ → ℕ → Bool
is_jump none seq = false
is_jump (some before) seq = ltb (before + 1) seq

-- The name of an exported file.
unfoldable pub export_name : Row → List ℕ
export_name row = codes "fpd-" ++ (row.verdict ++ (codes "-" ++ (decimal row.seq ++ codes ".bin")))

-- `writes` says whether the file is written.
unfoldable pub exported_row : Bool → State → Option Row → State
exported_row writes s none = s
exported_row writes s (some row) =
    if writes then record s { exported = some (export_name row) } else s

module _ (lowercase : List ℕ → List ℕ) where
  unfoldable pub shows : List ℕ → Row → Bool
  shows needle r =
      has_substring needle (lowercase r.ip)
      || has_substring needle (lowercase r.ja4)
      || has_substring needle (lowercase r.verdict)

  unfoldable pub visible : State → List Row
  visible s = if is_empty s.search then s.rows else keep (shows (lowercase s.search)) s.rows

  unfoldable pub current : State → Option Row
  current s = get_elem? (visible s) (min s.selected (length (visible s) - 1))

  unfoldable pub export : Bool → State → State
  export writes s = exported_row writes s (current s)

  unfoldable pub move_up : State → State
  move_up s = record s { follow = false; selected = s.selected - 1 }

  unfoldable pub move_down : State → State
  move_down s = record s {
    follow = false;
    selected = min (s.selected + 1) (length (visible s) - 1);
  }

  -- The characters in the order of the arms; `control` says whether that key is held.
  unfoldable pub char_key : ℕ → Bool → Bool → State → Action × State
  char_key c control writes s =
      if c == b'q'
      then (quit, s)
      else if (c == b'c') && control
      then (quit, s)
      else if c == b'/'
      then (redraw, record s { searching = true; search = [] })
      else if c == b'f'
      then (redraw, record s { follow = not s.follow })
      else if c == b'e'
      then (redraw, export writes s)
      else if c == b'k'
      then (redraw, move_up s)
      else if c == b'j'
      then (redraw, move_down s)
      else (ignore, s)

  unfoldable pub list_key : Key → Bool → Bool → State → Action × State
  list_key key_esc control writes s = (quit, s)
  list_key key_up control writes s = (redraw, move_up s)
  list_key key_down control writes s = (redraw, move_down s)
  list_key (key_char c) control writes s = char_key c control writes s
  list_key key_enter control writes s = (ignore, s)
  list_key key_backspace control writes s = (ignore, s)
  list_key other_key control writes s = (ignore, s)

  unfoldable pub on_key : Key → Bool → Bool → State → Action × State
  on_key key control writes s =
      if s.searching then search_key key s else list_key key control writes s

  -- A row that arrives, in `run`.
  unfoldable pub receive : Row → State → State
  receive row s =
      let rows = s.rows ++ (row ∷ []) in
      let t : State = record s {
        dropped = if is_jump (last_seq s.rows) row.seq then true else s.dropped;
        rows = pop_front_to (length rows) view_capacity rows;
      } in
      record t { selected = if t.follow then length (visible t) - 1 else t.selected }
