-- ===== src/Probe/Admin/Sends.antt =====
-- The lines that a client of the admin socket is sent: its snapshot, its end, and of what it receives all
-- that it has not been sent.
use flux_parsing_daemon.Base.{
  ℕ, zero, suc, ◌+◌, ◌-◌, ◌≤◌, ◌<◌, ◌≡◌, refl, sym, ap, subst, ◌∙◌, arith, true, false, inl, inr,
  List, [], ◌∷◌, ◌++◌, map, append-nil, append_assoc, Option, none, some, Result, ok, err, stuck,
  ◌>>=◌, >>=_assoc, length, take, take-nil, drop, length-drop, last, le→leb, gt→leb, ==→eq, ◌==◌,
  Bool-cases,
}
use flux_parsing_daemon.Base.Options.{unwrap_or}
use flux_parsing_daemon.Probe.Verdict.{Scores}
use flux_parsing_daemon.Probe.Log.{ConnectionRecord}
use flux_parsing_daemon.Probe.Log.Window.{numbered, length-numbered}
use flux_parsing_daemon.Probe.Admin.{
  is_covered, Received, received, AdminLine, record_line, snapshot_end, AdminClient, write_line,
  write_snapshot, send_record, send_received, handle_client,
}

module _ (s : Scores) where
  -- The lines that the client has been sent.
  unfoldable pub lines_of : Result (List (AdminLine s)) (AdminClient s) → List (AdminLine s)
  lines_of (ok c) = c.written
  lines_of (err lines) = lines
  lines_of stuck = []

  -- The number of the last record, where one was written.
  unfoldable pub highest_of : Option ℕ → List (ConnectionRecord s) → Option ℕ
  highest_of h [] = h
  highest_of h (r ∷ rs) = highest_of (some r.seq) rs

  -- From a client on, `lines` are sent as far as there is room.
  unfoldable pub Sends :
      Result (List (AdminLine s)) (AdminClient s) → AdminClient s → List (AdminLine s) → Type 0
  Sends m c lines = lines_of m ≡ c.written ++ take c.room lines

  pub write_line-Sends :
      (line : AdminLine s) (c : AdminClient s)
      (k : AdminClient s → Result (List (AdminLine s)) (AdminClient s)) (lines : List (AdminLine s))
      → ((d : AdminClient s) → d.highest ≡ c.highest → Sends (k d) d lines)
      → Sends (write_line s line c >>= k) c (line ∷ lines)
  unfolding Sends write_line lines_of ◌>>=◌
  write_line-Sends line c k lines h = elim (Bool-cases (c.room == 0)) [
    | inl e ↦ rw e (
        sym (append-nil c.written)
        ∙ ap (λ n. c.written ++ take n (line ∷ lines)) {x = 0} (sym (==→eq c.room 0 e)))
    | inr e ↦
        let some_room : suc (c.room - 1) ≡ c.room = ground arith in
        rw e (
          h (record c { written = c.written ++ (line ∷ []); room = c.room - 1 }) refl
          ∙ append_assoc c.written (line ∷ []) _
          ∙ ap (λ n. c.written ++ take n (line ∷ lines)) some_room)
  ]

  pub write_snapshot-Sends :
      (rs : List (ConnectionRecord s)) (c : AdminClient s)
      (k : AdminClient s → Result (List (AdminLine s)) (AdminClient s)) (lines : List (AdminLine s))
      → ((d : AdminClient s) → d.highest ≡ highest_of c.highest rs → Sends (k d) d lines)
      → Sends (write_snapshot s rs c >>= k) c (map record_line rs ++ lines)
  unfolding write_snapshot highest_of Sends
  write_snapshot-Sends [] c k lines h = unfold ◌>>=◌ in h c refl
  write_snapshot-Sends (r ∷ rs) c k lines h = rw (>>=_assoc (write_line s (record_line r) c) _ k) (
      write_line-Sends (record_line r) c _ (map record_line rs ++ lines)
        (λ d e. write_snapshot-Sends rs (record d { highest = some r.seq }) k lines h))

  -- The next number behind the highest that was written.
  unfoldable pub Reached : Option ℕ → ℕ → Type 0
  Reached none n = n ≡ 0
  Reached (some h) n = h + 1 ≡ n

  pub covered_lem : (h : Option ℕ) (n m : ℕ) → Reached h m → n < m → is_covered h n ≡ true
  unfolding Reached is_covered
  covered_lem none n m e small = absurd (omega arith)
  covered_lem (some h) n m e small = le→leb n h (omega arith)

  fresh_lem : (h : Option ℕ) (n : ℕ) → Reached h n → is_covered h n ≡ false
  unfolding Reached is_covered
  fresh_lem none n e = refl
  fresh_lem (some h) n e = gt→leb n h (omega arith)

  -- What the snapshot has already is left out.
  pub skips :
      (n m : ℕ) (rs : List (ConnectionRecord s)) (events : List (Received s)) (c : AdminClient s)
      → Reached c.highest m
      → n + length rs ≤ m
      → send_received s (map received (numbered s n rs) ++ events) c ≡ send_received s events c
  unfolding numbered send_received send_record ◌>>=◌
  skips n m [] events c e h = refl
  skips n m (r ∷ rs) events c e h =
      rw (covered_lem c.highest n m e (omega arith)) (skips (n + 1) m rs events c e (omega arith))

  -- What is new is sent.
  pub follows :
      (n : ℕ) (rs : List (ConnectionRecord s)) (c : AdminClient s)
      → Reached c.highest n
      → Sends
          (send_received s (map received (numbered s n rs)) c)
          c
          (map record_line (numbered s n rs))
  unfolding numbered send_received send_record Reached Sends
  follows n [] c e =
      unfold Sends lines_of in
      sym (append-nil c.written)
      ∙ ap (λ (l : List (AdminLine s)). c.written ++ l) (sym (take-nil c.room))
  follows n (r ∷ rs) c e = rw (fresh_lem c.highest n e) (
      write_line-Sends (record_line (record r { seq = n })) (record c { highest = some n }) _
        (map record_line (numbered s (n + 1) rs)) (λ d same. follows (n + 1) rs d (rw same refl)))

  pub end_number : (h : Option ℕ) (n : ℕ) → Reached h n → unwrap_or h 0 ≡ n - 1
  unfolding Reached
  end_number none n e = omega arith
  end_number (some h) n e = omega arith

  highest_of-numbered :
      (h : Option ℕ) (n : ℕ) (r : ConnectionRecord s) (rs : List (ConnectionRecord s))
      → highest_of h (numbered s n (r ∷ rs)) ≡ some (n + length rs)
  unfolding highest_of numbered
  highest_of-numbered h n r [] = ap some (omega arith)
  highest_of-numbered h n r (q ∷ rs) =
      highest_of-numbered (some n) (n + 1) q rs ∙ ap some (omega arith)

  Reached-numbered :
      (m : ℕ) (xs : List (ConnectionRecord s))
      → (length xs ≡ 0 → m ≡ 0)
      → Reached (highest_of none (numbered s m xs)) (m + length xs)
  unfolding Reached
  Reached-numbered m [] h = unfold highest_of numbered in omega (arith, h refl)
  Reached-numbered m (r ∷ rs) h = rw (highest_of-numbered none m r rs) (omega arith)

  drop-numbered :
      (k n : ℕ) (rs : List (ConnectionRecord s))
      → drop k (numbered s n rs) ≡ numbered s (n + k) (drop k rs)
  unfolding numbered
  drop-numbered (suc k) n (r ∷ rs) =
      drop-numbered k (n + 1) rs ∙ ap (λ m. numbered s m (drop k rs)) (omega arith)
  drop-numbered zero n rs = ap (λ m. numbered s m rs) (omega arith)
  drop-numbered (suc k) n [] = refl

  pub Reached-snapshot :
      (capacity : ℕ) (all : List (ConnectionRecord s))
      → 0 < capacity
      → Reached (highest_of none (last capacity (numbered s 0 all))) (length all)
  Reached-snapshot capacity all h =
      let k = length (numbered s 0 all) - capacity in
      let rest : length (drop k all) ≡ length all - k = length-drop k all in
      let same : length (numbered s 0 all) ≡ length all = length-numbered s 0 all in
      subst (λ (l : List (ConnectionRecord s)). Reached (highest_of none l) (length all))
        (sym (drop-numbered k 0 all))
        (subst (Reached (highest_of none (numbered s (0 + k) (drop k all))))
          {x = 0 + k + length (drop k all)} (omega arith)
          (Reached-numbered (0 + k) (drop k all) (λ none_left. omega arith)))

  -- A client that finds the end of `all` is sent that, and then `lines`, if those follow from wherever it
  -- has reached the end.
  pub handle_client-Sends :
      (capacity room : ℕ) (all : List (ConnectionRecord s)) (events : List (Received s))
      (lines : List (AdminLine s))
      → 0 < capacity
      → ((c : AdminClient s)
          → Reached c.highest (length all)
          → Sends (send_received s events c) c lines)
      → lines_of (handle_client s room (last capacity (numbered s 0 all)) events)
        ≡ take room (
            map record_line (last capacity (numbered s 0 all))
            ++ (snapshot_end (length all - 1) ∷ lines))
  unfolding handle_client Sends
  handle_client-Sends capacity room all events lines h k =
      write_snapshot-Sends (last capacity (numbered s 0 all))
        (record { written = []; room = room; highest = none }) _ _
        (λ d same.
          let at_end : Reached d.highest (length all) = rw same (Reached-snapshot capacity all h) in
          rw (end_number d.highest (length all) at_end) (
            write_line-Sends (snapshot_end (length all - 1)) d _ _
              (λ f as_before. k f (rw as_before at_end))))
