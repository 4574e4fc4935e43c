-- ===== src/Probe/Streams/Replayed.antt =====
-- The reader of a replaying stream receives the buffer and then what the live stream gives.
use flux_parsing_daemon.Base.{
  ℕ, zero, suc, ◌+◌, ◌-◌, ◌≤◌, ◌<◌, ◌≡◌, refl, sym, ap, ◌∙◌, arith, min, false, inl, inr, List, [],
  ◌∷◌, ◌++◌, append-nil, append_assoc, length, drop, slice, drop-drop, drop-nil, take-append-drop,
  subst, ltb, ltb→lt, le→ltb, ltb-false→le, All, Bool-cases, if◌then◌else◌,
}
use flux_parsing_daemon.Probe.Streams.{
  Poll, Replaying, replay, is_replaying, bytes_of, poll_replaying,
}

-- What a read takes from the live stream.
unfoldable pub live_bytes : Poll → Replaying → List ℕ
live_bytes inner s = if is_replaying s then [] else bytes_of inner

-- Reads in a row: the bytes that the live stream gave, those that the reader received, and the stream then.
pub data Replayed : Replaying → List ℕ → List ℕ → Replaying → Type 0 where
  start : {s : Replaying} → Replayed s [] [] s
  then_poll :
      {s t : Replaying} {live out : List ℕ} (room : ℕ) (inner : Poll)
      → Replayed s live out t
      → Replayed s
          (live ++ live_bytes inner t)
          (out ++ (poll_replaying room inner t).0)
          (poll_replaying room inner t).1

-- The reader lacks exactly what is still to be replayed, and the live stream waits for that.
IsInOrder : List ℕ → List ℕ → List ℕ → Replaying → Type 0
IsInOrder buf live out t =
    (t.buf ≡ buf) × (out ++ drop t.pos buf ≡ buf ++ live) × (t.pos < length buf → live ≡ [])

piece : (buf : List ℕ) (pos n : ℕ) → slice buf pos n ++ drop (pos + n) buf ≡ drop pos buf
piece buf pos n =
    ap (◌++◌ (slice buf pos n)) (sym (drop-drop n pos buf)) ∙ take-append-drop n (drop pos buf)

replayed :
    {buf : List ℕ} (out live : List ℕ) (t : Replaying)
    → t.buf ≡ buf
    → out ++ drop t.pos buf ≡ buf ++ live
    → (n : ℕ) → (out ++ slice t.buf t.pos n) ++ drop (t.pos + n) buf ≡ buf ++ (live ++ [])
replayed {buf} out live t same order n =
    append_assoc out (slice t.buf t.pos n) (drop (t.pos + n) buf)
    ∙ ap (λ b. out ++ (slice b t.pos n ++ drop (t.pos + n) buf)) same
    ∙ ap (◌++◌ out) (piece buf t.pos n)
    ∙ order
    ∙ ap (◌++◌ buf) (sym (append-nil live))

drop-past_end : (n : ℕ) (xs : List ℕ) → length xs ≤ n → drop n xs ≡ []
drop-past_end n [] h = drop-nil n
drop-past_end zero (x ∷ xs) h = absurd (omega arith)
drop-past_end (suc n) (x ∷ xs) h = drop-past_end n xs (omega arith)

passed :
    {buf : List ℕ} (out live bytes : List ℕ) (t : Replaying)
    → t.buf ≡ buf
    → out ++ drop t.pos buf ≡ buf ++ live
    → length t.buf ≤ t.pos
    → (out ++ bytes) ++ drop t.pos buf ≡ buf ++ (live ++ bytes)
passed {buf} out live bytes t same order done =
    ap (◌++◌ (out ++ bytes)) no_more
    ∙ append-nil (out ++ bytes)
    ∙ ap (λ o. o ++ bytes) (sym (append-nil out) ∙ ap (◌++◌ out) (sym no_more) ∙ order)
    ∙ append_assoc buf live bytes
  where
    no_more : drop t.pos buf ≡ []
    no_more = drop-past_end t.pos buf (omega (arith, ap length same, done))

in_order :
    (buf : List ℕ) {s t : Replaying} {live out : List ℕ}
    → (s.buf ≡ buf) × (s.pos ≡ 0)
    → Replayed s live out t
    → IsInOrder buf live out t
unfolding IsInOrder poll_replaying live_bytes is_replaying
in_order buf (same, at_start) start =
    (same, ap (λ n. drop n buf) at_start ∙ sym (append-nil buf), λ h. refl)
in_order buf begin (then_poll {t = t} {live = live} {out = out} room inner r) =
    let (same, order, waits) = in_order buf begin r in
    elim (Bool-cases (ltb t.pos (length t.buf))) [
      | inl e ↦ rw e (
        same,
        replayed out live t same order (min room (length t.buf - t.pos)),
        λ h. append-nil live ∙ waits (omega (arith, h)),
      )
      | inr e ↦ rw e (
        same,
        passed out live (bytes_of inner) t same order (ltb-false→le t.pos (length t.buf) e),
        λ h. absurd (omega (arith, h, ltb-false→le t.pos (length t.buf) e, ap length same)),
      )
    ]

-- After any reads, the bytes that the reader received and those left of the buffer are the buffer and the
-- bytes that the live stream gave, and the live stream gave none before the buffer was passed on.
pub Replayed-in_order :
    (buf : List ℕ) {t : Replaying} {live out : List ℕ}
    → Replayed (replay buf) live out t
    → (out ++ drop t.pos buf ≡ buf ++ live) × (t.pos < length buf → live ≡ [])
unfolding replay IsInOrder
Replayed-in_order buf r = let (same, order, waits) = in_order buf (refl, refl) r in (order, waits)

-- The stream behind reads with the given rooms, and what the live stream answers where it is asked.
unfoldable pub reads : List (ℕ × Poll) → Replaying → Replaying
reads [] s = s
reads ((room, inner) ∷ polls) s = reads polls (poll_replaying room inner s).1

-- A read with room takes at least a byte of what is left to replay.
poll_remaining :
    (room k : ℕ) (inner : Poll) (s : Replaying)
    → 1 ≤ room
    → length s.buf - s.pos ≤ suc k
    → length (poll_replaying room inner s).1.buf - (poll_replaying room inner s).1.pos ≤ k
unfolding poll_replaying
poll_remaining room k inner s h few = elim (Bool-cases (ltb s.pos (length s.buf))) [
  | inl e ↦ rw e (omega (arith, h, few, ltb→lt s.pos (length s.buf) e))
  | inr e ↦ rw e (omega (arith, ltb-false→le s.pos (length s.buf) e))
]

reads_finish :
    (polls : List (ℕ × Poll)) (s : Replaying)
    → All (λ (p : ℕ × Poll). 1 ≤ p.0) polls
    → length s.buf - s.pos ≤ length polls
    → is_replaying (reads polls s) ≡ false
unfolding reads is_replaying
reads_finish [] s rooms h = le→ltb s.pos (length s.buf) (omega (arith, h))
reads_finish ((room, inner) ∷ polls) s rooms h =
    reads_finish polls (poll_replaying room inner s).1 rooms.1
      (poll_remaining room (length polls) inner s rooms.0 h)

-- What the reader receives in these reads.
unfoldable pub received_in : List (ℕ × Poll) → Replaying → List ℕ
received_in [] s = []
received_in ((room, inner) ∷ polls) s =
    (poll_replaying room inner s).0 ++ received_in polls (poll_replaying room inner s).1

-- Reads behind others are reads in a row.
Replayed-reads :
    (polls : List (ℕ × Poll)) {s t : Replaying} {live out : List ℕ}
    → Replayed s live out t
    → (more : List ℕ) × Replayed s more (out ++ received_in polls t) (reads polls t)
unfolding reads received_in
Replayed-reads [] {s} {t} {live} {out} r =
    (live, subst (λ (o : List ℕ). Replayed s live o t) (sym (append-nil out)) r)
Replayed-reads ((room, inner) ∷ polls) {s} {t} {live} {out} r =
    let (more, rest) = Replayed-reads polls (then_poll room inner r) in
    (
      more,
      subst (λ (o : List ℕ). Replayed s more o (reads polls (poll_replaying room inner t).1))
          (append_assoc out (poll_replaying room inner t).0 _) rest,
    )

-- As many reads as the buffer has bytes, each with room for a byte, pass the buffer on, whatever the live
-- stream would answer: the reader receives all of it, before anything else, and the replay is over.
pub replay_finishes :
    (buf : List ℕ) (polls : List (ℕ × Poll))
    → All (λ (p : ℕ × Poll). 1 ≤ p.0) polls
    → length buf ≤ length polls
    → ((live : List ℕ) × (received_in polls (replay buf) ≡ buf ++ live))
      × (is_replaying (reads polls (replay buf)) ≡ false)
unfolding is_replaying IsInOrder
replay_finishes buf polls rooms enough =
    let end : Replaying = reads polls (replay buf) in
    let (live, r) = Replayed-reads polls {s = replay buf} start in
    let begins : ((replay buf).buf ≡ buf) × ((replay buf).pos ≡ 0) =
      unfold replay in (refl, refl) in
    let (same, order, waits) = in_order buf begins r in
    let over : is_replaying end ≡ false =
      reads_finish polls (replay buf) rooms (unfold replay in omega (arith, enough)) in
    let behind : length end.buf ≤ end.pos = ltb-false→le end.pos (length end.buf) over in
    (
      (
        live,
        sym (append-nil (received_in polls (replay buf)))
            ∙ ap (◌++◌ (received_in polls (replay buf)))
                (sym (drop-past_end end.pos buf (omega (arith, ap length same, behind))))
            ∙ order,
      ),
      over,
    )
