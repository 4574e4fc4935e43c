-- ===== src/Probe/Admin/Overtaken.antt =====
-- `push` numbers a record under the lock and sends it when the lock is released, so that of two connections
-- that are published at the same time the later may be sent first.
use flux_parsing_daemon.Base.{
  ℕ, ◌+◌, ◌-◌, ◌≡◌, refl, sym, arith, false, List, [], ◌∷◌, ◌++◌, map, append-nil, Option, none,
  some, ◌>>=◌, length, length-append, take, take-nil, last, gt→leb,
}
use flux_parsing_daemon.Probe.Admin.{
  broadcast_depth, is_covered, new, snapshot, received, AdminLine, record_line, snapshot_end,
  AdminClient, send_record, send_received, handle_client,
}
use Prim.Native.Nat.{max}
use flux_parsing_daemon.Probe.Verdict.{Scores}
use flux_parsing_daemon.Probe.Log.{ConnectionRecord, with_capacity}
use flux_parsing_daemon.Probe.Log.Window.{numbered, push_all, snapshot-last}
use flux_parsing_daemon.Probe.Admin.Sends.{
  lines_of, Sends, Reached, write_line-Sends, covered_lem, handle_client-Sends,
}
use flux_parsing_daemon.Probe.Admin.Delivers.{
  publish, publish-push_all, push_all-append, next_seq-new,
}

module _ (s : Scores) where
  fresh_next : (h : Option ℕ) (n : ℕ) → Reached s h n → is_covered h (n + 1) ≡ false
  unfolding Reached is_covered
  fresh_next none n e = refl
  fresh_next (some h) n e = gt→leb (n + 1) h (omega arith)

  -- The record that arrives behind a later one is passed over.
  send_received-overtaken :
      (n : ℕ) (a b : ConnectionRecord s) (c : AdminClient s)
      → Reached s c.highest n
      → Sends s
          (send_received s
            (received (record b { seq = n + 1 }) ∷ received (record a { seq = n }) ∷ [])
            c)
          c
          (record_line (record b { seq = n + 1 }) ∷ [])
  unfolding send_received Sends
  send_received-overtaken n a b c e =
      unfold send_record in
      rw (fresh_next c.highest n e) (
        write_line-Sends s (record_line (record b { seq = n + 1 }))
          (record c { highest = some (n + 1) }) _ []
          (λ d same.
            let reached : Reached s d.highest (n + 1 + 1) = rw same (unfold Reached in refl) in
            rw
              (
                covered_lem s d.highest n (n + 1 + 1) reached (omega arith),
                take-nil {A = AdminLine s} d.room,
              )
              (unfold ◌>>=◌ lines_of in sym (append-nil d.written))))

  -- `push` numbers a record under the lock and sends it when the lock is released. Where `b` is numbered
  -- behind `a` and sent before it, a client that has seen `before` is sent `b`, and never `a`.
  pub handle_client-overtaken :
      (capacity room : ℕ) (before : List (ConnectionRecord s)) (a b : ConnectionRecord s)
      → let (seen, sent_0) = publish s (new s capacity) before in
        let (with_a, sent_a) = publish s seen (a ∷ []) in
        let (with_b, sent_b) = publish s with_a (b ∷ []) in
        lines_of s (handle_client s room (snapshot s seen) (map received (sent_b ++ sent_a)))
        ≡ take room (
            map record_line (last (max 1 capacity) (numbered s 0 before))
            ++ (snapshot_end (length before - 1)
                ∷ record_line (record b { seq = length before + 1 })
                ∷ []))
  unfolding new snapshot
  handle_client-overtaken capacity room before a b =
      let log = with_capacity s capacity in
      let (window, next, size) = snapshot-last s capacity before in
      rw
        (
          publish-push_all s broadcast_depth log before,
          publish-push_all s broadcast_depth (push_all s log before) (a ∷ []),
          publish-push_all s broadcast_depth (push_all s (push_all s log before) (a ∷ [])) (b ∷ []),
          push_all-append s log before (a ∷ []),
          next_seq-new s capacity (before ++ (a ∷ [])),
          length-append before (a ∷ []),
          window,
          next,
          size,
        )
        (unfold numbered in
          handle_client-Sends s (max 1 capacity) room before _ _ (omega arith)
            (λ c reached. send_received-overtaken (length before) a b c reached))
