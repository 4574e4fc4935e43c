-- ===== src/Probe/Admin/Delivers.antt =====
-- A client of the admin socket is sent every connection from the snapshot on, once and in order, where
-- connections are published one after another: what is published between the subscription and the snapshot arrives twice, and is left out the second time.
use flux_parsing_daemon.Base.{
  ℕ, ◌+◌, ◌-◌, ◌<◌, ◌≡◌, refl, ap, arith, List, [], ◌∷◌, ◌++◌, map, map-append, none, some, length,
  length-append, take, last, ◌≤◌,
}
use flux_parsing_daemon.Probe.Admin.{
  IsChannel, Received, broadcast_depth, Publisher, new, push, snapshot, received, AdminLine,
  record_line, snapshot_end, handle_client,
}
use flux_parsing_daemon.Probe.Log.Window.{length-numbered, numbered, push_all, snapshot-last}
use Prim.Native.Nat.{max}
use flux_parsing_daemon.Probe.Verdict.{Scores}
use flux_parsing_daemon.Probe.Log.{ConnectionRecord, ConnectionLog, with_capacity}
use flux_parsing_daemon.Probe.Log
use flux_parsing_daemon.Probe.Admin.Sends.{lines_of, Sends, skips, follows, handle_client-Sends}

module _ (s : Scores) where
  -- What a client is sent that finds `all` connections, where `after` follow.
  unfoldable pub delivered :
      ℕ → List (ConnectionRecord s) → List (ConnectionRecord s) → List (AdminLine s)
  delivered capacity all after =
      map record_line (last capacity (numbered s 0 all))
      ++ (snapshot_end (length all - 1) ∷ map record_line (numbered s (length all) after))

  handle_client-delivered :
      (capacity room n : ℕ) (all between after : List (ConnectionRecord s))
      → 0 < capacity
      → n + length between ≡ length all
      → lines_of s (
          handle_client s room
            (last capacity (numbered s 0 all))
            (map received (numbered s n between) ++ map received (numbered s (length all) after)))
        ≡ take room (delivered capacity all after)
  unfolding delivered Sends
  handle_client-delivered capacity room n all between after h e =
      handle_client-Sends s capacity room all _ _ h (λ c reached.
        rw (skips s n (length all) between _ c reached (omega arith))
          (follows s (length all) after c reached))

  -- The publisher after some connections, and what the channel was given.
  unfoldable pub publish :
      Publisher s → List (ConnectionRecord s) → Publisher s × List (ConnectionRecord s)
  publish p [] = (p, [])
  publish p (r ∷ rs) =
      let (next, sent) = push s p r in
      let (end, rest) = publish next rs in (end, elim sent [ none ↦ rest | some q ↦ q ∷ rest ])

  pub publish-push_all :
      (depth : ℕ) (log : ConnectionLog s) (rs : List (ConnectionRecord s))
      → publish (record { log = some log; depth = depth }) rs
        ≡ (record { log = some (push_all s log rs); depth = depth }, numbered s log.next_seq rs)
  unfolding publish push push_all numbered Log.push
  publish-push_all depth log [] = refl
  publish-push_all depth log (r ∷ rs) =
      ap
        (λ (end : Publisher s × List (ConnectionRecord s)).
          (end.0, record r { seq = log.next_seq } ∷ end.1))
        (publish-push_all depth (Log.push s log r).1 rs)

  pub push_all-append :
      (log : ConnectionLog s) (rs qs : List (ConnectionRecord s))
      → push_all s (push_all s log rs) qs ≡ push_all s log (rs ++ qs)
  unfolding push_all
  push_all-append log [] qs = refl
  push_all-append log (r ∷ rs) qs = push_all-append (Log.push s log r).1 rs qs

  pub next_seq-new :
      (capacity : ℕ) (rs : List (ConnectionRecord s))
      → (push_all s (with_capacity s capacity) rs).next_seq ≡ length rs
  next_seq-new capacity rs = (snapshot-last s capacity rs).1

  -- Where connections are published one after another, and those behind the subscription, `between` and
  -- `after`, are no more than the channel keeps: a client that subscribes after `before`, takes its snapshot
  -- after `between`, and reads the channel as late as after `after`, is sent the latest connections, their
  -- end, and then all of `after`, each once, as far as its stream takes lines.
  pub handle_client-delivers :
      (unread : ℕ → List (ConnectionRecord s) → List (Received s)) (capacity room : ℕ)
      (before between after : List (ConnectionRecord s))
      → IsChannel s unread
      → length between + length after ≤ (new s capacity).depth
      → let (subscribed, sent_0) = publish (new s capacity) before in
        let (seen, sent_1) = publish subscribed between in
        let (ended, sent_2) = publish seen after in
        lines_of s (handle_client s room (snapshot s seen) (unread seen.depth (sent_1 ++ sent_2)))
        ≡ take room (delivered (max 1 capacity) (before ++ between) after)
  unfolding new snapshot
  handle_client-delivers unread capacity room before between after keeps few =
      let log = with_capacity s capacity in
      let all = before ++ between in
      let (window, next, size) = snapshot-last s capacity all in
      rw
        (
          publish-push_all broadcast_depth log before,
          publish-push_all broadcast_depth (push_all s log before) between,
          publish-push_all broadcast_depth (push_all s (push_all s log before) between) after,
          push_all-append log before between,
          next_seq-new capacity before,
          window,
          next,
          size,
          keeps broadcast_depth
              (numbered s (length before) between ++ numbered s (length all) after)
              (omega (
                arith,
                few,
                length-append (numbered s (length before) between) (numbered s (length all) after),
                length-numbered s (length before) between,
                length-numbered s (length all) after,
              )),
          map-append (λ r. received r) (numbered s (length before) between)
              (numbered s (length all) after),
        )
        (handle_client-delivered (max 1 capacity) room (length before) all between after
          (omega arith) (omega (arith, length-append before between)))
