-- ===== src/Probe/Admin.antt =====
-- crates/fingerprint-probe/src/admin.rs: the publisher of connections, and what a client of the admin socket
-- is sent. The channel is the broadcast channel of tokio, known by what `recv` returns; a line is the record
-- it is made of.
pub mod Sends
pub mod Delivers
pub mod Overtaken
use flux_parsing_daemon.Base.{
  ℕ, zero, suc, ◌+◌, ◌-◌, Bool, true, false, List, [], ◌∷◌, ◌++◌, Option, none, some, Result, ok,
  err, stuck, ◌>>=◌, leb, ◌==◌, if◌then◌else◌, map, length, ◌≤◌, ◌≡◌,
}
use flux_parsing_daemon.Base.Options.{unwrap_or}
use flux_parsing_daemon.Probe.Verdict.{Scores}
use flux_parsing_daemon.Probe.Log.{ConnectionRecord, ConnectionLog, with_capacity}
use flux_parsing_daemon.Probe.Log

-- `is_some_and(|h| seq <= h)`
unfoldable pub is_covered : Option ℕ → ℕ → Bool
is_covered none seq = false
is_covered (some h) seq = leb seq h

abbrev pub broadcast_depth : ℕ
broadcast_depth = 256

module _ (s : Scores) where
  -- The log behind its lock, `none` where the lock is poisoned, and the depth of the channel.
  pub record Publisher : Type 0 where
    pub log : Option (ConnectionLog s)
    pub depth : ℕ

  unfoldable pub new : ℕ → Publisher
  new capacity = record { log = some (with_capacity s capacity); depth = broadcast_depth }

  -- The publisher then, and what is sent to the channel.
  unfoldable pub push : Publisher → ConnectionRecord s → Publisher × Option (ConnectionRecord s)
  push p r = elim p.log [
    | none ↦ (p, none)
    | some log ↦
        let (seq, next) = Log.push s log r in
        (record p { log = some next }, some (record r { seq = seq }))
  ]

  unfoldable pub snapshot : Publisher → List (ConnectionRecord s)
  snapshot p = elim p.log [ none ↦ [] | some log ↦ Log.snapshot s log ]

  -- What `recv` returns.
  pub data Received : Type 0 where
    received : ConnectionRecord s → Received
    lagged : ℕ → Received
    closed : Received

  -- What is documented of the channel, where `unread n sent` is what a receiver gets of a channel of depth `n`
  -- that reads when all of `sent` has been sent: a receiver that is not behind by more gets all of it.
  abbrev pub IsChannel : (ℕ → List (ConnectionRecord s) → List Received) → Type 0
  IsChannel unread =
      (n : ℕ) (sent : List (ConnectionRecord s))
      → length sent ≤ n
      → unread n sent ≡ map received sent

  pub data AdminLine : Type 0 where
    record_line : ConnectionRecord s → AdminLine
    snapshot_end : ℕ → AdminLine

  -- The client's stream takes `room` lines more, and then fails.
  pub record AdminClient : Type 0 where
    pub written : List AdminLine
    pub room : ℕ
    pub highest : Option ℕ

  -- An error carries the lines written before it.
  unfoldable pub write_line : AdminLine → AdminClient → Result (List AdminLine) AdminClient
  write_line line c =
      if c.room == 0
      then err c.written
      else ok record c { written = c.written ++ (line ∷ []); room = c.room - 1 }

  unfoldable pub write_snapshot :
      List (ConnectionRecord s) → AdminClient → Result (List AdminLine) AdminClient
  write_snapshot [] c = ok c
  write_snapshot (r ∷ rs) c = do
    next ← write_line (record_line r) c
    write_snapshot rs (record next { highest = some r.seq })

  unfoldable pub send_record :
      ConnectionRecord s → AdminClient → Result (List AdminLine) AdminClient
  send_record r c =
      if is_covered c.highest r.seq
      then ok c
      else write_line (record_line r) (record c { highest = some r.seq })

  -- The loop over what is received; where the list ends, the client still waits.
  unfoldable pub send_received : List Received → AdminClient → Result (List AdminLine) AdminClient
  send_received [] c = ok c
  send_received (received r ∷ events) c = do next ← send_record r c; send_received events next
  send_received (lagged n ∷ events) c = send_received events c
  send_received (closed ∷ events) c = ok c

  -- `events` is what the receiver gets that subscribed before the snapshot was taken.
  unfoldable pub handle_client :
      ℕ → List (ConnectionRecord s) → List Received → Result (List AdminLine) AdminClient
  handle_client room records events = do
    listed ← write_snapshot records (record { written = []; room = room; highest = none })
    ended ← write_line (snapshot_end (unwrap_or listed.highest 0)) listed
    send_received events ended
