-- ===== src/Probe/Connection/Handled.antt =====
-- What a connection is served with: its headers, its bytes, and its place in the history.
use flux_parsing_daemon.Base.{
  ℕ, ◌≡◌, refl, sym, ap, ap₂, subst, ◌∙◌, inl, inr, List, [], ◌∷◌, ◌++◌, append_assoc, Option, none,
  some, drop, last, filter_map, Bool-cases, if◌then◌else◌, map, All,
}
use flux_parsing_daemon.Base.Utf8.{from_utf8, from_utf8_lossy_valid}
use Prim.Native.Nat.{max}
use flux_parsing_daemon.Base.Options.{map_option, some_injective}
use flux_parsing_daemon.Tls.Ja4.{Digests}
use flux_parsing_daemon.H2.Hpack.StaticTable.{Header}
use flux_parsing_daemon.Probe.Profile.{ClientReport}
use flux_parsing_daemon.Probe.Verdict.{Scores, ProfileDb, identify}
use flux_parsing_daemon.Probe.Streams.{Replaying, replay}
use flux_parsing_daemon.Probe.Streams.Replayed.{Replayed, Replayed-in_order}
use flux_parsing_daemon.Probe.Serve.{capture_h2_preamble, Ending, complete}
use flux_parsing_daemon.Probe.Serve.Capture.{Accounts, capture_h2_preamble-Accounts}
use flux_parsing_daemon.Probe.Log.{ConnectionRecord, ConnectionLog, connection, with_capacity}
use flux_parsing_daemon.Probe.Log.Window.{numbered, push_all, snapshot-last}
use flux_parsing_daemon.Probe.Admin
use flux_parsing_daemon.Probe.Admin.{Publisher, broadcast_depth}
use flux_parsing_daemon.Probe.Connection.{
  IpAddr, SocketAddr, ServeConfig, render_ip, lossy_value, Handshake, Served, is_h2_of,
  preamble_of_handshake, annotate, report_of, handle,
}

-- The values that are UTF-8 are sent on as they came.
map-lossy_value :
    (headers : List Header)
    → All (λ (h : Header). from_utf8 h.1 ≡ some h.1) headers
    → map lossy_value headers ≡ headers
unfolding lossy_value
map-lossy_value [] h = refl
map-lossy_value (x ∷ headers) h =
    ap₂ ◌∷◌ (ap (λ v. (x.0, v)) (from_utf8_lossy_valid x.1 h.0)) (map-lossy_value headers h.1)

-- How the capture of a connection ended; one that is not HTTP/2 has none, and all is left unread.
unfoldable pub capture_of : Handshake → Ending
capture_of tls =
    if is_h2_of tls.alpn then (capture_h2_preamble tls.stream).1 else complete tls.stream

preamble_lem :
    (tls : Handshake) (rest : List ℕ)
    → capture_of tls ≡ complete rest
    → preamble_of_handshake tls ++ rest ≡ tls.stream
unfolding capture_of preamble_of_handshake
preamble_lem tls rest h = elim (Bool-cases (is_h2_of tls.alpn)) [
  | inl e ↦
      let a : Accounts tls.stream (capture_h2_preamble tls.stream) =
        capture_h2_preamble-Accounts tls.stream in
      rw e (
        ap (λ r. (capture_h2_preamble tls.stream).0 ++ r) (sym (a.left rest (rw e at h)))
        ∙ a.in_order)
  | inr e ↦ rw e (sym (complete_injective (rw e at h)))
]
  where
    complete_injective : {a b : List ℕ} → complete a ≡ complete b → a ≡ b
    complete_injective k = cc

module _ (d : Digests) (s : Scores) (to_string : IpAddr → List ℕ) (db : ProfileDb) where
  -- Where the capture is complete, the server reads the bytes that the client sent, from the first on: after
  -- any reads, what it received, what is still replayed, and what the live stream has not given yet are the
  -- stream.
  pub handle-in_order :
      (cfg : ServeConfig) (peer : SocketAddr) (now : ℕ) (tls : Handshake) (p : Publisher s)
      (rest later live out : List ℕ) {c : Served} {t : Replaying}
      → (handle d s to_string db cfg peer now (some tls) p).1 ≡ some c
      → capture_of tls ≡ complete rest
      → live ++ later ≡ rest
      → Replayed c.stream live out t
      → (out ++ drop t.pos c.stream.buf) ++ later ≡ tls.stream
  unfolding handle replay
  handle-in_order cfg peer now tls p rest later live out {c} {t} h captured split r =
      let same : replay (preamble_of_handshake tls) ≡ c.stream =
        ap (λ (x : Served). x.stream) (some_injective h) in
      let (order, waits) =
        Replayed-in_order (preamble_of_handshake tls)
          (subst (λ (x : Replaying). Replayed x live out t) (sym same) r) in
      ap (λ (x : Replaying). (out ++ drop t.pos x.buf) ++ later) (sym same)
      ∙ ap (λ w. w ++ later) order
      ∙ append_assoc (preamble_of_handshake tls) live later
      ∙ ap (◌++◌ (preamble_of_handshake tls)) split
      ∙ preamble_lem tls rest captured

  -- The record that `handle` publishes of a connection, where there is one.
  unfoldable pub record_of :
      ServeConfig → SocketAddr × ℕ × Option Handshake → Option (ConnectionRecord s)
  record_of cfg (peer, now, none) = none
  record_of cfg (peer, now, some tls) =
      map_option
        (λ (r : ClientReport).
          connection s r (identify s r db) (render_ip to_string peer cfg.ip_mode) now)
        (report_of d s to_string db tls)

  unfoldable pub handle_all :
      ServeConfig → List (SocketAddr × ℕ × Option Handshake) → Publisher s → Publisher s
  handle_all cfg [] p = p
  handle_all cfg ((peer, now, tls) ∷ rest) p =
      handle_all cfg rest (handle d s to_string db cfg peer now tls p).0

  handle_all-push_all :
      (depth : ℕ) (cfg : ServeConfig) (conns : List (SocketAddr × ℕ × Option Handshake))
      (log : ConnectionLog s)
      → handle_all cfg conns (record { log = some log; depth = depth })
        ≡ record { log = some (push_all s log (filter_map (record_of cfg) conns)); depth = depth }
  unfolding handle_all handle annotate filter_map record_of push_all Admin.push
  handle_all-push_all depth cfg [] log = refl
  handle_all-push_all depth cfg ((peer, now, none) ∷ rest) log =
      handle_all-push_all depth cfg rest log
  handle_all-push_all depth cfg ((peer, now, some tls) ∷ rest) log =
      by_report (report_of d s to_string db tls) refl (λ l. handle_all-push_all depth cfg rest l)
    where
      by_report :
          (r : Option ClientReport)
          → report_of d s to_string db tls ≡ r
          → ((l : ConnectionLog s)
              → handle_all cfg rest (record { log = some l; depth = depth }) ≡ record {
                log = some (push_all s l (filter_map (record_of cfg) rest));
                depth = depth;
              })
          → handle_all cfg ((peer, now, some tls) ∷ rest) (record { log = some log; depth = depth })
            ≡ record {
              log =
                  some (push_all s log (filter_map (record_of cfg) ((peer, now, some tls) ∷ rest)));
              depth = depth;
            }
      by_report none e ih = rw (filter_map, e) (ih log)
      by_report (some r) e ih = rw (filter_map, e) (ih _)

  -- After any connections to a new server, its history is the latest of those whose handshake finished and
  -- whose ClientHello parses, numbered from 0.
  pub handle_all-snapshot :
      (cfg : ServeConfig) (conns : List (SocketAddr × ℕ × Option Handshake))
      → Admin.snapshot s (handle_all cfg conns (Admin.new s cfg.log_capacity))
        ≡ last (max 1 cfg.log_capacity) (numbered s 0 (filter_map (record_of cfg) conns))
  unfolding Admin.new Admin.snapshot
  handle_all-snapshot cfg conns =
      let (window, next, size) =
        snapshot-last s cfg.log_capacity (filter_map (record_of cfg) conns) in
      ap (Admin.snapshot s)
        (handle_all-push_all broadcast_depth cfg conns (with_capacity s cfg.log_capacity))
      ∙ window
      ∙ ap (λ n. last n (numbered s 0 (filter_map (record_of cfg) conns))) size
