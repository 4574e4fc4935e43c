-- ===== src/Tests/Connection.antt =====
-- The connections that are served, the admin socket, what its viewer reads, the display of a diff and
-- `fpd capture`, on small inputs.
use flux_parsing_daemon.Base.{
  ℕ, ◌≡◌, refl, arith, true, false, List, [], ◌∷◌, ◌++◌, map, Option, none, some, to_option, last,
  take, drop, filter_map, ◌>>=◌, length, ◌+◌, ◌-◌, if◌then◌else◌, ◌==◌, eq→==,
}
use Prim.Native.Nat.{max}
use flux_parsing_daemon.Base.Bytes.{codes}
use flux_parsing_daemon.H2.Akamai
use flux_parsing_daemon.H2.Hpack.StaticTable.{header}
use flux_parsing_daemon.Probe.Base64.{base64, decode_base64}
use flux_parsing_daemon.Probe.Base64.RoundTrip.{decode_base64-base64}
use flux_parsing_daemon.Probe.Display.{elide_list}
use flux_parsing_daemon.Probe.Display.Elided.{IsElided, elide_list-IsElided}
use flux_parsing_daemon.Probe.Log.Window.{numbered}
use flux_parsing_daemon.Probe.Admin
use flux_parsing_daemon.Probe.Admin.Sends.{lines_of}
use flux_parsing_daemon.Probe.Admin.Delivers.{publish, delivered, handle_client-delivers}
use flux_parsing_daemon.Probe.Admin.Overtaken.{handle_client-overtaken}
use flux_parsing_daemon.Probe.Log.{ConnectionRecord, connection}
use flux_parsing_daemon.Probe.Profile.{ClientReport}
use flux_parsing_daemon.H2.Frame.{preface}
use flux_parsing_daemon.Tls.Hello.Wire.{expected}
use flux_parsing_daemon.Tls.Ja4
use flux_parsing_daemon.Tls.Ja4.{fingerprint_of}
use flux_parsing_daemon.Probe.Streams.{
  Replaying, replay, poll_replaying, is_replaying, ready, pending,
}
use flux_parsing_daemon.Probe.Streams.Replayed.{Replayed, live_bytes}
use flux_parsing_daemon.Probe.Serve.{
  retain, build_report, complete, capture_h2_preamble, capture_behind_preface, capture_frames,
  capture_frame, capture_payload, read_exact, frame_kind, frame_length,
}
use flux_parsing_daemon.Probe.Inject.Attach.{fp_headers}
use flux_parsing_daemon.Probe.Verdict.{identify}
use flux_parsing_daemon.Probe.Connection.{
  v4, SocketAddr, ServeConfig, serve_config, Http, Request, Upstream, replied, Handshake, Served,
  is_h2_of, preamble_of_handshake, annotate, report_of, handle,
}
use flux_parsing_daemon.Probe.Connection.Handled.{
  capture_of, record_of, handle_all, handle-in_order, handle_all-snapshot,
}
use flux_parsing_daemon.Tests.Tls.{digests, sample, sample_record, sample_parsed}
use flux_parsing_daemon.Tests.Verdict.{percents, report, connections}

decode_base64-base64_example :
    decode_base64 (base64 (0 ∷ 255 ∷ 16 ∷ 131 ∷ [])) ≡ 0 ∷ 255 ∷ 16 ∷ 131 ∷ []
decode_base64-base64_example =
    decode_base64-base64 (0 ∷ 255 ∷ 16 ∷ 131 ∷ [])
      (omega arith, (omega arith, (omega arith, (omega arith, tt))))

elide_list-IsElided_example :
    IsElided
      (codes "alpha,beta,gamma,delta,epsilon,zeta")
      (elide_list (codes "alpha,beta,gamma,delta,epsilon,zeta"))
elide_list-IsElided_example = elide_list-IsElided (codes "alpha,beta,gamma,delta,epsilon,zeta")

-- A channel that tells how many records were missed, and gives the last of them.
abbrev unread : ℕ → List (ConnectionRecord percents) → List (Admin.Received percents)
unread n sent =
    let missed = length sent - n in
    if missed == 0
    then map Admin.received sent
    else Admin.lagged missed ∷ map Admin.received (drop missed sent)

unread-IsChannel : Admin.IsChannel percents unread
unread-IsChannel n sent h = rw (eq→== (length sent - n) 0 (omega arith)) refl

-- Two connections before the subscription, two before the snapshot and two after it, into a log of three.
handle_client-delivers_example :
    let (subscribed, sent_0) = publish percents (Admin.new percents 3) connections in
    let (seen, sent_1) = publish percents subscribed connections in
    let (ended, sent_2) = publish percents seen connections in
    lines_of percents (
      Admin.handle_client percents 5
        (Admin.snapshot percents seen)
        (unread seen.depth (sent_1 ++ sent_2)))
    ≡ take 5 (delivered percents (max 1 3) (connections ++ connections) connections)
unfolding Admin.new
handle_client-delivers_example =
    handle_client-delivers percents unread 3 5 connections connections connections unread-IsChannel
      (omega arith)

-- Two connections before the snapshot, and two more of which the second is sent first.
abbrev at_eight : ConnectionRecord percents
at_eight = connection percents report (identify percents report []) (codes "-") 8

abbrev at_seven : ConnectionRecord percents
at_seven = record at_eight { at = 7 }

handle_client-overtaken_example :
    let (seen, sent_0) = publish percents (Admin.new percents 3) connections in
    let (with_a, sent_a) = publish percents seen (at_seven ∷ []) in
    let (with_b, sent_b) = publish percents with_a (at_eight ∷ []) in
    lines_of percents (
      Admin.handle_client percents 5
        (Admin.snapshot percents seen)
        (map Admin.received (sent_b ++ sent_a)))
    ≡ take 5 (
        map Admin.record_line (last (max 1 3) (numbered percents 0 connections))
        ++ (Admin.snapshot_end (length connections - 1)
            ∷ Admin.record_line (record at_eight { seq = length connections + 1 })
            ∷ []))
handle_client-overtaken_example = handle_client-overtaken percents 3 5 connections at_seven at_eight

-- An HTTP/2 client whose ClientHello parses: its preamble is a SETTINGS and a HEADERS frame.
abbrev pub preamble : List ℕ
preamble =
    preface ++ (0 ∷ 0 ∷ 0 ∷ 4 ∷ 0 ∷ 0 ∷ 0 ∷ 0 ∷ 0 ∷ 0 ∷ 0 ∷ 1 ∷ 1 ∷ 5 ∷ 0 ∷ 0 ∷ 0 ∷ 1 ∷ 0x82 ∷ [])

abbrev client : Handshake
client = record {
  seen = sample_record;
  alpn = some (codes "h2");
  stream = preamble ++ (7 ∷ 8 ∷ []);
}

abbrev pub client_report : ClientReport
client_report = record {
  tls = fingerprint_of digests (expected sample);
  raw_hello = retain sample_record;
  h2 = to_option (Akamai.fingerprint preamble);
  alpn = some (codes "h2");
  handshake_failed = false;
}

client-captured : preamble_of_handshake client ≡ preamble
unfolding preamble_of_handshake is_h2_of capture_h2_preamble capture_behind_preface capture_frames
    capture_frame capture_payload read_exact frame_kind frame_length
client-captured = refl

pub client-built :
    build_report digests sample_record preamble (some (codes "h2")) ≡ some client_report
unfolding build_report Ja4.fingerprint to_option ◌>>=◌
client-built = rw sample_parsed refl

abbrev address : SocketAddr
address = record { ip = v4 10 0 0 7; port = 443 }

abbrev config : ServeConfig
config = serve_config address address

abbrev served : Served
served = record {
  stream = replay preamble;
  fp = fp_headers percents client_report (identify percents client_report []);
  is_h2 = true;
}

client-served :
    (handle digests percents (λ ip. []) [] config address 5 (some client) (Admin.new percents 3)).1
    ≡ some served
unfolding handle annotate report_of is_h2_of
client-served = rw (client-captured, client-built) refl

abbrev http : Http
http = record {
  Uri = List ℕ;
  PathAndQuery = List ℕ;
  path_and_query = λ uri. some uri;
  build = λ path. some path;
  parses = λ h. true;
}

abbrev request : Request http
request = record {
  uri = codes "/index.html";
  headers = header "X-FP-Verdict" "safari" ∷ header "accept" "text/html" ∷ [];
  body = none;
}

abbrev upstream : Upstream http
upstream = record { connects = true; shakes_hands = true; answers = λ sent. replied 200 [] none }

abbrev received : List ℕ
received = preamble ++ (7 ∷ [])

abbrev passed_on : Replaying
passed_on = record { buf = preamble; pos = 43 }

passed_on-Replayed : Replayed (replay preamble) (7 ∷ []) received passed_on
unfolding replay poll_replaying live_bytes is_replaying
passed_on-Replayed =
    Replayed.then_poll 8 (ready (7 ∷ [])) (Replayed.then_poll 100 pending Replayed.start)

client-complete : capture_of client ≡ complete (7 ∷ 8 ∷ [])
unfolding capture_of is_h2_of capture_h2_preamble capture_behind_preface capture_frames
    capture_frame capture_payload read_exact frame_kind frame_length
client-complete = refl

handle-in_order_example : (received ++ drop 43 preamble) ++ (8 ∷ []) ≡ client.stream
unfolding replay
handle-in_order_example =
    handle-in_order digests percents (λ ip. []) [] config address 5 client (Admin.new percents 3)
      (7 ∷ 8 ∷ []) (8 ∷ []) (7 ∷ []) received client-served client-complete refl passed_on-Replayed

-- A client, a handshake that fails and one whose ClientHello does not parse.
abbrev conns : List (SocketAddr × ℕ × Option Handshake)
conns =
    (address, 5, some client)
    ∷ (address, 6, none)
    ∷ (address, 7, some record { seen = 1 ∷ 2 ∷ []; alpn = none; stream = [] })
    ∷ []

handle_all-snapshot_example :
    Admin.snapshot percents (
      handle_all digests percents
        (λ ip. [])
        []
        config
        conns
        (Admin.new percents config.log_capacity))
    ≡ last
        (max 1 config.log_capacity)
        (numbered percents 0 (filter_map (record_of digests percents (λ ip. []) [] config) conns))
handle_all-snapshot_example = handle_all-snapshot digests percents (λ ip. []) [] config conns
