-- ===== src/Probe/Connection.antt =====
-- A connection of crates/fingerprint-probe/src/serve.rs: the configuration, `handle` from the handshake to
-- the stream that is served, and `forward`, which sends a request on. TLS is what its handshake gives, the
-- upstream is what it answers, and the HTTP library is the parameter `Http`.
pub mod Handled
use flux_parsing_daemon.Base.{
  ℕ, ◌+◌, Bool, true, false, List, [], ◌∷◌, ◌++◌, Option, none, some, list_eq, if◌then◌else◌, map,
}
use flux_parsing_daemon.Base.Utf8.{from_utf8_lossy}
use flux_parsing_daemon.Base.Bytes.{codes}
use flux_parsing_daemon.Base.Options.{map_option, unwrap_or}
use flux_parsing_daemon.Base.Text.{decimal, hex}
use flux_parsing_daemon.Tls.Ja4.{Digests}
use flux_parsing_daemon.H2.Hpack.StaticTable.{Header}
use flux_parsing_daemon.Probe.Profile.{ClientReport}
use flux_parsing_daemon.Probe.Verdict.{Scores, ProfileDb, identify}
use flux_parsing_daemon.Probe.Inject.Attach.{forwarded, fp_headers, unparsed_headers}
use flux_parsing_daemon.Probe.Streams.{Replaying, replay}
use flux_parsing_daemon.Probe.Serve.{build_report, capture_h2_preamble}
use flux_parsing_daemon.Probe.Log.{ConnectionRecord, connection}
use flux_parsing_daemon.Probe.Admin
use flux_parsing_daemon.Probe.Admin.{Publisher}

-- The octets of an IPv4 address, and the first three segments of an IPv6 address and the other five.
pub data IpAddr : Type 0 where
  v4 : ℕ → ℕ → ℕ → ℕ → IpAddr
  v6 : ℕ → ℕ → ℕ → List ℕ → IpAddr

pub record SocketAddr : Type 0 where
  pub ip : IpAddr
  pub port : ℕ

pub data IpMode : Type 0 where
  full truncated omitted : IpMode

-- The timeouts in seconds.
pub record ServeConfig : Type 0 where
  pub listen : SocketAddr
  pub upstream : SocketAddr
  pub handshake_timeout : ℕ
  pub capture_timeout : ℕ
  pub upstream_timeout : ℕ
  pub ip_mode : IpMode
  pub admin_socket : Option (List ℕ)
  pub log_capacity : ℕ

unfoldable pub serve_config : SocketAddr → SocketAddr → ServeConfig
serve_config listen upstream = record {
  listen = listen;
  upstream = upstream;
  handshake_timeout = 10;
  capture_timeout = 10;
  upstream_timeout = 30;
  ip_mode = truncated;
  admin_socket = none;
  log_capacity = 1000;
}

-- `to_string` of a whole address is the library's.
unfoldable pub render_ip : (IpAddr → List ℕ) → SocketAddr → IpMode → List ℕ
render_ip to_string addr omitted = codes "-"
render_ip to_string addr full = to_string addr.ip
render_ip to_string addr truncated = elim addr.ip [
  | v4 a b c d ↦ decimal a ++ (codes "." ++ (decimal b ++ (codes "." ++ (decimal c ++ codes ".0"))))
  | v6 a b c rest ↦ hex a ++ (codes ":" ++ (hex b ++ (codes ":" ++ (hex c ++ codes "::"))))
]

-- Of the HTTP library: the target of a request, the part of it that an origin server expects, the target
-- built of that part, and whether a name and a value parse as a header.
pub record Http : Type 1 where
  pub Uri : Type 0
  pub PathAndQuery : Type 0
  pub path_and_query : Uri → Option PathAndQuery
  pub build : PathAndQuery → Option Uri
  pub parses : Header → Bool

pub record Response : Type 0 where
  pub status : ℕ
  pub headers : List Header
  pub body : List ℕ

unfoldable pub bad_gateway : List ℕ → Response
bad_gateway why = record { status = 502; headers = []; body = codes "fpd: " ++ (why ++ (10 ∷ [])) }

-- What sending a request gives; a body is `none` where reading it fails.
pub data Reply : Type 0 where
  replied : ℕ → List Header → Option (List ℕ) → Reply
  send_error timed_out : Reply

-- A header as the pair of strings that is made of it.
unfoldable pub lossy_value : Header → Header
lossy_value h = (h.0, from_utf8_lossy h.1)

module _ (http : Http) where
  pub record Request : Type 0 where
    pub uri : http.Uri
    pub headers : List Header
    pub body : Option (List ℕ)

  -- A request with its body collected.
  pub record Outbound : Type 0 where
    pub uri : http.Uri
    pub headers : List Header
    pub body : List ℕ

  pub record Upstream : Type 0 where
    pub connects : Bool
    pub shakes_hands : Bool
    pub answers : Outbound → Reply

  unfoldable pub origin_form : http.Uri → http.Uri
  origin_form uri = elim (http.path_and_query uri) [
    | none ↦ uri
    | some path ↦ unwrap_or (http.build path) uri
  ]

  unfoldable pub outbound : Request → List Header → Outbound
  outbound request fp = record {
    uri = origin_form request.uri;
    headers = forwarded http.parses (map lossy_value request.headers) fp;
    body = unwrap_or request.body [];
  }

  unfoldable pub response_of : Reply → Response
  response_of (replied status headers body) = record {
    status = status;
    headers = headers;
    body = unwrap_or body [];
  }
  response_of send_error = bad_gateway (codes "upstream error")
  response_of timed_out = bad_gateway (codes "upstream timed out")

  -- The response, and what was sent to the upstream.
  unfoldable pub forward : Upstream → Request → List Header → Response × Option Outbound
  forward upstream request fp =
      let sent = outbound request fp in
      if upstream.connects
      then (if upstream.shakes_hands
          then (response_of (upstream.answers sent), some sent)
          else (bad_gateway (codes "upstream handshake failed"), none))
      else (bad_gateway (codes "upstream unreachable"), none)

-- A finished handshake: the bytes that the tee holds, the protocol agreed on, and the bytes that arrive
-- behind it before the capture's timeout.
pub record Handshake : Type 0 where
  pub seen : List ℕ
  pub alpn : Option (List ℕ)
  pub stream : List ℕ

-- What `serve_connection` is given.
pub record Served : Type 0 where
  pub stream : Replaying
  pub fp : List Header
  pub is_h2 : Bool

unfoldable pub is_h2_of : Option (List ℕ) → Bool
is_h2_of none = false
is_h2_of (some protocol) = list_eq protocol (codes "h2")

unfoldable pub preamble_of_handshake : Handshake → List ℕ
preamble_of_handshake tls = if is_h2_of tls.alpn then (capture_h2_preamble tls.stream).0 else []

module _ (d : Digests) (s : Scores) (to_string : IpAddr → List ℕ) (db : ProfileDb) where
  -- The `match` on the report: the publisher then, and the headers to attach. `now` is the clock's.
  unfoldable pub annotate :
      ServeConfig → SocketAddr → ℕ → Option ClientReport → Publisher s → Publisher s × List Header
  annotate cfg peer now (some r) publisher =
      let id = identify s r db in
      (
        (Admin.push s publisher (connection s r id (render_ip to_string peer cfg.ip_mode) now)).0,
        fp_headers s r id,
      )
  annotate cfg peer now none publisher = (publisher, unparsed_headers)

  unfoldable pub report_of : Handshake → Option ClientReport
  report_of tls = build_report d tls.seen (preamble_of_handshake tls) tls.alpn

  -- `none` for a handshake that failed or took too long, and then for the stream served.
  unfoldable pub handle :
      ServeConfig → SocketAddr → ℕ → Option Handshake → Publisher s → Publisher s × Option Served
  handle cfg peer now none publisher = (publisher, none)
  handle cfg peer now (some tls) publisher =
      let (published, fp) = annotate cfg peer now (report_of tls) publisher in
      (
        published,
        some record {
          stream = replay (preamble_of_handshake tls);
          fp = fp;
          is_h2 = is_h2_of tls.alpn;
        },
      )
