-- ===== src/Probe/UserAgent.antt =====
-- crates/fingerprint-probe/src/ua.rs: the family that a User-Agent claims.
use flux_parsing_daemon.Base.{ℕ, ◌&&◌, ◌||◌, List, Option, find, if◌then◌else◌}
use flux_parsing_daemon.Base.Bytes.{codes}
use flux_parsing_daemon.Base.Options.{map_option}
use flux_parsing_daemon.Base.Text.{to_lower, starts_with, has_substring, eq_ignore_ascii_case}
use flux_parsing_daemon.H2.Hpack.StaticTable.{Header}

abbrev pub user_agent : List ℕ
user_agent = codes "user-agent"

pub data Family : Type 0 where
  chrome firefox safari edge curl python go node unknown_family : Family

abbrev pub as_str : Family → List ℕ
as_str chrome = codes "chrome"
as_str firefox = codes "firefox"
as_str safari = codes "safari"
as_str edge = codes "edge"
as_str curl = codes "curl"
as_str python = codes "python"
as_str go = codes "go"
as_str node = codes "node"
as_str unknown_family = codes "unknown"

-- The browsers, the most specific token first.
unfoldable pub claimed_browser : List ℕ → Family
claimed_browser s =
    if has_substring (codes "edg/") s
      || has_substring (codes "edga/") s
      || has_substring (codes "edgios/") s
    then edge
    else if has_substring (codes "firefox/") s || has_substring (codes "fxios/") s
    then firefox
    else if has_substring (codes "chrome/") s || has_substring (codes "crios/") s
    then chrome
    else if has_substring (codes "safari/") s && has_substring (codes "version/") s
    then safari
    else unknown_family

-- The other clients first. `s` is in lower case.
unfoldable pub claimed_of_lower : List ℕ → Family
claimed_of_lower s =
    if starts_with (codes "curl/") s
    then curl
    else if starts_with (codes "python-requests/") s || starts_with (codes "python-urllib") s
    then python
    else if starts_with (codes "go-http-client/") s
    then go
    else if starts_with (codes "node") s
        || starts_with (codes "undici") s
        || starts_with (codes "axios/") s
    then node
    else claimed_browser s

unfoldable pub claimed_family : List ℕ → Family
claimed_family ua = claimed_of_lower (to_lower ua)

unfoldable pub user_agent_of : List Header → Option (List ℕ)
user_agent_of headers =
    map_option (λ (h : Header). h.1)
      (find (λ (h : Header). eq_ignore_ascii_case h.0 user_agent) headers)
