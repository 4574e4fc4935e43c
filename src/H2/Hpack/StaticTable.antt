-- ===== src/H2/Hpack/StaticTable.antt =====
-- crates/fingerprint-h2/src/hpack/table_static.rs: the static table, RFC 7541 appendix A.
use flux_parsing_daemon.Base.{ℕ, ◌≡◌, refl, List, [], ◌∷◌, length, String}
use flux_parsing_daemon.Base.Bytes.{codes}

-- A name and a value, each as its bytes.
abbrev pub Header : Type 0
Header = List ℕ × List ℕ

abbrev pub header : String → String → Header
header name value = (codes name, codes value)

unfoldable pub static_table : List Header
static_table =
    header ":authority" ""
    ∷ header ":method" "GET"
    ∷ header ":method" "POST"
    ∷ header ":path" "/"
    ∷ header ":path" "/index.html"
    ∷ header ":scheme" "http"
    ∷ header ":scheme" "https"
    ∷ header ":status" "200"
    ∷ header ":status" "204"
    ∷ header ":status" "206"
    ∷ header ":status" "304"
    ∷ header ":status" "400"
    ∷ header ":status" "404"
    ∷ header ":status" "500"
    ∷ header "accept-charset" ""
    ∷ header "accept-encoding" "gzip, deflate"
    ∷ header "accept-language" ""
    ∷ header "accept-ranges" ""
    ∷ header "accept" ""
    ∷ header "access-control-allow-origin" ""
    ∷ header "age" ""
    ∷ header "allow" ""
    ∷ header "authorization" ""
    ∷ header "cache-control" ""
    ∷ header "content-disposition" ""
    ∷ header "content-encoding" ""
    ∷ header "content-language" ""
    ∷ header "content-length" ""
    ∷ header "content-location" ""
    ∷ header "content-range" ""
    ∷ header "content-type" ""
    ∷ header "cookie" ""
    ∷ header "date" ""
    ∷ header "etag" ""
    ∷ header "expect" ""
    ∷ header "expires" ""
    ∷ header "from" ""
    ∷ header "host" ""
    ∷ header "if-match" ""
    ∷ header "if-modified-since" ""
    ∷ header "if-none-match" ""
    ∷ header "if-range" ""
    ∷ header "if-unmodified-since" ""
    ∷ header "last-modified" ""
    ∷ header "link" ""
    ∷ header "location" ""
    ∷ header "max-forwards" ""
    ∷ header "proxy-authenticate" ""
    ∷ header "proxy-authorization" ""
    ∷ header "range" ""
    ∷ header "referer" ""
    ∷ header "refresh" ""
    ∷ header "retry-after" ""
    ∷ header "server" ""
    ∷ header "set-cookie" ""
    ∷ header "strict-transport-security" ""
    ∷ header "transfer-encoding" ""
    ∷ header "user-agent" ""
    ∷ header "vary" ""
    ∷ header "via" ""
    ∷ header "www-authenticate" ""
    ∷ []

pub length-static_table : length static_table ≡ 61
unfolding static_table
length-static_table = refl
