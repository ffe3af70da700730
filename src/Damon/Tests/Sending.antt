-- ===== src/Damon/Tests/Sending.antt =====
-- `send` at concrete inputs: a secured request after a plain one to the same server and port.
use arachnida.Base.{
  ℕ, Bool, true, false, List, [], ◌∷◌, Option, some, none, Bytes, codes, length, str_eq, ◌≡◌, refl,
  ok, Result, if◌then◌else◌,
}
use arachnida.Damon.Message.{Request, get, no_authorization, make_request}
use arachnida.Damon.Reception.{no_attribute}
use arachnida.Damon.Sending.{Peers, Sent, send, exchange}
use arachnida.Damon.Sending.Shared.{send_shares}
use arachnida.Damon.Session.{Cached, Session, get_connection, with_context}
use arachnida.Damon.Url.{UrlMatch, ParsedUrl, parse_url}
use arachnida.Spin.Connection.{moved}
use arachnida.Spin.Tests.Decimal.{read_decimal, three_digits}

abbrev url_match : Bytes → Option UrlMatch
url_match url = some (record {
  protocol = some (if str_eq url (codes "https://h/b") then codes "https" else codes "http");
  username = none;
  password = none;
  host = codes "h";
  port = if str_eq url (codes "https://h/b") then none else some (codes "443");
  path = if str_eq url (codes "https://h/b") then some (codes "/b") else some (codes "/a");
})

abbrev host_h : Bytes → Option Bytes
host_h url = some (codes "h")

abbrev plain : Request
plain = make_request (codes "http://h:443/a") get no_authorization

abbrev secret : Request
secret = make_request (codes "https://h/b") get no_authorization

abbrev plain_url : ParsedUrl
plain_url = record {
  protocol = codes "http";
  server = codes "h";
  port = 443;
  resource = codes "/a";
  username = [];
  password = [];
}

abbrev secret_url : ParsedUrl
secret_url = record {
  protocol = codes "https";
  server = codes "h";
  port = 443;
  resource = codes "/b";
  username = [];
  password = [];
}

abbrev no_content : Bytes
no_content = codes "HTTP/1.1 204 No Content\r\nContent-Length: 0\r\n\r\n"

-- Every connection takes up to a thousand bytes and answers without content.
abbrev all_peers : Peers
all_peers = record {
  attributes = λ k. no_attribute;
  takes = λ k. record {
    result = moved 1000;
    should_retry = false;
    should_read = false;
    should_write = false;
  };
  reads = λ k. ok (record { buffer = no_content; bytes_read = length no_content; reason = 0 }) ∷ [];
  polls = λ k. false;
}

abbrev connected : ℕ → Cached
connected k = record { connection = k; usable = true }

-- Connection 1 without a security context, 2 with one.
abbrev connects : Bool → List (Result Cached)
connects true = ok (connected 2) ∷ []
connects false = ok (connected 1) ∷ []

abbrev empty_session : Session
empty_session = record { context = false; connection_cache = [] }

abbrev sends : Session → Request → Sent
sends =
    send read_decimal url_match host_h three_digits read_decimal read_decimal 2 all_peers connects

secret_in_plain :
    (sends (sends empty_session plain).session secret).written
    ≡ some (1, codes "GET /b HTTP/1.1\r\nHost: h\r\nContent-Length: 000\r\n\r\n")
unfolding send get_connection
secret_in_plain = refl

both_parsed :
    (parse_url read_decimal url_match plain.url ≡ ok plain_url)
    × (parse_url read_decimal url_match secret.url ≡ ok secret_url)
unfolding parse_url str_eq
both_parsed = (refl, refl)

search_run :
    get_connection (connects false) (codes "h:443") []
    ≡ some ((codes "h:443", connected 1) ∷ [], ok (connected 1))
unfolding get_connection
search_run = refl

send_shares_example :
    let first = sends empty_session plain in
    (first.session.connection_cache ≡ (codes "h:443", connected 1) ∷ [])
    × (sends first.session secret
        ≡ exchange read_decimal url_match host_h three_digits read_decimal read_decimal 2 all_peers
            (with_context first.session secret_url)
            (connected 1)
            secret)
unfolding arachnida.Damon.Sending.secured arachnida.Damon.Session.cache_key
send_shares_example =
    send_shares read_decimal url_match host_h three_digits read_decimal read_decimal 2 all_peers
      connects connects empty_session plain secret plain_url secret_url
      ((codes "h:443", connected 1) ∷ []) (connected 1) both_parsed.0 both_parsed.1 refl refl
      search_run
