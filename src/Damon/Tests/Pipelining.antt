-- ===== src/Damon/Tests/Pipelining.antt =====
-- Two requests that are sent together.
use mathlib.Core.List.{map}
use arachnida.Base.{
  if◌then◌else◌, Bool, true, false, List, [], ◌∷◌, Option, some, none, Bytes, codes, length, str_eq,
  ◌≡◌, refl, ok, Result,
}
use arachnida.Damon.Pipelining.{Peer, returned, Batch, aborted, send_requests}
use arachnida.Damon.Pipelining.Writes.{Prepared, join}
use arachnida.Damon.Pipelining.Served.{IsSendable, seen, sends, answered, send_requests-served}
use arachnida.Damon.Message.{make_request, get, no_authorization}
use arachnida.Damon.Url.{UrlMatch}
use arachnida.Damon.Reception.{no_attribute}
use arachnida.Damon.Reception.Served.{written}
use arachnida.Damon.Serialize.{has_header, complete_fields}
use arachnida.Damon.Session.{Cached, Session, get_connection}
use arachnida.Damon.Tests.{
  whole_match, host_match, posted, parsed, parse_url_run, resource_a, sent-IsField, body_starts,
}
use arachnida.Damon.Tests.Reception.{answer, bring, both, hi-IsServed, empty-IsServed, both_arrive}
use arachnida.Spin.Connection.{moved}
use arachnida.Spin.DataHandler.{on_data_ready, finished}
use arachnida.Spin.Tests.Decimal.{read_decimal, three_digits}

abbrev prepared : Prepared
prepared = record { request = posted; url = parsed }

-- Each of the two requests has 79 bytes.
abbrev peer : Peer
peer = record {
  attribute = no_attribute;
  takes = λ i. record {
    result = moved 79;
    should_retry = false;
    should_read = false;
    should_write = false;
  };
  polls = λ i. false;
  reads = ok (bring (written three_digits read_decimal read_decimal both)) ∷ [];
}

abbrev at_host : Cached
at_host = record { connection = 1; usable = true }

abbrev connects : Bool → List (Result Cached)
connects secured = ok at_host ∷ []

abbrev no_session : Session
no_session = record { context = false; connection_cache = [] }

sendable :
    IsSendable read_decimal whole_match host_match three_digits true
      (λ k. peer)
      read_decimal
      read_decimal
      read_decimal
      7
      parsed
      prepared
unfolding has_header str_eq
sendable = record {
  parsed = parse_url_run;
  server = refl;
  port = refl;
  word = resource_a;
  unsized = refl;
  fields = sent-IsField;
  inverse = refl;
  starts = body_starts;
}

search_run :
    get_connection (connects false) (codes "h:080") []
    ≡ some ((codes "h:080", at_host) ∷ [], ok at_host)
unfolding get_connection
search_run = refl

send_requests-served_example :
    let batch =
      sends read_decimal whole_match host_match three_digits true
        (λ k. peer)
        read_decimal
        read_decimal
        read_decimal
        7
        1
        connects
        no_session
        (posted ∷ posted ∷ []) in
    let handled =
      seen read_decimal whole_match host_match three_digits true
        (λ k. peer)
        read_decimal
        read_decimal
        read_decimal
        7
        prepared in
    (batch.connection ≡ some 1)
    × (on_data_ready read_decimal 7 none (join batch.written) ≡ finished (handled ∷ handled ∷ []))
    × (batch.outcome
        ≡ returned (
            map
              (answered read_decimal whole_match host_match three_digits true
                (λ k. peer)
                read_decimal
                read_decimal
                read_decimal
                7)
              both))
unfolding complete_fields arachnida.Damon.Serialize.method_name arachnida.Acari.Base64.base64encode
    arachnida.Damon.Sending.secured arachnida.Damon.Session.cache_key
send_requests-served_example =
    send_requests-served read_decimal whole_match host_match three_digits true (λ k. peer)
      read_decimal read_decimal read_decimal 7 0 connects no_session prepared (prepared ∷ [])
      ((codes "h:080", at_host) ∷ []) at_host (answer (codes "hi")) (answer [] ∷ [])
      (bring (written three_digits read_decimal read_decimal both)) [] (sendable, (sendable, tt))
      search_run (refl, (refl, tt)) refl refl refl refl both_arrive
      (hi-IsServed, (empty-IsServed, tt))

-- A second request for another server: the assertion stops it, and without assertions it is written to
-- the first one's connection.
abbrev elsewhere : Bytes → Option UrlMatch
elsewhere url = some (record {
  protocol = some (codes "http");
  username = none;
  password = none;
  host = if str_eq url (codes "http://g/b") then codes "g" else codes "h";
  port = none;
  path = none;
})

abbrev two_servers : Bool → Batch
two_servers asserts =
    send_requests read_decimal elsewhere host_match three_digits asserts (λ k. peer) read_decimal
      read_decimal 2 connects no_session
      (make_request (codes "http://h/a") get no_authorization
        ∷ make_request (codes "http://g/b") get no_authorization
        ∷ [])

two_servers_run :
    ((two_servers true).outcome ≡ aborted)
    × ((two_servers false).connection ≡ some 1)
    × (length (two_servers false).written ≡ 2)
unfolding send_requests get_connection
two_servers_run = (refl, refl, refl)
