-- ===== src/Damon/Pipelining.antt =====
-- `send(Session &, const std::vector< Request > &)` of lib/Damon/Request.cpp: all requests are written
-- to one connection before the first response is read.
pub mod Writes
pub mod Served
use arachnida.Base.{
  ℕ, Bool, true, false, not, ◌&&◌, List, [], ◌∷◌, Option, none, some, Bytes, length, str_eq, ◌==◌,
  if◌then◌else◌, Result, ok, throw, Exception,
}
use arachnida.Damon.Message.{Request, Response}
use arachnida.Damon.Reception.{Attribute, get_responses}
use arachnida.Damon.Sending.{taken, secured, connection_of}
use arachnida.Damon.Serialize.{serialize}
use arachnida.Damon.Session.{
  Cached, ConnectionCache, Session, get_connection, cache_key, with_context,
}
use arachnida.Damon.Url.{UrlMatch, ParsedUrl, parse_url}
use arachnida.Spin.Connection.{Answer, ReadResult, write}

-- A connection: its attribute, what it takes at each write and what `poll` says at each read, by the
-- requests that are left behind, and what is read of it.
pub record Peer : Type 0 where
  pub attribute : Attribute
  pub takes : ℕ → Answer ℕ
  pub polls : ℕ → Bool
  pub reads : List (Result ReadResult)

-- How `send` ends: not at all, since a read is not answered or the connector's answers end; by an
-- assertion; by an exception; or with the responses.
pub data Outcome : Type 0 where
  unfinished : Outcome
  aborted : Outcome
  thrown : Exception → Outcome
  returned : List Response → Outcome

-- What `send` leaves: the session, the connection, what each write to it took, and the end.
pub record Batch : Type 0 where
  pub session : Session
  pub connection : Option ℕ
  pub written : List Bytes
  pub outcome : Outcome

abbrev pub outcome_of : Option (Result (List Response)) → Outcome
outcome_of none = unfinished
outcome_of (some (throw e)) = thrown e
outcome_of (some (ok responses)) = returned responses

abbrev pub nothing_sent : Session → Outcome → Batch
nothing_sent session outcome = record {
  session = session;
  connection = none;
  written = [];
  outcome = outcome;
}

module _ (lexical_cast : Bytes → Option ℕ) (regex_match : Bytes → Option UrlMatch)
    (host_match : Bytes → Option Bytes) (to_text : ℕ → Bytes) (asserts : Bool)
    (peers : ℕ → Peer) where
  -- `ValidateURL`, as the assertion asks it of each request until one does not fit.
  unfoldable pub validate_urls : Bytes → ℕ → List Request → Result Bool
  unfolding parse_url str_eq
  validate_urls server port [] = ok true
  validate_urls server port (request ∷ requests) =
      let rest = validate_urls server port requests in
      elim (parse_url lexical_cast regex_match request.url) [
        | throw e ↦ throw e
        | ok u ↦ if str_eq u.server server && u.port == port then rest else ok false
      ]

  -- The loop of writes: what they took, and whether one has thrown.
  unfoldable pub write_requests : Cached → List Request → List Bytes × Result (Unit {0})
  unfolding serialize write
  write_requests c [] = ([], ok tt)
  write_requests c (request ∷ requests) =
      let rest = write_requests c requests in
      let answer = (peers c.connection).takes (length requests) in
      elim (serialize lexical_cast regex_match host_match to_text request) [
        | throw e ↦ ([], throw e)
        | ok bytes ↦ elim (write (connection_of c) bytes answer) [
          | throw e ↦ ([], throw e)
          | ok _ ↦ (taken answer.result bytes ∷ rest.0, rest.1)
        ]
      ]

  -- The assertion on the URLs, where assertions are compiled in.
  unfoldable pub checked : ParsedUrl → List Request → Result Bool
  unfolding validate_urls
  checked u requests = if asserts then validate_urls u.server u.port requests else ok true

  module _ (cast_code cast_size : Bytes → Option ℕ) (fuel : ℕ) where
    -- Behind the search for the connection: the writes, and one `getResponse` for each request.
    unfoldable pub exchange_requests : Session → Cached → List Request → Batch
    unfolding write_requests get_responses
    exchange_requests session c requests =
        let (written, sent) = write_requests c requests in
        let peer = peers c.connection in
        elim sent [
          | throw e ↦ record {
            session = session;
            connection = some c.connection;
            written = written;
            outcome = thrown e;
          }
          | ok _ ↦ record {
            session = session;
            connection = some c.connection;
            written = written;
            outcome =
                outcome_of
                  (get_responses cast_code cast_size fuel (length requests) peer.polls
                    peer.attribute peer.reads).result;
          }
        ]

    unfoldable pub send_requests : (Bool → List (Result Cached)) → Session → List Request → Batch
    unfolding parse_url with_context get_connection cache_key exchange_requests secured checked
    send_requests connects session [] = nothing_sent session (returned [])
    send_requests connects session (request ∷ requests) =
        elim (parse_url lexical_cast regex_match request.url) [
          | throw e ↦ nothing_sent session (thrown e)
          | ok u ↦
              let prepared = with_context session u in
              let search =
                get_connection (connects (secured u)) (cache_key to_text u)
                  prepared.connection_cache in
              elim search [
                | none ↦ nothing_sent prepared unfinished
                | some (cache, throw e) ↦
                    nothing_sent (record prepared { connection_cache = cache }) (thrown e)
                | some (cache, ok c) ↦
                    let found = record prepared { connection_cache = cache } in
                    elim (checked u (request ∷ requests)) [
                      | throw e ↦ nothing_sent found (thrown e)
                      | ok fit ↦
                          if not fit
                          then nothing_sent found aborted
                          else exchange_requests found c (request ∷ requests)
                    ]
              ]
        ]
