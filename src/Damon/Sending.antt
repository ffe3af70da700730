-- ===== src/Damon/Sending.antt =====
-- `send(Session &, const Request &)` of lib/Damon/Request.cpp, and the sessions of a request of its own.
-- `connects` is what `Connector::connect` gives, with a security context and without. A connection is
-- known by its number; what it keeps, what it takes when it is written to and what is read of it are
-- functions of that number.
pub mod Shared
use arachnida.Base.{
  ℕ, Bool, List, [], Option, none, some, Bytes, codes, str_eq, take, Result, ok, throw, Exception,
  false,
}
use arachnida.Damon.Message.{Request, Response}
use arachnida.Damon.Reception.{Attribute, Reply, get_response}
use arachnida.Damon.Serialize.{serialize}
use arachnida.Damon.Session.{Cached, Session, get_connection, cache_key, with_context}
use arachnida.Damon.Url.{UrlMatch, ParsedUrl, parse_url}
use arachnida.Spin.Connection.{
  Answer, IntResult, failure, moved, ReadResult, Connection, write, make_connection,
}

-- The connections of the program.
pub record Peers : Type 0 where
  pub attributes : ℕ → Attribute
  pub takes : ℕ → Answer ℕ
  pub reads : ℕ → List (Result ReadResult)
  pub polls : ℕ → Bool

-- What `send` leaves: the session, the connection that was written to with the bytes that it took, and
-- what `send` returns or throws, if it ends.
pub record Sent : Type 0 where
  pub session : Session
  pub written : Option (ℕ × Bytes)
  pub result : Option (Result Response)

abbrev pub stopped : Session → Exception → Sent
stopped session e = record { session = session; written = none; result = some (throw e) }

abbrev pub taken : IntResult ℕ → Bytes → Bytes
taken (failure k) bytes = []
taken (moved n) bytes = take n bytes

unfoldable pub secured : ParsedUrl → Bool
unfolding str_eq
secured u = str_eq u.protocol (codes "https")

abbrev pub connection_of : Cached → Connection
connection_of c = record (make_connection (some c.connection)) { usable = c.usable }

module _ (lexical_cast : Bytes → Option ℕ) (regex_match : Bytes → Option UrlMatch)
    (host_match : Bytes → Option Bytes) (to_text : ℕ → Bytes)
    (cast_code cast_size : Bytes → Option ℕ) (fuel : ℕ) (peers : Peers) where
  -- The end of `send`, on the connection that was found. What `write` returns is not looked at.
  unfoldable pub exchange : Session → Cached → Request → Sent
  unfolding serialize write get_response
  exchange session c request =
      elim (serialize lexical_cast regex_match host_match to_text request) [
        | throw e ↦ stopped session e
        | ok bytes ↦ elim (write (connection_of c) bytes (peers.takes c.connection)) [
          | throw e ↦ stopped session e
          | ok _ ↦ record {
            session = session;
            written = some (c.connection, taken (peers.takes c.connection).result bytes);
            result =
                (get_response cast_code cast_size fuel (peers.polls c.connection)
                  (peers.attributes c.connection) (peers.reads c.connection)).result;
          }
        ]
      ]

  unfoldable pub send : (Bool → List (Result Cached)) → Session → Request → Sent
  unfolding parse_url with_context get_connection cache_key exchange secured
  send connects session request = elim (parse_url lexical_cast regex_match request.url) [
    | throw e ↦ stopped session e
    | ok u ↦
        let prepared = with_context session u in
        let search =
          get_connection (connects (secured u)) (cache_key to_text u) prepared.connection_cache in
        elim search [
          | none ↦ record { session = prepared; written = none; result = none }
          | some (cache, throw e) ↦ stopped (record prepared { connection_cache = cache }) e
          | some (cache, ok c) ↦ exchange (record prepared { connection_cache = cache }) c request
        ]
  ]

  -- `send(const Request &)`
  unfoldable pub send_alone : (Bool → List (Result Cached)) → Request → Sent
  unfolding send
  send_alone connects request =
      send connects (record { context = false; connection_cache = [] }) request
