-- ===== src/Damon/Pipelining/Served.antt =====
-- Several requests of the client, lib/Damon/Request.cpp, and the server's answers to them.
use mathlib.Core.List.{map}
use arachnida.Base.{
  ℕ, suc, Bool, true, false, List, [], ◌∷◌, Option, none, some, Bytes, length, All, ◌≡◌, refl, sym,
  ap, ◌∙◌, Result, ok,
}
use arachnida.Damon.Message.{Request, Response}
use arachnida.Damon.Pipelining.Writes as W
use arachnida.Damon.Pipelining.Writes.{Prepared, requests_of, join}
use arachnida.Damon.Pipelining.{Peer, returned, outcome_of, Batch, exchange_requests, send_requests}
use arachnida.Damon.Reception.{no_attribute, get_responses}
use arachnida.Damon.Reception.Served as Answered
use arachnida.Damon.Reception.Whole.{Delivers}
use arachnida.Damon.Sending.{secured}
use arachnida.Damon.Sending.Shared.{with_cache, with_context_cache}
use arachnida.Damon.Serialize.RoundTrip.{sent-IsWire}
use arachnida.Damon.Session.{
  Cached, ConnectionCache, Session, get_connection, cache_key, with_context,
}
use arachnida.Damon.Session.Cache.{get_connection-IsCached}
use arachnida.Damon.Url.{UrlMatch, ParsedUrl}
use arachnida.Spin.Connection.{ReadResult}
use arachnida.Spin.DataHandler.{on_data_ready, finished}
use arachnida.Spin.DataHandler.Wire.{IsWire, on_data_ready-requests_text}
use arachnida.Spin.Message as Spin
use arachnida.Spin.Response as Server

module _ (lexical_cast : Bytes → Option ℕ) (regex_match : Bytes → Option UrlMatch)
    (host_match : Bytes → Option Bytes) (to_text : ℕ → Bytes) (asserts : Bool) (peers : ℕ → Peer)
    (cast_code cast_size : Bytes → Option ℕ) (cast : Bytes → Option ℕ) (accepted : ℕ) where
  abbrev pub IsSendable : ParsedUrl → Prepared → Type 0
  IsSendable = W.IsSendable lexical_cast regex_match host_match to_text asserts peers cast accepted

  abbrev pub TakesAll : ℕ → List Prepared → Type 0
  TakesAll = W.TakesAll lexical_cast regex_match host_match to_text asserts peers cast accepted

  abbrev pub seen : Prepared → Spin.Request
  seen = W.seen lexical_cast regex_match host_match to_text asserts peers cast accepted

  abbrev text_of : Prepared → Bytes
  text_of = W.text_of lexical_cast regex_match host_match to_text asserts peers cast accepted

  -- The response that the client makes of one of the server.
  abbrev pub answered : Server.Response → Response
  answered = Answered.received to_text cast_code cast_size

  abbrev pub sends : ℕ → (Bool → List (Result Cached)) → Session → List Request → Batch
  sends fuel =
      send_requests lexical_cast regex_match host_match to_text asserts peers cast_code cast_size
        fuel

  abbrev exchanges : ℕ → Session → Cached → List Request → Batch
  exchanges fuel =
      exchange_requests lexical_cast regex_match host_match to_text asserts peers cast_code
        cast_size fuel

  send_requests_on :
      (fuel : ℕ) (connects : Bool → List (Result Cached)) (session : Session) (p : Prepared)
      (ps : List Prepared) (cache : ConnectionCache) (c : Cached)
      → All (IsSendable p.url) (p ∷ ps)
      → get_connection (connects (secured p.url)) (cache_key to_text p.url) session.connection_cache
        ≡ some (cache, ok c)
      → sends fuel connects session (requests_of (p ∷ ps))
        ≡ exchanges fuel (with_cache (with_context session p.url) cache) c (requests_of (p ∷ ps))
  unfolding send_requests
  send_requests_on fuel connects session p ps cache c fit found =
      let search =
        ap (get_connection (connects (secured p.url)) (cache_key to_text p.url))
          (with_context_cache session p.url)
        ∙ found in
      rw
        (
          fit.0.parsed,
          search,
          (W.checked_fit lexical_cast regex_match host_match to_text asserts peers cast accepted)
              p.url (p ∷ ps) fit,
          send_requests,
        )
        refl

  exchange_requests_whole :
      (fuel : ℕ) (session : Session) (c : Cached) (first : ParsedUrl) (ps : List Prepared)
      → c.usable ≡ true
      → All (IsSendable first) ps
      → TakesAll c.connection ps
      → exchanges fuel session c (requests_of ps) ≡ record {
        session = session;
        connection = some c.connection;
        written = map text_of ps;
        outcome =
            outcome_of
              (get_responses cast_code cast_size fuel
                (length (requests_of ps))
                (peers c.connection).polls
                (peers c.connection).attribute
                (peers c.connection).reads).result;
      }
  unfolding exchange_requests
  exchange_requests_whole fuel session c first ps u fit takes =
      let all =
        (W.write_requests_whole lexical_cast regex_match host_match to_text asserts peers cast
            accepted)
          first c ps u fit takes in
      rw (all, exchange_requests)
        (ap
          (λ (w : List Bytes × Result (Unit {0})). record {
            session = session;
            connection = some c.connection;
            written = w.0;
            outcome =
                outcome_of
                  (get_responses cast_code cast_size fuel (length (requests_of ps))
                    (peers c.connection).polls (peers c.connection).attribute
                    (peers c.connection).reads).result;
          })
          all)

  sendable-AreWire :
      (first : ParsedUrl) (ps : List Prepared)
      → All (IsSendable first) ps
      → All (IsWire cast accepted) (map seen ps)
  sendable-AreWire first [] h = tt
  sendable-AreWire first (p ∷ ps) (h, hs) = (
    sent-IsWire lexical_cast regex_match host_match to_text cast accepted p.request p.url h.word
        h.unsized h.fields h.inverse h.starts,
    sendable-AreWire first ps hs,
  )

  -- The composition of client and server for several requests: `send` finds a connection, writes all
  -- requests to it and reads as many responses. When each request is for the server of the first one
  -- and of the form that the server reads, the connection takes each of them as a whole, and one read
  -- brings the server's responses, one for each request, then: the bytes that `send` writes are those
  -- requests for the data handler of the server, in order and complete; and `send` returns the
  -- responses that the server wrote, in order and complete.
  pub send_requests-served :
      (fuel : ℕ) (connects : Bool → List (Result Cached)) (session : Session) (p : Prepared)
      (ps : List Prepared) (cache : ConnectionCache) (c : Cached) (s : Server.Response)
      (ss : List Server.Response) (d : ReadResult) (later : List (Result ReadResult))
      → All (IsSendable p.url) (p ∷ ps)
      → get_connection (connects (secured p.url)) (cache_key to_text p.url) session.connection_cache
        ≡ some (cache, ok c)
      → TakesAll c.connection (p ∷ ps)
      → (peers c.connection).attribute ≡ no_attribute
      → (peers c.connection).polls ≡ (λ i. false)
      → (peers c.connection).reads ≡ ok d ∷ later
      → length ss ≡ length ps
      → Delivers d (Answered.written to_text cast_code cast_size (s ∷ ss))
      → All (Answered.IsServed to_text cast_code cast_size) (s ∷ ss)
      → let batch = sends (suc fuel) connects session (requests_of (p ∷ ps)) in
        (batch.connection ≡ some c.connection)
        × (on_data_ready cast accepted none (join batch.written) ≡ finished (map seen (p ∷ ps)))
        × (batch.outcome ≡ returned (map answered (s ∷ ss)))
  send_requests-served fuel connects session p ps cache c s ss d later fit found takes fresh quiet
        reads as_many arrives served =
      let kept =
        get_connection-IsCached (connects (secured p.url)) (cache_key to_text p.url)
          session.connection_cache cache c found in
      let whole =
        send_requests_on (suc fuel) connects session p ps cache c fit found
        ∙ exchange_requests_whole (suc fuel) (with_cache (with_context session p.url) cache) c p.url
            (p ∷ ps) kept.usable fit takes in
      let wire = sendable-AreWire p.url (p ∷ ps) fit in
      let count : length (requests_of ps) ≡ length ss =
        (W.length-requests_of lexical_cast regex_match host_match to_text asserts peers cast
            accepted)
          ps
        ∙ sym as_many in
      let replied =
        Answered.get_responses-serialize to_text cast_code cast_size fuel s ss d later arrives
          served.0 served.1 in
      let ended : (get_responses cast_code cast_size (suc fuel) (suc (length (requests_of ps)))
            (peers c.connection).polls (peers c.connection).attribute
            (peers c.connection).reads).result
          ≡ some (ok (map answered (s ∷ ss))) =
        rw (count, quiet, fresh, reads) (ap (λ r. r.result) replied) in
      (
        ap (λ b. b.connection) whole,
        ap (λ b. on_data_ready cast accepted none (join b.written)) whole
            ∙ ap (on_data_ready cast accepted none) (
                (W.join-text_of lexical_cast regex_match host_match to_text asserts peers cast
                    accepted)
                  (p ∷ ps))
            ∙ on_data_ready-requests_text cast accepted (seen p) (map seen ps) wire.0 wire.1,
        ap (λ b. b.outcome) whole ∙ ap outcome_of ended,
      )
