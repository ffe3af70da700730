-- ===== src/Damon/Sending/Shared.antt =====
-- Which connection a request is sent on after another one to the same server and port.
use arachnida.Base.{
  ℕ, Bool, List, Option, some, Bytes, Result, ok, ◌≡◌, refl, ap, ◌∙◌, sym, Result-cases, inl, inr,
  Bool-cases, codes, str_eq,
}
use arachnida.Damon.Message.{Request}
use arachnida.Damon.Serialize.{serialize}
use arachnida.Damon.Session.{
  Cached, Session, ConnectionCache, get_connection, cache_key, with_context, find_cached,
}
use arachnida.Damon.Session.Cache.{get_connection-IsCached, found_usable}
use arachnida.Damon.Url.{UrlMatch, ParsedUrl, parse_url}
use arachnida.Damon.Sending.{Peers, Sent, send, exchange, secured, connection_of}
use arachnida.Spin.Connection.{write}

abbrev pub with_cache : Session → ConnectionCache → Session
with_cache session cache = record session { connection_cache = cache }

pub with_context_cache :
    (session : Session) (u : ParsedUrl)
    → (with_context session u).connection_cache ≡ session.connection_cache
unfolding with_context
with_context_cache session u = elim (Bool-cases (str_eq u.protocol (codes "https"))) [
  | inl h ↦ rw h refl
  | inr h ↦ rw h refl
]

with_own_cache :
    (session : Session) (u : ParsedUrl)
    → with_cache (with_context session u) session.connection_cache ≡ with_context session u
unfolding with_context
with_own_cache session u = elim (Bool-cases (str_eq u.protocol (codes "https"))) [
  | inl h ↦ rw h refl
  | inr h ↦ rw h refl
]

module _ (lexical_cast : Bytes → Option ℕ) (regex_match : Bytes → Option UrlMatch)
    (host_match : Bytes → Option Bytes) (to_text : ℕ → Bytes)
    (cast_code cast_size : Bytes → Option ℕ) (fuel : ℕ) (peers : Peers) where
  abbrev sends : (Bool → List (Result Cached)) → Session → Request → Sent
  sends = send lexical_cast regex_match host_match to_text cast_code cast_size fuel peers

  cache_key_same :
      (u u2 : ParsedUrl)
      → u.server ≡ u2.server
      → u.port ≡ u2.port
      → cache_key to_text u ≡ cache_key to_text u2
  unfolding cache_key
  cache_key_same u u2 hs hp = rw (hs, hp) refl

  abbrev exchanges : Session → Cached → Request → Sent
  exchanges = exchange lexical_cast regex_match host_match to_text cast_code cast_size fuel peers

  exchange_session :
      (session : Session) (c : Cached) (request : Request)
      → (exchanges session c request).session ≡ session
  unfolding exchange
  exchange_session session c request =
      elim (Result-cases (serialize lexical_cast regex_match host_match to_text request)) [
        | inl (e, h) ↦ rw (h, exchange) refl
        | inr (bytes, h) ↦
            elim (Result-cases (write (connection_of c) bytes (peers.takes c.connection))) [
              | inl (e, k) ↦ rw (h, k, exchange) refl
              | inr (a, k) ↦ rw (h, k, exchange) refl
            ]
      ]

  send_on :
      (connects : Bool → List (Result Cached)) (session : Session) (request : Request)
      (u : ParsedUrl) (cache : ConnectionCache) (c : Cached)
      → parse_url lexical_cast regex_match request.url ≡ ok u
      → get_connection (connects (secured u)) (cache_key to_text u) session.connection_cache
        ≡ some (cache, ok c)
      → sends connects session request
        ≡ exchanges (with_cache (with_context session u) cache) c request
  unfolding send
  send_on connects session request u cache c hu hc =
      let found =
        ap (get_connection (connects (secured u)) (cache_key to_text u))
          (with_context_cache session u)
        ∙ hc in
      rw (hu, found, send) refl

  -- When the search of a first `send` ends with a connection, the session keeps the cache of that
  -- search, and a second request whose URL has the same server and port is written to the same
  -- connection and answered from it: whatever the protocols of the two URLs are, and whatever the
  -- connector would give.
  pub send_shares :
      (connects connects2 : Bool → List (Result Cached)) (session : Session)
      (request request2 : Request) (u u2 : ParsedUrl) (cache : ConnectionCache) (c : Cached)
      → parse_url lexical_cast regex_match request.url ≡ ok u
      → parse_url lexical_cast regex_match request2.url ≡ ok u2
      → u.server ≡ u2.server
      → u.port ≡ u2.port
      → get_connection (connects (secured u)) (cache_key to_text u) session.connection_cache
        ≡ some (cache, ok c)
      → let first = sends connects session request in
        (first.session.connection_cache ≡ cache)
        × (sends connects2 first.session request2
            ≡ exchanges (with_context first.session u2) c request2)
  send_shares connects connects2 session request request2 u u2 cache c hu hu2 hs hp hc =
      let first = sends connects session request in
      let kept : first.session.connection_cache ≡ cache =
        ap (λ s. s.session.connection_cache) (send_on connects session request u cache c hu hc)
        ∙ ap (λ s. s.connection_cache)
            (exchange_session (with_cache (with_context session u) cache) c request) in
      let found =
        get_connection-IsCached (connects (secured u)) (cache_key to_text u)
          session.connection_cache cache c hc in
      let same_key = cache_key_same u u2 hs hp in
      let again : get_connection (connects2 (secured u2)) (cache_key to_text u2)
            first.session.connection_cache
          ≡ some (first.session.connection_cache, ok c) =
        found_usable (connects2 (secured u2)) (cache_key to_text u2) first.session.connection_cache
          c
          (ap (λ k. find_cached k first.session.connection_cache) (sym same_key)
            ∙ ap (find_cached (cache_key to_text u)) kept
            ∙ found.found)
          found.usable in
      (
        kept,
        send_on connects2 first.session request2 u2 first.session.connection_cache c hu2 again
            ∙ ap (λ s. exchanges s c request2) (with_own_cache first.session u2),
      )
