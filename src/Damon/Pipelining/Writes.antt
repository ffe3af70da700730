-- ===== src/Damon/Pipelining/Writes.antt =====
-- What `send` writes for several requests, lib/Damon/Request.cpp.
use mathlib.Core.List.{map}
use arachnida.Base.{
  ℕ, suc, Bool, true, false, List, [], ◌∷◌, ◌++◌, append_assoc, take, Option, some, Bytes, length,
  All, ◌≡◌, refl, ap, ◌∙◌, arith, Result, ok, str_eq, ◌==◌, Bool-cases, inl, inr,
}
use arachnida.Acari.ParsingHelpers.RequestLine.{IsWord}
use arachnida.Damon.Message.{Request}
use arachnida.Damon.Pipelining.{Peer, validate_urls, write_requests, checked}
use arachnida.Damon.Reception.Served.{fields_text-append}
use arachnida.Damon.Sending.{taken, connection_of}
use arachnida.Damon.Serialize.{has_header}
use arachnida.Damon.Serialize.RoundTrip.{
  to_spin, content_length, sent, received, serialize-request_text,
}
use arachnida.Damon.Session.{Cached}
use arachnida.Damon.Url.{UrlMatch, ParsedUrl, parse_url}
use arachnida.Spin.Connection.{Answer, moved, write, write_answer}
use arachnida.Spin.DataHandler.Fields.{IsField, Starts, fields_text}
use arachnida.Spin.DataHandler.Wire.{request_text, requests_text}
use arachnida.Spin.Message as Spin

-- A request with what its URL is parsed to.
pub record Prepared : Type 0 where
  pub request : Request
  pub url : ParsedUrl

abbrev pub requests_of : List Prepared → List Request
requests_of = map (λ p. p.request)

abbrev pub join : List Bytes → Bytes
join [] = []
join (b ∷ bs) = b ++ join bs

write_taken :
    (c : Cached) (bytes : Bytes) (a : Answer ℕ)
    → c.usable ≡ true
    → a.result ≡ moved (length bytes)
    → (r : ℕ × ℕ) × (write (connection_of c) bytes a ≡ ok r)
unfolding write write_answer
write_taken c bytes a u m = elim (Bool-cases (length bytes == 0)) [
  | inl e ↦ ((0, 0), rw (u, e) refl)
  | inr n ↦ ((length bytes, 0), rw (u, n, m) (ground arith))
]

take-length : (bytes : Bytes) → take (length bytes) bytes ≡ bytes
take-length [] = refl
take-length (b ∷ bytes) = ap (b ∷◌) (take-length bytes)

request_text-rest :
    (r : Spin.Request) (rest : Bytes) → request_text r [] ++ rest ≡ request_text r rest
request_text-rest r rest =
    let inner : fields_text r.header_fields (r.body ++ []) ++ rest
        ≡ fields_text r.header_fields (r.body ++ rest) =
      fields_text-append r.header_fields (r.body ++ []) rest
      ∙ ap (fields_text r.header_fields) (append_assoc r.body [] rest) in
    simp (append_assoc, inner)

module _ (lexical_cast : Bytes → Option ℕ) (regex_match : Bytes → Option UrlMatch)
    (host_match : Bytes → Option Bytes) (to_text : ℕ → Bytes) (asserts : Bool) (peers : ℕ → Peer)
    (cast : Bytes → Option ℕ) (accepted : ℕ) where
  -- The header fields that are sent with a request.
  abbrev pub fields_of : Prepared → List Spin.Header
  fields_of p = map to_spin (sent lexical_cast regex_match host_match to_text p.request p.url)

  -- The request as the server sees it, on its connection `accepted`.
  abbrev pub seen : Prepared → Spin.Request
  seen p =
      received accepted p.request p.url
        (sent lexical_cast regex_match host_match to_text p.request p.url)

  -- A request to the server of the first one, of the form that `on_data_ready-serialize` asks for.
  pub record IsSendable (first : ParsedUrl) (p : Prepared) : Type 0 where
    pub parsed : parse_url lexical_cast regex_match p.request.url ≡ ok p.url
    pub server : str_eq p.url.server first.server ≡ true
    pub port : (p.url.port == first.port) ≡ true
    pub word : IsWord p.url.resource
    pub unsized : has_header content_length p.request.header_fields ≡ false
    pub fields : All IsField (fields_of p)
    pub inverse : cast (to_text (length p.request.body)) ≡ some (length p.request.body)
    pub starts : Starts p.request.body

  abbrev pub text_of : Prepared → Bytes
  text_of p = request_text (seen p) []

  -- The connection takes each request as a whole.
  abbrev pub TakesAll : ℕ → List Prepared → Type 0
  TakesAll k [] = Unit {0}
  TakesAll k (p ∷ ps) =
      (((peers k).takes (length ps)).result ≡ moved (length (text_of p))) × TakesAll k ps

  abbrev pub writes : Cached → List Request → List Bytes × Result (Unit {0})
  writes = write_requests lexical_cast regex_match host_match to_text asserts peers

  pub length-requests_of : (ps : List Prepared) → length (requests_of ps) ≡ length ps
  length-requests_of [] = refl
  length-requests_of (p ∷ ps) = ap suc (length-requests_of ps)

  pub write_requests_whole :
      (first : ParsedUrl) (c : Cached) (ps : List Prepared)
      → c.usable ≡ true
      → All (IsSendable first) ps
      → TakesAll c.connection ps
      → writes c (requests_of ps) ≡ (map text_of ps, ok tt)
  unfolding write_requests
  write_requests_whole first c [] u h t = refl
  write_requests_whole first c (p ∷ ps) u (h, hs) (t, ts) =
      let answer = (peers c.connection).takes (length ps) in
      let text =
        serialize-request_text lexical_cast regex_match host_match to_text accepted p.request p.url
          h.parsed in
      let (r, wrote) = write_taken c (text_of p) answer u t in
      let rest = write_requests_whole first c ps u hs ts in
      let count = length-requests_of ps in
      let whole : taken answer.result (text_of p) ≡ text_of p =
        ap (λ r. taken r (text_of p)) t ∙ take-length (text_of p) in
      let took = ap (λ n. taken ((peers c.connection).takes n).result (text_of p)) count ∙ whole in
      rw (text, count, wrote, rest, write_requests) (ap (λ b. (b ∷ map text_of ps, ok tt)) took)

  validate_urls_fit :
      (first : ParsedUrl) (ps : List Prepared)
      → All (IsSendable first) ps
      → validate_urls lexical_cast regex_match host_match to_text asserts peers first.server
          first.port
          (requests_of ps)
        ≡ ok true
  unfolding validate_urls
  validate_urls_fit first [] h = refl
  validate_urls_fit first (p ∷ ps) (h, hs) =
      rw (h.parsed, h.server, h.port, validate_urls) (validate_urls_fit first ps hs)

  pub checked_fit :
      (first : ParsedUrl) (ps : List Prepared)
      → All (IsSendable first) ps
      → checked lexical_cast regex_match host_match to_text asserts peers first (requests_of ps)
        ≡ ok true
  unfolding checked
  checked_fit first ps h = elim (Bool-cases asserts) [
    | inl y ↦ rw y (validate_urls_fit first ps h)
    | inr n ↦ rw n refl
  ]

  pub join-text_of :
      (ps : List Prepared) → join (map text_of ps) ≡ requests_text cast accepted (map seen ps)
  join-text_of [] = refl
  join-text_of (p ∷ ps) =
      ap (text_of p ++◌) (join-text_of ps)
      ∙ request_text-rest (seen p) (requests_text cast accepted (map seen ps))
