-- ===== src/Damon/Serialize/RoundTrip.antt =====
-- A request that the client serializes is the request that the server handles.
use mathlib.Core.List.{map}
use arachnida.Base.{
  ℕ, true, false, [], ◌∷◌, ◌++◌, append_assoc, append-nil, Option, none, some, Bytes, codes, length,
  All, ◌≡◌, refl, ap, ◌∙◌, arith, ok, ◌>>=◌, str_eq,
}
use arachnida.Acari.ParsingHelpers.{is_supported_protocol}
use arachnida.Acari.ParsingHelpers.RequestLine.{IsWord}
use arachnida.Acari.ParsingHelpers.HeaderLine.{header_line}
use arachnida.Damon.Message.{
  Header, HeaderFields, Method, options, get, head, post, put, delete, trace, connect,
  AuthorizationMethod, Request,
}
use arachnida.Damon.Url.{UrlMatch, ParsedUrl, parse_url, extract_host}
use arachnida.Damon.Serialize.{
  method_name, has_header, add_if_missing, add_authorization, append_headers, complete_fields,
  serialize,
}
use arachnida.Spin.DataHandler.{is_supported_method, find_header, on_data_ready, finished}
use arachnida.Spin.DataHandler.Fields.{fields_text, IsField, Starts}
use arachnida.Spin.DataHandler.Wire.{IsWire, request_text, on_data_ready-requests_text}
use arachnida.Spin.Message as Spin

abbrev pub to_spin : Header → Spin.Header
to_spin h = record { name = h.name; value = h.value }

-- The request that the server makes of it.
abbrev pub received : ℕ → Request → ParsedUrl → HeaderFields → Spin.Request
received connection r u hs = record {
  connection = connection;
  method = method_name r.method;
  url = u.resource;
  protocol_and_version = codes "HTTP/1.1";
  header_fields = map to_spin hs;
  body = r.body;
}

append_headers-fields_text :
    (hs : HeaderFields) (text body : Bytes)
    → (append_headers (text ++ codes "\r\n") hs ++ codes "\r\n") ++ body
      ≡ text ++ fields_text (map to_spin hs) body
unfolding append_headers
append_headers-fields_text [] text body = simp append_assoc
append_headers-fields_text (h ∷ hs) text body =
    let line = header_line h.name h.value in
    let next = text ++ (codes "\r\n" ++ line) in
    let regroup : (text ++ codes "\r\n") ++ (h.name ++ (codes ": " ++ (h.value ++ codes "\r\n")))
        ≡ next ++ codes "\r\n" =
      simp append_assoc in
    ap (λ t. (append_headers t hs ++ codes "\r\n") ++ body) regroup
    ∙ append_headers-fields_text hs next body
    ∙ append_assoc text (codes "\r\n" ++ line) (fields_text (map to_spin hs) body)

method_name-supported : (m : Method) → is_supported_method (method_name m) ≡ true
unfolding is_supported_method method_name
method_name-supported options = refl
method_name-supported get = refl
method_name-supported head = refl
method_name-supported post = refl
method_name-supported put = refl
method_name-supported delete = refl
method_name-supported trace = refl
method_name-supported connect = refl

abbrev pub content_length : Bytes
content_length = codes "Content-Length"

abbrev sized : Bytes → HeaderFields
sized value = record { name = content_length; value = value } ∷ []

find_header-sized :
    (hs more : HeaderFields) (value : Bytes)
    → has_header content_length hs ≡ false
    → find_header content_length (map to_spin ((hs ++ sized value) ++ more)) ≡ some value
unfolding find_header has_header
find_header-sized [] more value h = refl
find_header-sized (x ∷ hs) more value h = ground (arith, find_header-sized hs more value)

has_header-append :
    (name : Bytes) (hs : HeaderFields) (h : Header)
    → has_header name hs ≡ false
    → str_eq h.name name ≡ false
    → has_header name (hs ++ h ∷ []) ≡ false
unfolding has_header
has_header-append name [] h e ne = rw ne
has_header-append name (x ∷ hs) h e ne = ground (arith, has_header-append name hs h)

has_header-hosted :
    (hs : HeaderFields) (value : Bytes)
    → has_header content_length hs ≡ false
    → has_header content_length (add_if_missing (codes "Host") value hs) ≡ false
has_header-hosted hs value h =
    let host : Header = record { name = codes "Host"; value = value } in
    let other = has_header-append content_length hs host h (unfold str_eq in refl) in
    unfold add_if_missing in ground (arith, h, other)

add_if_missing-sized :
    (hs : HeaderFields) (value : Bytes)
    → has_header content_length hs ≡ false
    → add_if_missing content_length value hs ≡ hs ++ sized value
add_if_missing-sized hs value h = unfold add_if_missing in rw h

add_authorization-append :
    (a : AuthorizationMethod) (u : ParsedUrl) (hs : HeaderFields)
    → add_authorization a u hs ≡ hs ++ add_authorization a u []
unfolding add_authorization
add_authorization-append a u hs = ground (arith, append-nil hs)

module _ (lexical_cast : Bytes → Option ℕ) (regex_match : Bytes → Option UrlMatch)
    (host_match : Bytes → Option Bytes) (to_text : ℕ → Bytes) where
  abbrev pub sent : Request → ParsedUrl → HeaderFields
  sent = complete_fields lexical_cast regex_match host_match to_text

  sent-parts :
      (r : Request) (u : ParsedUrl)
      → sent r u
        ≡ add_authorization r.auth_method u (
            add_if_missing content_length
              (to_text (length r.body))
              (add_if_missing (codes "Host") (extract_host host_match r.url) r.header_fields))
  unfolding complete_fields
  sent-parts r u = refl

  find_header-sent :
      (r : Request) (u : ParsedUrl)
      → has_header content_length r.header_fields ≡ false
      → find_header content_length (map to_spin (sent r u)) ≡ some (to_text (length r.body))
  find_header-sent r u h =
      let hosted = add_if_missing (codes "Host") (extract_host host_match r.url) r.header_fields in
      let value = to_text (length r.body) in
      let none_yet = has_header-hosted r.header_fields (extract_host host_match r.url) h in
      ap (λ (hs : HeaderFields). find_header content_length (map to_spin hs))
        (sent-parts r u
          ∙ ap (add_authorization r.auth_method u) (add_if_missing-sized hosted value none_yet)
          ∙ add_authorization-append r.auth_method u (hosted ++ sized value))
      ∙ find_header-sized hosted (add_authorization r.auth_method u []) value none_yet

  serialize_lem :
      (r : Request)
      → serialize lexical_cast regex_match host_match to_text r ≡ (
          parse_url lexical_cast regex_match r.url >>= λ u. ok (
            (append_headers
                ((method_name r.method ++ codes " ") ++ (u.resource ++ codes " HTTP/1.1\r\n"))
                (sent r u)
              ++ codes "\r\n")
            ++ r.body))
  unfolding serialize
  serialize_lem r = refl

  pub serialize-request_text :
      (connection : ℕ) (r : Request) (u : ParsedUrl)
      → parse_url lexical_cast regex_match r.url ≡ ok u
      → serialize lexical_cast regex_match host_match to_text r
        ≡ ok (request_text (received connection r u (sent r u)) [])
  serialize-request_text connection r u parsed =
      let text = (method_name r.method ++ codes " ") ++ (u.resource ++ codes " HTTP/1.1") in
      let regroup : (method_name r.method ++ codes " ") ++ (u.resource ++ codes " HTTP/1.1\r\n")
          ≡ text ++ codes "\r\n" =
        simp append_assoc in
      serialize_lem r
      ∙ rw parsed (
          ap (λ (t : Bytes). ok ((append_headers t (sent r u) ++ codes "\r\n") ++ r.body)) regroup
          ∙ ap ok (append_headers-fields_text (sent r u) text r.body)
          ∙ ap ok (simp (append_assoc, append-nil)))

  -- What the client sends is of the form that the server's data handler reads.
  pub sent-IsWire :
      (cast : Bytes → Option ℕ) (connection : ℕ) (r : Request) (u : ParsedUrl)
      → IsWord u.resource
      → has_header content_length r.header_fields ≡ false
      → All IsField (map to_spin (sent r u))
      → cast (to_text (length r.body)) ≡ some (length r.body)
      → Starts r.body
      → IsWire cast connection (received connection r u (sent r u))
  sent-IsWire cast connection r u word unsized fields inverse starts = record {
    from = refl;
    method = method_name-supported r.method;
    url = word;
    protocol = unfold is_supported_protocol in refl;
    fields = fields;
    length = rw (find_header-sent r u unsized) inverse;
    body = starts;
  }

  -- One server: a request that the client serializes is handled as it was meant. It arrives whole on
  -- connection `connection`, with the method, the resource of its URL, the header fields that
  -- `serialize` completes, and the body. The request has no `Content-Length` of its own, the header
  -- fields that are sent are of the form that a header may have, the resource has no white space, and
  -- the body does not start with white space. The casts of boost invert each other at the body's size.
  pub on_data_ready-serialize :
      (cast : Bytes → Option ℕ) (connection : ℕ) (r : Request) (u : ParsedUrl)
      → parse_url lexical_cast regex_match r.url ≡ ok u
      → IsWord u.resource
      → has_header content_length r.header_fields ≡ false
      → All IsField (map to_spin (sent r u))
      → cast (to_text (length r.body)) ≡ some (length r.body)
      → Starts r.body
      → (text : Bytes) × (serialize lexical_cast regex_match host_match to_text r ≡ ok text)
        × (on_data_ready cast connection none text
            ≡ finished (received connection r u (sent r u) ∷ []))
  on_data_ready-serialize cast connection r u parsed word unsized fields inverse starts =
      let request = received connection r u (sent r u) in
      (
        request_text request [],
        serialize-request_text connection r u parsed,
        on_data_ready-requests_text cast connection request []
            (sent-IsWire cast connection r u word unsized fields inverse starts) tt,
      )
