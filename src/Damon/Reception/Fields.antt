-- ===== src/Damon/Reception/Fields.antt =====
-- `getResponse` of lib/Damon/Request.cpp on a response whose text is all in the buffer.
use mathlib.Core.List.{map}
use arachnida.Base.{
  zero, ℕ, suc, ◌<◌, Bool, true, false, List, [], ◌∷◌, ◌++◌, Option, none, some, Bytes, codes,
  length, length-append, take-append, drop-append, All, ◌≡◌, refl, ap, ◌∙◌, arith, Result, ok,
  throw,
}
use arachnida.Acari.ParsingHelpers.{at_end, is_in_line, is_supported_protocol}
use arachnida.Acari.ParsingHelpers.RequestLine.{IsWord}
use arachnida.Acari.ParsingHelpers.Spans.{Stops}
use arachnida.Damon.Message.{HeaderFields, Response}
use arachnida.Damon.Reading.{make_response, Progress, read_headers, read_headers_of, find_header}
use arachnida.Damon.Reception.{
  Attribute, no_attribute, Reply, replies, leftover, parse_new, take_body, finish, go_on,
}
use arachnida.Damon.Reception.Loops.{to_spin, of_spin, seen, seen_of, as_client, read_headers_same}
use arachnida.Spin.Connection.{ReadResult}
use arachnida.Spin.DataHandler.Fields.{
  fields_text, IsField, Starts, read_headers-fields, length-fields_text,
}
use arachnida.Spin.DataHandler.Wire.{Declares}
use arachnida.Spin.DataHandler.Words.{is_supported_protocol-IsWord}
use arachnida.Spin.Message as Spin
use arachnida.Spin.Response.StatusLine.{IsReason, extract_response_header-line, fields_stop}

pub map-of_spin-to_spin : (hs : HeaderFields) → map of_spin (map to_spin hs) ≡ hs
map-of_spin-to_spin [] = refl
map-of_spin-to_spin (h ∷ hs) = rw (map-of_spin-to_spin hs)

-- A request without header fields.
abbrev pub blank : Spin.Request
blank = Spin.make_request 0 [] [] []

-- The second loop reads header fields of the form `name: value`.
seen_of-read_headers :
    (fuel : ℕ) (r : Response) (hs : HeaderFields) (rest : Bytes)
    → r.header_fields ≡ []
    → All IsField (map to_spin hs)
    → Starts rest
    → length (map to_spin hs) < fuel
    → seen_of (read_headers fuel r (fields_text (map to_spin hs) rest) false)
      ≡ ok (some (record r { header_fields = hs }), (rest, true))
seen_of-read_headers fuel r hs rest none_yet fields starts enough =
    ap
      (λ (t : HeaderFields). seen_of (
        read_headers fuel (record r { header_fields = t }) (fields_text (map to_spin hs) rest)
          false))
      none_yet
    ∙ read_headers_same fuel r blank (fields_text (map to_spin hs) rest) false
    ∙ ap (as_client r) (read_headers-fields (map to_spin hs) fuel blank rest fields starts enough)
    ∙ ap (λ (t : HeaderFields). ok (some (record r { header_fields = t }), (rest, true)))
        (map-of_spin-to_spin hs)

-- What a loop that was seen to give this gives.
pub seen_of-ok :
    (m : Result Progress) (x : Option Response × (Bytes × Bool))
    → seen_of m ≡ ok x
    → (p : Progress) × (m ≡ ok p) × (seen p ≡ x)
seen_of-ok (throw e) x h = ground arith
seen_of-ok (ok p) x h = (p, refl, cc)

-- The status line of a response, with what follows it.
abbrev pub status_text : (ℕ → Bytes) → Response → Bytes → Bytes
status_text to_text r rest =
    r.protocol_and_version ++ (b' ' ∷ (to_text r.status_code ++ (b' ' ∷ (r.reason_string ++ rest))))

-- The text of a response up to its body, and of all of it, with what follows.
abbrev pub head_text : (ℕ → Bytes) → Response → Bytes → Bytes
head_text to_text r rest = status_text to_text r (fields_text (map to_spin r.header_fields) rest)

abbrev pub response_text : (ℕ → Bytes) → Response → Bytes → Bytes
response_text to_text r rest = head_text to_text r (r.body ++ rest)

module _ (to_text : ℕ → Bytes) (cast_code cast_size : Bytes → Option ℕ) where
  -- A status line that the client reads.
  pub record IsStatus (r : Response) : Type 0 where
    pub protocol : is_supported_protocol r.protocol_and_version ≡ true
    pub code : IsWord (to_text r.status_code)
    pub inverse : cast_code (to_text r.status_code) ≡ some r.status_code
    pub reason : IsReason r.reason_string

  -- A response that its text tells apart from what follows.
  pub record IsWire (r : Response) : Type 0 where
    pub status : IsStatus r
    pub fields : All IsField (map to_spin r.header_fields)
    pub length : Declares cast_size (find_header (codes "Content-Length") r.header_fields) r.body
    pub body : Starts r.body

  abbrev pub bare : Response → Response
  bare r = make_response r.protocol_and_version r.status_code r.reason_string

  pub parse_new-status_text :
      (r : Response) (rest : Bytes)
      → IsStatus r
      → at_end rest ≡ false
      → Stops is_in_line rest
      → parse_new cast_code cast_size (status_text to_text r rest) false false
        ≡ ok (record {
          response = some (bare r);
          rest = rest;
          end_of_headers_found = false;
          end_of_buffer_found = false;
        })
  unfolding parse_new
  parse_new-status_text r rest w more stop = rw (
      extract_response_header-line to_text cast_code make_response r.protocol_and_version
        (to_text r.status_code) r.reason_string rest r.status_code
        (is_supported_protocol-IsWord r.protocol_and_version w.protocol) w.code w.reason w.protocol
        w.inverse more stop)

  -- The second loop does not find the end of the headers and that of the buffer.
  read_headers-flags :
      (fuel : ℕ) (r : Response) (s : Bytes) (q : Progress)
      → read_headers fuel r s false ≡ ok q
      → q.end_of_headers_found ≡ true
      → q.end_of_buffer_found ≡ false
  unfolding read_headers
  read_headers-flags zero r s q e f = cc
  read_headers-flags (suc fuel) r s q e f = grind (arith, read_headers-flags fuel)

  -- Where the second loop finds the end of the headers, the call ends.
  go_on-finish :
      (retry : Attribute → List (Result ReadResult) → Reply) (p q : Progress) (x : Response)
      (s : Bytes) (a : Attribute) (reads : List (Result ReadResult))
      → read_headers_of p.response p ≡ ok q
      → seen q ≡ (some x, (s, true))
      → q.end_of_buffer_found ≡ false
      → go_on cast_code cast_size retry (some (ok p)) a reads
        ≡ finish cast_code cast_size (some x) s false reads
  unfolding go_on
  go_on-finish retry p q x s a reads e same flag = ground arith

  take_body-wire :
      (r : Response) (rest : Bytes) (value : Option Bytes) (reads : List (Result ReadResult))
      → Declares cast_size value r.body
      → take_body cast_code cast_size (record r { body = [] }) (r.body ++ rest) false value reads
        ≡ replies (leftover rest false) reads r
  unfolding take_body
  take_body-wire r rest none reads h = ground (arith, h)
  take_body-wire r rest (some v) reads h =
      ground (arith, h, take-append r.body rest, drop-append r.body rest, length-append r.body rest)

  -- A call that has the text of a response up to its body in its buffer.
  pub go_on-head_text :
      (retry : Attribute → List (Result ReadResult) → Reply) (r : Response) (rest : Bytes)
      (reads : List (Result ReadResult))
      → IsStatus r
      → All IsField (map to_spin r.header_fields)
      → Starts rest
      → go_on cast_code cast_size retry
          (some (parse_new cast_code cast_size (head_text to_text r rest) false false))
          no_attribute
          reads
        ≡ finish cast_code cast_size (some (record r { body = [] })) rest false reads
  go_on-head_text retry r rest reads status fields starts =
      let behind = fields_text (map to_spin r.header_fields) rest in
      let stops = fields_stop to_text cast_code make_response (map to_spin r.header_fields) rest in
      let (q, read, same) =
        seen_of-ok (read_headers (suc (length behind)) (bare r) behind false)
          (some (record r { body = [] }), (rest, true))
          (seen_of-read_headers (suc (length behind)) (bare r) r.header_fields rest refl fields
            starts (omega (arith, length-fields_text (map to_spin r.header_fields) rest))) in
      rw (parse_new-status_text r behind status stops.0 stops.1) (
        go_on-finish retry
          (record {
            response = some (bare r);
            rest = behind;
            end_of_headers_found = false;
            end_of_buffer_found = false;
          })
          q (record r { body = [] }) rest no_attribute reads (unfold read_headers_of in read) same
          (read_headers-flags (suc (length behind)) (bare r) behind q read (ap (λ t. t.1.1) same)))

  -- A call that has the text of a response in its buffer returns the response.
  pub go_on-response_text :
      (retry : Attribute → List (Result ReadResult) → Reply) (r : Response) (rest : Bytes)
      (reads : List (Result ReadResult))
      → IsWire r
      → Starts (r.body ++ rest)
      → go_on cast_code cast_size retry
          (some (parse_new cast_code cast_size (response_text to_text r rest) false false))
          no_attribute
          reads
        ≡ replies (leftover rest false) reads r
  go_on-response_text retry r rest reads w starts =
      go_on-head_text retry r (r.body ++ rest) reads w.status w.fields starts
      ∙ (unfold finish in
          take_body-wire r rest (find_header (codes "Content-Length") r.header_fields) reads
            w.length)
