-- ===== src/Spin/DataHandler/Wire.antt =====
-- Requests as they stand on the wire, and onDataReady on a sequence of them.
use arachnida.Base.{
  ℕ, zero, suc, ◌+◌, ◌≤◌, ◌<◌, true, false, List, [], ◌∷◌, ◌++◌, append_assoc, append-nil, Option,
  none, some, Bytes, codes, length, length-append, take-append, drop-append, All, ◌≡◌, refl, ap,
  ◌∙◌, arith, ok, if◌then◌else◌,
}
use arachnida.Acari.ParsingHelpers.{at_end, is_supported_protocol}
use arachnida.Acari.ParsingHelpers.RequestLine.{IsWord, extract_request_header-line, word_starts}
use arachnida.Spin.DataHandler.Fields.{
  fields_text, IsField, Starts, got, read_headers-fields, length-fields_text, fields_follow,
}
use arachnida.Spin.DataHandler.Words.{is_supported_method-IsWord, is_supported_protocol-IsWord}
use arachnida.Spin.Message.{Request, make_request}
use arachnida.Spin.DataHandler.{
  is_supported_method, Pending, parse_new, restore, get_request, read_headers_of, find_header,
  take_body, header_stage, read_request, rounds, leftover, finished, on_data_ready,
}

-- The text of a request, with what follows it.
abbrev pub request_text : Request → Bytes → Bytes
request_text r rest =
    r.method
    ++ (b' '
        ∷ (r.url
            ++ (b' ' ∷ (r.protocol_and_version ++ fields_text r.header_fields (r.body ++ rest)))))

word_more : (w s : Bytes) → IsWord w → at_end (w ++ s) ≡ false
unfolding at_end
word_more [] s h = absurd (h.ne_nil refl)
word_more (c ∷ w) s h = refl

-- What `Content-Length` tells: the length of the body, or that there is none.
abbrev pub Declares : (Bytes → Option ℕ) → Option Bytes → Bytes → Type 0
Declares cast none body = body ≡ []
Declares cast (some value) body = cast value ≡ some (length body)

-- A request on connection `connection` that its text tells apart from what follows.
module _ (cast : Bytes → Option ℕ) (connection : ℕ) where
  pub record IsWire (r : Request) : Type 0 where
    pub from : r.connection ≡ connection
    pub method : is_supported_method r.method ≡ true
    pub url : IsWord r.url
    pub protocol : is_supported_protocol r.protocol_and_version ≡ true
    pub fields : All IsField r.header_fields
    pub length : Declares cast (find_header (codes "Content-Length") r.header_fields) r.body
    pub body : Starts r.body

  abbrev bodiless : Request → Request
  bodiless r = record r { body = [] }

  get_request-wire :
      (r : Request) (rest : Bytes)
      → IsWire r
      → get_request connection none (request_text r rest)
        ≡ ok (record {
          request = some (record r { header_fields = []; body = [] });
          rest = fields_text r.header_fields (r.body ++ rest);
          end_of_headers_found = false;
        })
  unfolding get_request parse_new
  get_request-wire r rest w =
      let behind = fields_text r.header_fields (r.body ++ rest) in
      rw
        (extract_request_header-line (make_request connection) is_supported_method r.method r.url
          r.protocol_and_version behind (is_supported_method-IsWord r.method w.method) w.url
          (is_supported_protocol-IsWord r.protocol_and_version w.protocol)
          (fields_follow r.header_fields (r.body ++ rest)) w.method w.protocol)
        (ground (arith, w.from))

  -- The two loops read a request, and stop at its body.
  read_request-wire :
      (r : Request) (rest : Bytes)
      → IsWire r
      → Starts (r.body ++ rest)
      → read_request connection none (request_text r rest) ≡ ok (got (bodiless r) (r.body ++ rest))
  unfolding read_request header_stage read_headers_of
  read_request-wire r rest w h =
      let behind = fields_text r.header_fields (r.body ++ rest) in
      rw (get_request-wire r rest w) (
        read_headers-fields r.header_fields (suc (length behind))
          (record r { header_fields = []; body = [] }) (r.body ++ rest) w.fields h
          (omega (arith, length-fields_text r.header_fields (r.body ++ rest))))

  take_body-wire :
      (r : Request) (rest : Bytes) (value : Option Bytes)
      → Declares cast value r.body
      → take_body cast (bodiless r) (r.body ++ rest) value ≡ ok (some (r, rest))
  unfolding take_body
  take_body-wire r rest none h = ground (arith, h)
  take_body-wire r rest (some v) h =
      ground (arith, h, take-append r.body rest, drop-append r.body rest, length-append r.body rest)

  -- The texts of several requests, one behind the other.
  abbrev pub requests_text : List Request → Bytes
  requests_text [] = []
  requests_text (r ∷ rs) = request_text r (requests_text rs)

  requests_text-Starts : (rs : List Request) → All IsWire rs → Starts (requests_text rs)
  requests_text-Starts [] h = tt
  requests_text-Starts (r ∷ rs) (w, h) =
      word_starts r.method _ (is_supported_method-IsWord r.method w.method)

  Starts-append : (a b : Bytes) → Starts a → Starts b → Starts (a ++ b)
  Starts-append [] b ha hb = hb
  Starts-append (c ∷ a) b ha hb = ha

  get_request-leftover :
      (s : Bytes)
      → at_end s ≡ false
      → get_request connection (some (leftover s)) [] ≡ get_request connection none s
  unfolding get_request
  get_request-leftover s h =
      ap (restore connection none false) (append-nil s) ∙ (unfold restore in ground arith)

  read_request-leftover :
      (s : Bytes)
      → at_end s ≡ false
      → read_request connection (some (leftover s)) [] ≡ read_request connection none s
  unfolding read_request
  read_request-leftover s h = rw (get_request-leftover s h)

  -- A round that completes a request, from what its calls return.
  rounds_round :
      (fuel : ℕ) (attribute : Option Pending) (buffer s rest : Bytes) (handled : List Request)
      (r q : Request)
      → read_request connection attribute buffer ≡ ok (got r s)
      → take_body cast r s (find_header (codes "Content-Length") r.header_fields)
        ≡ ok (some (q, rest))
      → rounds cast connection (suc fuel) attribute buffer handled ≡ (
          if at_end rest
          then finished (handled ++ q ∷ [])
          else rounds cast connection fuel (some (leftover rest)) [] (handled ++ q ∷ []))
  rounds_round fuel attribute buffer s rest handled r q e1 e2 = unfold rounds in ground arith

  pub request_text-more :
      (r : Request) (rest : Bytes) → IsWire r → at_end (request_text r rest) ≡ false
  request_text-more r rest w = word_more r.method _ (is_supported_method-IsWord r.method w.method)

  rounds_wire_round :
      (fuel : ℕ) (r : Request) (rs handled : List Request) (attribute : Option Pending)
      (buffer : Bytes)
      → IsWire r
      → All IsWire rs
      → read_request connection attribute buffer
        ≡ read_request connection none (requests_text (r ∷ rs))
      → rounds cast connection (suc fuel) attribute buffer handled ≡ (
          if at_end (requests_text rs)
          then finished (handled ++ r ∷ [])
          else rounds cast connection fuel
              (some (leftover (requests_text rs)))
              []
              (handled ++ r ∷ []))
  rounds_wire_round fuel r rs handled attribute buffer w ws same =
      let rest = requests_text rs in
      let starts = Starts-append r.body rest w.body (requests_text-Starts rs ws) in
      rounds_round fuel attribute buffer (r.body ++ rest) rest handled (bodiless r) r
        (same ∙ read_request-wire r rest w starts)
        (take_body-wire r rest (find_header (codes "Content-Length") r.header_fields) w.length)

  rounds-wire :
      (fuel : ℕ) (r : Request) (rs handled : List Request) (attribute : Option Pending)
      (buffer : Bytes)
      → IsWire r
      → All IsWire rs
      → length rs < fuel
      → read_request connection attribute buffer
        ≡ read_request connection none (requests_text (r ∷ rs))
      → rounds cast connection fuel attribute buffer handled ≡ finished (handled ++ r ∷ rs)
  rounds-wire zero r rs handled attribute buffer w ws lt same = absurd (omega arith)
  rounds-wire (suc fuel) r [] handled attribute buffer w ws lt same =
      rounds_wire_round fuel r [] handled attribute buffer w tt same ∙ (unfold at_end in refl)
  rounds-wire (suc fuel) r (q ∷ qs) handled attribute buffer w (v, vs) lt same =
      let more = request_text-more q (requests_text qs) v in
      rounds_wire_round fuel r (q ∷ qs) handled attribute buffer w (v, vs) same
      ∙ rw more (
          rounds-wire fuel q qs (handled ++ r ∷ []) (some (leftover (requests_text (q ∷ qs)))) [] v
            vs (omega arith) (read_request-leftover (requests_text (q ∷ qs)) more))
      ∙ ap finished (append_assoc handled (r ∷ []) (q ∷ qs))

  length-requests_text : (rs : List Request) → All IsWire rs → length rs ≤ length (requests_text rs)
  length-requests_text [] h = omega arith
  length-requests_text (r ∷ rs) (w, h) = omega (
    arith,
    length-requests_text rs h,
    length-append {0} {A = ℕ},
    length-fields_text r.header_fields (r.body ++ requests_text rs),
  )

  -- One or more requests that arrive whole, one behind the other, are all handled: in order, each with
  -- its method, URL, protocol, header fields and body as sent, and nothing is left over. Each has a
  -- supported method and protocol, a URL without white space, header fields of the form that a header may
  -- have, a `Content-Length` that is the length of its body, or none and no body, and a body that does not
  -- start with white space.
  pub on_data_ready-requests_text :
      (r : Request) (rs : List Request)
      → IsWire r
      → All IsWire rs
      → on_data_ready cast connection none (requests_text (r ∷ rs)) ≡ finished (r ∷ rs)
  unfolding on_data_ready
  on_data_ready-requests_text r rs w ws =
      rounds-wire (suc (suc (0 + length (requests_text (r ∷ rs))))) r rs [] none
        (requests_text (r ∷ rs)) w ws (omega (arith, length-requests_text (r ∷ rs) (w, ws))) refl
