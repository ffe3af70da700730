-- ===== src/Damon/Reception/Served.antt =====
-- `getResponse` of lib/Damon/Request.cpp on the responses that lib/Spin/Details/Response.cpp writes.
use mathlib.Core.List.{map}
use arachnida.Base.{
  ℕ, suc, true, false, List, [], ◌∷◌, ◌++◌, append_assoc, Option, some, Bytes, codes, All, ◌≡◌,
  refl, sym, ap, ◌∙◌, Result, ok, length,
}
use mathlib.Core.Path.{subst}
use arachnida.Acari.ParsingHelpers.{is_supported_protocol}
use arachnida.Acari.ParsingHelpers.RequestLine.{IsWord}
use arachnida.Acari.ParsingHelpers.HeaderLine.{header_line}
use arachnida.Damon.Message.{Response}
use arachnida.Damon.Reading.{find_header}
use arachnida.Damon.Reception.{no_attribute, get_responses}
use arachnida.Damon.Reception.Loops.{to_spin, of_spin}
use arachnida.Damon.Reception.Fields.{response_text, IsWire}
use arachnida.Damon.Reception.Whole.{
  Delivers, responses_text, AllWire, all_replied, get_responses-responses_text,
}
use arachnida.Spin.Connection.{ReadResult}
use arachnida.Spin.DataHandler as Server
use arachnida.Spin.DataHandler.Fields.{fields_text, IsField, Starts, crlf}
use arachnida.Spin.DataHandler.Wire.{Declares}
use arachnida.Spin.Message as Spin
use arachnida.Spin.Response as Served
use arachnida.Spin.Response.StatusLine.{IsReason, serialize-line}

map-to_spin-of_spin : (hs : List Spin.Header) → map to_spin (map of_spin hs) ≡ hs
map-to_spin-of_spin [] = refl
map-to_spin-of_spin (h ∷ hs) = rw (map-to_spin-of_spin hs)

find_header-of_spin :
    (name : Bytes) (hs : List Spin.Header)
    → find_header name (map of_spin hs) ≡ Server.find_header name hs
unfolding find_header Server.find_header
find_header-of_spin name [] = refl
find_header-of_spin name (h ∷ hs) = rw (find_header-of_spin name hs)

pub fields_text-append :
    (hs : List Spin.Header) (s rest : Bytes) → fields_text hs s ++ rest ≡ fields_text hs (s ++ rest)
fields_text-append [] s rest = refl
fields_text-append (h ∷ hs) s rest = ap (crlf ++◌) (
    append_assoc (header_line h.name h.value) (fields_text hs s) rest
    ∙ ap (header_line h.name h.value ++◌) (fields_text-append hs s rest))

module _ (to_text : ℕ → Bytes) (cast_code cast_size : Bytes → Option ℕ) where
  -- The response that the client makes of the one that the server writes.
  abbrev pub received : Served.Response → Response
  received s = record {
    protocol_and_version = s.protocol_and_version;
    status_code = s.status_code;
    reason_string = s.reason_string;
    header_fields = map of_spin (Served.complete_fields to_text s);
    body = s.body;
  }

  -- What the server writes, one response behind the other.
  abbrev pub written : List Served.Response → Bytes
  written [] = []
  written (s ∷ ss) = Served.serialize to_text s ++ written ss

  -- A response of the server that its text tells apart from what follows.
  pub record IsServed (s : Served.Response) : Type 0 where
    pub protocol : is_supported_protocol s.protocol_and_version ≡ true
    pub code : IsWord (to_text s.status_code)
    pub inverse : cast_code (to_text s.status_code) ≡ some s.status_code
    pub reason : IsReason s.reason_string
    pub fields : All IsField (Served.complete_fields to_text s)
    pub length :
        Declares cast_size
          (Server.find_header (codes "Content-Length") (Served.complete_fields to_text s))
          s.body
    pub body : Starts s.body

  received-IsWire :
      (s : Served.Response) → IsServed s → IsWire to_text cast_code cast_size (received s)
  received-IsWire s h =
      let hs = Served.complete_fields to_text s in
      record {
        status = record {
          protocol = h.protocol;
          code = h.code;
          inverse = h.inverse;
          reason = h.reason;
        };
        fields = subst (All IsField) (sym (map-to_spin-of_spin hs)) h.fields;
        length =
            subst (λ (v : Option Bytes). Declares cast_size v s.body)
              (sym (find_header-of_spin (codes "Content-Length") hs)) h.length;
        body = h.body;
      }

  serialize-response_text :
      (s : Served.Response) (rest : Bytes)
      → Served.serialize to_text s ++ rest ≡ response_text to_text (received s) rest
  serialize-response_text s rest =
      let hs = Served.complete_fields to_text s in
      let front = λ (t : Bytes).
        s.protocol_and_version
        ++ (b' ' ∷ (to_text s.status_code ++ (b' ' ∷ (s.reason_string ++ t)))) in
      let regroup : front (fields_text hs s.body) ++ rest ≡ front (fields_text hs s.body ++ rest) =
        simp append_assoc in
      ap (◌++ rest) (serialize-line to_text cast_code (λ a b c. c) s)
      ∙ regroup
      ∙ ap front (fields_text-append hs s.body rest)
      ∙ ap (λ (fs : List Spin.Header). front (fields_text fs (s.body ++ rest)))
          (sym (map-to_spin-of_spin hs))

  written-responses_text :
      (ss : List Served.Response)
      → written ss ≡ responses_text to_text cast_code cast_size (map received ss)
  written-responses_text [] = refl
  written-responses_text (s ∷ ss) =
      ap (Served.serialize to_text s ++◌) (written-responses_text ss)
      ∙ serialize-response_text s (responses_text to_text cast_code cast_size (map received ss))

  received-AllWire :
      (ss : List Served.Response)
      → All IsServed ss
      → AllWire to_text cast_code cast_size (map received ss)
  received-AllWire [] h = tt
  received-AllWire (s ∷ ss) (h, hs) = (received-IsWire s h, received-AllWire ss hs)

  length-map : (ss : List Served.Response) → length (map received ss) ≡ length ss
  length-map [] = refl
  length-map (s ∷ ss) = ap suc (length-map ss)

  -- The responses that the server writes one behind the other are the ones that the client gets: one
  -- read brings them, and as many calls of `getResponse` return them in order, each with the protocol,
  -- the status code, the reason string and the body that the server gave it, and with its header
  -- fields, the length of the body among them. Nothing is left over. Each response is of the form
  -- `IsServed`, and no more bytes can be read meanwhile.
  pub get_responses-serialize :
      (fuel : ℕ) (s : Served.Response) (ss : List Served.Response) (d : ReadResult)
      (reads : List (Result ReadResult))
      → Delivers d (written (s ∷ ss))
      → IsServed s
      → All IsServed ss
      → get_responses cast_code cast_size
          (suc fuel)
          (suc (length ss))
          (λ i. false)
          no_attribute
          (ok d ∷ reads)
        ≡ all_replied to_text cast_code cast_size (map received (s ∷ ss)) reads
  get_responses-serialize fuel s ss d reads arrives h hs =
      let arrives_too : Delivers d
          (responses_text to_text cast_code cast_size (map received (s ∷ ss))) =
        record {
          reason = arrives.reason;
          bytes = arrives.bytes ∙ written-responses_text (s ∷ ss);
        } in
      ap
        (λ (n : ℕ).
          get_responses cast_code cast_size (suc fuel) (suc n) (λ i. false) no_attribute
            (ok d ∷ reads))
        (sym (length-map ss))
      ∙ get_responses-responses_text to_text cast_code cast_size fuel (received s) (map received ss)
          d reads arrives_too (received-AllWire (s ∷ ss) (h, hs))
