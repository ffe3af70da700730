-- ===== src/Damon/Tests/Reception.antt =====
-- `getResponse` of lib/Damon/Request.cpp at concrete inputs, and its theorems at such inputs.
use mathlib.Core.List.{map}
use arachnida.Base.{
  true, false, List, [], ◌∷◌, some, Bytes, codes, length, ◌≡◌, refl, arith, ok, bad_any_cast,
  runtime_error,
}
use arachnida.Base.Check.{all_hold, all_hold_sound}
use arachnida.Acari.ParsingHelpers.{
  is_ignorable_white_space, is_new_line, is_word, is_in_line, before_colon, chomp,
  is_supported_protocol, drop_while,
}
use arachnida.Acari.ParsingHelpers.RequestLine.{IsWord}
use arachnida.Damon.Message.{Header, Response}
use arachnida.Damon.Reading.{read_headers}
use arachnida.Damon.Reception.{no_attribute, three, replies, raises, get_response, get_responses}
use arachnida.Damon.Tests.{IsField-of}
use arachnida.Damon.Reception.Fields.{IsStatus, head_text, status_text}
use arachnida.Damon.Reception.Loops.{seen_of, with_fields_of, as_client, read_headers_same}
use arachnida.Damon.Reception.Served.{received, written, IsServed, get_responses-serialize}
use arachnida.Damon.Reception.Spinning.{Spins, get_response-Spins}
use arachnida.Damon.Reception.Truncated.{get_response_truncates, get_response_refuses}
use arachnida.Damon.Reception.Whole.{Delivers, all_replied}
use arachnida.Spin.Connection.{Answer, failure, ReadResult, reason_of, short_read}
use arachnida.Spin.DataHandler as Server
use arachnida.Spin.DataHandler.Fields.{IsField, Starts}
use arachnida.Spin.DataHandler.Fragment.{IsFragment, cut_text}
use arachnida.Spin.Message as Spin
use arachnida.Spin.Response as Served
use arachnida.Spin.Response.StatusLine.{IsReason}
use arachnida.Spin.Tests.Decimal.{read_decimal, three_digits}

abbrev pub answer : Bytes → Served.Response
answer body = record {
  protocol_and_version = codes "HTTP/1.1";
  status_code = 404;
  reason_string = codes "Not Found";
  header_fields = [];
  body = body;
}

abbrev sized : Bytes → Spin.Header
sized value = record { name = codes "Content-Length"; value = value }

abbrev pub bring : Bytes → ReadResult
bring text = record { buffer = text; bytes_read = length text; reason = 1 }

-- One read brings the two responses.
two_written :
    (get_response read_decimal read_decimal 1 false no_attribute (
      ok (
        bring
          (written three_digits read_decimal read_decimal (answer (codes "hi") ∷ answer [] ∷ [])))
      ∷ [])).result
    ≡ some (ok (received three_digits read_decimal read_decimal (answer (codes "hi"))))
unfolding get_response Served.serialize arachnida.Acari.ParsingHelpers.at_end
    arachnida.Acari.ParsingHelpers.extract_response_header drop_while is_ignorable_white_space
    is_new_line arachnida.Acari.ParsingHelpers.more_headers
    arachnida.Acari.ParsingHelpers.find_header_end arachnida.Acari.ParsingHelpers.split_header
two_written = refl

answer_status : IsWord (three_digits 404) × IsReason (codes "Not Found")
unfolding is_ignorable_white_space is_new_line all_hold
answer_status = (
  record { ne_nil = λ h. cc; words = all_hold_sound is_word (three_digits 404) refl },
  record {
    ne_nil = λ h. cc;
    in_line = all_hold_sound is_in_line (codes "Not Found") refl;
    starts = refl;
  },
)

sized_002 : IsField (sized (codes "002"))
unfolding is_ignorable_white_space is_new_line chomp all_hold drop_while
sized_002 = IsField-of (codes "Content-Length") (codes "002") (λ h. cc) refl refl refl refl

sized_000 : IsField (sized (codes "000"))
unfolding is_ignorable_white_space is_new_line chomp all_hold drop_while
sized_000 = IsField-of (codes "Content-Length") (codes "000") (λ h. cc) refl refl refl refl

hi-Starts : Starts (codes "hi") × Starts (codes "h")
unfolding is_ignorable_white_space
hi-Starts = (refl, refl)

pub hi-IsServed : IsServed three_digits read_decimal read_decimal (answer (codes "hi"))
unfolding is_supported_protocol Served.complete_fields Server.find_header
hi-IsServed = record {
  protocol = refl;
  code = answer_status.0;
  inverse = refl;
  reason = answer_status.1;
  fields = (sized_002, tt);
  length = refl;
  body = hi-Starts.0;
}

pub empty-IsServed : IsServed three_digits read_decimal read_decimal (answer [])
unfolding is_supported_protocol Served.complete_fields Server.find_header
empty-IsServed = record {
  protocol = refl;
  code = answer_status.0;
  inverse = refl;
  reason = answer_status.1;
  fields = (sized_000, tt);
  length = refl;
  body = tt;
}

abbrev pub both : List Served.Response
both = answer (codes "hi") ∷ answer [] ∷ []

pub both_arrive :
    Delivers
      (bring (written three_digits read_decimal read_decimal both))
      (written three_digits read_decimal read_decimal both)
unfolding Served.serialize
both_arrive = record { reason = refl; bytes = refl }

get_responses-serialize_example :
    get_responses read_decimal read_decimal 1 2
      (λ i. false)
      no_attribute
      (ok (bring (written three_digits read_decimal read_decimal both)) ∷ [])
    ≡ all_replied three_digits read_decimal read_decimal
        (map (received three_digits read_decimal read_decimal) both)
        []
get_responses-serialize_example =
    get_responses-serialize three_digits read_decimal read_decimal 0 (answer (codes "hi"))
      (answer [] ∷ []) (bring (written three_digits read_decimal read_decimal both)) [] both_arrive
      hi-IsServed (empty-IsServed, tt)

abbrev got : List Header → Response
got hs = record {
  protocol_and_version = codes "HTTP/1.1";
  status_code = 404;
  reason_string = codes "Not Found";
  header_fields = hs;
  body = [];
}

got-IsStatus : (hs : List Header) → IsStatus three_digits read_decimal read_decimal (got hs)
unfolding is_supported_protocol
got-IsStatus hs = record {
  protocol = refl;
  code = answer_status.0;
  inverse = refl;
  reason = answer_status.1;
}

read_headers_same_example :
    seen_of (
      read_headers 2
        (with_fields_of (got []) (Spin.make_request 0 [] [] []))
        (codes "\r\nA: b\r\n\r\nx")
        false)
    ≡ as_client
        (got [])
        (Server.read_headers 2 (Spin.make_request 0 [] [] []) (codes "\r\nA: b\r\n\r\nx") false)
read_headers_same_example =
    read_headers_same 2 (got []) (Spin.make_request 0 [] [] []) (codes "\r\nA: b\r\n\r\nx") false

-- The read ends within the name of the second header field.
abbrev cut_response : Bytes
cut_response = status_text three_digits (got []) (cut_text (sized (codes "002") ∷ []) (codes "Con"))

con-IsFragment : IsFragment (codes "Con")
unfolding is_ignorable_white_space is_new_line all_hold
con-IsFragment = record {
  ne_nil = λ h. cc;
  in_line = all_hold_sound is_in_line (codes "Con") refl;
  starts = refl;
}

cut_arrives : Delivers (bring cut_response) cut_response
cut_arrives = record { reason = refl; bytes = refl }

-- The rest is there to be read, but it is not.
get_response-Spins_example :
    Spins read_decimal read_decimal
      (get_response read_decimal read_decimal 100 true no_attribute
        (ok (bring cut_response) ∷ ok (bring (codes "tent: a\r\n\r\nhi")) ∷ []))
      (ok (bring (codes "tent: a\r\n\r\nhi")) ∷ [])
get_response-Spins_example =
    get_response-Spins read_decimal read_decimal three_digits 99 true (got [])
      (sized (codes "002") ∷ []) (codes "Con") (bring cut_response)
      (ok (bring (codes "tent: a\r\n\r\nhi")) ∷ []) cut_arrives (got-IsStatus []) (sized_002, tt)
      con-IsFragment

abbrev two_bytes : List Header
two_bytes = record { name = codes "Content-Length"; value = codes "002" } ∷ []

abbrev half_response : Bytes
half_response = head_text three_digits (got two_bytes) (codes "h")

get_response_truncates_example :
    (get_response read_decimal read_decimal 1 true no_attribute (ok (bring half_response) ∷ [])
      ≡ replies (three (got two_bytes) (codes "h") true) [] (got two_bytes))
    × (get_response read_decimal read_decimal 1 true
          (three (got two_bytes) (codes "h") true)
          (ok (bring (codes "i")) ∷ [])
        ≡ raises
            (three (got two_bytes) (codes "h") true)
            (ok (bring (codes "i")) ∷ [])
            bad_any_cast)
unfolding arachnida.Damon.Reading.find_header
get_response_truncates_example =
    get_response_truncates three_digits read_decimal read_decimal 0 0 true true (got two_bytes)
      (codes "h") (codes "002") 2 (bring half_response) [] (ok (bring (codes "i")) ∷ [])
      (record { reason = refl; bytes = refl }) (got-IsStatus two_bytes) (sized_002, tt) hi-Starts.1
      refl refl (omega arith)

-- A BIO that has nothing yet.
abbrev wait : Answer Bytes
wait = record { result = failure 0; should_retry = true; should_read = true; should_write = false }

waiting :
    short_read wait true (codes "x") 1
    ≡ ok (record { buffer = codes "x"; bytes_read = 1; reason = reason_of true false })
unfolding short_read
waiting = refl

get_response_refuses_example :
    get_response read_decimal read_decimal 1 false no_attribute
      (ok (record { buffer = codes "x"; bytes_read = 1; reason = reason_of true false }) ∷ [])
    ≡ raises no_attribute [] runtime_error
get_response_refuses_example =
    get_response_refuses read_decimal read_decimal 0 false wait true (codes "x") 1
      (record { buffer = codes "x"; bytes_read = 1; reason = reason_of true false }) [] waiting refl
