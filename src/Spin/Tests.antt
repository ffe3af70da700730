-- ===== src/Spin/Tests.antt =====
-- Runs of lib/Spin at concrete inputs, and its theorems at inputs that meet their hypotheses.
pub mod Decimal
mod Sockets
mod Listeners
mod Exceptions
mod Workers
mod Pipes
pub mod Grammars
mod Handlers
use arachnida.Base.{
  ℕ, ◌<◌, Bool, true, false, List, [], ◌∷◌, ◌++◌, Option, none, some, Bytes, codes, All, ◌≡◌, ◌≢◌,
  refl, arith, Result, ok, throw, ◌%◌, null_dereference, invalid_header, ◌⊎◌,
}
use arachnida.Base.Check.{all_hold, all_hold_sound}
use arachnida.Acari.ParsingHelpers.{
  is_ignorable_white_space, is_new_line, is_word, is_in_line, before_colon, chomp, drop_while,
  is_supported_protocol, extract_request_header, extract_response_header, find_header_end,
  split_header,
}
use arachnida.Acari.ParsingHelpers.HeaderLine.{IsName, IsValue}
use arachnida.Acari.ParsingHelpers.RequestLine.{IsWord}
use arachnida.Acari.ParsingHelpers.Spans.{Holds}
use arachnida.Spin.HexAdapter.{size_mod, dehex}
use arachnida.Spin.HexAdapter.Digits.{IsDigit, number, dehex_lem, dehex_upper_a}
use arachnida.Spin.Message.{Header, HeaderFields, Request, get_header_value}
use arachnida.Spin.Message.Values.{values_of, get_header_value_lem}
use arachnida.Spin.DataHandler.{
  is_supported_method, Pending, Outcome, find_header, finished, fail, leftover, on_data_ready,
}
use arachnida.Spin.DataHandler.Fields.{IsField}
use arachnida.Spin.DataHandler.Cut.{on_data_ready_cut}
use arachnida.Spin.DataHandler.Resumed.{IsBodyLine, on_data_ready_resumed}
use arachnida.Spin.DataHandler.Total.{Ends, IsStored, on_data_ready-Ends}
use arachnida.Spin.DataHandler.Wire.{IsWire, requests_text, on_data_ready-requests_text}
use arachnida.Spin.Response.{
  Response, serialize, StatusCode, temporary_redirect, to_number, make_response_with, make_response,
}
use arachnida.Spin.Response.Codes.{make_response_cases}
use arachnida.Spin.Response.StatusLine.{IsReason, behind, extract_response_header-serialize}
use arachnida.Spin.Tests.Decimal.{read_decimal, three_digits}

abbrev length_2 : Header
length_2 = record { name = codes "Content-Length"; value = codes "2" }

abbrev posted : Request
posted = record {
  connection = 7;
  method = codes "POST";
  url = codes "/a";
  protocol_and_version = codes "HTTP/1.1";
  header_fields = length_2 ∷ [];
  body = codes "hi";
}

abbrev got : Request
got = record {
  connection = 7;
  method = codes "GET";
  url = codes "/b";
  protocol_and_version = codes "HTTP/1.0";
  header_fields = [];
  body = [];
}

chunks_run :
    on_data_ready read_decimal 7
      (some (record { request = none; buffer = codes "POST /a HT"; end_of_headers_found = false }))
      (codes "TP/1.1\r\nContent-Length: 2\r\n\r\nhiGET /b HTTP/1.0\r\n\r\n")
    ≡ finished (posted ∷ got ∷ [])
unfolding on_data_ready extract_request_header drop_while is_ignorable_white_space find_header_end
    split_header
chunks_run = refl

length_2-IsField : IsField length_2
unfolding is_ignorable_white_space is_new_line all_hold chomp drop_while
length_2-IsField = (
  record {
    ne_nil = λ h. cc;
    words = all_hold_sound is_word (codes "Content-Length") refl;
    no_colon = all_hold_sound before_colon (codes "Content-Length") refl;
  },
  record { in_line = all_hold_sound is_in_line (codes "2") refl; trimmed = refl },
)

url_a : IsWord (codes "/a")
unfolding is_ignorable_white_space all_hold
url_a = record { ne_nil = λ h. cc; words = all_hold_sound is_word (codes "/a") refl }

url_b : IsWord (codes "/b")
unfolding is_ignorable_white_space all_hold
url_b = record { ne_nil = λ h. cc; words = all_hold_sound is_word (codes "/b") refl }

posted-IsWire : IsWire read_decimal 7 posted
unfolding is_supported_method is_supported_protocol find_header is_ignorable_white_space
posted-IsWire = record {
  from = refl;
  method = refl;
  url = url_a;
  protocol = refl;
  fields = (length_2-IsField, tt);
  length = refl;
  body = refl;
}

got-IsWire : IsWire read_decimal 7 got
unfolding is_supported_method is_supported_protocol find_header
got-IsWire = record {
  from = refl;
  method = refl;
  url = url_b;
  protocol = refl;
  fields = tt;
  length = refl;
  body = tt;
}

on_data_ready-requests_text_example :
    on_data_ready read_decimal 7 none (requests_text read_decimal 7 (posted ∷ got ∷ []))
    ≡ finished (posted ∷ got ∷ [])
on_data_ready-requests_text_example =
    on_data_ready-requests_text read_decimal 7 posted (got ∷ []) posted-IsWire (got-IsWire, tt)

abbrev half_read : Option Pending
half_read = some (record { request = some posted; buffer = codes "h"; end_of_headers_found = true })

half_read-IsStored : IsStored half_read
half_read-IsStored h = cc

on_data_ready-Ends_example : Ends (on_data_ready read_decimal 7 half_read (codes "i"))
on_data_ready-Ends_example =
    on_data_ready-Ends read_decimal 7 half_read (codes "i") half_read-IsStored

abbrev answer : Response
answer = record {
  protocol_and_version = codes "HTTP/1.1";
  status_code = 404;
  reason_string = codes "Not Found";
  header_fields = [];
  body = codes "hi";
}

abbrev triple : Bytes → ℕ → Bytes → Bytes × (ℕ × Bytes)
triple protocol code reason = (protocol, (code, reason))

answer_protocol : is_supported_protocol (codes "HTTP/1.1") ≡ true
unfolding is_supported_protocol
answer_protocol = refl

answer_code : IsWord (three_digits 404)
unfolding is_ignorable_white_space all_hold
answer_code = record { ne_nil = λ h. cc; words = all_hold_sound is_word (three_digits 404) refl }

answer-IsReason : IsReason (codes "Not Found")
unfolding is_ignorable_white_space is_new_line all_hold
answer-IsReason = record {
  ne_nil = λ h. cc;
  in_line = all_hold_sound is_in_line (codes "Not Found") refl;
  starts = refl;
}

extract_response_header_run :
    extract_response_header triple read_decimal (serialize three_digits answer)
    ≡ ok (
        some (
          triple (codes "HTTP/1.1") 404 (codes "Not Found"),
          behind three_digits read_decimal triple answer,
        ))
extract_response_header_run =
    extract_response_header-serialize three_digits read_decimal triple answer answer_protocol
      answer_code refl answer-IsReason

get_header_value_lem_run :
    get_header_value
      (record posted { header_fields = length_2 ∷ length_2 ∷ [] })
      (codes "Content-Length")
    ≡ values_of (codes "Content-Length") (length_2 ∷ length_2 ∷ [])
get_header_value_lem_run =
    get_header_value_lem (record posted { header_fields = length_2 ∷ length_2 ∷ [] })
      (codes "Content-Length")

make_response_cases_run :
    ((temporary_redirect ≡ temporary_redirect)
      × (make_response (codes "HTTP/1.1") temporary_redirect ≡ throw null_dereference))
    ⊎ ((reason : Bytes) × (make_response (codes "HTTP/1.1") temporary_redirect
          ≡ ok (make_response_with (codes "HTTP/1.1") (to_number temporary_redirect) reason))
        × (reason ≢ []))
make_response_cases_run = make_response_cases (codes "HTTP/1.1") temporary_redirect

line_crlf : Holds is_new_line (codes "\r\n")
unfolding is_new_line all_hold
line_crlf = all_hold_sound is_new_line (codes "\r\n") refl

body_line : IsBodyLine (codes "hi")
unfolding is_new_line is_ignorable_white_space all_hold
body_line = record {
  ne_nil = λ h. cc;
  in_line = all_hold_sound is_in_line (codes "hi") refl;
  starts = refl;
  no_colon = all_hold_sound before_colon (codes "hi") refl;
}

word_t : is_word b't' ≡ true
unfolding is_ignorable_white_space
word_t = refl

on_data_ready_resumed_example :
    on_data_ready read_decimal 7
      (some (record { request = some posted; buffer = codes "hi"; end_of_headers_found = true }))
      (codes "\r\n" ++ codes "there")
    ≡ fail (invalid_header (codes "hi")) []
on_data_ready_resumed_example =
    on_data_ready_resumed read_decimal 7 posted (codes "hi") (codes "\r\n") (codes "there")
      body_line line_crlf (λ h. cc) word_t

abbrev piece : Bytes
piece = codes "POST /a HT"

abbrev other_piece : Bytes
other_piece = codes "TP/1.1\r\nContent-Length: 2\r\n\r\nhiGET /b HTTP/1.0\r\n\r\n"

on_data_ready_cut_example :
    (on_data_ready read_decimal 7 none piece
      ≡ record { attribute = some (leftover piece); handled = []; thrown = none })
    × (on_data_ready read_decimal 7 (some (leftover piece)) other_piece
        ≡ finished (posted ∷ got ∷ []))
on_data_ready_cut_example =
    on_data_ready_cut read_decimal 7 posted (got ∷ []) piece other_piece (codes "TP/1.1")
      posted-IsWire (got-IsWire, tt) refl refl

digits-IsDigit : All IsDigit (codes "1Fa")
digits-IsDigit = (refl, (refl, (refl, tt)))

dehex_run : dehex (codes "1FA") ≡ ok 512
unfolding dehex
dehex_run = refl

dehex_lem_run : dehex (codes "1Fa") ≡ ok (number 0 (codes "1Fa") % size_mod)
dehex_lem_run = dehex_lem (codes "1Fa") digits-IsDigit

dehex_upper_a_run : dehex (b'A' ∷ codes "1Fa") ≡ ok (number 16 (codes "1Fa") % size_mod)
dehex_upper_a_run = dehex_upper_a (codes "1Fa") digits-IsDigit
