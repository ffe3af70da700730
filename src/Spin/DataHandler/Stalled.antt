-- ===== src/Spin/DataHandler/Stalled.antt =====
-- onDataReady on a request without header fields that is cut between its two line ends.
use arachnida.Base.{
  ℕ, suc, ◌+◌, true, false, [], ◌∷◌, ◌++◌, Option, none, some, Bytes, length, ◌≡◌, refl, arith, ok,
}
use arachnida.Acari.ParsingHelpers.{
  is_ignorable_white_space, at_end, advance_through_ignorable_white_space, more_headers,
  find_header_end, is_supported_protocol,
}
use arachnida.Acari.ParsingHelpers.RequestLine.{IsWord, Follows, extract_request_header-line}
use arachnida.Acari.ParsingHelpers.Spans.{take_while-append, drop_while-append}
use arachnida.Spin.DataHandler.{
  is_supported_method, Pending, parse_new, restore, get_request, read_headers, read_headers_of,
  header_stage, read_request, rounds, store, on_data_ready,
}
use arachnida.Spin.DataHandler.Fields.{crlf, crlf-Holds}
use arachnida.Spin.DataHandler.Fragment.{stopped, read_headers_stops}
use arachnida.Spin.DataHandler.Words.{is_supported_method-IsWord, is_supported_protocol-IsWord}
use arachnida.Spin.Message.{Request, make_request}

-- The first line of a request, with its line end.
abbrev pub request_line : Bytes → Bytes → Bytes → Bytes
request_line method url protocol = method ++ (b' ' ∷ (url ++ (b' ' ∷ (protocol ++ crlf))))

crlf-Follows : Follows crlf
unfolding at_end is_ignorable_white_space
crlf-Follows = record { space = refl; more = refl }

-- A line end alone does not end the headers.
read_headers-crlf :
    (fuel : ℕ) (r : Request) → read_headers (suc fuel) r crlf false ≡ ok (stopped r [])
read_headers-crlf fuel r =
    read_headers_stops fuel r crlf crlf []
      (take_while-append is_ignorable_white_space crlf [] crlf-Holds.0 tt)
      (unfold advance_through_ignorable_white_space in
        drop_while-append is_ignorable_white_space crlf [] crlf-Holds.0 tt)
      (unfold more_headers in refl) (unfold find_header_end more_headers in refl)

module _ (cast : Bytes → Option ℕ) (connection : ℕ) where
  -- What a call stores when the headers do not end.
  rounds-stopped :
      (fuel : ℕ) (attribute : Option Pending) (buffer : Bytes) (r : Request) (s : Bytes)
      → read_request connection attribute buffer ≡ ok (stopped r s)
      → rounds cast connection (suc fuel) attribute buffer [] ≡ store (stopped r s) []
  rounds-stopped fuel attribute buffer r s e = unfold rounds in ground arith

  abbrev pub waiting : Request → Pending
  waiting r = record { request = some r; buffer = []; end_of_headers_found = false }

  get_request-line :
      (method url protocol : Bytes)
      → is_supported_method method ≡ true
      → IsWord url
      → is_supported_protocol protocol ≡ true
      → get_request connection none (request_line method url protocol)
        ≡ ok (record {
          request = some (make_request connection method url protocol);
          rest = crlf;
          end_of_headers_found = false;
        })
  unfolding get_request parse_new
  get_request-line method url protocol ms word ps = rw (
      extract_request_header-line (make_request connection) is_supported_method method url protocol
        crlf (is_supported_method-IsWord method ms) word (is_supported_protocol-IsWord protocol ps)
        crlf-Follows ms ps)

  -- A request without header fields whose last line end arrives by itself is not handled: when its first
  -- line and the line end behind it have arrived, it waits for header fields, and when the line end
  -- arrives that ends the request, it still waits, in the same state. The method and the protocol are
  -- supported, and the URL has no white space.
  pub on_data_ready_stalls :
      (method url protocol : Bytes)
      → is_supported_method method ≡ true
      → IsWord url
      → is_supported_protocol protocol ≡ true
      → let r = make_request connection method url protocol in
        (on_data_ready cast connection none (request_line method url protocol)
          ≡ record { attribute = some (waiting r); handled = []; thrown = none })
        × (on_data_ready cast connection (some (waiting r)) crlf
            ≡ record { attribute = some (waiting r); handled = []; thrown = none })
  unfolding on_data_ready
  on_data_ready_stalls method url protocol ms word ps =
      let r = make_request connection method url protocol in
      let text = request_line method url protocol in
      (
        rounds-stopped (suc (0 + length text)) none text r [] (
            unfold read_request header_stage read_headers_of in
            rw (get_request-line method url protocol ms word ps)
              (read_headers-crlf (length crlf) r)),
        rounds-stopped (suc (0 + length crlf)) (some (waiting r)) crlf r [] (
            unfold read_request get_request restore header_stage read_headers_of in
            read_headers-crlf (length crlf) r),
      )
