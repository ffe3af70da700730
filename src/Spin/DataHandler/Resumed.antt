-- ===== src/Spin/DataHandler/Resumed.antt =====
-- onDataReady on a request whose headers are complete and whose body arrives in pieces.
use mathlib.Core.List.{reverse, reverse-reverse}
use arachnida.Base.{
  ℕ, suc, ◌+◌, Bool, true, false, List, [], ◌∷◌, ◌++◌, append-nil, Option, some, Bytes, length, ◌≡◌,
  ◌≢◌, refl, sym, ap, ◌∙◌, arith, Exception, invalid_header, throw,
}
use arachnida.Acari.ParsingHelpers.{
  is_ignorable_white_space, is_new_line, at_end, drop_while, take_while, is_in_line, before_colon,
  behind_colon, count, more_headers, advance_through_ignorable_white_space, find_header_end,
  split_header,
}
use arachnida.Acari.ParsingHelpers.HeaderEnd.{Ends, find_header_end_line}
use arachnida.Acari.ParsingHelpers.Spans.{Holds, take_while-append, drop_while-append}
use arachnida.Spin.Message.{Request}
use arachnida.Spin.DataHandler.{
  Pending, restore, get_request, read_headers, read_headers_of, header_stage, read_request, rounds,
  fail, on_data_ready,
}
use arachnida.Spin.DataHandler.Fields.{Starts, at_end-ne, reverse-ne}

-- A line of a body that no header is: not empty, with no white space at its begin and no colon.
pub record IsBodyLine (line : Bytes) : Type 0 where
  pub ne_nil : line ≢ []
  pub in_line : Holds is_in_line line
  pub starts : Starts line
  pub no_colon : Holds before_colon line

split_header-no_colon :
    (line : Bytes) → Holds before_colon line → split_header line ≡ throw (invalid_header line)
unfolding split_header behind_colon
split_header-no_colon line h =
    rw
      (ap (drop_while before_colon) (sym (append-nil line))
        ∙ drop_while-append before_colon line [] h tt)
      refl

Starts-append : (line s : Bytes) → line ≢ [] → Starts line → Starts (line ++ s)
Starts-append [] s ne h = absurd (ne refl)
Starts-append (c ∷ line) s ne h = h

-- A round of the second loop whose header cannot be split.
read_headers_throws :
    (fuel : ℕ) (r : Request) (s skipped whence back ahead : Bytes) (found : Bool) (e : Exception)
    → take_while is_ignorable_white_space s ≡ skipped
    → advance_through_ignorable_white_space s ≡ whence
    → more_headers skipped ≡ true
    → find_header_end whence ≡ (back, ahead)
    → at_end back ≡ false
    → split_header (reverse back) ≡ throw e
    → read_headers (suc fuel) r s found ≡ throw e
read_headers_throws fuel r s skipped whence back ahead found e e1 e2 e3 e4 e5 e6 =
    unfold read_headers in ground arith

read_headers_body :
    (fuel : ℕ) (r : Request) (line nl rest : Bytes)
    → IsBodyLine line
    → Holds is_new_line nl
    → nl ≢ []
    → Ends nl rest
    → read_headers (suc fuel) r (line ++ (nl ++ rest)) true ≡ throw (invalid_header line)
read_headers_body fuel r line nl rest h hn nn e =
    let s = line ++ (nl ++ rest) in
    let starts = Starts-append line (nl ++ rest) h.ne_nil h.starts in
    read_headers_throws fuel r s [] s (reverse line) (nl ++ rest) true (invalid_header line)
      (take_while-append is_ignorable_white_space [] s tt starts)
      (unfold advance_through_ignorable_white_space in
        drop_while-append is_ignorable_white_space [] s tt starts)
      (unfold more_headers count in refl)
      (find_header_end_line line nl rest h.in_line h.ne_nil hn nn e)
      (at_end-ne (reverse line) (reverse-ne line h.ne_nil))
      (ap split_header (reverse-reverse line) ∙ split_header-no_colon line h.no_colon)

rounds_throws :
    (cast : Bytes → Option ℕ) (connection fuel : ℕ) (attribute : Option Pending) (buffer : Bytes)
    (handled : List Request) (e : Exception)
    → read_request connection attribute buffer ≡ throw e
    → rounds cast connection (suc fuel) attribute buffer handled ≡ fail e handled
rounds_throws cast connection fuel attribute buffer handled e h = unfold rounds in ground arith

-- A request waits for its body, with its headers complete and the first line of the body read, which is
-- not empty, does not start with white space and has no colon. When line ends arrive, and behind them
-- either a character that is no white space, or nothing where two of them are line feeds or two are
-- carriage returns, the code takes the line of the body for a header and throws `InvalidHeader`: the
-- request is lost, whatever its `Content-Length` is.
pub on_data_ready_resumed :
    (cast : Bytes → Option ℕ) (connection : ℕ) (r : Request) (line nl rest : Bytes)
    → IsBodyLine line
    → Holds is_new_line nl
    → nl ≢ []
    → Ends nl rest
    → on_data_ready cast connection
        (some (record { request = some r; buffer = line; end_of_headers_found = true }))
        (nl ++ rest)
      ≡ fail (invalid_header line) []
unfolding on_data_ready
on_data_ready_resumed cast connection r line nl rest h hn nn e =
    let attribute =
      some (record { request = some r; buffer = line; end_of_headers_found = true }) in
    rounds_throws cast connection (suc (length line + length (nl ++ rest))) attribute (nl ++ rest)
      [] (invalid_header line)
      (unfold read_request get_request restore header_stage read_headers_of in
        read_headers_body (length (line ++ (nl ++ rest))) r line nl rest h hn nn e)
