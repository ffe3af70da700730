-- ===== src/Spin/DataHandler.antt =====
-- lib/Spin/Handlers/HTTPDataHandler.cpp. `where` is the list of the bytes from it to the end of the
-- buffer. `lexical_cast` is boost's, at `std::size_t`, and fails where boost throws. Loops take fuel,
-- and end in `out_of_fuel` where it is not enough.
pub mod Total
pub mod Fields
pub mod Words
pub mod Wire
pub mod Resumed
pub mod Cut
pub mod Fragment
pub mod Stalled
use mathlib.Core.List.{reverse}
use arachnida.Base.{
  ℕ, zero, suc, ◌+◌, Bool, true, false, not, List, [], ◌∷◌, ◌++◌, Option, none, some, Bytes, codes,
  length, take, drop, ltb, ◌&&◌, ◌||◌, if◌then◌else◌, str_eq, Exception, bad_lexical_cast,
  out_of_fuel, null_dereference, Result, ok, throw, ◌>>=◌,
}
use arachnida.Acari.ParsingHelpers.{
  is_ignorable_white_space, at_end, take_while, advance_through_ignorable_white_space, more_headers,
  find_header_end, split_header, extract_request_header,
}
use arachnida.Spin.Message.{Header, HeaderFields, Request, make_request}

-- What `initStaticMembers` inserts into `supported_methods__`.
abbrev pub supported_methods : List Bytes
supported_methods =
    codes "OPTIONS"
    ∷ codes "GET"
    ∷ codes "HEAD"
    ∷ codes "POST"
    ∷ codes "PUT"
    ∷ codes "DELETE"
    ∷ codes "TRACE"
    ∷ codes "CONNECT"
    ∷ []

unfoldable pub contains : List Bytes → Bytes → Bool
unfolding str_eq
contains [] m = false
contains (x ∷ xs) m = str_eq x m || contains xs m

unfoldable pub is_supported_method : Bytes → Bool
unfolding contains
is_supported_method = contains supported_methods

-- The connection's attribute: the request so far (or the null pointer), the bytes left over, and
-- `end_of_headers_found`.
pub record Pending : Type 0 where
  pub request : Option Request
  pub buffer : Bytes
  pub end_of_headers_found : Bool

-- The local variables after each of the two loops; `where` is `rest`.
pub record Progress : Type 0 where
  pub request : Option Request
  pub rest : Bytes
  pub end_of_headers_found : Bool

-- What a call leaves: the connection's attribute, the requests given to the request handler, and the
-- exception that ended it, if any.
pub record Outcome : Type 0 where
  pub attribute : Option Pending
  pub handled : List Request
  pub thrown : Option Exception

module _ (connection : ℕ) where
  -- A round of the first loop with no attribute. A request that is not complete leaves `where` at the
  -- begin of the buffer.
  unfoldable pub parse_new : Bool → Bytes → Result Progress
  unfolding is_supported_method
  parse_new found buffer = do
    extracted ← extract_request_header (make_request connection) is_supported_method buffer
    elim extracted [
      | none ↦ ok (record { request = none; rest = buffer; end_of_headers_found = found })
      | some (r, rest) ↦ ok (record { request = some r; rest = rest; end_of_headers_found = found })
    ]

  -- A round with an attribute, and the next round if there is one.
  unfoldable pub restore : Option Request → Bool → Bytes → Result Progress
  unfolding parse_new at_end
  restore (some r) found buffer =
      ok (record { request = some r; rest = buffer; end_of_headers_found = found })
  restore none found buffer =
      if at_end buffer
      then ok (record { request = none; rest = []; end_of_headers_found = found })
      else parse_new found buffer

  unfoldable pub get_request : Option Pending → Bytes → Result Progress
  unfolding parse_new restore
  get_request none buffer = parse_new false buffer
  get_request (some p) buffer = restore p.request p.end_of_headers_found (p.buffer ++ buffer)

abbrev pub add_header : Request → Bytes × Bytes → Request
add_header r h = record r {
  header_fields = r.header_fields ++ (record { name = h.0; value = h.1 } ∷ []);
}

-- The second loop, from a request that is not null; the flag is `end_of_headers_found`.
unfoldable pub read_headers : ℕ → Request → Bytes → Bool → Result Progress
unfolding take_while advance_through_ignorable_white_space more_headers at_end
read_headers zero r where_ found = throw out_of_fuel
read_headers (suc fuel) r where_ found =
    let skipped = take_while is_ignorable_white_space where_ in
    let whence = advance_through_ignorable_white_space where_ in
    let ends = find_header_end whence in
    elim (more_headers skipped) [
      | false ↦ ok (record { request = some r; rest = whence; end_of_headers_found = true })
      | true ↦ elim (at_end ends.0) [
        | true ↦ ok (record { request = some r; rest = whence; end_of_headers_found = found })
        | false ↦ elim (split_header (reverse ends.0)) [
          | throw e ↦ throw e
          | ok h ↦ elim (found || at_end ends.1) [
            | true ↦ ok (record {
              request = some (add_header r h);
              rest = ends.1;
              end_of_headers_found = found;
            })
            | false ↦ read_headers fuel (add_header r h) ends.1 found
          ]
        ]
      ]
    ]

-- `if (request) do … while`, on the request.
unfoldable pub read_headers_of : Option Request → Progress → Result Progress
unfolding read_headers
read_headers_of none p = ok p
read_headers_of (some r) p = read_headers (suc (length p.rest)) r p.rest p.end_of_headers_found

unfoldable pub header_stage : Progress → Result Progress
unfolding read_headers_of
header_stage p = read_headers_of p.request p

-- Both loops.
unfoldable pub read_request : ℕ → Option Pending → Bytes → Result Progress
unfolding get_request header_stage
read_request connection attribute buffer = do
  p ← get_request connection attribute buffer
  header_stage p

unfoldable pub find_header : Bytes → HeaderFields → Option Bytes
unfolding str_eq
find_header name [] = none
find_header name (h ∷ hs) = if str_eq h.name name then some h.value else find_header name hs

abbrev pub store : Progress → List Request → Outcome
store p handled = record {
  attribute = some (record {
    request = p.request;
    buffer = p.rest;
    end_of_headers_found = p.end_of_headers_found;
  });
  handled = handled;
  thrown = none;
}

abbrev pub fail : Exception → List Request → Outcome
fail e handled = record { attribute = none; handled = handled; thrown = some e }

abbrev pub finished : List Request → Outcome
finished handled = record { attribute = none; handled = handled; thrown = none }

abbrev pub leftover : Bytes → Pending
leftover rest = record { request = none; buffer = rest; end_of_headers_found = false }

abbrev pub pending_length : Option Pending → ℕ
pending_length none = 0
pending_length (some p) = length p.buffer

-- The body of a request whose headers are complete: `none` if it is not yet all there, and otherwise
-- the complete request and the position behind its body.
module _ (lexical_cast : Bytes → Option ℕ) where
  unfoldable pub take_body : Request → Bytes → Option Bytes → Result (Option (Request × Bytes))
  take_body r where_ none = ok (some (r, where_))
  take_body r where_ (some value) = elim (lexical_cast value) [
    | none ↦ throw bad_lexical_cast
    | some body_size ↦ ok (
        if ltb (length where_) body_size
        then none
        else some (record r { body = r.body ++ take body_size where_ }, drop body_size where_))
  ]

  module _ (connection : ℕ) where
    -- From `after_connection_attributes_are_got` on; a round for each complete request.
    unfoldable pub rounds : ℕ → Option Pending → Bytes → List Request → Outcome
    unfolding read_request take_body find_header at_end
    rounds zero attribute buffer handled = fail out_of_fuel handled
    rounds (suc fuel) attribute buffer handled = elim (read_request connection attribute buffer) [
      | throw e ↦ fail e handled
      | ok p ↦ elim p.end_of_headers_found [
        | false ↦ store p handled
        | true ↦ elim p.request [
          | none ↦ fail null_dereference handled
          | some r ↦
              elim (take_body r p.rest (find_header (codes "Content-Length") r.header_fields)) [
                | throw e ↦ fail e handled
                | ok none ↦ store p handled
                | ok (some (complete, rest)) ↦ elim (at_end rest) [
                  | true ↦ finished (handled ++ complete ∷ [])
                  | false ↦ rounds fuel (some (leftover rest)) [] (handled ++ complete ∷ [])
                ]
              ]
        ]
      ]
    ]

    -- `onDataReady`, with the bytes that the connection has read.
    unfoldable pub on_data_ready : Option Pending → Bytes → Outcome
    unfolding rounds
    on_data_ready attribute bytes_read =
        rounds (suc (suc (pending_length attribute + length bytes_read))) attribute bytes_read []
