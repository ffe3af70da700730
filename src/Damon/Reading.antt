-- ===== src/Damon/Reading.antt =====
-- The header loop of `getResponse` of lib/Damon/Request.cpp, and its local variables. `where` is the
-- list of the bytes from it to the end of the buffer. The loop takes fuel.
use mathlib.Core.List.{reverse}
use arachnida.Base.{
  ℕ, zero, suc, Bool, true, false, [], ◌∷◌, ◌++◌, Option, none, some, Bytes, length, ◌||◌,
  if◌then◌else◌, str_eq, out_of_fuel, Result, ok, throw,
}
use arachnida.Acari.ParsingHelpers.{
  is_ignorable_white_space, at_end, take_while, advance_through_ignorable_white_space, more_headers,
  find_header_end, split_header,
}
use arachnida.Damon.Message.{HeaderFields, Response}

-- The constructor of a response.
abbrev pub make_response : Bytes → ℕ → Bytes → Response
make_response protocol_and_version status_code reason_string = record {
  protocol_and_version = protocol_and_version;
  status_code = status_code;
  reason_string = reason_string;
  header_fields = [];
  body = [];
}

-- The local variables behind a loop; `where` is `rest`.
pub record Progress : Type 0 where
  pub response : Option Response
  pub rest : Bytes
  pub end_of_headers_found : Bool
  pub end_of_buffer_found : Bool

abbrev pub add_header : Response → Bytes × Bytes → Response
add_header r h = record r {
  header_fields = r.header_fields ++ (record { name = h.0; value = h.1 } ∷ []);
}

-- The second loop, from a response that is not null; the flag is `end_of_headers_found`.
unfoldable pub read_headers : ℕ → Response → Bytes → Bool → Result Progress
read_headers zero r where_ found = throw out_of_fuel
read_headers (suc fuel) r where_ found =
    let skipped = take_while is_ignorable_white_space where_ in
    let whence = advance_through_ignorable_white_space where_ in
    let ends = find_header_end whence in
    elim (more_headers skipped) [
      | false ↦ ok (record {
        response = some r;
        rest = whence;
        end_of_headers_found = true;
        end_of_buffer_found = false;
      })
      | true ↦ elim (at_end ends.0) [
        | true ↦ ok (record {
          response = some r;
          rest = whence;
          end_of_headers_found = found;
          end_of_buffer_found = true;
        })
        | false ↦ elim (split_header (reverse ends.0)) [
          | throw e ↦ throw e
          | ok h ↦ elim (found || at_end ends.1) [
            | true ↦ ok (record {
              response = some (add_header r h);
              rest = ends.1;
              end_of_headers_found = found;
              end_of_buffer_found = false;
            })
            | false ↦ read_headers fuel (add_header r h) ends.1 found
          ]
        ]
      ]
    ]

-- `if (response) do … while`, on the response.
unfoldable pub read_headers_of : Option Response → Progress → Result Progress
unfolding read_headers
read_headers_of none p = ok (record p { end_of_buffer_found = false })
read_headers_of (some r) p = read_headers (suc (length p.rest)) r p.rest p.end_of_headers_found

unfoldable pub find_header : Bytes → HeaderFields → Option Bytes
unfolding str_eq
find_header name [] = none
find_header name (h ∷ hs) = if str_eq h.name name then some h.value else find_header name hs
