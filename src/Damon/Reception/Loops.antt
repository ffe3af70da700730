-- ===== src/Damon/Reception/Loops.antt =====
-- The header loop of `getResponse`, lib/Damon/Request.cpp, and the one of
-- lib/Spin/Handlers/HTTPDataHandler.cpp.
use mathlib.Core.List.{map, reverse}
use arachnida.Base.{
  ℕ, zero, suc, Bool, List, [], ◌∷◌, ◌++◌, Option, none, some, Bytes, ◌||◌, ◌≡◌, refl, sym, ap, ◌∙◌,
  Bool-cases, Result-cases, inl, inr, Result, ok, throw,
}
use arachnida.Acari.ParsingHelpers.{
  is_ignorable_white_space, at_end, take_while, advance_through_ignorable_white_space, more_headers,
  find_header_end, split_header,
}
use arachnida.Damon.Message.{Header, HeaderFields, Response}
use arachnida.Damon.Reading.{Progress, add_header, read_headers}
use arachnida.Spin.Message as Spin
use arachnida.Spin.DataHandler as Server

abbrev pub to_spin : Header → Spin.Header
to_spin h = record { name = h.name; value = h.value }

abbrev pub of_spin : Spin.Header → Header
of_spin h = record { name = h.name; value = h.value }

-- The progress of the client without `end_of_buffer_found`, which the server does not have.
abbrev pub seen : Progress → Option Response × (Bytes × Bool)
seen p = (p.response, (p.rest, p.end_of_headers_found))

abbrev pub seen_of : Result Progress → Result (Option Response × (Bytes × Bool))
seen_of (ok p) = ok (seen p)
seen_of (throw e) = throw e

-- The response `r` with the header fields of a request.
abbrev pub with_fields_of : Response → Spin.Request → Response
with_fields_of r q = record r { header_fields = map of_spin q.header_fields }

abbrev pub as_response : Response → Option Spin.Request → Option Response
as_response r none = none
as_response r (some q) = some (with_fields_of r q)

abbrev pub as_client : Response → Result Server.Progress → Result (Option Response × (Bytes × Bool))
as_client r (ok p) = ok (as_response r p.request, (p.rest, p.end_of_headers_found))
as_client r (throw e) = throw e

map-append-one :
    (hs : List Spin.Header) (h : Spin.Header)
    → map of_spin (hs ++ h ∷ []) ≡ map of_spin hs ++ of_spin h ∷ []
map-append-one [] h = refl
map-append-one (x ∷ hs) h = rw (map-append-one hs h)

add_header-with_fields_of :
    (r : Response) (q : Spin.Request) (h : Bytes × Bytes)
    → add_header (with_fields_of r q) h ≡ with_fields_of r (Server.add_header q h)
add_header-with_fields_of r q h =
    ap (λ (hs : HeaderFields). record r { header_fields = hs })
      (sym (map-append-one q.header_fields (record { name = h.0; value = h.1 })))

-- The header loop of the client is the one of the server: from the same header fields, the same bytes
-- and the same flag, it finds the same header fields, stops at the same byte, with the same flag and
-- the same exceptions, and leaves the rest of the response as it is.
pub read_headers_same :
    (fuel : ℕ) (r : Response) (q : Spin.Request) (where_ : Bytes) (found : Bool)
    → seen_of (read_headers fuel (with_fields_of r q) where_ found)
      ≡ as_client r (Server.read_headers fuel q where_ found)
unfolding read_headers Server.read_headers
read_headers_same zero r q where_ found = refl
read_headers_same (suc fuel) r q where_ found =
    let whence = advance_through_ignorable_white_space where_ in
    let ends = find_header_end whence in
    elim (Bool-cases (more_headers (take_while is_ignorable_white_space where_))) [
      | inr u ↦ rw (u, read_headers, Server.read_headers)
      | inl u ↦ elim (Bool-cases (at_end ends.0)) [
        | inl v ↦ rw (u, read_headers, Server.read_headers, v)
        | inr v ↦ elim (Result-cases (split_header (reverse ends.0))) [
          | inl (e, w) ↦ rw (u, read_headers, Server.read_headers, v, w)
          | inr (h, w) ↦
              let same = add_header-with_fields_of r q h in
              elim (Bool-cases (found || at_end ends.1)) [
                | inl x ↦
                    rw (u, read_headers, Server.read_headers, v, w, x)
                      (ap (λ (t : Response). ok (some t, (ends.1, found))) same)
                | inr x ↦
                    rw (u, read_headers, Server.read_headers, v, w, x)
                      (ap (λ (t : Response). seen_of (read_headers fuel t ends.1 found)) same
                        ∙ read_headers_same fuel r (Server.add_header q h) ends.1 found)
              ]
        ]
      ]
    ]
