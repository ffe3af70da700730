-- ===== src/Spin/DataHandler/Total.antt =====
-- The loops of onDataReady end, and no null pointer is read.
use mathlib.Core.List.{reverse}
use arachnida.Base.{
  ℕ, zero, suc, ◌+◌, ◌≤◌, ◌<◌, Bool, false, List, [], ◌∷◌, ◌++◌, Option, none, some, Bytes, codes,
  length, length-append, length-drop, ◌≡◌, ◌≢◌, refl, ap, arith, inl, inr, Ensures, IsFault,
  Exception, Result-cases, Option-cases,
}
use arachnida.Base.Reverse.{length-reverse_aux}
use arachnida.Acari.ParsingHelpers.{
  is_ignorable_white_space, at_end, drop_while, advance_through_ignorable_white_space,
  find_header_end, split_header,
}
use arachnida.Acari.ParsingHelpers.HeaderEnd.{find_header_end_splits}
use arachnida.Acari.ParsingHelpers.RequestLine.{extract_request_header-Consumes}
use arachnida.Acari.ParsingHelpers.Spans.{length-drop_while}
use arachnida.Spin.Message.{Request, make_request}
use arachnida.Spin.DataHandler.{
  is_supported_method, Pending, Progress, Outcome, parse_new, restore, get_request, add_header,
  read_headers, find_header, take_body, read_headers_of, header_stage, read_request, rounds,
  leftover, pending_length, on_data_ready,
}

split_header-Ensures : (h : Bytes) → Ensures (λ _. Unit {0}) (split_header h)
unfolding split_header
split_header-Ensures h = ground arith

header_end_lt :
    (s : Bytes) → at_end (find_header_end s).0 ≡ false → length (find_header_end s).1 < length s
unfolding at_end
header_end_lt s h = ground (
  arith,
  ap length (find_header_end_splits s),
  length-append (reverse (find_header_end s).0) (find_header_end s).1,
  length-reverse_aux (find_header_end s).0 [],
)

-- The second loop keeps the request and does not lengthen the buffer.
abbrev pub Reads : Bytes → Progress → Type 0
Reads buffer p = (p.request ≢ none) × (length p.rest ≤ length buffer)

read_headers-Ensures :
    (fuel : ℕ) (r : Request) (s : Bytes) (found : Bool)
    → length s < fuel
    → Ensures (Reads s) (read_headers fuel r s found)
unfolding read_headers advance_through_ignorable_white_space
read_headers-Ensures zero r s found h = absurd (omega arith)
read_headers-Ensures (suc fuel) r s found h =
    let whence = drop_while is_ignorable_white_space s in
    let ends = find_header_end whence in
    let shorter = length-drop_while is_ignorable_white_space s in
    elim (Result-cases (split_header (reverse ends.0))) [
      | inl (e, t) ↦
          let real : Ensures (λ h. Unit {0}) (split_header (reverse ends.0)) =
            split_header-Ensures (reverse ends.0) in
          ground (arith, shorter, t)
      | inr (k, t) ↦ ground (
        arith,
        shorter,
        header_end_lt whence,
        t,
        read_headers-Ensures fuel (add_header r k) ends.1 found,
      )
    ]

-- A pending request that is null has no complete headers.
abbrev pub IsStored : Option Pending → Type 0
IsStored none = Unit {0}
IsStored (some p) = p.request ≡ none → p.end_of_headers_found ≡ false

-- A bound on the rounds to come.
abbrev weight : Option Pending → Bytes → ℕ
weight none buffer = length buffer
weight (some p) buffer = length p.buffer + length buffer + elim p.request [ none ↦ 0 | some _ ↦ 1 ]

-- What the loops leave: a null request has no complete headers, and any other leaves work undone.
abbrev Leaves : ℕ → Progress → Type 0
Leaves n p =
    (p.request ≡ none → p.end_of_headers_found ≡ false) × (p.request ≢ none → length p.rest < n)

module _ (connection : ℕ) where
  parse_new-Leaves :
      (buffer : Bytes) → Ensures (Leaves (length buffer)) (parse_new connection false buffer)
  unfolding parse_new
  parse_new-Leaves buffer =
      ground (
        arith,
        extract_request_header-Consumes (make_request connection) is_supported_method buffer,
      )

  get_request-Leaves :
      (attribute : Option Pending) (buffer : Bytes)
      → IsStored attribute
      → Ensures (Leaves (weight attribute buffer)) (get_request connection attribute buffer)
  unfolding get_request restore
  get_request-Leaves none buffer h = parse_new-Leaves buffer
  get_request-Leaves (some p) buffer h =
      ground (arith, h, parse_new-Leaves (p.buffer ++ buffer), length-append p.buffer buffer)

  read_headers_of-Leaves :
      (n : ℕ) (o : Option Request) (p : Progress)
      → p.request ≡ o
      → Leaves n p
      → Ensures (Leaves n) (read_headers_of o p)
  unfolding read_headers_of
  read_headers_of-Leaves n none p e h = h
  read_headers_of-Leaves n (some r) p e h =
      ground
        (arith, h.1, read_headers-Ensures (suc (length p.rest)) r p.rest p.end_of_headers_found)

  header_stage-Leaves : (n : ℕ) (p : Progress) → Leaves n p → Ensures (Leaves n) (header_stage p)
  unfolding header_stage
  header_stage-Leaves n p = read_headers_of-Leaves n p.request p refl

  read_request-Leaves :
      (attribute : Option Pending) (buffer : Bytes)
      → IsStored attribute
      → Ensures (Leaves (weight attribute buffer)) (read_request connection attribute buffer)
  unfolding read_request
  read_request-Leaves attribute buffer h =
      elim (Result-cases (get_request connection attribute buffer)) [
        | inl (e, t) ↦ rw (t) (rw t at (get_request-Leaves attribute buffer h))
        | inr (p, t) ↦
            rw t (header_stage-Leaves _ p (rw t at (get_request-Leaves attribute buffer h)))
      ]

abbrev NoFault : Option Exception → Type 0
NoFault none = Unit {0}
NoFault (some e) = ¬ IsFault e

-- A call ends with an exception of the source or none, and leaves an attribute that the next call
-- can take.
pub record Ends (o : Outcome) : Type 0 where
  pub no_fault : NoFault o.thrown
  pub stored : IsStored o.attribute

abbrev NoLonger : Bytes → Option (Request × Bytes) → Type 0
NoLonger s none = Unit {0}
NoLonger s (some (q, rest)) = length rest ≤ length s

take_body-Ensures :
    (cast : Bytes → Option ℕ) (r : Request) (s : Bytes) (value : Option Bytes)
    → Ensures (NoLonger s) (take_body cast r s value)
unfolding take_body
take_body-Ensures cast r s none = omega arith
take_body-Ensures cast r s (some v) = elim (Option-cases (cast v)) [
  | inl e ↦ ground (arith, e)
  | inr (n, e) ↦ ground (arith, e, length-drop n s)
]

module _ (cast : Bytes → Option ℕ) (connection : ℕ) where
  rounds-Ends :
      (fuel : ℕ) (attribute : Option Pending) (buffer : Bytes) (handled : List Request)
      → IsStored attribute
      → weight attribute buffer < fuel
      → Ends (rounds cast connection fuel attribute buffer handled)
  unfolding rounds
  rounds-Ends zero attribute buffer handled h w = absurd (omega arith)
  rounds-Ends (suc fuel) attribute buffer handled h w =
      let left = read_request-Leaves connection attribute buffer h in
      elim (Result-cases (read_request connection attribute buffer)) [
        | inl (e, t) ↦ ground (arith, left, t)
        | inr (p, t) ↦ elim (Option-cases p.request) [
          | inl e ↦ ground (arith, left, t, e)
          | inr (r, e) ↦
              let value = find_header (codes "Content-Length") r.header_fields in
              elim (Result-cases (take_body cast r p.rest value)) [
                | inl (x, u) ↦ ground (arith, left, t, e, u, take_body-Ensures cast r p.rest value)
                | inr (o, u) ↦ elim (Option-cases o) [
                  | inl no_body ↦ ground (arith, left, t, e, u, no_body)
                  | inr ((q, rest), body) ↦ ground (
                    arith,
                    left,
                    t,
                    e,
                    u,
                    body,
                    take_body-Ensures cast r p.rest value,
                    rounds-Ends fuel (some (leftover rest)) [] (handled ++ q ∷ []),
                  )
                ]
              ]
        ]
      ]

  weight_fits :
      (attribute : Option Pending) (b : Bytes)
      → weight attribute b < suc (suc (pending_length attribute + length b))
  weight_fits none b = omega arith
  weight_fits (some p) b = ground arith

  -- Every call of onDataReady ends, whatever bytes it reads: no loop runs out of its fuel and no null
  -- pointer is read. If the attribute is one that no null request with complete headers stands in, so
  -- is the attribute that the call leaves.
  pub on_data_ready-Ends :
      (attribute : Option Pending) (bytes_read : Bytes)
      → IsStored attribute
      → Ends (on_data_ready cast connection attribute bytes_read)
  unfolding on_data_ready
  on_data_ready-Ends attribute b h =
      rounds-Ends (suc (suc (pending_length attribute + length b))) attribute b [] h
        (weight_fits attribute b)
