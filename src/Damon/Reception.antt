-- ===== src/Damon/Reception.antt =====
-- `getResponse` of lib/Damon/Request.cpp. What the connection's `read` gives is an argument, an answer
-- for each call; so is what `poll` says, which the code asks at most once. `where` is the list of the
-- bytes from it to the end of the buffer. The casts of boost are at `unsigned int` and at `std::size_t`.
-- Going back to `retry` takes fuel.
pub mod Loops
pub mod Fields
pub mod Whole
pub mod Served
pub mod Truncated
pub mod Spinning
use mathlib.Core.List.{reverse}
use arachnida.Base.{
  ℕ, zero, suc, ◌-◌, Bool, true, false, List, [], ◌∷◌, ◌++◌, Option, none, some, Bytes, codes,
  length, take, drop, replicate, leb, ltb, ◌||◌, if◌then◌else◌, str_eq, Exception, bad_lexical_cast,
  out_of_fuel, null_dereference, runtime_error, bad_any_cast, Result, ok, throw, ◌>>=◌,
}
use arachnida.Acari.ParsingHelpers.{
  is_ignorable_white_space, at_end, take_while, advance_through_ignorable_white_space, more_headers,
  find_header_end, split_header, extract_response_header,
}
use arachnida.Damon.Reading.{make_response, Progress, read_headers_of, find_header}
use arachnida.Damon.Message.{Header, HeaderFields, Response}
use arachnida.Spin.Connection.{ReadResult}

-- The connection's attribute: a `boost::any` that holds a tuple of four, as the code takes it out, or
-- the tuple of three that it stores for a body that is not all there.
pub data Attribute : Type 0 where
  no_attribute : Attribute
  four : Option Response → Bytes → Bool → Bool → Attribute
  three : Response → Bytes → Bool → Attribute

-- What the first loop leaves: its progress, or `none` if it waits for a read that is not answered.
pub record Start : Type 0 where
  pub progress : Option (Result Progress)
  pub attribute : Attribute
  pub reads : List (Result ReadResult)

abbrev pub resize : ℕ → Bytes → Bytes
resize size buffer = take size buffer ++ replicate (size - length buffer) 0

-- What a call leaves: the attribute, the answers that are not used, and the result; `none` if the call
-- waits for a read that is not answered.
pub record Reply : Type 0 where
  pub attribute : Attribute
  pub reads : List (Result ReadResult)
  pub result : Option (Result Response)

abbrev pub raises : Attribute → List (Result ReadResult) → Exception → Reply
raises attribute reads e = record { attribute = attribute; reads = reads; result = some (throw e) }

abbrev pub replies : Attribute → List (Result ReadResult) → Response → Reply
replies attribute reads r = record { attribute = attribute; reads = reads; result = some (ok r) }

-- Behind a response: what is left of the buffer waits for the next call, with `end_of_buffer_found`.
abbrev pub leftover : Bytes → Bool → Attribute
leftover rest end_of_buffer =
    if at_end rest then no_attribute else four none rest false end_of_buffer

module _ (cast_code cast_size : Bytes → Option ℕ) where
  -- The extraction from the buffer. A response that is not complete leaves `where` at its begin.
  unfoldable pub parse_new : Bytes → Bool → Bool → Result Progress
  parse_new buffer found end_of_buffer = do
    extracted ← extract_response_header make_response cast_code buffer
    elim extracted [
      | none ↦ ok (record {
        response = none;
        rest = buffer;
        end_of_headers_found = found;
        end_of_buffer_found = end_of_buffer;
      })
      | some (r, rest) ↦ ok (record {
        response = some r;
        rest = rest;
        end_of_headers_found = found;
        end_of_buffer_found = end_of_buffer;
      })
    ]

  -- A read, its bytes behind those of the buffer. The reasons that the switch expects are `no_error__`,
  -- `should_retry__` and `should_read__`, that is 0, 1 and 2.
  unfoldable pub read_more : List (Result ReadResult) → Bytes → Bool → Bool → Start
  unfolding parse_new
  read_more [] buffer found end_of_buffer = record {
    progress = none;
    attribute = no_attribute;
    reads = [];
  }
  read_more (throw e ∷ reads) buffer found end_of_buffer = record {
    progress = some (throw e);
    attribute = no_attribute;
    reads = reads;
  }
  read_more (ok r ∷ reads) buffer found end_of_buffer = record {
    progress = some (
        if leb r.reason 2
        then parse_new (buffer ++ resize r.bytes_read r.buffer) found end_of_buffer
        else throw runtime_error);
    attribute = no_attribute;
    reads = reads;
  }

  -- A round of the first loop with no attribute.
  unfoldable pub new_response : Bool → Bool → List (Result ReadResult) → Bytes → Bool → Bool → Start
  unfolding read_more parse_new
  new_response poll retrying reads buffer found end_of_buffer =
      if retrying || end_of_buffer || at_end buffer || poll
      then read_more reads buffer found end_of_buffer
      else record {
        progress = some (parse_new buffer found end_of_buffer);
        attribute = no_attribute;
        reads = reads;
      }

  -- The first loop.
  unfoldable pub get_start : Bool → Bool → Attribute → List (Result ReadResult) → Start
  unfolding new_response
  get_start poll retrying no_attribute reads = new_response poll retrying reads [] false false
  get_start poll retrying (three r rest found) reads = record {
    progress = some (throw bad_any_cast);
    attribute = three r rest found;
    reads = reads;
  }
  get_start poll retrying (four (some r) buffer found end_of_buffer) reads = record {
    progress = some (
        ok (record {
          response = some r;
          rest = buffer;
          end_of_headers_found = found;
          end_of_buffer_found = end_of_buffer;
        }));
    attribute = no_attribute;
    reads = reads;
  }
  get_start poll retrying (four none buffer found end_of_buffer) reads =
      if at_end buffer
      then record {
        progress = some (
            ok (record {
              response = none;
              rest = [];
              end_of_headers_found = found;
              end_of_buffer_found = end_of_buffer;
            }));
        attribute = no_attribute;
        reads = reads;
      }
      else new_response poll retrying reads buffer found end_of_buffer

  -- The end of a call whose headers are complete.
  unfoldable pub take_body :
      Response → Bytes → Bool → Option Bytes → List (Result ReadResult) → Reply
  take_body r where_ end_of_buffer none reads = replies (leftover where_ end_of_buffer) reads r
  take_body r where_ end_of_buffer (some value) reads = elim (cast_size value) [
    | none ↦ raises no_attribute reads bad_lexical_cast
    | some body_size ↦
        if ltb (length where_) body_size
        then replies (three r where_ true) reads r
        else replies (leftover (drop body_size where_) end_of_buffer) reads
            (record r { body = r.body ++ take body_size where_ })
  ]

  unfoldable pub finish : Option Response → Bytes → Bool → List (Result ReadResult) → Reply
  unfolding take_body find_header
  finish none where_ end_of_buffer reads = raises no_attribute reads null_dereference
  finish (some r) where_ end_of_buffer reads =
      take_body r where_ end_of_buffer (find_header (codes "Content-Length") r.header_fields) reads

  -- From `retry` on, with the first loop over.
  unfoldable pub go_on :
      (Attribute → List (Result ReadResult) → Reply)
      → Option (Result Progress)
      → Attribute
      → List (Result ReadResult)
      → Reply
  unfolding read_headers_of finish
  go_on retry none attribute reads = record { attribute = attribute; reads = reads; result = none }
  go_on retry (some (throw e)) attribute reads = raises attribute reads e
  go_on retry (some (ok p)) attribute reads = elim (read_headers_of p.response p) [
    | throw e ↦ raises attribute reads e
    | ok q ↦ elim q.end_of_headers_found [
      | true ↦ finish q.response q.rest q.end_of_buffer_found reads
      | false ↦ retry (four q.response q.rest false q.end_of_buffer_found) reads
    ]
  ]

  unfoldable pub attempts : ℕ → Bool → Bool → Attribute → List (Result ReadResult) → Reply
  unfolding get_start go_on
  attempts zero poll retrying attribute reads = raises attribute reads out_of_fuel
  attempts (suc fuel) poll retrying attribute reads =
      let start = get_start poll retrying attribute reads in
      go_on (attempts fuel poll true) start.progress start.attribute start.reads

  -- `getResponse`, with so many rounds as the fuel allows.
  unfoldable pub get_response : ℕ → Bool → Attribute → List (Result ReadResult) → Reply
  unfolding attempts
  get_response fuel poll attribute reads = attempts fuel poll false attribute reads

-- What the loop of `send` over several requests collects, with what each `getResponse` finds.
pub record Replies : Type 0 where
  pub attribute : Attribute
  pub reads : List (Result ReadResult)
  pub result : Option (Result (List Response))

abbrev pub collected : List Response → Replies → Replies
collected earlier replies = elim replies.result [
  | some (ok rs) ↦ record replies { result = some (ok (earlier ++ rs)) }
  | _ ↦ replies
]

-- Behind one `getResponse`: the rest of the loop, if it has not thrown.
unfoldable pub collect : Reply → (Attribute → List (Result ReadResult) → Replies) → Replies
collect reply later = elim reply.result [
  | none ↦ record { attribute = reply.attribute; reads = reply.reads; result = none }
  | some (throw e) ↦ record {
    attribute = reply.attribute;
    reads = reply.reads;
    result = some (throw e);
  }
  | some (ok r) ↦ collected (r ∷ []) (later reply.attribute reply.reads)
]

module _ (cast_code cast_size : Bytes → Option ℕ) (fuel : ℕ) where
  -- The loop, so many times. `poll` is asked at each one.
  unfoldable pub get_responses : ℕ → (ℕ → Bool) → Attribute → List (Result ReadResult) → Replies
  unfolding collect get_response
  get_responses zero poll attribute reads = record {
    attribute = attribute;
    reads = reads;
    result = some (ok []);
  }
  get_responses (suc n) poll attribute reads =
      collect (get_response cast_code cast_size fuel (poll n) attribute reads)
        (get_responses n poll)
