-- ===== src/Damon/Reception/Truncated.antt =====
-- `getResponse` of lib/Damon/Request.cpp on a response whose body is not all there, and on a read that
-- is to be tried again.
use mathlib.Core.List.{map}
use arachnida.Base.{
  ℕ, suc, ◌<◌, Bool, true, false, List, [], ◌∷◌, Option, some, Bytes, codes, length, All, ◌≡◌, refl,
  ap, ◌∙◌, arith, not, ◌&&◌, Bool-cases, inl, inr, Result, ok, bad_any_cast, runtime_error,
}
use arachnida.Acari.ParsingHelpers.{at_end}
use arachnida.Damon.Message.{Response}
use arachnida.Damon.Reading.{find_header}
use arachnida.Damon.Reception.{
  no_attribute, three, replies, raises, take_body, finish, get_start, go_on, attempts, get_response,
  new_response, read_more,
}
use arachnida.Damon.Reception.Loops.{to_spin}
use arachnida.Damon.Reception.Fields.{IsStatus, head_text, go_on-head_text}
use arachnida.Damon.Reception.Whole.{Delivers, get_response-Delivers}
use arachnida.Spin.Connection.{Answer, ReadResult, reason_of, short_read}
use arachnida.Spin.DataHandler.Fields.{IsField, Starts}

short_read-reason :
    (a : Answer Bytes) (nothing : Bool) (buffer : Bytes) (count : ℕ) (d : ReadResult)
    → short_read a nothing buffer count ≡ ok d
    → d.reason ≡ reason_of a.should_read a.should_write
unfolding short_read
short_read-reason a nothing buffer count d e = elim (Bool-cases (not a.should_retry && nothing)) [
  | inl u ↦ ground arith
  | inr u ↦ ground arith
]

module _ (to_text : ℕ → Bytes) (cast_code cast_size : Bytes → Option ℕ) where
  finish-short :
      (r : Response) (part value : Bytes) (n : ℕ) (reads : List (Result ReadResult))
      → find_header (codes "Content-Length") r.header_fields ≡ some value
      → cast_size value ≡ some n
      → length part < n
      → finish cast_code cast_size (some r) part false reads ≡ replies (three r part true) reads r
  unfolding finish take_body
  finish-short r part value n reads found cast short = rw (found, take_body, cast) (ground arith)

  get_response-three :
      (fuel : ℕ) (poll : Bool) (r : Response) (part : Bytes) (reads : List (Result ReadResult))
      → get_response cast_code cast_size (suc fuel) poll (three r part true) reads
        ≡ raises (three r part true) reads bad_any_cast
  unfolding get_response attempts get_start go_on
  get_response-three fuel poll r part reads = refl

  -- If a read brings a response whose body is shorter than its `Content-Length` says, then
  -- `getResponse` returns it without any body and without an exception, and every later call on the
  -- connection throws `bad_any_cast`, whatever arrives. What is there of the body does not start with
  -- white space.
  pub get_response_truncates :
      (fuel more : ℕ) (poll again : Bool) (r : Response) (part value : Bytes) (n : ℕ)
      (d : ReadResult) (reads later : List (Result ReadResult))
      → Delivers d (head_text to_text r part)
      → IsStatus to_text cast_code cast_size r
      → All IsField (map to_spin r.header_fields)
      → Starts part
      → find_header (codes "Content-Length") r.header_fields ≡ some value
      → cast_size value ≡ some n
      → length part < n
      → let empty = record r { body = [] } in
        (get_response cast_code cast_size (suc fuel) poll no_attribute (ok d ∷ reads)
          ≡ replies (three empty part true) reads empty)
        × (get_response cast_code cast_size (suc more) again (three empty part true) later
            ≡ raises (three empty part true) later bad_any_cast)
  get_response_truncates fuel more poll again r part value n d reads later arrives status fields
        starts found cast short =
      let empty = record r { body = [] } in
      (
        get_response-Delivers to_text cast_code cast_size fuel poll d (head_text to_text r part)
              reads arrives
            ∙ go_on-head_text to_text cast_code cast_size
                (attempts cast_code cast_size fuel poll true) r part reads status fields starts
            ∙ finish-short empty part value n reads found cast short,
        get_response-three more again empty part later,
      )

module _ (cast_code cast_size : Bytes → Option ℕ) where
  get_response-reason :
      (fuel : ℕ) (poll should_write : Bool) (d : ReadResult) (reads : List (Result ReadResult))
      → d.reason ≡ reason_of true should_write
      → get_response cast_code cast_size (suc fuel) poll no_attribute (ok d ∷ reads)
        ≡ raises no_attribute reads runtime_error
  unfolding get_response attempts get_start new_response read_more go_on reason_of at_end
  get_response-reason fuel poll true d reads flags = rw flags refl
  get_response-reason fuel poll false d reads flags = rw flags refl

  -- When the BIO asks to be read again, the reason that `Connection::read` returns is the sum of two
  -- flags, which `getResponse` expects one at a time: it throws `runtime_error`, and the bytes that the
  -- read brought are lost. So does every short read with such an answer.
  pub get_response_refuses :
      (fuel : ℕ) (poll : Bool) (a : Answer Bytes) (nothing : Bool) (buffer : Bytes) (count : ℕ)
      (d : ReadResult) (reads : List (Result ReadResult))
      → short_read a nothing buffer count ≡ ok d
      → a.should_read ≡ true
      → get_response cast_code cast_size (suc fuel) poll no_attribute (ok d ∷ reads)
        ≡ raises no_attribute reads runtime_error
  get_response_refuses fuel poll a nothing buffer count d reads returned again =
      get_response-reason fuel poll a.should_write d reads (
        short_read-reason a nothing buffer count d returned
        ∙ ap (λ b. reason_of b a.should_write) again)
