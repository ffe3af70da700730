-- ===== src/Damon/Reception/Whole.antt =====
-- `getResponse` of lib/Damon/Request.cpp on responses that one read brings, and on the responses that
-- lib/Spin/Details/Response.cpp writes.
use arachnida.Base.{
  ℕ, suc, Bool, true, false, List, [], ◌∷◌, ◌++◌, Option, some, Bytes, leb, All, ◌≡◌, refl, ap, ◌∙◌,
  Result, ok, length,
}
use arachnida.Acari.ParsingHelpers.{at_end}
use arachnida.Acari.ParsingHelpers.RequestLine.{IsWord, word_starts}
use arachnida.Damon.Message.{Response}
use arachnida.Damon.Reception.{
  collect, Start, Attribute, no_attribute, Reply, replies, leftover, resize, parse_new, read_more,
  new_response, get_start, go_on, attempts, get_response, Replies, collected, get_responses,
}
use arachnida.Damon.Reception.Fields.{response_text, IsWire, go_on-response_text}
use arachnida.Spin.Connection.{ReadResult}
use arachnida.Spin.DataHandler.Fields.{Starts}
use arachnida.Spin.DataHandler.Words.{is_supported_protocol-IsWord}

-- A read that brings this text, with a reason that the code expects.
pub record Delivers (d : ReadResult) (text : Bytes) : Type 0 where
  pub reason : leb d.reason 2 ≡ true
  pub bytes : resize d.bytes_read d.buffer ≡ text

word_more : (w s : Bytes) → IsWord w → at_end (w ++ s) ≡ false
unfolding at_end
word_more [] s h = absurd (h.ne_nil refl)
word_more (c ∷ w) s h = refl

module _ (to_text : ℕ → Bytes) (cast_code cast_size : Bytes → Option ℕ) where
  -- The texts of several responses, one behind the other.
  abbrev pub responses_text : List Response → Bytes
  responses_text [] = []
  responses_text (r ∷ rs) = response_text to_text r (responses_text rs)

  abbrev pub AllWire : List Response → Type 0
  AllWire = All (IsWire to_text cast_code cast_size)

  responses_text-Starts : (rs : List Response) → AllWire rs → Starts (responses_text rs)
  responses_text-Starts [] h = tt
  responses_text-Starts (r ∷ rs) (w, h) =
      word_starts r.protocol_and_version _
        (is_supported_protocol-IsWord r.protocol_and_version w.status.protocol)

  Starts-append : (a b : Bytes) → Starts a → Starts b → Starts (a ++ b)
  Starts-append [] b ha hb = hb
  Starts-append (c ∷ a) b ha hb = ha

  read_more-Delivers :
      (d : ReadResult) (text : Bytes) (reads : List (Result ReadResult))
      → Delivers d text
      → read_more cast_code cast_size (ok d ∷ reads) [] false false ≡ record {
        progress = some (parse_new cast_code cast_size text false false);
        attribute = no_attribute;
        reads = reads;
      }
  unfolding read_more
  read_more-Delivers d text reads arrives = rw (arrives.reason) (
      ap
        (λ (t : Bytes). record {
          progress = some (parse_new cast_code cast_size t false false);
          attribute = no_attribute;
          reads = reads;
        })
        arrives.bytes)

  -- A call with no attribute starts with what it reads.
  pub get_response-Delivers :
      (fuel : ℕ) (poll : Bool) (d : ReadResult) (text : Bytes) (reads : List (Result ReadResult))
      → Delivers d text
      → get_response cast_code cast_size (suc fuel) poll no_attribute (ok d ∷ reads)
        ≡ go_on cast_code cast_size
            (attempts cast_code cast_size fuel poll true)
            (some (parse_new cast_code cast_size text false false))
            no_attribute
            reads
  unfolding get_response attempts get_start new_response at_end
  get_response-Delivers fuel poll d text reads arrives =
      ap
        (λ (start : Start).
          go_on cast_code cast_size (attempts cast_code cast_size fuel poll true) start.progress
            start.attribute start.reads)
        (read_more-Delivers d text reads arrives)

  get_response-read :
      (fuel : ℕ) (poll : Bool) (d : ReadResult) (reads : List (Result ReadResult)) (r : Response)
      (rs : List Response)
      → Delivers d (responses_text (r ∷ rs))
      → AllWire (r ∷ rs)
      → get_response cast_code cast_size (suc fuel) poll no_attribute (ok d ∷ reads)
        ≡ replies (leftover (responses_text rs) false) reads r
  get_response-read fuel poll d reads r rs arrives (w, ws) =
      get_response-Delivers fuel poll d (responses_text (r ∷ rs)) reads arrives
      ∙ go_on-response_text to_text cast_code cast_size
          (attempts cast_code cast_size fuel poll true) r (responses_text rs) reads w
          (Starts-append r.body (responses_text rs) w.body (responses_text-Starts rs ws))

  -- A call that starts with the responses that are left over.
  get_response-leftover :
      (fuel : ℕ) (reads : List (Result ReadResult)) (r : Response) (rs : List Response)
      → AllWire (r ∷ rs)
      → get_response cast_code cast_size
          (suc fuel)
          false
          (leftover (responses_text (r ∷ rs)) false)
          reads
        ≡ replies (leftover (responses_text rs) false) reads r
  unfolding get_response attempts get_start new_response
  get_response-leftover fuel reads r rs (w, ws) =
      let more : at_end (responses_text (r ∷ rs)) ≡ false =
        word_more r.protocol_and_version _
          (is_supported_protocol-IsWord r.protocol_and_version w.status.protocol) in
      rw (more, more)
        (go_on-response_text to_text cast_code cast_size
          (attempts cast_code cast_size fuel false true) r (responses_text rs) reads w
          (Starts-append r.body (responses_text rs) w.body (responses_text-Starts rs ws)))

  get_responses-round :
      (fuel n : ℕ) (a b : Attribute) (reads left : List (Result ReadResult)) (r : Response)
      → get_response cast_code cast_size fuel false a reads ≡ replies b left r
      → get_responses cast_code cast_size fuel (suc n) (λ i. false) a reads
        ≡ collected (r ∷ []) (get_responses cast_code cast_size fuel n (λ i. false) b left)
  unfolding get_responses collect
  get_responses-round fuel n a b reads left r e =
      ap (λ (reply : Reply). collect reply (get_responses cast_code cast_size fuel n (λ i. false)))
        e

  abbrev pub all_replied : List Response → List (Result ReadResult) → Replies
  all_replied rs reads = record { attribute = no_attribute; reads = reads; result = some (ok rs) }

  get_responses-leftover :
      (fuel : ℕ) (rs : List Response) (reads : List (Result ReadResult))
      → AllWire rs
      → get_responses cast_code cast_size
          (suc fuel)
          (length rs)
          (λ i. false)
          (leftover (responses_text rs) false)
          reads
        ≡ all_replied rs reads
  unfolding get_responses at_end
  get_responses-leftover fuel [] reads w = refl
  get_responses-leftover fuel (r ∷ rs) reads (w, ws) =
      get_responses-round (suc fuel) (length rs) (leftover (responses_text (r ∷ rs)) false)
        (leftover (responses_text rs) false) reads reads r
        (get_response-leftover fuel reads r rs (w, ws))
      ∙ ap (collected (r ∷ [])) (get_responses-leftover fuel rs reads ws)

  -- One or more responses that one read brings are returned by as many calls of `getResponse`: in
  -- order, each with its protocol, status code, reason string, header fields and body as sent. The later
  -- calls do not read, and nothing is left over. Each response is of the form `IsWire`, and no more
  -- bytes can be read meanwhile.
  pub get_responses-responses_text :
      (fuel : ℕ) (r : Response) (rs : List Response) (d : ReadResult)
      (reads : List (Result ReadResult))
      → Delivers d (responses_text (r ∷ rs))
      → AllWire (r ∷ rs)
      → get_responses cast_code cast_size
          (suc fuel)
          (suc (length rs))
          (λ i. false)
          no_attribute
          (ok d ∷ reads)
        ≡ all_replied (r ∷ rs) reads
  get_responses-responses_text fuel r rs d reads arrives (w, ws) =
      get_responses-round (suc fuel) (length rs) no_attribute (leftover (responses_text rs) false)
        (ok d ∷ reads) reads r (get_response-read fuel false d reads r rs arrives (w, ws))
      ∙ ap (collected (r ∷ [])) (get_responses-leftover fuel rs reads ws)
