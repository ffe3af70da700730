-- ===== src/Spin/Grammar/Requests/Whole.antt =====
-- The grammar's rule `Request_` and the server's data handler on the text of one request.
use arachnida.Base.{
  ℕ, codes, true, false, List, ◌∷◌, [], ◌++◌, append-nil, Option, none, some, Bytes, All, IsByte,
  ◌≡◌, refl, sym, ap, ◌∙◌, arith,
}
use mathlib.Core.Path.{subst}
use arachnida.Acari.ParsingHelpers.{is_supported_protocol}
use arachnida.Spin.DataHandler.Fields.{Starts}
use arachnida.Spin.Message.{Request, HeaderFields}
use arachnida.Spin.DataHandler.{is_supported_method, find_header, on_data_ready, finished}
use arachnida.Spin.DataHandler.Wire.{request_text, IsWire, Declares, on_data_ready-requests_text}
use arachnida.Spin.Grammar.{Parser, ch_p, ◌>>◌, ◌<|>◌, kleene, positive, optional, never}
use arachnida.Spin.Grammar.Basic.{crlf, octet, lws}
use arachnida.Spin.Grammar.Fields.{
  accept, accept_charset, accept_encoding, accept_language, authorization,
}
use arachnida.Spin.Grammar.Headers.{
  expect, expectation, host_header, if_modified_since, if_unmodified_since, max_forwards, referer,
  user_agent,
}
use arachnida.Spin.Grammar.Entities.{entity_header}
use arachnida.Spin.Grammar.Messages.{
  request_line, general_header, request_header, message_body, request, if_match, if_none_match,
  range,
}
use arachnida.Spin.Grammar.Spirit.{Outcome, miss, hit, IsSpirit}
use arachnida.Spin.Grammar.Interpreter.{run}
use arachnida.Spin.Grammar.Sound.{run_sound}
use arachnida.Spin.Grammar.Blanks.{no_blank, no_lws}
use arachnida.Spin.Grammar.Chars.{takes, takes-miss, positive-takes}
use arachnida.Spin.Grammar.Requests.{IsSegment, path_text, path_text-append, request_line-text}

octet-takes : (s : Bytes) → All IsByte s → All (λ c. takes octet c ≡ some true) s
unfolding takes octet
octet-takes [] h = tt
octet-takes (c ∷ s) (h, hs) = (ground arith, octet-takes s hs)

abbrev alternatives : Parser → List Parser → Parser
alternatives p [] = p
alternatives p (q ∷ qs) = alternatives (p <|> q) qs

module _ {Parses : Parser → ℕ → Bytes → Outcome → Type 0} (spirit : IsSpirit Parses) where
  body-taken : (b : Bytes) (k : ℕ) → All IsByte b → Parses (optional message_body) k b (hit k [])
  unfolding message_body
  body-taken [] k h =
      run_sound spirit 12 (optional message_body) k [] (unfold run message_body octet in refl)
  body-taken (c ∷ b) k h = spirit.present message_body k k (c ∷ b) [] (
      spirit.first (positive octet) (positive octet) k k (c ∷ b) [] (
        subst (λ s. Parses (positive octet) k (c ∷ s) (hit k [])) (append-nil b)
          (positive-takes spirit octet c b k [] (octet-takes (c ∷ b) h)
            (run_sound spirit 1 octet k [] (unfold run octet in refl)))))

  -- `Expect_` starts with white space, since it lacks the name of its field.
  no_expect : (k : ℕ) (b : Bytes) → Starts b → Parses expect k (13 ∷ 10 ∷ b) (miss k)
  unfolding expect
  no_expect k b h =
      let line = 13 ∷ 10 ∷ b in
      let item = kleene lws >> expectation >> kleene lws in
      spirit.listed item (ch_p b',') k line (miss k) (
        spirit.seq_miss item (kleene (ch_p b',' >> item)) k k line (
          spirit.seq_miss (kleene lws >> expectation) (kleene lws) k k line (
            spirit.seq (kleene lws) expectation k k line line (miss k)
              (spirit.kleene_end lws k k line (no_lws spirit k b (no_blank spirit k b h)))
              (takes-miss spirit expectation 13 k (10 ∷ b) (unfold takes expectation in refl)))))

  alternatives-miss :
      (p : Parser) (qs : List Parser) (c k : ℕ) (s : Bytes)
      → Parses p k (c ∷ s) (miss k)
      → All (λ q. takes q c ≡ some false) qs
      → Parses (alternatives p qs) k (c ∷ s) (miss k)
  alternatives-miss p [] c k s h hs = h
  alternatives-miss p (q ∷ qs) c k s h (e, es) =
      alternatives-miss (p <|> q) qs c k s
        (spirit.second p q k k (c ∷ s) (miss k) h (takes-miss spirit q c k s e)) es

  no_request_header :
      (k : ℕ) (b : Bytes) → Starts b → Parses request_header k (13 ∷ 10 ∷ b) (miss k)
  unfolding request_header takes
  no_request_header k b h =
      let start =
        accept <|> accept_charset <|> accept_encoding <|> accept_language <|> authorization in
      alternatives-miss (start <|> expect)
        (never ∷ host_header ∷ if_match ∷ if_modified_since ∷ if_none_match ∷ never
          ∷ if_unmodified_since ∷ max_forwards ∷ never ∷ range ∷ referer ∷ never ∷ user_agent ∷ [])
        13 k (10 ∷ b)
        (spirit.second start expect k k (13 ∷ 10 ∷ b) (miss k)
          (takes-miss spirit start 13 k (10 ∷ b)
            (unfold accept accept_charset accept_encoding accept_language authorization in refl))
          (no_expect k b h))
        (unfold host_header if_match if_modified_since if_none_match if_unmodified_since
            max_forwards range referer user_agent in
          (
            refl,
            (
              refl,
              (
                refl,
                (refl, (refl, (refl, (refl, (refl, (refl, (refl, (refl, (refl, (refl, tt)))))))))),
              ),
            ),
          ))

  -- At the empty line no header field is read, by any of the rules for one.
  no_field :
      (k : ℕ) (b : Bytes)
      → Starts b
      → Parses
          (kleene ((general_header <|> request_header <|> entity_header) >> crlf))
          k
          (13 ∷ 10 ∷ b)
          (hit k (13 ∷ 10 ∷ b))
  unfolding takes
  no_field k b h =
      let field = general_header <|> request_header <|> entity_header in
      let line = 13 ∷ 10 ∷ b in
      spirit.kleene_end (field >> crlf) k k line (
        spirit.seq_miss field crlf k k line (
          spirit.second (general_header <|> request_header) entity_header k k line (miss k)
            (spirit.second general_header request_header k k line (miss k)
              (takes-miss spirit general_header 13 k (10 ∷ b) (unfold general_header in refl))
              (no_request_header k b h))
            (takes-miss spirit entity_header 13 k (10 ∷ b) (unfold entity_header in refl))))

  -- The rule takes a request with no header field whole, whatever its body.
  request-text :
      (m : Bytes) (s : Bytes) (ss : List Bytes) (p b : Bytes) (k : ℕ)
      → is_supported_method m ≡ true
      → All IsSegment (s ∷ ss)
      → is_supported_protocol p ≡ true
      → All IsByte b
      → Starts b
      → Parses request k
          (m ++ b' ' ∷ path_text (s ∷ ss) (b' ' ∷ (p ++ 13 ∷ 10 ∷ 13 ∷ 10 ∷ b)))
          (hit k [])
  unfolding request
  request-text m s ss p b k hm hs hp hb hw =
      let fields = kleene ((general_header <|> request_header <|> entity_header) >> crlf) in
      let line = 13 ∷ 10 ∷ b in
      let whole = m ++ b' ' ∷ path_text (s ∷ ss) (b' ' ∷ (p ++ 13 ∷ 10 ∷ line)) in
      spirit.seq (request_line >> fields >> crlf) (optional message_body) k k whole b (hit k [])
        (spirit.seq (request_line >> fields) crlf k k whole line (hit k b)
          (spirit.seq request_line fields k k whole line (hit k line)
            (request_line-text spirit m s ss p k line hm hs hp) (no_field k b hw))
          (run_sound spirit 4 crlf k line (unfold run crlf in refl)))
        (body-taken b k hb)

module _ (cast : Bytes → Option ℕ) (connection : ℕ) where
  IsWire-bodiless : (r : Request) → IsWire cast connection r → r.header_fields ≡ [] → r.body ≡ []
  unfolding find_header
  IsWire-bodiless r w e =
      subst
        (λ (fields : HeaderFields).
          Declares cast (find_header (codes "Content-Length") fields) r.body)
        e w.length

  -- The grammar's rule for a request and the data handler of the server agree on the text of a request
  -- without header fields that the data handler can read, of a path of segments as its target: the rule
  -- takes the text whole, with nothing left over, and the data handler hands the same request on, with
  -- nothing left over. Spirit's combinators do what is documented of them.
  pub request_text-agrees :
      {Parses : Parser → ℕ → Bytes → Outcome → Type 0}
      → IsSpirit Parses
      → (r : Request) (s : Bytes) (ss : List Bytes) (k : ℕ) → IsWire cast connection r
      → r.header_fields ≡ []
      → r.url ≡ path_text (s ∷ ss) []
      → All IsSegment (s ∷ ss)
      → Parses request k (request_text r []) (hit k [])
        × (on_data_ready cast connection none (request_text r []) ≡ finished (r ∷ []))
  request_text-agrees {Parses} spirit r s ss k w fields url h = (
    subst (λ t. Parses request k t (hit k []))
        (ap (λ t. r.method ++ b' ' ∷ t)
          (sym (
              path_text-append (s ∷ ss) []
                (b' ' ∷ (r.protocol_and_version ++ 13 ∷ 10 ∷ 13 ∷ 10 ∷ [])))
            ∙ simp (url, fields, IsWire-bodiless r w fields)))
        (request-text spirit r.method s ss r.protocol_and_version [] k w.method h w.protocol tt tt),
    on_data_ready-requests_text cast connection r [] w tt,
  )
