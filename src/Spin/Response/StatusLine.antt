-- ===== src/Spin/Response/StatusLine.antt =====
-- The status line that the server writes, as the client reads it.
use arachnida.Base.{
  ℕ, true, false, [], ◌∷◌, ◌++◌, append_assoc, Option, some, Bytes, codes, ◌≡◌, ◌≢◌, refl, ap, ◌∙◌,
  ok,
}
use arachnida.Acari.ParsingHelpers.{
  is_new_line, is_in_line, at_end, is_supported_protocol, extract_response_header,
  advance_through_ignorable_white_space, advance_until_ignorable_white_space,
  advance_until_end_of_line,
}
use arachnida.Acari.ParsingHelpers.HeaderLine.{header_line}
use arachnida.Acari.ParsingHelpers.RequestLine.{
  IsWord, word_starts, word_read, behind_space, skip_none, skip_space,
}
use arachnida.Acari.ParsingHelpers.Spans.{Holds, Stops, take_while-append, drop_while-append}
use arachnida.Spin.DataHandler.Fields.{fields_text, Starts}
use arachnida.Spin.DataHandler.Words.{is_supported_protocol-IsWord}
use arachnida.Spin.Message.{HeaderFields}
use arachnida.Spin.Response.{Response, append_headers, complete_fields, serialize}

append_headers-fields_text :
    (hs : HeaderFields) (text body : Bytes)
    → (append_headers (text ++ codes "\r\n") hs ++ codes "\r\n") ++ body
      ≡ text ++ fields_text hs body
unfolding append_headers
append_headers-fields_text [] text body = simp append_assoc
append_headers-fields_text (h ∷ hs) text body =
    let line = header_line h.name h.value in
    let next = text ++ (codes "\r\n" ++ line) in
    let regroup : (text ++ codes "\r\n") ++ (h.name ++ (codes ": " ++ (h.value ++ codes "\r\n")))
        ≡ next ++ codes "\r\n" =
      simp append_assoc in
    ap (λ t. (append_headers t hs ++ codes "\r\n") ++ body) regroup
    ∙ append_headers-fields_text hs next body
    ∙ append_assoc text (codes "\r\n" ++ line) (fields_text hs body)

-- A line that starts with a word: what a status line may end with.
pub record IsReason (reason : Bytes) : Type 0 where
  pub ne_nil : reason ≢ []
  pub in_line : Holds is_in_line reason
  pub starts : Starts reason

reason-Starts : (reason s : Bytes) → IsReason reason → Starts (reason ++ s)
reason-Starts [] s h = absurd (h.ne_nil refl)
reason-Starts (c ∷ r) s h = h.starts

-- The text behind the status line: the header fields and the body.
module _ (to_text : ℕ → Bytes) (lexical_cast : Bytes → Option ℕ) {R : Type 0}
    (make : Bytes → ℕ → Bytes → R) where
  abbrev pub behind : Response → Bytes
  behind r = fields_text (complete_fields to_text r) r.body

  pub serialize-line :
      (r : Response)
      → serialize to_text r
        ≡ r.protocol_and_version
          ++ (b' ' ∷ (to_text r.status_code ++ (b' ' ∷ (r.reason_string ++ behind r))))
  unfolding serialize
  serialize-line r =
      let text =
        r.protocol_and_version
        ++ (codes " " ++ (to_text r.status_code ++ (codes " " ++ r.reason_string))) in
      let regroup : r.protocol_and_version
            ++ (codes " "
                ++ (to_text r.status_code ++ (codes " " ++ (r.reason_string ++ codes "\r\n"))))
          ≡ text ++ codes "\r\n" =
        simp append_assoc in
      ap (λ (t : Bytes). (append_headers t (complete_fields to_text r) ++ codes "\r\n") ++ r.body)
        regroup
      ∙ append_headers-fields_text (complete_fields to_text r) text r.body
      ∙ simp append_assoc

  pub extract_response_header-line :
      (protocol code reason rest : Bytes) (n : ℕ)
      → IsWord protocol
      → IsWord code
      → IsReason reason
      → is_supported_protocol protocol ≡ true
      → lexical_cast code ≡ some n
      → at_end rest ≡ false
      → Stops is_in_line rest
      → extract_response_header make lexical_cast
          (protocol ++ (b' ' ∷ (code ++ (b' ' ∷ (reason ++ rest)))))
        ≡ ok (some (make protocol n reason, rest))
  unfolding extract_response_header advance_through_ignorable_white_space
      advance_until_ignorable_white_space advance_until_end_of_line
  extract_response_header-line protocol code reason rest n hp hc hr ps cast more stop =
      let s3 = reason ++ rest in
      let s2 = code ++ (b' ' ∷ s3) in
      let s1 = protocol ++ (b' ' ∷ s2) in
      let read1 = word_read protocol (b' ' ∷ s2) hp (behind_space s2) in
      let read2 = word_read code (b' ' ∷ s3) hc (behind_space s3) in
      rw (
        skip_none s1 (word_starts protocol _ hp),
        read1.0,
        read1.1,
        skip_space s2 (word_starts code _ hc),
        read2.0,
        read2.1,
        skip_space s3 (reason-Starts reason rest hr),
        take_while-append is_in_line reason rest hr.in_line stop,
        drop_while-append is_in_line reason rest hr.in_line stop,
        more,
        ps,
        cast,
      )

  pub fields_stop :
      (hs : HeaderFields) (body : Bytes)
      → (at_end (fields_text hs body) ≡ false) × Stops is_in_line (fields_text hs body)
  unfolding at_end is_new_line
  fields_stop [] body = (refl, refl)
  fields_stop (h ∷ hs) body = (refl, refl)

  -- The client reads from a serialized response the protocol, the status code and the reason string
  -- that it was made of, and stops at the line end before the header fields, which are the response's
  -- with the length of its body. The protocol is one that the client supports, the number is printed as
  -- one word that is read back, and the reason is one line that does not start with white space.
  pub extract_response_header-serialize :
      (r : Response)
      → is_supported_protocol r.protocol_and_version ≡ true
      → IsWord (to_text r.status_code)
      → lexical_cast (to_text r.status_code) ≡ some r.status_code
      → IsReason r.reason_string
      → extract_response_header make lexical_cast (serialize to_text r)
        ≡ ok (some (make r.protocol_and_version r.status_code r.reason_string, behind r))
  extract_response_header-serialize r ps word inverse reason =
      let stops = fields_stop (complete_fields to_text r) r.body in
      rw (serialize-line r) (
        extract_response_header-line r.protocol_and_version (to_text r.status_code) r.reason_string
          (behind r) r.status_code (is_supported_protocol-IsWord r.protocol_and_version ps) word
          reason ps inverse stops.0 stops.1)
