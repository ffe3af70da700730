-- ===== src/Spin/Grammar/StatusLines.antt =====
-- The rule `Status_Line_` and the client's parser on the first line that the server writes.
use arachnida.Base.{
  ◌<◌, ℕ, zero, suc, Bool, true, ◌||◌, ◌∷◌, [], ◌++◌, Option, some, Bytes, length, drop,
  drop-append, within, All, ◌≡◌, refl, sym, ap, ◌∙◌, arith, ok,
}
use arachnida.Acari.ParsingHelpers.Spans.{Holds}
use mathlib.Core.Path.{subst}
use arachnida.Acari.ParsingHelpers.{
  is_word, is_ignorable_white_space, is_supported_protocol, extract_response_header,
}
use arachnida.Acari.ParsingHelpers.HeaderLine.{header_line}
use arachnida.Acari.ParsingHelpers.RequestLine.{IsWord}
use arachnida.Spin.DataHandler.Fields.{fields_text, crlf, IsField, header_line-Starts}
use arachnida.Spin.Message.{HeaderFields}
use arachnida.Spin.Response.{Response, complete_fields, serialize}
use arachnida.Spin.Response.StatusLine.{IsReason, serialize-line, extract_response_header-serialize}
use arachnida.Spin.Grammar.{Parser, ◌>>◌, ◌<|>◌, ◌<->◌, positive}
use arachnida.Spin.Grammar.Basic.{digit, cr, lf, sp, ht, ctl, octet, lws, text, http_version}
use arachnida.Spin.Grammar.Basic as Basic
use arachnida.Spin.Grammar.Messages.{status_code, reason_phrase, status_line}
use arachnida.Spin.Grammar.Spirit.{Outcome, miss, hit, IsSpirit}
use arachnida.Spin.Grammar.Chars.{takes, takes-miss, kleene-takes}
use arachnida.Spin.Grammar.Blanks.{no_blank, no_lws, crlf-hit}
use arachnida.Spin.Grammar.Requests.{http_version-supported}
use arachnida.Spin.Grammar.StatusCodes.{starts_with_digits, status_code-digits}

-- A byte that is no control character.
abbrev pub is_printable : ℕ → Bool
is_printable c = within 32 126 c || within 128 255 c

-- What stands behind the first line and its end.
abbrev pub after_line : HeaderFields → Bytes → Bytes
after_line [] body = crlf ++ body
after_line (h ∷ hs) body = header_line h.name h.value ++ fields_text hs body

fields_text-after_line :
    (hs : HeaderFields) (body : Bytes) → fields_text hs body ≡ crlf ++ after_line hs body
fields_text-after_line [] body = refl
fields_text-after_line (h ∷ hs) body = refl

printable-takes :
    (s : Bytes)
    → All (λ c. is_printable c ≡ true) s
    → All (λ c. takes (text <-> cr <-> lf) c ≡ some true) s
unfolding takes text octet ctl lws cr lf
printable-takes [] h = tt
printable-takes (c ∷ s) (h, hs) = (ground arith, printable-takes s hs)

starts_with_digits-append :
    (n : ℕ) (t s : Bytes) → starts_with_digits n t ≡ true → starts_with_digits n (t ++ s) ≡ true
unfolding starts_with_digits
starts_with_digits-append zero t s h = refl
starts_with_digits-append (suc n) [] s h = cc
starts_with_digits-append (suc n) (c ∷ t) s h = ground (arith, starts_with_digits-append n t s)

digits-Holds : (n : ℕ) (t : Bytes) → length t ≡ n → starts_with_digits n t ≡ true → Holds is_word t
unfolding starts_with_digits is_ignorable_white_space
digits-Holds zero [] e h = tt
digits-Holds zero (c ∷ t) e h = absurd (omega arith)
digits-Holds (suc n) [] e h = cc
digits-Holds (suc n) (c ∷ t) e h = (ground arith, digits-Holds n t (omega arith) (ground arith))

digits-IsWord :
    (n : ℕ) (t : Bytes) → length t ≡ n → starts_with_digits n t ≡ true → 0 < n → IsWord t
digits-IsWord n t e h pos = record {
  ne_nil = λ q. absurd (omega (arith, ap length q));
  words = digits-Holds n t e h;
}

module _ {Parses : Parser → ℕ → Bytes → Outcome → Type 0} (spirit : IsSpirit Parses) where
  after_line-blank :
      (hs : HeaderFields) (body : Bytes) (k : ℕ)
      → All IsField hs
      → Parses (positive (sp <|> ht)) k (after_line hs body) (miss k)
  after_line-blank [] body k h =
      takes-miss spirit (positive (sp <|> ht)) 13 k (10 ∷ body) (unfold takes sp ht in refl)
  after_line-blank (x ∷ hs) body k ((name, value), _) =
      no_blank spirit k (after_line (x ∷ hs) body)
        (header_line-Starts x.name x.value (fields_text hs body) name)

  phrase_end :
      (k : ℕ) (s : Bytes)
      → Parses (positive (sp <|> ht)) k s (miss k)
      → Parses (text <-> cr <-> lf) k (13 ∷ 10 ∷ s) (miss k)
  unfolding text
  phrase_end k s h =
      let line = 13 ∷ 10 ∷ s in
      spirit.minus_none (text <-> cr) lf k k line (
        spirit.minus_none text cr k k line (
          spirit.second (octet <-> ctl) lws k k line (miss k)
            (takes-miss spirit (octet <-> ctl) 13 k (10 ∷ s) (unfold takes octet ctl in refl))
            (no_lws spirit k s h)))

  status_line-text :
      (p t reason : Bytes) (k : ℕ) (s : Bytes)
      → is_supported_protocol p ≡ true
      → length t ≡ 3
      → starts_with_digits 3 t ≡ true
      → All (λ c. is_printable c ≡ true) reason
      → Parses (positive (sp <|> ht)) k s (miss k)
      → Parses status_line k (p ++ b' ' ∷ (t ++ b' ' ∷ (reason ++ 13 ∷ 10 ∷ s))) (hit k s)
  unfolding status_line sp reason_phrase
  status_line-text p t reason k s hp n d hr hs =
      let line = 13 ∷ 10 ∷ s in
      let phrase = reason ++ line in
      let code = t ++ b' ' ∷ phrase in
      let whole = p ++ b' ' ∷ code in
      let taken : Parses status_code k code (hit k (b' ' ∷ phrase)) =
        let e : drop 3 code ≡ b' ' ∷ phrase =
          subst (λ n. drop n code ≡ b' ' ∷ phrase) n (drop-append t (b' ' ∷ phrase)) in
        subst (λ r. Parses status_code k code (hit k r)) e
          (rw (starts_with_digits-append 3 t (b' ' ∷ phrase) d) at
            (status_code-digits spirit k code)) in
      spirit.seq (http_version >> sp >> status_code >> sp >> reason_phrase) Basic.crlf k k whole
        line (hit k s)
        (spirit.seq (http_version >> sp >> status_code >> sp) reason_phrase k k whole phrase
          (hit k line)
          (spirit.seq (http_version >> sp >> status_code) sp k k whole (b' ' ∷ phrase)
            (hit k phrase)
            (spirit.seq (http_version >> sp) status_code k k whole code (hit k (b' ' ∷ phrase))
              (spirit.seq http_version sp k k whole (b' ' ∷ code) (hit k code)
                (http_version-supported spirit p b' ' k code hp (unfold takes digit in refl))
                (spirit.ch b' ' k code))
              taken)
            (spirit.ch b' ' k phrase))
          (kleene-takes spirit (text <-> cr <-> lf) reason k line (printable-takes reason hr)
            (phrase_end k s hs)))
        (crlf-hit spirit k s)

-- The grammar's rule for a status line and the client's parser agree on the first line of what the
-- server writes: the rule takes the line with its end, and the client's parser reads the protocol, the
-- code and the reason that the response has, and stops where the line ends. The protocol is supported,
-- the code is printed as three digits that the client reads back, the reason is not empty, one line of
-- characters that are no control characters, and does not start with white space, and the header fields
-- are of the form that a header may have. Spirit's combinators do what is documented of them.
pub status_line-serialize :
    {Parses : Parser → ℕ → Bytes → Outcome → Type 0}
    → IsSpirit Parses
    → (to_text : ℕ → Bytes) (lexical_cast : Bytes → Option ℕ) {R : Type 0}
      (make : Bytes → ℕ → Bytes → R) (r : Response) (k : ℕ)
    → is_supported_protocol r.protocol_and_version ≡ true
    → length (to_text r.status_code) ≡ 3
    → starts_with_digits 3 (to_text r.status_code) ≡ true
    → lexical_cast (to_text r.status_code) ≡ some r.status_code
    → IsReason r.reason_string
    → All (λ c. is_printable c ≡ true) r.reason_string
    → All IsField (complete_fields to_text r)
    → Parses status_line k
        (serialize to_text r)
        (hit k (after_line (complete_fields to_text r) r.body))
      × (extract_response_header make lexical_cast (serialize to_text r)
          ≡ ok (
              some (
                make r.protocol_and_version r.status_code r.reason_string,
                crlf ++ after_line (complete_fields to_text r) r.body,
              )))
status_line-serialize {Parses} spirit to_text lexical_cast make r k hp n d inverse reason printable
      fields =
    let hs = complete_fields to_text r in
    let rest = after_line hs r.body in
    let code = to_text r.status_code in
    let e : fields_text hs r.body ≡ crlf ++ rest = fields_text-after_line hs r.body in
    let line =
      serialize-line to_text lexical_cast make r
      ∙ ap (λ t. r.protocol_and_version ++ b' ' ∷ (code ++ b' ' ∷ (r.reason_string ++ t))) e in
    (
      subst (λ t. Parses status_line k t (hit k rest)) (sym line)
          (status_line-text spirit r.protocol_and_version code r.reason_string k rest hp n d
            printable (after_line-blank spirit hs r.body k fields)),
      subst
          (λ t.
            extract_response_header make lexical_cast (serialize to_text r)
            ≡ ok (some (make r.protocol_and_version r.status_code r.reason_string, t)))
          e
          (extract_response_header-serialize to_text lexical_cast make r hp
            (digits-IsWord 3 code n d (omega arith)) inverse reason),
    )
