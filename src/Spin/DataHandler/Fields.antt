-- ===== src/Spin/DataHandler/Fields.antt =====
-- The second loop of onDataReady on header fields of the form `name: value`.
use mathlib.Core.List.{reverse, reverse-reverse}
use arachnida.Base.{
  ℕ, zero, suc, ◌+◌, ◌<◌, true, false, [], ◌∷◌, ◌++◌, append_assoc, append-nil, some, Bytes, length,
  length-append, All, ◌≡◌, ◌≢◌, refl, ap, ◌∙◌, arith, ok,
}
use arachnida.Base.Reverse.{reverse_aux-ne-nil}
use arachnida.Acari.ParsingHelpers.{
  is_ignorable_white_space, is_new_line, at_end, take_while, advance_through_ignorable_white_space,
  more_headers, find_header_end, split_header,
}
use arachnida.Acari.ParsingHelpers.HeaderEnd.{Ends, find_header_end_line}
use arachnida.Acari.ParsingHelpers.HeaderLine.{
  IsName, IsValue, header_line, split_header-header_line, header_line-in_line,
}
use arachnida.Acari.ParsingHelpers.RequestLine.{Follows, word_starts}
use arachnida.Acari.ParsingHelpers.Spans.{Holds, Stops, take_while-append, drop_while-append}
use arachnida.Spin.Message.{Header, HeaderFields, Request}
use arachnida.Spin.DataHandler.{Progress, add_header, read_headers}

abbrev pub crlf : Bytes
crlf = 13 ∷ 10 ∷ []

-- Each header field behind a line end, then the empty line.
abbrev pub fields_text : HeaderFields → Bytes → Bytes
fields_text [] rest = crlf ++ (crlf ++ rest)
fields_text (h ∷ hs) rest = crlf ++ (header_line h.name h.value ++ fields_text hs rest)

abbrev pub IsField : Header → Type 0
IsField h = IsName h.name × IsValue h.value

-- What follows a body must not start with white space.
abbrev pub Starts : Bytes → Type 0
Starts = Stops is_ignorable_white_space

name-Starts : (name s : Bytes) → IsName name → Starts (name ++ s)
name-Starts name s h = word_starts name s (record { ne_nil = h.ne_nil; words = h.words })

pub header_line-Starts : (name value s : Bytes) → IsName name → Starts (header_line name value ++ s)
header_line-Starts name value s h =
    rw (append_assoc name (b':' ∷ b' ' ∷ value) s) (name-Starts name ((b':' ∷ b' ' ∷ value) ++ s) h)

pub crlf-Holds : Holds is_ignorable_white_space crlf × Holds is_new_line crlf
unfolding is_ignorable_white_space is_new_line
crlf-Holds = ((refl, (refl, tt)), (refl, (refl, tt)))

-- One round of the second loop, from what its calls return.
read_headers_round :
    (fuel : ℕ) (r : Request) (s skipped whence back ahead : Bytes) (h : Bytes × Bytes)
    → take_while is_ignorable_white_space s ≡ skipped
    → advance_through_ignorable_white_space s ≡ whence
    → more_headers skipped ≡ true
    → find_header_end whence ≡ (back, ahead)
    → at_end back ≡ false
    → split_header (reverse back) ≡ ok h
    → at_end ahead ≡ false
    → read_headers (suc fuel) r s false ≡ read_headers fuel (add_header r h) ahead false
read_headers_round fuel r s skipped whence back ahead h e1 e2 e3 e4 e5 e6 e7 =
    unfold read_headers in ground arith

pub at_end-ne : (s : Bytes) → s ≢ [] → at_end s ≡ false
unfolding at_end
at_end-ne [] h = absurd (h refl)
at_end-ne (c ∷ s) h = refl

pub reverse-ne : (s : Bytes) → s ≢ [] → reverse s ≢ []
reverse-ne [] h = absurd (h refl)
reverse-ne (c ∷ s) h = reverse_aux-ne-nil s c []

header_line-ne : (name value : Bytes) → IsName name → header_line name value ≢ []
header_line-ne [] value h = absurd (h.ne_nil refl)
header_line-ne (c ∷ name) value h = cc

pub line_append-ne : (name value s : Bytes) → IsName name → header_line name value ++ s ≢ []
line_append-ne [] value s h = absurd (h.ne_nil refl)
line_append-ne (c ∷ name) value s h = cc

crlf-newlines : Holds is_new_line (crlf ++ crlf)
unfolding is_new_line
crlf-newlines = (refl, (refl, (refl, (refl, tt))))

-- One round of the second loop reads one header field.
pub read_headers-field :
    (fuel : ℕ) (r : Request) (h : Header) (rest nl : Bytes)
    → IsField h
    → Holds is_new_line nl
    → nl ≢ []
    → Ends nl rest
    → at_end (nl ++ rest) ≡ false
    → read_headers (suc fuel) r (crlf ++ (header_line h.name h.value ++ (nl ++ rest))) false
      ≡ read_headers fuel (add_header r (h.name, h.value)) (nl ++ rest) false
read_headers-field fuel r h rest nl (hn, hv) hnl ne e more =
    let line = header_line h.name h.value in
    let whence = line ++ (nl ++ rest) in
    let starts = header_line-Starts h.name h.value (nl ++ rest) hn in
    read_headers_round fuel r (crlf ++ whence) crlf whence (reverse line) (nl ++ rest)
      (h.name, h.value) (take_while-append is_ignorable_white_space crlf whence crlf-Holds.0 starts)
      (unfold advance_through_ignorable_white_space in
        drop_while-append is_ignorable_white_space crlf whence crlf-Holds.0 starts)
      (unfold more_headers in refl)
      (find_header_end_line line nl rest (header_line-in_line h.name h.value hn hv)
        (header_line-ne h.name h.value hn) hnl ne e)
      (at_end-ne (reverse line) (reverse-ne line (header_line-ne h.name h.value hn)))
      (rw (reverse-reverse line) (split_header-header_line h.name h.value hn hv.trimmed)) more

pub Ends-Starts : (nl s : Bytes) → Starts s → (s ≡ [] → more_headers nl ≡ false) → Ends nl s
Ends-Starts nl [] h last = last refl
Ends-Starts nl (c ∷ s) h last = ground (arith, h)

abbrev pub got : Request → Bytes → Progress
got r rest = record { request = some r; rest = rest; end_of_headers_found = true }

read_headers_last :
    (fuel : ℕ) (r : Request) (s skipped whence : Bytes)
    → take_while is_ignorable_white_space s ≡ skipped
    → advance_through_ignorable_white_space s ≡ whence
    → more_headers skipped ≡ false
    → read_headers (suc fuel) r s false ≡ ok (got r whence)
read_headers_last fuel r s skipped whence e1 e2 e3 = unfold read_headers in ground arith

-- The empty line ends the headers.
read_headers-empty :
    (fuel : ℕ) (r : Request) (rest : Bytes)
    → Starts rest
    → read_headers (suc fuel) r (crlf ++ (crlf ++ rest)) false ≡ ok (got r rest)
read_headers-empty fuel r rest h =
    let blank = crlf ++ crlf in
    let both : Holds is_ignorable_white_space blank =
      unfold is_ignorable_white_space in (refl, (refl, (refl, (refl, tt)))) in
    let skipped : take_while is_ignorable_white_space (blank ++ rest) ≡ blank =
      take_while-append is_ignorable_white_space blank rest both h in
    let whence : advance_through_ignorable_white_space (blank ++ rest) ≡ rest =
      unfold advance_through_ignorable_white_space in
      drop_while-append is_ignorable_white_space blank rest both h in
    read_headers_last fuel r (crlf ++ (crlf ++ rest)) blank rest skipped whence
      (unfold more_headers in refl)

abbrev pub with_fields : Request → HeaderFields → Request
with_fields r hs = record r { header_fields = r.header_fields ++ hs }

pub read_headers-fields :
    (hs : HeaderFields) (fuel : ℕ) (r : Request) (rest : Bytes)
    → All IsField hs
    → Starts rest
    → length hs < fuel
    → read_headers fuel r (fields_text hs rest) false ≡ ok (got (with_fields r hs) rest)
read_headers-fields hs zero r rest fs h lt = absurd (omega arith)
read_headers-fields [] (suc fuel) r rest fs h lt = rw append-nil (read_headers-empty fuel r rest h)
read_headers-fields (x ∷ []) (suc fuel) r rest (fx, fs) h lt =
    read_headers-field fuel r x rest (crlf ++ crlf) fx crlf-newlines (cc)
      (Ends-Starts (crlf ++ crlf) rest h (λ e. unfold more_headers in refl)) (unfold at_end in refl)
    ∙ read_headers-fields [] fuel (add_header r (x.name, x.value)) rest fs h (omega arith)
    ∙ ap (λ (fields : HeaderFields). ok (got (record r { header_fields = fields }) rest))
        (append_assoc r.header_fields (x ∷ []) [])
read_headers-fields (x ∷ y ∷ hs) (suc fuel) r rest (fx, (fy, fs)) h lt =
    read_headers-field fuel r x (header_line y.name y.value ++ fields_text hs rest) crlf fx
      crlf-Holds.1 (cc)
      (Ends-Starts crlf _ (header_line-Starts y.name y.value (fields_text hs rest) fy.0)
        (λ e. absurd (line_append-ne y.name y.value _ fy.0 e)))
      (unfold at_end in refl)
    ∙ read_headers-fields (y ∷ hs) fuel (add_header r (x.name, x.value)) rest (fy, fs) h
        (omega arith)
    ∙ ap (λ (fields : HeaderFields). ok (got (record r { header_fields = fields }) rest))
        (append_assoc r.header_fields (x ∷ []) (y ∷ hs))

pub length-fields_text :
    (hs : HeaderFields) (rest : Bytes) → length hs + length rest < length (fields_text hs rest)
length-fields_text [] rest = omega arith
length-fields_text (h ∷ hs) rest = omega (
  arith,
  length-fields_text hs rest,
  length-append (header_line h.name h.value) (fields_text hs rest),
)

pub fields_follow : (hs : HeaderFields) (rest : Bytes) → Follows (fields_text hs rest)
unfolding at_end is_ignorable_white_space
fields_follow [] rest = record { space = refl; more = refl }
fields_follow (h ∷ hs) rest = record { space = refl; more = refl }
