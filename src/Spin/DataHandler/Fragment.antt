-- ===== src/Spin/DataHandler/Fragment.antt =====
-- The header loop of lib/Spin/Handlers/HTTPDataHandler.cpp on header fields that are cut.
use arachnida.Base.{
  ℕ, zero, suc, ◌<◌, true, false, List, [], ◌∷◌, ◌++◌, append_assoc, append-nil, some, Bytes,
  length, All, ◌≡◌, ◌≢◌, refl, ap, ◌∙◌, arith, ok, length-append,
}
use arachnida.Acari.ParsingHelpers.{
  is_ignorable_white_space, is_new_line, is_in_line, at_end, take_while,
  advance_through_ignorable_white_space, more_headers, backup_through_newlines, header_end_at_end,
  through_line, find_header_end,
}
use arachnida.Acari.ParsingHelpers.HeaderLine.{header_line}
use arachnida.Acari.ParsingHelpers.Spans.{Holds, Stops, take_while-append, drop_while-append}
use arachnida.Spin.DataHandler.{Progress, add_header, read_headers}
use arachnida.Spin.DataHandler.Fields.{
  crlf, IsField, Starts, with_fields, read_headers-field, Ends-Starts, line_append-ne, crlf-Holds,
  header_line-Starts,
}
use arachnida.Spin.Message.{Header, HeaderFields, Request}

-- A part of a header field without its line end.
pub record IsFragment (s : Bytes) : Type 0 where
  pub ne_nil : s ≢ []
  pub in_line : Holds is_in_line s
  pub starts : Starts s

abbrev NoLineEnd : Bytes → Type 0
NoLineEnd [] = Unit {0}
NoLineEnd (c ∷ s) = is_in_line c ≡ true

header_end_at_end-fragment :
    (from_where passed : Bytes)
    → NoLineEnd passed
    → header_end_at_end from_where passed ≡ ([], from_where)
unfolding header_end_at_end backup_through_newlines more_headers
header_end_at_end-fragment from_where [] h = refl
header_end_at_end-fragment from_where (c ∷ []) h = refl
header_end_at_end-fragment from_where (c ∷ d ∷ passed) h = ground arith

through_line-fragment :
    (s from_where passed : Bytes)
    → Holds is_in_line s
    → NoLineEnd passed
    → through_line from_where passed s ≡ ([], from_where)
unfolding through_line
through_line-fragment [] from_where passed hs hp = header_end_at_end-fragment from_where passed hp
through_line-fragment (c ∷ s) from_where passed (hc, hs) hp =
    ground (arith, through_line-fragment s from_where (c ∷ passed) hs hc)

-- The end of a header is not found.
find_header_end-fragment : (s : Bytes) → IsFragment s → find_header_end s ≡ ([], s)
unfolding find_header_end
find_header_end-fragment s h = through_line-fragment s s [] h.in_line tt

-- A round of the header loop that stops at a fragment.
pub read_headers_stops :
    (fuel : ℕ) (q : Request) (s skipped whence : Bytes)
    → take_while is_ignorable_white_space s ≡ skipped
    → advance_through_ignorable_white_space s ≡ whence
    → more_headers skipped ≡ true
    → find_header_end whence ≡ ([], whence)
    → read_headers (suc fuel) q s false
      ≡ ok (record { request = some q; rest = whence; end_of_headers_found = false })
read_headers_stops fuel q s skipped whence e1 e2 e3 e4 = unfold read_headers at_end in ground arith

-- Header fields, each behind a line end, and a fragment behind one.
abbrev pub cut_text : List Header → Bytes → Bytes
cut_text [] s = crlf ++ s
cut_text (h ∷ hs) s = crlf ++ (header_line h.name h.value ++ cut_text hs s)

abbrev pub stopped : Request → Bytes → Progress
stopped q s = record { request = some q; rest = s; end_of_headers_found = false }

pub read_headers-fragment :
    (fuel : ℕ) (q : Request) (s : Bytes)
    → IsFragment s
    → read_headers (suc fuel) q s false ≡ ok (stopped q s)
read_headers-fragment fuel q s h =
    read_headers_stops fuel q s [] s (take_while-append is_ignorable_white_space [] s tt h.starts)
      (unfold advance_through_ignorable_white_space in
        drop_while-append is_ignorable_white_space [] s tt h.starts)
      (unfold more_headers in refl) (find_header_end-fragment s h)

pub read_headers-cut_text :
    (hs : List Header) (fuel : ℕ) (q : Request) (s : Bytes)
    → All IsField hs
    → IsFragment s
    → length hs < fuel
    → read_headers fuel q (cut_text hs s) false ≡ ok (stopped (with_fields q hs) s)
read_headers-cut_text hs zero q s fs h lt = absurd (omega arith)
read_headers-cut_text [] (suc fuel) q s fs h lt = rw append-nil (
    read_headers_stops fuel q (crlf ++ s) crlf s
      (take_while-append is_ignorable_white_space crlf s crlf-Holds.0 h.starts)
      (unfold advance_through_ignorable_white_space in
        drop_while-append is_ignorable_white_space crlf s crlf-Holds.0 h.starts)
      (unfold more_headers in refl) (find_header_end-fragment s h))
read_headers-cut_text (x ∷ []) (suc fuel) q s (fx, fs) h lt =
    read_headers-field fuel q x s crlf fx crlf-Holds.1 (cc)
      (Ends-Starts crlf s h.starts (λ e. absurd (h.ne_nil e))) (unfold at_end in refl)
    ∙ read_headers-cut_text [] fuel (add_header q (x.name, x.value)) s fs h (omega arith)
    ∙ ap (λ (fields : HeaderFields). ok (stopped (record q { header_fields = fields }) s))
        (append_assoc q.header_fields (x ∷ []) [])
read_headers-cut_text (x ∷ y ∷ hs) (suc fuel) q s (fx, (fy, fs)) h lt =
    read_headers-field fuel q x (header_line y.name y.value ++ cut_text hs s) crlf fx crlf-Holds.1
      (cc)
      (Ends-Starts crlf _ (header_line-Starts y.name y.value (cut_text hs s) fy.0)
        (λ e. absurd (line_append-ne y.name y.value _ fy.0 e)))
      (unfold at_end in refl)
    ∙ read_headers-cut_text (y ∷ hs) fuel (add_header q (x.name, x.value)) s (fy, fs) h
        (omega arith)
    ∙ ap (λ (fields : HeaderFields). ok (stopped (record q { header_fields = fields }) s))
        (append_assoc q.header_fields (x ∷ []) (y ∷ hs))

pub length-cut_text : (hs : List Header) (s : Bytes) → length hs < length (cut_text hs s)
length-cut_text [] s = omega arith
length-cut_text (h ∷ hs) s =
    omega (arith, length-cut_text hs s, length-append (header_line h.name h.value) (cut_text hs s))

pub cut_text-Stops :
    (hs : List Header) (s : Bytes)
    → (at_end (cut_text hs s) ≡ false) × Stops is_in_line (cut_text hs s)
unfolding at_end is_new_line
cut_text-Stops [] s = (refl, refl)
cut_text-Stops (h ∷ hs) s = (refl, refl)
