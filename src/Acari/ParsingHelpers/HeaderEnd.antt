-- ===== src/Acari/ParsingHelpers/HeaderEnd.antt =====
-- Where findHeaderEnd finds the end of a header.
use mathlib.Core.List.{reverse, reverse_aux}
use arachnida.Base.{ℕ, true, false, [], ◌∷◌, ◌++◌, append-nil, Bytes, ◌≡◌, ◌≢◌, refl, ◌∙◌, arith}
use arachnida.Base.Reverse.{
  reverse_aux-append, reverse_aux-reverse_aux, reverse_aux-ne-nil, All-reverse_aux,
}
use arachnida.Acari.ParsingHelpers.{
  is_ignorable_white_space, is_new_line, is_word, is_in_line, more_headers, backup_through_newlines,
  header_end_at_end, through_line, through_newlines, find_header_end,
}
use arachnida.Acari.ParsingHelpers.Spans.{Holds, Stops}

backup_splits :
    (passed ahead : Bytes)
    → reverse_aux (backup_through_newlines passed ahead).0 (backup_through_newlines passed ahead).1
      ≡ reverse_aux passed ahead
unfolding backup_through_newlines
backup_splits [] ahead = refl
backup_splits (c ∷ []) ahead = refl
backup_splits (c ∷ d ∷ passed) ahead = ground (arith, backup_splits (d ∷ passed) (c ∷ ahead))

header_end_at_end_splits :
    (from_where passed : Bytes)
    → reverse_aux passed [] ≡ from_where
    → reverse_aux (header_end_at_end from_where passed).0 (header_end_at_end from_where passed).1
      ≡ from_where
unfolding header_end_at_end
header_end_at_end_splits from_where passed h = ground (arith, backup_splits passed [])

mutual
  unfolding through_line through_newlines

  through_line_splits :
      (s from_where passed : Bytes)
      → reverse_aux passed s ≡ from_where
      → reverse_aux (through_line from_where passed s).0 (through_line from_where passed s).1
        ≡ from_where
  through_line_splits [] from_where passed h = header_end_at_end_splits from_where passed h
  through_line_splits (c ∷ s) from_where passed h = ground (
    arith,
    through_line_splits s from_where (c ∷ passed) h,
    through_newlines_splits s from_where (c ∷ passed) h,
  )

  through_newlines_splits :
      (s from_where passed : Bytes)
      → reverse_aux passed s ≡ from_where
      → reverse_aux
          (through_newlines from_where passed s).0
          (through_newlines from_where passed s).1
        ≡ from_where
  through_newlines_splits [] from_where passed h = header_end_at_end_splits from_where passed h
  through_newlines_splits (c ∷ s) from_where passed h = ground (
    arith,
    through_line_splits s from_where (c ∷ passed) h,
    through_newlines_splits s from_where (c ∷ passed) h,
    backup_splits passed (c ∷ s),
  )

-- The header and what stands behind it make up the buffer: no byte is lost, whatever the buffer is.
pub find_header_end_splits :
    (s : Bytes) → reverse (find_header_end s).0 ++ (find_header_end s).1 ≡ s
unfolding find_header_end
find_header_end_splits s =
    reverse_aux-append (find_header_end s).0 [] (find_header_end s).1
    ∙ through_line_splits s s [] refl

through_line-append :
    (line s from_where passed : Bytes)
    → Holds is_in_line line
    → through_line from_where passed (line ++ s)
      ≡ through_line from_where (reverse_aux line passed) s
unfolding through_line
through_line-append [] s from_where passed h = refl
through_line-append (c ∷ line) s from_where passed (hc, h) =
    ground (arith, through_line-append line s from_where (c ∷ passed) h)

through_newlines-append :
    (nl s from_where passed : Bytes)
    → Holds is_new_line nl
    → through_newlines from_where passed (nl ++ s)
      ≡ through_newlines from_where (reverse_aux nl passed) s
unfolding through_newlines
through_newlines-append [] s from_where passed h = refl
through_newlines-append (c ∷ nl) s from_where passed (hc, h) =
    ground (arith, through_newlines-append nl s from_where (c ∷ passed) h)

-- Stepping back over newlines, down to a byte that is none.
backup_run :
    (nl passed ahead : Bytes)
    → Holds is_new_line nl
    → passed ≢ []
    → Stops is_new_line passed
    → backup_through_newlines (nl ++ passed) ahead ≡ (passed, reverse_aux nl ahead)
unfolding backup_through_newlines
backup_run [] [] ahead h ne stop = absurd (ne refl)
backup_run [] (c ∷ []) ahead h ne stop = refl
backup_run [] (c ∷ d ∷ p) ahead h ne stop = rw stop
backup_run (n ∷ []) [] ahead h ne stop = absurd (ne refl)
backup_run (n ∷ []) (c ∷ p) ahead (hn, h) ne stop =
    rw hn (backup_run [] (c ∷ p) (n ∷ ahead) h ne stop)
backup_run (n ∷ m ∷ nl) passed ahead (hn, h) ne stop =
    rw hn (backup_run (m ∷ nl) passed (n ∷ ahead) h ne stop)

in_line-Stops : (s : Bytes) → Holds is_in_line s → Stops is_new_line s
in_line-Stops [] h = tt
in_line-Stops (c ∷ s) h = ground (arith, h.0)

-- The same for newlines that were passed after a line that is not empty.
backup_line :
    (line nl ahead : Bytes)
    → Holds is_in_line line
    → line ≢ []
    → Holds is_new_line nl
    → backup_through_newlines (reverse_aux nl (reverse line)) ahead ≡ (reverse line, nl ++ ahead)
backup_line [] nl ahead hl ne hn = absurd (ne refl)
backup_line (c ∷ line) nl ahead hl ne hn =
    let back = reverse (c ∷ line) in
    rw (← reverse_aux-append nl [] back) (
      rw
        (backup_run (reverse nl) back ahead (All-reverse_aux _ nl [] hn tt)
          (reverse_aux-ne-nil line c [])
          (in_line-Stops back (All-reverse_aux _ (c ∷ line) [] hl tt)))
        (rw (reverse_aux-reverse_aux nl [] ahead)))

word_not_newline : (c : ℕ) → is_word c ≡ true → is_new_line c ≡ false
unfolding is_ignorable_white_space is_new_line
word_not_newline c h = ground arith

word_not_space : (c : ℕ) → is_word c ≡ true → is_ignorable_white_space c ≡ false
word_not_space c h = ground arith

-- What may follow the newlines behind a header: a byte that is no white space, or the end of the
-- buffer if the newlines end all headers.
abbrev pub Ends : Bytes → Bytes → Type 0
Ends nl [] = more_headers nl ≡ false
Ends nl (c ∷ s) = is_word c ≡ true

through_newlines_end :
    (line nl rest from_where : Bytes)
    → Holds is_in_line line
    → line ≢ []
    → Holds is_new_line nl
    → Ends nl rest
    → through_newlines from_where (reverse_aux nl (reverse line)) rest ≡ (reverse line, nl ++ rest)
unfolding through_newlines header_end_at_end
through_newlines_end line nl [] from_where hl ne hn e =
    rw (backup_line line nl [] hl ne hn) (rw (append-nil nl) (unfold more_headers in rw e))
through_newlines_end line nl (c ∷ s) from_where hl ne hn e =
    ground (arith, word_not_newline c e, word_not_space c e, backup_line line nl (c ∷ s) hl ne hn)

through_line_newline :
    (n : ℕ) (s from_where passed : Bytes)
    → is_new_line n ≡ true
    → through_line from_where passed (n ∷ s) ≡ through_newlines from_where (n ∷ passed) s
unfolding through_line
through_line_newline n s from_where passed h = ground arith

find_header_end_start : (s : Bytes) → find_header_end s ≡ through_line s [] s
unfolding find_header_end
find_header_end_start s = refl

-- A header that is one line ends before the newlines behind it.
pub find_header_end_line :
    (line nl rest : Bytes)
    → Holds is_in_line line
    → line ≢ []
    → Holds is_new_line nl
    → nl ≢ []
    → Ends nl rest
    → find_header_end (line ++ (nl ++ rest)) ≡ (reverse line, nl ++ rest)
find_header_end_line line [] rest hl ne hn nn e = absurd (nn refl)
find_header_end_line line (n ∷ nl) rest hl ne (h, hn) nn e =
    let from_where = line ++ (n ∷ (nl ++ rest)) in
    find_header_end_start from_where
    ∙ through_line-append line (n ∷ (nl ++ rest)) from_where [] hl
    ∙ through_line_newline n (nl ++ rest) from_where (reverse line) h
    ∙ through_newlines-append nl rest from_where (n ∷ reverse line) hn
    ∙ through_newlines_end line (n ∷ nl) rest from_where hl ne (h, hn) e
