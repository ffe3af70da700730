-- ===== src/Acari/ParsingHelpers.antt =====
-- lib/Acari/ParsingHelpers.hpp. An iterator into a buffer is the list of the bytes from it to the
-- end of the buffer, and a range `[where, whence)` is the list of the bytes that were stepped over.
-- Where the code steps back (`backupThroughNewlines`), a position is a pair: the bytes passed since
-- the first iterator, nearest first, and the bytes ahead.
pub mod HeaderEnd
pub mod HeaderLine
pub mod RequestLine
pub mod CutLine
pub mod Spans
use mathlib.Core.List.{reverse}
use arachnida.Base.{
  ℕ, zero, suc, ◌+◌, Bool, true, false, not, [], ◌∷◌, ◌++◌, Option, none, some, Bytes, codes, leb,
  ◌==◌, ◌&&◌, ◌||◌, if◌then◌else◌, str_eq, Exception, bad_lexical_cast, unknown_method,
  unsupported_protocol, invalid_header, Result, ok, throw, ◌>>=◌, require,
}

unfoldable pub is_ignorable_white_space : ℕ → Bool
is_ignorable_white_space c = c == 9 || c == 10 || c == 13 || c == 32

unfoldable pub is_new_line : ℕ → Bool
is_new_line c = c == 10 || c == 13

-- `where == end`
unfoldable pub at_end : Bytes → Bool
at_end [] = true
at_end _ = false

-- The position that `while (where != end && p(*where)) ++where;` reaches.
unfoldable pub drop_while : (ℕ → Bool) → Bytes → Bytes
drop_while p [] = []
drop_while p (c ∷ s) = if p c then drop_while p s else c ∷ s

-- The bytes that it steps over.
unfoldable pub take_while : (ℕ → Bool) → Bytes → Bytes
take_while p [] = []
take_while p (c ∷ s) = if p c then c ∷ take_while p s else []

abbrev pub is_word : ℕ → Bool
is_word c = not (is_ignorable_white_space c)

abbrev pub is_in_line : ℕ → Bool
is_in_line c = not (is_new_line c)

unfoldable pub advance_through_ignorable_white_space : Bytes → Bytes
advance_through_ignorable_white_space = drop_while is_ignorable_white_space

unfoldable pub advance_until_ignorable_white_space : Bytes → Bytes
advance_until_ignorable_white_space = drop_while is_word

unfoldable pub advance_until_end_of_line : Bytes → Bytes
advance_until_end_of_line = drop_while is_in_line

unfoldable pub ltrim : Bytes → Bytes
ltrim = drop_while is_ignorable_white_space

-- The trailing white space goes; a byte is trailing if nothing is left behind it.
unfoldable pub rtrim : Bytes → Bytes
unfolding at_end is_ignorable_white_space
rtrim [] = []
rtrim (c ∷ s) =
    let rest = rtrim s in if at_end rest && is_ignorable_white_space c then [] else c ∷ rest

-- The bytes of a range without the white space at either side.
unfoldable pub chomp : Bytes → Bytes
unfolding ltrim rtrim
chomp s = rtrim (ltrim s)

unfoldable pub count : ℕ → Bytes → ℕ
count b [] = 0
count b (c ∷ s) = (if c == b then 1 else 0) + count b s

-- No two carriage returns and no two line feeds in the range.
unfoldable pub more_headers : Bytes → Bool
unfolding count
more_headers s = not (leb 2 (count 13 s) || leb 2 (count 10 s))

-- It stops one byte behind the first iterator at the latest.
unfoldable pub backup_through_newlines : Bytes → Bytes → Bytes × Bytes
unfolding is_new_line
backup_through_newlines (c ∷ d ∷ passed) ahead =
    let back = backup_through_newlines (d ∷ passed) (c ∷ ahead) in
    if is_new_line c then back else (c ∷ d ∷ passed, ahead)
backup_through_newlines passed ahead = (passed, ahead)

-- `findHeaderEnd` at the end of the buffer: the end of the header, or `from_where`.
unfoldable pub header_end_at_end : Bytes → Bytes → Bytes × Bytes
unfolding backup_through_newlines more_headers
header_end_at_end from_where passed =
    let back = backup_through_newlines passed [] in
    if not (more_headers back.1) then back else ([], from_where)

-- The two loops of `findHeaderEnd`. Its call of itself ("keep looking") is the return from the
-- second loop to the first, at a white-space character that is no newline.
unfoldable mutual
  pub through_line : Bytes → Bytes → Bytes → Bytes × Bytes
  through_line from_where passed [] = header_end_at_end from_where passed
  through_line from_where passed (c ∷ s) = elim (is_new_line c) [
    | true ↦ through_newlines from_where (c ∷ passed) s
    | false ↦ through_line from_where (c ∷ passed) s
  ]

  pub through_newlines : Bytes → Bytes → Bytes → Bytes × Bytes
  through_newlines from_where passed [] = header_end_at_end from_where passed
  through_newlines from_where passed (c ∷ s) = elim (is_new_line c) [
    | true ↦ through_newlines from_where (c ∷ passed) s
    | false ↦ elim (is_ignorable_white_space c) [
      | true ↦ through_line from_where (c ∷ passed) s
      | false ↦ backup_through_newlines passed (c ∷ s)
    ]
  ]

-- The bytes of the header, nearest first, and the bytes behind it. No byte: `from_where`.
unfoldable pub find_header_end : Bytes → Bytes × Bytes
unfolding through_line through_newlines header_end_at_end is_new_line is_ignorable_white_space
find_header_end from_where = through_line from_where [] from_where

abbrev pub is_colon : ℕ → Bool
is_colon c = c == b':'

abbrev pub before_colon : ℕ → Bool
before_colon c = not (is_colon c)

-- The part behind `std::find(begin, end, ':')`, if there is a colon.
unfoldable pub behind_colon : Bytes → Bytes → Result Bytes
behind_colon header [] = throw (invalid_header header)
behind_colon header (c ∷ s) = ok s

unfoldable pub split_header : Bytes → Result (Bytes × Bytes)
unfolding behind_colon drop_while take_while chomp
split_header header = do
  value ← behind_colon header (drop_while before_colon header)
  ok (chomp (take_while before_colon header), chomp value)

unfoldable pub is_supported_protocol : Bytes → Bool
unfolding str_eq
is_supported_protocol p = str_eq p (codes "HTTP/1.0") || str_eq p (codes "HTTP/1.1")

-- The template arguments: `R` is the request, `make` its constructor, which holds the connection.
module _ {R : Type 0} (make : Bytes → Bytes → Bytes → R) (supported : Bytes → Bool) where
  -- `none` is the null pointer with the iterator `begin`: the first line is incomplete. Otherwise
  -- the request and the position behind its first line.
  unfoldable pub extract_request_header : Bytes → Result (Option (R × Bytes))
  unfolding take_while advance_through_ignorable_white_space advance_until_ignorable_white_space
      at_end is_supported_protocol
  extract_request_header begin =
      let w1 = advance_through_ignorable_white_space begin in
      let e1 = advance_until_ignorable_white_space w1 in
      let method = take_while is_word w1 in
      let w2 = advance_through_ignorable_white_space e1 in
      let e2 = advance_until_ignorable_white_space w2 in
      let url = take_while is_word w2 in
      let w3 = advance_through_ignorable_white_space e2 in
      let e3 = advance_until_ignorable_white_space w3 in
      let protocol_and_version = take_while is_word w3 in
      if at_end e1
      then ok none
      else if not (supported method)
      then throw (unknown_method method)
      else if at_end e2
      then ok none
      else if at_end e3
      then ok none
      else if not (is_supported_protocol protocol_and_version)
      then throw (unsupported_protocol protocol_and_version)
      else ok (some (make method url protocol_and_version, e3))

-- `lexical_cast` is boost's, at `unsigned int`; it fails where boost throws.
module _ {R : Type 0} (make : Bytes → ℕ → Bytes → R) (lexical_cast : Bytes → Option ℕ) where
  unfoldable pub extract_response_header : Bytes → Result (Option (R × Bytes))
  unfolding take_while advance_through_ignorable_white_space advance_until_ignorable_white_space
      advance_until_end_of_line at_end is_supported_protocol
  extract_response_header begin =
      let w1 = advance_through_ignorable_white_space begin in
      let e1 = advance_until_ignorable_white_space w1 in
      let protocol_and_version = take_while is_word w1 in
      let w2 = advance_through_ignorable_white_space e1 in
      let e2 = advance_until_ignorable_white_space w2 in
      let response_code = take_while is_word w2 in
      let w3 = advance_through_ignorable_white_space e2 in
      let e3 = advance_until_end_of_line w3 in
      let response_message = take_while is_in_line w3 in
      if at_end e1
      then ok none
      else if not (is_supported_protocol protocol_and_version)
      then throw (unsupported_protocol protocol_and_version)
      else if at_end e2
      then ok none
      else if at_end e3
      then ok none
      else do
        code ← require bad_lexical_cast (lexical_cast response_code)
        ok (some (make protocol_and_version code response_message, e3))
