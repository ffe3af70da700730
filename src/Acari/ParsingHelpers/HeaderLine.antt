-- ===== src/Acari/ParsingHelpers/HeaderLine.antt =====
-- splitHeader on a header of the form `name: value`.
use arachnida.Base.{[], ◌∷◌, ◌++◌, Bytes, ◌≡◌, ◌≢◌, refl, ok}
use arachnida.Acari.ParsingHelpers.{
  is_word, is_in_line, is_new_line, chomp, split_header, before_colon,
}
use arachnida.Acari.ParsingHelpers.Spans.{
  Holds, take_while-append, drop_while-append, chomp-word, chomp_space, word_in_line,
}

-- A name that a header may have: no white space and no colon.
pub record IsName (name : Bytes) : Type 0 where
  pub ne_nil : name ≢ []
  pub words : Holds is_word name
  pub no_colon : Holds before_colon name

-- A value that is kept as it is: one line, with no white space at either side.
pub record IsValue (value : Bytes) : Type 0 where
  pub in_line : Holds is_in_line value
  pub trimmed : chomp value ≡ value

abbrev pub header_line : Bytes → Bytes → Bytes
header_line name value = name ++ (b':' ∷ b' ' ∷ value)

-- A header of the form `name: value` is split into exactly this name and this value. The name has no
-- white space and no colon, and the value no white space at either side.
pub split_header-header_line :
    (name value : Bytes)
    → IsName name
    → chomp value ≡ value
    → split_header (header_line name value) ≡ ok (name, value)
unfolding split_header
split_header-header_line name value h trimmed = rw (
  take_while-append before_colon name (b':' ∷ b' ' ∷ value) h.no_colon refl,
  drop_while-append before_colon name (b':' ∷ b' ' ∷ value) h.no_colon refl,
  chomp-word name h.words,
  chomp_space value,
  trimmed,
)

in_line-append : (a b : Bytes) → Holds is_word a → Holds is_in_line b → Holds is_in_line (a ++ b)
in_line-append [] b ha hb = hb
in_line-append (c ∷ a) b (hc, ha) hb = (word_in_line c hc, in_line-append a b ha hb)

pub header_line-in_line :
    (name value : Bytes) → IsName name → IsValue value → Holds is_in_line (header_line name value)
header_line-in_line name value hn hv =
    in_line-append name (b':' ∷ b' ' ∷ value) hn.words
      (unfold is_new_line in (refl, (refl, hv.in_line)))
