-- ===== src/Acari/ParsingHelpers/RequestLine.antt =====
-- extractRequestHeader: what it consumes, and the line that it accepts.
use arachnida.Base.{
  ℕ, ◌<◌, Bool, true, false, [], ◌∷◌, ◌++◌, Option, none, some, Bytes, length, ◌≡◌, ◌≢◌, refl,
  arith, ok, Ensures,
}
use arachnida.Acari.ParsingHelpers.{
  is_ignorable_white_space, at_end, drop_while, take_while, is_word, is_supported_protocol,
  advance_through_ignorable_white_space, advance_until_ignorable_white_space,
  extract_request_header,
}
use arachnida.Acari.ParsingHelpers.Spans.{
  Holds, Stops, length-drop_while, drop_while-Stops, take_while-append, drop_while-append,
}

word_consumed :
    (s : Bytes)
    → Stops is_ignorable_white_space s
    → at_end (drop_while is_word s) ≡ false
    → length (drop_while is_word s) < length s
unfolding drop_while at_end
word_consumed [] stop h = cc
word_consumed (c ∷ s) stop h = rw stop (omega (arith, length-drop_while is_word s))

module _ {R : Type 0} (make : Bytes → Bytes → Bytes → R) (supported : Bytes → Bool) where
  -- A request is behind at least one byte.
  abbrev pub Consumes : Bytes → Option (R × Bytes) → Type 0
  Consumes begin none = Unit {0}
  Consumes begin (some (r, rest)) = length rest < length begin

  pub extract_request_header-Consumes :
      (begin : Bytes) → Ensures (Consumes begin) (extract_request_header make supported begin)
  unfolding extract_request_header advance_through_ignorable_white_space
      advance_until_ignorable_white_space
  extract_request_header-Consumes begin =
      let w1 = drop_while is_ignorable_white_space begin in
      let e1 = drop_while is_word w1 in
      let w2 = drop_while is_ignorable_white_space e1 in
      let e2 = drop_while is_word w2 in
      let w3 = drop_while is_ignorable_white_space e2 in
      ground (
        arith,
        length-drop_while is_ignorable_white_space begin,
        word_consumed w1 (drop_while-Stops is_ignorable_white_space begin),
        length-drop_while is_ignorable_white_space e1,
        length-drop_while is_word w2,
        length-drop_while is_ignorable_white_space e2,
        length-drop_while is_word w3,
      )

-- A word of the line: not empty, and free of white space.
pub record IsWord (w : Bytes) : Type 0 where
  pub ne_nil : w ≢ []
  pub words : Holds is_word w

pub word_not_space : (c : ℕ) → is_word c ≡ true → is_ignorable_white_space c ≡ false
word_not_space c h = ground arith

pub word_starts : (w s : Bytes) → IsWord w → Stops is_ignorable_white_space (w ++ s)
word_starts [] s h = absurd (h.ne_nil refl)
word_starts (c ∷ w) s h = word_not_space c h.words.0

pub skip_none :
    (s : Bytes) → Stops is_ignorable_white_space s → drop_while is_ignorable_white_space s ≡ s
skip_none s = drop_while-append is_ignorable_white_space [] s tt

pub skip_space :
    (s : Bytes)
    → Stops is_ignorable_white_space s
    → drop_while is_ignorable_white_space (b' ' ∷ s) ≡ s
skip_space s =
    drop_while-append is_ignorable_white_space (b' ' ∷ []) s
      (unfold is_ignorable_white_space in (refl, tt))

-- What follows a word.
pub record Follows (rest : Bytes) : Type 0 where
  pub space : Stops is_word rest
  pub more : at_end rest ≡ false

pub behind_space : (s : Bytes) → Follows (b' ' ∷ s)
unfolding at_end is_ignorable_white_space
behind_space s = record { space = refl; more = refl }

pub word_read :
    (w rest : Bytes)
    → IsWord w
    → Follows rest
    → (take_while is_word (w ++ rest) ≡ w) × (drop_while is_word (w ++ rest) ≡ rest)
word_read w rest hw hr = (
  take_while-append is_word w rest hw.words hr.space,
  drop_while-append is_word w rest hw.words hr.space,
)

module _ {R : Type 0} (make : Bytes → Bytes → Bytes → R) (supported : Bytes → Bool) where
  -- A complete first line, of a supported method, a URL and a supported protocol with one space between
  -- them and white space behind, gives the request with these three, and the position behind them.
  pub extract_request_header-line :
      (method url protocol rest : Bytes)
      → IsWord method
      → IsWord url
      → IsWord protocol
      → Follows rest
      → supported method ≡ true
      → is_supported_protocol protocol ≡ true
      → extract_request_header make supported
          (method ++ (b' ' ∷ (url ++ (b' ' ∷ (protocol ++ rest)))))
        ≡ ok (some (make method url protocol, rest))
  unfolding extract_request_header advance_through_ignorable_white_space
      advance_until_ignorable_white_space
  extract_request_header-line method url protocol rest hm hu hp hr ms ps =
      let s3 = protocol ++ rest in
      let s2 = url ++ (b' ' ∷ s3) in
      let s1 = method ++ (b' ' ∷ s2) in
      let read1 = word_read method (b' ' ∷ s2) hm (behind_space s2) in
      let read2 = word_read url (b' ' ∷ s3) hu (behind_space s3) in
      let read3 = word_read protocol rest hp hr in
      rw (
        skip_none s1 (word_starts method _ hm),
        read1.0,
        read1.1,
        skip_space s2 (word_starts url _ hu),
        read2.0,
        read2.1,
        skip_space s3 (word_starts protocol _ hp),
        read3.0,
        read3.1,
        hr.more,
        ms,
        ps,
      )
