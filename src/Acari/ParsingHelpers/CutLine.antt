-- ===== src/Acari/ParsingHelpers/CutLine.antt =====
-- extractRequestHeader on a first line that is not all there.
use arachnida.Base.{
  ℕ, Bool, true, [], ◌∷◌, ◌++◌, append-nil, none, Bytes, ◌≡◌, refl, sym, ap, ◌∙◌, ◌⊎◌, inl, inr, ok,
}
use mathlib.Core.Path.{subst}
use arachnida.Acari.ParsingHelpers.{
  is_ignorable_white_space, at_end, drop_while, is_word, advance_through_ignorable_white_space,
  advance_until_ignorable_white_space, extract_request_header,
}
use arachnida.Acari.ParsingHelpers.RequestLine.{
  IsWord, word_not_space, word_starts, skip_none, skip_space, behind_space, word_read,
}
use arachnida.Acari.ParsingHelpers.Spans.{Holds, Stops, drop_while-append}

-- The first line of a request, with one space between its words.
abbrev pub first_line : Bytes → Bytes → Bytes → Bytes
first_line method url protocol = method ++ (b' ' ∷ (url ++ (b' ' ∷ protocol)))

-- A piece of a text ends within its first word, or behind the space that follows it.
prefix-cases :
    (a c m rest : Bytes)
    → a ++ c ≡ m ++ b' ' ∷ rest
    → ((t : Bytes) × (a ++ t ≡ m)) ⊎ ((t : Bytes) × (a ≡ m ++ b' ' ∷ t) × (t ++ c ≡ rest))
prefix-cases [] c m rest e = inl (m, refl)
prefix-cases (x ∷ a) c [] rest e = inr (a, cc, cc)
prefix-cases (x ∷ a) c (y ∷ m) rest e = elim (prefix-cases a c m rest (cc)) [
  | inl (t, q) ↦ inl (t, cc)
  | inr (t, q, q2) ↦ inr (t, cc, q2)
]

Holds-prefix : (p : ℕ → Bool) (a t : Bytes) → Holds p (a ++ t) → Holds p a
Holds-prefix p [] t h = tt
Holds-prefix p (x ∷ a) t (h, hs) = (h, Holds-prefix p a t hs)

words-Stops : (a : Bytes) → Holds is_word a → Stops is_ignorable_white_space a
words-Stops [] h = tt
words-Stops (x ∷ a) (h, hs) = word_not_space x h

words_end : (a : Bytes) → Holds is_word a → drop_while is_word a ≡ []
words_end a h = ap (drop_while is_word) (sym (append-nil a)) ∙ drop_while-append is_word a [] h tt

module _ {R : Type 0} (make : Bytes → Bytes → Bytes → R) (supported : Bytes → Bool) where
  cut_method : (a : Bytes) → Holds is_word a → extract_request_header make supported a ≡ ok none
  unfolding extract_request_header advance_through_ignorable_white_space
      advance_until_ignorable_white_space at_end
  cut_method a h = rw (skip_none a (words-Stops a h), words_end a h)

  cut_url :
      (method a : Bytes)
      → IsWord method
      → supported method ≡ true
      → Holds is_word a
      → extract_request_header make supported (method ++ b' ' ∷ a) ≡ ok none
  unfolding extract_request_header advance_through_ignorable_white_space
      advance_until_ignorable_white_space at_end
  cut_url method a hm ms h =
      let read = word_read method (b' ' ∷ a) hm (behind_space a) in
      rw (
        skip_none (method ++ b' ' ∷ a) (word_starts method _ hm),
        read.0,
        read.1,
        skip_space a (words-Stops a h),
        words_end a h,
        ms,
      )

  cut_protocol :
      (method url a : Bytes)
      → IsWord method
      → supported method ≡ true
      → IsWord url
      → Holds is_word a
      → extract_request_header make supported (first_line method url a) ≡ ok none
  unfolding extract_request_header advance_through_ignorable_white_space
      advance_until_ignorable_white_space at_end
  cut_protocol method url a hm ms hu h =
      let s2 = url ++ b' ' ∷ a in
      let read1 = word_read method (b' ' ∷ s2) hm (behind_space s2) in
      let read2 = word_read url (b' ' ∷ a) hu (behind_space a) in
      rw (
        skip_none (method ++ b' ' ∷ s2) (word_starts method _ hm),
        read1.0,
        read1.1,
        skip_space s2 (word_starts url _ hu),
        read2.0,
        read2.1,
        skip_space a (words-Stops a h),
        words_end a h,
        ms,
      )

  -- A piece of a first line of a supported method, wherever it is cut, gives no request yet.
  pub extract_request_header-cut :
      (method url protocol a c : Bytes)
      → IsWord method
      → supported method ≡ true
      → IsWord url
      → IsWord protocol
      → a ++ c ≡ first_line method url protocol
      → extract_request_header make supported a ≡ ok none
  extract_request_header-cut method url protocol a c hm ms hu hp e =
      elim (prefix-cases a c method (url ++ b' ' ∷ protocol) e) [
        | inl (t, q) ↦
            cut_method a (Holds-prefix is_word a t (subst (Holds is_word) (sym q) hm.words))
        | inr (t, q, e2) ↦ rw q (elim (prefix-cases t c url protocol e2) [
          | inl (t2, q2) ↦
              cut_url method t hm ms
                (Holds-prefix is_word t t2 (subst (Holds is_word) (sym q2) hu.words))
          | inr (t2, q2, e3) ↦ rw q2 (
              cut_protocol method url t2 hm ms hu
                (Holds-prefix is_word t2 c (subst (Holds is_word) (sym e3) hp.words)))
        ])
      ]
