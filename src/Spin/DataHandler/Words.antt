-- ===== src/Spin/DataHandler/Words.antt =====
-- Methods and protocols that the parser accepts are words.
use mathlib.Core.Path.{subst}
use arachnida.Base.{
  ℕ, Bool, true, List, [], ◌∷◌, Bytes, codes, All, inl, inr, ◌≡◌, refl, arith, Bool-cases, str_eq,
  str_eq_iff, str_eq_comm, ◌&&◌,
}
use arachnida.Acari.ParsingHelpers.{is_ignorable_white_space, is_word, is_supported_protocol}
use arachnida.Acari.ParsingHelpers.RequestLine.{IsWord}
use arachnida.Acari.ParsingHelpers.Spans.{Holds}
use arachnida.Spin.DataHandler.{supported_methods, contains, is_supported_method}

pub contains-All :
    (P : Bytes → Type 0) (xs : List Bytes) (m : Bytes) → All P xs → contains xs m ≡ true → P m
unfolding contains
contains-All P [] m h e = cc
contains-All P (x ∷ xs) m (hx, h) e = elim (Bool-cases (str_eq x m)) [
  | inl t ↦ subst P ((str_eq_iff x m).0 t) hx
  | inr f ↦ contains-All P xs m h (rw f at e)
]

all_words : Bytes → Bool
all_words [] = true
all_words (c ∷ s) = is_word c && all_words s

all_words_sound : (s : Bytes) → all_words s ≡ true → Holds is_word s
unfolding all_words
all_words_sound [] h = tt
all_words_sound (c ∷ s) h = (ground arith, all_words_sound s (ground arith))

IsWord-of : (c : ℕ) (s : Bytes) → all_words (c ∷ s) ≡ true → IsWord (c ∷ s)
IsWord-of c s h = record { ne_nil = cc; words = all_words_sound (c ∷ s) h }

pub is_supported_method-IsWord : (m : Bytes) → is_supported_method m ≡ true → IsWord m
unfolding is_supported_method all_words is_ignorable_white_space
is_supported_method-IsWord m h =
    contains-All IsWord supported_methods m
      (
        IsWord-of _ _ refl,
        (
          IsWord-of _ _ refl,
          (
            IsWord-of _ _ refl,
            (
              IsWord-of _ _ refl,
              (
                IsWord-of _ _ refl,
                (IsWord-of _ _ refl, (IsWord-of _ _ refl, (IsWord-of _ _ refl, tt))),
              ),
            ),
          ),
        ),
      )
      h

pub is_supported_protocol-IsWord : (p : Bytes) → is_supported_protocol p ≡ true → IsWord p
unfolding is_supported_protocol all_words is_ignorable_white_space
is_supported_protocol-IsWord p h =
    contains-All IsWord (codes "HTTP/1.0" ∷ codes "HTTP/1.1" ∷ []) p
      (IsWord-of _ _ refl, (IsWord-of _ _ refl, tt))
      (unfold contains in
        ground (arith, str_eq_comm p (codes "HTTP/1.0"), str_eq_comm p (codes "HTTP/1.1")))
