-- ===== src/Acari/ParsingHelpers/Spans.antt =====
-- The loops that step over a span of bytes, and the trimming of ranges.
use arachnida.Base.{
  ℕ, ◌≤◌, Bool, true, false, [], ◌∷◌, ◌++◌, Bytes, length, All, ◌≡◌, refl, arith, Bool-cases, inl,
  inr,
}
use arachnida.Acari.ParsingHelpers.{
  is_ignorable_white_space, is_new_line, drop_while, take_while, is_word, is_in_line, rtrim, chomp,
}

abbrev pub Holds : (ℕ → Bool) → Bytes → Type 0
Holds p = All (λ c. p c ≡ true)

-- A span of `p` ends here: the end of the buffer, or a byte that fails `p`.
abbrev pub Stops : (ℕ → Bool) → Bytes → Type 0
Stops p [] = Unit {0}
Stops p (c ∷ s) = p c ≡ false

pub take_while-append-drop_while : (p : ℕ → Bool) (s : Bytes) → take_while p s ++ drop_while p s ≡ s
unfolding take_while drop_while
take_while-append-drop_while p [] = refl
take_while-append-drop_while p (c ∷ s) = ground (arith, take_while-append-drop_while p s)

pub length-drop_while : (p : ℕ → Bool) (s : Bytes) → length (drop_while p s) ≤ length s
unfolding drop_while
length-drop_while p [] = omega arith
length-drop_while p (c ∷ s) = ground (arith, length-drop_while p s)

pub take_while-append :
    (p : ℕ → Bool) (w s : Bytes) → Holds p w → Stops p s → take_while p (w ++ s) ≡ w
unfolding take_while
take_while-append p [] [] h stop = refl
take_while-append p [] (c ∷ s) h stop = rw stop
take_while-append p (c ∷ w) s (hc, hw) stop = rw (hc, take_while-append p w s hw stop)

pub drop_while-append :
    (p : ℕ → Bool) (w s : Bytes) → Holds p w → Stops p s → drop_while p (w ++ s) ≡ s
unfolding drop_while
drop_while-append p [] [] h stop = refl
drop_while-append p [] (c ∷ s) h stop = rw stop
drop_while-append p (c ∷ w) s (hc, hw) stop = rw hc (drop_while-append p w s hw stop)

pub drop_while-Stops : (p : ℕ → Bool) (s : Bytes) → Stops p (drop_while p s)
unfolding drop_while
drop_while-Stops p [] = tt
drop_while-Stops p (c ∷ s) = elim (Bool-cases (p c)) [
  | inl yes_p ↦ rw yes_p (drop_while-Stops p s)
  | inr no_p ↦ rw (no_p) no_p
]

pub take_while-Holds : (p : ℕ → Bool) (s : Bytes) → Holds p (take_while p s)
unfolding take_while
take_while-Holds p [] = tt
take_while-Holds p (c ∷ s) = elim (Bool-cases (p c)) [
  | inl yes_p ↦ rw yes_p (yes_p, take_while-Holds p s)
  | inr no_p ↦ rw (no_p) tt
]

pub word_in_line : (c : ℕ) → is_word c ≡ true → is_in_line c ≡ true
unfolding is_ignorable_white_space is_new_line
word_in_line c h = ground arith

-- A byte string with no white space at either side.
pub rtrim-word : (s : Bytes) → Holds is_word s → rtrim s ≡ s
unfolding rtrim
rtrim-word [] h = refl
rtrim-word (c ∷ s) (hc, hs) = rw (rtrim-word s hs) (ground arith)

pub chomp-word : (s : Bytes) → Holds is_word s → chomp s ≡ s
unfolding chomp drop_while
chomp-word [] h = refl
chomp-word (c ∷ s) (hc, hs) = ground (arith, rtrim-word (c ∷ s) (hc, hs))

pub chomp_space : (s : Bytes) → chomp (b' ' ∷ s) ≡ chomp s
unfolding chomp drop_while is_ignorable_white_space
chomp_space s = refl
