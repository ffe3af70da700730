-- ===== src/Spin/Exceptions/Copies.antt =====
-- What the copies of the exceptions of HTTP hold.
use arachnida.Base.{
  ℕ, zero, suc, ◌≡◌, ◌≢◌, Bytes, All, [], ◌∷◌, ◌++◌, some, none, Option, length, take, leb, not,
  ◌&&◌, ◌==◌, if◌then◌else◌, arith, Bool-cases, inl, inr, ◌∙◌, ap,
}
use mathlib.Core.Option.{map}
use arachnida.Spin.Exceptions.{c_string, overwrite, unknown_method, copy, max_size}

abbrev pub IsText : Bytes → Type 0
IsText = All (λ c. c ≢ 0)

c_string-cons : (c : ℕ) (s : Bytes) → c ≢ 0 → c_string (c ∷ s) ≡ map (λ r. c ∷ r) (c_string s)
c_string-cons c s h = grind arith

-- What a copy reads as
abbrev pub copied_text : ℕ → Bytes → ℕ → Option Bytes
copied_text n text last =
    if leb n (length text) && not (last == 0) then none else some (take n text)

copied_text-cons :
    (n c : ℕ) (text : Bytes) (last : ℕ)
    → map (λ r. c ∷ r) (copied_text n text last) ≡ copied_text (suc n) (c ∷ text) last
copied_text-cons n c text last =
    let same : leb n (length text) ≡ leb (suc n) (suc (length text)) = grind arith in
    elim (Bool-cases (leb n (length text) && not (last == 0))) [ inl h ↦ cc | inr h ↦ cc ]

copied :
    (n : ℕ) (text front front2 : Bytes) (last last2 : ℕ)
    → IsText text
    → length front ≡ n
    → length front2 ≡ n
    → c_string (
        overwrite
          (take n (overwrite (take n text ++ (0 ∷ [])) (front ++ (last ∷ []))))
          (front2 ++ (last2 ∷ [])))
      ≡ copied_text n text last2
copied zero text [] [] last last2 ht hf hg = grind arith
copied (suc n) [] (f ∷ front) (g ∷ front2) last last2 ht hf hg = grind arith
copied (suc n) (c ∷ text) (f ∷ front) (g ∷ front2) last last2 (hc, ht) hf hg =
    let first : length front ≡ n = omega arith in
    let second : length front2 ≡ n = omega arith in
    let array =
      overwrite (take n (overwrite (take n text ++ (0 ∷ [])) (front ++ (last ∷ []))))
        (front2 ++ (last2 ∷ [])) in
    c_string-cons c array hc
    ∙ ap (map (λ r. c ∷ r)) (copied n text front front2 last last2 ht first second)
    ∙ copied_text-cons n c text last2
copied zero _ (_ ∷ _) _ _ _ _ hf _ = absurd (omega arith)
copied zero _ [] (_ ∷ _) _ _ _ _ hg = absurd (omega arith)
copied (suc n) _ [] _ _ _ _ hf _ = absurd (omega arith)
copied (suc n) _ (_ ∷ _) [] _ _ _ _ hg = absurd (omega arith)

-- The text that a constructor stores reads as its first characters.
pub stored :
    (n : ℕ) (text front : Bytes) (last : ℕ)
    → IsText text
    → length front ≡ n
    → c_string (overwrite (take n text ++ (0 ∷ [])) (front ++ (last ∷ []))) ≡ some (take n text)
stored zero text [] last ht hf = grind arith
stored (suc n) [] (f ∷ front) last ht hf = grind arith
stored (suc n) (c ∷ text) (f ∷ front) last (hc, ht) hf =
    let rest : length front ≡ n = omega arith in
    let array = overwrite (take n text ++ (0 ∷ [])) (front ++ (last ∷ [])) in
    c_string-cons c array hc ∙ ap (map (λ r. c ∷ r)) (stored n text front last ht rest)
stored zero _ (_ ∷ _) _ _ hf = absurd (omega arith)
stored (suc n) _ [] _ _ hf = absurd (omega arith)

-- For a text without a zero byte and arrays of 97 characters, `unknown_method` stores a C string, the
-- first 96 characters of the text. The array of a `copy` reads the same when the text has fewer than
-- 96 characters or the last byte of the copy's storage happens to be zero; else it has no terminator.
pub copy-unknown_method :
    (text front front2 : Bytes) (last last2 : ℕ)
    → IsText text
    → length front ≡ max_size
    → length front2 ≡ max_size
    → (c_string ((unknown_method (front ++ (last ∷ [])) text).content) ≡ some (take max_size text))
      × (c_string
            ((copy (front2 ++ (last2 ∷ [])) (unknown_method (front ++ (last ∷ [])) text)).0.content)
          ≡ (if leb max_size (length text) && not (last2 == 0)
              then none
              else some (take max_size text)))
unfolding copy
copy-unknown_method text front front2 last last2 ht hf hg =
    (stored max_size text front last ht hf, copied max_size text front front2 last last2 ht hf hg)
