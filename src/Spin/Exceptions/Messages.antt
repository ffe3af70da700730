-- ===== src/Spin/Exceptions/Messages.antt =====
-- What the failures of `bind` and `listen` say.
use arachnida.Base.{
  ℕ, Bool, true, false, ◌≡◌, refl, Bytes, List, [], ◌∷◌, ◌++◌, codes, ◌==◌, if◌then◌else◌, ap,
  Bool-cases, inl, inr, Option, some, none, not, ◌&&◌, length, ◌+◌,
}
use mathlib.Core.List.{map}
use arachnida.Spin.Exceptions.{c_string}
use arachnida.Spin.Exceptions.Failures.{
  Errno, Label, Said, aborted, said, failure, unknown_error, assignments, last_assigned, bind_what,
  listen_what, bind_messages, listen_messages, what_with, write_text,
}

-- What is read of the answer of `what`
abbrev pub read_said : Said → Option Bytes
read_said aborted = none
read_said (said text) = c_string text

last_assigned-append :
    (current : Bytes) (ts : List Bytes) (t : Bytes) → last_assigned current (ts ++ (t ∷ [])) ≡ t
last_assigned-append current [] t = refl
last_assigned-append current (u ∷ ts) t = last_assigned-append u ts t

assignments_end :
    (number : Errno → ℕ) (error_code : ℕ) (labels : List Label) (current : Bytes)
    → last_assigned current (assignments number error_code labels) ≡ unknown_error
unfolding assignments
assignments_end number error_code [] current = refl
assignments_end number error_code (l ∷ labels) current =
    elim (Bool-cases (error_code == number l.code)) [
      | inl h ↦ rw h (last_assigned-append l.text (map (λ m. m.text) labels) unknown_error)
      | inr h ↦ rw h (assignments_end number error_code labels current)
    ]

module _ (number : Errno → ℕ) (spare : ℕ) where
  with_prefix :
      (otherwise prefix : Bytes) (labels : List Label) (asserts : Bool) (error_code : ℕ)
      → (what_with number asserts true spare otherwise prefix labels (failure error_code)).0 ≡ (
          if asserts && not (length prefix == length prefix + length unknown_error)
          then aborted
          else said (write_text prefix unknown_error spare))
  unfolding what_with failure
  with_prefix otherwise prefix labels asserts error_code =
      let same = assignments_end number error_code labels [] in
      elim (Bool-cases (asserts && not (length prefix == length prefix + length unknown_error))) [
        | inl h ↦ rw (same, h) refl
        | inr h ↦ rw (same, h) refl
      ]

  -- Whatever the error code and the numbers of the errors are, the first `what` of a failure whose
  -- array can be allocated aborts where assertions are compiled in. Where they are not, the text that
  -- is read of the array is the prefix alone.
  pub what_says_prefix :
      (error_code : ℕ)
      → ((bind_what number true true spare (failure error_code)).0 ≡ aborted)
        × ((listen_what number true true spare (failure error_code)).0 ≡ aborted)
        × (read_said (bind_what number false true spare (failure error_code)).0
            ≡ some (codes "Bind failure: "))
        × (read_said (listen_what number false true spare (failure error_code)).0
            ≡ some (codes "Listen failure: "))
  unfolding bind_what listen_what write_text
  what_says_prefix error_code =
      let bound = λ (asserts : Bool).
        with_prefix (codes "Bind failure.") (codes "Bind failure: ") bind_messages asserts
          error_code in
      let listened = λ (asserts : Bool).
        with_prefix (codes "Listen failure.") (codes "Listen failure: ") listen_messages asserts
          error_code in
      (bound true, listened true, ap read_said (bound false), ap read_said (listened false))
