-- ===== src/Spin/Exceptions/Sockets/Sentences.antt =====
-- What socket errors and their copies say.
use arachnida.Base.{ℕ, true, ◌≡◌, ◌∙◌, ap, refl, Bytes, [], ◌∷◌, ◌++◌, none, some, length, take}
use arachnida.Spin.Exceptions.{c_string}
use arachnida.Spin.Exceptions.Copies.{IsText, stored}
use arachnida.Spin.Exceptions.Failures.{Errno}
use arachnida.Spin.Exceptions.Sockets.{
  SocketError, max_message_size, max_function_size, Storage, socket_error, copy_error, Answer, text,
  sentence, what,
}

abbrev pub storage : Bytes → ℕ → Bytes → ℕ → ℕ → Storage
storage front last front2 last2 n = record {
  message_memory = front ++ (last ∷ []);
  function_memory = front2 ++ (last2 ∷ []);
  number_memory = n;
}

abbrev with_kept : SocketError → Bytes → SocketError
with_kept e kept = record {
  message = e.message;
  function = e.function;
  error_code = e.error_code;
  formatted = some kept;
}

module _ (to_text : ℕ → Bytes) (number : Errno → ℕ) where
  abbrev pub says : SocketError → Answer × SocketError
  says = what to_text number true true

  says_lem :
      (e : SocketError) (m f : Bytes)
      → e.formatted ≡ none
      → c_string e.message ≡ some m
      → c_string e.function ≡ some f
      → says e ≡ (
        text (sentence to_text number m f e.error_code),
        with_kept e (sentence to_text number m f e.error_code),
      )
  unfolding what
  says_lem e m f he hm hf = rw (he, hm, hf) refl

  -- Where formatting succeeds, an error of a message and a function without zero bytes says both, cut
  -- to 64 and 32 characters, with its code and the code's text. So does its copy, and the error after
  -- the copy, when `what` was called on it before. A copy that is made before any call of `what` says
  -- whatever message, function and code its storage held.
  pub what-copy_error :
      (memory : Storage) (front front2 : Bytes) (last last2 n : ℕ) (message function : Bytes)
      (code : ℕ) (m f : Bytes)
      → IsText message
      → IsText function
      → length front ≡ max_message_size
      → length front2 ≡ max_function_size
      → c_string memory.message_memory ≡ some m
      → c_string memory.function_memory ≡ some f
      → let e = socket_error (storage front last front2 last2 n) message function code in
        let told = text (
          sentence to_text number
            (take max_message_size message)
            (take max_function_size function)
            code) in
        ((says e).0 ≡ told)
        × ((says (copy_error memory (says e).1).0).0 ≡ told)
        × ((says (copy_error memory (says e).1).1).0 ≡ told)
        × ((says (copy_error memory e).0).0
            ≡ text (sentence to_text number m f memory.number_memory))
  unfolding what socket_error copy_error
  what-copy_error memory front front2 last last2 n message function code m f hm hf h h2 km kf =
      let e = socket_error (storage front last front2 last2 n) message function code in
      let said =
        says_lem e (take max_message_size message) (take max_function_size function) refl
          (stored max_message_size message front last hm h)
          (stored max_function_size function front2 last2 hf h2) in
      (
        ap (λ p. p.0) said,
        ap (λ p. (says (copy_error memory p.1).0).0) said,
        ap (λ p. (says (copy_error memory p.1).1).0) said ∙ ap (λ p. p.0) said,
        ap (λ p. p.0) (says_lem (copy_error memory e).0 m f refl km kf),
      )
