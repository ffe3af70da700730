-- ===== src/Spin/Pipe/Ends/Accounts.antt =====
-- What becomes of the descriptors that the constructor of a pipe opens.
use arachnida.Base.{
  ℕ, Bool, true, false, List, ◌∷◌, [], Option, none, some, ◌&&◌, ◌≡◌, arith, ◌==◌, ◌+◌,
  if◌then◌else◌,
}
use arachnida.Spin.Pipe.Ends.{
  Answers, socket_error, Ending, made, thrown, Run, all_set, set_options, construct,
}

unfoldable pub times_in : ℕ → List ℕ → ℕ
times_in d [] = 0
times_in d (x ∷ xs) = (if x == d then 1 else 0) + times_in d xs

-- Each descriptor is closed as often as it was opened.
abbrev pub Settles : Run → Type 0
Settles r = (d : ℕ) → times_in d r.closed ≡ times_in d r.opened

together : Option ℕ → Option ℕ → Option ℕ → Option (ℕ × ℕ × ℕ)
together (some listener) (some writer) (some reader) = some (listener, writer, reader)
together _ _ _ = none

-- The descriptors that a run opens when every call up to `accept` succeeds: listener, writer, reader.
unfoldable pub accepted : Answers → Option (ℕ × ℕ × ℕ)
unfolding together
accepted a =
    if a.binds && a.listens && a.names && a.connects
    then together a.listener a.writer a.reader
    else none

abbrev pub throws : Ending → Bool
throws (made reader writer) = false
throws (thrown e) = true

-- Where not every call up to `accept` succeeds, the constructor throws, and has closed what it opened:
-- each descriptor as often as it was opened.
pub construct-Settles :
    (a : Answers) → accepted a ≡ none → (throws (construct a).ending ≡ true) × Settles (construct a)
unfolding accepted construct times_in set_options
construct-Settles a h = (ground arith, λ d. ground arith)

-- Where every call up to `accept` succeeds, all depends on the options of the sockets: if they are set, the listening descriptor alone is
-- closed, and the constructor has made a pipe of the other two. If one of them is not, the constructor
-- throws, has closed the listening descriptor twice and the writing one once, and the accepted one
-- stays open.
pub construct-leaks :
    (a : Answers) (listener writer reader : ℕ)
    → accepted a ≡ some (listener, writer, reader)
    → construct a ≡ record {
      opened = listener ∷ writer ∷ reader ∷ [];
      closed = if all_set a.set then listener ∷ [] else listener ∷ writer ∷ listener ∷ [];
      ending = if all_set a.set then made reader writer else thrown socket_error;
    }
unfolding accepted construct
construct-leaks a listener writer reader h = ground arith
