-- ===== src/Spin/Tests/Pipes.antt =====
-- Pipes whose constructor meets a refusal.
use arachnida.Base.{true, [], ◌∷◌, none, some, ltb, ◌≡◌, refl}
use arachnida.Spin.Pipe.Ends.{all_set, Answers, socket_error, thrown, construct}
use arachnida.Spin.Pipe.Ends.Accounts.{
  accepted, throws, Settles, construct-Settles, construct-leaks,
}

-- `accept` refuses.
abbrev unaccepted : Answers
unaccepted = record {
  listener = some 3;
  writer = some 4;
  binds = true;
  listens = true;
  names = true;
  connects = true;
  reader = none;
  set = λ i. true;
}

construct-Settles_example :
    (throws (construct unaccepted).ending ≡ true) × Settles (construct unaccepted)
construct-Settles_example = construct-Settles unaccepted (unfold accepted in refl)

-- The fifth option is refused.
abbrev unset : Answers
unset = record unaccepted { reader = some 5; set = λ i. ltb i 4 }

construct-leaks_example :
    construct unset
    ≡ record { opened = 3 ∷ 4 ∷ 5 ∷ []; closed = 3 ∷ 4 ∷ 3 ∷ []; ending = thrown socket_error }
unfolding all_set
construct-leaks_example = construct-leaks unset 3 4 5 (unfold accepted in refl)
