-- ===== src/Spin/Grammar/Interpreter.antt =====
-- An interpreter of the grammar's rules. It answers only what the laws of Spirit's combinators allow.
use arachnida.Base.{
  ℕ, zero, suc, Bool, ◌∷◌, [], Option, none, some, Bytes, length, take, drop, str_eq, within, ltb,
  ◌==◌, if◌then◌else◌,
}
use arachnida.Spin.Grammar.{
  Parser, ch_p, str_p, range_p, ◌>>◌, ◌<|>◌, ◌<->◌, ◌<%>◌, optional, kleene, positive, times,
  between, sized, assigns, lexeme_d, comment_reference, never,
}
use arachnida.Spin.Grammar.Basic.{comment}
use arachnida.Spin.Grammar.Spirit.{Outcome, miss, hit}

abbrev pub one_of : Bool → ℕ → Bytes → Outcome
one_of matched k s = if matched then hit k s else miss k

abbrev pub on_hit : Option Outcome → (ℕ → Bytes → Option Outcome) → Option Outcome
on_hit none g = none
on_hit (some (miss k)) g = some (miss k)
on_hit (some (hit k r)) g = g k r

abbrev pub on_miss : Option Outcome → (ℕ → Option Outcome) → Option Outcome
on_miss none g = none
on_miss (some (miss k)) g = g k
on_miss (some (hit k r)) g = some (hit k r)

-- One more round of a repetition, or its end.
abbrev pub on_round : Bytes → Option Outcome → (ℕ → Bytes → Option Outcome) → Option Outcome
on_round s none g = none
on_round s (some (miss k)) g = some (hit k s)
on_round s (some (hit k r)) g = g k r

-- What a difference makes of the match of its first operand.
abbrev pub but_not : Bytes → Option Outcome → Option Outcome
but_not r none = none
but_not r (some (miss k)) = some (hit k r)
but_not r (some (hit k r2)) = some (one_of (ltb (length r) (length r2)) k r)

abbrev pub run_str : Bytes → ℕ → Bytes → Outcome
run_str t k s = one_of (str_eq (take (length t) s) t) k (drop (length t) s)

abbrev pub run_ch : ℕ → ℕ → Bytes → Outcome
run_ch c k [] = miss k
run_ch c k (d ∷ s) = one_of (d == c) k s

abbrev pub run_range : ℕ → ℕ → ℕ → Bytes → Outcome
run_range lo hi k [] = miss k
run_range lo hi k (d ∷ s) = one_of (within lo hi d) k s

-- Of a match with an action it answers nothing.
unfoldable pub run : ℕ → Parser → ℕ → Bytes → Option Outcome
unfolding comment str_eq
run zero p k s = none
run (suc f) (ch_p c) k s = some (run_ch c k s)
run (suc f) (str_p t) k s = some (run_str t k s)
run (suc f) (range_p lo hi) k s = some (run_range lo hi k s)
run (suc f) (p >> q) k s = on_hit (run f p k s) (run f q)
run (suc f) (p <|> q) k s = on_miss (run f p k s) (λ k1. run f q k1 s)
run (suc f) (p <-> q) k s = on_hit (run f p k s) (λ k1 r. but_not r (run f q k1 s))
run (suc f) (p <%> q) k s = run f (p >> kleene (q >> p)) k s
run (suc f) (optional p) k s = on_miss (run f p k s) (λ k1. some (hit k1 s))
run (suc f) (kleene p) k s = on_round s (run f p k s) (run f (kleene p))
run (suc f) (positive p) k s = run f (p >> kleene p) k s
run (suc f) (times zero p) k s = some (hit k s)
run (suc f) (times (suc n) p) k s = run f (p >> times n p) k s
run (suc f) (between zero zero p) k s = some (hit k s)
run (suc f) (between zero (suc hi) p) k s = run f (optional (p >> between zero hi p)) k s
run (suc f) (between (suc lo) zero p) k s = none
run (suc f) (between (suc lo) (suc hi) p) k s = run f (p >> between lo hi p) k s
run (suc f) (sized p) k s = run f (times k p) k s
run (suc f) (assigns p) k s = on_hit (run f p k s) (λ k1 r. none)
run (suc f) (lexeme_d p) k s = run f p k s
run (suc f) comment_reference k s = run f comment k s
run (suc f) never k s = some (miss k)
