-- ===== src/Scorpion/Program.antt =====
-- Programs that use several objects of class `Context` of lib/Scorpion/Context.h: the variables that hold
-- them, the heap of the holders they share, and the operations as commands.
pub mod Places
pub mod Coherence
pub mod Detached
use arachnida.Base.{
  ℕ, suc, ◌<◌, Bool, true, false, List, [], ◌∷◌, ◌++◌, Option, none, some, ◌==◌, if◌then◌else◌, ◌≡◌,
  refl, sym, ◌∙◌, ap, arith, Option-cases, Bool-cases, inl, inr, ◌⊎◌,
}
use arachnida.Scorpion.Flags.{ssl_method}
use arachnida.Scorpion.Context.{
  Context, Call, SslContext, calls, new_context, setup_calls, perform, goes_on, Heap, put,
  new_holder, get_context, construct, copy, copy_on_write, Setting, assign, set, swap,
}

-- The contexts that are alive, by the number of the variable they stand in.
pub record World : Type 0 where
  pub object : ℕ → Option Context
  pub heap : Heap

abbrev pub store : ℕ → Option Context → (ℕ → Option Context) → ℕ → Option Context
store i value object k = if k == i then value else object k

-- The variable that `k` is behind a `swap` of `i` and `j`.
abbrev pub transposed : ℕ → ℕ → ℕ → ℕ
transposed i j k = if k == i then j else if k == j then i else k

pub data Command : Type 0 where
  constructs : ℕ → ℕ → ℕ → Command
  copies : ℕ → ℕ → Command
  swaps : ℕ → ℕ → Command
  sets : ℕ → Setting → Command
  gets : ℕ → (Call → Bool) → Command
  destroys : ℕ → Command

-- A variable that a context is put into loses the one it had.
unfoldable pub run : Command → World → World
unfolding construct copy
run (constructs i flags depth) w =
    let made = construct flags depth w.heap in
    record { object = store i (some (made.0)) w.object; heap = made.1 }
run (copies i j) w = elim (w.object i) [
  | some c ↦ record w { object = store j (some (copy c)) w.object }
  | none ↦ w
]
run (swaps i j) w = record w { object = λ k. w.object (transposed i j k) }
run (sets i setting) w = elim (w.object i) [
  | some c ↦
      let after = set setting c w.heap in
      record { object = store i (some (after.0)) w.object; heap = after.1 }
  | none ↦ w
]
run (gets i answers) w = elim (w.object i) [
  | some c ↦ record w { heap = (get_context answers c w.heap).1 }
  | none ↦ w
]
run (destroys i) w = record w { object = store i none w.object }

abbrev pub no_contexts : World
no_contexts = record { object = λ i. none; heap = record { next = 0; holder = λ h. none } }

unfoldable pub run_all : List Command → World → World
run_all [] w = w
run_all (command ∷ later) w = run_all later (run command w)
