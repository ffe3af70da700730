-- ===== src/Spin/Pipe/Ends.antt =====
-- The constructor of lib/Spin/Private/Pipe.cpp: which descriptors it opens and closes. What the system
-- calls answer is an argument; a guard of Loki closes the descriptor that it was made with.
pub mod Accounts
use arachnida.Base.{
  ℕ, Bool, true, false, ◌&&◌, List, ◌∷◌, [], ◌++◌, Option, none, some, if◌then◌else◌,
}

-- The answers of the calls: a descriptor, or `none` for -1; whether the call succeeds. `set` are the
-- calls of `setsockopt`, in their order.
pub record Answers : Type 0 where
  pub listener : Option ℕ
  pub writer : Option ℕ
  pub binds : Bool
  pub listens : Bool
  pub names : Bool
  pub connects : Bool
  pub reader : Option ℕ
  pub set : ℕ → Bool

pub data Failure : Type 0 where
  bad_alloc : Failure
  bind_failure : Failure
  listen_failure : Failure
  socket_error : Failure

-- How the constructor ends: with the two ends of the pipe, or by an exception.
pub data Ending : Type 0 where
  made : ℕ → ℕ → Ending
  thrown : Failure → Ending

pub record Run : Type 0 where
  pub opened : List ℕ
  pub closed : List ℕ
  pub ending : Ending

abbrev pub fail : Failure → Run
fail e = record { opened = []; closed = []; ending = thrown e }

abbrev pub opening : ℕ → Run → Run
opening fd r = record r { opened = fd ∷ r.opened }

abbrev pub closing : ℕ → Run → Run
closing fd r = record r { closed = fd ∷ r.closed }

abbrev pub unwind : ℕ → Ending → List ℕ
unwind fd (made reader writer) = []
unwind fd (thrown e) = fd ∷ []

-- A guard closes its descriptor when an exception leaves its scope; it is dismissed at the end.
abbrev pub guarded : ℕ → Run → Run
guarded fd r = record r { closed = r.closed ++ unwind fd r.ending }

abbrev pub check : Bool → Failure → Run → Run
check success e rest = if success then rest else fail e

unfoldable pub all_set : (ℕ → Bool) → Bool
all_set set = set 0 && set 1 && set 2 && set 3 && set 4 && set 5

-- The options of both ends. Each call throws the same exception.
unfoldable pub set_options : (ℕ → Bool) → ℕ → ℕ → Run
unfolding all_set
set_options set reader writer =
    check (all_set set) socket_error
      (record { opened = []; closed = []; ending = made reader writer })

-- The listening descriptor is closed, and the member is set to the accepted one.
unfoldable pub accept : Answers → ℕ → ℕ → Run
unfolding set_options
accept a listener writer = elim a.reader [
  | none ↦ fail socket_error
  | some reader ↦ opening reader (closing listener (set_options a.set reader writer))
]

unfoldable pub connect : Answers → ℕ → ℕ → Run
unfolding accept
connect a listener writer = check a.binds bind_failure (
    check a.listens listen_failure
      (check a.names socket_error (check a.connects socket_error (accept a listener writer))))

unfoldable pub construct : Answers → Run
unfolding connect
construct a = elim a.listener [
  | none ↦ fail bad_alloc
  | some listener ↦ opening listener (
      guarded listener (elim a.writer [
        | none ↦ fail bad_alloc
        | some writer ↦ opening writer (guarded writer (connect a listener writer))
      ]))
]
