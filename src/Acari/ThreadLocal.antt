-- ===== src/Acari/ThreadLocal.antt =====
-- lib/Acari/ThreadLocalStorage.cpp with POSIX threads. What the calls of pthread return are arguments,
-- and so is the number of the error EINVAL. A key is known by a number, a thread too.
use arachnida.Base.{
  ℕ, List, [], ◌∷◌, Option, none, some, ◌==◌, if◌then◌else◌, Result, ok, throw, bad_alloc,
  logic_error,
}

-- The values that the threads have under one key.
abbrev pub Values : Type 0
Values = List (ℕ × ℕ)

-- `acquireKey`, for the key that `pthread_key_create` makes
unfoldable pub acquire_key : ℕ → ℕ → Result ℕ
acquire_key rv key = if rv == 0 then ok key else throw bad_alloc

-- `getValue`
unfoldable pub get_value : ℕ → Values → Option ℕ
get_value thread [] = none
get_value thread ((t, v) ∷ values) =
    let rest = get_value thread values in if t == thread then some v else rest

-- `setValue`
unfoldable pub set_value : ℕ → ℕ → ℕ → ℕ → Values → Result Values
set_value einval rv thread value values =
    if rv == einval
    then throw logic_error
    else if rv == 0
    then ok ((thread, value) ∷ values)
    else throw bad_alloc
