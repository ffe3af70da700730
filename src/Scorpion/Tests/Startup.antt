-- ===== src/Scorpion/Tests/Startup.antt =====
-- Runs of the start-up of OpenSSL.
use mathlib.Core.Logic.{◌↔◌}
use arachnida.Base.{
  ℕ, true, false, [], ◌∷◌, none, some, codes, ◌≡◌, refl, arith, ok, if◌then◌else◌, str_eq,
}
use arachnida.Scorpion.Startup.{
  no_ids, get_thread_id, make_locks, lock, cleanup, null, made, locks, unlocks, dereferences_null,
  seed_prng, egd, unseeded,
}
use arachnida.Scorpion.Startup.Ids.{get_thread_id-tells}
use arachnida.Scorpion.Startup.Locks.{lock-make_locks}

-- Thread 1 asks twice, with a call of thread 2 in between whose value is not stored.
abbrev first_id : ℕ
first_id = 0

abbrev one : ℕ
one = 1

get_thread_id-tells_run : (first_id ≡ 0) ↔ (one ≡ 1)
unfolding get_thread_id
get_thread_id-tells_run =
    get_thread_id-tells 22 [] ((2, 12) ∷ []) 1 0 1 0 0 0 (omega arith) refl refl

second_id :
    (get_thread_id 22 0 2 (get_thread_id 22 12 2 (get_thread_id 22 0 1 no_ids).1).1).0 ≡ ok 2
unfolding get_thread_id
second_id = refl

made_run : make_locks (true ∷ true ∷ []) (null ∷ null ∷ []) ≡ some (made ∷ made ∷ [])
unfolding make_locks
made_run = refl

refused_run : make_locks (true ∷ false ∷ []) (null ∷ null ∷ []) ≡ none
unfolding make_locks
refused_run = refl

lock-make_locks_run :
    (lock true false 1 (made ∷ made ∷ []) ≡ locks 1)
    × (lock false true 1 (made ∷ made ∷ []) ≡ unlocks 1)
    × (lock true false 1 (cleanup (made ∷ made ∷ [])) ≡ dereferences_null)
    × (lock false true 1 (cleanup (made ∷ made ∷ [])) ≡ dereferences_null)
lock-make_locks_run =
    lock-make_locks (true ∷ true ∷ []) (null ∷ null ∷ []) (made ∷ made ∷ []) 1 false made_run
      (omega arith)

seeded_run :
    (seed_prng false (λ n. 0) (λ n. if str_eq n (codes "/dev/egd-pool") then 255 else 0)
      ≡ egd (codes "/dev/egd-pool"))
    × (seed_prng true (λ n. 254) (λ n. 0) ≡ unseeded)
unfolding seed_prng str_eq
seeded_run = (refl, refl)
