-- ===== src/Scorpion/Startup.antt =====
-- lib/Scorpion/Private/OpenSSL.cpp: the locks that OpenSSL asks for, the ids of threads, and the seeding
-- of the random numbers. CRYPTO_LOCK, CRYPTO_UNLOCK and EINVAL are arguments, as tests or numbers, and so
-- is what the calls of the system return.
pub mod Ids
pub mod Locks
use arachnida.Base.{
  ℕ, zero, suc, Bool, true, false, ◌&&◌, ◌+◌, ◌%◌, ◌^◌, List, [], ◌∷◌, Option, none, some, Bytes,
  codes, ◌==◌, ltb, if◌then◌else◌, Result, ok, throw, bad_alloc, replicate,
}
use arachnida.Acari.ThreadLocal.{Values, get_value, set_value}

-- `next_thread_id_`, and what the threads keep under `tls_key_`
pub record ThreadIds : Type 0 where
  pub values : Values
  pub next_thread_id : ℕ

abbrev pub no_ids : ThreadIds
no_ids = record { values = []; next_thread_id = 0 }

-- `getThreadId`, with what `pthread_setspecific` returns
unfoldable pub get_thread_id : ℕ → ℕ → ℕ → ThreadIds → Result ℕ × ThreadIds
unfolding get_value set_value
get_thread_id einval rv thread ids = elim (get_value thread ids.values) [
  | some v ↦ (ok v, ids)
  | none ↦
      let id = ids.next_thread_id in
      let next = (id + 1) % 2 ^ 32 in
      elim (set_value einval rv thread id ids.values) [
        | throw e ↦ (throw e, record ids { next_thread_id = next })
        | ok values ↦ (ok id, record { values = values; next_thread_id = next })
      ]
]

-- An element of `locks_`: a null pointer, or a lock.
pub data Slot : Type 0 where
  null : Slot
  made : Slot

-- The constructor's loop with its guard: the locks, or none of them and an exception. `news` tells which
-- allocations succeed.
unfoldable pub make_locks : List Bool → List Slot → Option (List Slot)
make_locks news [] = some []
make_locks [] (slot ∷ slots) = none
make_locks (true ∷ news) (slot ∷ slots) = elim (make_locks news slots) [
  | none ↦ none
  | some rest ↦ some (made ∷ rest)
]
make_locks (false ∷ news) (slot ∷ slots) = none

-- `cleanup`
unfoldable pub cleanup : List Slot → List Slot
cleanup [] = []
cleanup (slot ∷ slots) = null ∷ cleanup slots

-- What the locking call-back does.
pub data Locking : Type 0 where
  locks : ℕ → Locking
  unlocks : ℕ → Locking
  does_nothing : Locking
  dereferences_null : Locking
  out_of_range : Locking

abbrev pub slot_at : ℕ → List Slot → Option Slot
slot_at n [] = none
slot_at zero (slot ∷ slots) = some slot
slot_at (suc n) (slot ∷ slots) = slot_at n slots

abbrev through : Locking → Option Slot → Locking
through action none = out_of_range
through action (some null) = dereferences_null
through action (some made) = action

-- `lock`, with what the bits of its mode say
unfoldable pub lock : Bool → Bool → ℕ → List Slot → Locking
lock has_lock has_unlock lock_id slots =
    if has_lock
    then through (locks lock_id) (slot_at lock_id slots)
    else if has_unlock
    then through (unlocks lock_id) (slot_at lock_id slots)
    else does_nothing

-- Where `seedPRNG` gets its bytes.
pub data Seed : Type 0 where
  dev_random : Seed
  dev_urandom : Seed
  egd : Bytes → Seed
  unseeded : Seed

unfoldable pub egd_names : List Bytes
egd_names =
    codes "/var/run/egd-pool"
    ∷ codes "/dev/egd-pool"
    ∷ codes "/etc/egd-pool"
    ∷ codes "/etc/entropy"
    ∷ []

abbrev pub seed_size : ℕ
seed_size = 255

unfoldable pub seed_from_egd : (Bytes → ℕ) → List Bytes → Seed
seed_from_egd egd_bytes [] = unseeded
seed_from_egd egd_bytes (name ∷ names) =
    let rest = seed_from_egd egd_bytes names in
    if egd_bytes name == seed_size then egd name else rest

-- `use_dev_random` is SCORPION_USE_DEV_RANDOM; `load_file` and `egd_bytes` say how many bytes OpenSSL got.
unfoldable pub seed_prng : Bool → (Bytes → ℕ) → (Bytes → ℕ) → Seed
unfolding egd_names seed_from_egd
seed_prng use_dev_random load_file egd_bytes =
    if use_dev_random && load_file (codes "/dev/random") == seed_size
    then dev_random
    else if load_file (codes "/dev/urandom") == seed_size
    then dev_urandom
    else seed_from_egd egd_bytes egd_names
