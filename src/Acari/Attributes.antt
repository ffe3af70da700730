-- ===== src/Acari/Attributes.antt =====
-- lib/Acari/Attributes.h and Attributes.cpp. The counter has 32 bits and is incremented atomically; an
-- attribute (a `boost::any`) is a value of the parameter `A`.
pub mod Allocation
use arachnida.Base.{
  ℕ, zero, suc, ◌+◌, ◌%◌, ◌^◌, Bool, true, false, List, [], ◌∷◌, Option, none, some, leb, get_or,
  replicate, if◌then◌else◌, Result, ok, throw, bad_alloc,
}

abbrev pub max_attribute_count : ℕ
max_attribute_count = 8

abbrev pub counter_mod : ℕ
counter_mod = 2 ^ 32

-- `next_attribute_index__` after the call, and its result.
unfoldable pub allocate_attribute : ℕ → ℕ × Result ℕ
allocate_attribute next =
    (suc next % counter_mod, if leb max_attribute_count next then throw bad_alloc else ok next)

-- The counter after `n` allocations, from 0.
unfoldable pub allocated : ℕ → ℕ
unfolding allocate_attribute
allocated zero = 0
allocated (suc n) = (allocate_attribute (allocated n)).0

-- `attributes_`; `empty` is `boost::any()`.
unfoldable pub make_attributes : {A : Type 0} → A → List A
make_attributes empty = replicate max_attribute_count empty

-- What the reference of `getAttribute` reads, for an index that was allocated.
unfoldable pub get_attribute : {A : Type 0} → A → List A → ℕ → A
get_attribute empty attributes index = get_or attributes index empty

-- An assignment through that reference.
unfoldable pub set_attribute : {A : Type 0} → List A → ℕ → A → List A
set_attribute [] index a = []
set_attribute (x ∷ xs) zero a = a ∷ xs
set_attribute (x ∷ xs) (suc index) a = x ∷ set_attribute xs index a
