-- ===== src/Acari/Attributes/Allocation.antt =====
-- Which indices allocateAttribute gives, and what getAttribute reads at them.
use arachnida.Base.{
  ℕ, zero, suc, ◌%◌, ◌≤◌, ◌<◌, List, [], ◌∷◌, length, ok, throw, bad_alloc, ◌≡◌, ◌≢◌, refl, ap,
  arith, ◌⊎◌,
}
use arachnida.Acari.Attributes.{
  max_attribute_count, counter_mod, allocate_attribute, allocated, get_attribute, set_attribute,
}

allocated_lem : (n : ℕ) → allocated n ≡ n % counter_mod
unfolding allocated allocate_attribute
allocated_lem zero = refl
allocated_lem (suc n) = rw (allocated_lem n) (omega arith)

-- After `n` allocations the next one gives the index `n` modulo 2^32 if that is below 8, and throws
-- otherwise: the first eight give 0 to 7, each once, every later one throws, and after 2^32 of them the
-- indices come again.
pub allocate_attribute_lem :
    (n : ℕ)
    → ((n % counter_mod < max_attribute_count)
        × ((allocate_attribute (allocated n)).1 ≡ ok (n % counter_mod)))
      ⊎ ((max_attribute_count ≤ n % counter_mod)
          × ((allocate_attribute (allocated n)).1 ≡ throw bad_alloc))
allocate_attribute_lem n = rw (allocated_lem n) (unfold allocate_attribute in ground arith)

-- What is assigned to an attribute is read back from it, and every other attribute stays.
pub get_attribute-set_attribute :
    {A : Type 0} (empty : A) (attributes : List A) (index other : ℕ) (a : A)
    → index < length attributes
    → (get_attribute empty (set_attribute attributes index a) index ≡ a)
      × (other ≢ index
          → get_attribute empty (set_attribute attributes index a) other
            ≡ get_attribute empty attributes other)
unfolding get_attribute set_attribute
get_attribute-set_attribute empty [] index other a h = absurd (omega arith)
get_attribute-set_attribute empty (x ∷ xs) zero zero a h = (refl, λ ne. absurd (ne refl))
get_attribute-set_attribute empty (x ∷ xs) zero (suc other) a h = (refl, λ ne. refl)
get_attribute-set_attribute empty (x ∷ xs) (suc index) zero a h =
    ((get_attribute-set_attribute empty xs index index a (omega arith)).0, λ ne. refl)
get_attribute-set_attribute empty (x ∷ xs) (suc index) (suc other) a h =
    let tail = get_attribute-set_attribute empty xs index other a (omega arith) in
    (tail.0, λ ne. tail.1 (λ e. ne (ap suc e)))
