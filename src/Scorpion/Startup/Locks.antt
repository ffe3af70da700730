-- ===== src/Scorpion/Startup/Locks.antt =====
-- The locks that OpenSSL asks for.
use mathlib.Core.Path.{subst}
use arachnida.Base.{
  ℕ, zero, suc, Bool, true, false, ◌<◌, List, [], ◌∷◌, Option, none, some, ◌≡◌, refl, arith, length,
  ap, sym, ◌∙◌, Option-cases, inl, inr,
}
use arachnida.Scorpion.Startup.{
  Slot, null, made, make_locks, cleanup, lock, locks, unlocks, dereferences_null, slot_at,
}

-- What `make_locks` makes of the rest.
abbrev with_made : Option (List Slot) → Option (List Slot)
with_made none = none
with_made (some rest) = some (made ∷ rest)

abbrev IsReady : List Slot → ℕ → Type 0
IsReady ready n = (slot_at n ready ≡ some made) × (slot_at n (cleanup ready) ≡ some null)

IsReady-cons :
    (rest slots : List Slot)
    → ((m : ℕ) → m < length slots → IsReady rest m)
    → (n : ℕ) → n < suc (length slots)
    → IsReady (made ∷ rest) n
unfolding cleanup
IsReady-cons rest slots h zero lt = (refl, refl)
IsReady-cons rest slots h (suc n) lt = h n (omega arith)

made-slot :
    (news : List Bool) (slots ready : List Slot) (n : ℕ)
    → make_locks news slots ≡ some ready
    → n < length slots
    → (slot_at n ready ≡ some made) × (slot_at n (cleanup ready) ≡ some null)
unfolding make_locks cleanup
made-slot news [] ready n h lt = absurd (omega arith)
made-slot [] (slot ∷ slots) ready n h lt = cc
made-slot (false ∷ news) (slot ∷ slots) ready n h lt = cc
made-slot (true ∷ news) (slot ∷ slots) ready n h lt = elim (Option-cases (make_locks news slots)) [
  | inl e ↦ let no : none ≡ some ready = sym (ap with_made e) ∙ h in cc
  | inr (rest, e) ↦
      let got : some (made ∷ rest) ≡ some ready = sym (ap with_made e) ∙ h in
      let same : made ∷ rest ≡ ready = cc in
      subst (λ r. IsReady r n) same
        (IsReady-cons rest slots (λ m l. made-slot news slots rest m e l) n lt)
]

-- When the constructor has made the locks, OpenSSL's call-back locks and unlocks the one that it names.
-- After `cleanup`, which the destructor calls, the same calls dereference a null pointer.
pub lock-make_locks :
    (news : List Bool) (slots ready : List Slot) (n : ℕ) (bit : Bool)
    → make_locks news slots ≡ some ready
    → n < length slots
    → (lock true bit n ready ≡ locks n)
      × (lock false true n ready ≡ unlocks n)
      × (lock true bit n (cleanup ready) ≡ dereferences_null)
      × (lock false true n (cleanup ready) ≡ dereferences_null)
unfolding lock
lock-make_locks news slots ready n bit h lt =
    let (there, gone) = made-slot news slots ready n h lt in
    (rw there refl, rw there refl, rw gone refl, rw gone refl)
