-- ===== src/Spin/HexAdapter.antt =====
-- `HexAdapter::dehex` of lib/Spin/Private/Grammar.h. `std::size_t` has 64 bits.
pub mod Digits
use arachnida.Base.{
  ℕ, suc, ◌+◌, ◌-◌, ◌*◌, ◌%◌, ◌^◌, Bool, true, false, [], ◌∷◌, Option, none, some, Bytes, codes,
  ltb, ◌==◌, if◌then◌else◌, Result, ok, throw, ◌>>=◌, runtime_error,
}

abbrev pub size_mod : ℕ
size_mod = 2 ^ 64

abbrev pub charset : Bytes
charset = codes "0123456789abcdefABCDEF"

-- `std::find`, as a distance from the begin of the range; `none` if it ends there.
unfoldable pub find_index : ℕ → Bytes → ℕ → Option ℕ
find_index c [] index = none
find_index c (x ∷ xs) index = if x == c then some index else find_index c xs (suc index)

-- The value of a character: the upper-case digits stand six places behind the lower-case ones.
unfoldable pub digit : ℕ → Option ℕ
unfolding find_index
digit c = elim (find_index c charset 0) [
  | none ↦ none
  | some index ↦ some (if ltb 16 index then index - 6 else index)
]

unfoldable pub dehex_from : ℕ → Bytes → Result ℕ
unfolding digit
dehex_from retval [] = ok retval
dehex_from retval (c ∷ s) = elim (digit c) [
  | none ↦ throw runtime_error
  | some v ↦ dehex_from ((retval * 16 % size_mod + v) % size_mod) s
]

unfoldable pub dehex : Bytes → Result ℕ
unfolding dehex_from
dehex s = dehex_from 0 s
