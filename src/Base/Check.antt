-- ===== src/Base/Check.antt =====
-- Facts about small numbers by evaluation at every value.
use Prim.Native.Nat.{ℕ, zero, suc, ◌<◌}
use mathlib.Core.Path.{◌≡◌}
use mathlib.Core.Bool.{Bool, true, ◌&&◌}
use mathlib.Core.List.{List, [], ◌∷◌}
use arachnida.Base.Lists.{All}
use native.Mathlib.Omega.{arith}

unfoldable pub holds_below : (ℕ → Bool) → ℕ → Bool
holds_below p zero = true
holds_below p (suc bound) = holds_below p bound && p bound

pub holds_below_lem :
    (p : ℕ → Bool) (bound x : ℕ) → x < bound → holds_below p bound ≡ true → p x ≡ true
unfolding holds_below
holds_below_lem p (suc bound) x lt checked = ground (arith, holds_below_lem p bound x)
holds_below_lem p zero x lt checked = absurd (omega arith)

unfoldable pub all_hold : (ℕ → Bool) → List ℕ → Bool
all_hold p [] = true
all_hold p (c ∷ s) = p c && all_hold p s

pub all_hold_sound : (p : ℕ → Bool) (s : List ℕ) → all_hold p s ≡ true → All (λ c. p c ≡ true) s
unfolding all_hold
all_hold_sound p [] h = tt
all_hold_sound p (c ∷ s) h = (ground arith, all_hold_sound p s (ground arith))
