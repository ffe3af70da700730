-- ===== src/Base/Reverse.antt =====
-- Reversal onto an accumulator.
use mathlib.Core.Path.{◌≡◌, refl}
use mathlib.Core.Logic.{◌≢◌}
use mathlib.Core.List.{List, [], ◌∷◌, ◌++◌, reverse_aux}
use Prim.Native.Nat.{◌+◌}
use native.Mathlib.Omega.{arith}
use arachnida.Base.Lists.{All, length}

module _ {ℓ} {A : Type ℓ} where
  pub reverse_aux-append : (xs ys zs : List A) → reverse_aux xs ys ++ zs ≡ reverse_aux xs (ys ++ zs)
  reverse_aux-append [] ys zs = refl
  reverse_aux-append (x ∷ xs) ys zs = reverse_aux-append xs (x ∷ ys) zs

  pub reverse_aux-reverse_aux :
      (xs ys zs : List A) → reverse_aux (reverse_aux xs ys) zs ≡ reverse_aux ys (xs ++ zs)
  reverse_aux-reverse_aux [] ys zs = refl
  reverse_aux-reverse_aux (x ∷ xs) ys zs = reverse_aux-reverse_aux xs (x ∷ ys) zs

  pub reverse_aux-ne-nil : (xs : List A) (y : A) (ys : List A) → reverse_aux xs (y ∷ ys) ≢ []
  reverse_aux-ne-nil [] y ys = cc
  reverse_aux-ne-nil (x ∷ xs) y ys = reverse_aux-ne-nil xs x (y ∷ ys)

  pub length-reverse_aux : (xs ys : List A) → length (reverse_aux xs ys) ≡ length xs + length ys
  length-reverse_aux [] ys = omega arith
  length-reverse_aux (x ∷ xs) ys = omega (arith, length-reverse_aux xs (x ∷ ys))

module _ {ℓ κ} {A : Type ℓ} (P : A → Type κ) where
  pub All-reverse_aux : (xs ys : List A) → All P xs → All P ys → All P (reverse_aux xs ys)
  All-reverse_aux [] ys hx hy = hy
  All-reverse_aux (x ∷ xs) ys (px, hx) hy = All-reverse_aux xs (x ∷ ys) hx (px, hy)
