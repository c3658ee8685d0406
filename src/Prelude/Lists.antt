-- ===== src/Prelude/Lists.antt =====
-- Lists measured by native numbers, predicates on their elements, and Boolean tests of them.
use Prim.Native.Nat.{ℕ, suc, ◌+◌}
use mathlib.Core.Bool.{Bool, true, false, ◌&&◌, ◌||◌}
use mathlib.Core.Path.{◌≡◌}
use mathlib.Core.List.{List, [], ◌∷◌, ◌++◌}
use mathlib.Core.Option.{Option, none, some}
use native.Mathlib.Omega.{arith}
use zswap_offerfiles_kernel.Prelude.Tests.{if◌then◌else◌}

module _ {ℓ} {A : Type ℓ} where
  abbrev pub length : List A → ℕ
  length [] = 0
  length (x ∷ xs) = suc (length xs)

  pub length-append : (xs ys : List A) → length (xs ++ ys) ≡ length xs + length ys
  length-append [] ys = omega arith
  length-append (x ∷ xs) ys = omega (arith, length-append xs ys)

module _ {ℓ} {A : Type ℓ} where
  -- `Array.prototype.filter`, by a Boolean test
  abbrev pub keep_if : (A → Bool) → List A → List A
  keep_if p [] = []
  keep_if p (x ∷ xs) = if p x then x ∷ keep_if p xs else keep_if p xs

  -- `Array.prototype.find`
  abbrev pub find_if : (A → Bool) → List A → Option A
  find_if p [] = none
  find_if p (x ∷ xs) = if p x then some x else find_if p xs

  -- `Array.prototype.some`
  abbrev pub any_of : (A → Bool) → List A → Bool
  any_of p [] = false
  any_of p (x ∷ xs) = p x || any_of p xs

  -- `Array.prototype.every`
  abbrev pub all_of : (A → Bool) → List A → Bool
  all_of p [] = true
  all_of p (x ∷ xs) = p x && all_of p xs

module _ {ℓ κ} {A : Type ℓ} where
  abbrev pub All : (A → Type κ) → List A → Type κ
  All P [] = Unit
  All P (x ∷ xs) = P x × All P xs

  pub All-append : (P : A → Type κ) (xs ys : List A) → All P xs → All P ys → All P (xs ++ ys)
  All-append P [] ys h k = k
  All-append P (x ∷ xs) ys h k = (h.0, All-append P xs ys h.1 k)

module _ {ℓ} {A : Type ℓ} (p : A → Bool) where
  pub find_if-none : (xs : List A) → find_if p xs ≡ none → All (λ x. p x ≡ false) xs
  find_if-none [] h = tt
  find_if-none (x ∷ xs) h = ground (arith, find_if-none xs)

  pub find_if-some : (xs : List A) (x : A) → find_if p xs ≡ some x → p x ≡ true
  find_if-some [] x h = cc
  find_if-some (y ∷ ys) x h = ground (arith, find_if-some ys x)

  pub keep_if-All : (xs : List A) → All (λ x. p x ≡ true) (keep_if p xs)
  keep_if-All [] = tt
  keep_if-All (x ∷ xs) = ground (arith, keep_if-All xs)
