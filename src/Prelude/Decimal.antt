-- ===== src/Prelude/Decimal.antt =====
-- Decimal numerals: what digits stand for, and `toString` of a bigint.
use Prim.Native.Nat.{ℕ, zero, suc, ◌+◌, ◌-◌, ◌*◌, ◌/◌, ◌%◌}
use mathlib.Core.Bool.{Bool, ◌&&◌}
use mathlib.Core.List.{[], ◌∷◌}
use zswap_offerfiles_kernel.Prelude.Tests.{ltb, leb, if◌then◌else◌}
use zswap_offerfiles_kernel.Prelude.Int.{ℤ, pos, negsuc}
use zswap_offerfiles_kernel.Prelude.Text.{Text}

-- `[0-9]`
unfoldable pub is_digit : ℕ → Bool
is_digit c = leb b'0' c && leb c b'9'

-- the number that digits spell behind `n`
unfoldable pub value_from : ℕ → Text → ℕ
value_from n [] = n
value_from n (c ∷ s) = value_from (n * 10 + (c - b'0')) s

-- The digits of `n` before `out`; a division by ten takes one fuel, and `suc n` is enough.
unfoldable pub print_from : ℕ → ℕ → Text → Text
print_from zero n out = out
print_from (suc fuel) n out =
    let rest = print_from fuel (n / 10) ((b'0' + n % 10) ∷ out) in
    if ltb n 10 then (b'0' + n) ∷ out else rest

unfoldable pub print : ℕ → Text
unfolding print_from
print n = print_from (suc n) n []

-- `toString` of a bigint
unfoldable pub print_ℤ : ℤ → Text
unfolding print
print_ℤ (pos n) = print n
print_ℤ (negsuc n) = b'-' ∷ print (suc n)
