-- ===== src/Amount/Tests.antt =====
-- One and a half coins of a token with six decimals.
use zswap_offerfiles_kernel.Prelude.{◌≡◌, refl, ok, err, arith}
use zswap_offerfiles_kernel.Prelude.Int.{pos}
use zswap_offerfiles_kernel.Prelude.Text.{Text, codes}
use zswap_offerfiles_kernel.Prelude.Decimal.{is_digit, value_from, print, print_from}
use zswap_offerfiles_kernel.Prelude.BigInt.{is_space, trim, trim_start, trim_end, keep_before}
use zswap_offerfiles_kernel.Amount.{
  spelled, too_fine, span_digits, after_whole, read_amount, keep_digit, strip_zeros, zeros, pad_end,
  pad_start, take, drop, to_base, coins_to_base_units, join_point, point_at, to_coins,
  base_units_to_coins,
}
use zswap_offerfiles_kernel.Amount.RoundTrip.{coins_to_base_units-base_units_to_coins}

base_units_to_coins-half : base_units_to_coins (pos 1500000) 6 ≡ ok (codes "1.5")
unfolding base_units_to_coins to_coins point_at pad_start zeros print print_from take drop
    strip_zeros keep_digit join_point
base_units_to_coins-half = refl

coins_to_base_units-fine : coins_to_base_units (spelled (codes " 1.0000005 ")) 6 ≡ err too_fine
unfolding coins_to_base_units to_base read_amount span_digits after_whole strip_zeros keep_digit
    pad_end zeros value_from is_digit trim trim_start trim_end keep_before is_space
coins_to_base_units-fine = refl

coins_to_base_units-base_units_to_coins_example :
    (s : Text) × (base_units_to_coins (pos 1500000) 6 ≡ ok s)
    × (coins_to_base_units (spelled s) 6 ≡ ok (pos 1500000))
coins_to_base_units-base_units_to_coins_example =
    coins_to_base_units-base_units_to_coins 1500000 6 (omega arith)
