-- ===== src/Amount.antt =====
-- Whole coins and base units: packages/solver-core/amount.ts.
pub mod Numerals
pub mod RoundTrip
mod Tests
use zswap_offerfiles_kernel.Prelude.{
  ℕ, zero, suc, ◌+◌, ◌-◌, ◌*◌, ◌^◌, Bool, true, false, not, ◌&&◌, Option, none, some, List, [], ◌∷◌,
  ◌++◌, if◌then◌else◌, ltb, ◌==◌, length, all_of, Result, ok, err,
}
use zswap_offerfiles_kernel.Prelude.Int.{ℤ, pos, negsuc}
use zswap_offerfiles_kernel.Prelude.Text.{Text}
use zswap_offerfiles_kernel.Prelude.Decimal.{is_digit, value_from, print}
use zswap_offerfiles_kernel.Prelude.BigInt.{trim}

-- an amount as a bigint or as a string; a number comes as the string that it is spelled by
pub data Coins : Type 0 where
  units : ℤ → Coins
  spelled : Text → Coins

pub data AmountError : Type 0 where
  bad_decimals negative not_an_amount too_fine : AmountError

-- a digit, and what is read behind it
abbrev pub before : ℕ → Text × Text → Text × Text
before c (digits, rest) = (c ∷ digits, rest)

-- `\d*` and the rest
unfoldable pub span_digits : Text → Text × Text
span_digits [] = ([], [])
span_digits (c ∷ s) =
    let found = span_digits s in if is_digit c then before c found else ([], c ∷ s)

-- `(?:\.(\d*))?$`, behind the digits
unfoldable pub after_whole : Text → Text → Option (Text × Text)
after_whole [] rest = none
after_whole (c ∷ whole) [] = some (c ∷ whole, [])
after_whole (c ∷ whole) (d ∷ fraction) =
    if d == b'.' && all_of is_digit fraction then some (c ∷ whole, fraction) else none

-- `COIN_AMOUNT_RE.exec`
unfoldable pub read_amount : Text → Option (Text × Text)
unfolding span_digits after_whole
read_amount s = after_whole (span_digits s).0 (span_digits s).1

unfoldable pub keep_digit : ℕ → Text → Text
keep_digit c [] = if c == b'0' then [] else c ∷ []
keep_digit c (d ∷ s) = c ∷ d ∷ s

-- `replace(/0+$/, "")`
unfoldable pub strip_zeros : Text → Text
unfolding keep_digit
strip_zeros [] = []
strip_zeros (c ∷ s) = keep_digit c (strip_zeros s)

unfoldable pub zeros : ℕ → Text
zeros zero = []
zeros (suc n) = b'0' ∷ zeros n

-- `padEnd(decimals, "0")`, `padStart(decimals + 1, "0")`
unfoldable pub pad_end : ℕ → Text → Text
unfolding zeros
pad_end n s = s ++ zeros (n - length s)

unfoldable pub pad_start : ℕ → Text → Text
unfolding zeros
pad_start n s = zeros (n - length s) ++ s

-- `slice(0, n)`, `slice(n)`
unfoldable pub take : ℕ → Text → Text
take zero s = []
take (suc n) [] = []
take (suc n) (c ∷ s) = c ∷ take n s

unfoldable pub drop : ℕ → Text → Text
drop zero s = s
drop (suc n) [] = []
drop (suc n) (c ∷ s) = drop n s

abbrev pub scaled : ℕ → Option (Text × Text) → Result AmountError ℤ
scaled decimals none = err not_an_amount
scaled decimals (some (whole, fraction)) =
    if ltb decimals (length (strip_zeros fraction))
    then err too_fine
    else ok (
        pos (
          value_from 0 whole * 10 ^ decimals
          + value_from 0 (pad_end decimals (strip_zeros fraction))))

-- `coinsToBaseUnits`, behind `assertDecimals`
unfoldable pub to_base : Coins → ℕ → Result AmountError ℤ
unfolding read_amount strip_zeros pad_end
to_base (units (negsuc n)) decimals = err negative
to_base (units (pos n)) decimals = ok (pos (n * 10 ^ decimals))
to_base (spelled s) decimals = scaled decimals (read_amount (trim s))

-- `coinsToBaseUnits`, of decimals that are a natural number
unfoldable pub coins_to_base_units : Coins → ℕ → Result AmountError ℤ
unfolding to_base
coins_to_base_units coins decimals =
    if ltb 38 decimals then err bad_decimals else to_base coins decimals

unfoldable pub join_point : Text → Text → Text
join_point whole [] = whole
join_point whole (c ∷ fraction) = whole ++ (b'.' ∷ c ∷ fraction)

-- the digits on both sides of the point
unfoldable pub point_at : ℕ → Text → Text
unfolding take drop strip_zeros join_point
point_at decimals digits =
    join_point (take (length digits - decimals) digits)
      (strip_zeros (drop (length digits - decimals) digits))

-- `baseUnitsToCoins`, behind `assertDecimals`
unfoldable pub to_coins : ℤ → ℕ → Result AmountError Text
unfolding point_at pad_start
to_coins (negsuc n) decimals = err negative
to_coins (pos n) decimals =
    if decimals == 0
    then ok (print n)
    else ok (point_at decimals (pad_start (decimals + 1) (print n)))

-- `baseUnitsToCoins`, of decimals that are a natural number
unfoldable pub base_units_to_coins : ℤ → ℕ → Result AmountError Text
unfolding to_coins
base_units_to_coins value decimals =
    if ltb 38 decimals then err bad_decimals else to_coins value decimals
