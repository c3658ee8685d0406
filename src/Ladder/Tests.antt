-- ===== src/Ladder/Tests.antt =====
-- A ladder of three rungs: 10 A buy 5 B, 20 A buy 5 B, and 30 A buy 100 B.
use zswap_offerfiles_kernel.Prelude.{
  ℕ, ◌+◌, ◌-◌, ◌*◌, ◌<◌, ◌≤◌, ◌≡◌, ◌↔◌, refl, ◌⊎◌, true, none, some, [], ◌∷◌, ◌++◌, if◌then◌else◌,
  ◌&&◌, ok, arith,
}
use zswap_offerfiles_kernel.Prelude.Int.{ℤ, pos, ◌+ℤ◌, ◌-ℤ◌, ◌*ℤ◌, ◌/ℤ◌, ◌≤ℤ◌, ◌<ℤ◌}
use zswap_offerfiles_kernel.Prelude.Text.{Text, codes, eq_text, to_lower, is_hex64}
use zswap_offerfiles_kernel.Prelude.Map.{Dict, insert}
use zswap_offerfiles_kernel.Prelude.Decimal.{is_digit, value_from}
use zswap_offerfiles_kernel.Prelude.BigInt.{big_int}
use zswap_offerfiles_kernel.Prelude.Json.{
  Json, str, arr, obj, cons, nil, field, end, get, items_list,
}
use zswap_offerfiles_kernel.Ladder.{
  PriceLevel, PriceLevels, pair_key, is_numeral, is_amount, max_u256, is_amount_string, as_levels,
  as_pair, input_not_ascending, check_previous, check_rung, check_rungs, reject_levels, reject_pair,
  is_token_color, read, between, quote_from, quote_below, interpolate_quote, set_pair, get_pair,
}
use zswap_offerfiles_kernel.Ladder.Accepted.{ends}
use zswap_offerfiles_kernel.Ladder.Promises.{quote_range, quote_mono, quote_rung, quote_floor}
use zswap_offerfiles_kernel.Ladder.Schema.{point_of, IsLadder, reject_levels_iff}
use zswap_offerfiles_kernel.Ladder.Book.{set_pair_lookup}

abbrev rung : Text → Text → Json
rung input output =
    obj (field (codes "input") (str input) (field (codes "output") (str output) end))

abbrev ladder : Json
ladder = arr (
    cons (rung (codes "10") (codes "5"))
      (cons (rung (codes "20") (codes "5")) (cons (rung (codes "30") (codes "100")) nil)))

ladder_fine : reject_levels ladder ≡ none
unfolding reject_levels check_rungs check_rung check_previous is_amount_string is_amount is_numeral
    items_list is_digit value_from max_u256 get
ladder_fine = refl

falling :
    reject_levels
      (arr (cons (rung (codes "10") (codes "5")) (cons (rung (codes "10") (codes "6")) nil)))
    ≡ some input_not_ascending
unfolding reject_levels check_rungs check_rung check_previous is_amount_string is_amount is_numeral
    items_list is_digit value_from max_u256 get
falling = refl

quote_25 : interpolate_quote (as_levels ladder) (pos 25) ≡ ok (some (pos 52))
unfolding interpolate_quote quote_below quote_from between read big_int as_levels get ◌+ℤ◌ ◌-ℤ◌ ◌*ℤ◌
    items_list ◌/ℤ◌
quote_25 = refl

quote_29 : interpolate_quote (as_levels ladder) (pos 29) ≡ ok (some (pos 90))
unfolding interpolate_quote quote_below quote_from between read big_int as_levels get ◌+ℤ◌ ◌-ℤ◌ ◌*ℤ◌
    items_list ◌/ℤ◌
quote_29 = refl

quote_range_example :
    ((interpolate_quote (as_levels ladder) (pos 25) ≡ ok none)
      × ((pos 25 <ℤ pos (ends (as_levels ladder)).0.0)
          ⊎ (pos (ends (as_levels ladder)).1.0 <ℤ pos 25)))
    ⊎ ((x : ℤ) × (interpolate_quote (as_levels ladder) (pos 25) ≡ ok (some x))
        × (pos (ends (as_levels ladder)).0.0 ≤ℤ pos 25)
        × (pos 25 ≤ℤ pos (ends (as_levels ladder)).1.0)
        × (pos (ends (as_levels ladder)).0.1 ≤ℤ x)
        × (x ≤ℤ pos (ends (as_levels ladder)).1.1))
quote_range_example = quote_range ladder (pos 25) ladder_fine

quote_mono_example : pos 52 ≤ℤ pos 90
quote_mono_example =
    quote_mono ladder (pos 25) (pos 29) (pos 52) (pos 90) ladder_fine (omega arith) quote_25
      quote_29

abbrev low : PriceLevel
low = record { input = codes "10"; output = codes "5" }

abbrev middle : PriceLevel
middle = record { input = codes "20"; output = codes "5" }

abbrev high : PriceLevel
high = record { input = codes "30"; output = codes "100" }

rungs_of_ladder : as_levels ladder ≡ (low ∷ []) ++ middle ∷ high ∷ []
unfolding as_levels get items_list
rungs_of_ladder = refl

quote_rung_example :
    interpolate_quote (as_levels ladder) (pos (value_from 0 (codes "20")))
    ≡ ok (some (pos (value_from 0 (codes "5"))))
quote_rung_example = quote_rung ladder middle (low ∷ []) (high ∷ []) ladder_fine rungs_of_ladder

abbrev a : Text
a = codes "aaaaaaaaaaaaaaaaaaaaaaaaaaaaaaaaaaaaaaaaaaaaaaaaaaaaaaaaaaaaaaaa"

abbrev b : Text
b = codes "bbbbbbbbbbbbbbbbbbbbbbbbbbbbbbbbbbbbbbbbbbbbbbbbbbbbbbbbbbbbbbbb"

abbrev big_a : Text
big_a = codes "AAAAAAAAAAAAAAAAAAAAAAAAAAAAAAAAAAAAAAAAAAAAAAAAAAAAAAAAAAAAAAAA"

abbrev pair : Json
pair = obj (
    field (codes "tokenIn") (str a)
      (field (codes "tokenOut") (str b) (field (codes "levels") ladder end)))

abbrev posted : Dict PriceLevels
posted = insert (pair_key a b) (as_pair pair) []

set_pair-pair : set_pair pair [] ≡ ok posted
unfolding set_pair reject_pair is_token_color is_hex64 to_lower eq_text reject_levels check_rungs
    items_list check_rung check_previous is_amount_string is_amount is_numeral is_digit value_from
    max_u256 get
set_pair-pair = refl

big_a_hex : is_hex64 big_a ≡ true
unfolding is_hex64
big_a_hex = refl

set_pair_lookup_example : get_pair big_a b posted ≡ (
    if eq_text (to_lower (as_pair pair).token_in) (to_lower big_a)
      && eq_text (to_lower (as_pair pair).token_out) (to_lower b)
    then some (as_pair pair)
    else get_pair big_a b [])
set_pair_lookup_example = set_pair_lookup pair [] posted big_a b big_a_hex set_pair-pair

reject_levels_iff_example : (reject_levels ladder ≡ none) ↔ IsLadder ladder
reject_levels_iff_example = reject_levels_iff ladder

above_middle : (point_of middle).0 < 25
unfolding value_from
above_middle = omega arith

below_high : 25 ≤ (point_of high).0
unfolding value_from
below_high = omega arith

quote_floor_example :
    (x : ℕ) × (interpolate_quote (as_levels ladder) (pos 25)
      ≡ ok (some (pos ((point_of middle).1 + x))))
    × (x * ((point_of high).0 - (point_of middle).0)
        ≤ ((point_of high).1 - (point_of middle).1) * (25 - (point_of middle).0))
    × (((point_of high).1 - (point_of middle).1) * (25 - (point_of middle).0)
        < x * ((point_of high).0 - (point_of middle).0) + ((point_of high).0 - (point_of middle).0))
quote_floor_example =
    quote_floor ladder middle high (low ∷ []) [] 25 ladder_fine rungs_of_ladder above_middle
      below_high
