-- ===== src/Ladder.antt =====
-- Price ladders: packages/solver-core/ladder-schema.ts and the LadderBook of
-- packages/solver/src/ladder.ts.
pub mod Staircase
pub mod Schema
pub mod Quote
pub mod Accepted
pub mod Promises
pub mod Book
mod Tests
use zswap_offerfiles_kernel.Prelude.{
  ℕ, ◌-◌, ◌^◌, Bool, true, false, not, ◌&&◌, ◌||◌, Option, none, some, List, [], ◌∷◌, ◌++◌, map,
  if◌then◌else◌, ltb, leb, ◌==◌, length, all_of, Result, ok, err, ◌>>=◌, ◌>>◌, throw_if,
}
use zswap_offerfiles_kernel.Prelude.Int.{ℤ, pos, ◌+ℤ◌, ◌-ℤ◌, ◌*ℤ◌, ◌/ℤ◌, ltb_ℤ, leb_ℤ}
use zswap_offerfiles_kernel.Prelude.Text.{Text, codes, eq_text, to_lower, is_hex64}
use zswap_offerfiles_kernel.Prelude.Map.{Dict, lookup, insert}
use zswap_offerfiles_kernel.Prelude.Decimal.{is_digit, value_from}
use zswap_offerfiles_kernel.Prelude.BigInt.{big_int}
use zswap_offerfiles_kernel.Prelude.Json.{
  Json, undefined, null, str, arr, obj, bool, num, items_list, get,
}

pub record PriceLevel : Type 0 where
  pub input : Text
  pub output : Text

pub record PriceLevels : Type 0 where
  pub token_in : Text
  pub token_out : Text
  pub levels : List PriceLevel

abbrev pub max_rungs : ℕ
max_rungs = 64

-- `pairKey`
unfoldable pub pair_key : Text → Text → Text
pair_key token_in token_out = to_lower token_in ++ (b'|' ∷ to_lower token_out)

pub max_u256 : ℕ
max_u256 = 2 ^ 256 - 1

-- `/^(?:0|[1-9][0-9]{0,77})$/`
pub is_numeral : Text → Bool
is_numeral [] = false
is_numeral (c ∷ s) =
    (c == b'0' && length s == 0)
    || ((leb b'1' c && leb c b'9') && (leb (length s) 77 && all_of is_digit s))

-- `isAmountString` of a string, where `BigInt` cannot throw
pub is_amount : Text → Bool
is_amount s = is_numeral s && leb (value_from 0 s) max_u256

pub data Rejection : Type 0 where
  no_rungs too_many_rungs malformed_rung non_positive input_not_ascending output_decreasing :
      Rejection
  bad_tokens : Rejection

-- the cast to `string`, of a value that was tested to be one
abbrev pub as_string : Json → Text
as_string (str s) = s
as_string _ = []

pub is_amount_string : Json → Bool
is_amount_string (str s) = is_amount s
is_amount_string _ = false

-- `typeof rung !== "object" || rung === null`
abbrev pub is_object : Json → Bool
is_object (obj fs) = true
is_object (arr js) = true
is_object _ = false

-- the cast `rung as PriceLevel`
abbrev pub as_level : Json → PriceLevel
as_level j = record {
  input = as_string (get (codes "input") j);
  output = as_string (get (codes "output") j);
}

-- the comparison with the rung before
pub check_previous : Option PriceLevel → PriceLevel → Option Rejection
check_previous none r = none
check_previous (some prev) r =
    if leb (value_from 0 r.input) (value_from 0 prev.input)
    then some input_not_ascending
    else if ltb (value_from 0 r.output) (value_from 0 prev.output)
    then some output_decreasing
    else none

-- one round of the loop of `rejectLevels`; `BigInt` reads strings that passed `isAmountString`
pub check_rung : Option PriceLevel → Json → Option Rejection
unfolding check_previous
check_rung prev rung =
    if not (is_object rung)
    then some malformed_rung
    else if not (
        is_amount_string (get (codes "input") rung) && is_amount_string (get (codes "output") rung))
    then some malformed_rung
    else if leb (value_from 0 (as_level rung).input) 0
        || leb (value_from 0 (as_level rung).output) 0
    then some non_positive
    else check_previous prev (as_level rung)

pub check_rungs : Option PriceLevel → List Json → Option Rejection
check_rungs prev [] = none
check_rungs prev (rung ∷ rungs) = elim (check_rung prev rung) [
  | some r ↦ some r
  | none ↦ check_rungs (some (as_level rung)) rungs
]

-- `rejectLevels`
pub reject_levels : Json → Option Rejection
reject_levels (arr js) =
    if length (items_list js) == 0
    then some no_rungs
    else if ltb max_rungs (length (items_list js))
    then some too_many_rungs
    else check_rungs none (items_list js)
reject_levels _ = some no_rungs

pub is_token_color : Json → Bool
is_token_color (str s) = is_hex64 s
is_token_color _ = false

-- `rejectPair`
pub reject_pair : Json → Option Rejection
reject_pair j =
    if not (is_object j)
    then some bad_tokens
    else if not (is_token_color (get (codes "tokenIn") j))
        || not (is_token_color (get (codes "tokenOut") j))
    then some bad_tokens
    else if eq_text (to_lower (as_string (get (codes "tokenIn") j)))
        (to_lower (as_string (get (codes "tokenOut") j)))
    then some bad_tokens
    else reject_levels (get (codes "levels") j)

-- what `BigInt` throws
pub data SyntaxError : Type 0 where
  syntax_error : Text → SyntaxError

pub read : Text → Result SyntaxError ℤ
read s = elim (big_int s) [ none ↦ err (syntax_error s) | some x ↦ ok x ]

abbrev pub last_level : PriceLevel → List PriceLevel → PriceLevel
last_level l [] = l
last_level l (m ∷ ls) = last_level m ls

abbrev pub read_output : PriceLevel → Result SyntaxError (Option ℤ)
read_output l = do out ← read l.output; ok (some out)

-- the rest of a round whose upper rung is not passed
pub between : PriceLevel → PriceLevel → ℤ → ℤ → ℤ → Result SyntaxError (Option ℤ)
between lo hi amount_in in_lo in_hi = if leb_ℤ in_hi in_lo then read_output lo else do
  out_lo ← read lo.output
  out_hi ← read hi.output
  ok (some (out_lo +ℤ ((out_hi -ℤ out_lo) *ℤ (amount_in -ℤ in_lo)) /ℤ (in_hi -ℤ in_lo)))

-- the loop of `interpolateQuote`, from one rung on
pub quote_from : PriceLevel → List PriceLevel → ℤ → Result SyntaxError (Option ℤ)
unfolding between
quote_from lo [] amount_in = read_output lo
quote_from lo (hi ∷ ls) amount_in =
    let rest = quote_from hi ls amount_in in
    do
      in_lo ← read lo.input
      in_hi ← read hi.input
      if ltb_ℤ in_hi amount_in then rest else between lo hi amount_in in_lo in_hi

-- behind the test of the smallest input
pub quote_below : PriceLevel → List PriceLevel → ℤ → Result SyntaxError (Option ℤ)
quote_below l ls amount_in = do
  last ← read (last_level l ls).input
  if ltb_ℤ last amount_in then ok none else quote_from l ls amount_in

-- `interpolateQuote`
pub interpolate_quote : List PriceLevel → ℤ → Result SyntaxError (Option ℤ)
interpolate_quote [] amount_in = ok none
interpolate_quote (l ∷ ls) amount_in = do
  first ← read l.input
  if ltb_ℤ amount_in first then ok none else quote_below l ls amount_in

-- the cast `value as PriceLevel[]`
pub as_levels : Json → List PriceLevel
as_levels (arr js) = map as_level (items_list js)
as_levels _ = []

abbrev pub as_pair : Json → PriceLevels
as_pair j = record {
  token_in = as_string (get (codes "tokenIn") j);
  token_out = as_string (get (codes "tokenOut") j);
  levels = as_levels (get (codes "levels") j);
}

-- `LadderBook.set`; a pair that is refused is an error
pub set_pair : Json → Dict PriceLevels → Result Rejection (Dict PriceLevels)
set_pair pair book = elim (reject_pair pair) [
  | some rejection ↦ err rejection
  | none ↦
      ok (insert (pair_key (as_pair pair).token_in (as_pair pair).token_out) (as_pair pair) book)
]

-- `LadderBook.fromPairs`, behind some pairs
pub set_pairs : List Json → Dict PriceLevels → Result Rejection (Dict PriceLevels)
unfolding set_pair
set_pairs [] book = ok book
set_pairs (pair ∷ pairs) book = set_pair pair book >>= set_pairs pairs

-- `LadderBook.get`
pub get_pair : Text → Text → Dict PriceLevels → Option PriceLevels
unfolding pair_key
get_pair token_in token_out book = lookup (pair_key token_in token_out) book

-- `LadderBook.maxPayout`
pub max_payout : Text → Text → ℤ → Dict PriceLevels → Result SyntaxError (Option ℤ)
max_payout token_in token_out amount_in book = elim (get_pair token_in token_out book) [
  | none ↦ ok none
  | some pair ↦ interpolate_quote pair.levels amount_in
]
