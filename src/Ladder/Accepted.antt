-- ===== src/Ladder/Accepted.antt =====
-- What the rungs of an accepted ladder spell, and the quotes as a function of the points.
use zswap_offerfiles_kernel.Prelude.{
  ◌≤◌, ◌≡◌, refl, true, Option, none, some, List, [], ◌∷◌, map, if◌then◌else◌, ltb, ◌||◌, length,
  All, all_of, arith, ok,
}
use zswap_offerfiles_kernel.Prelude.Int.{ℤ, pos, negsuc, ltb_ℤ}
use zswap_offerfiles_kernel.Prelude.Text.{Text, codes}
use zswap_offerfiles_kernel.Prelude.Decimal.{is_digit, value_from}
use zswap_offerfiles_kernel.Prelude.BigInt.{big_int, big_int-digits}
use zswap_offerfiles_kernel.Prelude.Json.{Json, items_list, get}
use zswap_offerfiles_kernel.Ladder.{
  PriceLevel, is_numeral, is_amount, as_string, as_level, as_levels, interpolate_quote,
  reject_levels,
}
use zswap_offerfiles_kernel.Ladder.Staircase.{Point, Rises, last_point, quote_at}
use zswap_offerfiles_kernel.Ladder.Schema.{
  point_of, RisesBehind, IsAmount, IsRung, reject_levels_iff,
}
use zswap_offerfiles_kernel.Ladder.Quote.{Spells, AreSpelled, read_of, interpolate_quote_of}

is_amount-digits : (s : Text) → is_amount s ≡ true → all_of is_digit s ≡ true
unfolding is_amount is_numeral is_digit
is_amount-digits [] h = refl
is_amount-digits (c ∷ []) h = ground arith
is_amount-digits (c ∷ d ∷ s) h = ground arith

amount_read :
    (v : Json) → IsAmount v → big_int (as_string v) ≡ some (pos (value_from 0 (as_string v)))
amount_read v a = rw a.spelled (big_int-digits a.text (is_amount-digits a.text a.accepted))

rung-Spells : (j : Json) → IsRung j → Spells (as_level j) (point_of (as_level j))
rung-Spells j r = record {
  input = amount_read (get (codes "input") j) r.input;
  output = amount_read (get (codes "output") j) r.output;
}

rungs-Spelled :
    (js : List Json) → All IsRung js → AreSpelled (map as_level js) (map point_of (map as_level js))
rungs-Spelled [] rs = tt
rungs-Spelled (j ∷ js) rs = (rung-Spells j rs.0, rungs-Spelled js rs.1)

-- a ladder, as the rungs that are read of it
pub record IsRising (levels : List PriceLevel) : Type 0 where
  pub first : PriceLevel
  pub others : List PriceLevel
  pub all : levels ≡ first ∷ others
  pub spelled : Spells first (point_of first)
  pub others_spelled : AreSpelled others (map point_of others)
  pub rises : Rises (point_of first) (map point_of others)

pub accepted-IsRising : (j : Json) → reject_levels j ≡ none → IsRising (as_levels j)
unfolding as_levels
accepted-IsRising j h =
    let ladder = (reject_levels_iff j).0 h in
    rw ladder.array (rising (items_list ladder.items) ladder.nonempty ladder.rungs ladder.rises)
  where
    rising :
        (js : List Json)
        → 1 ≤ length js
        → All IsRung js
        → RisesBehind none (map point_of (map as_level js))
        → IsRising (map as_level js)
    rising [] n rs up = absurd (omega arith)
    rising (j ∷ js) n rs up = record {
      first = as_level j;
      others = map as_level js;
      all = refl;
      spelled = rung-Spells j rs.0;
      others_spelled = rungs-Spelled js rs.1;
      rises = up;
    }

-- the input and the output of the rungs at the two ends
abbrev pub ends : List PriceLevel → Point × Point
ends [] = ((0, 0), (0, 0))
ends (l ∷ ls) = (point_of l, last_point (point_of l) (map point_of ls))

-- what the quote is, on the points of the rungs
unfoldable pub points_quote : List PriceLevel → ℤ → Option ℤ
points_quote [] a = none
points_quote (l ∷ ls) (negsuc a) = none
points_quote (l ∷ ls) (pos a) =
    if ltb a (point_of l).0 || ltb (last_point (point_of l) (map point_of ls)).0 a
    then none
    else some (pos (quote_at (point_of l) (map point_of ls) a))

pub quote_points :
    (ls : List PriceLevel) (a : ℤ) → IsRising ls → interpolate_quote ls a ≡ ok (points_quote ls a)
unfolding points_quote interpolate_quote
quote_points ls a r = rw r.all (at a)
  where
    at :
        (a : ℤ)
        → interpolate_quote (r.first ∷ r.others) a ≡ ok (points_quote (r.first ∷ r.others) a)
    at (pos n) = interpolate_quote_of r.first r.others _ _ n r.spelled r.others_spelled r.rises
    at (negsuc n) =
        let below : ltb_ℤ (negsuc n) (pos (point_of r.first).0) ≡ true = ground arith in
        rw (read_of r.first.input (pos (point_of r.first).0) r.spelled.input, below)
