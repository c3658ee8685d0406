-- ===== src/Balance.antt =====
-- Token accounting for sets of indivisible maker offers:
-- packages/solver-core/whole-offer-balance.ts, without the merge order (Balance/Merge.antt).
pub mod Rows
pub mod Accounting
pub mod Canonical
pub mod Pair
pub mod Receipts
pub mod Merge
mod Tests
use zswap_offerfiles_kernel.Prelude.{
  ℕ, ◌-◌, ◌^◌, Bool, true, false, not, ◌&&◌, ◌||◌, Option, none, some, List, [], ◌∷◌, map,
  if◌then◌else◌, find_if, keep_if, Result, ok, err, ◌>>=◌, ◌>>◌, throw_if,
}
use zswap_offerfiles_kernel.Prelude.Int.{ℤ, pos, ◌+ℤ◌, ◌-ℤ◌, neg, ltb_ℤ, leb_ℤ, eq_ℤ}
use zswap_offerfiles_kernel.Prelude.Text.{Text, eq_text, lt_text, to_lower, is_hex64}
use zswap_offerfiles_kernel.Prelude.Map.{Dict, lookup, insert}

-- `MAX_SETTLEMENT_AMOUNT`, the largest i128
pub max_settlement_amount : ℕ
max_settlement_amount = 2 ^ 127 - 1

pub data Side : Type 0 where
  on_gives on_wants : Side

-- What is thrown.
pub data Failure : Type 0 where
  invalid_token : Text → Failure
  invalid_amount : Side → Text → Failure
  invalid_balance : Text → Failure
  bad_maximum_delta bad_max_sources bad_max_work duplicate_offer_hash : Failure

pub record Leg : Type 0 where
  pub token : Text
  pub amount : ℤ

pub record Source : Type 0 where
  pub gives : List Leg
  pub wants : List Leg

pub record TokenBalance : Type 0 where
  pub token : Text
  pub gives : ℤ
  pub wants : ℤ
  pub net : ℤ

-- an entry of the map `totals`
pub record Totals : Type 0 where
  pub gives : ℤ
  pub wants : ℤ

pub record PairBalance : Type 0 where
  pub token_in : Text
  pub token_out : Text
  pub input : ℤ
  pub output : ℤ
  pub token_balances : List TokenBalance

pub data Reason : Type 0 where
  same_token input_not_negative output_not_positive additional_deficit settlement_cap : Reason
  non_positive_input non_positive_output insufficient_input excess_output : Reason

pub data Evaluation : Type 0 where
  accepted : PairBalance → Evaluation
  refused : Reason → Option Text → Evaluation

pub record Trade : Type 0 where
  pub token_in : Text
  pub token_out : Text
  pub input : ℤ
  pub output : ℤ

pub record Receipt : Type 0 where
  pub token : Text
  pub amount : ℤ

pub data ReceiptResult : Type 0 where
  granted : (required_input available_output : ℤ) → List Receipt → ReceiptResult
  denied : Reason → Option Text → ReceiptResult

pub canonical_token : Text → Result Failure Text
canonical_token token = if is_hex64 token then ok (to_lower token) else err (invalid_token token)

abbrev pub no_totals : Totals
no_totals = record { gives = pos 0; wants = pos 0 }

-- `totals.get(token) ?? { gives: 0n, wants: 0n }`
pub current : Text → Dict Totals → Totals
current token totals = elim (lookup token totals) [ none ↦ no_totals | some t ↦ t ]

-- the order of `sort` on the keys, which are all different
pub place : Text × Totals → Dict Totals → Dict Totals
place e [] = e ∷ []
place e (f ∷ es) = if lt_text f.0 e.0 then f ∷ place e es else e ∷ f ∷ es

pub sort_entries : Dict Totals → Dict Totals
unfolding place
sort_entries [] = []
sort_entries (e ∷ es) = place e (sort_entries es)

abbrev pub row : Text × Totals → TokenBalance
row (token, total) = record {
  token = token;
  gives = total.gives;
  wants = total.wants;
  net = total.gives -ℤ total.wants;
}

-- The end of both accounting functions: sorted rows, with the net of each token.
pub rows_of : Dict Totals → List TokenBalance
rows_of totals = map row (sort_entries totals)

-- a balance that canonicalBalances refuses
pub is_inconsistent : TokenBalance → Bool
is_inconsistent b =
    ltb_ℤ b.gives (pos 0) || (ltb_ℤ b.wants (pos 0) || not (eq_ℤ b.net (b.gives -ℤ b.wants)))

pub add_balance : Dict Totals → TokenBalance → Result Failure (Dict Totals)
unfolding canonical_token current is_inconsistent
add_balance totals b = do
  token ← canonical_token b.token
  throw_if (is_inconsistent b) (invalid_balance token)
  let now = current token totals
  ok (insert token (record { gives = now.gives +ℤ b.gives; wants = now.wants +ℤ b.wants }) totals)

pub add_balances : List TokenBalance → Dict Totals → Result Failure (Dict Totals)
unfolding add_balance
add_balances [] totals = ok totals
add_balances (b ∷ bs) totals = add_balance totals b >>= λ totals'. add_balances bs totals'

-- `canonicalBalances`
pub canonical_balances : List TokenBalance → Result Failure (List TokenBalance)
unfolding add_balances
canonical_balances balances = do totals ← add_balances balances []; ok (rows_of totals)

abbrev pub bump : Side → ℤ → Totals → Totals
bump on_gives amount t = record t { gives = t.gives +ℤ amount }
bump on_wants amount t = record t { wants = t.wants +ℤ amount }

-- `add`, inside accountWholeOfferBalances
pub add_leg : Side → Dict Totals → Leg → Result Failure (Dict Totals)
unfolding canonical_token current
add_leg side totals leg = do
  token ← canonical_token leg.token
  throw_if (leb_ℤ leg.amount (pos 0)) (invalid_amount side token)
  ok (insert token (bump side leg.amount (current token totals)) totals)

pub add_legs : Side → List Leg → Dict Totals → Result Failure (Dict Totals)
unfolding add_leg
add_legs side [] totals = ok totals
add_legs side (l ∷ ls) totals = add_leg side totals l >>= λ totals'. add_legs side ls totals'

pub add_sources : List Source → Dict Totals → Result Failure (Dict Totals)
unfolding add_legs
add_sources [] totals = ok totals
add_sources (s ∷ ss) totals = do
  given ← add_legs on_gives s.gives totals
  wanted ← add_legs on_wants s.wants given
  add_sources ss wanted

-- `accountWholeOfferBalances`
pub account : List Source → Result Failure (List TokenBalance)
unfolding add_sources
account sources = do totals ← add_sources sources []; ok (rows_of totals)

abbrev pub has_token : Text → TokenBalance → Bool
has_token token b = eq_text b.token token

abbrev pub is_other_deficit : Text → TokenBalance → Bool
is_other_deficit input b = not (eq_text b.token input) && ltb_ℤ b.net (pos 0)

abbrev pub is_outside : TokenBalance → Bool
is_outside b =
    ltb_ℤ (pos max_settlement_amount) b.net || ltb_ℤ b.net (neg (pos max_settlement_amount))

module _ (rows : List TokenBalance) (input_token output_token : Text) where
  -- the checks of evaluateWholeOfferPair behind its two look-ups
  pub evaluate_found : TokenBalance → TokenBalance → Evaluation
  evaluate_found input output = elim (find_if (is_other_deficit input_token) rows) [
    | some deficit ↦ refused additional_deficit (some deficit.token)
    | none ↦ elim (find_if is_outside rows) [
      | some outside ↦ refused settlement_cap (some outside.token)
      | none ↦ accepted (record {
        token_in = input_token;
        token_out = output_token;
        input = neg input.net;
        output = output.net;
        token_balances = rows;
      })
    ]
  ]

  pub require_output : TokenBalance → Evaluation
  unfolding evaluate_found
  require_output input = elim (find_if (has_token output_token) rows) [
    | none ↦ refused output_not_positive (some output_token)
    | some output ↦
        if leb_ℤ output.net (pos 0)
        then refused output_not_positive (some output_token)
        else evaluate_found input output
  ]

  pub require_input : Evaluation
  unfolding require_output
  require_input = elim (find_if (has_token input_token) rows) [
    | none ↦ refused input_not_negative (some input_token)
    | some input ↦
        if leb_ℤ (pos 0) input.net
        then refused input_not_negative (some input_token)
        else require_output input
  ]

-- `evaluateWholeOfferPair`
pub evaluate : List TokenBalance → Text → Text → Result Failure Evaluation
unfolding require_input canonical_balances canonical_token
evaluate balances token_in token_out = do
  input_token ← canonical_token token_in
  output_token ← canonical_token token_out
  let checked =
      canonical_balances balances >>= λ rows. ok (require_input rows input_token output_token)
  if eq_text input_token output_token then ok (refused same_token none) else checked

abbrev pub amount_if : Bool → ℤ → ℤ
amount_if b x = if b then x else pos 0

-- what a row leaves to the solver once the trade is taken in and paid out
pub receipt_of : PairBalance → Trade → TokenBalance → Receipt
receipt_of pair trade b = record {
  token = b.token;
  amount =
      b.net
      +ℤ amount_if (eq_text b.token pair.token_in) trade.input
      -ℤ amount_if (eq_text b.token pair.token_out) trade.output;
}

abbrev pub is_positive : Receipt → Bool
is_positive r = ltb_ℤ (pos 0) r.amount

abbrev pub is_oversized : Receipt → Bool
is_oversized r = ltb_ℤ (pos max_settlement_amount) r.amount

pub receipts_of : PairBalance → Trade → List Receipt
unfolding receipt_of
receipts_of pair trade = keep_if is_positive (map (receipt_of pair trade) pair.token_balances)

-- the checks of buildWholeOfferReceipts against an accepted pair
pub settle : PairBalance → Trade → ReceiptResult
unfolding receipts_of
settle pair trade =
    if ltb_ℤ trade.input pair.input
    then denied insufficient_input (some pair.token_in)
    else if ltb_ℤ pair.output trade.output
    then denied excess_output (some pair.token_out)
    else elim (find_if is_oversized (receipts_of pair trade)) [
      | some r ↦ denied settlement_cap (some r.token)
      | none ↦ granted pair.input pair.output (receipts_of pair trade)
    ]

abbrev pub settle_evaluated : Trade → Evaluation → ReceiptResult
settle_evaluated trade (refused reason token) = denied reason token
settle_evaluated trade (accepted pair) = settle pair trade

pub cap_denied : Text → Result Failure ReceiptResult
unfolding canonical_token
cap_denied token = do t ← canonical_token token; ok (denied settlement_cap (some t))

-- `buildWholeOfferReceipts`
pub build_receipts : List TokenBalance → Trade → Result Failure ReceiptResult
build_receipts balances trade =
    if leb_ℤ trade.input (pos 0)
    then ok (denied non_positive_input none)
    else if leb_ℤ trade.output (pos 0)
    then ok (denied non_positive_output none)
    else if ltb_ℤ (pos max_settlement_amount) trade.input
    then cap_denied trade.token_in
    else if ltb_ℤ (pos max_settlement_amount) trade.output
    then cap_denied trade.token_out
    else evaluate balances trade.token_in trade.token_out >>= λ evaluated.
        ok (settle_evaluated trade evaluated)
