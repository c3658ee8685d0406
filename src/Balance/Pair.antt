-- ===== src/Balance/Pair.antt =====
-- evaluateWholeOfferPair: when a pair is accepted, and what an accepted pair says.
use zswap_offerfiles_kernel.Prelude.{
  ◌≡◌, refl, true, false, none, List, [], ◌∷◌, arith, All, if◌then◌else◌, Bool-cases, inl, inr, ap,
  Result-cases, ok, ◌≢◌, ◌↔◌, find_if, find_if-none,
}
use zswap_offerfiles_kernel.Prelude.Int.{ℤ, pos, neg, ◌≤ℤ◌}
use zswap_offerfiles_kernel.Prelude.Text.{Text, eq_text, eq_text_iff, to_lower, is_hex64}
use zswap_offerfiles_kernel.Balance.{
  TokenBalance, PairBalance, Evaluation, accepted, refused, same_token, canonical_token,
  canonical_balances, evaluate_found, require_input, evaluate, is_other_deficit, is_outside,
  max_settlement_amount,
}
use zswap_offerfiles_kernel.Balance.Rows.{net_at}

abbrev pub IsRepresentable : ℤ → Type 0
IsRepresentable x = (neg (pos max_settlement_amount) ≤ℤ x) × (x ≤ℤ pos max_settlement_amount)

-- The rows can serve a trade from one token to the other: the makers lack only the first, they
-- have the second to spare, and every net amount is a signed delta of the ledger.
pub record IsServable (rows : List TokenBalance) (input_token output_token : Text) : Type 0 where
  pub distinct : input_token ≢ output_token
  pub lacks_input : net_at input_token rows ≤ℤ neg (pos 1)
  pub spares_output : pos 1 ≤ℤ net_at output_token rows
  pub no_other_deficit : All (λ r. r.token ≢ input_token → pos 0 ≤ℤ r.net) rows
  pub representable : All (λ r. IsRepresentable r.net) rows

-- What an accepted pair holds.
unfoldable pub pair_of : List TokenBalance → Text → Text → PairBalance
pair_of rows input_token output_token = record {
  token_in = input_token;
  token_out = output_token;
  input = neg (net_at input_token rows);
  output = net_at output_token rows;
  token_balances = rows;
}

module _ (rows : List TokenBalance) (i o : Text) where
  found_servable :
      (input output : TokenBalance) (p : PairBalance)
      → evaluate_found rows i o input output ≡ accepted p
      → (find_if (is_other_deficit i) rows ≡ none)
        × (find_if is_outside rows ≡ none)
        × (p.input ≡ neg input.net)
        × (p.output ≡ output.net)
        × (p.token_in ≡ i)
        × (p.token_out ≡ o)
        × (p.token_balances ≡ rows)
  unfolding evaluate_found
  found_servable input output p h = (
    ground arith,
    ground arith,
    ground arith,
    ground arith,
    ground arith,
    ground arith,
    ground arith,
  )

  no_deficit :
      (rs : List TokenBalance)
      → All (λ r. is_other_deficit i r ≡ false) rs
      → All (λ r. r.token ≢ i → pos 0 ≤ℤ r.net) rs
  no_deficit [] h = tt
  no_deficit (r ∷ rs) h = ((λ ne. ground (arith, eq_text_iff r.token i, ne)), no_deficit rs h.1)

  All-inside :
      (rs : List TokenBalance)
      → All (λ r. is_outside r ≡ false) rs
      → All (λ r. IsRepresentable r.net) rs
  All-inside [] h = tt
  All-inside (r ∷ rs) h = (ground arith, All-inside rs h.1)

  input_servable :
      (p : PairBalance)
      → i ≢ o
      → require_input rows i o ≡ accepted p
      → (net_at i rows ≤ℤ neg (pos 1))
        × (pos 1 ≤ℤ net_at o rows)
        × (find_if (is_other_deficit i) rows ≡ none)
        × (find_if is_outside rows ≡ none)
        × (p ≡ pair_of rows i o)
  unfolding require_input pair_of neg
  input_servable p ne h = (ground arith, ground arith, ground arith, ground arith, ground arith)

  accepted-IsServable :
      (p : PairBalance)
      → i ≢ o
      → require_input rows i o ≡ accepted p
      → IsServable rows i o × (p ≡ pair_of rows i o)
  accepted-IsServable p ne h =
      let (lacks, spares, rest, inside, same) = input_servable p ne h in
      (
        record {
          distinct = ne;
          lacks_input = lacks;
          spares_output = spares;
          no_other_deficit = no_deficit rows (find_if-none (is_other_deficit i) rows rest);
          representable = All-inside rows (find_if-none is_outside rows inside);
        },
        same,
      )

  deficit_free :
      (rs : List TokenBalance)
      → All (λ r. r.token ≢ i → pos 0 ≤ℤ r.net) rs
      → find_if (is_other_deficit i) rs ≡ none
  deficit_free [] h = refl
  deficit_free (r ∷ rs) h = elim (Bool-cases (eq_text r.token i)) [
    | inl same ↦ rw same (deficit_free rs h.1)
    | inr other ↦
        let free : pos 0 ≤ℤ r.net = h.0 (λ e. cc ((eq_text_iff r.token i).1 e)) in
        ground (arith, deficit_free rs h.1)
  ]

  inside_none :
      (rs : List TokenBalance) → All (λ r. IsRepresentable r.net) rs → find_if is_outside rs ≡ none
  inside_none [] h = refl
  inside_none (r ∷ rs) h = ground (arith, inside_none rs h.1)

  servable_accepted : IsServable rows i o → require_input rows i o ≡ accepted (pair_of rows i o)
  unfolding require_input pair_of neg
  servable_accepted s =
      ground (arith, deficit_free rows s.no_other_deficit, inside_none rows s.representable)

-- the verdict once both tokens and all balances are canonical
abbrev verdict : List TokenBalance → Text → Text → Evaluation
verdict rows i o = if eq_text i o then refused same_token none else require_input rows i o

module _ (rows : List TokenBalance) (i o : Text) (p : PairBalance) where
  verdict-IsServable : verdict rows i o ≡ accepted p → IsServable rows i o × (p ≡ pair_of rows i o)
  verdict-IsServable h = elim (Bool-cases (eq_text i o)) [
    | inl same ↦ ground arith
    | inr other ↦ accepted-IsServable rows i o p (λ e. cc ((eq_text_iff i o).1 e)) (ground arith)
  ]

  servable_verdict : IsServable rows i o × (p ≡ pair_of rows i o) → verdict rows i o ≡ accepted p
  servable_verdict (s, e) = elim (Bool-cases (eq_text i o)) [
    | inl same ↦ absurd (s.distinct ((eq_text_iff i o).0 same))
    | inr other ↦ ground (arith, servable_accepted rows i o s)
  ]

module _ (balances rows : List TokenBalance) (token_in token_out : Text)
    (checked : canonical_balances balances ≡ ok rows) (valid_in : is_hex64 token_in ≡ true)
    (valid_out : is_hex64 token_out ≡ true) where
  -- Behind the checks that throw, evaluateWholeOfferPair compares the tokens and reads the rows.
  pub evaluate_checked :
      evaluate balances token_in token_out
      ≡ ok (verdict rows (to_lower token_in) (to_lower token_out))
  unfolding evaluate canonical_token
  evaluate_checked = ground arith

  -- For balances that canonicalBalances accepts and two token ids, the evaluation accepts a pair
  -- exactly if the canonical rows can serve it, and the pair is then the required input and the
  -- available output of the net amounts, over all rows.
  pub evaluate_accepts :
      (p : PairBalance)
      → (evaluate balances token_in token_out ≡ ok (accepted p)) ↔ (
          IsServable rows (to_lower token_in) (to_lower token_out)
          × (p ≡ pair_of rows (to_lower token_in) (to_lower token_out)))
  evaluate_accepts p =
      rw evaluate_checked
        ((λ h. verdict-IsServable rows _ _ p (cc)), (λ s. ap ok (servable_verdict rows _ _ p s)))

-- An accepted pair comes from two token ids and from balances that canonicalBalances accepts.
pub accepted_inputs :
    (balances : List TokenBalance) (token_in token_out : Text) (p : PairBalance)
    → evaluate balances token_in token_out ≡ ok (accepted p)
    → (rows : List TokenBalance) × (canonical_balances balances ≡ ok rows)
      × (is_hex64 token_in ≡ true)
      × (is_hex64 token_out ≡ true)
unfolding evaluate canonical_token
accepted_inputs balances token_in token_out p h =
    elim (Result-cases (canonical_balances balances)) [
      | inl (rows, e) ↦ (rows, e, ground arith, ground arith)
      | inr (_, e) ↦ ground arith
    ]
