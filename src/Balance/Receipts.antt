-- ===== src/Balance/Receipts.antt =====
-- buildWholeOfferReceipts: what the solver receives for an admitted trade.
use zswap_offerfiles_kernel.Prelude.{
  ◌≡◌, refl, true, false, none, List, [], ◌∷◌, map, arith, All, Bool-cases, Option-cases, ap, sym,
  ◌∙◌, inl, inr, Result-cases, ok, ◌≢◌, find_if, find_if-none, keep_if, keep_if-All,
}
use zswap_offerfiles_kernel.Prelude.Int.{ℤ, pos, ◌+ℤ◌, ◌-ℤ◌, neg, ◌≤ℤ◌, int_laws, eq_of_parts}
use zswap_offerfiles_kernel.Prelude.Text.{
  Text, eq_text, eq_text_of_ne, ne_of_eq_text, eq_text_iff, to_lower, lt_text_irrefl,
}
use zswap_offerfiles_kernel.Balance.{
  TokenBalance, PairBalance, Trade, Receipt, granted, accepted, refused, canonical_token,
  canonical_balances, evaluate, has_token, max_settlement_amount, amount_if, receipt_of,
  is_positive, is_oversized, receipts_of, settle, build_receipts, cap_denied,
}
use zswap_offerfiles_kernel.Balance.Rows.{net_at, IsSorted, Above}
use zswap_offerfiles_kernel.Balance.Canonical.{canonical_balances-IsCanonical}
use zswap_offerfiles_kernel.Balance.Pair.{IsServable, pair_of, evaluate_accepts, accepted_inputs}

-- What the receipts pay in a token: the sum of all that name it.
abbrev pub paid_at : Text → List Receipt → ℤ
paid_at t [] = pos 0
paid_at t (r ∷ rs) = amount_if (eq_text r.token t) r.amount +ℤ paid_at t rs

-- a receipt of another token pays nothing in the token
paid_at-other :
    (t : Text) (r : Receipt) (rs : List Receipt)
    → eq_text r.token t ≡ false
    → paid_at t (keep_if is_positive (r ∷ rs)) ≡ paid_at t (keep_if is_positive rs)
paid_at-other t r rs other = elim (Bool-cases (is_positive r)) [
  | inl e ↦ rw (e, other) (omega int_laws)
  | inr e ↦ rw e refl
]

paid_at-same :
    (t : Text) (r : Receipt) (rs : List Receipt)
    → eq_text r.token t ≡ true
    → pos 0 ≤ℤ r.amount
    → paid_at t (keep_if is_positive rs) ≡ pos 0
    → paid_at t (keep_if is_positive (r ∷ rs)) ≡ r.amount
paid_at-same t r rs same h rest = elim (Bool-cases (is_positive r)) [
  | inl e ↦ rw (e, same, rest) (omega int_laws)
  | inr e ↦ rw (e, rest) (sym (ground (arith, eq_of_parts r.amount (pos 0))))
]

module _ (pair : PairBalance) (trade : Trade) (t : Text) where
  -- the amount that is left in a token, by the net amount of its row
  abbrev left : ℤ → ℤ
  left net =
      net
      +ℤ amount_if (eq_text t pair.token_in) trade.input
      -ℤ amount_if (eq_text t pair.token_out) trade.output

  -- no row that is left has the token
  Above-absent :
      (s : Text) (rs : List TokenBalance)
      → Above s rs
      → eq_text s t ≡ true
      → paid_at t (keep_if is_positive (map (receipt_of pair trade) rs)) ≡ pos 0
  unfolding receipt_of
  Above-absent s [] a e = refl
  Above-absent s (r ∷ rs) a e =
      let other : eq_text r.token t ≡ false =
        ground (arith, eq_text_iff s t, eq_text_iff r.token t, lt_text_irrefl t, a.0) in
      paid_at-other t (receipt_of pair trade r) (map (receipt_of pair trade) rs) other
      ∙ Above-absent s rs a.1 e

  paid_at-receipts :
      (rs : List TokenBalance)
      → IsSorted rs
      → find_if (has_token t) rs ≢ none
      → pos 0 ≤ℤ left (net_at t rs)
      → paid_at t (keep_if is_positive (map (receipt_of pair trade) rs)) ≡ left (net_at t rs)
  unfolding receipt_of
  paid_at-receipts [] s f h = absurd (f refl)
  paid_at-receipts (r ∷ rs) s f h = elim (Bool-cases (eq_text r.token t)) [
    | inl same ↦
        let e = (eq_text_iff r.token t).0 same in
        let whole : (receipt_of pair trade r).amount ≡ left (net_at t (r ∷ rs)) = ground arith in
        paid_at-same t (receipt_of pair trade r) (map (receipt_of pair trade) rs) same (rw whole h)
          (Above-absent r.token rs s.0 same)
        ∙ whole
    | inr other ↦
        paid_at-other t (receipt_of pair trade r) (map (receipt_of pair trade) rs) other
        ∙ ground (arith, paid_at-receipts rs s.1)
  ]

-- A token with no row is paid nothing.
paid_at-absent :
    (pair : PairBalance) (trade : Trade) (t : Text) (rs : List TokenBalance)
    → find_if (has_token t) rs ≡ none
    → paid_at t (keep_if is_positive (map (receipt_of pair trade) rs)) ≡ pos 0
unfolding receipt_of
paid_at-absent pair trade t [] h = refl
paid_at-absent pair trade t (r ∷ rs) h =
    let other : eq_text r.token t ≡ false = ground arith in
    paid_at-other t (receipt_of pair trade r) (map (receipt_of pair trade) rs) other
    ∙ paid_at-absent pair trade t rs (ground arith)

net_nonneg :
    (i t : Text) (rows : List TokenBalance)
    → All (λ r. r.token ≢ i → pos 0 ≤ℤ r.net) rows
    → t ≢ i
    → pos 0 ≤ℤ net_at t rows
net_nonneg i t [] h ne = omega arith
net_nonneg i t (r ∷ rs) h ne = elim (Bool-cases (eq_text r.token t)) [
  | inl same ↦
      let good : pos 0 ≤ℤ r.net = h.0 (λ e. ne (sym ((eq_text_iff r.token t).0 same) ∙ e)) in
      ground arith
  | inr other ↦ ground (arith, net_nonneg i t rs h.1 ne)
]

-- The trade takes what the makers need and pays no more than they supply; what the receipts pay in
-- a token is the net amount of the makers with the trade's input and without its output.
pub record Grant (rows : List TokenBalance) (i o : Text) (trade : Trade) (receipts : List Receipt)
    : Type 0 where
  pub servable : IsServable rows i o
  pub enough_input : neg (net_at i rows) ≤ℤ trade.input
  pub enough_output : trade.output ≤ℤ net_at o rows
  pub positive : All (λ r. (pos 1 ≤ℤ r.amount) × (r.amount ≤ℤ pos max_settlement_amount)) receipts
  pub conserved :
      (t : Text)
      → paid_at t receipts +ℤ amount_if (eq_text t o) trade.output
        ≡ net_at t rows +ℤ amount_if (eq_text t i) trade.input

module _ (rows : List TokenBalance) (i o : Text) (trade : Trade) where
  abbrev pair : PairBalance
  pair = pair_of rows i o

  -- what is left in each token is not negative
  left_nonneg :
      (t : Text)
      → IsServable rows i o
      → neg (net_at i rows) ≤ℤ trade.input
      → trade.output ≤ℤ net_at o rows
      → pos 0
        ≤ℤ net_at t rows
          +ℤ amount_if (eq_text t i) trade.input
          -ℤ amount_if (eq_text t o) trade.output
  left_nonneg t s hi ho = elim (Bool-cases (eq_text t i)) [
    | inl ti ↦
        let e : t ≡ i = (eq_text_iff t i).0 ti in
        let f : eq_text t o ≡ false = eq_text_of_ne t o (λ g. s.distinct (sym e ∙ g)) in
        let n : net_at t rows ≡ net_at i rows = ap (λ x. net_at x rows) e in
        rw (ti, f, n) (omega int_laws)
    | inr ti ↦ elim (Bool-cases (eq_text t o)) [
      | inl to ↦
          let n : net_at t rows ≡ net_at o rows =
            ap (λ x. net_at x rows) ((eq_text_iff t o).0 to) in
          rw (ti, to, n) (omega int_laws)
      | inr to ↦
          let n : pos 0 ≤ℤ net_at t rows =
            net_nonneg i t rows s.no_other_deficit (ne_of_eq_text t i ti) in
          rw (ti, to) (omega int_laws)
    ]
  ]

  net_at-absent : (t : Text) → find_if (has_token t) rows ≡ none → net_at t rows ≡ pos 0
  net_at-absent t h = ground arith

  left_absent :
      (t : Text)
      → IsServable rows i o
      → net_at t rows ≡ pos 0
      → (eq_text t i ≡ false) × (eq_text t o ≡ false)
  left_absent t s h = (
    eq_text_of_ne t i (λ e.
        let n : net_at i rows ≡ pos 0 = ap (λ x. net_at x rows) (sym e) ∙ h in
        let bad : pos 0 ≤ℤ neg (pos 1) = rw n at s.lacks_input in omega int_laws),
    eq_text_of_ne t o (λ e.
        let n : net_at o rows ≡ pos 0 = ap (λ x. net_at x rows) (sym e) ∙ h in
        let bad : pos 1 ≤ℤ pos 0 = rw n at s.spares_output in omega int_laws),
  )

  paid_left :
      (t : Text)
      → IsSorted rows
      → IsServable rows i o
      → neg (net_at i rows) ≤ℤ trade.input
      → trade.output ≤ℤ net_at o rows
      → paid_at t (receipts_of pair trade)
        ≡ net_at t rows
          +ℤ amount_if (eq_text t i) trade.input
          -ℤ amount_if (eq_text t o) trade.output
  unfolding receipts_of pair_of
  paid_left t so s hi ho = elim (Option-cases (find_if (has_token t) rows)) [
    | inl absent ↦
        let n = net_at-absent t absent in
        let (a, b) = left_absent t s n in
        rw (a, b, n, paid_at-absent pair trade t rows absent) (omega int_laws)
    | inr (r, e) ↦ paid_at-receipts pair trade t rows so (ground arith) (left_nonneg t s hi ho)
  ]

settle_granted :
    (p : PairBalance) (trade : Trade) (req avail : ℤ) (rs : List Receipt)
    → settle p trade ≡ granted req avail rs
    → (p.input ≤ℤ trade.input)
      × (trade.output ≤ℤ p.output)
      × (req ≡ p.input)
      × (avail ≡ p.output)
      × (rs ≡ receipts_of p trade)
      × (find_if is_oversized (receipts_of p trade) ≡ none)
unfolding settle
settle_granted p trade req avail rs h =
    (ground arith, ground arith, ground arith, ground arith, ground arith, ground arith)

cap_denied-ne-granted :
    (t : Text) (req avail : ℤ) (rs : List Receipt) → cap_denied t ≢ ok (granted req avail rs)
unfolding cap_denied canonical_token
cap_denied-ne-granted t req avail rs h = ground arith

build_receipts_granted :
    (balances : List TokenBalance) (trade : Trade) (req avail : ℤ) (rs : List Receipt)
    → build_receipts balances trade ≡ ok (granted req avail rs)
    → (p : PairBalance) × (evaluate balances trade.token_in trade.token_out ≡ ok (accepted p))
      × (settle p trade ≡ granted req avail rs)
unfolding build_receipts
build_receipts_granted balances trade req avail rs h =
    elim (Result-cases (evaluate balances trade.token_in trade.token_out)) [
      | inl (accepted p, e) ↦ (
        p,
        e,
        ground (
          arith,
          cap_denied-ne-granted trade.token_in req avail rs,
          cap_denied-ne-granted trade.token_out req avail rs,
        ),
      )
      | inl (refused r t, e) ↦ ground (
        arith,
        cap_denied-ne-granted trade.token_in req avail rs,
        cap_denied-ne-granted trade.token_out req avail rs,
      )
      | inr (f, e) ↦ ground (
        arith,
        cap_denied-ne-granted trade.token_in req avail rs,
        cap_denied-ne-granted trade.token_out req avail rs,
      )
    ]

in_range :
    (rs : List Receipt)
    → All (λ r. is_positive r ≡ true) rs
    → All (λ r. is_oversized r ≡ false) rs
    → All (λ r. (pos 1 ≤ℤ r.amount) × (r.amount ≤ℤ pos max_settlement_amount)) rs
in_range [] a b = tt
in_range (r ∷ rs) a b = (ground arith, in_range rs a.1 b.1)

receipts-positive :
    (p : PairBalance) (trade : Trade) → All (λ r. is_positive r ≡ true) (receipts_of p trade)
unfolding receipts_of
receipts-positive p trade = keep_if-All is_positive (map (receipt_of p trade) p.token_balances)

settled-Grant :
    (rows : List TokenBalance) (i o : Text) (trade : Trade) (req avail : ℤ) (rs : List Receipt)
    → IsSorted rows
    → IsServable rows i o
    → settle (pair_of rows i o) trade ≡ granted req avail rs
    → Grant rows i o trade rs
settled-Grant rows i o trade req avail rs so s h =
    let (hi, ho, _, _, same, small) = settle_granted (pair_of rows i o) trade req avail rs h in
    rw same (record {
      servable = s;
      enough_input = unfold pair_of in hi;
      enough_output = unfold pair_of in ho;
      positive =
          in_range _ (receipts-positive (pair_of rows i o) trade)
            (find_if-none is_oversized _ small);
      conserved = λ t.
          let paid =
            paid_left rows i o trade t so s (unfold pair_of in hi) (unfold pair_of in ho) in
          rw paid (omega int_laws);
    })

-- Where receipts are granted, the balances are canonical rows that can serve the trade's tokens;
-- the trade's input covers what the makers require, its output is within what they supply; each
-- receipt is positive and within the ledger's amounts; and for every token the sum of its
-- receipts with the trade's output is exactly the net amount of the makers with the trade's input.
pub build_receipts_conserves :
    (balances : List TokenBalance) (trade : Trade) (req avail : ℤ) (rs : List Receipt)
    → build_receipts balances trade ≡ ok (granted req avail rs)
    → (rows : List TokenBalance) × (canonical_balances balances ≡ ok rows)
      × Grant rows (to_lower trade.token_in) (to_lower trade.token_out) trade rs
build_receipts_conserves balances trade req avail rs h =
    let (p, accepted_p, settled) = build_receipts_granted balances trade req avail rs h in
    let (rows, checked, hi, ho) =
      accepted_inputs balances trade.token_in trade.token_out p accepted_p in
    let (servable, same) = (evaluate_accepts balances rows _ _ checked hi ho p).0 accepted_p in
    let settled' : settle (pair_of rows _ _) trade ≡ granted req avail rs = rw (← same) settled in
    (
      rows,
      checked,
      settled-Grant rows _ _ trade req avail rs
          (canonical_balances-IsCanonical balances rows checked).sorted servable settled',
    )
