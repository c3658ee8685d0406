-- ===== src/Balance/Tests.antt =====
-- Accounting, pairs and receipts on two makers: one gives 7 B for 5 A, the other 3 C for 2 B.
use zswap_offerfiles_kernel.Prelude.{◌≡◌, refl, ◌↔◌, true, List, [], ◌∷◌, All, ok}
use zswap_offerfiles_kernel.Prelude.Int.{pos, negsuc, ◌+ℤ◌, ◌-ℤ◌, neg}
use zswap_offerfiles_kernel.Prelude.Text.{Text, codes, eq_text, lt_text, to_lower, is_hex64}
use zswap_offerfiles_kernel.Prelude.Map.{lookup, insert}
use zswap_offerfiles_kernel.Balance.{
  Source, TokenBalance, Trade, Receipt, account, canonical_balances, evaluate, accepted,
  build_receipts, granted, settle, rows_of, sort_entries, max_settlement_amount,
}
use zswap_offerfiles_kernel.Balance.Rows.{IsSorted, gives_at, wants_at}
use zswap_offerfiles_kernel.Balance.Accounting.{
  gives_total, wants_total, IsSource, account_sums, account_accepts,
}
use zswap_offerfiles_kernel.Balance.Canonical.{
  IsCanonical, account-IsCanonical, canonical_balances_fixed,
}
use zswap_offerfiles_kernel.Balance.Pair.{IsServable, pair_of, evaluate_accepts}
use zswap_offerfiles_kernel.Balance.Receipts.{Grant, build_receipts_conserves}

abbrev a : Text
a = codes "aaaaaaaaaaaaaaaaaaaaaaaaaaaaaaaaaaaaaaaaaaaaaaaaaaaaaaaaaaaaaaaa"

abbrev b : Text
b = codes "bbbbbbbbbbbbbbbbbbbbbbbbbbbbbbbbbbbbbbbbbbbbbbbbbbbbbbbbbbbbbbbb"

-- upper case
abbrev big_b : Text
big_b = codes "BBBBBBBBBBBBBBBBBBBBBBBBBBBBBBBBBBBBBBBBBBBBBBBBBBBBBBBBBBBBBBBB"

abbrev c : Text
c = codes "cccccccccccccccccccccccccccccccccccccccccccccccccccccccccccccccc"

abbrev makers : List Source
makers =
    record {
      gives = record { token = big_b; amount = pos 7 } ∷ [];
      wants = record { token = a; amount = pos 5 } ∷ [];
    }
    ∷ record {
      gives = record { token = c; amount = pos 3 } ∷ [];
      wants = record { token = b; amount = pos 2 } ∷ [];
    }
    ∷ []

abbrev makers_rows : List TokenBalance
makers_rows =
    record { token = a; gives = pos 0; wants = pos 5; net = negsuc 4 }
    ∷ record { token = b; gives = pos 7; wants = pos 2; net = pos 5 }
    ∷ record { token = c; gives = pos 3; wants = pos 0; net = pos 3 }
    ∷ []

account-makers : account makers ≡ ok makers_rows
unfolding account sort_entries rows_of lookup insert lt_text eq_text to_lower is_hex64 ◌+ℤ◌ ◌-ℤ◌
account-makers = refl

account_sums_example :
    IsSorted makers_rows
    × ((t : Text)
        → (gives_at t makers_rows ≡ gives_total t makers)
          × (wants_at t makers_rows ≡ wants_total t makers))
account_sums_example = account_sums makers makers_rows account-makers

account_accepts_example :
    ((rows : List TokenBalance) × (account makers ≡ ok rows)) ↔ All IsSource makers
account_accepts_example = account_accepts makers

makers_rows-IsCanonical : IsCanonical makers_rows
makers_rows-IsCanonical = account-IsCanonical makers makers_rows account-makers

canonical_balances_fixed_example : canonical_balances makers_rows ≡ ok makers_rows
canonical_balances_fixed_example = canonical_balances_fixed makers_rows makers_rows-IsCanonical

is_hex_a : is_hex64 a ≡ true
unfolding is_hex64
is_hex_a = refl

is_hex_b : is_hex64 big_b ≡ true
unfolding is_hex64
is_hex_b = refl

evaluate_accepts_example :
    (evaluate makers_rows a big_b ≡ ok (accepted (pair_of makers_rows a b))) ↔ (
      IsServable makers_rows (to_lower a) (to_lower big_b)
      × (pair_of makers_rows a b ≡ pair_of makers_rows (to_lower a) (to_lower big_b)))
evaluate_accepts_example =
    evaluate_accepts makers_rows makers_rows a big_b canonical_balances_fixed_example is_hex_a
      is_hex_b (pair_of makers_rows a b)

-- 6 A come in and 4 B go out; 1 A, 1 B and 3 C are left.
abbrev trade : Trade
trade = record { token_in = a; token_out = big_b; input = pos 6; output = pos 4 }

abbrev makers_receipts : List Receipt
makers_receipts =
    record { token = a; amount = pos 1 }
    ∷ record { token = b; amount = pos 1 }
    ∷ record { token = c; amount = pos 3 }
    ∷ []

receipts_granted : build_receipts makers_rows trade ≡ ok (granted (pos 5) (pos 5) makers_receipts)
unfolding build_receipts settle evaluate canonical_balances sort_entries rows_of lookup insert
    lt_text eq_text to_lower is_hex64 ◌+ℤ◌ ◌-ℤ◌ neg max_settlement_amount
receipts_granted = refl

build_receipts_conserves_example :
    (rows : List TokenBalance) × (canonical_balances makers_rows ≡ ok rows)
    × Grant rows (to_lower a) (to_lower big_b) trade makers_receipts
build_receipts_conserves_example =
    build_receipts_conserves makers_rows trade (pos 5) (pos 5) makers_receipts receipts_granted
