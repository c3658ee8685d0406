-- ===== src/Stock/Tests.antt =====
-- A stock of 10 A and 4 B, and two claims that share an offer.
use zswap_offerfiles_kernel.Prelude.{◌≡◌, refl, inl, true, false, some, [], ◌∷◌}
use zswap_offerfiles_kernel.Prelude.Int.{ℤ, pos, ◌+ℤ◌, ◌-ℤ◌}
use zswap_offerfiles_kernel.Prelude.Text.{codes, eq_text, lt_text}
use zswap_offerfiles_kernel.Prelude.Map.{Dict, Distinct, lookup, has, insert, mem, add}
use zswap_offerfiles_kernel.Prelude.Decimal.{print_ℤ}
use zswap_offerfiles_kernel.Stock.{
  Claim, Stock, empty, amount_at, set_balances, available, is_claimed, is_affordable, claim_key,
  commit, reserve, release, add_all, add_payouts, sort_texts, join, spendable,
}
use zswap_offerfiles_kernel.Stock.Invariant.{IsValid}
use zswap_offerfiles_kernel.Stock.Calls.{
  Reach, here, next, refreshes, reserves, releases, Reach-IsValid, reserve_covered, IsRecorded,
  IsSame, release-reserve, release_twice, reserve_conflict,
}

abbrev balances : Dict ℤ
balances = (codes "A", pos 10) ∷ (codes "B", pos 4) ∷ []

abbrev first : Claim
first = record {
  offer_hashes = codes "h1" ∷ [];
  nullifiers = codes "n2" ∷ codes "n1" ∷ [];
  payouts = (codes "A", pos 6) ∷ (codes "B", pos 4) ∷ [];
}

abbrev second : Claim
second = record { offer_hashes = codes "h2" ∷ codes "h1" ∷ []; nullifiers = []; payouts = [] }

abbrev funded : Stock
funded = set_balances balances empty

abbrev held : Stock
held = (reserve first funded).0

key_of_first : claim_key first ≡ codes "h1|n1,n2|A:6,B:4"
unfolding claim_key sort_texts join lt_text print_ℤ
key_of_first = refl

reserved_first : (reserve first funded).1 ≡ true
unfolding reserve is_claimed is_affordable available amount_at set_balances empty claim_key
    sort_texts join lt_text has lookup mem eq_text print_ℤ ◌-ℤ◌
reserved_first = refl

spendable-held : spendable held ≡ (codes "A", pos 4) ∷ []
unfolding reserve is_claimed is_affordable available amount_at set_balances empty claim_key
    sort_texts join lt_text has lookup mem eq_text print_ℤ ◌-ℤ◌ commit add_payouts add_all add
    insert ◌+ℤ◌ spendable
spendable-held = refl

held-Reach : Reach empty held
held-Reach = next (next here (refreshes empty balances)) (reserves funded first)

live_first : lookup (claim_key first) held.live ≡ some first
unfolding reserve is_claimed is_affordable available amount_at set_balances empty claim_key
    sort_texts join lt_text has lookup mem eq_text print_ℤ ◌-ℤ◌ commit insert
live_first = refl

Reach-IsValid_example : IsValid (release first held)
Reach-IsValid_example = Reach-IsValid (next held-Reach (releases held first live_first))

first-Distinct : Distinct first.payouts
unfolding has lookup eq_text
first-Distinct = (refl, (refl, tt))

reserve_covered_example :
    ((reserve first funded).1 ≡ false → (reserve first funded).0 ≡ funded)
    × ((reserve first funded).1 ≡ true → IsRecorded first funded (reserve first funded).0)
reserve_covered_example = reserve_covered first funded first-Distinct

release-reserve_example : IsSame funded (release first held)
release-reserve_example =
    release-reserve first funded (Reach-IsValid (next here (refreshes empty balances)))
      reserved_first

release_twice_example : release first (release first held) ≡ release first held
release_twice_example = release_twice first held

shared_offer :
    (mem (codes "h1") first.offer_hashes ≡ true) × (mem (codes "h1") second.offer_hashes ≡ true)
unfolding mem eq_text
shared_offer = (refl, refl)

reserve_conflict_example : reserve second held ≡ (held, false)
reserve_conflict_example =
    reserve_conflict first second funded (codes "h1") reserved_first (inl shared_offer)
