-- ===== src/Stock.antt =====
-- What the solver can still commit: packages/solver/src/stock.ts.
pub mod Sums
pub mod Invariant
pub mod Calls
mod Tests
use zswap_offerfiles_kernel.Prelude.{
  ℕ, Bool, true, false, not, ◌&&◌, ◌||◌, Option, none, some, List, [], ◌∷◌, ◌++◌, map,
  if◌then◌else◌, any_of,
}
use zswap_offerfiles_kernel.Prelude.Int.{ℤ, pos, ◌+ℤ◌, ◌-ℤ◌, ltb_ℤ, leb_ℤ}
use zswap_offerfiles_kernel.Prelude.Text.{Text, lt_text}
use zswap_offerfiles_kernel.Prelude.Map.{Dict, lookup, has, insert, erase, mem, add, remove}
use zswap_offerfiles_kernel.Prelude.Decimal.{print_ℤ}

pub record Claim : Type 0 where
  pub offer_hashes : List Text
  pub nullifiers : List Text
  pub payouts : Dict ℤ

-- `Array.prototype.sort` on strings
unfoldable pub place_text : Text → List Text → List Text
place_text s [] = s ∷ []
place_text s (t ∷ ts) = if lt_text t s then t ∷ place_text s ts else s ∷ t ∷ ts

unfoldable pub sort_texts : List Text → List Text
unfolding place_text
sort_texts [] = []
sort_texts (t ∷ ts) = place_text t (sort_texts ts)

-- `join`
unfoldable pub join : ℕ → List Text → Text
join sep [] = []
join sep (s ∷ []) = s
join sep (s ∷ t ∷ ts) = s ++ (sep ∷ join sep (t ∷ ts))

abbrev payout_text : Text × ℤ → Text
payout_text (token, amount) = token ++ (b':' ∷ print_ℤ amount)

-- `claimKey`
pub claim_key : Claim → Text
unfolding sort_texts join
claim_key c =
    join b',' (sort_texts c.offer_hashes)
    ++ (b'|'
        ∷ (join b',' (sort_texts c.nullifiers)
            ++ (b'|' ∷ join b',' (sort_texts (map payout_text c.payouts)))))

pub record Stock : Type 0 where
  pub balances : Dict ℤ
  pub reserved : Dict ℤ
  pub claimed_hashes : List Text
  pub claimed_nullifiers : List Text
  pub live : Dict Claim

pub empty : Stock
empty = record {
  balances = [];
  reserved = [];
  claimed_hashes = [];
  claimed_nullifiers = [];
  live = [];
}

-- `map.get(token) ?? 0n`
pub amount_at : Text → Dict ℤ → ℤ
amount_at token amounts = elim (lookup token amounts) [ none ↦ pos 0 | some x ↦ x ]

-- `setBalances`
pub set_balances : Dict ℤ → Stock → Stock
set_balances balances s = record s { balances = balances }

-- `available`
pub available : Text → Stock → ℤ
available token s =
    let spare = amount_at token s.balances -ℤ amount_at token s.reserved in
    if ltb_ℤ (pos 0) spare then spare else pos 0

-- `isClaimed`
unfoldable pub is_claimed : List Text → List Text → Stock → Bool
is_claimed hashes nullifiers s =
    any_of (λ h. mem h s.claimed_hashes) hashes
    || any_of (λ n. mem n s.claimed_nullifiers) nullifiers

-- the loop of `reserve` over the payouts
pub is_affordable : Stock → Dict ℤ → Bool
is_affordable s [] = true
is_affordable s ((token, amount) ∷ ps) =
    not (leb_ℤ amount (pos 0)) && (not (ltb_ℤ (available token s) amount) && is_affordable s ps)

unfoldable pub add_all : List Text → List Text → List Text
add_all [] set = set
add_all (t ∷ ts) set = add_all ts (add t set)

pub remove_all : List Text → List Text → List Text
remove_all [] set = set
remove_all (t ∷ ts) set = remove_all ts (remove t set)

pub add_payouts : Dict ℤ → Dict ℤ → Dict ℤ
add_payouts [] reserved = reserved
add_payouts ((token, amount) ∷ ps) reserved =
    add_payouts ps (insert token (amount_at token reserved +ℤ amount) reserved)

-- one round of the loop in `release`
pub free_payout : Text → ℤ → Dict ℤ → Dict ℤ
free_payout token amount reserved =
    let next = amount_at token reserved -ℤ amount in
    if ltb_ℤ (pos 0) next then insert token next reserved else erase token reserved

pub free_payouts : Dict ℤ → Dict ℤ → Dict ℤ
free_payouts [] reserved = reserved
free_payouts ((token, amount) ∷ ps) reserved = free_payouts ps (free_payout token amount reserved)

-- the writes of `reserve`, once every check has passed
unfoldable pub commit : Claim → Stock → Stock
commit c s = record s {
  live = insert (claim_key c) c s.live;
  claimed_hashes = add_all c.offer_hashes s.claimed_hashes;
  claimed_nullifiers = add_all c.nullifiers s.claimed_nullifiers;
  reserved = add_payouts c.payouts s.reserved;
}

-- `reserve`
pub reserve : Claim → Stock → Stock × Bool
reserve c s =
    if is_claimed c.offer_hashes c.nullifiers s
    then (s, false)
    else if not (is_affordable s c.payouts)
    then (s, false)
    else if has (claim_key c) s.live
    then (s, false)
    else (commit c s, true)

-- `release`
pub release : Claim → Stock → Stock
release c s = if not (has (claim_key c) s.live) then s else record s {
  live = erase (claim_key c) s.live;
  claimed_hashes = remove_all c.offer_hashes s.claimed_hashes;
  claimed_nullifiers = remove_all c.nullifiers s.claimed_nullifiers;
  reserved = free_payouts c.payouts s.reserved;
}

pub keys : Dict ℤ → List Text
keys [] = []
keys ((k, v) ∷ m) = k ∷ keys m

-- `tokens`
pub tokens : Stock → List Text
unfolding add_all keys
tokens s = add_all (keys s.balances ++ keys s.reserved) []

-- `spendable`
pub spendable_of : Stock → List Text → Dict ℤ → Dict ℤ
spendable_of s [] snapshot = snapshot
spendable_of s (t ∷ ts) snapshot =
    spendable_of s ts
      (if ltb_ℤ (pos 0) (available t s) then insert t (available t s) snapshot else snapshot)

pub spendable : Stock → Dict ℤ
unfolding tokens spendable_of
spendable s = spendable_of s (tokens s) []
