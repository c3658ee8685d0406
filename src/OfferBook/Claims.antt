-- ===== src/OfferBook/Claims.antt =====
-- Claims on the offers of the book: `claimFor` and `isOfferClaimed` of packages/solver/src/stock.ts.
use zswap_offerfiles_kernel.Prelude.{
  ◌≡◌, refl, sym, Bool, false, ◌&&◌, ◌||◌, List, [], ◌∷◌, ◌++◌, map, any_of, arith,
}
use zswap_offerfiles_kernel.Prelude.Int.{ℤ}
use zswap_offerfiles_kernel.Prelude.Text.{Text, eq_text}
use zswap_offerfiles_kernel.Prelude.Map.{Dict, mem, mem-append}
use zswap_offerfiles_kernel.Stock.{Claim, Stock, is_claimed, commit, reserve, add_all}
use zswap_offerfiles_kernel.Stock.Sums.{mem-add_all}
use zswap_offerfiles_kernel.Stock.Calls.{reserve_cases}
use zswap_offerfiles_kernel.OfferBook.{BookOffer}

abbrev pub hashes_in : List BookOffer → List Text
hashes_in offers = map (λ (o : BookOffer). o.offer_hash) offers

-- `flatMap`
unfoldable pub nullifiers_in : List BookOffer → List Text
nullifiers_in [] = []
nullifiers_in (o ∷ os) = o.input_nullifiers ++ nullifiers_in os

-- `claimFor`
unfoldable pub claim_for : List BookOffer → Dict ℤ → Claim
unfolding nullifiers_in
claim_for offers payouts = record {
  offer_hashes = hashes_in offers;
  nullifiers = nullifiers_in offers;
  payouts = payouts;
}

-- `isOfferClaimed`
unfoldable pub is_offer_claimed : BookOffer → Stock → Bool
is_offer_claimed o s = is_claimed (o.offer_hash ∷ []) o.input_nullifiers s

-- an offer is one of some offers, or spends a coin that one of them spends
abbrev pub conflicts_with : BookOffer → List BookOffer → Bool
conflicts_with o [] = false
conflicts_with o (p ∷ ps) =
    (eq_text p.offer_hash o.offer_hash || any_of (λ n. mem n p.input_nullifiers) o.input_nullifiers)
    || conflicts_with o ps

any_of-mem_append :
    (ns ts us : List Text)
    → any_of (λ n. mem n (ts ++ us)) ns ≡ any_of (λ n. mem n ts) ns || any_of (λ n. mem n us) ns
any_of-mem_append [] ts us = refl
any_of-mem_append (n ∷ ns) ts us = ground (arith, mem-append n ts us, any_of-mem_append ns ts us)

any_of-mem_none : (ns : List Text) → any_of (λ n. mem n []) ns ≡ false
unfolding mem
any_of-mem_none [] = refl
any_of-mem_none (n ∷ ns) = any_of-mem_none ns

-- the ids of the offers together find the same conflicts
conflicts_with-ids :
    (o : BookOffer) (offers : List BookOffer)
    → conflicts_with o offers
      ≡ mem o.offer_hash (hashes_in offers)
        || any_of (λ n. mem n (nullifiers_in offers)) o.input_nullifiers
unfolding mem nullifiers_in
conflicts_with-ids o [] = sym (any_of-mem_none o.input_nullifiers)
conflicts_with-ids o (p ∷ ps) = ground (
  arith,
  any_of-mem_append o.input_nullifiers p.input_nullifiers (nullifiers_in ps),
  conflicts_with-ids o ps,
)

any_of-add_all :
    (ns ts set : List Text)
    → any_of (λ n. mem n (add_all ts set)) ns
      ≡ any_of (λ n. mem n ts) ns || any_of (λ n. mem n set) ns
any_of-add_all [] ts set = refl
any_of-add_all (n ∷ ns) ts set = ground (arith, mem-add_all n ts set, any_of-add_all ns ts set)

-- After a claim on some offers is reserved, an offer is claimed exactly if it was before, is one of
-- them, or spends a coin that one of them spends; a claim that is refused claims nothing.
pub claim_for-reserve :
    (offers : List BookOffer) (payouts : Dict ℤ) (o : BookOffer) (s : Stock)
    → is_offer_claimed o (reserve (claim_for offers payouts) s).0
      ≡ is_offer_claimed o s
        || ((reserve (claim_for offers payouts) s).1 && conflicts_with o offers)
unfolding is_offer_claimed claim_for is_claimed commit
claim_for-reserve offers payouts o s =
    reserve_cases
      (λ r. is_offer_claimed o r.0 ≡ is_offer_claimed o s || (r.1 && conflicts_with o offers))
      (claim_for offers payouts) s (ground arith)
      (λ free cheap new. ground (
        arith,
        conflicts_with-ids o offers,
        mem-add_all o.offer_hash (hashes_in offers) s.claimed_hashes,
        any_of-add_all o.input_nullifiers (nullifiers_in offers) s.claimed_nullifiers,
      ))
