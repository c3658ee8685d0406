-- ===== src/Stock/Invariant.antt =====
-- The stock's books agree with its live claims, whatever is reserved, released and refreshed.
use zswap_offerfiles_kernel.Prelude.{
  ◌≤◌, ◌≡◌, refl, sym, subst, ap, ◌∙◌, true, false, some, List, [], ◌∷◌, any_of, arith, All,
  Bool-cases, inl, inr, ltb,
}
use zswap_offerfiles_kernel.Prelude.Int.{ℤ, pos, ◌+ℤ◌, ◌≤ℤ◌, int_laws}
use zswap_offerfiles_kernel.Prelude.Text.{Text, eq_text, eq_text_iff}
use zswap_offerfiles_kernel.Prelude.Map.{
  Dict, Distinct, lookup, has, insert, erase, mem, insert-Distinct, erase-Distinct, has-lookup,
  All-insert, All-erase,
}
use zswap_offerfiles_kernel.Stock.{
  Claim, Stock, empty, amount_at, is_claimed, is_affordable, claim_key, commit, release, add_all,
  remove_all,
}
use zswap_offerfiles_kernel.Stock.Sums.{
  payout_sum, ArePositive, payout_sum_nonneg, amount_at-add_payouts, amount_at-free_payouts,
  mem-add_all, mem-remove_all, live_sum, holders, live_sum-insert, holders-insert, live_sum-erase,
  holders-erase,
}

abbrev pub hashes_of : Claim → List Text
hashes_of c = c.offer_hashes

abbrev pub nullifiers_of : Claim → List Text
nullifiers_of c = c.nullifiers

-- The claimed ids are those of the live claims, and no two of these share one.
abbrev pub IsClaimSet : (Claim → List Text) → List Text → Dict Claim → Type 0
IsClaimSet ids set live =
    (h : Text) → (mem h set ≡ ltb 0 (holders ids h live)) × (holders ids h live ≤ 1)

-- The reserved amount of every token is what the live claims pay in it.
pub record IsValid (s : Stock) : Type 0 where
  pub distinct : Distinct s.live
  pub positive : All (λ e. ArePositive e.1.payouts) s.live
  pub budget : (t : Text) → amount_at t s.reserved ≡ live_sum t s.live
  pub hashes : IsClaimSet hashes_of s.claimed_hashes s.live
  pub nullifiers : IsClaimSet nullifiers_of s.claimed_nullifiers s.live

pub empty-IsValid : IsValid empty
unfolding empty live_sum holders amount_at lookup mem
empty-IsValid = record {
  distinct = tt;
  positive = tt;
  budget = λ t. refl;
  hashes = λ h. (refl, omega arith);
  nullifiers = λ h. (refl, omega arith);
}

pub live_sum_nonneg :
    (t : Text) (m : Dict Claim) → All (λ e. ArePositive e.1.payouts) m → pos 0 ≤ℤ live_sum t m
unfolding live_sum
live_sum_nonneg t [] a = omega arith
live_sum_nonneg t ((k, c) ∷ m) a =
    let x = payout_sum_nonneg t c.payouts a.0 in let y = live_sum_nonneg t m a.1 in omega int_laws

lookup-ArePositive :
    (k : Text) (c : Claim) (m : Dict Claim)
    → All (λ e. ArePositive e.1.payouts) m
    → lookup k m ≡ some c
    → ArePositive c.payouts
unfolding lookup
lookup-ArePositive k c [] a h = cc
lookup-ArePositive k c ((j, x) ∷ m) a h = elim (Bool-cases (eq_text j k)) [
  | inl e ↦ let same : x ≡ c = ground arith in subst (λ y. ArePositive y.payouts) same a.0
  | inr e ↦ lookup-ArePositive k c m a.1 (ground arith)
]

pub is_affordable-ArePositive :
    (s : Stock) (ps : Dict ℤ) → is_affordable s ps ≡ true → ArePositive ps
unfolding is_affordable
is_affordable-ArePositive s [] h = tt
is_affordable-ArePositive s ((t, x) ∷ ps) h =
    (ground arith, is_affordable-ArePositive s ps (ground arith))

-- an id of a claim that is not claimed is not in the set
pub none_of_any :
    (set hs : List Text) (h : Text)
    → any_of (λ x. mem x set) hs ≡ false
    → mem h hs ≡ true
    → mem h set ≡ false
unfolding mem
none_of_any set [] h a m = cc
none_of_any set (x ∷ hs) h a m = ground (arith, eq_text_iff x h, none_of_any set hs h)

IsClaimSet-insert :
    (ids : Claim → List Text) (set : List Text) (k : Text) (c : Claim) (live : Dict Claim)
    → has k live ≡ false
    → any_of (λ x. mem x set) (ids c) ≡ false
    → IsClaimSet ids set live
    → IsClaimSet ids (add_all (ids c) set) (insert k c live)
IsClaimSet-insert ids set k c live new free valid h =
    let (now, once) = valid h in
    ground (
      arith,
      mem-add_all h (ids c) set,
      holders-insert ids h k c live new,
      none_of_any set (ids c) h free,
    )

IsClaimSet-erase :
    (ids : Claim → List Text) (set : List Text) (k : Text) (c : Claim) (live : Dict Claim)
    → Distinct live
    → lookup k live ≡ some c
    → IsClaimSet ids set live
    → IsClaimSet ids (remove_all (ids c) set) (erase k live)
IsClaimSet-erase ids set k c live d e valid h =
    let (now, once) = valid h in
    ground (arith, mem-remove_all h (ids c) set, holders-erase ids h k c live d e)

pub commit-IsValid :
    (c : Claim) (s : Stock)
    → is_claimed c.offer_hashes c.nullifiers s ≡ false
    → is_affordable s c.payouts ≡ true
    → has (claim_key c) s.live ≡ false
    → IsValid s
    → IsValid (commit c s)
unfolding commit is_claimed
commit-IsValid c s free affordable new v = record {
  distinct = insert-Distinct (claim_key c) c s.live v.distinct;
  positive =
      All-insert _ (claim_key c) c s.live (is_affordable-ArePositive s c.payouts affordable)
        v.positive;
  budget = λ t.
      amount_at-add_payouts t c.payouts s.reserved
      ∙ ap (λ x. x +ℤ payout_sum t c.payouts) (v.budget t)
      ∙ sym (live_sum-insert t (claim_key c) c s.live new);
  hashes =
      IsClaimSet-insert hashes_of s.claimed_hashes (claim_key c) c s.live new (ground arith)
        v.hashes;
  nullifiers =
      IsClaimSet-insert nullifiers_of s.claimed_nullifiers (claim_key c) c s.live new (ground arith)
        v.nullifiers;
}

-- What a claim has reserved is still there to be released.
pub claim_covered :
    (c : Claim) (s : Stock) (t : Text)
    → lookup (claim_key c) s.live ≡ some c
    → IsValid s
    → payout_sum t c.payouts ≤ℤ amount_at t s.reserved
claim_covered c s t e v =
    let rest =
      live_sum_nonneg t (erase (claim_key c) s.live)
        (All-erase _ (claim_key c) s.live v.positive) in
    let sum = live_sum-erase t (claim_key c) c s.live v.distinct e in
    rw (v.budget t, ← sum) (omega int_laws)

pub release-IsValid :
    (c : Claim) (s : Stock)
    → lookup (claim_key c) s.live ≡ some c
    → IsValid s
    → IsValid (release c s)
unfolding release
release-IsValid c s e v =
    let there : has (claim_key c) s.live ≡ true = ground (arith, has-lookup (claim_key c) s.live) in
    let p = lookup-ArePositive (claim_key c) c s.live v.positive e in
    rw (there, release)
      (record {
        distinct = erase-Distinct (claim_key c) s.live v.distinct;
        positive = All-erase _ (claim_key c) s.live v.positive;
        budget = λ t.
            let sum = live_sum-erase t (claim_key c) c s.live v.distinct e in
            rw
              (
                amount_at-free_payouts t c.payouts s.reserved p (λ u. claim_covered c s u e v),
                v.budget t,
                ← sum,
              )
              (omega int_laws);
        hashes =
            IsClaimSet-erase hashes_of s.claimed_hashes (claim_key c) c s.live v.distinct e
              v.hashes;
        nullifiers =
            IsClaimSet-erase nullifiers_of s.claimed_nullifiers (claim_key c) c s.live v.distinct e
              v.nullifiers;
      })
