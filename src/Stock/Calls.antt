-- ===== src/Stock/Calls.antt =====
-- Histories of a stock, and what `reserve` and `release` promise to their callers.
use zswap_offerfiles_kernel.Prelude.{
  ◌≡◌, refl, ◌⊎◌, subst, ◌∙◌, Bool, true, false, some, List, [], ◌∷◌, any_of, arith, Bool-cases,
  inl, inr,
}
use zswap_offerfiles_kernel.Prelude.Int.{ℤ, pos, ◌+ℤ◌, ◌-ℤ◌, ◌≤ℤ◌, int_laws, +ℤ_parts, -ℤ_parts}
use zswap_offerfiles_kernel.Prelude.Text.{Text, eq_text, eq_text_iff}
use zswap_offerfiles_kernel.Prelude.Map.{
  Dict, Distinct, lookup, has, insert, erase, mem, lookup-insert, lookup-erase, lookup-none_of_has,
  has-lookup, has-erase,
}
use zswap_offerfiles_kernel.Stock.{
  Claim, Stock, empty, amount_at, set_balances, available, is_claimed, is_affordable, claim_key,
  commit, reserve, release, add_all, remove_all,
}
use zswap_offerfiles_kernel.Stock.Sums.{
  payout_sum, amount_at-add_payouts, amount_at-free_payouts, mem-add_all, mem-remove_all,
}
use zswap_offerfiles_kernel.Stock.Invariant.{
  IsValid, empty-IsValid, commit-IsValid, release-IsValid, claim_covered, is_affordable-ArePositive,
  none_of_any,
}

pub reserve_cases {ℓ} :
    (P : Stock × Bool → Type ℓ) (c : Claim) (s : Stock)
    → P (s, false)
    → (is_claimed c.offer_hashes c.nullifiers s ≡ false
        → is_affordable s c.payouts ≡ true
        → has (claim_key c) s.live ≡ false
        → P (commit c s, true))
    → P (reserve c s)
unfolding reserve
reserve_cases P c s no_change committed =
    elim (Bool-cases (is_claimed c.offer_hashes c.nullifiers s)) [
      | inl claimed ↦ rw (claimed, reserve) no_change
      | inr free ↦ elim (Bool-cases (is_affordable s c.payouts)) [
        | inr dear ↦ rw (free, dear, reserve) no_change
        | inl cheap ↦ elim (Bool-cases (has (claim_key c) s.live)) [
          | inl known ↦ rw (free, cheap, known, reserve) no_change
          | inr new ↦ rw (free, cheap, new, reserve) (committed free cheap new)
        ]
      ]
    ]

-- What the owner of a stock does with it. A release is of a live claim, or of one that is not live.
pub data Step : Stock → Stock → Type 0 where
  refreshes : (s : Stock) (balances : Dict ℤ) → Step s (set_balances balances s)
  reserves : (s : Stock) (c : Claim) → Step s (reserve c s).0
  releases : (s : Stock) (c : Claim) → lookup (claim_key c) s.live ≡ some c → Step s (release c s)
  releases_unknown :
      (s : Stock) (c : Claim) → has (claim_key c) s.live ≡ false → Step s (release c s)

pub data Reach (s : Stock) : Stock → Type 0 where
  here : Reach s s
  next : {t u : Stock} → Reach s t → Step t u → Reach s u

pub release_unknown : (c : Claim) (s : Stock) → has (claim_key c) s.live ≡ false → release c s ≡ s
unfolding release
release_unknown c s h = rw (h, release)

Step-IsValid : {s t : Stock} → Step s t → IsValid s → IsValid t
Step-IsValid (refreshes s balances) v =
    unfold set_balances in
    record {
      distinct = v.distinct;
      positive = v.positive;
      budget = v.budget;
      hashes = v.hashes;
      nullifiers = v.nullifiers;
    }
Step-IsValid (reserves s c) v =
    reserve_cases (λ r. IsValid r.0) c s v (λ free cheap new. commit-IsValid c s free cheap new v)
Step-IsValid (releases s c e) v = release-IsValid c s e v
Step-IsValid (releases_unknown s c h) v = rw (release_unknown c s h) v

-- After any history of refreshes, reservations and releases, each of a claim as it was reserved or
-- of one whose key is not live, the reserved amount of every token is what the live claims pay in
-- it, the claimed hashes and nullifiers are those of the live claims, and no two live claims share
-- a hash or a nullifier.
pub Reach-IsValid : {s : Stock} → Reach empty s → IsValid s
Reach-IsValid here = empty-IsValid
Reach-IsValid (next r st) = Step-IsValid st (Reach-IsValid r)

sum_of_absent : (t : Text) (ps : Dict ℤ) → has t ps ≡ false → payout_sum t ps ≡ pos 0
unfolding has payout_sum
sum_of_absent t [] h = refl
sum_of_absent t ((k, x) ∷ ps) h = ground (arith, sum_of_absent t ps)

-- each token is paid once, so the test of one payout is a test of the sum
affordable_sum :
    (s : Stock) (t : Text) (ps : Dict ℤ)
    → Distinct ps
    → is_affordable s ps ≡ true
    → payout_sum t ps ≤ℤ available t s
unfolding is_affordable payout_sum
affordable_sum s t [] d a = unfold available in ground arith
affordable_sum s t ((k, x) ∷ ps) d a = elim (Bool-cases (eq_text k t)) [
  | inl e ↦
      let same = (eq_text_iff k t).0 e in
      let absent : has t ps ≡ false = rw same at d.0 in
      let enough : x ≤ℤ available k s = ground arith in
      let enough' : x ≤ℤ available t s = subst (λ u. x ≤ℤ available u s) same enough in
      rw (e, sum_of_absent t ps absent) (omega int_laws)
  | inr e ↦ rw e (affordable_sum s t ps d.1 (ground arith))
]

within_balance :
    (s : Stock) (t : Text) (x : ℤ)
    → pos 1 ≤ℤ x
    → x ≤ℤ available t s
    → amount_at t s.reserved +ℤ x ≤ℤ amount_at t s.balances
unfolding available
within_balance s t x p h = ground (
  arith,
  -ℤ_parts (amount_at t s.balances) (amount_at t s.reserved),
  +ℤ_parts (amount_at t s.reserved) x,
)

-- Every token is paid within what was available of it, the reserved amounts grow by exactly the
-- payouts, and no token that is paid is reserved beyond its balance.
pub record IsRecorded (c : Claim) (s t : Stock) : Type 0 where
  pub within_available : (k : Text) → payout_sum k c.payouts ≤ℤ available k s
  pub recorded :
      (k : Text) → amount_at k t.reserved ≡ amount_at k s.reserved +ℤ payout_sum k c.payouts
  pub within_balances :
      (k : Text)
      → pos 1 ≤ℤ payout_sum k c.payouts
      → amount_at k t.reserved ≤ℤ amount_at k s.balances

commit-IsRecorded :
    (c : Claim) (s : Stock)
    → Distinct c.payouts
    → is_affordable s c.payouts ≡ true
    → IsRecorded c s (commit c s)
commit-IsRecorded c s d cheap = record {
  within_available = λ k. affordable_sum s k c.payouts d cheap;
  recorded = λ k. unfold commit in amount_at-add_payouts k c.payouts s.reserved;
  within_balances = λ k paid.
      unfold commit in
      rw (amount_at-add_payouts k c.payouts s.reserved)
        (within_balance s k (payout_sum k c.payouts) paid (affordable_sum s k c.payouts d cheap));
}

-- Where the payouts name each token once: a reservation that succeeds pays no token more than was
-- available, records exactly its payouts as reserved, and reserves no token that it pays beyond its
-- balance; a reservation that fails changes nothing.
pub reserve_covered :
    (c : Claim) (s : Stock)
    → Distinct c.payouts
    → ((reserve c s).1 ≡ false → (reserve c s).0 ≡ s)
      × ((reserve c s).1 ≡ true → IsRecorded c s (reserve c s).0)
reserve_covered c s d =
    reserve_cases (λ r. (r.1 ≡ false → r.0 ≡ s) × (r.1 ≡ true → IsRecorded c s r.0)) c s
      ((λ _. refl), (λ bad. cc))
      (λ free cheap new. ((λ bad. cc), (λ _. commit-IsRecorded c s d cheap)))

-- What a caller can see of a stock is the same in both.
pub record IsSame (s t : Stock) : Type 0 where
  pub balances : t.balances ≡ s.balances
  pub reserved : (token : Text) → amount_at token t.reserved ≡ amount_at token s.reserved
  pub hashes : (h : Text) → mem h t.claimed_hashes ≡ mem h s.claimed_hashes
  pub nullifiers : (n : Text) → mem n t.claimed_nullifiers ≡ mem n s.claimed_nullifiers
  pub live : (k : Text) → lookup k t.live ≡ lookup k s.live

set_restored :
    (ids set : List Text) (h : Text)
    → any_of (λ x. mem x set) ids ≡ false
    → mem h (remove_all ids (add_all ids set)) ≡ mem h set
set_restored ids set h free =
    rw (mem-remove_all h ids (add_all ids set), mem-add_all h ids set)
      (ground (arith, none_of_any set ids h free))

module _ (c : Claim) (s : Stock) (v : IsValid s) where
  commit_restored :
      is_claimed c.offer_hashes c.nullifiers s ≡ false
      → is_affordable s c.payouts ≡ true
      → has (claim_key c) s.live ≡ false
      → IsSame s (release c (commit c s))
  unfolding release is_claimed
  commit_restored free cheap new =
      let valid = commit-IsValid c s free cheap new v in
      let p = is_affordable-ArePositive s c.payouts cheap in
      let stored : lookup (claim_key c) (commit c s).live ≡ some c =
        unfold commit in
        ground (
          arith,
          lookup-insert (claim_key c) (claim_key c) c s.live,
          eq_text_iff (claim_key c) (claim_key c),
        ) in
      let there : has (claim_key c) (commit c s).live ≡ true =
        ground (arith, has-lookup (claim_key c) (commit c s).live) in
      rw (there, release)
        (record {
          balances = unfold commit in refl;
          reserved = λ t.
              let freed =
                amount_at-free_payouts t c.payouts (commit c s).reserved p
                  (λ u. claim_covered c (commit c s) u stored valid) in
              freed ∙ reserved_back t;
          hashes =
              λ h. unfold commit in set_restored c.offer_hashes s.claimed_hashes h (ground arith);
          nullifiers =
              λ h. unfold commit in set_restored c.nullifiers s.claimed_nullifiers h (ground arith);
          live = λ k. unfold commit in live_back k;
        })
    where
      reserved_back :
          (t : Text)
          → amount_at t (commit c s).reserved -ℤ payout_sum t c.payouts ≡ amount_at t s.reserved
      reserved_back t =
          unfold commit in rw (amount_at-add_payouts t c.payouts s.reserved) (omega int_laws)

      live_back :
          (k : Text)
          → lookup k (erase (claim_key c) (insert (claim_key c) c s.live)) ≡ lookup k s.live
      live_back k = ground (
        arith,
        lookup-erase (claim_key c) k (insert (claim_key c) c s.live),
        lookup-insert (claim_key c) k c s.live,
        lookup-none_of_has (claim_key c) s.live new,
        eq_text_iff (claim_key c) k,
      )

  -- In a valid stock, to release a claim that was just reserved takes everything back: balances,
  -- reserved amounts, claimed ids and live claims are as before.
  pub release-reserve : (reserve c s).1 ≡ true → IsSame s (release c (reserve c s).0)
  release-reserve =
      reserve_cases (λ r. r.1 ≡ true → IsSame s (release c r.0)) c s (λ bad. cc)
        (λ free cheap new _. commit_restored free cheap new)

-- Releasing a claim twice is releasing it once.
pub release_twice : (c : Claim) (s : Stock) → release c (release c s) ≡ release c s
release_twice c s = elim (Bool-cases (has (claim_key c) s.live)) [
  | inr unknown ↦ rw (release_unknown c s unknown, release_unknown c s unknown)
  | inl known ↦ release_unknown c (release c s) (gone known)
]
  where
    gone : has (claim_key c) s.live ≡ true → has (claim_key c) (release c s).live ≡ false
    gone known =
        unfold release in
        ground (
          arith,
          has-erase (claim_key c) (claim_key c) s.live,
          eq_text_iff (claim_key c) (claim_key c),
        )

any_of_shared :
    (set hs : List Text) (h : Text)
    → mem h hs ≡ true
    → mem h set ≡ true
    → any_of (λ x. mem x set) hs ≡ true
unfolding mem
any_of_shared set [] h m k = cc
any_of_shared set (x ∷ hs) h m k = ground (arith, eq_text_iff x h, any_of_shared set hs h)

-- Once a claim is reserved, no claim that shares an offer hash or a nullifier with it is.
pub reserve_conflict :
    (c d : Claim) (s : Stock) (x : Text)
    → (reserve c s).1 ≡ true
    → ((mem x c.offer_hashes ≡ true) × (mem x d.offer_hashes ≡ true))
      ⊎ ((mem x c.nullifiers ≡ true) × (mem x d.nullifiers ≡ true))
    → reserve d (reserve c s).0 ≡ ((reserve c s).0, false)
reserve_conflict c d s x =
    reserve_cases
      (λ r.
        r.1 ≡ true
        → ((mem x c.offer_hashes ≡ true) × (mem x d.offer_hashes ≡ true))
          ⊎ ((mem x c.nullifiers ≡ true) × (mem x d.nullifiers ≡ true))
        → reserve d r.0 ≡ (r.0, false))
      c s (λ bad. cc) (λ free cheap new _ shared. refused (commit_claims shared))
  where
    commit_claims :
        ((mem x c.offer_hashes ≡ true) × (mem x d.offer_hashes ≡ true))
          ⊎ ((mem x c.nullifiers ≡ true) × (mem x d.nullifiers ≡ true))
        → is_claimed d.offer_hashes d.nullifiers (commit c s) ≡ true
    commit_claims (inl (a, b)) =
        unfold is_claimed commit in
        rw (
          any_of_shared (add_all c.offer_hashes s.claimed_hashes) d.offer_hashes x b
            (rw (mem-add_all x c.offer_hashes s.claimed_hashes, a)))
    commit_claims (inr (a, b)) =
        unfold is_claimed commit in
        rw
          (any_of_shared (add_all c.nullifiers s.claimed_nullifiers) d.nullifiers x b
            (rw (mem-add_all x c.nullifiers s.claimed_nullifiers, a)))
          (ground arith)

    refused :
        is_claimed d.offer_hashes d.nullifiers (commit c s) ≡ true
        → reserve d (commit c s) ≡ (commit c s, false)
    refused h = unfold reserve in rw h
