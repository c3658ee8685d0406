-- ===== src/Stock/Sums.antt =====
-- The effect of the loops over the payouts and over the claimed ids, and the sums over live claims.
use zswap_offerfiles_kernel.Prelude.{
  ℕ, ◌+◌, ◌≡◌, refl, sym, false, not, ◌&&◌, ◌||◌, some, List, [], ◌∷◌, if◌then◌else◌, arith, All,
  Bool-cases, inl, inr,
}
use zswap_offerfiles_kernel.Prelude.Int.{
  ℤ, pos, ◌+ℤ◌, ◌-ℤ◌, ◌≤ℤ◌, int_laws, eq_of_parts, +ℤ_assoc, +ℤ_zero, +ℤ_parts, -ℤ_parts,
}
use zswap_offerfiles_kernel.Prelude.Text.{Text, eq_text, eq_text_iff}
use zswap_offerfiles_kernel.Prelude.Map.{
  Dict, Distinct, lookup, has, insert, erase, mem, add, remove, lookup-insert, lookup-erase,
  mem-add, mem-remove,
}
use zswap_offerfiles_kernel.Stock.{
  Claim, amount_at, add_all, remove_all, add_payouts, free_payout, free_payouts,
}

-- What a list of payouts moves in a token.
unfoldable pub payout_sum : Text → Dict ℤ → ℤ
payout_sum t [] = pos 0
payout_sum t ((token, amount) ∷ ps) =
    if eq_text token t then amount +ℤ payout_sum t ps else payout_sum t ps

abbrev pub ArePositive : Dict ℤ → Type 0
ArePositive = All (λ p. pos 1 ≤ℤ p.1)

pub payout_sum_nonneg : (t : Text) (ps : Dict ℤ) → ArePositive ps → pos 0 ≤ℤ payout_sum t ps
unfolding payout_sum
payout_sum_nonneg t [] h = omega arith
payout_sum_nonneg t ((token, amount) ∷ ps) h =
    ground (arith, payout_sum_nonneg t ps h.1, +ℤ_parts amount (payout_sum t ps))

amount_at-insert :
    (k t : Text) (v : ℤ) (m : Dict ℤ)
    → amount_at t (insert k v m) ≡ (if eq_text k t then v else amount_at t m)
unfolding amount_at
amount_at-insert k t v m = ground (arith, lookup-insert k t v m)

pub amount_at-add_payouts :
    (t : Text) (ps reserved : Dict ℤ)
    → amount_at t (add_payouts ps reserved) ≡ amount_at t reserved +ℤ payout_sum t ps
unfolding add_payouts payout_sum
amount_at-add_payouts t [] reserved = sym (+ℤ_zero (amount_at t reserved))
amount_at-add_payouts t ((token, amount) ∷ ps) reserved = ground (
  arith,
  amount_at-add_payouts t ps (insert token (amount_at token reserved +ℤ amount) reserved),
  amount_at-insert token t (amount_at token reserved +ℤ amount) reserved,
  eq_text_iff token t,
  +ℤ_assoc (amount_at t reserved) amount (payout_sum t ps),
)

amount_at-erase :
    (k t : Text) (m : Dict ℤ)
    → amount_at t (erase k m) ≡ (if eq_text k t then pos 0 else amount_at t m)
unfolding amount_at
amount_at-erase k t m = ground (arith, lookup-erase k t m)

-- a payout that is reserved is taken off, whether an entry is left or not
amount_at-free_payout :
    (t token : Text) (amount : ℤ) (reserved : Dict ℤ)
    → amount ≤ℤ amount_at token reserved
    → amount_at t (free_payout token amount reserved)
      ≡ (if eq_text token t then amount_at t reserved -ℤ amount else amount_at t reserved)
unfolding free_payout
amount_at-free_payout t token amount reserved h =
    let next = amount_at token reserved -ℤ amount in
    ground (
      arith,
      amount_at-insert token t next reserved,
      amount_at-erase token t reserved,
      eq_text_iff token t,
      eq_of_parts next (pos 0),
      -ℤ_parts (amount_at token reserved) amount,
    )

first_covered :
    (token : Text) (amount : ℤ) (ps reserved : Dict ℤ)
    → ArePositive ps
    → payout_sum token ((token, amount) ∷ ps) ≤ℤ amount_at token reserved
    → amount ≤ℤ amount_at token reserved
unfolding payout_sum
first_covered token amount ps reserved p h =
    let whole : amount +ℤ payout_sum token ps ≤ℤ amount_at token reserved =
      ground (arith, eq_text_iff token token) in
    let rest = payout_sum_nonneg token ps p in omega int_laws

still_covered :
    (u : Text) (ps reserved : Dict ℤ) (token : Text) (amount : ℤ)
    → amount ≤ℤ amount_at token reserved
    → payout_sum u ((token, amount) ∷ ps) ≤ℤ amount_at u reserved
    → payout_sum u ps ≤ℤ amount_at u (free_payout token amount reserved)
unfolding payout_sum
still_covered u ps reserved token amount c h =
    rw (amount_at-free_payout u token amount reserved c)
      (ground (arith, -ℤ_parts (amount_at u reserved) amount, +ℤ_parts amount (payout_sum u ps)))

pub amount_at-free_payouts :
    (t : Text) (ps reserved : Dict ℤ)
    → ArePositive ps
    → ((u : Text) → payout_sum u ps ≤ℤ amount_at u reserved)
    → amount_at t (free_payouts ps reserved) ≡ amount_at t reserved -ℤ payout_sum t ps
unfolding free_payouts payout_sum
amount_at-free_payouts t [] reserved p h = omega int_laws
amount_at-free_payouts t ((token, amount) ∷ ps) reserved p h =
    rw
      (
        amount_at-free_payouts t ps (free_payout token amount reserved) p.1
            (λ u. still_covered u ps reserved token amount covered (h u)),
        amount_at-free_payout t token amount reserved covered,
      )
      (take_off t)
  where
    covered : amount ≤ℤ amount_at token reserved
    covered = first_covered token amount ps reserved p.1 (h token)

    take_off :
        (t : Text)
        → (if eq_text token t then amount_at t reserved -ℤ amount else amount_at t reserved)
            -ℤ payout_sum t ps
          ≡ amount_at t reserved
            -ℤ (if eq_text token t then amount +ℤ payout_sum t ps else payout_sum t ps)
    take_off t = elim (Bool-cases (eq_text token t)) [
      | inl e ↦ rw e (omega int_laws)
      | inr e ↦ rw e
    ]

pub mem-add_all : (j : Text) (ts set : List Text) → mem j (add_all ts set) ≡ (mem j ts || mem j set)
unfolding add_all mem
mem-add_all j [] set = refl
mem-add_all j (t ∷ ts) set = rw (mem-add_all j ts (add t set), mem-add t j set) (ground arith)

pub mem-remove_all :
    (j : Text) (ts set : List Text) → mem j (remove_all ts set) ≡ (not (mem j ts) && mem j set)
unfolding remove_all mem
mem-remove_all j [] set = refl
mem-remove_all j (t ∷ ts) set =
    rw (mem-remove_all j ts (remove t set), mem-remove t j set) (ground arith)

-- What the live claims reserve of a token.
unfoldable pub live_sum : Text → Dict Claim → ℤ
live_sum t [] = pos 0
live_sum t ((k, c) ∷ m) = payout_sum t c.payouts +ℤ live_sum t m

-- How many live claims hold an id, as read off by `ids`.
unfoldable pub holders : (Claim → List Text) → Text → Dict Claim → ℕ
holders ids h [] = 0
holders ids h ((k, c) ∷ m) = (if mem h (ids c) then 1 else 0) + holders ids h m

pub live_sum-insert :
    (t k : Text) (c : Claim) (m : Dict Claim)
    → has k m ≡ false
    → live_sum t (insert k c m) ≡ live_sum t m +ℤ payout_sum t c.payouts
unfolding live_sum insert has
live_sum-insert t k c [] h = omega int_laws
live_sum-insert t k c ((j, d) ∷ m) h =
    let other : eq_text j k ≡ false = ground arith in
    rw (other, live_sum-insert t k c m (ground arith)) (omega int_laws)

pub holders-insert :
    (ids : Claim → List Text) (h k : Text) (c : Claim) (m : Dict Claim)
    → has k m ≡ false
    → holders ids h (insert k c m) ≡ holders ids h m + (if mem h (ids c) then 1 else 0)
unfolding holders insert has
holders-insert ids h k c [] n = omega arith
holders-insert ids h k c ((j, d) ∷ m) n = ground (arith, holders-insert ids h k c m)

erase_absent : (k : Text) (m : Dict Claim) → has k m ≡ false → erase k m ≡ m
unfolding erase has
erase_absent k [] h = refl
erase_absent k ((j, d) ∷ m) h = ground (arith, erase_absent k m)

pub live_sum-erase :
    (t k : Text) (c : Claim) (m : Dict Claim)
    → Distinct m
    → lookup k m ≡ some c
    → live_sum t (erase k m) +ℤ payout_sum t c.payouts ≡ live_sum t m
unfolding live_sum erase lookup
live_sum-erase t k c [] d h = cc
live_sum-erase t k c ((j, x) ∷ m) d h = elim (Bool-cases (eq_text j k)) [
  | inl e ↦
      let same : x ≡ c = ground arith in
      let absent : has k m ≡ false = rw ((eq_text_iff j k).0 e) at d.0 in
      rw (e, erase_absent k m absent, same) (omega int_laws)
  | inr e ↦ let ih = live_sum-erase t k c m d.1 (ground arith) in rw (e, ← ih) (omega int_laws)
]

pub holders-erase :
    (ids : Claim → List Text) (h k : Text) (c : Claim) (m : Dict Claim)
    → Distinct m
    → lookup k m ≡ some c
    → holders ids h (erase k m) + (if mem h (ids c) then 1 else 0) ≡ holders ids h m
unfolding holders erase lookup
holders-erase ids h k c [] d e = cc
holders-erase ids h k c ((j, x) ∷ m) d e = elim (Bool-cases (eq_text j k)) [
  | inl s ↦
      let same : x ≡ c = ground arith in
      let absent : has k m ≡ false = rw ((eq_text_iff j k).0 s) at d.0 in
      rw (s, erase_absent k m absent, same) (omega arith)
  | inr s ↦ ground (arith, holders-erase ids h k c m d.1)
]
