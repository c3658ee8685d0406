-- ===== src/Balance/Merge/Orders.antt =====
-- Orders of all entries: each index once. An order is a completion of the empty mask.
use zswap_offerfiles_kernel.Prelude.{
  ℕ, zero, suc, ◌/◌, ◌^◌, ◌<◌, ◌≡◌, refl, sym, ◌∙◌, ◌≢◌, true, false, arith, List, [], ◌∷◌, length,
  All,
}
use zswap_offerfiles_kernel.Prelude.Int.{ℤ}
use zswap_offerfiles_kernel.Balance.Merge.{MergeEntry, has_bit, set_bit}
use zswap_offerfiles_kernel.Balance.Merge.Bits.{
  unset, unset-set_bit, has_bit-set_bit, full_of_bits, has_bit-full, set_bit-lt, pow_pos,
}
use zswap_offerfiles_kernel.Balance.Merge.Search.{IsCompletion}

abbrev pub AreDistinct : List ℕ → Type 0
AreDistinct [] = Unit
AreDistinct (i ∷ is) = All (λ j. i ≢ j) is × AreDistinct is

-- A list of the indices below `n`, each once.
pub record IsMergeOrder (n : ℕ) (is : List ℕ) : Type 0 where
  pub in_range : All (λ i. i < n) is
  pub once : AreDistinct is
  pub complete : length is ≡ n

unset-zero : (n : ℕ) → unset n 0 ≡ n
unfolding unset
unset-zero zero = refl
unset-zero (suc n) = omega (arith, unset-zero n)

bits_of_unset : (n m i : ℕ) → unset n m ≡ 0 → i < n → has_bit m i ≡ true
unfolding unset has_bit
bits_of_unset zero m i u h = absurd (omega arith)
bits_of_unset (suc n) m zero u h = ground arith
bits_of_unset (suc n) m (suc i) u h = bits_of_unset n (m / 2) i (ground arith) (omega arith)

unset_of_bits : (n m : ℕ) → ((i : ℕ) → i < n → has_bit m i ≡ true) → unset n m ≡ 0
unfolding unset has_bit
unset_of_bits zero m b = refl
unset_of_bits (suc n) m b =
    ground (arith, b zero (omega arith), unset_of_bits n (m / 2) (λ i h. b (suc i) (omega arith)))

abbrev AreUnset : ℕ → List ℕ → Type 0
AreUnset mask = All (λ i. has_bit mask i ≡ false)

bit_of_zero : (i : ℕ) → has_bit 0 i ≡ false
unfolding has_bit
bit_of_zero zero = refl
bit_of_zero (suc i) = bit_of_zero i

AreUnset-set_bit :
    (mask i : ℕ) (is : List ℕ)
    → AreUnset mask is
    → All (λ j. i ≢ j) is
    → AreUnset (set_bit mask i) is
AreUnset-set_bit mask i [] u a = tt
AreUnset-set_bit mask i (j ∷ is) u a =
    (rw has_bit-set_bit (ground (arith, a.0)), AreUnset-set_bit mask i is u.1 a.1)

unset_before :
    (mask i : ℕ) (is : List ℕ)
    → AreUnset (set_bit mask i) is
    → AreUnset mask is × All (λ j. i ≢ j) is
unset_before mask i [] u = (tt, tt)
unset_before mask i (j ∷ is) u =
    let (rest, ne) = unset_before mask i is u.1 in
    (
      (ground (arith, has_bit-set_bit mask i j), rest),
      ((λ e. ground (arith, has_bit-set_bit mask i j)), ne),
    )

module _ (entries : List MergeEntry) (bound : ℤ) where
  IsCompletion-of_order :
      (mask : ℕ) (is : List ℕ)
      → mask < 2 ^ length entries
      → All (λ i. i < length entries) is
      → AreDistinct is
      → AreUnset mask is
      → length is ≡ unset (length entries) mask
      → IsCompletion entries bound mask is
  IsCompletion-of_order mask [] lt r d u l =
      full_of_bits (length entries) mask lt (λ i h. bits_of_unset (length entries) mask i (sym l) h)
  IsCompletion-of_order mask (i ∷ is) lt r d u l = (
    r.0,
    u.0,
    IsCompletion-of_order (set_bit mask i) is (set_bit-lt (length entries) mask i lt r.0) r.1 d.1
        (AreUnset-set_bit mask i is u.1 d.0)
        (omega (arith, unset-set_bit (length entries) mask i r.0 u.0)),
  )

  order_of_completion :
      (mask : ℕ) (is : List ℕ)
      → IsCompletion entries bound mask is
      → All (λ i. i < length entries) is
        × AreDistinct is
        × AreUnset mask is
        × (length is ≡ unset (length entries) mask)
  order_of_completion mask [] c = (
    tt,
    tt,
    tt,
    rw c (sym (unset_of_bits (length entries) _ (λ i h. has_bit-full (length entries) i h))),
  )
  order_of_completion mask (i ∷ is) (lt, b, c) =
      let (r, d, u, l) = order_of_completion (set_bit mask i) is c in
      let (u', ne) = unset_before mask i is u in
      ((lt, r), (ne, d), (b, u'), omega (arith, unset-set_bit (length entries) mask i lt b))

  zero_unset : (is : List ℕ) → AreUnset 0 is
  zero_unset [] = tt
  zero_unset (i ∷ is) = (bit_of_zero i, zero_unset is)

  -- The completions of the empty mask are the orders of all entries.
  pub completion-IsMergeOrder :
      (is : List ℕ) → IsCompletion entries bound 0 is → IsMergeOrder (length entries) is
  completion-IsMergeOrder is c =
      let (r, d, u, l) = order_of_completion 0 is c in
      record { in_range = r; once = d; complete = l ∙ unset-zero (length entries) }

  pub order-IsCompletion :
      (is : List ℕ) → IsMergeOrder (length entries) is → IsCompletion entries bound 0 is
  order-IsCompletion is o =
      IsCompletion-of_order 0 is (omega (arith, pow_pos (length entries))) o.in_range o.once
        (zero_unset is) (o.complete ∙ sym (unset-zero (length entries)))
