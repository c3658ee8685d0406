-- ===== src/Balance/Merge/Bits.antt =====
-- Masks as sets of indices: `has_bit` and `set_bit` below a width.
use native.Mathlib.Nat.{pow-suc}
use zswap_offerfiles_kernel.Prelude.{
  ℕ, zero, suc, ◌+◌, ◌-◌, ◌*◌, ◌/◌, ◌%◌, ◌^◌, ◌<◌, ◌≤◌, ◌≡◌, true, false, ◌||◌, arith,
  if◌then◌else◌, ◌==◌, ==_iff,
}
use zswap_offerfiles_kernel.Balance.Merge.{has_bit, set_bit}

-- Setting a bit sets that bit and no other.
pub has_bit-set_bit : (m i j : ℕ) → has_bit (set_bit m i) j ≡ (i == j || has_bit m j)
unfolding has_bit set_bit
has_bit-set_bit m zero zero = ground arith
has_bit-set_bit m zero (suc j) =
    let e : (if m % 2 == 1 then m else m + 1) / 2 ≡ m / 2 = ground arith in rw e (ground arith)
has_bit-set_bit m (suc i) zero = ground arith
has_bit-set_bit m (suc i) (suc j) =
    let e : (set_bit (m / 2) i * 2 + m % 2) / 2 ≡ set_bit (m / 2) i = omega arith in
    rw (e, has_bit-set_bit (m / 2) i j) (ground arith)

-- how many of the first bits are not set
unfoldable pub unset : ℕ → ℕ → ℕ
unset zero m = 0
unset (suc n) m = (if m % 2 == 1 then 0 else 1) + unset n (m / 2)

pub unset-set_bit :
    (n m i : ℕ) → i < n → has_bit m i ≡ false → unset n (set_bit m i) + 1 ≡ unset n m
unfolding has_bit set_bit unset
unset-set_bit zero m i h b = absurd (omega arith)
unset-set_bit (suc n) m zero h b =
    let e : (if m % 2 == 1 then m else m + 1) / 2 ≡ m / 2 = ground arith in rw e (ground arith)
unset-set_bit (suc n) m (suc i) h b =
    let e : (set_bit (m / 2) i * 2 + m % 2) / 2 ≡ set_bit (m / 2) i = omega arith in
    let f : (set_bit (m / 2) i * 2 + m % 2) % 2 ≡ m % 2 = omega arith in
    rw (e, f) (ground (arith, unset-set_bit n (m / 2) i (omega arith) b))

pub unset-le : (n m : ℕ) → unset n m ≤ n
unfolding unset
unset-le zero m = omega arith
unset-le (suc n) m = ground (arith, unset-le n (m / 2))

pub pow_pos : (n : ℕ) → 0 < 2 ^ n
pow_pos zero = omega arith
pow_pos (suc n) = omega (arith, pow-suc 2 n, pow_pos n)

-- the mask with every bit set
pub has_bit-full : (n i : ℕ) → i < n → has_bit (2 ^ n - 1) i ≡ true
unfolding has_bit
has_bit-full zero i h = absurd (omega arith)
has_bit-full (suc n) zero h =
    let e : (2 ^ suc n - 1) % 2 ≡ 1 = omega (arith, pow-suc 2 n, pow_pos n) in rw e
has_bit-full (suc n) (suc i) h =
    let e : (2 ^ suc n - 1) / 2 ≡ 2 ^ n - 1 = omega (arith, pow-suc 2 n, pow_pos n) in
    rw e (has_bit-full n i (omega arith))

pub full_of_bits : (n m : ℕ) → m < 2 ^ n → ((i : ℕ) → i < n → has_bit m i ≡ true) → m ≡ 2 ^ n - 1
unfolding has_bit
full_of_bits zero m h b = omega arith
full_of_bits (suc n) m h b =
    let low : m % 2 ≡ 1 = (==_iff (m % 2) 1).0 (b zero (omega arith)) in
    let high : m / 2 ≡ 2 ^ n - 1 =
      full_of_bits n (m / 2) (omega (arith, pow-suc 2 n)) (λ i k. b (suc i) (omega arith)) in
    omega (arith, pow-suc 2 n, pow_pos n)

pub set_bit-lt : (n m i : ℕ) → m < 2 ^ n → i < n → set_bit m i < 2 ^ n
unfolding set_bit
set_bit-lt zero m i h k = absurd (omega arith)
set_bit-lt (suc n) m zero h k = ground (arith, pow-suc 2 n, pow_pos n)
set_bit-lt (suc n) m (suc i) h k =
    omega (arith, pow-suc 2 n, set_bit-lt n (m / 2) i (omega (arith, pow-suc 2 n)) (omega arith))
