-- ===== src/Amount/Numerals.antt =====
-- Decimal numerals: what they spell, and how they are cut and padded.
use zswap_offerfiles_kernel.Prelude.{
  ℕ, zero, suc, ◌+◌, ◌-◌, ◌*◌, ◌/◌, ◌%◌, ◌^◌, ◌≤◌, ◌<◌, ◌≡◌, refl, sym, ap, ◌∙◌, inl, inr, Bool,
  true, ◌&&◌, [], ◌∷◌, ◌++◌, ltb, ◌==◌, length, all_of, arith, Bool-cases,
}
use native.Mathlib.Nat.{pow-suc}
use zswap_offerfiles_kernel.Prelude.Text.{Text}
use zswap_offerfiles_kernel.Prelude.Decimal.{is_digit, value_from, print_from, print}
use zswap_offerfiles_kernel.Amount.{take, drop, zeros, strip_zeros, keep_digit}

value_from-print_from :
    (fuel n : ℕ) (out : Text) → n < fuel → value_from 0 (print_from fuel n out) ≡ value_from n out
unfolding print_from value_from
value_from-print_from zero n out h = omega arith
value_from-print_from (suc fuel) n out h = elim (Bool-cases (ltb n 10)) [
  | inl e ↦ rw e (ap (λ k. value_from k out) (omega arith))
  | inr e ↦
      rw (e, value_from-print_from fuel (n / 10) ((b'0' + n % 10) ∷ out) (ground arith))
        (ap (λ k. value_from k out) (omega arith))
]

pub value_from-print : (n : ℕ) → value_from 0 (print n) ≡ n
unfolding print value_from
value_from-print n = value_from-print_from (suc n) n [] (omega arith)

print_from-is_digit :
    (fuel n : ℕ) (out : Text)
    → n < fuel
    → all_of is_digit out ≡ true
    → all_of is_digit (print_from fuel n out) ≡ true
unfolding print_from is_digit
print_from-is_digit zero n out h o = absurd (omega arith)
print_from-is_digit (suc fuel) n out h o = elim (Bool-cases (ltb n 10)) [
  | inl e ↦ rw e (ground arith)
  | inr e ↦
      rw e (print_from-is_digit fuel (n / 10) ((b'0' + n % 10) ∷ out) (ground arith) (ground arith))
]

pub print-is_digit : (n : ℕ) → all_of is_digit (print n) ≡ true
unfolding print
print-is_digit n = print_from-is_digit (suc n) n [] (omega arith) refl

pub value_from-append : (n : ℕ) (s t : Text) → value_from n (s ++ t) ≡ value_from (value_from n s) t
unfolding value_from
value_from-append n [] t = refl
value_from-append n (c ∷ s) t = value_from-append (n * 10 + (c - b'0')) s t

pub value_from-zeros : (k : ℕ) (s : Text) → value_from 0 (zeros k ++ s) ≡ value_from 0 s
unfolding zeros value_from
value_from-zeros zero s = refl
value_from-zeros (suc k) s = value_from-zeros k s

pub zeros-is_digit : (k : ℕ) → all_of is_digit (zeros k) ≡ true
unfolding zeros is_digit
zeros-is_digit zero = refl
zeros-is_digit (suc k) = zeros-is_digit k

pub length-zeros : (k : ℕ) → length (zeros k) ≡ k
unfolding zeros
length-zeros zero = refl
length-zeros (suc k) = ap suc (length-zeros k)

pub all_of-append : (p : ℕ → Bool) (s t : Text) → all_of p (s ++ t) ≡ all_of p s && all_of p t
all_of-append p [] t = refl
all_of-append p (c ∷ s) t = ground (arith, all_of-append p s t)

shifted : (n x p v : ℕ) → (n * 10 + x) * p + v ≡ n * (p * 10) + ((0 * 10 + x) * p + v)
shifted n x p v = omega arith

-- the digits before add a multiple of a power of ten
pub value_from_split : (n : ℕ) (s : Text) → value_from n s ≡ n * 10 ^ length s + value_from 0 s
unfolding value_from
value_from_split n [] = omega arith
value_from_split n (c ∷ s) =
    value_from_split (n * 10 + (c - b'0')) s
    ∙ shifted n (c - b'0') (10 ^ length s) (value_from 0 s)
    ∙ ap (λ p. n * p + ((0 * 10 + (c - b'0')) * 10 ^ length s + value_from 0 s))
        (sym (pow-suc 10 (length s)))
    ∙ ap (λ v. n * 10 ^ suc (length s) + v) (sym (value_from_split (0 * 10 + (c - b'0')) s))

pub take-drop : (k : ℕ) (s : Text) → take k s ++ drop k s ≡ s
unfolding take drop
take-drop zero s = refl
take-drop (suc k) [] = refl
take-drop (suc k) (c ∷ s) = ap (λ t. c ∷ t) (take-drop k s)

pub length-drop : (k : ℕ) (s : Text) → length (drop k s) ≡ length s - k
unfolding drop
length-drop zero s = omega arith
length-drop (suc k) [] = omega arith
length-drop (suc k) (c ∷ s) = omega (arith, length-drop k s)

pub strip_zeros-length : (s : Text) → length (strip_zeros s) ≤ length s
unfolding strip_zeros keep_digit
strip_zeros-length [] = omega arith
strip_zeros-length (c ∷ s) = go (strip_zeros s) (strip_zeros-length s)
  where
    go : (t : Text) → length t ≤ length s → length (keep_digit c t) ≤ suc (length s)
    go [] h = ground arith
    go (d ∷ t) h = omega arith

-- what is stripped are zeros
pub strip_zeros-zeros : (s : Text) → strip_zeros s ++ zeros (length s - length (strip_zeros s)) ≡ s
unfolding strip_zeros zeros
strip_zeros-zeros [] = refl
strip_zeros-zeros (c ∷ s) = go (strip_zeros s) (strip_zeros-zeros s) (strip_zeros-length s)
  where
    same_zeros : (m n : ℕ) → m ≡ n → zeros m ≡ zeros n
    same_zeros m n e = ap zeros e

    go :
        (t : Text)
        → t ++ zeros (length s - length t) ≡ s
        → length t ≤ length s
        → keep_digit c t ++ zeros (suc (length s) - length (keep_digit c t)) ≡ c ∷ s
    go [] h l =
        let all : zeros (length s) ≡ s = same_zeros (length s) (length s - 0) (omega arith) ∙ h in
        elim (Bool-cases (c == b'0')) [
          | inl e ↦
              let digit : b'0' ≡ c = ground arith in
              rw e (
                same_zeros (suc (length s) - 0) (suc (length s)) (omega arith)
                ∙ ap (λ d. d ∷ zeros (length s)) digit
                ∙ ap (λ r. c ∷ r) all)
          | inr e ↦
              rw e
                (ap (λ r. c ∷ r) (same_zeros (suc (length s) - 1) (length s) (omega arith) ∙ all))
        ]
    go (d ∷ t) h l =
        ap (λ r. c ∷ r)
          (ap (λ r. d ∷ (t ++ r))
              (same_zeros (suc (length s) - suc (suc (length t))) (length s - suc (length t))
                (omega arith))
            ∙ h)
