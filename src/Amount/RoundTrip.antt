-- ===== src/Amount/RoundTrip.antt =====
-- An amount in base units, spelled in whole coins, is read back as it was.
use zswap_offerfiles_kernel.Prelude.{
  ℕ, zero, suc, ◌+◌, ◌-◌, ◌*◌, ◌/◌, ◌%◌, ◌^◌, ◌≤◌, ◌<◌, ◌≡◌, refl, sym, ap, subst, ◌∙◌, inl, inr,
  Bool, true, false, not, some, [], ◌∷◌, ◌++◌, ltb, ◌==◌, length, length-append, append-nil, all_of,
  arith, Bool-cases, ok,
}
use zswap_offerfiles_kernel.Prelude.Int.{pos}
use zswap_offerfiles_kernel.Prelude.Text.{Text}
use zswap_offerfiles_kernel.Prelude.Decimal.{is_digit, value_from, print_from, print}
use zswap_offerfiles_kernel.Prelude.BigInt.{is_space, trim_start, keep_before, trim_end, trim}
use zswap_offerfiles_kernel.Amount.{
  spelled, span_digits, after_whole, read_amount, keep_digit, strip_zeros, zeros, pad_end,
  pad_start, take, drop, scaled, to_base, coins_to_base_units, join_point, point_at, to_coins,
  base_units_to_coins,
}
use zswap_offerfiles_kernel.Amount.Numerals.{
  value_from-print, print-is_digit, value_from-append, value_from-zeros, zeros-is_digit,
  length-zeros, all_of-append, value_from_split, take-drop, length-drop, strip_zeros-length,
  strip_zeros-zeros,
}

abbrev is_solid : ℕ → Bool
is_solid c = not (is_space c)

trim_start-solid : (s : Text) → all_of is_solid s ≡ true → trim_start s ≡ s
unfolding trim_start
trim_start-solid [] h = refl
trim_start-solid (c ∷ s) h = ground arith

keep_before-solid : (c : ℕ) (s : Text) → is_solid c ≡ true → keep_before c s ≡ c ∷ s
unfolding keep_before
keep_before-solid c [] h = ground arith
keep_before-solid c (d ∷ s) h = refl

trim_end-solid : (s : Text) → all_of is_solid s ≡ true → trim_end s ≡ s
unfolding trim_end
trim_end-solid [] h = refl
trim_end-solid (c ∷ s) h =
    rw (trim_end-solid s (ground arith)) (keep_before-solid c s (ground arith))

trim-solid : (s : Text) → all_of is_solid s ≡ true → trim s ≡ s
unfolding trim
trim-solid s h = rw (trim_start-solid s h) (trim_end-solid s h)

digits_solid : (s : Text) → all_of is_digit s ≡ true → all_of is_solid s ≡ true
unfolding is_digit is_space
digits_solid [] h = refl
digits_solid (c ∷ s) h = ground (arith, digits_solid s)

join_point-solid :
    (w f : Text)
    → all_of is_digit w ≡ true
    → all_of is_digit f ≡ true
    → all_of is_solid (join_point w f) ≡ true
unfolding join_point is_space
join_point-solid w [] h g = digits_solid w h
join_point-solid w (c ∷ f) h g =
    let front = digits_solid w h in
    let back = digits_solid (c ∷ f) g in all_of-append is_solid w (b'.' ∷ c ∷ f) ∙ ground arith

span_digits-digits : (w : Text) → all_of is_digit w ≡ true → span_digits w ≡ (w, [])
unfolding span_digits
span_digits-digits [] h = refl
span_digits-digits (c ∷ w) h =
    let first : is_digit c ≡ true = ground arith in
    rw (first, span_digits-digits w (ground arith)) refl

point_no_digit : is_digit b'.' ≡ false
unfolding is_digit
point_no_digit = refl

span_digits-point :
    (w f : Text) → all_of is_digit w ≡ true → span_digits (w ++ (b'.' ∷ f)) ≡ (w, b'.' ∷ f)
unfolding span_digits
span_digits-point [] f h = rw point_no_digit refl
span_digits-point (c ∷ w) f h =
    let first : is_digit c ≡ true = ground arith in
    rw (first, span_digits-point w f (ground arith)) refl

read_amount-join_point :
    (w f : Text)
    → 1 ≤ length w
    → all_of is_digit w ≡ true
    → all_of is_digit f ≡ true
    → read_amount (join_point w f) ≡ some (w, f)
unfolding read_amount join_point after_whole
read_amount-join_point [] f l h g = absurd (omega arith)
read_amount-join_point (c ∷ w) [] l h g = rw (span_digits-digits (c ∷ w) h) refl
read_amount-join_point (c ∷ w) (d ∷ f) l h g = rw (span_digits-point (c ∷ w) (d ∷ f) h, g) refl

strip_zeros_idem : (s : Text) → strip_zeros (strip_zeros s) ≡ strip_zeros s
unfolding strip_zeros keep_digit
strip_zeros_idem [] = refl
strip_zeros_idem (c ∷ s) = go (strip_zeros s) (strip_zeros_idem s)
  where
    go : (t : Text) → strip_zeros t ≡ t → strip_zeros (keep_digit c t) ≡ keep_digit c t
    go [] h = elim (Bool-cases (c == b'0')) [ inl e ↦ rw e refl | inr e ↦ rw (e, e) refl ]
    go (d ∷ t) h = ap (keep_digit c) h

strip_zeros-is_digit :
    (s : Text) → all_of is_digit s ≡ true → all_of is_digit (strip_zeros s) ≡ true
unfolding strip_zeros keep_digit
strip_zeros-is_digit [] h = refl
strip_zeros-is_digit (c ∷ s) h = go (strip_zeros s) (strip_zeros-is_digit s (ground arith))
  where
    go : (t : Text) → all_of is_digit t ≡ true → all_of is_digit (keep_digit c t) ≡ true
    go [] g = ground arith
    go (d ∷ t) g = ground arith

-- what is read of the two sides of the point
scaled-sides :
    (d : ℕ) (w f : Text)
    → length f ≡ d
    → scaled d (some (w, strip_zeros f)) ≡ ok (pos (value_from 0 (w ++ f)))
unfolding pad_end
scaled-sides d w f l =
    let fits : ltb d (length (strip_zeros f)) ≡ false = ground (arith, strip_zeros-length f) in
    let padded : strip_zeros f ++ zeros (d - length (strip_zeros f)) ≡ f =
      subst (λ n. strip_zeros f ++ zeros (n - length (strip_zeros f)) ≡ f) l
        (strip_zeros-zeros f) in
    let value : value_from 0 w * 10 ^ d + value_from 0 f ≡ value_from 0 (w ++ f) =
      subst (λ n. value_from 0 w * 10 ^ n + value_from 0 f ≡ value_from 0 (w ++ f)) l
        (sym (value_from-append 0 w f ∙ value_from_split (value_from 0 w) f)) in
    rw (strip_zeros_idem f, fits, padded, value) refl

to_base-sides :
    (d : ℕ) (w f : Text)
    → 1 ≤ length w
    → all_of is_digit w ≡ true
    → all_of is_digit f ≡ true
    → length f ≡ d
    → to_base (spelled (join_point w (strip_zeros f))) d ≡ ok (pos (value_from 0 (w ++ f)))
unfolding to_base
to_base-sides d w f l h g e =
    let s = strip_zeros-is_digit f g in
    rw
      (
        trim-solid (join_point w (strip_zeros f)) (join_point-solid w (strip_zeros f) h s),
        read_amount-join_point w (strip_zeros f) l h s,
      )
      (scaled-sides d w f e)

take-is_digit : (k : ℕ) (s : Text) → all_of is_digit s ≡ true → all_of is_digit (take k s) ≡ true
unfolding take
take-is_digit zero s h = refl
take-is_digit (suc k) [] h = refl
take-is_digit (suc k) (c ∷ s) h = ground (arith, take-is_digit k s)

drop-is_digit : (k : ℕ) (s : Text) → all_of is_digit s ≡ true → all_of is_digit (drop k s) ≡ true
unfolding drop
drop-is_digit zero s h = h
drop-is_digit (suc k) [] h = refl
drop-is_digit (suc k) (c ∷ s) h = drop-is_digit k s (ground arith)

length-take : (k : ℕ) (s : Text) → k ≤ length s → length (take k s) ≡ k
unfolding take
length-take zero s h = refl
length-take (suc k) [] h = absurd (omega arith)
length-take (suc k) (c ∷ s) h = ap suc (length-take k s (omega arith))

-- cut anywhere but before the first digit
to_base-point_at :
    (d : ℕ) (s : Text)
    → d < length s
    → all_of is_digit s ≡ true
    → to_base (spelled (point_at d s)) d ≡ ok (pos (value_from 0 s))
unfolding point_at
to_base-point_at d s l h =
    let k = length s - d in
    let size : length (drop k s) ≡ d = length-drop k s ∙ omega arith in
    to_base-sides d (take k s) (drop k s) (omega (arith, length-take k s (omega arith)))
      (take-is_digit k s h) (drop-is_digit k s h) size
    ∙ ap (λ (t : Text). ok (pos (value_from 0 t))) (take-drop k s)

length-print_from :
    (fuel n : ℕ) (out : Text) → n < fuel → length out < length (print_from fuel n out)
unfolding print_from
length-print_from zero n out h = absurd (omega arith)
length-print_from (suc fuel) n out h = elim (Bool-cases (ltb n 10)) [
  | inl e ↦ rw e (omega arith)
  | inr e ↦
      let longer = length-print_from fuel (n / 10) ((b'0' + n % 10) ∷ out) (ground arith) in
      rw e (omega arith)
]

length-print : (n : ℕ) → 0 < length (print n)
unfolding print
length-print n = length-print_from (suc n) n [] (omega arith)

value_from-pad_start : (k n : ℕ) → value_from 0 (pad_start k (print n)) ≡ n
unfolding pad_start
value_from-pad_start k n = value_from-zeros (k - length (print n)) (print n) ∙ value_from-print n

pad_start-is_digit : (k n : ℕ) → all_of is_digit (pad_start k (print n)) ≡ true
unfolding pad_start
pad_start-is_digit k n =
    let front = zeros-is_digit (k - length (print n)) in
    let back = print-is_digit n in
    all_of-append is_digit (zeros (k - length (print n))) (print n) ∙ ground arith

length-pad_start : (k : ℕ) (s : Text) → k ≤ length (pad_start k s)
unfolding pad_start
length-pad_start k s =
    omega (arith, length-append (zeros (k - length s)) s, length-zeros (k - length s))

to_base-whole : (n : ℕ) → to_base (spelled (print n)) 0 ≡ ok (pos n)
unfolding strip_zeros join_point
to_base-whole n =
    let read : to_base (spelled (print n)) 0 ≡ ok (pos (value_from 0 (print n ++ []))) =
      to_base-sides 0 (print n) [] (length-print n) (print-is_digit n) refl refl in
    read
    ∙ ap (λ t. ok (pos (value_from 0 t))) (append-nil (print n))
    ∙ ap (λ v. ok (pos v)) (value_from-print n)

-- Of a value that is not negative, and 38 decimals at most: `baseUnitsToCoins` gives a string, and
-- `coinsToBaseUnits` reads this string as the value.
pub coins_to_base_units-base_units_to_coins :
    (n decimals : ℕ)
    → decimals ≤ 38
    → (s : Text) × (base_units_to_coins (pos n) decimals ≡ ok s)
      × (coins_to_base_units (spelled s) decimals ≡ ok (pos n))
unfolding base_units_to_coins to_coins coins_to_base_units
coins_to_base_units-base_units_to_coins n decimals h =
    let allowed : ltb 38 decimals ≡ false = ground arith in
    elim (Bool-cases (decimals == 0)) [
      | inl e ↦
          let whole : to_base (spelled (print n)) decimals ≡ ok (pos n) =
            subst (λ k. to_base (spelled (print n)) k ≡ ok (pos n)) (ground arith)
              (to_base-whole n) in
          (print n, rw (allowed, e) refl, rw allowed whole)
      | inr e ↦
          let digits = pad_start (decimals + 1) (print n) in
          let long : decimals < length digits =
            omega (arith, length-pad_start (decimals + 1) (print n)) in
          (
            point_at decimals digits,
            rw (allowed, e) refl,
            rw allowed (
                to_base-point_at decimals digits long (pad_start-is_digit (decimals + 1) n)
                ∙ ap (λ v. ok (pos v)) (value_from-pad_start (decimals + 1) n)),
          )
    ]
