-- ===== src/Prelude/BigInt.antt =====
-- `BigInt(s)` of a string, and `String.prototype.trim`.
use Prim.Native.Nat.{ℕ, ◌+◌, ◌-◌, ◌*◌}
use mathlib.Core.Path.{◌≡◌, refl}
use mathlib.Core.Bool.{Bool, true, false, ◌&&◌, ◌||◌}
use mathlib.Core.Option.{Option, none, some}
use mathlib.Core.List.{[], ◌∷◌}
use native.Mathlib.Omega.{arith}
use zswap_offerfiles_kernel.Prelude.Tests.{ltb, leb, ◌==◌, if◌then◌else◌}
use zswap_offerfiles_kernel.Prelude.Lists.{all_of}
use zswap_offerfiles_kernel.Prelude.Int.{ℤ, pos, neg}
use zswap_offerfiles_kernel.Prelude.Text.{Text}
use zswap_offerfiles_kernel.Prelude.Decimal.{is_digit, value_from}

-- white space and line terminators
unfoldable pub is_space : ℕ → Bool
is_space c =
    (leb 9 c && leb c 13)
    || (c == 32
        || (c == 160
            || (c == 5760
                || ((leb 8192 c && leb c 8202)
                    || ((leb 8232 c && leb c 8233)
                        || (c == 8239 || (c == 8287 || (c == 12288 || c == 65279))))))))

unfoldable pub trim_start : Text → Text
unfolding is_space
trim_start [] = []
trim_start (c ∷ s) = if is_space c then trim_start s else c ∷ s

-- a character before what is left of the characters behind it
unfoldable pub keep_before : ℕ → Text → Text
unfolding is_space
keep_before c [] = if is_space c then [] else c ∷ []
keep_before c (d ∷ s) = c ∷ d ∷ s

unfoldable pub trim_end : Text → Text
unfolding keep_before
trim_end [] = []
trim_end (c ∷ s) = keep_before c (trim_end s)

unfoldable pub trim : Text → Text
unfolding trim_start trim_end
trim s = trim_end (trim_start s)

-- what a digit stands for, to the radix 16; 99 of what is no digit
unfoldable pub digit_value : ℕ → ℕ
digit_value c =
    if leb b'0' c && leb c b'9'
    then c - b'0'
    else if leb b'a' c && leb c b'f'
    then c - b'a' + 10
    else if leb b'A' c && leb c b'F'
    then c - b'A' + 10
    else 99

unfoldable pub digits_from : ℕ → ℕ → Text → Option ℕ
unfolding digit_value
digits_from radix n [] = some n
digits_from radix n (c ∷ s) =
    let rest = digits_from radix (n * radix + digit_value c) s in
    if ltb (digit_value c) radix then rest else none

-- one digit or more
unfoldable pub digits_of : ℕ → Text → Option ℕ
unfolding digits_from
digits_of radix [] = none
digits_of radix (c ∷ s) = digits_from radix 0 (c ∷ s)

abbrev pub signed : (ℕ → ℤ) → Option ℕ → Option ℤ
signed f none = none
signed f (some n) = some (f n)

-- `0x`, `0o` and `0b`, behind the zero
unfoldable pub after_zero : Text → Option ℕ
unfolding digits_of digits_from
after_zero [] = some 0
after_zero (c ∷ s) =
    if c == b'x' || c == b'X'
    then digits_of 16 s
    else if c == b'o' || c == b'O'
    then digits_of 8 s
    else if c == b'b' || c == b'B'
    then digits_of 2 s
    else digits_from 10 0 (c ∷ s)

unfoldable pub read_integer : Text → Option ℤ
unfolding after_zero digits_of digits_from
read_integer [] = some (pos 0)
read_integer (c ∷ s) =
    if c == b'-'
    then signed (λ n. neg (pos n)) (digits_of 10 s)
    else if c == b'+'
    then signed pos (digits_of 10 s)
    else if c == b'0'
    then signed pos (after_zero s)
    else signed pos (digits_from 10 0 (c ∷ s))

-- `BigInt(s)`; nothing where it throws a SyntaxError
unfoldable pub big_int : Text → Option ℤ
unfolding trim read_integer
big_int s = read_integer (trim s)

is_digit-is_space : (c : ℕ) → is_digit c ≡ true → is_space c ≡ false
unfolding is_digit is_space
is_digit-is_space c h = ground arith

trim_start-digits : (s : Text) → all_of is_digit s ≡ true → trim_start s ≡ s
unfolding trim_start
trim_start-digits [] h = refl
trim_start-digits (c ∷ s) h = ground (arith, is_digit-is_space c)

keep_before-digit : (c : ℕ) (s : Text) → is_digit c ≡ true → keep_before c s ≡ c ∷ s
unfolding keep_before
keep_before-digit c [] h = ground (arith, is_digit-is_space c)
keep_before-digit c (d ∷ s) h = refl

trim_end-digits : (s : Text) → all_of is_digit s ≡ true → trim_end s ≡ s
unfolding trim_end
trim_end-digits [] h = refl
trim_end-digits (c ∷ s) h =
    rw (trim_end-digits s (ground arith)) (keep_before-digit c s (ground arith))

-- A numeral without white space around it is left as it is.
pub trim-digits : (s : Text) → all_of is_digit s ≡ true → trim s ≡ s
unfolding trim
trim-digits s h = rw (trim_start-digits s h) (trim_end-digits s h)

digit_value-is_digit :
    (c : ℕ) → is_digit c ≡ true → (digit_value c ≡ c - b'0') × (ltb (digit_value c) 10 ≡ true)
unfolding digit_value is_digit
digit_value-is_digit c h = (ground arith, ground arith)

pub digits_from-digits :
    (n : ℕ) (s : Text) → all_of is_digit s ≡ true → digits_from 10 n s ≡ some (value_from n s)
unfolding digits_from value_from
digits_from-digits n [] h = refl
digits_from-digits n (c ∷ s) h =
    let (same, small) = digit_value-is_digit c (ground arith) in
    rw (small, same) (digits_from-digits (n * 10 + (c - b'0')) s (ground arith))

after_zero-digits : (s : Text) → all_of is_digit s ≡ true → after_zero s ≡ some (value_from 0 s)
unfolding after_zero is_digit value_from
after_zero-digits [] h = refl
after_zero-digits (c ∷ s) h = ground (arith, digits_from-digits 0 (c ∷ s) h)

read_integer-digits :
    (s : Text) → all_of is_digit s ≡ true → read_integer s ≡ some (pos (value_from 0 s))
unfolding read_integer value_from is_digit
read_integer-digits [] h = refl
read_integer-digits (c ∷ s) h = ground (arith, after_zero-digits s, digits_from-digits 0 (c ∷ s) h)

-- A string of digits is read as the number that it spells.
pub big_int-digits : (s : Text) → all_of is_digit s ≡ true → big_int s ≡ some (pos (value_from 0 s))
unfolding big_int
big_int-digits s h = rw (trim-digits s h) (read_integer-digits s h)
