-- ===== src/Prelude/Text.antt =====
-- Strings as lists of code units: equality, the order of `<`, `toLowerCase`, and hex ids.
use Prim.Native.Nat.{ℕ, suc, ◌+◌}
use Prim.Native.Char.{code}
use Prim.Native.String.{String}
use mathlib.Core.Path.{◌≡◌, refl, ap, ap₂}
use mathlib.Core.Bool.{Bool, true, false, ◌&&◌, ◌||◌}
use mathlib.Core.Logic.{◌↔◌, ◌≢◌, inl, inr}
use mathlib.Core.List.{List, [], ◌∷◌}
use native.Mathlib.Omega.{arith}
use zswap_offerfiles_kernel.Prelude.Tests.{ltb, leb, ◌==◌, if◌then◌else◌, Bool-cases}
use zswap_offerfiles_kernel.Prelude.Lists.{length, all_of}

abbrev pub Text : Type 0
Text = List ℕ

abbrev pub codes : String → Text
codes String.[] = []
codes (String.◌∷◌ c s) = code c ∷ codes s

unfoldable pub eq_text : Text → Text → Bool
eq_text [] [] = true
eq_text [] (d ∷ t) = false
eq_text (c ∷ s) [] = false
eq_text (c ∷ s) (d ∷ t) = c == d && eq_text s t

pub eq_text_refl : (s : Text) → eq_text s s ≡ true
unfolding eq_text
eq_text_refl [] = refl
eq_text_refl (c ∷ s) = ground (arith, eq_text_refl s)

pub eq_of_eq_text : (s t : Text) → eq_text s t ≡ true → s ≡ t
unfolding eq_text
eq_of_eq_text [] [] h = refl
eq_of_eq_text [] (d ∷ t) h = cc
eq_of_eq_text (c ∷ s) [] h = cc
eq_of_eq_text (c ∷ s) (d ∷ t) h = ground (arith, eq_of_eq_text s t)

eq_text_of_eq : (s t : Text) → s ≡ t → eq_text s t ≡ true
eq_text_of_eq s t e = rw e (eq_text_refl t)

pub eq_text_iff : (s t : Text) → (eq_text s t ≡ true) ↔ (s ≡ t)
eq_text_iff s t = (eq_of_eq_text s t, eq_text_of_eq s t)

pub eq_text_of_ne : (s t : Text) → s ≢ t → eq_text s t ≡ false
eq_text_of_ne s t ne = elim (Bool-cases (eq_text s t)) [
  | inl e ↦ absurd (ne (eq_of_eq_text s t e))
  | inr e ↦ e
]

pub ne_of_eq_text : (s t : Text) → eq_text s t ≡ false → s ≢ t
ne_of_eq_text s t h e = cc (eq_text_of_eq s t e)

-- `<` on strings compares code units from the left.
unfoldable pub lt_text : Text → Text → Bool
lt_text [] [] = false
lt_text [] (d ∷ t) = true
lt_text (c ∷ s) [] = false
lt_text (c ∷ s) (d ∷ t) = ltb c d || (c == d && lt_text s t)

pub lt_text_irrefl : (s : Text) → lt_text s s ≡ false
unfolding lt_text
lt_text_irrefl [] = refl
lt_text_irrefl (c ∷ s) = ground (arith, lt_text_irrefl s)

pub lt_text_trans : (s t u : Text) → lt_text s t ≡ true → lt_text t u ≡ true → lt_text s u ≡ true
unfolding lt_text
lt_text_trans [] [] u h k = cc
lt_text_trans [] (d ∷ t) [] h k = cc
lt_text_trans [] (d ∷ t) (e ∷ u) h k = refl
lt_text_trans (c ∷ s) [] u h k = cc
lt_text_trans (c ∷ s) (d ∷ t) [] h k = cc
lt_text_trans (c ∷ s) (d ∷ t) (e ∷ u) h k = ground (arith, lt_text_trans s t u)

-- Two different strings are ordered one way or the other.
pub lt_text_total : (s t : Text) → eq_text s t ≡ false → lt_text s t ≡ false → lt_text t s ≡ true
unfolding lt_text eq_text
lt_text_total [] [] h k = cc
lt_text_total [] (d ∷ t) h k = cc
lt_text_total (c ∷ s) [] h k = refl
lt_text_total (c ∷ s) (d ∷ t) h k = ground (arith, lt_text_total s t)

-- `toLowerCase` of an ASCII code unit
unfoldable pub lower : ℕ → ℕ
lower c = if leb b'A' c && leb c b'Z' then c + 32 else c

unfoldable pub to_lower : Text → Text
unfolding lower
to_lower [] = []
to_lower (c ∷ s) = lower c ∷ to_lower s

lower_idem : (c : ℕ) → lower (lower c) ≡ lower c
unfolding lower
lower_idem c = ground arith

pub to_lower_idem : (s : Text) → to_lower (to_lower s) ≡ to_lower s
unfolding to_lower
to_lower_idem [] = refl
to_lower_idem (c ∷ s) = ap₂ ◌∷◌ (lower_idem c) (to_lower_idem s)

-- A code unit that `[0-9a-f]` with the flag `i` matches.
unfoldable pub is_hex : ℕ → Bool
is_hex c = (leb b'0' c && leb c b'9') || ((leb b'a' c && leb c b'f') || (leb b'A' c && leb c b'F'))

-- `/^[0-9a-f]{64}$/i`
unfoldable pub is_hex64 : Text → Bool
unfolding is_hex
is_hex64 s = length s == 64 && all_of is_hex s

lower-is_hex : (c : ℕ) → is_hex c ≡ true → is_hex (lower c) ≡ true
unfolding lower is_hex
lower-is_hex c h = ground arith

length-to_lower : (s : Text) → length (to_lower s) ≡ length s
unfolding to_lower
length-to_lower [] = refl
length-to_lower (c ∷ s) = ap suc (length-to_lower s)

all_of-to_lower : (s : Text) → all_of is_hex s ≡ true → all_of is_hex (to_lower s) ≡ true
unfolding to_lower
all_of-to_lower [] h = refl
all_of-to_lower (c ∷ s) h = ground (arith, lower-is_hex c, all_of-to_lower s)

-- A canonical id is again an id.
pub to_lower-is_hex64 : (s : Text) → is_hex64 s ≡ true → is_hex64 (to_lower s) ≡ true
unfolding is_hex64
to_lower-is_hex64 s h = ground (arith, length-to_lower s, all_of-to_lower s)
