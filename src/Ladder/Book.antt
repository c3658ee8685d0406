-- ===== src/Ladder/Book.antt =====
-- The posted ladders by pair.
use zswap_offerfiles_kernel.Prelude.{
  ◌≡◌, refl, true, false, ◌&&◌, none, some, [], ◌∷◌, ◌++◌, if◌then◌else◌, all_of, arith, Bool-cases,
  inl, inr, ok,
}
use zswap_offerfiles_kernel.Prelude.Text.{
  Text, codes, eq_text, eq_text_iff, to_lower, is_hex, is_hex64, to_lower-is_hex64,
}
use zswap_offerfiles_kernel.Prelude.Map.{Dict, insert, lookup-insert}
use zswap_offerfiles_kernel.Prelude.Json.{Json, undefined, null, bool, num, str, arr, obj, get}
use zswap_offerfiles_kernel.Ladder.{
  PriceLevels, pair_key, as_string, is_token_color, reject_pair, as_pair, set_pair, get_pair,
}

bar_free : (s : Text) → is_hex64 s ≡ true → all_of is_hex s ≡ true
unfolding is_hex64
bar_free s h = ground arith

-- A separator that neither part holds keeps the parts apart.
joined_apart :
    (s t u v : Text)
    → all_of is_hex s ≡ true
    → all_of is_hex t ≡ true
    → s ++ (b'|' ∷ u) ≡ t ++ (b'|' ∷ v)
    → (s ≡ t) × (u ≡ v)
unfolding is_hex
joined_apart [] [] u v h k e = (refl, cc)
joined_apart [] (d ∷ t) u v h k e = let same : b'|' ≡ d = cc in ground arith
joined_apart (c ∷ s) [] u v h k e = let same : c ≡ b'|' = cc in ground arith
joined_apart (c ∷ s) (d ∷ t) u v h k e =
    let same : c ≡ d = cc in
    let rest : s ++ (b'|' ∷ u) ≡ t ++ (b'|' ∷ v) = cc in
    let (p, q) = joined_apart s t u v (ground arith) (ground arith) rest in (cc, q)

-- The keys of two pairs of token ids are equal only if the ids are, the letters' case apart.
pub pair_key_injective :
    (a b c d : Text)
    → is_hex64 a ≡ true
    → is_hex64 c ≡ true
    → pair_key a b ≡ pair_key c d
    → (to_lower a ≡ to_lower c) × (to_lower b ≡ to_lower d)
pair_key_injective a b c d h k e =
    joined_apart (to_lower a) (to_lower c) (to_lower b) (to_lower d)
      (bar_free (to_lower a) (to_lower-is_hex64 a h))
      (bar_free (to_lower c) (to_lower-is_hex64 c k)) (unfold pair_key in e)

color_text : (v : Json) → is_token_color v ≡ true → is_hex64 (as_string v) ≡ true
unfolding is_token_color
color_text (str s) h = h
color_text undefined h = cc
color_text null h = cc
color_text (bool b) h = cc
color_text (num n) h = cc
color_text (arr js) h = cc
color_text (obj fs) h = cc

accepted_color : (j : Json) → reject_pair j ≡ none → is_hex64 (as_pair j).token_in ≡ true
unfolding reject_pair
accepted_color j h = color_text (get (codes "tokenIn") j) (ground arith)

pair_key_eq :
    (a b c d : Text)
    → to_lower a ≡ to_lower c
    → to_lower b ≡ to_lower d
    → pair_key a b ≡ pair_key c d
unfolding pair_key
pair_key_eq a b c d p q = rw (p, q)

pub same_key :
    (a b c d : Text)
    → is_hex64 a ≡ true
    → is_hex64 c ≡ true
    → eq_text (pair_key a b) (pair_key c d)
      ≡ (eq_text (to_lower a) (to_lower c) && eq_text (to_lower b) (to_lower d))
same_key a b c d h k = elim (Bool-cases (eq_text (pair_key a b) (pair_key c d))) [
  | inl e ↦
      let same : pair_key a b ≡ pair_key c d = (eq_text_iff _ _).0 e in
      let (p, q) = pair_key_injective a b c d h k same in
      rw (e, (eq_text_iff _ _).1 p, (eq_text_iff _ _).1 q)
  | inr e ↦ different e
]
  where
    different :
        eq_text (pair_key a b) (pair_key c d) ≡ false
        → eq_text (pair_key a b) (pair_key c d)
          ≡ (eq_text (to_lower a) (to_lower c) && eq_text (to_lower b) (to_lower d))
    different e = ground (
      arith,
      pair_key_eq a b c d,
      eq_text_iff (pair_key a b) (pair_key c d),
      eq_text_iff (to_lower a) (to_lower c),
      eq_text_iff (to_lower b) (to_lower d),
    )

-- A ladder that is set is the one of its pair, whatever the case of the letters that it is asked
-- for in, and no other pair of token ids changes.
pub set_pair_lookup :
    (pair : Json) (book next : Dict PriceLevels) (c d : Text)
    → is_hex64 c ≡ true
    → set_pair pair book ≡ ok next
    → get_pair c d next ≡ (
        if eq_text (to_lower (as_pair pair).token_in) (to_lower c)
          && eq_text (to_lower (as_pair pair).token_out) (to_lower d)
        then some (as_pair pair)
        else get_pair c d book)
unfolding set_pair get_pair
set_pair_lookup pair book next c d k h =
    let fine : reject_pair pair ≡ none = ground arith in
    let color = accepted_color pair fine in
    let a = (as_pair pair).token_in in
    let b = (as_pair pair).token_out in
    let written : next ≡ insert (pair_key a b) (as_pair pair) book = ground arith in
    rw (
      written,
      lookup-insert (pair_key a b) (pair_key c d) (as_pair pair) book,
      ← same_key a b c d color k,
    )
