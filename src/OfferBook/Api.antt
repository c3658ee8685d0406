-- ===== src/OfferBook/Api.antt =====
-- Offers from the rows of the API: `parseTokenLeg` and `bookOfferFromApi` of packages/solver/src/book.ts.
use zswap_offerfiles_kernel.Prelude.{
  ◌≡◌, refl, Bool, true, false, ◌&&◌, Option, none, some, List, [], ◌∷◌, if◌then◌else◌, leb, arith,
  All, all_of, ℕ, ◌≤◌, ◌+◌, ◌-◌, ◌*◌, subst,
}
use zswap_offerfiles_kernel.Prelude.Int.{ℤ, pos, ◌<ℤ◌}
use zswap_offerfiles_kernel.Prelude.Text.{
  Text, codes, eq_text, to_lower, to_lower_idem, is_hex64, to_lower-is_hex64,
}
use zswap_offerfiles_kernel.Prelude.Decimal.{is_digit, value_from}
use zswap_offerfiles_kernel.Prelude.Json.{
  Json, undefined, null, bool, num, str, arr, obj, items_list, get,
}
use zswap_offerfiles_kernel.OfferBook.{LegKind, shielded, unshielded, TokenLeg, BookOffer}

-- a chain of tests and readings, each of which may end in `return null`
abbrev pub when {ℓ} : {A : Type ℓ} → Bool → Option A → Option A
when true rest = rest
when false rest = none

abbrev pub reading {ℓ κ} : {A : Type ℓ} {B : Type κ} → Option A → (A → Option B) → Option B
reading none rest = none
reading (some a) rest = rest a

when-some :
    {A : Type 0} (b : Bool) (rest : Option A) {x : A}
    → when b rest ≡ some x
    → (b ≡ true) × (rest ≡ some x)
when-some true rest h = (refl, h)
when-some false rest h = cc

reading-some :
    {A B : Type 0} (o : Option A) (rest : A → Option B) {x : B}
    → reading o rest ≡ some x
    → (a : A) × (o ≡ some a) × (rest a ≡ some x)
reading-some none rest h = cc
reading-some (some a) rest h = (a, refl, h)

-- `isRecord`
abbrev pub is_record : Json → Bool
is_record (obj fs) = true
is_record _ = false

abbrev pub as_hex64 : Json → Option Text
as_hex64 (str s) = when (is_hex64 s) (some (to_lower s))
as_hex64 _ = none

-- `/^[1-9][0-9]*$/`
unfoldable pub is_positive_numeral : Text → Bool
is_positive_numeral [] = false
is_positive_numeral (c ∷ s) = (leb b'1' c && leb c b'9') && all_of is_digit s

-- the amount of a leg; `BigInt` of such a numeral is its value
abbrev pub as_amount : Json → Option ℤ
as_amount (str s) = when (is_positive_numeral s) (some (pos (value_from 0 s)))
as_amount _ = none

unfoldable pub leg_kind : Text → Option LegKind
leg_kind s =
    if eq_text s (codes "SHIELDED")
    then some shielded
    else if eq_text s (codes "UNSHIELDED")
    then some unshielded
    else none

abbrev pub as_kind : Json → Option LegKind
as_kind (str s) = leg_kind s
as_kind _ = none

-- `parseTokenLeg`
unfoldable pub parse_token_leg : Json → Option TokenLeg
unfolding is_positive_numeral leg_kind
parse_token_leg value = when (is_record value) (
    reading (as_hex64 (get (codes "token") value)) (λ token.
      reading (as_amount (get (codes "amount") value)) (λ amount.
        reading (as_kind (get (codes "type") value))
          (λ kind. some (record { token = token; amount = amount; kind = kind })))))

-- every element of an array, read
unfoldable pub each_read : {A : Type 0} → (Json → Option A) → List Json → Option (List A)
each_read read [] = some []
each_read read (j ∷ js) =
    let rest = each_read read js in reading (read j) (λ a. reading rest (λ as'. some (a ∷ as')))

abbrev pub as_array : {A : Type 0} → (Json → Option A) → Json → Option (List A)
as_array read (arr js) = each_read read (items_list js)
as_array read _ = none

-- `offerBech32`, a string if it is there
abbrev pub as_blob : Json → Option Text
as_blob (str (c ∷ s)) = some (c ∷ s)
as_blob _ = none

-- `Date.parse`, with `none` where it gives NaN
module _ (parse_date : Text → Option ℤ) where
  -- `isTimestamp`, with the time of `toEpochMs`
  abbrev pub as_timestamp : Json → Option ℤ
  as_timestamp (str (c ∷ s)) = parse_date (c ∷ s)
  as_timestamp _ = none

  -- `isOptionalTimestamp`, with the time of `toEpochMs`
  abbrev pub as_optional_timestamp : Json → Option (Option ℤ)
  as_optional_timestamp undefined = some none
  as_optional_timestamp null = some none
  as_optional_timestamp j = reading (as_timestamp j) (λ t. some (some t))

  -- `bookOfferFromApi`
  unfoldable pub book_offer_from_api : Json → Option BookOffer
  unfolding parse_token_leg each_read
  book_offer_from_api row =
      let computed = get (codes "computed") row in
      when (is_record row) (
        reading (as_hex64 (get (codes "offerId") row)) (λ offer_hash. when (is_record computed) (
          reading (as_array as_hex64 (get (codes "inputNullifiers") computed)) (λ nullifiers.
            reading (as_timestamp (get (codes "expiresAt") computed)) (λ expires_at.
              reading (as_optional_timestamp (get (codes "firstSeenAt") computed)) (λ first_seen_at.
                reading (as_array parse_token_leg (get (codes "gives") computed)) (λ gives.
                  reading (as_array parse_token_leg (get (codes "wants") computed)) (λ wants.
                    some (record {
                      offer_hash = offer_hash;
                      gives = gives;
                      wants = wants;
                      expires_at = some expires_at;
                      first_seen_at = first_seen_at;
                      input_nullifiers = nullifiers;
                      blob = as_blob (get (codes "offerBech32") row);
                    })))))))))

-- an id in lower case
abbrev pub IsId : Text → Type 0
IsId s = (is_hex64 s ≡ true) × (to_lower s ≡ s)

some_injective : {A : Type 0} {x y : A} → some x ≡ some y → x ≡ y
some_injective h = cc

as_hex64-IsId : (j : Json) (s : Text) → as_hex64 j ≡ some s → IsId s
as_hex64-IsId (str t) s h =
    let (e, r) = when-some (is_hex64 t) (some (to_lower t)) h in
    subst IsId (some_injective r) (to_lower-is_hex64 t e, to_lower_idem t)
as_hex64-IsId undefined s h = cc
as_hex64-IsId null s h = cc
as_hex64-IsId (bool b) s h = cc
as_hex64-IsId (num n) s h = cc
as_hex64-IsId (arr js) s h = cc
as_hex64-IsId (obj fs) s h = cc

value_from_grows : (n : ℕ) (s : Text) → n ≤ value_from n s
unfolding value_from
value_from_grows n [] = omega arith
value_from_grows n (c ∷ s) = omega (arith, value_from_grows (n * 10 + (c - b'0')) s)

as_amount-positive : (j : Json) (z : ℤ) → as_amount j ≡ some z → pos 0 <ℤ z
unfolding is_positive_numeral value_from
as_amount-positive (str []) z h = cc
as_amount-positive (str (c ∷ s)) z h = let grows = value_from_grows (c - b'0') s in ground arith
as_amount-positive undefined z h = cc
as_amount-positive null z h = cc
as_amount-positive (bool b) z h = cc
as_amount-positive (num n) z h = cc
as_amount-positive (arr js) z h = cc
as_amount-positive (obj fs) z h = cc

abbrev pub IsLeg : TokenLeg → Type 0
IsLeg leg = IsId leg.token × (pos 0 <ℤ leg.amount)

parse_token_leg-IsLeg : (j : Json) (leg : TokenLeg) → parse_token_leg j ≡ some leg → IsLeg leg
unfolding parse_token_leg
parse_token_leg-IsLeg j leg h =
    let (e, h1) = when-some (is_record j) _ h in
    let (token, e1, h2) = reading-some (as_hex64 (get (codes "token") j)) _ h1 in
    let (amount, e2, h3) = reading-some (as_amount (get (codes "amount") j)) _ h2 in
    let (kind, e3, h4) = reading-some (as_kind (get (codes "type") j)) _ h3 in
    subst IsLeg (some_injective h4) (
      as_hex64-IsId (get (codes "token") j) token e1,
      as_amount-positive (get (codes "amount") j) amount e2,
    )

each_read-All :
    {A : Type 0} (P : A → Type 0) (read : Json → Option A)
    → ((j : Json) (a : A) → read j ≡ some a → P a)
    → (js : List Json) (found : List A) → each_read read js ≡ some found
    → All P found
unfolding each_read
each_read-All P read sound [] found h = subst (All P) (some_injective h) tt
each_read-All P read sound (j ∷ js) found h =
    let (a, e, h1) = reading-some (read j) _ h in
    let (rest, e1, h2) = reading-some (each_read read js) _ h1 in
    subst (All P) (some_injective h2) (sound j a e, each_read-All P read sound js rest e1)

as_array-All :
    {A : Type 0} (P : A → Type 0) (read : Json → Option A)
    → ((j : Json) (a : A) → read j ≡ some a → P a)
    → (j : Json) (found : List A) → as_array read j ≡ some found
    → All P found
as_array-All P read sound (arr js) found h = each_read-All P read sound (items_list js) found h
as_array-All P read sound undefined found h = cc
as_array-All P read sound null found h = cc
as_array-All P read sound (bool b) found h = cc
as_array-All P read sound (num n) found h = cc
as_array-All P read sound (str s) found h = cc
as_array-All P read sound (obj fs) found h = cc

-- what the book relies on
pub record IsTradable (o : BookOffer) : Type 0 where
  pub hash : IsId o.offer_hash
  pub gives : All IsLeg o.gives
  pub wants : All IsLeg o.wants
  pub expiry : (at : ℤ) × (o.expires_at ≡ some at)
  pub nullifiers : All IsId o.input_nullifiers

-- Whatever `Date.parse` gives: an offer that `bookOfferFromApi` builds has an id as its hash, ids as
-- its tokens and nullifiers, all in lower case, a positive amount in each leg, and an expiry.
pub book_offer_from_api-IsTradable :
    (parse_date : Text → Option ℤ) (row : Json) (o : BookOffer)
    → book_offer_from_api parse_date row ≡ some o
    → IsTradable o
unfolding book_offer_from_api
book_offer_from_api-IsTradable parse_date row o h =
    let computed = get (codes "computed") row in
    let (e, h1) = when-some (is_record row) _ h in
    let (hash, e1, h2) = reading-some (as_hex64 (get (codes "offerId") row)) _ h1 in
    let (e2, h3) = when-some (is_record computed) _ h2 in
    let nullifiers_field = get (codes "inputNullifiers") computed in
    let (nullifiers, e3, h4) = reading-some (as_array as_hex64 nullifiers_field) _ h3 in
    let (at, e4, h5) =
      reading-some (as_timestamp parse_date (get (codes "expiresAt") computed)) _ h4 in
    let (seen, e5, h6) =
      reading-some (as_optional_timestamp parse_date (get (codes "firstSeenAt") computed)) _ h5 in
    let (gives, e6, h7) =
      reading-some (as_array parse_token_leg (get (codes "gives") computed)) _ h6 in
    let (wants, e7, h8) =
      reading-some (as_array parse_token_leg (get (codes "wants") computed)) _ h7 in
    subst IsTradable (some_injective h8) (record {
      hash = as_hex64-IsId (get (codes "offerId") row) hash e1;
      gives =
          as_array-All IsLeg parse_token_leg parse_token_leg-IsLeg (get (codes "gives") computed)
            gives e6;
      wants =
          as_array-All IsLeg parse_token_leg parse_token_leg-IsLeg (get (codes "wants") computed)
            wants e7;
      expiry = (at, refl);
      nullifiers = as_array-All IsId as_hex64 as_hex64-IsId nullifiers_field nullifiers e3;
    })
