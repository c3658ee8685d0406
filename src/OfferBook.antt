-- ===== src/OfferBook.antt =====
-- The solver's mirror of the live offers: packages/solver/src/book.ts.
pub mod Index
pub mod Spec
pub mod Updates
pub mod Sweeps
pub mod Refinement
pub mod Queries
pub mod Api
pub mod Claims
mod Tests
use zswap_offerfiles_kernel.Prelude.{
  ℕ, Bool, true, false, not, ◌&&◌, ◌||◌, Option, none, some, List, [], ◌∷◌, ◌++◌, map,
  if◌then◌else◌, length, ◌==◌, keep_if,
}
use zswap_offerfiles_kernel.Prelude.Int.{ℤ, pos, ◌-ℤ◌, ◌*ℤ◌, leb_ℤ, eq_ℤ}
use zswap_offerfiles_kernel.Prelude.Text.{Text, codes, eq_text, to_lower}
use zswap_offerfiles_kernel.Prelude.Map.{Dict, lookup, has, insert, erase, add, remove}
use zswap_offerfiles_kernel.Prelude.Decimal.{print_ℤ}
use zswap_offerfiles_kernel.Stock.{sort_texts, join, add_all}
use zswap_offerfiles_kernel.Ladder.{pair_key}

pub data LegKind : Type 0 where
  shielded unshielded : LegKind

pub record TokenLeg : Type 0 where
  pub token : Text
  pub amount : ℤ
  pub kind : LegKind

-- Times are whole milliseconds, as `Date.parse` gives them; `none` is `null`.
pub record BookOffer : Type 0 where
  pub offer_hash : Text
  pub gives : List TokenLeg
  pub wants : List TokenLeg
  pub expires_at : Option ℤ
  pub first_seen_at : Option ℤ
  pub input_nullifiers : List Text
  pub blob : Option Text

pub record Book : Type 0 where
  pub offers_by_hash : Dict BookOffer
  pub hashes_by_nullifier : Dict (List Text)
  pub hashes_by_pair : Dict (List Text)

abbrev pub new_book : Book
new_book = record { offers_by_hash = []; hashes_by_nullifier = []; hashes_by_pair = [] }

-- `Book.get`
unfoldable pub get_offer : Text → Book → Option BookOffer
get_offer hash b = lookup (to_lower hash) b.offers_by_hash

abbrev pub values {ℓ} : {V : Type ℓ} → Dict V → List V
values [] = []
values ((k, v) ∷ m) = v ∷ values m

abbrev pub keys_of {ℓ} : {V : Type ℓ} → Dict V → List Text
keys_of [] = []
keys_of ((k, v) ∷ m) = k ∷ keys_of m

-- `?? []`
abbrev pub hashes_of : Option (List Text) → List Text
hashes_of none = []
hashes_of (some hashes) = hashes

-- the set under a key, and the empty one where there is none
unfoldable pub bucket : Text → Dict (List Text) → List Text
bucket key index = hashes_of (lookup key index)

-- `upsert`: a hash goes into the set under a key
unfoldable pub index_under : Text → Text → Dict (List Text) → Dict (List Text)
unfolding bucket
index_under hash key index = insert key (add hash (bucket key index)) index

unfoldable pub index_all : Text → List Text → Dict (List Text) → Dict (List Text)
unfolding index_under
index_all hash [] index = index
index_all hash (key ∷ keys) index = index_all hash keys (index_under hash key index)

-- `set`, or `delete` of an empty set
unfoldable pub keep_bucket : Text → List Text → Dict (List Text) → Dict (List Text)
keep_bucket key [] index = erase key index
keep_bucket key (hash ∷ hashes) index = insert key (hash ∷ hashes) index

abbrev pub drop_from : Text → Text → Dict (List Text) → Option (List Text) → Dict (List Text)
drop_from hash key index none = index
drop_from hash key index (some hashes) = keep_bucket key (remove hash hashes) index

-- `#unindex`: a hash leaves the set under a key
unfoldable pub drop_under : Text → Text → Dict (List Text) → Dict (List Text)
unfolding keep_bucket
drop_under hash key index = drop_from hash key index (lookup key index)

unfoldable pub drop_all : Text → List Text → Dict (List Text) → Dict (List Text)
unfolding drop_under
drop_all hash [] index = index
drop_all hash (key ∷ keys) index = drop_all hash keys (drop_under hash key index)

-- `isSingleLeg`, with the key under which the two legs are indexed
unfoldable pub legs_key : List TokenLeg → List TokenLeg → List Text
legs_key (give ∷ []) (want ∷ []) = pair_key give.token want.token ∷ []
legs_key (give ∷ []) [] = []
legs_key (give ∷ []) (want ∷ other ∷ wants) = []
legs_key [] wants = []
legs_key (give ∷ other ∷ gives) wants = []

abbrev pub nullifier_keys : BookOffer → List Text
nullifier_keys offer = offer.input_nullifiers

abbrev pub pair_keys : BookOffer → List Text
pair_keys offer = legs_key offer.gives offer.wants

abbrev pub unindex_offer : Text → Book → Option BookOffer → Book
unindex_offer hash b none = b
unindex_offer hash b (some existing) = record b {
  hashes_by_nullifier = drop_all hash (nullifier_keys existing) b.hashes_by_nullifier;
  hashes_by_pair = drop_all hash (pair_keys existing) b.hashes_by_pair;
}

-- `#unindex`
unfoldable pub unindex : Text → Book → Book
unfolding drop_all legs_key
unindex hash b = unindex_offer hash b (lookup hash b.offers_by_hash)

-- `upsert`: what is stored of an offer
unfoldable pub stored : BookOffer → BookOffer
stored offer = record offer {
  offer_hash = to_lower offer.offer_hash;
  input_nullifiers = add_all (map to_lower offer.input_nullifiers) [];
}

unfoldable pub store_in : BookOffer → Book → Book
unfolding index_all legs_key
store_in offer b = record {
  offers_by_hash = insert offer.offer_hash offer b.offers_by_hash;
  hashes_by_nullifier = index_all offer.offer_hash (nullifier_keys offer) b.hashes_by_nullifier;
  hashes_by_pair = index_all offer.offer_hash (pair_keys offer) b.hashes_by_pair;
}

-- `upsert`
unfoldable pub upsert : BookOffer → Book → Book
unfolding unindex store_in stored
upsert offer b =
    let hash = to_lower offer.offer_hash in
    store_in (stored offer) (if has hash b.offers_by_hash then unindex hash b else b)

-- `remove`
unfoldable pub remove_offer : Text → Book → Bool × Book
unfolding unindex
remove_offer offer_hash b =
    let hash = to_lower offer_hash in
    if not (has hash b.offers_by_hash)
    then (false, b)
    else (true, record (unindex hash b) { offers_by_hash = erase hash b.offers_by_hash })

unfoldable pub remove_each : List Text → Book → Book
unfolding remove_offer
remove_each [] b = b
remove_each (hash ∷ hashes) b = remove_each hashes (remove_offer hash b).1

-- `removeByNullifier`
unfoldable pub remove_by_nullifier : Text → Book → List Text × Book
unfolding bucket remove_each
remove_by_nullifier nullifier b =
    let hashes = bucket (to_lower nullifier) b.hashes_by_nullifier in (hashes, remove_each hashes b)

abbrev pub keep_given : Option BookOffer → List BookOffer → List BookOffer
keep_given none offers = offers
keep_given (some offer) offers = offer ∷ offers

unfoldable pub get_each : List Text → Dict BookOffer → List BookOffer
get_each [] offers = []
get_each (hash ∷ hashes) offers = keep_given (lookup hash offers) (get_each hashes offers)

-- `byPair`
unfoldable pub by_pair : Text → Text → Book → List BookOffer
unfolding bucket get_each
by_pair give_token want_token b =
    get_each (bucket (pair_key (to_lower give_token) (to_lower want_token)) b.hashes_by_pair)
      b.offers_by_hash

-- `sweepExpired`, of one offer; an exact `number` is an integer
abbrev is_past : ℤ → ℤ → Option ℤ → Bool
is_past now margin_seconds none = false
is_past now margin_seconds (some at) = leb_ℤ (at -ℤ margin_seconds *ℤ pos 1000) now

unfoldable pub is_due : ℤ → ℤ → BookOffer → Bool
is_due now margin_seconds offer = is_past now margin_seconds offer.expires_at

unfoldable pub sweep_from : ℤ → ℤ → List BookOffer → Book → List Text × Book
unfolding is_due remove_offer
sweep_from now margin_seconds [] b = ([], b)
sweep_from now margin_seconds (offer ∷ offers) b =
    let kept = sweep_from now margin_seconds offers b in
    let (removed, left) =
      sweep_from now margin_seconds offers (remove_offer offer.offer_hash b).1 in
    if is_due now margin_seconds offer then (offer.offer_hash ∷ removed, left) else kept

-- `sweepExpired`
unfoldable pub sweep_expired : ℤ → ℤ → Book → List Text × Book
unfolding sweep_from
sweep_expired now margin_seconds b = sweep_from now margin_seconds (values b.offers_by_hash) b

-- `resync`: the snapshot by hash
unfoldable pub snapshot : List BookOffer → Dict BookOffer → Dict BookOffer
snapshot [] next = next
snapshot (offer ∷ offers) next = snapshot offers (insert (to_lower offer.offer_hash) offer next)

-- a string that is there and is not empty
abbrev pub is_set : Option Text → Bool
is_set none = false
is_set (some []) = false
is_set (some (c ∷ s)) = true

abbrev pub cached_blob : Option BookOffer → Option Text
cached_blob none = none
cached_blob (some existing) = existing.blob

unfoldable pub with_cached : Option Text → BookOffer → BookOffer
with_cached cached offer =
    if is_set cached && not (is_set offer.blob) then record offer { blob = cached } else offer

unfoldable pub upsert_each : Dict BookOffer → Book → Book
unfolding upsert with_cached
upsert_each [] b = b
upsert_each ((hash, offer) ∷ next) b =
    upsert_each next (upsert (with_cached (cached_blob (lookup hash b.offers_by_hash)) offer) b)

abbrev kind_text : LegKind → Text
kind_text shielded = codes "SHIELDED"
kind_text unshielded = codes "UNSHIELDED"

abbrev leg_text : TokenLeg → Text
leg_text leg = kind_text leg.kind ++ (b':' ∷ (leg.token ++ (b':' ∷ print_ℤ leg.amount)))

abbrev pub eq_time : Option ℤ → Option ℤ → Bool
eq_time none none = true
eq_time none (some t) = false
eq_time (some t) none = false
eq_time (some t) (some u) = eq_ℤ t u

abbrev pub may_be_same : Option Text → Option Text → Bool
may_be_same none r = true
may_be_same (some l) none = true
may_be_same (some l) (some r) = eq_text l r

-- `sameOfferProjection`
unfoldable pub same_projection : BookOffer → BookOffer → Bool
same_projection left right =
    let legs = λ (values : List TokenLeg). join b'|' (sort_texts (map leg_text values)) in
    let nullifiers = λ (values : List Text). join b'|' (sort_texts values) in
    eq_text (to_lower left.offer_hash) (to_lower right.offer_hash)
    && (eq_text (legs left.gives) (legs right.gives)
        && (eq_text (legs left.wants) (legs right.wants)
            && (eq_time left.expires_at right.expires_at
                && (eq_time left.first_seen_at right.first_seen_at
                    && (eq_text (nullifiers left.input_nullifiers)
                          (nullifiers right.input_nullifiers)
                        && may_be_same left.blob right.blob)))))

pub record ResyncDiff : Type 0 where
  pub added : List Text
  pub removed : List Text
  pub updated : List Text

abbrev pub has_changed : BookOffer → Option BookOffer → Bool
has_changed offer none = false
has_changed offer (some existing) = not (same_projection existing offer)

unfoldable pub is_changed : Book → Text × BookOffer → Bool
unfolding same_projection
is_changed b (hash, offer) = has_changed offer (lookup hash b.offers_by_hash)

-- the hashes that leave in `resync`
unfoldable pub gone : Dict BookOffer → Book → List Text
gone next b = keep_if (λ hash. not (has hash next)) (keys_of b.offers_by_hash)

-- `resync`
unfoldable pub resync : List BookOffer → Book → ResyncDiff × Book
unfolding snapshot gone is_changed remove_each upsert_each
resync offers b =
    let next = snapshot offers [] in
    (
      record {
        added = keep_if (λ hash. not (has hash b.offers_by_hash)) (keys_of next);
        removed = gone next b;
        updated = keys_of (keep_if (is_changed b) next);
      },
      upsert_each next (remove_each (gone next b) b),
    )
