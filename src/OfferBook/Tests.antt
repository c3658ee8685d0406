-- ===== src/OfferBook/Tests.antt =====
-- A small book: two offers that spend one coin, and one of them without its blob.
use zswap_offerfiles_kernel.Prelude.{
  ◌≡◌, refl, true, not, ◌&&◌, ◌||◌, Option, none, some, List, [], ◌∷◌, length,
}
use zswap_offerfiles_kernel.Prelude.Int.{ℤ, pos}
use zswap_offerfiles_kernel.Prelude.Text.{Text, codes, eq_text, lower, to_lower, is_hex, is_hex64}
use zswap_offerfiles_kernel.Prelude.Map.{lookup, has, insert, erase, mem, add, remove}
use zswap_offerfiles_kernel.Prelude.Decimal.{is_digit, value_from}
use zswap_offerfiles_kernel.Prelude.Json.{
  Json, str, arr, obj, nil, cons, end, field, items_list, get,
}
use zswap_offerfiles_kernel.Stock.{add_all, empty, reserve}
use zswap_offerfiles_kernel.OfferBook.Claims.{
  claim_for, is_offer_claimed, conflicts_with, claim_for-reserve,
}
use zswap_offerfiles_kernel.Ladder.{pair_key}
use zswap_offerfiles_kernel.OfferBook.{
  shielded, TokenLeg, BookOffer, new_book, nullifier_keys, bucket, index_under, index_all,
  keep_bucket, drop_under, drop_all, legs_key, unindex, stored, store_in, upsert, remove_offer,
  remove_each, remove_by_nullifier, get_each, by_pair, sweep_expired, resync,
}
use zswap_offerfiles_kernel.OfferBook.Spec.{
  Command, upserts, removes, consumes, run, run_all, under, expires, last_with, view, spec_all,
  IsIndexed,
}
use zswap_offerfiles_kernel.OfferBook.Refinement.{given, book_refines}
use zswap_offerfiles_kernel.OfferBook.Queries.{trades, lists, reports_exact, by_pair-trades}
use zswap_offerfiles_kernel.OfferBook.Api.{
  book_offer_from_api, IsTradable, book_offer_from_api-IsTradable,
}

abbrev hash_1 : Text
hash_1 = codes "1111111111111111111111111111111111111111111111111111111111111111"

abbrev hash_2 : Text
hash_2 = codes "22222222222222222222222222222222222222222222222222222222222222AA"

abbrev low_2 : Text
low_2 = codes "22222222222222222222222222222222222222222222222222222222222222aa"

abbrev red : Text
red = codes "cccccccccccccccccccccccccccccccccccccccccccccccccccccccccccccccc"

abbrev blue : Text
blue = codes "dddddddddddddddddddddddddddddddddddddddddddddddddddddddddddddddd"

abbrev coin : Text
coin = codes "eeeeeeeeeeeeeeeeeeeeeeeeeeeeeeeeeeeeeeeeeeeeeeeeeeeeeeeeeeeeeeee"

abbrev leg : Text → ℤ → TokenLeg
leg token amount = record { token = token; amount = amount; kind = shielded }

abbrev offer_of : Text → ℤ → BookOffer
offer_of hash expiry = record {
  offer_hash = hash;
  gives = leg red (pos 5) ∷ [];
  wants = leg blue (pos 7) ∷ [];
  expires_at = some expiry;
  first_seen_at = none;
  input_nullifiers = coin ∷ [];
  blob = none;
}

abbrev offer_1 : BookOffer
offer_1 = offer_of hash_1 (pos 9000)

abbrev offer_2 : BookOffer
offer_2 = offer_of hash_2 (pos 50000)

abbrev calls : List Command
calls = upserts offer_1 ∷ upserts offer_2 ∷ []

both_listed :
    lists hash_1 (by_pair red blue (run_all calls new_book))
      && lists low_2 (by_pair red blue (run_all calls new_book))
    ≡ true
unfolding run upsert store_in stored unindex index_all index_under bucket legs_key pair_key by_pair
    get_each lookup has insert mem add add_all eq_text to_lower lower
both_listed = refl

consumed_coin :
    (run_all (upserts offer_1 ∷ upserts offer_2 ∷ consumes coin ∷ []) new_book) ≡ new_book
unfolding run upsert store_in stored unindex index_all index_under drop_all drop_under keep_bucket
    bucket legs_key pair_key remove_by_nullifier remove_each remove_offer lookup has insert erase
    mem add remove add_all eq_text to_lower lower
consumed_coin = refl

book_refines_example :
    (view (run_all (upserts offer_1 ∷ removes hash_2 ∷ consumes coin ∷ []) new_book)
      ≡ spec_all (upserts offer_1 ∷ removes hash_2 ∷ consumes coin ∷ []) (λ h. none))
    × IsIndexed (run_all (upserts offer_1 ∷ removes hash_2 ∷ consumes coin ∷ []) new_book)
book_refines_example = book_refines (upserts offer_1 ∷ removes hash_2 ∷ consumes coin ∷ [])

reports_exact_example :
    (mem hash_1 (remove_by_nullifier coin (run_all calls new_book)).0
      ≡ under nullifier_keys (to_lower coin) (view (run_all calls new_book) hash_1))
    × (mem hash_1 (sweep_expired (pos 8000) (pos 2) (run_all calls new_book)).0
        ≡ expires (pos 8000) (pos 2) (view (run_all calls new_book) hash_1))
    × (mem hash_1 (resync (offer_2 ∷ []) (run_all calls new_book)).0.added
        ≡ not (given (view (run_all calls new_book) hash_1))
          && given (last_with hash_1 (offer_2 ∷ [])))
    × (mem hash_1 (resync (offer_2 ∷ []) (run_all calls new_book)).0.removed
        ≡ not (given (last_with hash_1 (offer_2 ∷ [])))
          && given (view (run_all calls new_book) hash_1))
reports_exact_example = reports_exact calls hash_1 coin (pos 8000) (pos 2) (offer_2 ∷ [])

stored_2 : view (run_all calls new_book) low_2 ≡ some (stored offer_2)
unfolding run upsert store_in stored unindex index_all index_under bucket legs_key pair_key lookup
    has insert mem add add_all eq_text to_lower lower
stored_2 = refl

red-is_hex64 : is_hex64 red ≡ true
unfolding is_hex64 is_hex
red-is_hex64 = refl

by_pair-trades_example :
    lists low_2 (by_pair red blue (run_all calls new_book))
    ≡ trades red blue (stored offer_2).gives (stored offer_2).wants
unfolding stored
by_pair-trades_example =
    by_pair-trades calls red blue low_2 (stored offer_2) stored_2 red-is_hex64 (red-is_hex64, tt)

abbrev api_leg : Text → Text → Json
api_leg token amount = obj (
    field (codes "token") (str token)
      (field (codes "amount") (str amount) (field (codes "type") (str (codes "SHIELDED")) end)))

abbrev row : Json
row = obj (
    field (codes "offerId") (str hash_1) (
      field (codes "computed")
        (obj (
          field (codes "gives") (arr (cons (api_leg red (codes "5")) nil)) (
            field (codes "wants") (arr (cons (api_leg blue (codes "7")) nil)) (
              field (codes "inputNullifiers") (arr (cons (str coin) nil))
                (field (codes "expiresAt") (str (codes "2026")) end)))))
        end))

abbrev parse_length : Text → Option ℤ
parse_length s = some (pos (length s))

read_row : book_offer_from_api parse_length row ≡ some (offer_of hash_1 (pos 4))
unfolding book_offer_from_api get items_list is_hex64 is_hex to_lower lower eq_text is_digit
    value_from
read_row = refl

book_offer_from_api-IsTradable_example : IsTradable (offer_of hash_1 (pos 4))
book_offer_from_api-IsTradable_example =
    book_offer_from_api-IsTradable parse_length row (offer_of hash_1 (pos 4)) read_row

-- the second offer spends the coin of the first
claim_for-reserve_example :
    is_offer_claimed offer_2 (reserve (claim_for (offer_1 ∷ []) []) empty).0
    ≡ is_offer_claimed offer_2 empty
      || ((reserve (claim_for (offer_1 ∷ []) []) empty).1 && conflicts_with offer_2 (offer_1 ∷ []))
claim_for-reserve_example = claim_for-reserve (offer_1 ∷ []) [] offer_2 empty
