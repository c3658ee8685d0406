-- ===== src/OfferBook/Queries.antt =====
-- What the calls of a book report, and what a book lists.
use zswap_offerfiles_kernel.Prelude.{
  ◌≡◌, refl, sym, subst, ap, ◌∙◌, inl, inr, Bool, true, false, not, ◌&&◌, Option, none, some, List,
  [], ◌∷◌, arith, All, any_of, Bool-cases, Option-cases,
}
use zswap_offerfiles_kernel.Prelude.Int.{ℤ}
use zswap_offerfiles_kernel.Prelude.Text.{
  Text, eq_text, eq_text_iff, to_lower, to_lower_idem, is_hex64, to_lower-is_hex64,
}
use zswap_offerfiles_kernel.Prelude.Map.{Dict, lookup, has, mem, has-lookup}
use zswap_offerfiles_kernel.Ladder.{pair_key}
use zswap_offerfiles_kernel.Ladder.Book.{same_key}
use zswap_offerfiles_kernel.OfferBook.{
  TokenLeg, BookOffer, Book, new_book, nullifier_keys, legs_key, values, keys_of, bucket, get_each,
  by_pair, is_due, snapshot, remove_offer, remove_by_nullifier, sweep_from, sweep_expired, resync,
}
use zswap_offerfiles_kernel.OfferBook.Index.{indexed}
use zswap_offerfiles_kernel.OfferBook.Spec.{
  Command, run_all, under, expires, last_with, view, IsOwn, IsIndexed,
}
use zswap_offerfiles_kernel.OfferBook.Sweeps.{due_names, due_names-values}
use zswap_offerfiles_kernel.OfferBook.Refinement.{
  given, mem-keep_if, mem-keys_of, mem-gone, lookup-snapshot, later_or-none, new_book-IsIndexed,
  run_all-IsIndexed,
}

module _ (now margin_seconds : ℤ) where
  mem-sweep_from :
      (offers : List BookOffer) (b : Book) (h : Text)
      → All (λ (o : BookOffer). to_lower o.offer_hash ≡ o.offer_hash) offers
      → mem h (sweep_from now margin_seconds offers b).0 ≡ due_names now margin_seconds h offers
  unfolding sweep_from mem
  mem-sweep_from [] b h a = refl
  mem-sweep_from (o ∷ os) b h a = elim (Bool-cases (is_due now margin_seconds o)) [
    | inl e ↦
        let rest = mem-sweep_from os (remove_offer o.offer_hash b).1 h a.1 in rw (e, rest, a.0) refl
    | inr e ↦ rw (e, mem-sweep_from os b h a.1) refl
  ]

  own_values :
      (offers : Dict BookOffer)
      → All IsOwn offers
      → All (λ (o : BookOffer). to_lower o.offer_hash ≡ o.offer_hash) (values offers)
  own_values [] a = tt
  own_values ((k, o) ∷ offers) a = (ap to_lower a.0.0 ∙ a.0.1 ∙ sym a.0.0, own_values offers a.1)

  mem-sweep_expired :
      (b : Book) (h : Text)
      → IsIndexed b
      → mem h (sweep_expired now margin_seconds b).0
        ≡ expires now margin_seconds (lookup h b.offers_by_hash)
  unfolding sweep_expired
  mem-sweep_expired b h i =
      mem-sweep_from (values b.offers_by_hash) b h (own_values b.offers_by_hash i.own)
      ∙ due_names-values now margin_seconds b.offers_by_hash h i.own i.distinct

has-given : (h : Text) (m : Dict BookOffer) → has h m ≡ given (lookup h m)
has-given h m = has-lookup h m ∙ go (lookup h m)
  where
    go : (o : Option BookOffer) → (elim o [ none ↦ false | some _ ↦ true ]) ≡ given o
    go none = refl
    go (some o) = refl

snapshot-last_with :
    (offers : List BookOffer) (h : Text) → lookup h (snapshot offers []) ≡ last_with h offers
unfolding lookup
snapshot-last_with offers h = lookup-snapshot offers [] h ∙ later_or-none (last_with h offers)

-- In any book that the calls reach, of any hash: `removeByNullifier` reports it exactly if its offer
-- spends the nullifier, `sweepExpired` exactly if its offer expires no later than the margin of
-- seconds after the time of the sweep, and `resync` as added exactly if only the snapshot has it, and
-- as removed exactly if only the book has it.
pub reports_exact :
    (cs : List Command) (hash nullifier : Text) (now margin_seconds : ℤ) (offers : List BookOffer)
    → (mem hash (remove_by_nullifier nullifier (run_all cs new_book)).0
        ≡ under nullifier_keys (to_lower nullifier) (view (run_all cs new_book) hash))
      × (mem hash (sweep_expired now margin_seconds (run_all cs new_book)).0
          ≡ expires now margin_seconds (view (run_all cs new_book) hash))
      × (mem hash (resync offers (run_all cs new_book)).0.added
          ≡ not (given (view (run_all cs new_book) hash)) && given (last_with hash offers))
      × (mem hash (resync offers (run_all cs new_book)).0.removed
          ≡ not (given (last_with hash offers)) && given (view (run_all cs new_book) hash))
unfolding remove_by_nullifier indexed resync
reports_exact cs hash nullifier now margin_seconds offers =
    let b = run_all cs new_book in
    let i = run_all-IsIndexed cs new_book new_book-IsIndexed in
    let next = snapshot offers [] in
    let last = snapshot-last_with offers hash in
    let listed : has hash next ≡ given (last_with hash offers) =
      has-given hash next ∙ ap given last in
    let held = has-given hash b.offers_by_hash in
    (
      i.nullifiers (to_lower nullifier) hash,
      mem-sweep_expired now margin_seconds b hash i,
      mem-keep_if (λ k. not (has k b.offers_by_hash)) (keys_of next) hash
          ∙ ap (λ x. not (has hash b.offers_by_hash) && x) (mem-keys_of next hash ∙ listed)
          ∙ ap (λ x. not x && given (last_with hash offers)) held,
      mem-gone next b hash
          ∙ ap (λ x. not x && has hash b.offers_by_hash) listed
          ∙ ap (λ x. not (given (last_with hash offers)) && x) held,
    )

-- one leg each way, of the two tokens
unfoldable pub trades : Text → Text → List TokenLeg → List TokenLeg → Bool
trades give_token want_token (give ∷ []) (want ∷ []) =
    eq_text (to_lower give.token) (to_lower give_token)
    && eq_text (to_lower want.token) (to_lower want_token)
trades give_token want_token (give ∷ []) [] = false
trades give_token want_token (give ∷ []) (want ∷ other ∷ wants) = false
trades give_token want_token [] wants = false
trades give_token want_token (give ∷ other ∷ gives) wants = false

legs_key-trades :
    (give_token want_token : Text) (gives wants : List TokenLeg)
    → is_hex64 give_token ≡ true
    → All (λ (leg : TokenLeg). is_hex64 leg.token ≡ true) gives
    → mem (pair_key (to_lower give_token) (to_lower want_token)) (legs_key gives wants)
      ≡ trades give_token want_token gives wants
unfolding mem legs_key trades
legs_key-trades g w (give ∷ []) (want ∷ []) h a =
    let same =
      same_key give.token want.token (to_lower g) (to_lower w) a.0 (to_lower-is_hex64 g h) in
    rw (same, to_lower_idem g, to_lower_idem w) (ground arith)
legs_key-trades g w (give ∷ []) [] h a = refl
legs_key-trades g w (give ∷ []) (want ∷ other ∷ wants) h a = refl
legs_key-trades g w [] wants h a = refl
legs_key-trades g w (give ∷ other ∷ gives) wants h a = refl

abbrev pub lists : Text → List BookOffer → Bool
lists hash offers = any_of (λ o. eq_text o.offer_hash hash) offers

lookup-own :
    (offers : Dict BookOffer) (h : Text) (o : BookOffer)
    → All IsOwn offers
    → lookup h offers ≡ some o
    → o.offer_hash ≡ h
unfolding lookup
lookup-own [] h o a e = cc
lookup-own ((k, x) ∷ offers) h o a e = elim (Bool-cases (eq_text k h)) [
  | inl s ↦
      let same : x ≡ o = ground arith in
      ap (λ (y : BookOffer). y.offer_hash) (sym same) ∙ a.0.0 ∙ (eq_text_iff k h).0 s
  | inr s ↦ lookup-own offers h o a.1 (ground arith)
]

lists-get_each :
    (hashes : List Text) (offers : Dict BookOffer) (h : Text)
    → All IsOwn offers
    → lists h (get_each hashes offers) ≡ mem h hashes && given (lookup h offers)
unfolding get_each mem
lists-get_each [] offers h a = refl
lists-get_each (k ∷ hashes) offers h a =
    let rest = lists-get_each hashes offers h a in
    elim (Bool-cases (eq_text k h)) [
      | inl s ↦
          let same = (eq_text_iff k h).0 s in
          elim (Option-cases (lookup k offers)) [
            | inl e ↦
                let missing : lookup h offers ≡ none = subst (λ j. lookup j offers ≡ none) same e in
                rw (e, s, rest, missing) (ground arith)
            | inr (o, e) ↦
                let own : eq_text o.offer_hash h ≡ true =
                  (eq_text_iff o.offer_hash h).1 (lookup-own offers k o a e ∙ same) in
                let there : lookup h offers ≡ some o =
                  subst (λ j. lookup j offers ≡ some o) same e in
                rw (e, s, own, there) refl
          ]
      | inr s ↦ elim (Option-cases (lookup k offers)) [
        | inl e ↦ rw (e, s, rest) refl
        | inr (o, e) ↦ rw (e, lookup-own offers k o a e, s, rest) refl
      ]
    ]

-- In any book that the calls reach, of an offer that it stores and whose given tokens are ids, as is the
-- token asked for: `byPair` lists it exactly if it has one leg each way and these are the two tokens,
-- whatever their case.
pub by_pair-trades :
    (cs : List Command) (give_token want_token hash : Text) (offer : BookOffer)
    → view (run_all cs new_book) hash ≡ some offer
    → is_hex64 give_token ≡ true
    → All (λ (leg : TokenLeg). is_hex64 leg.token ≡ true) offer.gives
    → lists hash (by_pair give_token want_token (run_all cs new_book))
      ≡ trades give_token want_token offer.gives offer.wants
unfolding by_pair indexed
by_pair-trades cs give_token want_token hash offer e h a =
    let b = run_all cs new_book in
    let i = run_all-IsIndexed cs new_book new_book-IsIndexed in
    let key = pair_key (to_lower give_token) (to_lower want_token) in
    let listed = lists-get_each (bucket key b.hashes_by_pair) b.offers_by_hash hash i.own in
    let legs = legs_key-trades give_token want_token offer.gives offer.wants h a in
    listed ∙ rw (i.pairs key hash, e, legs) (ground arith)
