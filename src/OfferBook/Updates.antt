-- ===== src/OfferBook/Updates.antt =====
-- One offer enters a book, or leaves it.
use zswap_offerfiles_kernel.Prelude.{
  ◌≡◌, refl, subst, ap, ◌∙◌, inl, inr, not, ◌&&◌, ◌||◌, Option, none, some, List, if◌then◌else◌,
  arith, All, Bool-cases, Option-cases,
}
use zswap_offerfiles_kernel.Prelude.Text.{Text, eq_text, eq_text_iff, to_lower, to_lower_idem}
use zswap_offerfiles_kernel.Prelude.Map.{
  Dict, Distinct, lookup, has, insert, erase, mem, lookup-insert, lookup-erase, lookup-none_of_has,
  insert-Distinct, erase-Distinct, All-insert, All-erase,
}
use zswap_offerfiles_kernel.OfferBook.{
  BookOffer, Book, nullifier_keys, pair_keys, drop_all, unindex_offer, unindex, stored, store_in,
  upsert, remove_offer,
}
use zswap_offerfiles_kernel.OfferBook.Index.{indexed, indexed-index_all, indexed-drop_all}
use zswap_offerfiles_kernel.OfferBook.Spec.{under, IsOwn, IsIndexed}

module _ (keys : BookOffer → List Text) where
  drop_old : Text → Dict (List Text) → Option BookOffer → Dict (List Text)
  drop_old hash index none = index
  drop_old hash index (some offer) = drop_all hash (keys offer) index

  -- a hash that leaves stands under no key
  indexed-drop_old :
      (hash key h : Text) (index : Dict (List Text)) (offers : Dict BookOffer)
      → ((k j : Text) → indexed k j index ≡ under keys k (lookup j offers))
      → indexed key h (drop_old hash index (lookup hash offers))
        ≡ not (eq_text hash h) && under keys key (lookup h offers)
  unfolding drop_old
  indexed-drop_old hash key h index offers all = elim (Option-cases (lookup hash offers)) [
    | inl e ↦ elim (Bool-cases (eq_text hash h)) [
      | inl s ↦
          let missing : lookup h offers ≡ none =
            subst (λ j. lookup j offers ≡ none) ((eq_text_iff hash h).0 s) e in
          rw (e, s, all key h, missing) refl
      | inr s ↦ rw (e, s, all key h) refl
    ]
    | inr (offer, e) ↦ elim (Bool-cases (eq_text hash h)) [
      | inl s ↦
          let there : lookup h offers ≡ some offer =
            subst (λ j. lookup j offers ≡ some offer) ((eq_text_iff hash h).0 s) e in
          rw (e, indexed-drop_all hash (keys offer) key h index, s, all key h, there) (ground arith)
      | inr s ↦ rw (e, indexed-drop_all hash (keys offer) key h index, s, all key h) (ground arith)
    ]
  ]

unindex_nullifiers :
    (hash : Text) (b : Book) (o : Option BookOffer)
    → (unindex_offer hash b o).hashes_by_nullifier
      ≡ drop_old nullifier_keys hash b.hashes_by_nullifier o
unfolding drop_old
unindex_nullifiers hash b none = refl
unindex_nullifiers hash b (some offer) = refl

unindex_pairs :
    (hash : Text) (b : Book) (o : Option BookOffer)
    → (unindex_offer hash b o).hashes_by_pair ≡ drop_old pair_keys hash b.hashes_by_pair o
unfolding drop_old
unindex_pairs hash b none = refl
unindex_pairs hash b (some offer) = refl

unindex_offers :
    (hash : Text) (b : Book) (o : Option BookOffer)
    → (unindex_offer hash b o).offers_by_hash ≡ b.offers_by_hash
unindex_offers hash b none = refl
unindex_offers hash b (some offer) = refl

unindex_same : (hash : Text) (b : Book) → (unindex hash b).offers_by_hash ≡ b.offers_by_hash
unfolding unindex
unindex_same hash b = unindex_offers hash b (lookup hash b.offers_by_hash)

-- a book whose offers may still have an entry for a hash that no index has
record IsFree (hash : Text) (b : Book) : Type 0 where
  nullifiers :
      (key h : Text)
      → indexed key h b.hashes_by_nullifier
        ≡ not (eq_text hash h) && under nullifier_keys key (lookup h b.offers_by_hash)
  pairs :
      (key h : Text)
      → indexed key h b.hashes_by_pair
        ≡ not (eq_text hash h) && under pair_keys key (lookup h b.offers_by_hash)
  own : All IsOwn b.offers_by_hash
  distinct : Distinct b.offers_by_hash

unindex-IsFree : (hash : Text) (b : Book) → IsIndexed b → IsFree hash (unindex hash b)
unfolding unindex
unindex-IsFree hash b i =
    let o = lookup hash b.offers_by_hash in
    let same = unindex_offers hash b o in
    record {
      nullifiers = λ key h.
          rw (unindex_nullifiers hash b o, same)
            (indexed-drop_old nullifier_keys hash key h b.hashes_by_nullifier b.offers_by_hash
              i.nullifiers);
      pairs = λ key h.
          rw (unindex_pairs hash b o, same)
            (indexed-drop_old pair_keys hash key h b.hashes_by_pair b.offers_by_hash i.pairs);
      own = rw same i.own;
      distinct = rw same i.distinct;
    }

absent-IsFree :
    (hash : Text) (b : Book) → lookup hash b.offers_by_hash ≡ none → IsIndexed b → IsFree hash b
unfolding unindex
absent-IsFree hash b e i =
    subst (λ o. IsFree hash (unindex_offer hash b o)) e (unfold unindex in unindex-IsFree hash b i)

-- what an index says after a hash enters
under-insert :
    (keys : BookOffer → List Text) (offer : BookOffer) (key h : Text) (offers : Dict BookOffer)
    → ((mem key (keys offer) && eq_text offer.offer_hash h)
        || (not (eq_text offer.offer_hash h) && under keys key (lookup h offers)))
      ≡ under keys key (lookup h (insert offer.offer_hash offer offers))
under-insert keys offer key h offers =
    rw (lookup-insert offer.offer_hash h offer offers)
      (elim (Bool-cases (eq_text offer.offer_hash h)) [
        | inl s ↦ rw s (ground arith)
        | inr s ↦ rw s (ground arith)
      ])

store_in-IsIndexed :
    (offer : BookOffer) (b : Book)
    → to_lower offer.offer_hash ≡ offer.offer_hash
    → IsFree offer.offer_hash b
    → IsIndexed (store_in offer b)
unfolding store_in
store_in-IsIndexed offer b l f = record {
  nullifiers = λ key h.
      indexed-index_all offer.offer_hash (nullifier_keys offer) key h b.hashes_by_nullifier
      ∙ ap (λ x. (mem key (nullifier_keys offer) && eq_text offer.offer_hash h) || x)
          (f.nullifiers key h)
      ∙ under-insert nullifier_keys offer key h b.offers_by_hash;
  pairs = λ key h.
      indexed-index_all offer.offer_hash (pair_keys offer) key h b.hashes_by_pair
      ∙ ap (λ x. (mem key (pair_keys offer) && eq_text offer.offer_hash h) || x) (f.pairs key h)
      ∙ under-insert pair_keys offer key h b.offers_by_hash;
  own = All-insert IsOwn offer.offer_hash offer b.offers_by_hash (refl, l) f.own;
  distinct = insert-Distinct offer.offer_hash offer b.offers_by_hash f.distinct;
}

pub upsert-IsIndexed : (offer : BookOffer) (b : Book) → IsIndexed b → IsIndexed (upsert offer b)
unfolding upsert stored
upsert-IsIndexed offer b i =
    let hash = to_lower offer.offer_hash in
    let l = to_lower_idem offer.offer_hash in
    elim (Bool-cases (has hash b.offers_by_hash)) [
      | inl e ↦
          rw e (store_in-IsIndexed (stored offer) (unindex hash b) l (unindex-IsFree hash b i))
      | inr e ↦ rw e (
          store_in-IsIndexed (stored offer) b l
            (absent-IsFree hash b (lookup-none_of_has hash b.offers_by_hash e) i))
    ]

pub lookup-upsert :
    (offer : BookOffer) (b : Book) (h : Text)
    → lookup h (upsert offer b).offers_by_hash ≡ (
        if eq_text (to_lower offer.offer_hash) h
        then some (stored offer)
        else lookup h b.offers_by_hash)
unfolding upsert stored store_in unindex
lookup-upsert offer b h =
    let hash = to_lower offer.offer_hash in
    elim (Bool-cases (has hash b.offers_by_hash)) [
      | inl e ↦
          rw (e, unindex_offers hash b (lookup hash b.offers_by_hash))
            (lookup-insert hash h (stored offer) b.offers_by_hash)
      | inr e ↦ rw e (lookup-insert hash h (stored offer) b.offers_by_hash)
    ]

erased-IsIndexed :
    (hash : Text) (b : Book)
    → IsFree hash b
    → IsIndexed (record b { offers_by_hash = erase hash b.offers_by_hash })
erased-IsIndexed hash b f = record {
  nullifiers = λ key h. f.nullifiers key h ∙ under-erase nullifier_keys key h;
  pairs = λ key h. f.pairs key h ∙ under-erase pair_keys key h;
  own = All-erase IsOwn hash b.offers_by_hash f.own;
  distinct = erase-Distinct hash b.offers_by_hash f.distinct;
}
  where
    under-erase :
        (keys : BookOffer → List Text) (key h : Text)
        → (not (eq_text hash h) && under keys key (lookup h b.offers_by_hash))
          ≡ under keys key (lookup h (erase hash b.offers_by_hash))
    under-erase keys key h =
        rw (lookup-erase hash h b.offers_by_hash)
          (elim (Bool-cases (eq_text hash h)) [ inl s ↦ rw s refl | inr s ↦ rw s refl ])

pub remove_offer-IsIndexed :
    (offer_hash : Text) (b : Book) → IsIndexed b → IsIndexed (remove_offer offer_hash b).1
unfolding remove_offer
remove_offer-IsIndexed offer_hash b i =
    let hash = to_lower offer_hash in
    elim (Bool-cases (has hash b.offers_by_hash)) [
      | inl e ↦ rw e (
          subst (λ m. IsIndexed (record (unindex hash b) { offers_by_hash = erase hash m }))
            (unindex_same hash b)
            (erased-IsIndexed hash (unindex hash b) (unindex-IsFree hash b i)))
      | inr e ↦ rw e i
    ]

pub lookup-remove_offer :
    (offer_hash : Text) (b : Book) (h : Text)
    → lookup h (remove_offer offer_hash b).1.offers_by_hash
      ≡ (if eq_text (to_lower offer_hash) h then none else lookup h b.offers_by_hash)
unfolding remove_offer
lookup-remove_offer offer_hash b h =
    let hash = to_lower offer_hash in
    elim (Bool-cases (has hash b.offers_by_hash)) [
      | inl e ↦ rw e (lookup-erase hash h b.offers_by_hash)
      | inr e ↦
          let missing = lookup-none_of_has hash b.offers_by_hash e in
          elim (Bool-cases (eq_text hash h)) [
            | inl s ↦
                rw (e, s)
                  (subst (λ j. lookup j b.offers_by_hash ≡ none) ((eq_text_iff hash h).0 s) missing)
            | inr s ↦ rw (e, s) refl
          ]
    ]
