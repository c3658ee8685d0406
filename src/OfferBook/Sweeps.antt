-- ===== src/OfferBook/Sweeps.antt =====
-- Several offers leave a book: by a nullifier, by their expiry, or by a list of hashes.
use zswap_offerfiles_kernel.Prelude.{
  ◌≡◌, refl, sym, subst, ap, ◌∙◌, inl, inr, Bool, true, false, ◌&&◌, none, List, [], ◌∷◌,
  if◌then◌else◌, arith, All, any_of, Bool-cases, Option-cases, some,
}
use zswap_offerfiles_kernel.Prelude.Int.{ℤ, pos, ◌+ℤ◌, ◌-ℤ◌, ◌*ℤ◌, leb_ℤ, +ℤ_parts, -ℤ_parts}
use zswap_offerfiles_kernel.Prelude.Text.{Text, eq_text, eq_text_iff, to_lower}
use zswap_offerfiles_kernel.Prelude.Map.{Dict, Distinct, lookup, has, mem, lookup-none_of_has}
use zswap_offerfiles_kernel.OfferBook.{
  BookOffer, Book, nullifier_keys, values, bucket, is_due, remove_offer, remove_each,
  remove_by_nullifier, sweep_from, sweep_expired,
}
use zswap_offerfiles_kernel.OfferBook.Index.{indexed}
use zswap_offerfiles_kernel.OfferBook.Spec.{under, expires, IsOwn, IsIndexed}
use zswap_offerfiles_kernel.OfferBook.Updates.{remove_offer-IsIndexed, lookup-remove_offer}

-- whether a list of hashes names a hash, in lower case
abbrev pub names : Text → List Text → Bool
names h hashes = any_of (λ hash. eq_text (to_lower hash) h) hashes

pub lookup-remove_each :
    (hashes : List Text) (b : Book) (h : Text)
    → lookup h (remove_each hashes b).offers_by_hash
      ≡ (if names h hashes then none else lookup h b.offers_by_hash)
unfolding remove_each
lookup-remove_each [] b h = refl
lookup-remove_each (hash ∷ hashes) b h =
    ground
      (arith, lookup-remove_each hashes (remove_offer hash b).1 h, lookup-remove_offer hash b h)

pub remove_each-IsIndexed :
    (hashes : List Text) (b : Book) → IsIndexed b → IsIndexed (remove_each hashes b)
unfolding remove_each
remove_each-IsIndexed [] b i = i
remove_each-IsIndexed (hash ∷ hashes) b i =
    remove_each-IsIndexed hashes (remove_offer hash b).1 (remove_offer-IsIndexed hash b i)

-- of hashes in lower case
pub names-mem :
    (hashes : List Text) (h : Text)
    → ((j : Text) → mem j hashes ≡ true → to_lower j ≡ j)
    → names h hashes ≡ mem h hashes
unfolding mem
names-mem [] h low = refl
names-mem (hash ∷ hashes) h low =
    let first : to_lower hash ≡ hash = low hash (rw ((eq_text_iff hash hash).1 refl) refl) in
    let rest = names-mem hashes h (λ j m. low j (ground arith)) in rw (first, rest) refl

-- a hash that has an offer is in lower case
pub own_lower :
    (offers : Dict BookOffer) (h : Text) → All IsOwn offers → has h offers ≡ true → to_lower h ≡ h
unfolding has
own_lower [] h a e = cc
own_lower ((k, offer) ∷ offers) h a e = elim (Bool-cases (eq_text k h)) [
  | inl s ↦ subst (λ j. to_lower j ≡ j) ((eq_text_iff k h).0 s) a.0.1
  | inr s ↦ own_lower offers h a.1 (ground arith)
]

has-under :
    (keys : BookOffer → List Text) (key h : Text) (offers : Dict BookOffer)
    → under keys key (lookup h offers) ≡ true
    → has h offers ≡ true
has-under keys key h offers u = elim (Bool-cases (has h offers)) [
  | inl e ↦ e
  | inr e ↦ let missing = lookup-none_of_has h offers e in ground arith
]

-- the offers that spend a nullifier are those in its set
pub spent_names :
    (key h : Text) (b : Book)
    → IsIndexed b
    → names h (bucket key b.hashes_by_nullifier)
      ≡ under nullifier_keys key (lookup h b.offers_by_hash)
unfolding indexed
spent_names key h b i =
    names-mem (bucket key b.hashes_by_nullifier) h (λ j m.
      own_lower b.offers_by_hash j i.own
        (has-under nullifier_keys key j b.offers_by_hash (sym (i.nullifiers key j) ∙ m)))
    ∙ i.nullifiers key h

pub lookup-remove_by_nullifier :
    (nullifier : Text) (b : Book) (h : Text)
    → IsIndexed b
    → lookup h (remove_by_nullifier nullifier b).1.offers_by_hash ≡ (
        if under nullifier_keys (to_lower nullifier) (lookup h b.offers_by_hash)
        then none
        else lookup h b.offers_by_hash)
unfolding remove_by_nullifier
lookup-remove_by_nullifier nullifier b h i =
    lookup-remove_each (bucket (to_lower nullifier) b.hashes_by_nullifier) b h
    ∙ ap (λ x. if x then none else lookup h b.offers_by_hash)
        (spent_names (to_lower nullifier) h b i)

leb_shift : (at margin now : ℤ) → leb_ℤ (at -ℤ margin) now ≡ leb_ℤ at (now +ℤ margin)
leb_shift at margin now = elim (Bool-cases (leb_ℤ (at -ℤ margin) now)) [
  | inl e ↦ elim (Bool-cases (leb_ℤ at (now +ℤ margin))) [
    | inl f ↦ e ∙ sym f
    | inr f ↦ ground (arith, -ℤ_parts at margin, +ℤ_parts now margin)
  ]
  | inr e ↦ elim (Bool-cases (leb_ℤ at (now +ℤ margin))) [
    | inl f ↦ ground (arith, -ℤ_parts at margin, +ℤ_parts now margin)
    | inr f ↦ e ∙ sym f
  ]
]

module _ (now margin_seconds : ℤ) where
  -- whether one of the offers is due and has the hash
  abbrev pub due_names : Text → List BookOffer → Bool
  due_names h offers =
      any_of (λ o. is_due now margin_seconds o && eq_text (to_lower o.offer_hash) h) offers

  lookup-sweep_from :
      (offers : List BookOffer) (b : Book) (h : Text)
      → lookup h (sweep_from now margin_seconds offers b).1.offers_by_hash
        ≡ (if due_names h offers then none else lookup h b.offers_by_hash)
  unfolding sweep_from
  lookup-sweep_from [] b h = refl
  lookup-sweep_from (o ∷ os) b h = elim (Bool-cases (is_due now margin_seconds o)) [
    | inl e ↦
        rw
          (
            e,
            lookup-sweep_from os (remove_offer o.offer_hash b).1 h,
            lookup-remove_offer o.offer_hash b h,
          )
          (ground arith)
    | inr e ↦ rw (e, lookup-sweep_from os b h) refl
  ]

  sweep_from-IsIndexed :
      (offers : List BookOffer) (b : Book)
      → IsIndexed b
      → IsIndexed (sweep_from now margin_seconds offers b).1
  unfolding sweep_from
  sweep_from-IsIndexed [] b i = i
  sweep_from-IsIndexed (o ∷ os) b i = elim (Bool-cases (is_due now margin_seconds o)) [
    | inl e ↦ rw e (
        sweep_from-IsIndexed os (remove_offer o.offer_hash b).1
          (remove_offer-IsIndexed o.offer_hash b i))
    | inr e ↦ rw e (sweep_from-IsIndexed os b i)
  ]

  absent_due :
      (offers : Dict BookOffer) (h : Text)
      → All IsOwn offers
      → has h offers ≡ false
      → due_names h (values offers) ≡ false
  unfolding has
  absent_due [] h a e = refl
  absent_due ((k, o) ∷ offers) h a e =
      let same : to_lower o.offer_hash ≡ k = ap to_lower a.0.0 ∙ a.0.1 in
      let rest = absent_due offers h a.1 (ground arith) in rw (same, rest) (ground arith)

  -- the code takes the margin off the expiry
  is_due-expires :
      (o : BookOffer) → is_due now margin_seconds o ≡ expires now margin_seconds (some o)
  unfolding is_due
  is_due-expires o = elim (Option-cases o.expires_at) [
    | inl e ↦ rw e refl
    | inr (at, e) ↦ rw e (leb_shift at (margin_seconds *ℤ pos 1000) now)
  ]

  pub due_names-values :
      (offers : Dict BookOffer) (h : Text)
      → All IsOwn offers
      → Distinct offers
      → due_names h (values offers) ≡ expires now margin_seconds (lookup h offers)
  unfolding lookup
  due_names-values [] h a d = refl
  due_names-values ((k, o) ∷ offers) h a d =
      let same : to_lower o.offer_hash ≡ k = ap to_lower a.0.0 ∙ a.0.1 in
      elim (Bool-cases (eq_text k h)) [
        | inl s ↦
            let missing : has h offers ≡ false =
              subst (λ j. has j offers ≡ false) ((eq_text_iff k h).0 s) d.0 in
            let none_due = absent_due offers h a.1 missing in
            rw (same, s, none_due, ← is_due-expires o) (ground arith)
        | inr s ↦ let rest = due_names-values offers h a.1 d.1 in rw (same, s, rest) (ground arith)
      ]

  pub lookup-sweep_expired :
      (b : Book) (h : Text)
      → IsIndexed b
      → lookup h (sweep_expired now margin_seconds b).1.offers_by_hash ≡ (
          if expires now margin_seconds (lookup h b.offers_by_hash)
          then none
          else lookup h b.offers_by_hash)
  unfolding sweep_expired
  lookup-sweep_expired b h i =
      lookup-sweep_from (values b.offers_by_hash) b h
      ∙ ap (λ x. if x then none else lookup h b.offers_by_hash)
          (due_names-values b.offers_by_hash h i.own i.distinct)

  pub sweep_expired-IsIndexed :
      (b : Book) → IsIndexed b → IsIndexed (sweep_expired now margin_seconds b).1
  unfolding sweep_expired
  sweep_expired-IsIndexed b i = sweep_from-IsIndexed (values b.offers_by_hash) b i
