-- ===== src/OfferBook/Refinement.antt =====
-- The indexed book does what its specification says, call by call.
use zswap_offerfiles_kernel.Prelude.{
  ◌≡◌, refl, subst, ap, ◌∙◌, inl, inr, Bool, true, false, not, ◌&&◌, ◌||◌, Option, none, some, List,
  [], ◌∷◌, if◌then◌else◌, arith, All, keep_if, Bool-cases,
}
use zswap_offerfiles_kernel.Prelude.Text.{Text, eq_text, eq_text_iff, to_lower}
use zswap_offerfiles_kernel.Prelude.Map.{
  Dict, Distinct, lookup, has, insert, mem, lookup-none_of_has, has-lookup, lookup-insert,
  insert-Distinct, All-insert,
}
use zswap_offerfiles_kernel.OfferBook.{
  BookOffer, Book, new_book, keys_of, bucket, is_set, cached_blob, stored, with_cached, upsert,
  remove_each, remove_by_nullifier, snapshot, upsert_each, gone, resync,
}
use zswap_offerfiles_kernel.OfferBook.Index.{indexed}
use zswap_offerfiles_kernel.OfferBook.Spec.{
  Command, upserts, removes, consumes, sweeps, resyncs, run, run_all, later_or, last_with, resynced,
  view, spec, spec_all, IsIndexed,
}
use zswap_offerfiles_kernel.OfferBook.Updates.{
  upsert-IsIndexed, lookup-upsert, remove_offer-IsIndexed, lookup-remove_offer,
}
use zswap_offerfiles_kernel.OfferBook.Sweeps.{
  names, names-mem, own_lower, lookup-remove_each, remove_each-IsIndexed,
  lookup-remove_by_nullifier, lookup-sweep_expired, sweep_expired-IsIndexed,
}

-- the entries of a snapshot stand under the hashes of their offers
abbrev IsNamed : Text × BookOffer → Type 0
IsNamed (hash, offer) = to_lower offer.offer_hash ≡ hash

snapshot-IsNamed :
    (offers : List BookOffer) (next : Dict BookOffer)
    → All IsNamed next
    → All IsNamed (snapshot offers next)
unfolding snapshot
snapshot-IsNamed [] next a = a
snapshot-IsNamed (o ∷ os) next a =
    snapshot-IsNamed os (insert (to_lower o.offer_hash) o next)
      (All-insert IsNamed (to_lower o.offer_hash) o next refl a)

pub snapshot-Distinct :
    (offers : List BookOffer) (next : Dict BookOffer)
    → Distinct next
    → Distinct (snapshot offers next)
unfolding snapshot
snapshot-Distinct [] next d = d
snapshot-Distinct (o ∷ os) next d =
    snapshot-Distinct os (insert (to_lower o.offer_hash) o next)
      (insert-Distinct (to_lower o.offer_hash) o next d)

pub lookup-snapshot :
    (offers : List BookOffer) (next : Dict BookOffer) (h : Text)
    → lookup h (snapshot offers next) ≡ later_or (last_with h offers) (lookup h next)
unfolding snapshot last_with
lookup-snapshot [] next h = refl
lookup-snapshot (o ∷ os) next h = ground (
  arith,
  lookup-snapshot os (insert (to_lower o.offer_hash) o next) h,
  lookup-insert (to_lower o.offer_hash) h o next,
)

with_cached-offer_hash :
    (cached : Option Text) (offer : BookOffer)
    → (with_cached cached offer).offer_hash ≡ offer.offer_hash
unfolding with_cached
with_cached-offer_hash cached offer = elim (Bool-cases (is_set cached && not (is_set offer.blob))) [
  | inl e ↦ rw e refl
  | inr e ↦ rw e refl
]

abbrev stored_over : Option BookOffer → Option BookOffer → Option BookOffer
stored_over none old = old
stored_over (some offer) old = some (stored (with_cached (cached_blob old) offer))

lookup-upsert_each :
    (next : Dict BookOffer) (b : Book) (h : Text)
    → All IsNamed next
    → Distinct next
    → lookup h (upsert_each next b).offers_by_hash
      ≡ stored_over (lookup h next) (lookup h b.offers_by_hash)
unfolding upsert_each lookup
lookup-upsert_each [] b h a d = refl
lookup-upsert_each ((k, o) ∷ next) b h a d =
    let offer = with_cached (cached_blob (lookup k b.offers_by_hash)) o in
    let name : to_lower offer.offer_hash ≡ k =
      ap to_lower (with_cached-offer_hash (cached_blob (lookup k b.offers_by_hash)) o) ∙ a.0 in
    let rest = lookup-upsert_each next (upsert offer b) h a.1 d.1 in
    let found =
      lookup-upsert offer b h
      ∙ ap (λ j. if eq_text j h then some (stored offer) else lookup h b.offers_by_hash) name in
    elim (Bool-cases (eq_text k h)) [
      | inl s ↦
          let same = (eq_text_iff k h).0 s in
          let missing : lookup h next ≡ none =
            subst (λ j. lookup j next ≡ none) same (lookup-none_of_has k next d.0) in
          rw (rest, missing, found, s)
            (subst
              (λ j.
                some (stored offer)
                ≡ some (stored (with_cached (cached_blob (lookup j b.offers_by_hash)) o)))
              same refl)
      | inr s ↦ rw (rest, found, s) refl
    ]

upsert_each-IsIndexed :
    (next : Dict BookOffer) (b : Book) → IsIndexed b → IsIndexed (upsert_each next b)
unfolding upsert_each
upsert_each-IsIndexed [] b i = i
upsert_each-IsIndexed ((k, o) ∷ next) b i =
    let offer = with_cached (cached_blob (lookup k b.offers_by_hash)) o in
    upsert_each-IsIndexed next (upsert offer b) (upsert-IsIndexed offer b i)

pub mem-keep_if :
    (p : Text → Bool) (hashes : List Text) (h : Text)
    → mem h (keep_if p hashes) ≡ p h && mem h hashes
unfolding mem
mem-keep_if p [] h = ground arith
mem-keep_if p (j ∷ hashes) h = elim (Bool-cases (eq_text j h)) [
  | inl s ↦
      let same : p j ≡ p h = ap p ((eq_text_iff j h).0 s) in ground (arith, mem-keep_if p hashes h)
  | inr s ↦ ground (arith, mem-keep_if p hashes h)
]

pub mem-keys_of : {V : Type 0} (m : Dict V) (h : Text) → mem h (keys_of m) ≡ has h m
unfolding mem has
mem-keys_of [] h = refl
mem-keys_of ((k, v) ∷ m) h = ap (λ x. eq_text k h || x) (mem-keys_of m h)

pub mem-gone :
    (next : Dict BookOffer) (b : Book) (h : Text)
    → mem h (gone next b) ≡ not (has h next) && has h b.offers_by_hash
unfolding gone
mem-gone next b h =
    mem-keep_if (λ hash. not (has hash next)) (keys_of b.offers_by_hash) h
    ∙ ap (λ x. not (has h next) && x) (mem-keys_of b.offers_by_hash h)

names-gone :
    (next : Dict BookOffer) (b : Book) (h : Text)
    → IsIndexed b
    → names h (gone next b) ≡ not (has h next) && has h b.offers_by_hash
names-gone next b h i =
    names-mem (gone next b) h
      (λ j m. own_lower b.offers_by_hash j i.own (ground (arith, mem-gone next b j)))
    ∙ mem-gone next b h

abbrev pub given : Option BookOffer → Bool
given none = false
given (some o) = true

lookup-left :
    (next : Dict BookOffer) (b : Book) (h : Text)
    → IsIndexed b
    → lookup h (remove_each (gone next b) b).offers_by_hash
      ≡ (if not (has h next) && has h b.offers_by_hash then none else lookup h b.offers_by_hash)
lookup-left next b h i =
    lookup-remove_each (gone next b) b h
    ∙ ap (λ x. if x then none else lookup h b.offers_by_hash) (names-gone next b h i)

stored_over_left :
    (next : Dict BookOffer) (b : Book) (h : Text) (o : Option BookOffer)
    → IsIndexed b
    → lookup h next ≡ o
    → stored_over (lookup h next) (lookup h (remove_each (gone next b) b).offers_by_hash)
      ≡ resynced o (lookup h b.offers_by_hash)
stored_over_left next b h none i e =
    let missing : has h next ≡ false = has-lookup h next ∙ ap given e in
    rw (e, lookup-left next b h i, missing)
      (elim (Bool-cases (has h b.offers_by_hash)) [
        | inl s ↦ rw s refl
        | inr s ↦ rw s (lookup-none_of_has h b.offers_by_hash s)
      ])
stored_over_left next b h (some o) i e =
    let there : has h next ≡ true = has-lookup h next ∙ ap given e in
    rw (e, lookup-left next b h i, there) refl

pub later_or-none : (o : Option BookOffer) → later_or o none ≡ o
later_or-none none = refl
later_or-none (some o) = refl

lookup-resync :
    (offers : List BookOffer) (b : Book) (h : Text)
    → IsIndexed b
    → lookup h (resync offers b).1.offers_by_hash
      ≡ resynced (last_with h offers) (lookup h b.offers_by_hash)
unfolding resync lookup
lookup-resync offers b h i =
    let next = snapshot offers [] in
    lookup-upsert_each next (remove_each (gone next b) b) h (snapshot-IsNamed offers [] tt)
      (snapshot-Distinct offers [] tt)
    ∙ stored_over_left next b h (last_with h offers) i
        (lookup-snapshot offers [] h ∙ later_or-none (last_with h offers))

run-IsIndexed : (c : Command) (b : Book) → IsIndexed b → IsIndexed (run c b)
unfolding run remove_by_nullifier resync
run-IsIndexed (upserts offer) b i = upsert-IsIndexed offer b i
run-IsIndexed (removes hash) b i = remove_offer-IsIndexed hash b i
run-IsIndexed (consumes nullifier) b i =
    remove_each-IsIndexed (bucket (to_lower nullifier) b.hashes_by_nullifier) b i
run-IsIndexed (sweeps now margin_seconds) b i = sweep_expired-IsIndexed now margin_seconds b i
run-IsIndexed (resyncs offers) b i =
    let next = snapshot offers [] in
    upsert_each-IsIndexed next (remove_each (gone next b) b)
      (remove_each-IsIndexed (gone next b) b i)

view-run : (c : Command) (b : Book) (h : Text) → IsIndexed b → view (run c b) h ≡ spec c (view b) h
unfolding run spec
view-run (upserts offer) b h i = lookup-upsert offer b h
view-run (removes hash) b h i = lookup-remove_offer hash b h
view-run (consumes nullifier) b h i = lookup-remove_by_nullifier nullifier b h i
view-run (sweeps now margin_seconds) b h i = lookup-sweep_expired now margin_seconds b h i
view-run (resyncs offers) b h i = lookup-resync offers b h i

pub new_book-IsIndexed : IsIndexed new_book
unfolding indexed bucket lookup mem
new_book-IsIndexed = record {
  nullifiers = λ key hash. refl;
  pairs = λ key hash. refl;
  own = tt;
  distinct = tt;
}

pub run_all-IsIndexed : (cs : List Command) (b : Book) → IsIndexed b → IsIndexed (run_all cs b)
run_all-IsIndexed [] b i = i
run_all-IsIndexed (c ∷ cs) b i = run_all-IsIndexed cs (run c b) (run-IsIndexed c b i)

view-run_all :
    (cs : List Command) (b : Book) → IsIndexed b → view (run_all cs b) ≡ spec_all cs (view b)
view-run_all [] b i = refl
view-run_all (c ∷ cs) b i =
    view-run_all cs (run c b) (run-IsIndexed c b i) ∙ ap (spec_all cs) (λ j h. view-run c b h i j)

-- After any calls from an empty book, the offers are those of the specification, in which a call
-- is a change of a function from hashes to offers and there are no indexes; the nullifier index and
-- the pair index have a hash under a key exactly if the offer of that hash has the key, each offer
-- stands under its own hash in lower case, and no hash stands twice.
pub book_refines :
    (cs : List Command)
    → (view (run_all cs new_book) ≡ spec_all cs (λ h. none)) × IsIndexed (run_all cs new_book)
unfolding lookup
book_refines cs =
    (view-run_all cs new_book new_book-IsIndexed, run_all-IsIndexed cs new_book new_book-IsIndexed)
