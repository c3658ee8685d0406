-- ===== src/OfferBook/Spec.antt =====
-- What a book promises: it is a map from hashes to offers, whatever its indexes are.
use zswap_offerfiles_kernel.Prelude.{
  ◌≡◌, Bool, false, Option, none, some, List, [], ◌∷◌, if◌then◌else◌, All,
}
use zswap_offerfiles_kernel.Prelude.Int.{ℤ, pos, ◌+ℤ◌, ◌*ℤ◌, leb_ℤ}
use zswap_offerfiles_kernel.Prelude.Text.{Text, eq_text, to_lower}
use zswap_offerfiles_kernel.Prelude.Map.{Distinct, lookup, mem}
use zswap_offerfiles_kernel.OfferBook.{
  BookOffer, Book, nullifier_keys, pair_keys, stored, cached_blob, with_cached, upsert,
  remove_offer, remove_by_nullifier, sweep_expired, resync,
}
use zswap_offerfiles_kernel.OfferBook.Index.{indexed}

-- A call that changes the book.
pub data Command : Type 0 where
  upserts : BookOffer → Command
  removes : Text → Command
  consumes : Text → Command
  sweeps : ℤ → ℤ → Command
  resyncs : List BookOffer → Command

unfoldable pub run : Command → Book → Book
unfolding upsert remove_offer remove_by_nullifier sweep_expired resync
run (upserts offer) b = upsert offer b
run (removes hash) b = (remove_offer hash b).1
run (consumes nullifier) b = (remove_by_nullifier nullifier b).1
run (sweeps now margin_seconds) b = (sweep_expired now margin_seconds b).1
run (resyncs offers) b = (resync offers b).1

abbrev pub run_all : List Command → Book → Book
run_all [] b = b
run_all (c ∷ cs) b = run_all cs (run c b)

-- an offer that is there has a key
abbrev pub under : (BookOffer → List Text) → Text → Option BookOffer → Bool
under keys key none = false
under keys key (some offer) = mem key (keys offer)

abbrev pub ends_by : ℤ → Option ℤ → Bool
ends_by limit none = false
ends_by limit (some at) = leb_ℤ at limit

-- an offer that is there expires within the margin, which is in seconds
abbrev pub expires : ℤ → ℤ → Option BookOffer → Bool
expires now margin_seconds none = false
expires now margin_seconds (some offer) =
    ends_by (now +ℤ margin_seconds *ℤ pos 1000) offer.expires_at

-- the last offer of a snapshot that has the hash
abbrev pub later_or : Option BookOffer → Option BookOffer → Option BookOffer
later_or (some offer) first = some offer
later_or none first = first

unfoldable pub last_with : Text → List BookOffer → Option BookOffer
last_with hash [] = none
last_with hash (offer ∷ offers) =
    later_or (last_with hash offers)
      (if eq_text (to_lower offer.offer_hash) hash then some offer else none)

abbrev pub resynced : Option BookOffer → Option BookOffer → Option BookOffer
resynced none old = none
resynced (some offer) old = some (stored (with_cached (cached_blob old) offer))

abbrev pub Offers : Type 0
Offers = Text → Option BookOffer

abbrev pub view : Book → Offers
view b hash = lookup hash b.offers_by_hash

unfoldable pub spec : Command → Offers → Offers
unfolding last_with
spec (upserts offer) v hash =
    if eq_text (to_lower offer.offer_hash) hash then some (stored offer) else v hash
spec (removes gone) v hash = if eq_text (to_lower gone) hash then none else v hash
spec (consumes nullifier) v hash =
    if under nullifier_keys (to_lower nullifier) (v hash) then none else v hash
spec (sweeps now margin_seconds) v hash =
    if expires now margin_seconds (v hash) then none else v hash
spec (resyncs offers) v hash = resynced (last_with hash offers) (v hash)

abbrev pub spec_all : List Command → Offers → Offers
spec_all [] v = v
spec_all (c ∷ cs) v = spec_all cs (spec c v)

-- an entry stands under the hash of its offer, in lower case
abbrev pub IsOwn : Text × BookOffer → Type 0
IsOwn (hash, offer) = (offer.offer_hash ≡ hash) × (to_lower hash ≡ hash)

-- The indexes say what the offers say.
pub record IsIndexed (b : Book) : Type 0 where
  pub nullifiers :
      (key hash : Text)
      → indexed key hash b.hashes_by_nullifier
        ≡ under nullifier_keys key (lookup hash b.offers_by_hash)
  pub pairs :
      (key hash : Text)
      → indexed key hash b.hashes_by_pair ≡ under pair_keys key (lookup hash b.offers_by_hash)
  pub own : All IsOwn b.offers_by_hash
  pub distinct : Distinct b.offers_by_hash
