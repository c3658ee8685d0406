-- ===== src/OfferBook/Index.antt =====
-- The index of a book: what is under a key, after a hash goes in or leaves.
use zswap_offerfiles_kernel.Prelude.{
  ◌≡◌, refl, ap, inl, inr, Bool, not, ◌&&◌, ◌||◌, List, [], ◌∷◌, if◌then◌else◌, arith, Bool-cases,
  Option-cases,
}
use zswap_offerfiles_kernel.Prelude.Text.{Text, eq_text, eq_text_iff}
use zswap_offerfiles_kernel.Prelude.Map.{
  Dict, lookup, insert, erase, mem, add, remove, lookup-insert, lookup-erase, mem-add, mem-remove,
}
use zswap_offerfiles_kernel.OfferBook.{
  bucket, index_under, index_all, keep_bucket, drop_under, drop_all,
}

-- whether a hash stands under a key
unfoldable pub indexed : Text → Text → Dict (List Text) → Bool
unfolding bucket mem
indexed key hash index = mem hash (bucket key index)

bucket-insert :
    (k j : Text) (hashes : List Text) (index : Dict (List Text))
    → bucket j (insert k hashes index) ≡ (if eq_text k j then hashes else bucket j index)
unfolding bucket
bucket-insert k j hashes index = ground (arith, lookup-insert k j hashes index)

bucket-erase :
    (k j : Text) (index : Dict (List Text))
    → bucket j (erase k index) ≡ (if eq_text k j then [] else bucket j index)
unfolding bucket
bucket-erase k j index = ground (arith, lookup-erase k j index)

bucket-keep_bucket :
    (k j : Text) (hashes : List Text) (index : Dict (List Text))
    → bucket j (keep_bucket k hashes index) ≡ (if eq_text k j then hashes else bucket j index)
unfolding keep_bucket
bucket-keep_bucket k j [] index = bucket-erase k j index
bucket-keep_bucket k j (hash ∷ hashes) index = bucket-insert k j (hash ∷ hashes) index

indexed-index_under :
    (hash k j h : Text) (index : Dict (List Text))
    → indexed j h (index_under hash k index)
      ≡ ((eq_text k j && eq_text hash h) || indexed j h index)
unfolding indexed index_under
indexed-index_under hash k j h index =
    rw (bucket-insert k j (add hash (bucket k index)) index) (elim (Bool-cases (eq_text k j)) [
      | inl e ↦
          let same = (eq_text_iff k j).0 e in
          rw (e, mem-add hash h (bucket k index))
            (ap (λ i. eq_text hash h || mem h (bucket i index)) same)
      | inr e ↦ rw e refl
    ])

bucket-drop_under :
    (hash k j : Text) (index : Dict (List Text))
    → bucket j (drop_under hash k index)
      ≡ (if eq_text k j then remove hash (bucket j index) else bucket j index)
unfolding drop_under bucket remove
bucket-drop_under hash k j index = elim (Option-cases (lookup k index)) [
  | inl e ↦ ground (arith, eq_text_iff k j)
  | inr (hashes, e) ↦
      ground (arith, eq_text_iff k j, bucket-keep_bucket k j (remove hash hashes) index)
]

indexed-drop_under :
    (hash k j h : Text) (index : Dict (List Text))
    → indexed j h (drop_under hash k index)
      ≡ (not (eq_text k j && eq_text hash h) && indexed j h index)
unfolding indexed
indexed-drop_under hash k j h index =
    rw (bucket-drop_under hash k j index) (elim (Bool-cases (eq_text k j)) [
      | inl e ↦ rw (e, mem-remove hash h (bucket j index)) refl
      | inr e ↦ rw e refl
    ])

pub indexed-index_all :
    (hash : Text) (keys : List Text) (j h : Text) (index : Dict (List Text))
    → indexed j h (index_all hash keys index)
      ≡ ((mem j keys && eq_text hash h) || indexed j h index)
unfolding index_all mem
indexed-index_all hash [] j h index = refl
indexed-index_all hash (k ∷ keys) j h index = ground (
  arith,
  indexed-index_all hash keys j h (index_under hash k index),
  indexed-index_under hash k j h index,
)

pub indexed-drop_all :
    (hash : Text) (keys : List Text) (j h : Text) (index : Dict (List Text))
    → indexed j h (drop_all hash keys index)
      ≡ (not (mem j keys && eq_text hash h) && indexed j h index)
unfolding drop_all mem
indexed-drop_all hash [] j h index = refl
indexed-drop_all hash (k ∷ keys) j h index = ground (
  arith,
  indexed-drop_all hash keys j h (drop_under hash k index),
  indexed-drop_under hash k j h index,
)
