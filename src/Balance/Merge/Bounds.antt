-- ===== src/Balance/Merge/Bounds.antt =====
-- addNetRows of packages/solver-core/whole-offer-balance.ts against the sums of the rows: what it refuses
-- of the rows of an entry, whose tokens ascend.
use zswap_offerfiles_kernel.Prelude.{
  ℕ, zero, suc, ◌<◌, ◌≡◌, refl, sym, subst, ap, true, false, arith, All, Bool-cases, inl, inr, List,
  [], ◌∷◌, ◌++◌, length, some, ok, >>=-eq-ok,
}
use zswap_offerfiles_kernel.Prelude.Int.{ℤ, pos, ◌+ℤ◌, zero_+ℤ, +ℤ_zero, +ℤ_assoc}
use zswap_offerfiles_kernel.Prelude.Map.{Dict, lookup}
use zswap_offerfiles_kernel.Prelude.Text.{Text, eq_text, eq_text_iff, lt_text, lt_text_irrefl}
use zswap_offerfiles_kernel.Balance.{TokenBalance, canonical_token, account}
use zswap_offerfiles_kernel.Balance.Rows.{Above, IsSorted}
use zswap_offerfiles_kernel.Balance.Canonical.{account-IsCanonical}
use zswap_offerfiles_kernel.Balance.Merge.{
  MergeSource, MergeEntry, value_at, put_value, is_over, add_net_rows, merge_entry, merge_entries,
  place_entry, sort_hashes,
}
use zswap_offerfiles_kernel.Balance.Merge.Values.{
  is_safe, holds, entry_at, row_sum, add_net_rows_value, value_at-put_value,
}
use zswap_offerfiles_kernel.Balance.Merge.Orders.{IsMergeOrder}
use zswap_offerfiles_kernel.Balance.Merge.Safety.{order_sum, IsWithin, HasSafePrefixes}

row_sum-Above : (t : Text) (rs : List TokenBalance) → Above t rs → row_sum t rs ≡ pos 0
unfolding row_sum
row_sum-Above t [] a = refl
row_sum-Above t (r ∷ rs) a =
    ground (arith, row_sum-Above t rs a.1, eq_text_iff r.token t, lt_text_irrefl t, a.0)

within_not_over : (bound x : ℤ) → IsWithin bound x → is_over bound x ≡ false
unfolding is_over
within_not_over bound x w = ground arith

-- a token has one row, so that each step of the rows is a step to the sum
pub add_net_rows_within :
    (bound : ℤ) (rs : List TokenBalance) (d : Dict ℤ)
    → IsSorted rs
    → ((t : Text) → IsWithin bound (value_at t d +ℤ row_sum t rs))
    → (next : Dict ℤ) × (add_net_rows bound rs d ≡ some next)
unfolding add_net_rows row_sum
add_net_rows_within bound [] d s w = (d, refl)
add_net_rows_within bound (r ∷ rs) d s w =
    let amount = value_at r.token d +ℤ r.net in
    let (next, e) = add_net_rows_within bound rs (put_value r.token amount d) s.1 after in
    (next, rw fits e)
  where
    fits : is_over bound (value_at r.token d +ℤ r.net) ≡ false
    fits =
        let own : eq_text r.token r.token ≡ true = (eq_text_iff r.token r.token).1 refl in
        let sum : row_sum r.token (r ∷ rs) ≡ r.net =
          unfold row_sum in rw (own, row_sum-Above r.token rs s.0) (+ℤ_zero r.net) in
        within_not_over bound (value_at r.token d +ℤ r.net) (rw (← sum) (w r.token))

    after :
        (t : Text)
        → IsWithin bound
            (value_at t (put_value r.token (value_at r.token d +ℤ r.net) d) +ℤ row_sum t rs)
    after t = elim (Bool-cases (eq_text r.token t)) [
      | inl e ↦
          let same = (eq_text_iff r.token t).0 e in
          let sum : value_at t d +ℤ row_sum t (r ∷ rs)
              ≡ (value_at r.token d +ℤ r.net) +ℤ row_sum t rs =
            unfold row_sum in rw (e, same) (sym (+ℤ_assoc (value_at t d) r.net (row_sum t rs))) in
          rw (value_at-put_value r.token t (value_at r.token d +ℤ r.net) d, e, ← sum) (w t)
      | inr e ↦
          let sum : row_sum t (r ∷ rs) ≡ row_sum t rs = unfold row_sum in rw e in
          rw (value_at-put_value r.token t (value_at r.token d +ℤ r.net) d, e, ← sum) (w t)
    ]

abbrev pub HasSortedRows : MergeEntry → Type 0
HasSortedRows e = IsSorted e.rows

merge_entry-HasSortedRows :
    (m : MergeSource) (e : MergeEntry) → merge_entry m ≡ ok e → HasSortedRows e
unfolding merge_entry
merge_entry-HasSortedRows m e h =
    let (hash, h0, h1) = >>=-eq-ok (canonical_token m.offer_hash) _ h in
    let (rows, sums, h2) = >>=-eq-ok (account (m.source ∷ [])) _ h1 in
    let same : rows ≡ e.rows = cc in
    subst IsSorted same (account-IsCanonical (m.source ∷ []) rows sums).sorted

pub merge_entries-HasSortedRows :
    (ms : List MergeSource) (es : List MergeEntry) → merge_entries ms ≡ ok es → All HasSortedRows es
unfolding merge_entries
merge_entries-HasSortedRows [] es h =
    let e : [] ≡ es = cc in subst (λ xs. All HasSortedRows xs) e tt
merge_entries-HasSortedRows (m ∷ ms) es h =
    let (e, first, h1) = >>=-eq-ok (merge_entry m) _ h in
    let (rest, others, h2) = >>=-eq-ok (merge_entries ms) _ h1 in
    let same : e ∷ rest ≡ es = cc in
    subst (λ xs. All HasSortedRows xs) same
      (merge_entry-HasSortedRows m e first, merge_entries-HasSortedRows ms rest others)

place_entry-All :
    (P : MergeEntry → Type 0) (e : MergeEntry) (es : List MergeEntry)
    → P e
    → All P es
    → All P (place_entry e es)
unfolding place_entry
place_entry-All P e [] p a = (p, tt)
place_entry-All P e (f ∷ fs) p a = elim (Bool-cases (lt_text f.offer_hash e.offer_hash)) [
  | inl c ↦ rw c (a.0, place_entry-All P e fs p a.1)
  | inr c ↦ rw c (p, a)
]

pub sort_hashes-All :
    (P : MergeEntry → Type 0) (es : List MergeEntry) → All P es → All P (sort_hashes es)
unfolding sort_hashes
sort_hashes-All P [] a = tt
sort_hashes-All P (e ∷ es) a = place_entry-All P e (sort_hashes es) a.0 (sort_hashes-All P es a.1)

entry_at-All :
    (P : MergeEntry → Type 0) (es : List MergeEntry) (i : ℕ)
    → All P es
    → i < length es
    → (e : MergeEntry) × (entry_at es i ≡ some e) × P e
unfolding entry_at
entry_at-All P [] i a l = absurd (omega arith)
entry_at-All P (e ∷ es) zero a l = (e, refl, a.0)
entry_at-All P (e ∷ es) (suc i) a l = entry_at-All P es i a.1 (omega arith)

module _ (entries : List MergeEntry) (bound : ℤ) (sorted : All HasSortedRows entries) where
  is_safe_from :
      (is : List ℕ) (d : Dict ℤ)
      → All (λ i. i < length entries) is
      → ((done rest : List ℕ)
          → is ≡ done ++ rest
          → (t : Text) → IsWithin bound (value_at t d +ℤ order_sum entries t done))
      → is_safe entries bound d is ≡ true
  unfolding is_safe holds
  is_safe_from [] d l w = refl
  is_safe_from (i ∷ is) d l w =
      let (e, at, rows) = entry_at-All HasSortedRows entries i sorted l.0 in
      let first : (t : Text) → IsWithin bound (value_at t d +ℤ row_sum t e.rows) = λ t.
        (let sum : order_sum entries t (i ∷ []) ≡ row_sum t e.rows =
            unfold order_sum in rw at (+ℤ_zero (row_sum t e.rows)) in
          rw (← sum) (w (i ∷ []) is refl t)) in
      let (next, add) = add_net_rows_within bound e.rows d rows first in
      rw (at, add)
        (is_safe_from is next l.1 (λ done rest split t.
          (let sum : value_at t d +ℤ order_sum entries t (i ∷ done)
                ≡ value_at t next +ℤ order_sum entries t done =
              unfold order_sum in
              rw (at, add_net_rows_value bound e.rows d next t add)
                (sym (+ℤ_assoc (value_at t d) (row_sum t e.rows) (order_sum entries t done))) in
            rw (← sum) (w (i ∷ done) rest (ap (λ xs. i ∷ xs) split) t))))

  -- An order whose prefixes are within the bound can be merged.
  pub HasSafePrefixes-is_safe :
      (is : List ℕ)
      → IsMergeOrder (length entries) is
      → HasSafePrefixes entries bound is
      → is_safe entries bound [] is ≡ true
  HasSafePrefixes-is_safe is o w = is_safe_from is [] o.in_range (λ done rest e t.
      unfold value_at lookup in subst (IsWithin bound) (sym (zero_+ℤ _)) (w done rest e t))
