-- ===== src/Balance/Merge/Outcomes.antt =====
-- findSafeWholeOfferMergeOrder as a whole, with its options and its checks of the sources.
use zswap_offerfiles_kernel.Prelude.{
  ℕ, ◌≡◌, ◌≢◌, sym, ◌∙◌, ◌⊎◌, Bool, true, false, arith, ltb, length, Bool-cases, Result-cases, inl,
  inr, List, map, Option, none, some, ok, >>=-eq-ok,
}
use zswap_offerfiles_kernel.Prelude.Int.{ℤ, pos, ◌≤ℤ◌}
use zswap_offerfiles_kernel.Prelude.Text.{Text}
use zswap_offerfiles_kernel.Balance.{bad_max_sources, bad_max_work}
use zswap_offerfiles_kernel.Balance.Merge.{
  AbortCheck, max_makers, max_order_work, order_sources, MergeSource, MergeOptions, MergeEntry,
  MergeOrder, ordered, unordered, unsafe_merge_order, too_many_sources, delta_option,
  bounded_option, merge_entries, sort_hashes, hash_at, order_entries, find_safe_order,
}
use zswap_offerfiles_kernel.Balance.Merge.Orders.{IsMergeOrder}
use zswap_offerfiles_kernel.Balance.Merge.Safety.{
  HasSafePrefixes, order_entries_sound, order_entries_complete,
}
use zswap_offerfiles_kernel.Balance.Merge.Bounds.{
  HasSortedRows, merge_entries-HasSortedRows, sort_hashes-All, HasSafePrefixes-is_safe,
}

-- What a call that is not refused for its arguments has computed: the entries in the order of their
-- hashes, the bound and the work limit.
pub record Run (sources : List MergeSource) (options : MergeOptions) (r : MergeOrder) : Type 0 where
  pub unsorted : List MergeEntry
  pub bound : ℤ
  pub max_work : ℕ
  pub merged : merge_entries sources ≡ ok unsorted
  pub delta : delta_option options.maximum_delta ≡ ok bound
  pub answer : order_entries (sort_hashes unsorted) bound max_work options.should_abort ≡ r

delta_option_nonneg : (o : Option ℤ) (bound : ℤ) → delta_option o ≡ ok bound → pos 0 ≤ℤ bound
unfolding delta_option
delta_option_nonneg none bound h = ground arith
delta_option_nonneg (some d) bound h = ground arith

order_sources_run :
    (sources : List MergeSource) (bound : ℤ) (max_sources max_work : ℕ)
    (should_abort : Option (ℕ → AbortCheck)) (unsorted : List MergeEntry) (r : MergeOrder)
    → merge_entries sources ≡ ok unsorted
    → order_sources sources bound max_sources max_work should_abort ≡ ok r
    → (r ≡ unordered too_many_sources 0)
      ⊎ (order_entries (sort_hashes unsorted) bound max_work should_abort ≡ r)
unfolding order_sources
order_sources_run sources bound max_sources max_work should_abort unsorted r e h =
    elim (Bool-cases (ltb max_sources (length sources))) [
      | inl many ↦ inl (ground arith)
      | inr few ↦ inr (ground arith)
    ]

order_sources_merged :
    (sources : List MergeSource) (bound : ℤ) (max_sources max_work : ℕ)
    (should_abort : Option (ℕ → AbortCheck)) (r : MergeOrder)
    → order_sources sources bound max_sources max_work should_abort ≡ ok r
    → (r ≡ unordered too_many_sources 0)
      ⊎ ((unsorted : List MergeEntry) × (merge_entries sources ≡ ok unsorted))
order_sources_merged sources bound max_sources max_work should_abort r h =
    elim (Result-cases (merge_entries sources)) [
      | inl (unsorted, e) ↦ inr (unsorted, e)
      | inr (f, e) ↦ inl (unfold order_sources in ground arith)
    ]

true_not_false : true ≢ false
true_not_false e = cc

find_safe_order-Run :
    (sources : List MergeSource) (options : MergeOptions) (r : MergeOrder)
    → find_safe_order sources options ≡ ok r
    → (r ≡ unordered too_many_sources 0) ⊎ Run sources options r
unfolding find_safe_order
find_safe_order-Run sources options r h =
    let (bound, d, h1) = >>=-eq-ok (delta_option options.maximum_delta) _ h in
    let (max_sources, m, h2) =
      >>=-eq-ok (bounded_option max_makers 1 max_makers bad_max_sources options.max_sources) _ h1 in
    let (max_work, w, h3) =
      >>=-eq-ok (bounded_option max_order_work 0 max_order_work bad_max_work options.max_work) _
        h2 in
    elim (order_sources_merged sources bound max_sources max_work options.should_abort r h3) [
      | inl many ↦ inl many
      | inr (unsorted, e) ↦
          elim (order_sources_run sources bound max_sources max_work options.should_abort unsorted r
            e h3) [
              | inl many ↦ inl many
              | inr answer ↦ inr (record {
                unsorted = unsorted;
                bound = bound;
                max_work = max_work;
                merged = e;
                delta = d;
                answer = answer;
              })
            ]
    ]

-- Where a merge order is returned, it lists the canonical hash of every source once, and however far
-- the sources have been merged in it, every token's net amount is within the given bound, which by
-- default is the largest signed delta.
pub find_safe_order_sound :
    (sources : List MergeSource) (options : MergeOptions) (hashes : List Text) (fallback : Bool)
    (work : ℕ)
    → find_safe_order sources options ≡ ok (ordered hashes fallback work)
    → (unsorted : List MergeEntry) × (bound : ℤ) × (is : List ℕ) × (merge_entries sources
        ≡ ok unsorted)
      × (delta_option options.maximum_delta ≡ ok bound)
      × IsMergeOrder (length (sort_hashes unsorted)) is
      × (hashes ≡ map (hash_at (sort_hashes unsorted)) is)
      × HasSafePrefixes (sort_hashes unsorted) bound is
find_safe_order_sound sources options hashes fallback work h =
    elim (find_safe_order-Run sources options (ordered hashes fallback work) h) [
      | inl e ↦ cc
      | inr run ↦
          let (is, o, same, safe) =
            order_entries_sound (sort_hashes run.unsorted) run.bound run.max_work
              options.should_abort hashes fallback work
              (delta_option_nonneg options.maximum_delta run.bound run.delta) run.answer in
          (run.unsorted, run.bound, is, run.merged, run.delta, o, same, safe)
    ]

-- Where the sources are refused for want of a safe merge order, every order of all of them brings
-- some token's net amount, at some point, outside the given bound, which by default is the largest
-- signed delta.
pub find_safe_order_complete :
    (sources : List MergeSource) (options : MergeOptions) (work : ℕ)
    → find_safe_order sources options ≡ ok (unordered unsafe_merge_order work)
    → (unsorted : List MergeEntry) × (bound : ℤ) × (merge_entries sources ≡ ok unsorted)
      × (delta_option options.maximum_delta ≡ ok bound)
      × ((is : List ℕ)
          → IsMergeOrder (length (sort_hashes unsorted)) is
          → ¬ HasSafePrefixes (sort_hashes unsorted) bound is)
find_safe_order_complete sources options work h =
    elim (find_safe_order-Run sources options (unordered unsafe_merge_order work) h) [
      | inl e ↦ cc
      | inr run ↦ (
        run.unsorted,
        run.bound,
        run.merged,
        run.delta,
        λ is o prefixes.
            let refused =
              order_entries_complete (sort_hashes run.unsorted) run.bound run.max_work
                options.should_abort work is run.answer o in
            let sorted =
              sort_hashes-All HasSortedRows run.unsorted
                (merge_entries-HasSortedRows sources run.unsorted run.merged) in
            let fine =
              HasSafePrefixes-is_safe (sort_hashes run.unsorted) run.bound sorted is o prefixes in
            true_not_false (sym fine ∙ refused),
      )
    ]
