-- ===== src/Balance/Merge/Safety.antt =====
-- findSafeWholeOfferMergeOrder: the orders that it returns and the refusals.
use zswap_offerfiles_kernel.Prelude.{
  ℕ, zero, suc, ◌+◌, ◌<◌, ◌≡◌, refl, sym, subst, ap₂, ◌∙◌, ◌≢◌, Bool, true, false, arith,
  Bool-cases, Option-cases, inl, inr, List, [], ◌∷◌, ◌++◌, length, ap, All, Option, none, some, map,
}
use zswap_offerfiles_kernel.Prelude.Int.{
  ℤ, pos, ◌+ℤ◌, neg, ◌≤ℤ◌, int_laws, zero_+ℤ, +ℤ_zero, +ℤ_assoc,
}
use zswap_offerfiles_kernel.Prelude.Map.{Dict, lookup}
use zswap_offerfiles_kernel.Prelude.Text.{Text, eq_text}
use zswap_offerfiles_kernel.Balance.{TokenBalance}
use zswap_offerfiles_kernel.Balance.Merge.{
  MergeEntry, AbortCheck, ordered, unordered, unsafe_merge_order, SearchState, value_at, put_value,
  is_over, add_net_rows, fast_path, initial, hash_at, report, failure_reason, order_entries,
  search_from, balances_at, mem_mask,
}
use zswap_offerfiles_kernel.Balance.Merge.Bits.{unset-le}
use zswap_offerfiles_kernel.Balance.Merge.Values.{
  is_safe, holds, entry_at, row_sum, Represents, add_net_rows_value, value_at-put_value, total-zero,
}
use zswap_offerfiles_kernel.Balance.Merge.Search.{
  SearchGood, IsRest, IsRest-suc, IsRest-head, search_from-SearchGood,
}
use zswap_offerfiles_kernel.Balance.Merge.Orders.{
  AreDistinct, IsMergeOrder, completion-IsMergeOrder, order-IsCompletion,
}

-- The net amount in a token that the entries of an order bring in.
unfoldable pub order_sum : List MergeEntry → Text → List ℕ → ℤ
order_sum entries t [] = pos 0
order_sum entries t (i ∷ is) =
    elim (entry_at entries i) [ none ↦ pos 0 | some e ↦ row_sum t e.rows ] +ℤ order_sum entries t is

abbrev pub IsWithin : ℤ → ℤ → Type 0
IsWithin bound x = (neg bound ≤ℤ x) × (x ≤ℤ bound)

-- However far an order has been merged, every token's amount is a signed delta within the bound.
abbrev pub HasSafePrefixes : List MergeEntry → ℤ → List ℕ → Type 0
HasSafePrefixes entries bound is =
    (done rest : List ℕ)
    → is ≡ done ++ rest
    → (t : Text) → IsWithin bound (order_sum entries t done)

abbrev AllWithin : ℤ → Dict ℤ → Type 0
AllWithin bound d = (t : Text) → IsWithin bound (value_at t d)

put_value-AllWithin :
    (bound : ℤ) (t : Text) (v : ℤ) (d : Dict ℤ)
    → is_over bound v ≡ false
    → AllWithin bound d
    → AllWithin bound (put_value t v d)
unfolding is_over
put_value-AllWithin bound t v d o w j =
    rw (value_at-put_value t j v d)
      (elim (Bool-cases (eq_text t j)) [ inl e ↦ rw e (ground arith) | inr e ↦ rw e (w j) ])

add_net_rows-AllWithin :
    (bound : ℤ) (rs : List TokenBalance) (d d' : Dict ℤ)
    → add_net_rows bound rs d ≡ some d'
    → AllWithin bound d
    → AllWithin bound d'
unfolding add_net_rows
add_net_rows-AllWithin bound [] d d' h w = let e : d ≡ d' = cc in subst (AllWithin bound) e w
add_net_rows-AllWithin bound (r ∷ rs) d d' h w =
    let now = value_at r.token d +ℤ r.net in
    elim (Bool-cases (is_over bound now)) [
      | inl over ↦ ground arith
      | inr within ↦
          add_net_rows-AllWithin bound rs (put_value r.token now d) d' (ground arith)
            (put_value-AllWithin bound r.token now d within w)
    ]

module _ (entries : List MergeEntry) (bound : ℤ) where
  -- the first step of a safe order
  safe_step :
      (i : ℕ) (is : List ℕ) (d : Dict ℤ)
      → is_safe entries bound d (i ∷ is) ≡ true
      → (e : MergeEntry) × (next : Dict ℤ) × (entry_at entries i ≡ some e)
        × (add_net_rows bound e.rows d ≡ some next)
        × (is_safe entries bound next is ≡ true)
  unfolding is_safe holds
  safe_step i is d h = elim (Option-cases (entry_at entries i)) [
    | inl none_there ↦ ground arith
    | inr (e, at) ↦ elim (Option-cases (add_net_rows bound e.rows d)) [
      | inl over ↦ ground arith
      | inr (next, add) ↦ (e, next, at, add, ground arith)
    ]
  ]

  pub safe_prefix :
      (is done rest : List ℕ) (d : Dict ℤ) (t : Text)
      → is ≡ done ++ rest
      → AllWithin bound d
      → is_safe entries bound d is ≡ true
      → IsWithin bound (value_at t d +ℤ order_sum entries t done)
  unfolding order_sum
  safe_prefix is [] rest d t e w h = rw (+ℤ_zero (value_at t d)) (w t)
  safe_prefix [] (i ∷ done) rest d t e w h = cc
  safe_prefix (j ∷ is) (i ∷ done) rest d t e w h =
      let same : j ≡ i = cc in
      let tails : is ≡ done ++ rest = cc in
      let (x, next, at, add, safe) = safe_step j is d h in
      let at' : entry_at entries i ≡ some x = ap (entry_at entries) (sym same) ∙ at in
      let later =
        safe_prefix is done rest next t tails (add_net_rows-AllWithin bound x.rows d next add w)
          safe in
      rw
        (
          at',
          ← +ℤ_assoc (value_at t d) (row_sum t x.rows) (order_sum entries t done),
          ← add_net_rows_value bound x.rows d next t add,
        )
        later

empty_within : (bound : ℤ) → pos 0 ≤ℤ bound → AllWithin bound []
unfolding value_at lookup
empty_within bound b t = (omega int_laws, b)

-- the indices from `k` on
abbrev count_up : ℕ → List MergeEntry → List ℕ
count_up k [] = []
count_up k (e ∷ es) = k ∷ count_up (suc k) es

count_up_range :
    (k n : ℕ) (es : List MergeEntry) → length es + k ≡ n → All (λ i. i < n) (count_up k es)
count_up_range k n [] h = tt
count_up_range k n (e ∷ es) h = (omega arith, count_up_range (suc k) n es (omega arith))

count_up_above : (i k : ℕ) (es : List MergeEntry) → i < k → All (λ j. i ≢ j) (count_up k es)
count_up_above i k [] h = tt
count_up_above i k (e ∷ es) h = (omega arith, count_up_above i (suc k) es (omega arith))

count_up_once : (k : ℕ) (es : List MergeEntry) → AreDistinct (count_up k es)
count_up_once k [] = tt
count_up_once k (e ∷ es) = (count_up_above k (suc k) es (omega arith), count_up_once (suc k) es)

length-count_up : (k : ℕ) (es : List MergeEntry) → length (count_up k es) ≡ length es
length-count_up k [] = refl
length-count_up k (e ∷ es) = ap suc (length-count_up (suc k) es)

count_up-IsMergeOrder : (es : List MergeEntry) → IsMergeOrder (length es) (count_up 0 es)
count_up-IsMergeOrder es = record {
  in_range = count_up_range 0 (length es) es (omega arith);
  once = count_up_once 0 es;
  complete = length-count_up 0 es;
}

hash_at-entry_at :
    (es : List MergeEntry) (i : ℕ) (e : MergeEntry)
    → entry_at es i ≡ some e
    → hash_at es i ≡ e.offer_hash
unfolding hash_at entry_at
hash_at-entry_at [] i e h = cc
hash_at-entry_at (f ∷ es) zero e h = cc
hash_at-entry_at (f ∷ es) (suc i) e h = hash_at-entry_at es i e h

no_mask : (m : ℕ) → mem_mask m [] ≡ true → ⊥
unfolding mem_mask
no_mask m h = cc

module _ (entries : List MergeEntry) (bound : ℤ) where
  hashes-count_up :
      (k : ℕ) (es : List MergeEntry)
      → IsRest entries bound k es
      → map (hash_at entries) (count_up k es) ≡ map (λ e. e.offer_hash) es
  hashes-count_up k [] r = refl
  hashes-count_up k (e ∷ es) r =
      ap₂ ◌∷◌ (hash_at-entry_at entries k e (IsRest-head entries bound k e es r))
        (hashes-count_up (suc k) es (IsRest-suc entries bound k e es r))

  fast_path-is_safe :
      (k : ℕ) (es : List MergeEntry) (d : Dict ℤ)
      → IsRest entries bound k es
      → fast_path bound es d ≡ true
      → is_safe entries bound d (count_up k es) ≡ true
  unfolding fast_path is_safe holds
  fast_path-is_safe k [] d r h = refl
  fast_path-is_safe k (e ∷ es) d r h = elim (Option-cases (add_net_rows bound e.rows d)) [
    | inl over ↦ ground arith
    | inr (next, add) ↦
        rw (IsRest-head entries bound k e es r, add)
          (fast_path-is_safe (suc k) es next (IsRest-suc entries bound k e es r) (ground arith))
  ]

  start-IsRest : IsRest entries bound 0 entries
  start-IsRest = (omega arith, λ j. ap (entry_at entries) (omega arith))

  empty-Represents : Represents entries bound 0 []
  unfolding value_at lookup
  empty-Represents t = sym (total-zero entries t)

  -- what the search from the empty mask delivers
  searched :
      (max_work : ℕ) (should_abort : Option (ℕ → AbortCheck))
      → SearchGood entries bound 0 [] initial
          (search_from entries bound max_work should_abort (suc (length entries)) 0 initial)
  unfolding initial
  searched max_work should_abort =
      search_from-SearchGood entries bound max_work should_abort (suc (length entries)) 0 [] initial
        (omega (arith, unset-le (length entries) 0)) (unfold balances_at in refl) empty-Represents
        (λ m h. absurd (no_mask m h)) refl

  hashes_of :
      (hashes : List Text) (path is : List ℕ)
      → path ≡ is
      → map (hash_at entries) path ≡ hashes
      → hashes ≡ map (hash_at entries) is
  hashes_of hashes path is p h = sym h ∙ ap (map (hash_at entries)) p

  -- An order found by the search is a safe order of all entries.
  report_ordered :
      (r : Bool × SearchState) (hashes : List Text) (fallback : Bool) (work : ℕ)
      → SearchGood entries bound 0 [] initial r
      → report entries r ≡ ordered hashes fallback work
      → (is : List ℕ) × IsMergeOrder (length entries) is
        × (is_safe entries bound [] is ≡ true)
        × (hashes ≡ map (hash_at entries) is)
  unfolding report initial
  report_ordered (true, t) hashes fallback work (is, p, c, safe) h =
      (is, completion-IsMergeOrder entries bound is c, safe, hashes_of hashes t.path is p (cc))
  report_ordered (false, t) hashes fallback work g h = cc

  report_unsafe :
      (r : Bool × SearchState) (work : ℕ) (is : List ℕ)
      → SearchGood entries bound 0 [] initial r
      → report entries r ≡ unordered unsafe_merge_order work
      → IsMergeOrder (length entries) is
      → is_safe entries bound [] is ≡ false
  unfolding report failure_reason
  report_unsafe (true, t) work is g h o = cc
  report_unsafe (false, t) work is (p, dead) h o =
      (dead (ground arith)).0 [] empty-Represents is (order-IsCompletion entries bound is o)

module _ (entries : List MergeEntry) (bound : ℤ) (max_work : ℕ)
    (should_abort : Option (ℕ → AbortCheck)) where
  order_entries_safe :
      (hashes : List Text) (fallback : Bool) (work : ℕ)
      → order_entries entries bound max_work should_abort ≡ ordered hashes fallback work
      → (is : List ℕ) × IsMergeOrder (length entries) is
        × (is_safe entries bound [] is ≡ true)
        × (hashes ≡ map (hash_at entries) is)
  unfolding order_entries
  order_entries_safe hashes fallback work h = elim (Bool-cases (fast_path bound entries [])) [
    | inl fast ↦
        let start = start-IsRest entries bound in
        (
          count_up 0 entries,
          count_up-IsMergeOrder entries,
          fast_path-is_safe entries bound 0 entries [] start fast,
          sym (hashes-count_up entries bound 0 entries start ∙ ground arith),
        )
    | inr slow ↦
        report_ordered entries bound _ hashes fallback work
          (searched entries bound max_work should_abort) (ground arith)
  ]

  -- Whatever order is returned lists the hash of every entry once, and however far the entries have
  -- been merged in it, every token's net amount is a signed delta within the bound.
  pub order_entries_sound :
      (hashes : List Text) (fallback : Bool) (work : ℕ)
      → pos 0 ≤ℤ bound
      → order_entries entries bound max_work should_abort ≡ ordered hashes fallback work
      → (is : List ℕ) × IsMergeOrder (length entries) is
        × (hashes ≡ map (hash_at entries) is)
        × HasSafePrefixes entries bound is
  order_entries_sound hashes fallback work b h =
      let (is, o, safe, same) = order_entries_safe hashes fallback work h in
      (
        is,
        o,
        same,
        λ done rest e t.
            let p = safe_prefix entries bound is done rest [] t e (empty_within bound b) safe in
            subst (IsWithin bound) (zero_+ℤ _) (unfold value_at lookup in p),
      )

  -- An order is refused as unsafe only if no order of all entries can be merged.
  pub order_entries_complete :
      (work : ℕ) (is : List ℕ)
      → order_entries entries bound max_work should_abort ≡ unordered unsafe_merge_order work
      → IsMergeOrder (length entries) is
      → is_safe entries bound [] is ≡ false
  unfolding order_entries
  order_entries_complete work is h o = elim (Bool-cases (fast_path bound entries [])) [
    | inl fast ↦ ground arith
    | inr slow ↦
        report_unsafe entries bound _ work is (searched entries bound max_work should_abort)
          (ground arith) o
  ]
