-- ===== src/Balance/Merge/Search.antt =====
-- The memoised search: an order that it finds is a safe one, and a mask that it gives up on without
-- being stopped has no safe completion.
use zswap_offerfiles_kernel.Prelude.{
  ℕ, zero, suc, ◌+◌, ◌-◌, ◌^◌, ◌<◌, ◌≤◌, ◌≡◌, refl, sym, subst, ◌∙◌, ◌≢◌, Bool, true, false, arith,
  ◌==◌, ==_iff, leb, Bool-cases, Option-cases, inl, inr, Option, some, List, [], ◌∷◌, ◌++◌,
  append_assoc, append-nil, length, ap,
}
use zswap_offerfiles_kernel.Prelude.Int.{ℤ}
use zswap_offerfiles_kernel.Prelude.Map.{Dict}
use zswap_offerfiles_kernel.Balance.Merge.{
  MergeEntry, AbortCheck, SearchState, Outcome, found, stopped, swept, add_net_rows, has_bit,
  set_bit, mem_mask, balances_at, drop_last, resume, after_child, interruption, try_each, conclude,
  search_from,
}
use zswap_offerfiles_kernel.Balance.Merge.Bits.{unset, unset-set_bit}
use zswap_offerfiles_kernel.Balance.Merge.Values.{
  Represents, Represents-set_bit, Represents-Same, is_safe, is_safe-Same, entry_at, holds,
}

drop_last-append : (is : List ℕ) (i : ℕ) → drop_last (is ++ i ∷ []) ≡ is
unfolding drop_last
drop_last-append [] i = refl
drop_last-append (j ∷ []) i = refl
drop_last-append (j ∷ k ∷ is) i = ap (◌∷◌ j) (drop_last-append (k ∷ is) i)

balances_at_first : (m : ℕ) (d : Dict ℤ) (ms : List (ℕ × Dict ℤ)) → balances_at m ((m, d) ∷ ms) ≡ d
unfolding balances_at
balances_at_first m d ms = rw ((==_iff m m).1 refl)

module _ (entries : List MergeEntry) (bound : ℤ) where
  -- The indices are merged one after the other, each once, until all are.
  abbrev pub IsCompletion : ℕ → List ℕ → Type 0
  IsCompletion mask [] = mask ≡ 2 ^ length entries - 1
  IsCompletion mask (i ∷ is) =
      (i < length entries) × (has_bit mask i ≡ false) × IsCompletion (set_bit mask i) is

  -- No order of what is left is safe.
  abbrev pub IsDead : ℕ → Type 0
  IsDead mask =
      (d : Dict ℤ)
      → Represents entries bound mask d
      → (is : List ℕ) → IsCompletion mask is
      → is_safe entries bound d is ≡ false

  abbrev pub FailedAreDead : SearchState → Type 0
  FailedAreDead s = (m : ℕ) → mem_mask m s.failed ≡ true → IsDead m

  -- The path has been extended by a safe completion.
  abbrev Completed : ℕ → Dict ℤ → SearchState → SearchState → Type 0
  Completed mask d s t =
      (is : List ℕ) × (t.path ≡ s.path ++ is)
      × IsCompletion mask is
      × (is_safe entries bound d is ≡ true)

  abbrev pub SearchGood : ℕ → Dict ℤ → SearchState → Bool × SearchState → Type 0
  SearchGood mask d s (true, t) = Completed mask d s t
  SearchGood mask d s (false, t) =
      (t.path ≡ s.path) × (t.exhausted ≡ false → IsDead mask × FailedAreDead t)

  -- no safe order goes on with an index from this one on
  abbrev NoneFrom : ℕ → Dict ℤ → ℕ → Type 0
  NoneFrom mask d index =
      (i : ℕ)
      → index ≤ i
      → i < length entries
      → has_bit mask i ≡ false
      → (is : List ℕ) → IsCompletion (set_bit mask i) is
      → is_safe entries bound d (i ∷ is) ≡ false

  abbrev LoopGood : ℕ → Dict ℤ → ℕ → SearchState → Outcome × SearchState → Type 0
  LoopGood mask d index s (found, t) = Completed mask d s t
  LoopGood mask d index s (stopped, t) = (t.path ≡ s.path) × (t.exhausted ≡ true)
  LoopGood mask d index s (swept, t) = (t.path ≡ s.path) × FailedAreDead t × NoneFrom mask d index

  -- the entries from one index on
  abbrev pub IsRest : ℕ → List MergeEntry → Type 0
  IsRest index es =
      (length es + index ≡ length entries)
      × ((j : ℕ) → entry_at es j ≡ entry_at entries (index + j))

  pub IsRest-suc :
      (index : ℕ) (e : MergeEntry) (es : List MergeEntry)
      → IsRest index (e ∷ es)
      → IsRest (suc index) es
  unfolding entry_at
  IsRest-suc index e es (l, at) = (
    omega arith,
    λ j.
        let same : index + suc j ≡ suc index + j = omega arith in
        at (suc j) ∙ ap (entry_at entries) same,
  )

  pub IsRest-head :
      (index : ℕ) (e : MergeEntry) (es : List MergeEntry)
      → IsRest index (e ∷ es)
      → entry_at entries index ≡ some e
  unfolding entry_at
  IsRest-head index e es (l, at) =
      let same : index + 0 ≡ index = omega arith in sym (at zero ∙ ap (entry_at entries) same)

  -- one index more has nothing to offer
  NoneFrom-suc :
      (mask : ℕ) (d : Dict ℤ) (index : ℕ)
      → (has_bit mask index ≡ false
          → (is : List ℕ) → IsCompletion (set_bit mask index) is
          → is_safe entries bound d (index ∷ is) ≡ false)
      → NoneFrom mask d (suc index)
      → NoneFrom mask d index
  NoneFrom-suc mask d index here later i le lt b is c = elim (Bool-cases (index == i)) [
    | inl same ↦ let e : index ≡ i = (==_iff index i).0 same in rw (← e) (here (rw e b) is (rw e c))
    | inr other ↦ later i (ground arith) lt b is c
  ]

  LoopGood-suc :
      (mask : ℕ) (d : Dict ℤ) (index : ℕ) (s s' : SearchState) (r : Outcome × SearchState)
      → s'.path ≡ s.path
      → (has_bit mask index ≡ false
          → (is : List ℕ) → IsCompletion (set_bit mask index) is
          → is_safe entries bound d (index ∷ is) ≡ false)
      → LoopGood mask d (suc index) s' r
      → LoopGood mask d index s r
  LoopGood-suc mask d index s s' (found, t) p h (is, e, c, g) = (is, e ∙ ap (λ q. q ++ is) p, c, g)
  LoopGood-suc mask d index s s' (stopped, t) p h (e, x) = (e ∙ p, x)
  LoopGood-suc mask d index s s' (swept, t) p h (e, f, k) =
      (e ∙ p, f, NoneFrom-suc mask d index h k)

module _ (entries : List MergeEntry) (bound : ℤ) (max_work : ℕ)
    (should_abort : Option (ℕ → AbortCheck)) where
  module _ (child : ℕ → SearchState → Bool × SearchState) (mask : ℕ) (d : Dict ℤ) where
    -- what the loop asks of its recursive calls
    abbrev ChildGood : Type 0
    ChildGood =
        (i : ℕ) (next : Dict ℤ) (s : SearchState)
        → i < length entries
        → has_bit mask i ≡ false
        → balances_at (set_bit mask i) s.balances_by_mask ≡ next
        → Represents entries bound (set_bit mask i) next
        → FailedAreDead entries bound s
        → s.exhausted ≡ false
        → SearchGood entries bound (set_bit mask i) next s (child (set_bit mask i) s)

    after_child-LoopGood :
        (index : ℕ) (e : MergeEntry) (next : Dict ℤ) (s s' : SearchState)
        → index < length entries
        → has_bit mask index ≡ false
        → entry_at entries index ≡ some e
        → add_net_rows bound e.rows d ≡ some next
        → Represents entries bound (set_bit mask index) next
        → s'.path ≡ s.path ++ index ∷ []
        → (go_on : SearchState → Outcome × SearchState)
        → ((t : SearchState)
            → FailedAreDead entries bound t
            → t.exhausted ≡ false
            → LoopGood entries bound mask d (suc index) t (go_on t))
        → (r : Bool × SearchState) → SearchGood entries bound (set_bit mask index) next s' r
        → LoopGood entries bound mask d index s (after_child go_on r)
    unfolding after_child
    after_child-LoopGood index e next s s' lt b at add rep p go_on k (true, t) (is, q, c, safe) = (
      index ∷ is,
      q ∙ ap (λ x. x ++ is) p ∙ append_assoc s.path (index ∷ []) is,
      (lt, b, c),
      unfold is_safe holds in rw (at, add) safe,
    )
    after_child-LoopGood index e next s s' lt b at add rep p go_on k (false, t) (q, dead) =
        elim (Bool-cases t.exhausted) [
          | inl x ↦
              subst (λ y. LoopGood entries bound mask d index s (resume go_on popped y)) (sym x)
                (same_path, x)
          | inr x ↦
              subst (λ y. LoopGood entries bound mask d index s (resume go_on popped y)) (sym x)
                (LoopGood-suc entries bound mask d index s popped (go_on popped) same_path
                  (λ _ is c. unfold is_safe holds in rw (at, add) ((dead x).0 next rep is c))
                  (k popped (dead x).1 x))
        ]
      where
        popped : SearchState
        popped = record t { path = drop_last t.path }

        same_path : drop_last t.path ≡ s.path
        same_path = ap drop_last (q ∙ p) ∙ drop_last-append s.path index

    try_each-LoopGood :
        ChildGood
        → Represents entries bound mask d
        → (index : ℕ) (es : List MergeEntry) (s : SearchState) → IsRest entries bound index es
        → FailedAreDead entries bound s
        → s.exhausted ≡ false
        → LoopGood entries bound mask d index s
            (try_each entries bound max_work should_abort child mask d index es s)
    unfolding try_each
    try_each-LoopGood good rep index [] s rest f x =
        (refl, f, λ i le lt. absurd (omega (arith, rest.0)))
    try_each-LoopGood good rep index (e ∷ es) s rest f x =
        let rest' = IsRest-suc entries bound index e es rest in
        let at = IsRest-head entries bound index e es rest in
        let lt : index < length entries = omega (arith, rest.0) in
        let skipped = record s { work = s.work + 1 } in
        elim (Bool-cases (has_bit mask index)) [
          | inl b ↦
              rw (b, try_each)
                (LoopGood-suc entries bound mask d index s s _ refl (λ nb. cc)
                  (try_each-LoopGood good rep (suc index) es s rest' f x))
          | inr b ↦ elim (Bool-cases (leb max_work s.work)) [
            | inl c ↦ rw (b, c, try_each) (refl, refl)
            | inr c ↦ elim (Option-cases (interruption should_abort (s.work + 1))) [
              | inr (r, o) ↦ rw (b, c, o, try_each) (refl, refl)
              | inl o ↦ elim (Option-cases (add_net_rows bound e.rows d)) [
                | inl a ↦
                    rw (b, c, o, a, try_each)
                      (LoopGood-suc entries bound mask d index s skipped _ refl
                        (λ _ is c. unfold is_safe holds in rw (at, a) refl)
                        (try_each-LoopGood good rep (suc index) es skipped rest' f x))
                | inr (next, a) ↦
                    let rep' = Represents-set_bit entries bound mask index e d next rep at b a in
                    let entered = record s {
                      work = s.work + 1;
                      balances_by_mask = (set_bit mask index, next) ∷ s.balances_by_mask;
                      path = s.path ++ index ∷ [];
                    } in
                    rw (b, c, o, a, try_each)
                      (after_child-LoopGood index e next s entered lt b at a rep' refl _
                        (λ t f' x'. try_each-LoopGood good rep (suc index) es t rest' f' x') _
                        (good index next entered lt b
                          (balances_at_first (set_bit mask index) next s.balances_by_mask) rep' f
                          x))
              ]
            ]
          ]
        ]

  module _ (mask : ℕ) (d : Dict ℤ) (s : SearchState) where
    -- a mask whose every extension is dead is dead
    swept-IsDead :
        mask ≢ 2 ^ length entries - 1
        → Represents entries bound mask d
        → NoneFrom entries bound mask d 0
        → IsDead entries bound mask
    swept-IsDead ne rep none_left d' rep' [] c = absurd (ne c)
    swept-IsDead ne rep none_left d' rep' (i ∷ is) (lt, b, c) =
        is_safe-Same entries bound (i ∷ is) d' d (Represents-Same entries bound mask d' d rep' rep)
        ∙ none_left i (omega arith) lt b is c

    conclude-SearchGood :
        mask ≢ 2 ^ length entries - 1
        → Represents entries bound mask d
        → (r : Outcome × SearchState) → LoopGood entries bound mask d 0 s r
        → SearchGood entries bound mask d s (conclude mask r)
    unfolding conclude
    conclude-SearchGood ne rep (found, t) g = g
    conclude-SearchGood ne rep (stopped, t) (p, x) = (p, λ e. cc)
    conclude-SearchGood ne rep (swept, t) (p, f, none_left) =
        let dead = swept-IsDead ne rep none_left in (p, λ _. (dead, more dead))
      where
        more :
            IsDead entries bound mask
            → FailedAreDead entries bound (record t { failed = mask ∷ t.failed })
        more dead m e = elim (Bool-cases (mask == m)) [
          | inl same ↦ subst (λ k. IsDead entries bound k) ((==_iff mask m).0 same) dead
          | inr other ↦ f m (unfold mem_mask in ground arith)
        ]

  -- `search` from a mask whose balances are the sums of its entries, with fuel for every entry that
  -- is left.
  pub search_from-SearchGood :
      (fuel mask : ℕ) (d : Dict ℤ) (s : SearchState)
      → unset (length entries) mask < fuel
      → balances_at mask s.balances_by_mask ≡ d
      → Represents entries bound mask d
      → FailedAreDead entries bound s
      → s.exhausted ≡ false
      → SearchGood entries bound mask d s
          (search_from entries bound max_work should_abort fuel mask s)
  unfolding search_from
  search_from-SearchGood zero mask d s u bal rep f x = absurd (omega arith)
  search_from-SearchGood (suc fuel) mask d s u bal rep f x =
      elim (Bool-cases (mask == 2 ^ length entries - 1)) [
        | inl full ↦
            rw (full, search_from)
              ([], sym (append-nil s.path), (==_iff mask _).0 full, unfold is_safe in refl)
        | inr part ↦ elim (Bool-cases (mem_mask mask s.failed)) [
          | inl old ↦ rw (part, old, search_from) (refl, λ _. (f mask old, f))
          | inr new ↦
              rw (part, new, bal, search_from)
                (conclude-SearchGood mask d s (λ e. cc ((==_iff mask (2 ^ length entries - 1)).1 e))
                  rep _
                  (try_each-LoopGood (search_from entries bound max_work should_abort fuel) mask d
                    (λ i next t lt b bal' rep' f' x'.
                      search_from-SearchGood fuel (set_bit mask i) next t
                        (omega (arith, unset-set_bit (length entries) mask i lt b)) bal' rep' f' x')
                    rep 0 entries s (omega arith, λ j. ap (entry_at entries) (omega arith)) f x))
        ]
      ]
