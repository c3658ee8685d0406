-- ===== src/Balance/Merge.antt =====
-- findSafeWholeOfferMergeOrder of packages/solver-core/whole-offer-balance.ts.
pub mod Bits
pub mod Values
pub mod Search
pub mod Orders
pub mod Safety
pub mod Bounds
pub mod Outcomes
mod Tests
use zswap_offerfiles_kernel.Prelude.{
  ℕ, zero, suc, ◌+◌, ◌-◌, ◌*◌, ◌/◌, ◌%◌, ◌^◌, Bool, true, false, not, ◌&&◌, ◌||◌, Option, none,
  some, List, [], ◌∷◌, ◌++◌, if◌then◌else◌, ltb, leb, ◌==◌, length, Result, ok, err, ◌>>=◌, ◌>>◌,
  throw_if, map,
}
use zswap_offerfiles_kernel.Prelude.Int.{ℤ, pos, negsuc, ◌+ℤ◌, neg, ltb_ℤ, leb_ℤ, eq_ℤ}
use zswap_offerfiles_kernel.Prelude.Number.{Number, integer, inexact}
use zswap_offerfiles_kernel.Prelude.Text.{Text, lt_text}
use zswap_offerfiles_kernel.Prelude.Map.{Dict, lookup, insert, erase, add}
use zswap_offerfiles_kernel.Balance.{
  Failure, bad_maximum_delta, bad_max_sources, bad_max_work, duplicate_offer_hash, Source,
  TokenBalance, canonical_token, account, max_settlement_amount,
}

-- `MAX_PHYSICAL_MAKERS_PER_MERGE`
abbrev pub max_makers : ℕ
max_makers = 8

-- `MAX_SAFE_MERGE_ORDER_WORK`
abbrev pub max_order_work : ℕ
max_order_work = max_makers * 2 ^ (max_makers - 1)

pub record MergeSource : Type 0 where
  pub offer_hash : Text
  pub source : Source

-- What `shouldAbort` does at one call.
pub data AbortCheck : Type 0 where
  goes_on aborts throws : AbortCheck

-- `should_abort` answers by the number of transitions made so far.
pub record MergeOptions : Type 0 where
  pub maximum_delta : Option ℤ
  pub max_sources : Option Number
  pub max_work : Option Number
  pub should_abort : Option (ℕ → AbortCheck)

-- `interruptReason`
pub data Interrupt : Type 0 where
  aborted abort_check_failed : Interrupt

pub data MergeReason : Type 0 where
  too_many_sources unsafe_merge_order work_cap : MergeReason
  interrupted : Interrupt → MergeReason

pub data MergeOrder : Type 0 where
  ordered : List Text → (used_fallback : Bool) → (work : ℕ) → MergeOrder
  unordered : MergeReason → (work : ℕ) → MergeOrder

pub record MergeEntry : Type 0 where
  pub offer_hash : Text
  pub rows : List TokenBalance

-- `next.get(token) ?? 0n`
pub value_at : Text → Dict ℤ → ℤ
value_at t d = elim (lookup t d) [ none ↦ pos 0 | some v ↦ v ]

pub put_value : Text → ℤ → Dict ℤ → Dict ℤ
put_value t v d = if eq_ℤ v (pos 0) then erase t d else insert t v d

pub is_over : ℤ → ℤ → Bool
is_over bound amount = ltb_ℤ amount (neg bound) || ltb_ℤ bound amount

-- `addNetRows`; `none` is the `null` of an amount outside the signed deltas
pub add_net_rows : ℤ → List TokenBalance → Dict ℤ → Option (Dict ℤ)
add_net_rows bound [] next = some next
add_net_rows bound (r ∷ rs) next =
    let amount = value_at r.token next +ℤ r.net in
    let rest = add_net_rows bound rs (put_value r.token amount next) in
    if is_over bound amount then none else rest

-- `(mask & (1 << index)) !== 0`
pub has_bit : ℕ → ℕ → Bool
has_bit mask zero = mask % 2 == 1
has_bit mask (suc i) = has_bit (mask / 2) i

-- `mask | (1 << index)`
pub set_bit : ℕ → ℕ → ℕ
set_bit mask zero = if mask % 2 == 1 then mask else mask + 1
set_bit mask (suc i) = set_bit (mask / 2) i * 2 + mask % 2

pub record SearchState : Type 0 where
  pub failed : List ℕ
  pub balances_by_mask : List (ℕ × Dict ℤ)
  pub path : List ℕ
  pub work : ℕ
  pub exhausted : Bool
  pub interrupt : Option Interrupt

pub mem_mask : ℕ → List ℕ → Bool
mem_mask mask [] = false
mem_mask mask (m ∷ ms) = m == mask || mem_mask mask ms

-- `balancesByMask.get(mask)`, newest entry first; a copy of a missing map is empty
pub balances_at : ℕ → List (ℕ × Dict ℤ) → Dict ℤ
balances_at mask [] = []
balances_at mask ((m, d) ∷ ms) = if m == mask then d else balances_at mask ms

-- `path.pop()`
pub drop_last : List ℕ → List ℕ
drop_last [] = []
drop_last (i ∷ []) = []
drop_last (i ∷ j ∷ is) = i ∷ drop_last (j ∷ is)

-- How the loop over the entries ends: a full order is found, the search is to stop, or every entry
-- has been tried.
pub data Outcome : Type 0 where
  found stopped swept : Outcome

-- the consultation of `shouldAbort`, at every 256th transition
pub interruption : Option (ℕ → AbortCheck) → ℕ → Option Interrupt
interruption none work = none
interruption (some check) work =
    if work % 256 == 0
    then elim (check work) [
      | goes_on ↦ none
      | aborts ↦ some aborted
      | throws ↦ some abort_check_failed
    ]
    else none

-- `if (exhausted) return false;` behind `path.pop()`
pub resume : (SearchState → Outcome × SearchState) → SearchState → Bool → Outcome × SearchState
resume go_on s true = (stopped, s)
resume go_on s false = go_on s

-- the rest of a round once the recursive call is back
pub after_child : (SearchState → Outcome × SearchState) → Bool × SearchState → Outcome × SearchState
unfolding resume
after_child go_on (true, t) = (found, t)
after_child go_on (false, t) = resume go_on (record t { path = drop_last t.path }) t.exhausted

-- what `search` returns after its loop
pub conclude : ℕ → Outcome × SearchState → Bool × SearchState
conclude mask (found, s) = (true, s)
conclude mask (stopped, s) = (false, s)
conclude mask (swept, s) = (false, record s { failed = mask ∷ s.failed })

module _ (entries : List MergeEntry) (bound : ℤ) (max_work : ℕ)
    (should_abort : Option (ℕ → AbortCheck)) where
  -- the loop of `search` from one index on; `child` is the recursive call
  pub try_each :
      (ℕ → SearchState → Bool × SearchState)
      → ℕ
      → Dict ℤ
      → ℕ
      → List MergeEntry
      → SearchState
      → Outcome × SearchState
  try_each child mask balances index [] s = (swept, s)
  try_each child mask balances index (e ∷ es) s = elim (has_bit mask index) [
    | true ↦ try_each child mask balances (suc index) es s
    | false ↦ elim (leb max_work s.work) [
      | true ↦ (stopped, record s { exhausted = true })
      | false ↦ elim (interruption should_abort (s.work + 1)) [
        | some reason ↦
            (stopped, record s { work = s.work + 1; exhausted = true; interrupt = some reason })
        | none ↦ elim (add_net_rows bound e.rows balances) [
          | none ↦ try_each child mask balances (suc index) es (record s { work = s.work + 1 })
          | some next ↦
              let next_mask = set_bit mask index in
              after_child (λ t. try_each child mask balances (suc index) es t)
                (child next_mask (record s {
                  work = s.work + 1;
                  balances_by_mask = (next_mask, next) ∷ s.balances_by_mask;
                  path = s.path ++ index ∷ [];
                }))
        ]
      ]
    ]
  ]

  -- `search`; a call sets one more bit, so that one more fuel than there are entries is enough
  pub search_from : ℕ → ℕ → SearchState → Bool × SearchState
  search_from zero mask s = (false, s)
  search_from (suc fuel) mask s = elim (mask == 2 ^ length entries - 1) [
    | true ↦ (true, s)
    | false ↦ elim (mem_mask mask s.failed) [
      | true ↦ (false, s)
      | false ↦
          conclude mask
            (try_each (search_from fuel) mask (balances_at mask s.balances_by_mask) 0 entries s)
    ]
  ]

-- the first pass, in the order of the hashes
pub fast_path : ℤ → List MergeEntry → Dict ℤ → Bool
fast_path bound [] balances = true
fast_path bound (e ∷ es) balances = elim (add_net_rows bound e.rows balances) [
  | none ↦ false
  | some next ↦ fast_path bound es next
]

pub initial : SearchState
initial = record {
  failed = [];
  balances_by_mask = (0, []) ∷ [];
  path = [];
  work = 0;
  exhausted = false;
  interrupt = none;
}

-- `ordered[index]!.offerHash`
pub hash_at : List MergeEntry → ℕ → Text
hash_at [] i = []
hash_at (e ∷ es) zero = e.offer_hash
hash_at (e ∷ es) (suc i) = hash_at es i

pub failure_reason : SearchState → MergeReason
failure_reason s = elim s.interrupt [
  | some reason ↦ interrupted reason
  | none ↦ if s.exhausted then work_cap else unsafe_merge_order
]

pub report : List MergeEntry → Bool × SearchState → MergeOrder
report entries (true, s) = ordered (map (hash_at entries) s.path) true s.work
report entries (false, s) = unordered (failure_reason s) s.work

-- the order of the entries, by the two passes
pub order_entries : List MergeEntry → ℤ → ℕ → Option (ℕ → AbortCheck) → MergeOrder
order_entries entries bound max_work should_abort =
    if fast_path bound entries []
    then ordered (map (λ e. e.offer_hash) entries) false 0
    else report entries
        (search_from entries bound max_work should_abort (suc (length entries)) 0 initial)

-- `canonicalToken` of the hash and the rows of one source
pub merge_entry : MergeSource → Result Failure MergeEntry
merge_entry m = do
  hash ← canonical_token m.offer_hash
  rows ← account (m.source ∷ [])
  ok (record { offer_hash = hash; rows = rows })

pub merge_entries : List MergeSource → Result Failure (List MergeEntry)
merge_entries [] = ok []
merge_entries (m ∷ ms) = do e ← merge_entry m; es ← merge_entries ms; ok (e ∷ es)

pub place_entry : MergeEntry → List MergeEntry → List MergeEntry
place_entry e [] = e ∷ []
place_entry e (f ∷ fs) =
    if lt_text f.offer_hash e.offer_hash then f ∷ place_entry e fs else e ∷ f ∷ fs

pub sort_hashes : List MergeEntry → List MergeEntry
sort_hashes [] = []
sort_hashes (e ∷ es) = place_entry e (sort_hashes es)

-- `new Set(hashes)`
pub hash_set : List MergeEntry → List Text → List Text
hash_set [] seen = seen
hash_set (e ∷ es) seen = hash_set es (add e.offer_hash seen)

-- an option that must be a safe integer from `low` to `high`, or the default
pub bounded_option : ℕ → ℕ → ℕ → Failure → Option Number → Result Failure ℕ
bounded_option default low high failure none = ok default
bounded_option default low high failure (some inexact) = err failure
bounded_option default low high failure (some (integer (negsuc n))) = err failure
bounded_option default low high failure (some (integer (pos n))) =
    if ltb n low || ltb high n then err failure else ok n

pub delta_option : Option ℤ → Result Failure ℤ
delta_option none = ok (pos max_settlement_amount)
delta_option (some delta) =
    if leb_ℤ delta (pos 0) || ltb_ℤ (pos max_settlement_amount) delta
    then err bad_maximum_delta
    else ok delta

-- the merge order once the options are read
pub order_sources :
    List MergeSource → ℤ → ℕ → ℕ → Option (ℕ → AbortCheck) → Result Failure MergeOrder
order_sources sources bound max_sources max_work should_abort =
    let found_order = merge_entries sources >>= λ unsorted.
    let entries = sort_hashes unsorted in
    throw_if (not (length (hash_set entries []) == length entries)) duplicate_offer_hash
    >> ok (order_entries entries bound max_work should_abort) in
    if ltb max_sources (length sources) then ok (unordered too_many_sources 0) else found_order

-- `findSafeWholeOfferMergeOrder`
pub find_safe_order : List MergeSource → MergeOptions → Result Failure MergeOrder
unfolding order_sources
find_safe_order sources options = do
  bound ← delta_option options.maximum_delta
  max_sources ← bounded_option max_makers 1 max_makers bad_max_sources options.max_sources
  max_work ← bounded_option max_order_work 0 max_order_work bad_max_work options.max_work
  order_sources sources bound max_sources max_work options.should_abort
