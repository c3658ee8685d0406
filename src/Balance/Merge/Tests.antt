-- ===== src/Balance/Merge/Tests.antt =====
-- Merge orders of two makers, and the bits of masks beside the native operations.
use Prim.Native.Nat.{bit_and, bit_or}
use zswap_offerfiles_kernel.Prelude.{
  ℕ, zero, suc, ◌^◌, ◌≡◌, refl, ◌&&◌, not, Bool, true, List, [], ◌∷◌, ◌==◌, ok, some, none, length,
  map, if◌then◌else◌,
}
use zswap_offerfiles_kernel.Prelude.Int.{ℤ, pos, ◌+ℤ◌, ◌-ℤ◌, neg}
use zswap_offerfiles_kernel.Prelude.Text.{Text, codes, eq_text, lt_text, to_lower, is_hex64}
use zswap_offerfiles_kernel.Prelude.Map.{lookup, insert, erase, add}
use zswap_offerfiles_kernel.Balance.{
  account, rows_of, sort_entries, max_settlement_amount, canonical_token,
}
use zswap_offerfiles_kernel.Balance.Merge.{
  MergeSource, MergeEntry, MergeOptions, ordered, unordered, unsafe_merge_order, find_safe_order,
  delta_option, merge_entries, merge_entry, sort_hashes, place_entry, hash_set, hash_at,
  order_entries, fast_path, search_from, try_each, after_child, conclude, balances_at, mem_mask,
  add_net_rows, value_at, put_value, is_over, initial, report, failure_reason, bounded_option,
  interruption, has_bit, set_bit, drop_last,
}
use zswap_offerfiles_kernel.Balance.Merge.Orders.{IsMergeOrder}
use zswap_offerfiles_kernel.Balance.Merge.Safety.{HasSafePrefixes}
use zswap_offerfiles_kernel.Balance.Merge.Outcomes.{find_safe_order_sound, find_safe_order_complete}

all_below : ℕ → (ℕ → Bool) → Bool
all_below zero p = true
all_below (suc n) p = p n && all_below n p

bits_agree : ℕ → ℕ → Bool
unfolding has_bit set_bit
bits_agree mask i =
    if has_bit mask i
    then not (bit_and mask (2 ^ i) == 0) && set_bit mask i == bit_or mask (2 ^ i)
    else bit_and mask (2 ^ i) == 0 && set_bit mask i == bit_or mask (2 ^ i)

-- For the masks of eight makers the recursions are the operations `&` and `|`.
bits_of_byte : all_below 256 (λ mask. all_below 8 (bits_agree mask)) ≡ true
unfolding all_below bits_agree
bits_of_byte = refl

abbrev x : Text
x = codes "1111111111111111111111111111111111111111111111111111111111111111"

abbrev y : Text
y = codes "2222222222222222222222222222222222222222222222222222222222222222"

abbrev z : Text
z = codes "3333333333333333333333333333333333333333333333333333333333333333"

abbrev t : Text
t = codes "aaaaaaaaaaaaaaaaaaaaaaaaaaaaaaaaaaaaaaaaaaaaaaaaaaaaaaaaaaaaaaaa"

gives_3 : Text → MergeSource
gives_3 h = record {
  offer_hash = h;
  source = record { gives = record { token = t; amount = pos 3 } ∷ []; wants = [] };
}

wants_3 : Text → MergeSource
wants_3 h = record {
  offer_hash = h;
  source = record { gives = []; wants = record { token = t; amount = pos 3 } ∷ [] };
}

abbrev within_3 : MergeOptions
within_3 = record {
  maximum_delta = some (pos 3);
  max_sources = none;
  max_work = none;
  should_abort = none;
}

-- By the hashes the two givers come first, and their sum is out of range.
abbrev reordered : List MergeSource
reordered = gives_3 x ∷ gives_3 y ∷ wants_3 z ∷ []

order_reordered : find_safe_order reordered within_3 ≡ ok (ordered (x ∷ z ∷ y ∷ []) true 4)
unfolding find_safe_order gives_3 wants_3 delta_option bounded_option merge_entries merge_entry
    sort_hashes place_entry hash_set hash_at order_entries fast_path search_from after_child
    conclude balances_at mem_mask add_net_rows value_at put_value is_over initial report
    interruption has_bit set_bit drop_last account rows_of sort_entries max_settlement_amount
    canonical_token lookup insert erase add lt_text eq_text to_lower is_hex64 ◌+ℤ◌ ◌-ℤ◌ neg
    failure_reason try_each
order_reordered = refl

find_safe_order_sound_example :
    (unsorted : List MergeEntry) × (bound : ℤ) × (is : List ℕ) × (merge_entries reordered
      ≡ ok unsorted)
    × (delta_option (some (pos 3)) ≡ ok bound)
    × IsMergeOrder (length (sort_hashes unsorted)) is
    × (x ∷ z ∷ y ∷ [] ≡ map (hash_at (sort_hashes unsorted)) is)
    × HasSafePrefixes (sort_hashes unsorted) bound is
find_safe_order_sound_example =
    find_safe_order_sound reordered within_3 (x ∷ z ∷ y ∷ []) true 4 order_reordered

-- Two givers of 3 are out of range in either order.
abbrev givers : List MergeSource
givers = gives_3 x ∷ gives_3 y ∷ []

order_givers : find_safe_order givers within_3 ≡ ok (unordered unsafe_merge_order 4)
unfolding find_safe_order gives_3 wants_3 delta_option bounded_option merge_entries merge_entry
    sort_hashes place_entry hash_set hash_at order_entries fast_path search_from after_child
    conclude balances_at mem_mask add_net_rows value_at put_value is_over initial report
    interruption has_bit set_bit drop_last account rows_of sort_entries max_settlement_amount
    canonical_token lookup insert erase add lt_text eq_text to_lower is_hex64 ◌+ℤ◌ ◌-ℤ◌ neg
    failure_reason try_each
order_givers = refl

find_safe_order_complete_example :
    (unsorted : List MergeEntry) × (bound : ℤ) × (merge_entries givers ≡ ok unsorted)
    × (delta_option (some (pos 3)) ≡ ok bound)
    × ((is : List ℕ)
        → IsMergeOrder (length (sort_hashes unsorted)) is
        → ¬ HasSafePrefixes (sort_hashes unsorted) bound is)
find_safe_order_complete_example = find_safe_order_complete givers within_3 4 order_givers
