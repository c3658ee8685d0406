-- ===== src/Journal/History/Tests.antt =====
-- A settlement that is prepared, reserves DUST and is applied.
use zswap_offerfiles_kernel.Prelude.{
  ◌≡◌, ◌≤◌, ℕ, List, refl, subst, true, false, map, length, ◌*◌, none, some, [], ◌∷◌, All, arith,
  ok, Result,
}
use zswap_offerfiles_kernel.Prelude.Int.{pos, neg, ◌+ℤ◌, ◌-ℤ◌, ◌≤ℤ◌}
use zswap_offerfiles_kernel.Prelude.Text.{Text, codes, eq_text, lt_text}
use zswap_offerfiles_kernel.Prelude.Map.{mem, add}
use zswap_offerfiles_kernel.Prelude.Decimal.{is_digit}
use zswap_offerfiles_kernel.Stock.{sort_texts, place_text, add_all}
use zswap_offerfiles_kernel.Journal.{
  prepared, applied, LifecycleState, JournalError, job_settlement, finalized_transaction,
  PreparedOperation, TransitionPatch, at_least, max_safe_integer, is_safe_from,
  require_safe_integer, require_text, is_hex_32, is_canonical_uint, require_unique_sorted_hex,
  each_payout, check_fields, require_receipt, check_identity, check_artifact, require_prepared,
  validate_transition_patch, safe_add,
}
use zswap_offerfiles_kernel.Journal.Store.{
  DustState, Row, Journal, Options, created, no_receipt, assert_open, check_clock, find_row,
  hydrate, require_row, update_where, write_receipt, assert_within_ceilings,
}
use zswap_offerfiles_kernel.Journal.Rows.{Ascends}
use zswap_offerfiles_kernel.Journal.Operations.{
  new_row, with_row, apply_patch, write_given, write_receipt_row, insert_row, create_prepared,
  update_row, move_row, transition_current, transition,
}
use zswap_offerfiles_kernel.Journal.Operations.Receipts.{KeepsReceipt}
use zswap_offerfiles_kernel.Journal.Operations.Evolves.{AreOptions}
use zswap_offerfiles_kernel.Journal.Dust.{
  DustRequest, DustResult, require_positive, cutoff, sum_counted, usage_at, find_dust,
  is_settlement_of, new_dust, with_dust, reserve_new, reserve_dust, move_dust, is_held, move_held,
  hydrate_dust, transition_held, transition_dust, is_kept, prune_dust,
}
use zswap_offerfiles_kernel.Journal.History.{
  Setting, creates, transitions, reserves, moves, prunes_dust, Run, here, later,
}
use zswap_offerfiles_kernel.Journal.History.Soundness.{DistinctKeys, journal_readable}
use zswap_offerfiles_kernel.Journal.History.Lives.{Leads, row_lives}
use zswap_offerfiles_kernel.Journal.Opening.{
  OpenOptions, default_max_rows, default_max_bytes, default_margin_ms, options_of, check_ceilings,
  normalize_options, normalize_options-AreOptions,
}
use zswap_offerfiles_kernel.Journal.Reads.{
  list_operations, hydrate_each, lifecycle_states, counts_by_state, Counted, total,
  counts_by_state-total,
}
use zswap_offerfiles_kernel.Journal.History.Ledger.{Line, spent_then, exposure}
use zswap_offerfiles_kernel.Journal.History.Spending.{
  Paced, opens, waits, calls, spending_within_budget,
}

abbrev hash : Text
hash = codes "00aa00aa00aa00aa00aa00aa00aa00aa00aa00aa00aa00aa00aa00aa00aa00aa"

abbrev setting : Setting
setting = record {
  options = record {
    max_rows = 10;
    max_bytes = 1000;
    max_artifact_bytes = 100;
    reconciliation_margin_ms = at_least 500;
  };
  bytes_used = λ s. 64;
}

options_fine : AreOptions setting.options
unfolding max_safe_integer is_safe_from neg
options_fine = record { artifact = omega arith; margin = refl }

abbrev input : PreparedOperation
input = record {
  identity = record {
    operation_key = codes "settle-1";
    job_id = codes "job-1";
    generation = at_least 0;
    offer_hashes = hash ∷ [];
    claim_inputs = hash ∷ [];
    claim_payouts = (hash, codes "7") ∷ [];
    operation_kind = job_settlement;
    ttl_expires_at_ms = at_least 1000;
    deadline_at_ms = at_least 900;
  };
  wallet_artifact_kind = some finalized_transaction;
  wallet_artifact_bytes = some (1 ∷ 2 ∷ []);
  receipt = none;
}

abbrev patch : TransitionPatch
patch = record {
  wallet_artifact_kind = none;
  wallet_artifact_bytes = none;
  receipt = some (record no_receipt { relay_job_id = some (codes "relay-9") });
  error_code = none;
  error_detail = none;
  retry_count = none;
  next_retry_at_ms = none;
}

abbrev row_1 : Row
row_1 = new_row 1 input (at_least 1500) (at_least 100) no_receipt

abbrev journal_1 : Journal
journal_1 = with_row row_1 created

create_prepared-journal_1 :
    (create_prepared setting.options setting.bytes_used input (at_least 100) created)
    ≡ (ok row_1, journal_1)
unfolding create_prepared insert_row require_prepared check_identity require_unique_sorted_hex
    sort_texts place_text add_all mem add lt_text eq_text each_payout check_artifact require_receipt
    check_fields safe_add is_safe_from max_safe_integer is_hex_32 is_canonical_uint is_digit neg
    ◌+ℤ◌ assert_open check_clock find_row write_given assert_within_ceilings require_row hydrate
    validate_transition_patch require_text require_safe_integer
create_prepared-journal_1 = refl

abbrev request : DustRequest
request = record {
  operation_key = codes "settle-1";
  job_id = codes "job-1";
  generation = at_least 0;
  amount = pos 12;
  max_per_job = pos 15;
  max_per_window = pos 20;
  window_ms = at_least 50;
}

abbrev journal_2 : Journal
journal_2 = with_dust (new_dust request (at_least 110)) journal_1

reserve_dust-journal_2 :
    reserve_dust setting.options setting.bytes_used request (at_least 110) journal_1
    ≡ ok (DustResult.accepted (new_dust request (at_least 110)) (pos 12), journal_2)
unfolding reserve_dust reserve_new require_positive usage_at cutoff sum_counted find_dust
    is_settlement_of find_row eq_text assert_open check_clock assert_within_ceilings require_text
    require_safe_integer is_safe_from max_safe_integer neg ◌+ℤ◌ ◌-ℤ◌
reserve_dust-journal_2 = refl

abbrev row_3 : Row
row_3 = record (apply_patch applied patch (at_least 120) row_1) {
  receipt = record no_receipt { relay_job_id = some (codes "relay-9") };
}

abbrev journal_3 : Journal
journal_3 = record journal_2 { rows = row_3 ∷ [] }

transition-journal_3 :
    transition setting.options setting.bytes_used
      (codes "settle-1")
      prepared
      applied
      patch
      (at_least 120)
      journal_2
    ≡ (ok row_3, journal_3)
unfolding transition transition_current move_row update_row write_receipt_row write_given
    write_receipt update_where require_prepared check_identity require_unique_sorted_hex sort_texts
    place_text add_all mem add lt_text eq_text each_payout check_artifact require_receipt
    check_fields is_safe_from max_safe_integer is_hex_32 is_canonical_uint is_digit neg assert_open
    check_clock find_row assert_within_ceilings require_row hydrate validate_transition_patch
    require_text require_safe_integer
transition-journal_3 = refl

abbrev run_1 : Run setting created journal_1
run_1 =
    subst (λ (t : Result JournalError Row × Journal). Run setting created t.1)
      create_prepared-journal_1 (later here (creates created input))

abbrev run_2 : Run setting created journal_2
run_2 = later run_1 (
    reserves journal_1 journal_2 request
      (DustResult.accepted (new_dust request (at_least 110)) (pos 12)) reserve_dust-journal_2)

abbrev run_3 : Run setting journal_2 journal_3
run_3 =
    subst (λ (t : Result JournalError Row × Journal). Run setting journal_2 t.1)
      transition-journal_3
      (later here (transitions journal_2 (codes "settle-1") prepared applied patch))

journal_readable_example :
    Ascends 0 journal_2.next_id journal_2.rows
    × DistinctKeys journal_2.rows
    × All (λ r. hydrate r ≡ ok tt) journal_2.rows
journal_readable_example = journal_readable options_fine run_2

row_lives_example :
    (row_3.identity ≡ row_1.identity)
    × Leads prepared applied
    × (false ≡ true → applied ≡ prepared)
    × KeepsReceipt row_1.receipt row_3.receipt
row_lives_example = row_lives 1 row_1 row_3 options_fine run_2 run_3 refl refl

-- the reservation is spent, and what is spent is pruned while it still counts
abbrev journal_4 : Journal
journal_4 = record journal_2 {
  dust = move_dust DustState.spent (at_least 120) (new_dust request (at_least 110)) ∷ [];
}

transition_dust-journal_4 :
    transition_dust (codes "settle-1") DustState.spent (at_least 120) journal_2 ≡ ok journal_4
unfolding transition_dust transition_held hydrate_dust find_dust move_held is_held move_dust
    new_dust eq_text assert_open check_clock require_text require_safe_integer is_safe_from
    max_safe_integer neg
transition_dust-journal_4 = refl

prune_dust-journal_4 : prune_dust (at_least 60) (at_least 130) journal_4 ≡ ok journal_4
unfolding prune_dust is_kept cutoff move_dust new_dust assert_open require_safe_integer is_safe_from
    max_safe_integer neg ◌-ℤ◌ ◌+ℤ◌
prune_dust-journal_4 = refl

abbrev spent_line : Line
spent_line = record { key = codes "settle-1"; amount = pos 12; fate = spent_then (at_least 120) }

paced : Paced (pos 20) (pos 50) setting (pos 140) journal_4 (spent_line ∷ [])
unfolding find_dust new_dust eq_text
paced = waits {m = pos 130} (omega arith) (
    calls (prunes_dust journal_4 journal_4 (at_least 60) (at_least 130) prune_dust-journal_4)
      (pos 60, pos 130, refl, refl, omega arith, omega arith)
      (waits {m = pos 120} (omega arith) (
        calls
          (moves journal_2 journal_4 (codes "settle-1") DustState.spent transition_dust-journal_4)
          tt
          (waits {m = pos 110} (omega arith) (
            calls
              (reserves journal_1 journal_2 request
                (DustResult.accepted (new_dust request (at_least 110)) (pos 12))
                reserve_dust-journal_2)
              (refl, refl)
              (waits {m = pos 100} (omega arith) (
                subst
                  (λ (t : Result JournalError Row × Journal).
                    Paced (pos 20) (pos 50) setting (pos 100) t.1 [])
                  create_prepared-journal_1
                  (calls (creates created input) tt (opens (pos 100))))))))))

spending_within_budget_example : exposure (pos 50) (pos 140) (spent_line ∷ []) ≤ℤ pos 20
spending_within_budget_example =
    spending_within_budget (pos 20) (pos 50) options_fine (omega arith) paced

abbrev memory_options : OpenOptions
memory_options = record {
  path = codes ":memory:";
  allow_memory = some true;
  max_rows = none;
  max_bytes = none;
  max_artifact_bytes = some (at_least 512);
  reconciliation_margin_ms = none;
}

abbrev memory_ceilings : Options
memory_ceilings = options_of default_max_rows default_max_bytes (at_least 512) default_margin_ms

normalize_options-memory : normalize_options memory_options ≡ ok memory_ceilings
unfolding normalize_options check_ceilings require_text require_safe_integer is_safe_from
    max_safe_integer neg eq_text
normalize_options-memory = refl

normalize_options-AreOptions_example :
    AreOptions memory_ceilings
    × (memory_ceilings.max_artifact_bytes ≤ memory_ceilings.max_bytes)
    × (64 * 1024 ≤ memory_ceilings.max_bytes)
    × (1 ≤ memory_ceilings.max_rows)
normalize_options-AreOptions_example =
    normalize_options-AreOptions memory_options memory_ceilings normalize_options-memory

list_operations-journal_2 : list_operations journal_2 ≡ ok journal_2.rows
unfolding list_operations hydrate_each hydrate assert_open require_prepared max_safe_integer neg
    is_hex_32 sort_texts add_all add validate_transition_patch
list_operations-journal_2 = refl

counts_by_state-total_example :
    (counts : List (LifecycleState × ℕ)) × (counts_by_state journal_2 ≡ ok counts)
    × (map (λ c. c.0) counts ≡ lifecycle_states)
    × All (λ c. Counted c.0 journal_2.rows c.1) counts
    × (total counts ≡ length journal_2.rows)
counts_by_state-total_example = counts_by_state-total journal_2 refl
