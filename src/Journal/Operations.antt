-- ===== src/Journal/Operations.antt =====
-- The operations on the rows of the journal.
pub mod Receipts
pub mod Evolves
pub mod Effects
use zswap_offerfiles_kernel.Prelude.{
  ℕ, suc, zero, ◌+◌, ◌-◌, Bool, true, false, not, ◌&&◌, ◌||◌, Option, none, some, List, [], ◌∷◌,
  ◌++◌, if◌then◌else◌, ltb, ◌==◌, length, any_of, keep_if, Result, ok, err, ◌>>=◌, ◌>>◌, throw_if,
}
use zswap_offerfiles_kernel.Prelude.Text.{Text, codes, eq_text}
use zswap_offerfiles_kernel.Prelude.Number.{Number}
use zswap_offerfiles_kernel.Journal.{
  LifecycleState, prepared, ArtifactKind, Receipt, PreparedOperation, TransitionPatch, JournalError,
  cas_conflict, illegal, constraint, not_found, Check, at_least, is_terminal, eq_state, is_allowed,
  lt_num, le_num, is_given, max_safe_integer, require_text, require_safe_integer, check_fields,
  require_prepared, validate_transition_patch, safe_add, finalized_transaction,
  unproven_transaction,
}
use zswap_offerfiles_kernel.Journal.Store.{
  Row, DustRow, Journal, Options, no_receipt, assert_open, check_clock, has_key, find_row,
  require_row, update_where, coalesce, eq_num, conflicts, write_receipt, assert_within_ceilings,
}

-- what a transaction leaves: a throw rolls it back
abbrev pub committed :
    Text → Journal → Result JournalError Journal → Result JournalError Row × Journal
committed key s (err e) = (err e, s)
committed key s (ok t) = (require_row key t, t)

-- the receipt that goes with an INSERT or an UPDATE, if there is one
unfoldable pub write_given : Option Receipt → Receipt → Result JournalError Receipt
write_given none old = ok old
write_given (some new) old = write_receipt new old

abbrev pub same_id : ℕ → Row → Bool
same_id id r = r.id == id

-- `#writeReceipt`, of the row with a key
unfoldable pub write_receipt_row : Text → Option Receipt → List Row → Result JournalError (List Row)
unfolding write_given
write_receipt_row key receipt rows = elim (find_row key rows) [
  | none ↦ err (not_found key)
  | some r ↦ write_given receipt r.receipt >>= λ merged.
      ok (update_where (same_id r.id) (λ x. record x { receipt = merged }) rows)
]

-- The row that `createPrepared` inserts.
abbrev pub new_row : ℕ → PreparedOperation → Number → Number → Receipt → Row
new_row id input retention now receipt = record {
  id = id;
  identity = input.identity;
  lifecycle_state = prepared;
  retention_until_ms = retention;
  wallet_artifact_kind = input.wallet_artifact_kind;
  wallet_artifact_bytes = input.wallet_artifact_bytes;
  error_code = none;
  error_detail = none;
  retry_count = at_least 0;
  next_retry_at_ms = none;
  created_at_ms = now;
  updated_at_ms = now;
  receipt = receipt;
}

abbrev pub with_row : Row → Journal → Journal
with_row r s = record s { next_id = s.next_id + 1; rows = s.rows ++ r ∷ [] }

abbrev pub or_number : Option Number → Number → Number
or_number none old = old
or_number (some n) old = n

-- the SET of the UPDATE in `transition`
abbrev pub apply_patch : LifecycleState → TransitionPatch → Number → Row → Row
apply_patch next patch now r = record r {
  lifecycle_state = next;
  wallet_artifact_kind = coalesce patch.wallet_artifact_kind r.wallet_artifact_kind;
  wallet_artifact_bytes = coalesce patch.wallet_artifact_bytes r.wallet_artifact_bytes;
  error_code = coalesce patch.error_code r.error_code;
  error_detail = coalesce patch.error_detail r.error_detail;
  retry_count = or_number patch.retry_count r.retry_count;
  next_retry_at_ms = coalesce patch.next_retry_at_ms r.next_retry_at_ms;
  updated_at_ms = now;
}

-- the WHERE of the UPDATE in `transition`
abbrev pub in_state : Text → LifecycleState → Row → Bool
in_state key state r = has_key key r && eq_state r.lifecycle_state state

-- `CHECK (updated_at_ms >= created_at_ms)`, of the rows that an UPDATE sets
abbrev pub before_creation : (Row → Bool) → Number → List Row → Bool
before_creation test now rows = any_of (λ r. test r && lt_num now r.created_at_ms) rows

unfoldable pub eq_kind : ArtifactKind → ArtifactKind → Bool
eq_kind finalized_transaction finalized_transaction = true
eq_kind finalized_transaction unproven_transaction = false
eq_kind unproven_transaction finalized_transaction = false
eq_kind unproven_transaction unproven_transaction = true

-- `expected !== undefined && expected !== actual`
abbrev pub differs {ℓ} : {A : Type ℓ} → (A → A → Bool) → Option A → Option A → Bool
differs eq none actual = false
differs eq (some x) none = true
differs eq (some x) (some y) = not (eq x y)

abbrev pub same_receipt : Option Receipt → Receipt → Check
same_receipt none current = ok tt
same_receipt (some r) current = do
  throw_if (differs eq_text r.relay_job_id current.relay_job_id)
      (illegal (codes "receipt.relayJobId"))
  throw_if (differs eq_text r.relay_state current.relay_state)
      (illegal (codes "receipt.relayState"))
  throw_if (differs eq_text r.relay_extrinsic_hash current.relay_extrinsic_hash)
      (illegal (codes "receipt.relayExtrinsicHash"))
  throw_if (differs eq_text r.ledger_tx_hash current.ledger_tx_hash)
      (illegal (codes "receipt.ledgerTxHash"))
  throw_if (differs eq_num r.ledger_height current.ledger_height)
      (illegal (codes "receipt.ledgerHeight"))

-- `assertIdempotentTerminalPatch`; bytes are numbers, compared as the characters of a text are
unfoldable pub assert_idempotent : Row → TransitionPatch → Check
unfolding eq_kind
assert_idempotent r patch = do
  validate_transition_patch max_safe_integer patch
  throw_if (differs eq_kind patch.wallet_artifact_kind r.wallet_artifact_kind)
      (illegal (codes "walletArtifactKind"))
  throw_if (differs eq_text patch.error_code r.error_code) (illegal (codes "errorCode"))
  throw_if (differs eq_text patch.error_detail r.error_detail) (illegal (codes "errorDetail"))
  throw_if (differs eq_num patch.retry_count (some r.retry_count)) (illegal (codes "retryCount"))
  throw_if (differs eq_num patch.next_retry_at_ms r.next_retry_at_ms)
      (illegal (codes "nextRetryAtMs"))
  throw_if (differs eq_text patch.wallet_artifact_bytes r.wallet_artifact_bytes)
      (illegal (codes "walletArtifactBytes"))
  same_receipt patch.receipt r.receipt

-- the DELETE with its LIMIT, and how many rows it deletes
unfoldable pub prune_rows : ℕ → (Row → Bool) → List Row → List Row
prune_rows zero test rows = rows
prune_rows (suc limit) test [] = []
prune_rows (suc limit) test (r ∷ rs) =
    if test r then prune_rows limit test rs else r ∷ prune_rows (suc limit) test rs

-- the rows that `pruneTerminal` may delete
abbrev pub is_prunable : Number → List DustRow → Row → Bool
is_prunable now dust r =
    is_terminal r.lifecycle_state
    && (le_num r.retention_until_ms now
        && not (any_of (λ d. eq_text d.operation_key r.identity.operation_key) dust))

abbrev pub pruned : Number → Journal → Journal
pruned now s = record s { rows = prune_rows 1000 (is_prunable now s.dust) s.rows }

module _ (options : Options) (bytes_used : Journal → ℕ) where
  -- the transaction of `createPrepared`
  unfoldable pub insert_row : PreparedOperation → Number → Journal → Result JournalError Journal
  unfolding write_given
  insert_row input now s = do
    assert_open s
    require_prepared options.max_artifact_bytes input
    check_clock now
    retention ←
        safe_add (codes "retentionUntilMs") input.identity.ttl_expires_at_ms
          options.reconciliation_margin_ms
    throw_if (is_given (find_row input.identity.operation_key s.rows))
        (constraint (codes "operation_key"))
    receipt ← write_given input.receipt no_receipt
    assert_within_ceilings options bytes_used
        (with_row (new_row s.next_id input retention now receipt) s)
    ok (with_row (new_row s.next_id input retention now receipt) s)

  -- `createPrepared`
  unfoldable pub create_prepared :
      PreparedOperation → Number → Journal → Result JournalError Row × Journal
  unfolding insert_row
  create_prepared input now s = committed input.identity.operation_key s (insert_row input now s)

  -- the transaction of `transition`
  unfoldable pub update_row :
      Text
      → LifecycleState
      → LifecycleState
      → TransitionPatch
      → Number
      → Journal
      → Result JournalError Journal
  unfolding write_receipt_row
  update_row key expected next patch now s = do
    throw_if (before_creation (in_state key expected) now s.rows)
        (constraint (codes "updated_at_ms"))
    throw_if (not (length (keep_if (in_state key expected) s.rows) == 1)) (cas_conflict key)
    rows ←
        write_receipt_row key patch.receipt
          (update_where (in_state key expected) (apply_patch next patch now) s.rows)
    assert_within_ceilings options bytes_used (record s { rows = rows })
    ok (record s { rows = rows })

  -- the checks and the transaction of a transition that is not a repetition
  unfoldable pub move_row :
      Text
      → Row
      → LifecycleState
      → LifecycleState
      → TransitionPatch
      → Number
      → Journal
      → Result JournalError Journal
  unfolding update_row
  move_row key current expected next patch now s = do
    throw_if (not (eq_state current.lifecycle_state expected)) (cas_conflict key)
    throw_if (not (is_allowed expected next)) (illegal key)
    validate_transition_patch options.max_artifact_bytes patch
    check_clock now
    update_row key expected next patch now s

  -- `transition`, of the row that `require` reads
  unfoldable pub transition_current :
      Text
      → LifecycleState
      → LifecycleState
      → TransitionPatch
      → Number
      → Journal
      → Result JournalError Row
      → Result JournalError Row × Journal
  unfolding move_row assert_idempotent
  transition_current key expected next patch now s (err e) = (err e, s)
  transition_current key expected next patch now s (ok current) =
      if eq_state current.lifecycle_state next && is_terminal next
      then ((assert_idempotent current patch >> ok current), s)
      else committed key s (move_row key current expected next patch now s)

  -- `transition`; an unknown state is no value of the type
  unfoldable pub transition :
      Text
      → LifecycleState
      → LifecycleState
      → TransitionPatch
      → Number
      → Journal
      → Result JournalError Row × Journal
  unfolding transition_current
  transition key expected next patch now s =
      transition_current key expected next patch now s
        (assert_open s >> (require_text (codes "operationKey") 512 key >> require_row key s))

  -- the transaction of `recordReceipt`
  unfoldable pub update_receipt : Text → Receipt → Number → Journal → Result JournalError Journal
  unfolding write_receipt_row
  update_receipt key receipt now s = do
    assert_open s
    require_text (codes "operationKey") 512 key
    check_fields receipt
    check_clock now
    rows ← write_receipt_row key (some receipt) s.rows
    throw_if (before_creation (has_key key) now rows) (constraint (codes "updated_at_ms"))
    let touched = record s {
      rows = update_where (has_key key) (λ r. record r { updated_at_ms = now }) rows;
    }
    assert_within_ceilings options bytes_used touched
    ok touched

  -- `recordReceipt`
  pub record_receipt : Text → Receipt → Number → Journal → Result JournalError Row × Journal
  unfolding update_receipt
  record_receipt key receipt now s = committed key s (update_receipt key receipt now s)

  -- the DELETE of `pruneTerminal`, if there is a candidate
  unfoldable pub prune_candidates : Number → Journal → Result JournalError (ℕ × Journal)
  unfolding prune_rows
  prune_candidates now s =
      if not (any_of (is_prunable now s.dust) s.rows)
      then ok (0, s)
      else assert_within_ceilings options bytes_used (pruned now s)
        >> ok (length s.rows - length (pruned now s).rows, pruned now s)

  -- `pruneTerminal`: how many rows it deletes, and what is left
  unfoldable pub prune_terminal : Number → Journal → Result JournalError (ℕ × Journal)
  unfolding prune_candidates
  prune_terminal now s = do
    assert_open s
    require_safe_integer (codes "prune nowMs") (at_least 1) now
    prune_candidates now s
