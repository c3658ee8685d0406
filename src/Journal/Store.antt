-- ===== src/Journal/Store.antt =====
-- The tables of the journal, and the statements on them that several operations share.
use zswap_offerfiles_kernel.Prelude.{
  ℕ, ◌+◌, Bool, false, not, Option, none, some, List, [], ◌∷◌, if◌then◌else◌, ltb, length, find_if,
  Result, ok, err, ◌>>◌, throw_if,
}
use zswap_offerfiles_kernel.Prelude.Int.{ℤ, eq_ℤ}
use zswap_offerfiles_kernel.Prelude.Text.{Text, codes, eq_text}
use zswap_offerfiles_kernel.Prelude.Number.{Number, integer, inexact}
use zswap_offerfiles_kernel.Journal.{
  Identity, LifecycleState, ArtifactKind, Receipt, PreparedOperation, TransitionPatch, JournalError,
  capacity, not_found, closed, illegal, Check, max_safe_integer, at_least, require_safe_integer,
  check_fields, require_prepared, validate_transition_patch,
}

-- a row of journal_operations, with its row of journal_receipts
pub record Row : Type 0 where
  pub id : ℕ
  pub identity : Identity
  pub lifecycle_state : LifecycleState
  pub retention_until_ms : Number
  pub wallet_artifact_kind : Option ArtifactKind
  pub wallet_artifact_bytes : Option (List ℕ)
  pub error_code : Option Text
  pub error_detail : Option Text
  pub retry_count : Number
  pub next_retry_at_ms : Option Number
  pub created_at_ms : Number
  pub updated_at_ms : Number
  pub receipt : Receipt

pub data DustState : Type 0 where
  reserved spent released : DustState

-- a row of journal_dust_reservations; the text of the amount is the integer that it spells
pub record DustRow : Type 0 where
  pub operation_key : Text
  pub job_id : Text
  pub generation : Number
  pub amount : ℤ
  pub state : DustState
  pub reserved_at_ms : Number
  pub spent_at_ms : Option Number
  pub updated_at_ms : Number

-- The tables, each in the order of its ids, the next id, and `#closed`.
pub record Journal : Type 0 where
  pub next_id : ℕ
  pub rows : List Row
  pub dust : List DustRow
  pub is_closed : Bool

pub record Options : Type 0 where
  pub max_rows : ℕ
  pub max_bytes : ℕ
  pub max_artifact_bytes : ℕ
  pub reconciliation_margin_ms : Number

abbrev pub no_receipt : Receipt
no_receipt = record {
  relay_job_id = none;
  relay_state = none;
  relay_extrinsic_hash = none;
  ledger_tx_hash = none;
  ledger_height = none;
}

-- the tables that `migrateEmptyDatabase` creates
abbrev pub created : Journal
created = record { next_id = 1; rows = []; dust = []; is_closed = false }

-- `#assertOpen`
unfoldable pub assert_open : Journal → Check
assert_open s = throw_if s.is_closed closed

-- `#now`, of what the clock reads
unfoldable pub check_clock : Number → Check
check_clock now = require_safe_integer (codes "journal clock") (at_least 1) now

abbrev pub has_key : Text → Row → Bool
has_key key r = eq_text r.identity.operation_key key

unfoldable pub find_row : Text → List Row → Option Row
find_row key rows = find_if (has_key key) rows

-- `hydrate`: the checks that a row passes when it is read
abbrev pub prepared_of : Row → PreparedOperation
prepared_of r = record {
  identity = r.identity;
  wallet_artifact_kind = r.wallet_artifact_kind;
  wallet_artifact_bytes = r.wallet_artifact_bytes;
  receipt = some r.receipt;
}

abbrev pub patch_of : Row → TransitionPatch
patch_of r = record {
  wallet_artifact_kind = r.wallet_artifact_kind;
  wallet_artifact_bytes = r.wallet_artifact_bytes;
  receipt = some r.receipt;
  error_code = r.error_code;
  error_detail = r.error_detail;
  retry_count = some r.retry_count;
  next_retry_at_ms = r.next_retry_at_ms;
}

unfoldable pub hydrate : Row → Check
hydrate r = do
  require_prepared max_safe_integer (prepared_of r)
  require_safe_integer (codes "retentionUntilMs") r.identity.ttl_expires_at_ms r.retention_until_ms
  validate_transition_patch max_safe_integer (patch_of r)

-- `require`
unfoldable pub require_row : Text → Journal → Result JournalError Row
unfolding assert_open hydrate find_row
require_row key s =
    assert_open s
    >> elim (find_row key s.rows) [ none ↦ err (not_found key) | some r ↦ hydrate r >> ok r ]

unfoldable pub update_where : (Row → Bool) → (Row → Row) → List Row → List Row
update_where test change [] = []
update_where test change (r ∷ rs) = (if test r then change r else r) ∷ update_where test change rs

-- `COALESCE(new, old)`
abbrev pub coalesce {ℓ} : {A : Type ℓ} → Option A → Option A → Option A
coalesce none old = old
coalesce (some x) old = some x

abbrev pub eq_num : Number → Number → Bool
eq_num (integer a) (integer b) = eq_ℤ a b
eq_num (integer a) inexact = false
eq_num inexact b = false

-- both are there and differ
abbrev pub conflicts {ℓ} : {A : Type ℓ} → (A → A → Bool) → Option A → Option A → Bool
conflicts eq (some x) (some y) = not (eq x y)
conflicts eq (some x) none = false
conflicts eq none y = false

abbrev pub merge_receipts : Receipt → Receipt → Receipt
merge_receipts new old = record {
  relay_job_id = coalesce new.relay_job_id old.relay_job_id;
  relay_state = coalesce new.relay_state old.relay_state;
  relay_extrinsic_hash = coalesce new.relay_extrinsic_hash old.relay_extrinsic_hash;
  ledger_tx_hash = coalesce new.ledger_tx_hash old.ledger_tx_hash;
  ledger_height = coalesce new.ledger_height old.ledger_height;
}

-- `#writeReceipt`, on the receipt of one row
unfoldable pub write_receipt : Receipt → Receipt → Result JournalError Receipt
write_receipt new old = do
  check_fields new
  throw_if (conflicts eq_text new.relay_job_id old.relay_job_id)
      (illegal (codes "receipt.relayJobId"))
  throw_if (conflicts eq_text new.relay_state old.relay_state)
      (illegal (codes "receipt.relayState"))
  throw_if (conflicts eq_text new.relay_extrinsic_hash old.relay_extrinsic_hash)
      (illegal (codes "receipt.relayExtrinsicHash"))
  throw_if (conflicts eq_text new.ledger_tx_hash old.ledger_tx_hash)
      (illegal (codes "receipt.ledgerTxHash"))
  throw_if (conflicts eq_num new.ledger_height old.ledger_height)
      (illegal (codes "receipt.ledgerHeight"))
  ok (merge_receipts new old)

-- `bytes_used` is page_count * page_size, which the database keeps.
module _ (options : Options) (bytes_used : Journal → ℕ) where
  -- `#assertWithinCeilings`
  unfoldable pub assert_within_ceilings : Journal → Check
  assert_within_ceilings s = do
    throw_if (ltb options.max_rows (length s.rows + length s.dust)) (capacity (codes "row ceiling"))
    throw_if (ltb options.max_bytes (bytes_used s)) (capacity (codes "byte ceiling"))
