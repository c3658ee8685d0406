-- ===== src/Journal.antt =====
-- The solver's operation journal, packages/solver/src/operation-journal.ts: its data and its checks.
pub mod Store
pub mod Readable
pub mod Rows
pub mod Operations
pub mod Dust
pub mod History
pub mod Opening
pub mod Reads
use zswap_offerfiles_kernel.Prelude.{
  ℕ, ◌-◌, ◌^◌, Bool, true, false, not, ◌&&◌, ◌||◌, Option, none, some, List, [], ◌∷◌, if◌then◌else◌,
  ltb, leb, ◌==◌, length, all_of, any_of, Result, ok, err, ◌>>=◌, ◌>>◌, throw_if,
}
use zswap_offerfiles_kernel.Prelude.Int.{ℤ, pos, negsuc, ◌+ℤ◌, ltb_ℤ, leb_ℤ, neg}
use zswap_offerfiles_kernel.Prelude.Text.{Text, codes, eq_text}
use zswap_offerfiles_kernel.Prelude.Map.{Dict}
use zswap_offerfiles_kernel.Prelude.Decimal.{is_digit}
use zswap_offerfiles_kernel.Prelude.Number.{Number, integer, inexact}
use zswap_offerfiles_kernel.Stock.{sort_texts, add_all}

pub data OperationKind : Type 0 where
  mirror_reservation mirror_revert residual_build dust_balance : OperationKind
  finalized_contribution job_settlement job_revert : OperationKind

pub data LifecycleState : Type 0 where
  prepared applied awaiting_relay relay_submitted confirming reverting : LifecycleState
  settled reverted failed quarantined : LifecycleState

pub data ArtifactKind : Type 0 where
  finalized_transaction unproven_transaction : ArtifactKind

-- `TERMINAL_STATES.has`
abbrev pub is_terminal : LifecycleState → Bool
is_terminal settled = true
is_terminal reverted = true
is_terminal failed = true
is_terminal prepared = false
is_terminal applied = false
is_terminal awaiting_relay = false
is_terminal relay_submitted = false
is_terminal confirming = false
is_terminal reverting = false
is_terminal quarantined = false

-- the position in `LIFECYCLE_STATES`
abbrev pub state_index : LifecycleState → ℕ
state_index prepared = 0
state_index applied = 1
state_index awaiting_relay = 2
state_index relay_submitted = 3
state_index confirming = 4
state_index reverting = 5
state_index settled = 6
state_index reverted = 7
state_index failed = 8
state_index quarantined = 9

abbrev pub eq_state : LifecycleState → LifecycleState → Bool
eq_state a b = state_index a == state_index b

-- `allowedTransitions`
abbrev pub allowed_transitions : LifecycleState → List LifecycleState
allowed_transitions prepared = applied ∷ failed ∷ reverting ∷ reverted ∷ quarantined ∷ []
allowed_transitions applied = awaiting_relay ∷ confirming ∷ reverting ∷ quarantined ∷ []
allowed_transitions awaiting_relay = relay_submitted ∷ reverting ∷ quarantined ∷ []
allowed_transitions relay_submitted = confirming ∷ settled ∷ quarantined ∷ []
allowed_transitions confirming = settled ∷ reverting ∷ quarantined ∷ []
allowed_transitions reverting = reverted ∷ quarantined ∷ []
allowed_transitions quarantined = confirming ∷ reverting ∷ settled ∷ reverted ∷ []
allowed_transitions settled = []
allowed_transitions reverted = []
allowed_transitions failed = []

abbrev pub is_allowed : LifecycleState → LifecycleState → Bool
is_allowed from to = any_of (λ s. eq_state s to) (allowed_transitions from)

pub record Receipt : Type 0 where
  pub relay_job_id : Option Text
  pub relay_state : Option Text
  pub relay_extrinsic_hash : Option Text
  pub ledger_tx_hash : Option Text
  pub ledger_height : Option Number

-- the fields of a prepared operation that no statement updates
pub record Identity : Type 0 where
  pub operation_key : Text
  pub job_id : Text
  pub generation : Number
  pub offer_hashes : List Text
  pub claim_inputs : List Text
  pub claim_payouts : Dict Text
  pub operation_kind : OperationKind
  pub ttl_expires_at_ms : Number
  pub deadline_at_ms : Number

pub record PreparedOperation : Type 0 where
  pub identity : Identity
  pub wallet_artifact_kind : Option ArtifactKind
  pub wallet_artifact_bytes : Option (List ℕ)
  pub receipt : Option Receipt

pub record TransitionPatch : Type 0 where
  pub wallet_artifact_kind : Option ArtifactKind
  pub wallet_artifact_bytes : Option (List ℕ)
  pub receipt : Option Receipt
  pub error_code : Option Text
  pub error_detail : Option Text
  pub retry_count : Option Number
  pub next_retry_at_ms : Option Number

-- The errors, with the name that the message begins with; `constraint` is a CHECK or UNIQUE of the
-- schema that a statement breaks, and `corrupt` a row that its reader refuses.
pub data JournalError : Type 0 where
  type_error capacity cas_conflict illegal constraint corrupt open_refused : Text → JournalError
  not_found : Text → JournalError
  closed : JournalError

abbrev pub Check : Type 0
Check = Result JournalError (Unit {0})

pub max_safe_integer : ℕ
max_safe_integer = 2 ^ 53 - 1

-- the order of numbers; only integers come to it
abbrev pub lt_num : Number → Number → Bool
lt_num (integer a) (integer b) = ltb_ℤ a b
lt_num (integer a) inexact = false
lt_num inexact b = false

abbrev pub le_num : Number → Number → Bool
le_num (integer a) (integer b) = leb_ℤ a b
le_num (integer a) inexact = false
le_num inexact b = false

abbrev pub add_num : Number → Number → Number
add_num (integer a) (integer b) = integer (a +ℤ b)
add_num (integer a) inexact = inexact
add_num inexact b = inexact

-- `Number.isSafeInteger(value) && value >= min`
pub is_safe_from : Number → Number → Bool
is_safe_from min (integer z) =
    (leb_ℤ z (pos max_safe_integer) && leb_ℤ (neg (pos max_safe_integer)) z)
    && le_num min (integer z)
is_safe_from min inexact = false

-- `requireSafeInteger`
pub require_safe_integer : Text → Number → Number → Check
unfolding is_safe_from
require_safe_integer name min value = throw_if (not (is_safe_from min value)) (type_error name)

abbrev pub at_least : ℕ → Number
at_least n = integer (pos n)

-- `requireText`
pub require_text : Text → ℕ → Text → Check
require_text name max value =
    throw_if (length value == 0 || (ltb max (length value) || any_of (λ c. c == 0) value))
      (type_error name)

-- `HEX_32.test`
pub is_hex_32 : Text → Bool
is_hex_32 s =
    length s == 64 && all_of (λ c. (leb b'0' c && leb c b'9') || (leb b'a' c && leb c b'f')) s

-- `requireHex32`
pub require_hex_32 : Text → Text → Check
require_hex_32 name value = throw_if (not (is_hex_32 value)) (type_error name)

-- `CANONICAL_UINT.test`
pub is_canonical_uint : Text → Bool
is_canonical_uint [] = false
is_canonical_uint (c ∷ s) =
    (c == b'0' && length s == 0) || ((leb b'1' c && leb c b'9') && all_of is_digit s)

pub each_hex_32 : Text → List Text → Check
unfolding require_hex_32
each_hex_32 name [] = ok tt
each_hex_32 name (v ∷ vs) = require_hex_32 name v >> each_hex_32 name vs

pub same_texts : List Text → List Text → Bool
unfolding eq_text
same_texts [] [] = true
same_texts [] (t ∷ ts) = false
same_texts (s ∷ ss) [] = false
same_texts (s ∷ ss) (t ∷ ts) = eq_text s t && same_texts ss ts

-- `requireUniqueSortedHex`
pub require_unique_sorted_hex : Text → List Text → Check
unfolding each_hex_32 same_texts
require_unique_sorted_hex name values = do
  throw_if (length values == 0) (type_error name)
  each_hex_32 name values
  throw_if (not (same_texts (sort_texts (add_all values [])) values)) (type_error name)

pub each_payout : Dict Text → Check
unfolding require_hex_32 is_canonical_uint
each_payout [] = ok tt
each_payout ((token, amount) ∷ ps) = do
  require_hex_32 (codes "claim.payouts token") token
  throw_if (not (is_canonical_uint amount)) (type_error (codes "claim payout"))
  each_payout ps

-- a check of a field that may be absent
abbrev pub optional {ℓ} : {A : Type ℓ} → (A → Check) → Option A → Check
optional check none = ok tt
optional check (some x) = check x

-- the loop of `requireReceipt`
pub check_fields : Receipt → Check
unfolding require_text require_safe_integer
check_fields r = do
  optional (require_text (codes "receipt.relayJobId") 1024) r.relay_job_id
  optional (require_text (codes "receipt.relayState") 1024) r.relay_state
  optional (require_text (codes "receipt.relayExtrinsicHash") 1024) r.relay_extrinsic_hash
  optional (require_text (codes "receipt.ledgerTxHash") 1024) r.ledger_tx_hash
  optional (require_safe_integer (codes "receipt.ledgerHeight") (at_least 0)) r.ledger_height

-- `requireReceipt`
pub require_receipt : Option Receipt → Check
unfolding check_fields
require_receipt r = optional check_fields r

-- `requirePrepared`, up to the deadline
pub check_identity : Identity → Check
unfolding require_text require_safe_integer require_unique_sorted_hex each_payout
check_identity i = do
  require_text (codes "operationKey") 512 i.operation_key
  require_text (codes "jobId") 512 i.job_id
  require_safe_integer (codes "generation") (at_least 0) i.generation
  require_unique_sorted_hex (codes "offerHashes") i.offer_hashes
  require_unique_sorted_hex (codes "claim.inputs") i.claim_inputs
  each_payout i.claim_payouts
  require_safe_integer (codes "ttlExpiresAtMs") (at_least 1) i.ttl_expires_at_ms
  require_safe_integer (codes "deadlineAtMs") (at_least 1) i.deadline_at_ms
  throw_if (lt_num i.ttl_expires_at_ms i.deadline_at_ms) (type_error (codes "deadlineAtMs"))

abbrev pub is_given {ℓ} : {A : Type ℓ} → Option A → Bool
is_given none = false
is_given (some x) = true

abbrev pub eq_bool : Bool → Bool → Bool
eq_bool true b = b
eq_bool false b = not b

-- the checks of the wallet artifact in `requirePrepared` and `validateTransitionPatch`
pub check_artifact : ℕ → Option ArtifactKind → Option (List ℕ) → Check
check_artifact max kind bytes = do
  throw_if (not (eq_bool (is_given kind) (is_given bytes))) (type_error (codes "wallet artifact"))
  optional (λ b. throw_if (ltb max (length b)) (capacity (codes "wallet artifact"))) bytes

-- `requirePrepared`; an unknown operation kind is no value of the type
pub require_prepared : ℕ → PreparedOperation → Check
unfolding check_identity check_artifact require_receipt
require_prepared max p = do
  check_identity p.identity
  check_artifact max p.wallet_artifact_kind p.wallet_artifact_bytes
  require_receipt p.receipt

-- `validateTransitionPatch`
pub validate_transition_patch : ℕ → TransitionPatch → Check
unfolding check_artifact require_text require_safe_integer require_receipt
validate_transition_patch max p = do
  check_artifact max p.wallet_artifact_kind p.wallet_artifact_bytes
  optional (require_text (codes "errorCode") 256) p.error_code
  optional (require_text (codes "errorDetail") 4096) p.error_detail
  optional (require_safe_integer (codes "retryCount") (at_least 0)) p.retry_count
  optional (require_safe_integer (codes "nextRetryAtMs") (at_least 1)) p.next_retry_at_ms
  require_receipt p.receipt

-- `safeAdd`
pub safe_add : Text → Number → Number → Result JournalError Number
unfolding require_safe_integer
safe_add name left right = do
  require_safe_integer name (at_least 1) (add_num left right)
  ok (add_num left right)
