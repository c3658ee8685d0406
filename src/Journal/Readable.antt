-- ===== src/Journal/Readable.antt =====
-- Rows that `hydrate` lets through, and the patches that keep them so.
use zswap_offerfiles_kernel.Prelude.{
  ℕ, ◌≤◌, ◌≡◌, refl, Option, none, some, List, arith, ok, >>-eq-ok,
}
use zswap_offerfiles_kernel.Prelude.Text.{Text, codes}
use zswap_offerfiles_kernel.Prelude.Number.{Number}
use zswap_offerfiles_kernel.Journal.{
  LifecycleState, ArtifactKind, Receipt, TransitionPatch, Check, max_safe_integer, at_least,
  require_text, require_safe_integer, check_identity, check_artifact, check_fields, require_receipt,
  require_prepared, validate_transition_patch, optional,
}
use zswap_offerfiles_kernel.Journal.Store.{Row, hydrate, coalesce, merge_receipts}
use zswap_offerfiles_kernel.Journal.Operations.{apply_patch, or_number}

pub record IsReadable (r : Row) : Type 0 where
  pub identity : check_identity r.identity ≡ ok tt
  pub artifact :
      check_artifact max_safe_integer r.wallet_artifact_kind r.wallet_artifact_bytes ≡ ok tt
  pub receipt : check_fields r.receipt ≡ ok tt
  pub retention :
      require_safe_integer
        (codes "retentionUntilMs")
        r.identity.ttl_expires_at_ms
        r.retention_until_ms
      ≡ ok tt
  pub error_code : optional (require_text (codes "errorCode") 256) r.error_code ≡ ok tt
  pub error_detail : optional (require_text (codes "errorDetail") 4096) r.error_detail ≡ ok tt
  pub retry_count : require_safe_integer (codes "retryCount") (at_least 0) r.retry_count ≡ ok tt
  pub next_retry :
      optional (require_safe_integer (codes "nextRetryAtMs") (at_least 1)) r.next_retry_at_ms
      ≡ ok tt

pub hydrate-IsReadable : (r : Row) → IsReadable r → hydrate r ≡ ok tt
unfolding hydrate require_prepared validate_transition_patch require_receipt
hydrate-IsReadable r h = rw (
  h.identity, h.artifact, h.receipt, h.retention, h.error_code, h.error_detail, h.retry_count,
  h.next_retry,
)

-- what a validated patch has
pub record IsPatch (max : ℕ) (p : TransitionPatch) : Type 0 where
  pub artifact : check_artifact max p.wallet_artifact_kind p.wallet_artifact_bytes ≡ ok tt
  pub error_code : optional (require_text (codes "errorCode") 256) p.error_code ≡ ok tt
  pub error_detail : optional (require_text (codes "errorDetail") 4096) p.error_detail ≡ ok tt
  pub retry_count :
      optional (require_safe_integer (codes "retryCount") (at_least 0)) p.retry_count ≡ ok tt
  pub next_retry :
      optional (require_safe_integer (codes "nextRetryAtMs") (at_least 1)) p.next_retry_at_ms
      ≡ ok tt

pub validated-IsPatch :
    (max : ℕ) (p : TransitionPatch) → validate_transition_patch max p ≡ ok tt → IsPatch max p
unfolding validate_transition_patch
validated-IsPatch max p h =
    let (a, h1) =
      >>-eq-ok (check_artifact max p.wallet_artifact_kind p.wallet_artifact_bytes) _ h in
    let (b, h2) = >>-eq-ok (optional (require_text (codes "errorCode") 256) p.error_code) _ h1 in
    let (c, h3) =
      >>-eq-ok (optional (require_text (codes "errorDetail") 4096) p.error_detail) _ h2 in
    let (d, h4) =
      >>-eq-ok (optional (require_safe_integer (codes "retryCount") (at_least 0)) p.retry_count) _
        h3 in
    let (e, h5) =
      >>-eq-ok
        (optional (require_safe_integer (codes "nextRetryAtMs") (at_least 1)) p.next_retry_at_ms) _
        h4 in
    record { artifact = a; error_code = b; error_detail = c; retry_count = d; next_retry = e }

-- a larger ceiling lets more through
pub check_artifact_le :
    (m n : ℕ) (k : Option ArtifactKind) (b : Option (List ℕ))
    → m ≤ n
    → check_artifact m k b ≡ ok tt
    → check_artifact n k b ≡ ok tt
unfolding check_artifact
check_artifact_le m n none none l h = refl
check_artifact_le m n none (some b) l h = cc
check_artifact_le m n (some k) none l h = cc
check_artifact_le m n (some k) (some b) l h = ground arith

coalesce_artifact :
    (m : ℕ) (k k' : Option ArtifactKind) (b b' : Option (List ℕ))
    → check_artifact m k b ≡ ok tt
    → check_artifact m k' b' ≡ ok tt
    → check_artifact m (coalesce k k') (coalesce b b') ≡ ok tt
unfolding check_artifact
coalesce_artifact m none k' none b' h g = g
coalesce_artifact m none k' (some b) b' h g = cc
coalesce_artifact m (some k) k' none b' h g = cc
coalesce_artifact m (some k) k' (some b) b' h g = h

optional-coalesce :
    {A : Type 0} (check : A → Check) (new old : Option A)
    → optional check new ≡ ok tt
    → optional check old ≡ ok tt
    → optional check (coalesce new old) ≡ ok tt
optional-coalesce check none old h g = g
optional-coalesce check (some x) old h g = h

or_number_check :
    (new : Option Number) (old : Number)
    → optional (require_safe_integer (codes "retryCount") (at_least 0)) new ≡ ok tt
    → require_safe_integer (codes "retryCount") (at_least 0) old ≡ ok tt
    → require_safe_integer (codes "retryCount") (at_least 0) (or_number new old) ≡ ok tt
or_number_check none old h g = g
or_number_check (some n) old h g = h

pub apply_patch-IsReadable :
    (max : ℕ) (next : LifecycleState) (p : TransitionPatch) (now : Number) (r : Row)
    → max ≤ max_safe_integer
    → IsPatch max p
    → IsReadable r
    → IsReadable (apply_patch next p now r)
apply_patch-IsReadable max next p now r small h g = record {
  identity = g.identity;
  artifact =
      coalesce_artifact max_safe_integer p.wallet_artifact_kind r.wallet_artifact_kind
        p.wallet_artifact_bytes r.wallet_artifact_bytes
        (check_artifact_le max max_safe_integer p.wallet_artifact_kind p.wallet_artifact_bytes small
          h.artifact)
        g.artifact;
  receipt = g.receipt;
  retention = g.retention;
  error_code =
      optional-coalesce (require_text (codes "errorCode") 256) p.error_code r.error_code
        h.error_code g.error_code;
  error_detail =
      optional-coalesce (require_text (codes "errorDetail") 4096) p.error_detail r.error_detail
        h.error_detail g.error_detail;
  retry_count = or_number_check p.retry_count r.retry_count h.retry_count g.retry_count;
  next_retry =
      optional-coalesce (require_safe_integer (codes "nextRetryAtMs") (at_least 1))
        p.next_retry_at_ms r.next_retry_at_ms h.next_retry g.next_retry;
}

pub merge_receipts_check :
    (new old : Receipt)
    → check_fields new ≡ ok tt
    → check_fields old ≡ ok tt
    → check_fields (merge_receipts new old) ≡ ok tt
unfolding check_fields
merge_receipts_check new old h g =
    let text = λ (name : Text). require_text name 1024 in
    let height = require_safe_integer (codes "receipt.ledgerHeight") (at_least 0) in
    let (a, h1) = >>-eq-ok (optional (text (codes "receipt.relayJobId")) new.relay_job_id) _ h in
    let (b, h2) = >>-eq-ok (optional (text (codes "receipt.relayState")) new.relay_state) _ h1 in
    let (c, h3) =
      >>-eq-ok (optional (text (codes "receipt.relayExtrinsicHash")) new.relay_extrinsic_hash) _
        h2 in
    let (d, e) =
      >>-eq-ok (optional (text (codes "receipt.ledgerTxHash")) new.ledger_tx_hash) _ h3 in
    let (a', g1) = >>-eq-ok (optional (text (codes "receipt.relayJobId")) old.relay_job_id) _ g in
    let (b', g2) = >>-eq-ok (optional (text (codes "receipt.relayState")) old.relay_state) _ g1 in
    let (c', g3) =
      >>-eq-ok (optional (text (codes "receipt.relayExtrinsicHash")) old.relay_extrinsic_hash) _
        g2 in
    let (d', e') =
      >>-eq-ok (optional (text (codes "receipt.ledgerTxHash")) old.ledger_tx_hash) _ g3 in
    rw (
      optional-coalesce (text (codes "receipt.relayJobId")) new.relay_job_id old.relay_job_id a a',
      optional-coalesce (text (codes "receipt.relayState")) new.relay_state old.relay_state b b',
      optional-coalesce (text (codes "receipt.relayExtrinsicHash")) new.relay_extrinsic_hash
          old.relay_extrinsic_hash c c',
      optional-coalesce (text (codes "receipt.ledgerTxHash")) new.ledger_tx_hash old.ledger_tx_hash
          d d',
      optional-coalesce height new.ledger_height old.ledger_height e e',
    )
