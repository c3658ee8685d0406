-- ===== src/Journal/Operations/Effects.antt =====
-- What each operation on the rows does to them.
use zswap_offerfiles_kernel.Prelude.{
  ℕ, ◌-◌, ◌≤◌, ◌≡◌, inl, inr, refl, sym, subst, ◌∙◌, true, false, not, ◌&&◌, Option, none, some,
  ◌==◌, length, any_of, keep_if, arith, Bool-cases, Result, ok, err, ◌>>◌, throw_if, >>-eq-ok,
  >>=-eq-ok, throw_if-eq-ok,
}
use zswap_offerfiles_kernel.Prelude.Int.{pos, negsuc, neg, +ℤ_parts}
use zswap_offerfiles_kernel.Prelude.Text.{Text, codes}
use zswap_offerfiles_kernel.Prelude.Number.{Number, integer, inexact}
use zswap_offerfiles_kernel.Journal.{
  LifecycleState, Receipt, PreparedOperation, TransitionPatch, JournalError, at_least,
  max_safe_integer, eq_state, is_terminal, is_allowed, is_given, is_safe_from, add_num,
  require_safe_integer, require_text, check_fields, check_identity, check_artifact,
  require_prepared, validate_transition_patch, safe_add,
}
use zswap_offerfiles_kernel.Journal.Store.{
  Row, Journal, Options, no_receipt, assert_open, check_clock, find_row, has_key, update_where,
  assert_within_ceilings,
}
use zswap_offerfiles_kernel.Journal.Readable.{
  IsReadable, IsPatch, validated-IsPatch, check_artifact_le, apply_patch-IsReadable,
}
use zswap_offerfiles_kernel.Journal.Rows.{
  Ascends, Pairwise-update_where, Pairwise-compose, Ascends-Pairwise,
}
use zswap_offerfiles_kernel.Journal.Operations.{
  committed, write_given, write_receipt_row, new_row, with_row, apply_patch, in_state,
  before_creation, insert_row, create_prepared, update_row, move_row, transition_current,
  transition, update_receipt, record_receipt, is_prunable, pruned, prune_candidates, prune_terminal,
}
use zswap_offerfiles_kernel.Journal.Operations.Receipts.{
  KeepsReceipt-refl, KeepsReceipt-trans, write_given-KeepsReceipt, Annotated,
  write_receipt_row-Annotated,
}
use zswap_offerfiles_kernel.Journal.Operations.Evolves.{
  AreOptions, MayBecome, Evolves, Evolves-refl, Effect, unchanged, inserted, changed, deleted,
  eq_state_sound,
}

add_num_grows :
    (ttl margin : Number)
    → is_safe_from (at_least 1) margin ≡ true
    → is_safe_from (at_least 1) (add_num ttl margin) ≡ true
    → is_safe_from ttl (add_num ttl margin) ≡ true
unfolding is_safe_from
add_num_grows (integer a) (integer (pos m)) h g = ground (arith, +ℤ_parts a (pos m))
add_num_grows (integer a) (integer (negsuc m)) h g = ground arith
add_num_grows (integer a) inexact h g = cc
add_num_grows inexact margin h g = cc

no_receipt_fine : check_fields no_receipt ≡ ok tt
unfolding check_fields
no_receipt_fine = refl

zero_fine : require_safe_integer (codes "retryCount") (at_least 0) (at_least 0) ≡ ok tt
unfolding require_safe_integer is_safe_from max_safe_integer neg
zero_fine = refl

new_row-IsReadable :
    (options : Options) (input : PreparedOperation) (id : ℕ) (retention now : Number)
    (receipt : Receipt)
    → AreOptions options
    → require_prepared options.max_artifact_bytes input ≡ ok tt
    → safe_add
        (codes "retentionUntilMs")
        input.identity.ttl_expires_at_ms
        options.reconciliation_margin_ms
      ≡ ok retention
    → write_given input.receipt no_receipt ≡ ok receipt
    → IsReadable (new_row id input retention now receipt)
unfolding require_prepared safe_add require_safe_integer
new_row-IsReadable options input id retention now receipt o fine kept w =
    let ttl = input.identity.ttl_expires_at_ms in
    let margin = options.reconciliation_margin_ms in
    let (i, f1) = >>-eq-ok (check_identity input.identity) _ fine in
    let (a, f2) =
      >>-eq-ok
        (check_artifact options.max_artifact_bytes input.wallet_artifact_kind
          input.wallet_artifact_bytes)
        _ f1 in
    let (safe, k1) =
      >>-eq-ok (throw_if (not (is_safe_from (at_least 1) (add_num ttl margin))) _) _ kept in
    let sum : add_num ttl margin ≡ retention = cc in
    let not_safe = throw_if-eq-ok _ _ safe in
    let grows = add_num_grows ttl margin o.margin (ground arith) in
    record {
      identity = i;
      artifact =
          check_artifact_le options.max_artifact_bytes max_safe_integer input.wallet_artifact_kind
            input.wallet_artifact_bytes o.artifact a;
      receipt = (write_given-KeepsReceipt input.receipt no_receipt receipt w).1 no_receipt_fine;
      retention = rw (← sum, grows);
      error_code = refl;
      error_detail = refl;
      retry_count = zero_fine;
      next_retry = refl;
    }

module _ (options : Options) (bytes_used : Journal → ℕ) where
  insert_row-Effect :
      (input : PreparedOperation) (now : Number) (s t : Journal)
      → AreOptions options
      → insert_row options bytes_used input now s ≡ ok t
      → Effect s t
  unfolding insert_row
  insert_row-Effect input now s t o h =
      let (h0, h1) = >>-eq-ok (assert_open s) _ h in
      let (fine, h2) = >>-eq-ok (require_prepared options.max_artifact_bytes input) _ h1 in
      let (h3, h4) = >>-eq-ok (check_clock now) _ h2 in
      let (retention, kept, h5) =
        >>=-eq-ok
          (safe_add (codes "retentionUntilMs") input.identity.ttl_expires_at_ms
            options.reconciliation_margin_ms)
          _ h4 in
      let (free, h6) =
        >>-eq-ok (throw_if (is_given (find_row input.identity.operation_key s.rows)) _) _ h5 in
      let (receipt, w, h7) = >>=-eq-ok (write_given input.receipt no_receipt) _ h6 in
      let (h8, h9) =
        >>-eq-ok
          (assert_within_ceilings options bytes_used
            (with_row (new_row s.next_id input retention now receipt) s))
          _ h7 in
      let same : t ≡ with_row (new_row s.next_id input retention now receipt) s = cc in
      inserted (new_row s.next_id input retention now receipt)
        (record {
          id = refl;
          key = none_of_given _ (throw_if-eq-ok _ _ free);
          state = refl;
          readable = new_row-IsReadable options input s.next_id retention now receipt o fine kept w;
        })
        same
    where
      none_of_given : (o : Option Row) → is_given o ≡ false → o ≡ none
      none_of_given none h = refl
      none_of_given (some r) h = cc

  committed-Effect :
      (key : Text) (s : Journal) (outcome : Result JournalError Journal)
      → ((t : Journal) → outcome ≡ ok t → Effect s t)
      → Effect s (committed key s outcome).1
  committed-Effect key s (err e) effect = unchanged refl
  committed-Effect key s (ok t) effect = effect t refl

  pub create_prepared-Effect :
      (input : PreparedOperation) (now : Number) (s : Journal)
      → AreOptions options
      → Effect s (create_prepared options bytes_used input now s).1
  unfolding create_prepared
  create_prepared-Effect input now s o =
      committed-Effect input.identity.operation_key s (insert_row options bytes_used input now s)
        (λ t h. insert_row-Effect input now s t o h)

  apply_patch-Evolves :
      (max : ℕ) (key : Text) (expected next : LifecycleState) (p : TransitionPatch) (now : Number)
      (r : Row)
      → max ≤ max_safe_integer
      → IsPatch max p
      → is_allowed expected next ≡ true
      → in_state key expected r ≡ true
      → Evolves r (apply_patch next p now r)
  apply_patch-Evolves max key expected next p now r small patch legal h =
      let same = eq_state_sound r.lifecycle_state expected (ground arith) in
      record {
        id = refl;
        identity = refl;
        state = inr (rw same legal);
        receipt = KeepsReceipt-refl r.receipt;
        readable = λ g. apply_patch-IsReadable max next p now r small patch g;
      }

  Evolves-Annotated : (x y z : Row) → Evolves x y → Annotated y z → Evolves x z
  Evolves-Annotated x y z e a = record {
    id = e.id ∙ a.id;
    identity = a.identity ∙ e.identity;
    state = subst (λ w. MayBecome x.lifecycle_state w) (sym a.state) e.state;
    receipt = KeepsReceipt-trans x.receipt y.receipt z.receipt e.receipt a.receipt;
    readable = λ h. a.readable (e.readable h);
  }

  update_row-Effect :
      (key : Text) (expected next : LifecycleState) (p : TransitionPatch) (now : Number)
      (s t : Journal)
      → options.max_artifact_bytes ≤ max_safe_integer
      → IsPatch options.max_artifact_bytes p
      → is_allowed expected next ≡ true
      → Ascends 0 s.next_id s.rows
      → update_row options bytes_used key expected next p now s ≡ ok t
      → Effect s t
  unfolding update_row
  update_row-Effect key expected next p now s t small patch legal asc h =
      let moved = update_where (in_state key expected) (apply_patch next p now) s.rows in
      let (h0, h1) =
        >>-eq-ok (throw_if (before_creation (in_state key expected) now s.rows) _) _ h in
      let (h2, h3) =
        >>-eq-ok (throw_if (not (length (keep_if (in_state key expected) s.rows) == 1)) _) _ h1 in
      let (rows, w, h4) = >>=-eq-ok (write_receipt_row key p.receipt moved) _ h3 in
      let (h5, h6) =
        >>-eq-ok (assert_within_ceilings options bytes_used (record s { rows = rows })) _ h4 in
      let same : t ≡ record s { rows = rows } = cc in
      let first =
        Pairwise-update_where Evolves (in_state key expected) (apply_patch next p now) s.rows
          Evolves-refl
          (λ x e.
            apply_patch-Evolves options.max_artifact_bytes key expected next p now x small patch
              legal e) in
      let asc' = Ascends-Pairwise Evolves 0 s.next_id s.rows moved (λ x y e. e.id) first asc in
      let second = write_receipt_row-Annotated key p.receipt 0 s.next_id moved rows asc' w in
      let both =
        Pairwise-compose Evolves Annotated Evolves s.rows moved rows Evolves-Annotated first
          second in
      rw same (changed both refl refl)

  move_row-Effect :
      (key : Text) (current : Row) (expected next : LifecycleState) (p : TransitionPatch)
      (now : Number) (s t : Journal)
      → AreOptions options
      → Ascends 0 s.next_id s.rows
      → move_row options bytes_used key current expected next p now s ≡ ok t
      → Effect s t
  unfolding move_row
  move_row-Effect key current expected next p now s t o asc h =
      let (h0, h1) = >>-eq-ok (throw_if (not (eq_state current.lifecycle_state expected)) _) _ h in
      let (legal, h2) = >>-eq-ok (throw_if (not (is_allowed expected next)) _) _ h1 in
      let (valid, h3) = >>-eq-ok (validate_transition_patch options.max_artifact_bytes p) _ h2 in
      let (h4, h5) = >>-eq-ok (check_clock now) _ h3 in
      let not_illegal = throw_if-eq-ok _ _ legal in
      update_row-Effect key expected next p now s t o.artifact
        (validated-IsPatch options.max_artifact_bytes p valid) (ground arith) asc h5

  transition_current-Effect :
      (key : Text) (expected next : LifecycleState) (p : TransitionPatch) (now : Number)
      (s : Journal) (read : Result JournalError Row)
      → AreOptions options
      → Ascends 0 s.next_id s.rows
      → Effect s (transition_current options bytes_used key expected next p now s read).1
  unfolding transition_current
  transition_current-Effect key expected next p now s (err e) o asc = unchanged refl
  transition_current-Effect key expected next p now s (ok current) o asc =
      elim (Bool-cases (eq_state current.lifecycle_state next && is_terminal next)) [
        | inl e ↦ rw e (unchanged refl)
        | inr e ↦ rw e (
            committed-Effect key s (move_row options bytes_used key current expected next p now s)
              (λ t h. move_row-Effect key current expected next p now s t o asc h))
      ]

  pub transition-Effect :
      (key : Text) (expected next : LifecycleState) (p : TransitionPatch) (now : Number)
      (s : Journal)
      → AreOptions options
      → Ascends 0 s.next_id s.rows
      → Effect s (transition options bytes_used key expected next p now s).1
  unfolding transition
  transition-Effect key expected next p now s o asc =
      transition_current-Effect key expected next p now s _ o asc

  touched-Evolves : (now : Number) (r : Row) → Evolves r (record r { updated_at_ms = now })
  touched-Evolves now r = record {
    id = refl;
    identity = refl;
    state = inl refl;
    receipt = KeepsReceipt-refl r.receipt;
    readable = λ h. record {
      identity = h.identity;
      artifact = h.artifact;
      receipt = h.receipt;
      retention = h.retention;
      error_code = h.error_code;
      error_detail = h.error_detail;
      retry_count = h.retry_count;
      next_retry = h.next_retry;
    };
  }

  Annotated-Evolves : (x y z : Row) → Annotated x y → Evolves y z → Evolves x z
  Annotated-Evolves x y z a e = record {
    id = a.id ∙ e.id;
    identity = e.identity ∙ a.identity;
    state = subst (λ w. MayBecome w z.lifecycle_state) a.state e.state;
    receipt = KeepsReceipt-trans x.receipt y.receipt z.receipt a.receipt e.receipt;
    readable = λ h. e.readable (a.readable h);
  }

  update_receipt-Effect :
      (key : Text) (receipt : Receipt) (now : Number) (s t : Journal)
      → Ascends 0 s.next_id s.rows
      → update_receipt options bytes_used key receipt now s ≡ ok t
      → Effect s t
  unfolding update_receipt
  update_receipt-Effect key receipt now s t asc h =
      let (h0, h1) = >>-eq-ok (assert_open s) _ h in
      let (h2, h3) = >>-eq-ok (require_text (codes "operationKey") 512 key) _ h1 in
      let (h4, h5) = >>-eq-ok (check_fields receipt) _ h3 in
      let (h6, h7) = >>-eq-ok (check_clock now) _ h5 in
      let (rows, w, h8) = >>=-eq-ok (write_receipt_row key (some receipt) s.rows) _ h7 in
      let (h9, h10) = >>-eq-ok (throw_if (before_creation (has_key key) now rows) _) _ h8 in
      let touched = update_where (has_key key) (λ r. record r { updated_at_ms = now }) rows in
      let (h11, h12) =
        >>-eq-ok (assert_within_ceilings options bytes_used (record s { rows = touched })) _ h10 in
      let same : t ≡ record s { rows = touched } = cc in
      let first = write_receipt_row-Annotated key (some receipt) 0 s.next_id s.rows rows asc w in
      let second =
        Pairwise-update_where Evolves (has_key key) (λ r. record r { updated_at_ms = now }) rows
          Evolves-refl (λ x e. touched-Evolves now x) in
      let both =
        Pairwise-compose Annotated Evolves Evolves s.rows rows touched Annotated-Evolves first
          second in
      rw same (changed both refl refl)

  pub record_receipt-Effect :
      (key : Text) (receipt : Receipt) (now : Number) (s : Journal)
      → Ascends 0 s.next_id s.rows
      → Effect s (record_receipt options bytes_used key receipt now s).1
  unfolding record_receipt
  record_receipt-Effect key receipt now s asc =
      committed-Effect key s (update_receipt options bytes_used key receipt now s)
        (λ t h. update_receipt-Effect key receipt now s t asc h)

  pub prune_terminal-Effect :
      (now : Number) (s t : Journal) (n : ℕ)
      → prune_terminal options bytes_used now s ≡ ok (n, t)
      → Effect s t
  unfolding prune_terminal prune_candidates
  prune_terminal-Effect now s t n h =
      let (h0, h1) = >>-eq-ok (assert_open s) _ h in
      let (h2, h3) = >>-eq-ok (require_safe_integer (codes "prune nowMs") (at_least 1) now) _ h1 in
      elim (Bool-cases (any_of (is_prunable now s.dust) s.rows)) [
        | inr none_there ↦ let same : t ≡ s = ground arith in unchanged same
        | inl there ↦
            let left : ℕ × Journal = (length s.rows - length (pruned now s).rows, pruned now s) in
            let h4 : (assert_within_ceilings options bytes_used (pruned now s) >> ok left)
                ≡ ok (n, t) =
              ground arith in
            let (h5, h6) =
              >>-eq-ok (assert_within_ceilings options bytes_used (pruned now s)) _ h4 in
            let same : t ≡ pruned now s = cc in deleted now same
      ]
