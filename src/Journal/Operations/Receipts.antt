-- ===== src/Journal/Operations/Receipts.antt =====
-- What the writes of receipts leave in place.
use zswap_offerfiles_kernel.Prelude.{
  ℕ, ◌≡◌, refl, subst, ap, Bool, true, false, Option, none, some, List, arith, inl, inr, ok, err,
  ◌>>=◌, throw_if, >>-eq-ok, >>=-eq-ok, throw_if-eq-ok, Option-cases,
}
use zswap_offerfiles_kernel.Prelude.Int.{eq_of_parts}
use zswap_offerfiles_kernel.Prelude.Text.{Text, eq_text, eq_text_iff}
use zswap_offerfiles_kernel.Prelude.Number.{Number, integer, inexact}
use zswap_offerfiles_kernel.Journal.{Receipt, check_fields}
use zswap_offerfiles_kernel.Journal.Store.{
  Row, find_row, update_where, coalesce, eq_num, conflicts, merge_receipts, write_receipt,
}
use zswap_offerfiles_kernel.Journal.Readable.{IsReadable, merge_receipts_check}
use zswap_offerfiles_kernel.Journal.Rows.{Ascends, Pairwise, Pairwise-same_id}
use zswap_offerfiles_kernel.Journal.Operations.{same_id, write_given, write_receipt_row}

-- what was there is there
abbrev pub Kept : {A : Type 0} → Option A → Option A → Type 0
Kept none y = Unit
Kept (some x) y = y ≡ some x

pub record KeepsReceipt (old new : Receipt) : Type 0 where
  pub relay_job_id : Kept old.relay_job_id new.relay_job_id
  pub relay_state : Kept old.relay_state new.relay_state
  pub relay_extrinsic_hash : Kept old.relay_extrinsic_hash new.relay_extrinsic_hash
  pub ledger_tx_hash : Kept old.ledger_tx_hash new.ledger_tx_hash
  pub ledger_height : Kept old.ledger_height new.ledger_height

pub Kept-refl : {A : Type 0} (x : Option A) → Kept x x
Kept-refl none = tt
Kept-refl (some x) = refl

pub Kept-trans : {A : Type 0} (x y z : Option A) → Kept x y → Kept y z → Kept x z
Kept-trans none y z h k = tt
Kept-trans (some x) none z h k = cc
Kept-trans (some x) (some y) z h k = cc

pub KeepsReceipt-refl : (r : Receipt) → KeepsReceipt r r
KeepsReceipt-refl r = record {
  relay_job_id = Kept-refl r.relay_job_id;
  relay_state = Kept-refl r.relay_state;
  relay_extrinsic_hash = Kept-refl r.relay_extrinsic_hash;
  ledger_tx_hash = Kept-refl r.ledger_tx_hash;
  ledger_height = Kept-refl r.ledger_height;
}

pub KeepsReceipt-trans : (a b c : Receipt) → KeepsReceipt a b → KeepsReceipt b c → KeepsReceipt a c
KeepsReceipt-trans a b c h k = record {
  relay_job_id =
      Kept-trans a.relay_job_id b.relay_job_id c.relay_job_id h.relay_job_id k.relay_job_id;
  relay_state = Kept-trans a.relay_state b.relay_state c.relay_state h.relay_state k.relay_state;
  relay_extrinsic_hash =
      Kept-trans a.relay_extrinsic_hash b.relay_extrinsic_hash c.relay_extrinsic_hash
        h.relay_extrinsic_hash k.relay_extrinsic_hash;
  ledger_tx_hash =
      Kept-trans a.ledger_tx_hash b.ledger_tx_hash c.ledger_tx_hash h.ledger_tx_hash
        k.ledger_tx_hash;
  ledger_height =
      Kept-trans a.ledger_height b.ledger_height c.ledger_height h.ledger_height k.ledger_height;
}

coalesce-Kept :
    {A : Type 0} (eq : A → A → Bool) (new old : Option A)
    → ((x y : A) → eq x y ≡ true → x ≡ y)
    → conflicts eq new old ≡ false
    → Kept old (coalesce new old)
coalesce-Kept eq none none sound h = tt
coalesce-Kept eq none (some y) sound h = refl
coalesce-Kept eq (some x) none sound h = tt
coalesce-Kept eq (some x) (some y) sound h = ap some (sound x y (ground arith))

eq_text_sound : (s t : Text) → eq_text s t ≡ true → s ≡ t
eq_text_sound s t h = (eq_text_iff s t).0 h

pub eq_num_sound : (a b : Number) → eq_num a b ≡ true → a ≡ b
eq_num_sound (integer a) (integer b) h = ap integer (eq_of_parts a b (ground arith))
eq_num_sound (integer a) inexact h = cc
eq_num_sound inexact b h = cc

write_receipt-KeepsReceipt :
    (new old merged : Receipt)
    → write_receipt new old ≡ ok merged
    → KeepsReceipt old merged × (check_fields old ≡ ok tt → check_fields merged ≡ ok tt)
unfolding write_receipt
write_receipt-KeepsReceipt new old merged h =
    let (fine, h1) = >>-eq-ok (check_fields new) _ h in
    let (a, h2) =
      >>-eq-ok (throw_if (conflicts eq_text new.relay_job_id old.relay_job_id) _) _ h1 in
    let (b, h3) = >>-eq-ok (throw_if (conflicts eq_text new.relay_state old.relay_state) _) _ h2 in
    let (c, h4) =
      >>-eq-ok (throw_if (conflicts eq_text new.relay_extrinsic_hash old.relay_extrinsic_hash) _) _
        h3 in
    let (d, h5) =
      >>-eq-ok (throw_if (conflicts eq_text new.ledger_tx_hash old.ledger_tx_hash) _) _ h4 in
    let (e, h6) =
      >>-eq-ok (throw_if (conflicts eq_num new.ledger_height old.ledger_height) _) _ h5 in
    let same : merge_receipts new old ≡ merged = cc in
    subst (λ m. KeepsReceipt old m × (check_fields old ≡ ok tt → check_fields m ≡ ok tt)) same
      (
        record {
          relay_job_id =
              coalesce-Kept eq_text new.relay_job_id old.relay_job_id eq_text_sound
                (throw_if-eq-ok _ _ a);
          relay_state =
              coalesce-Kept eq_text new.relay_state old.relay_state eq_text_sound
                (throw_if-eq-ok _ _ b);
          relay_extrinsic_hash =
              coalesce-Kept eq_text new.relay_extrinsic_hash old.relay_extrinsic_hash eq_text_sound
                (throw_if-eq-ok _ _ c);
          ledger_tx_hash =
              coalesce-Kept eq_text new.ledger_tx_hash old.ledger_tx_hash eq_text_sound
                (throw_if-eq-ok _ _ d);
          ledger_height =
              coalesce-Kept eq_num new.ledger_height old.ledger_height eq_num_sound
                (throw_if-eq-ok _ _ e);
        },
        λ g. merge_receipts_check new old fine g,
      )

pub write_given-KeepsReceipt :
    (given : Option Receipt) (old merged : Receipt)
    → write_given given old ≡ ok merged
    → KeepsReceipt old merged × (check_fields old ≡ ok tt → check_fields merged ≡ ok tt)
unfolding write_given
write_given-KeepsReceipt none old merged h =
    let same : old ≡ merged = cc in
    subst (λ m. KeepsReceipt old m × (check_fields old ≡ ok tt → check_fields m ≡ ok tt)) same
      (KeepsReceipt-refl old, λ g. g)
write_given-KeepsReceipt (some new) old merged h = write_receipt-KeepsReceipt new old merged h

-- A row of which no more than the receipt and the time of the update are new.
pub record Annotated (r r' : Row) : Type 0 where
  pub id : r.id ≡ r'.id
  pub identity : r'.identity ≡ r.identity
  pub state : r'.lifecycle_state ≡ r.lifecycle_state
  pub receipt : KeepsReceipt r.receipt r'.receipt
  pub readable : IsReadable r → IsReadable r'

pub Annotated-refl : (r : Row) → Annotated r r
Annotated-refl r = record {
  id = refl;
  identity = refl;
  state = refl;
  receipt = KeepsReceipt-refl r.receipt;
  readable = λ h. h;
}

pub write_receipt_row-Annotated :
    (key : Text) (given : Option Receipt) (n m : ℕ) (rows rows' : List Row)
    → Ascends n m rows
    → write_receipt_row key given rows ≡ ok rows'
    → Pairwise Annotated rows rows'
unfolding write_receipt_row
write_receipt_row-Annotated key given n m rows rows' a h = elim (Option-cases (find_row key rows)) [
  | inl missing ↦ let bad : err _ ≡ ok rows' = rw (missing, write_receipt_row) at h in cc
  | inr (r, found) ↦
      let h' : (write_given given r.receipt >>= λ merged.
      ok (update_where (same_id r.id) (λ x. record x { receipt = merged }) rows))
          ≡ ok rows' =
        rw (found, write_receipt_row) at h in
      let (merged, w, e) = >>=-eq-ok (write_given given r.receipt) _ h' in
      let (keeps, check) = write_given-KeepsReceipt given r.receipt merged w in
      let same : update_where (same_id r.id) (λ x. record x { receipt = merged }) rows ≡ rows' =
        cc in
      subst (λ rs. Pairwise Annotated rows rs) same
        (Pairwise-same_id Annotated key n m (λ x. record x { receipt = merged }) rows r
          Annotated-refl a found (annotated r merged keeps check))
]
  where
    annotated :
        (r : Row) (merged : Receipt)
        → KeepsReceipt r.receipt merged
        → (check_fields r.receipt ≡ ok tt → check_fields merged ≡ ok tt)
        → Annotated r (record r { receipt = merged })
    annotated r merged keeps check = record {
      id = refl;
      identity = refl;
      state = refl;
      receipt = keeps;
      readable = λ h. record {
        identity = h.identity;
        artifact = h.artifact;
        receipt = check h.receipt;
        retention = h.retention;
        error_code = h.error_code;
        error_detail = h.error_detail;
        retry_count = h.retry_count;
        next_retry = h.next_retry;
      };
    }
